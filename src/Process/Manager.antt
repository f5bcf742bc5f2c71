-- ===== src/Process/Manager.antt =====
-- `ProcessManager` of process/manager.go: the registry of the processes and its counters. A pointer to
-- a process is a number, and `heap` gives what it points to; each access of the map is one step.
use go_cli_server.Prelude.{
  ℕ, zero, suc, Bool, true, false, ◌&&◌, Option, none, some, List, [], ◌∷◌, ◌++◌, if◌then◌else◌,
  Result, ok, err, ℤ, pos, negsuc, eq_ℤ, ltb_ℤ,
}
use go_cli_server.Text.{Bytes, same, is_some}
use go_cli_server.Protocol.Registry.{lookup, store}
use go_cli_server.Scheduler.Tasks.{delete}
use go_cli_server.Process.Managed.{
  ManagedProcess, ProcessError, process_exists, process_not_found, process_ambiguous, shutting_down,
  is_running, write_stdin,
}

-- The memory of the processes.
abbrev pub Heap : Type 0
Heap = ℕ → ManagedProcess

-- `ProcessManager`: the map, the counters, the shutdown flag and the count of the `WaitGroup`.
pub record ProcessManager : Type 0 where
  pub processes : List (Bytes × ℕ)
  pub active_count : ℤ
  pub total_started : ℕ
  pub total_failed : ℕ
  pub is_shutting_down : Bool
  pub wait_group : ℕ

-- `NewProcessManager` for a `HealthCheckPeriod`: a loop of health checks takes a ticket.
unfoldable pub new_process_manager : ℤ → ProcessManager
new_process_manager period = record {
  processes = [];
  active_count = pos 0;
  total_started = 0;
  total_failed = 0;
  is_shutting_down = false;
  wait_group = if ltb_ℤ (pos 0) period then 1 else 0;
}

-- `processKey`.
unfoldable pub process_key : Bytes → Bytes → Bytes
process_key id path = path ++ 0 ∷ id

-- `Add(1)` and `Add(-1)` on a counter.
abbrev pub up : ℤ → ℤ
up (pos n) = pos (suc n)
up (negsuc zero) = pos 0
up (negsuc (suc n)) = negsuc n

abbrev pub down : ℤ → ℤ
down (pos zero) = negsuc 0
down (pos (suc n)) = pos n
down (negsuc n) = negsuc (suc n)

-- The key under which `Register` puts a process.
abbrev pub key_of : ManagedProcess → Bytes
key_of p = process_key p.id p.project_path

abbrev pub register_at :
    ProcessManager → Bytes → ℕ → Option ℕ → ProcessManager × Result ProcessError Bool
register_at m key i (some j) = (m, err process_exists)
register_at m key i none = (
  record m {
    processes = store key i m.processes;
    active_count = up m.active_count;
    total_started = suc m.total_started;
  },
  ok true,
)

-- `Register`; the answer `true` stands for no error.
unfoldable pub register : Heap → ProcessManager → ℕ → ProcessManager × Result ProcessError Bool
unfolding process_key lookup store
register heap m i =
    let key = key_of (heap i) in
    if m.is_shutting_down
    then (m, err shutting_down)
    else register_at m key i (lookup key m.processes)

-- The processes with an ID, in the order in which the map shows them; the loops of `Get` and
-- `Remove` see the first two of them.
unfoldable pub with_id : Heap → Bytes → List (Bytes × ℕ) → List (Bytes × ℕ)
unfolding same
with_id heap id [] = []
with_id heap id ((k, i) ∷ ps) =
    let rest = with_id heap id ps in if same (heap i).id id then (k, i) ∷ rest else rest

abbrev pub only_one : List (Bytes × ℕ) → Result ProcessError (Bytes × ℕ)
only_one [] = err process_not_found
only_one (x ∷ []) = ok x
only_one (x ∷ y ∷ zs) = err process_ambiguous

abbrev pub pointer_of : Result ProcessError (Bytes × ℕ) → Result ProcessError ℕ
pointer_of (ok (k, i)) = ok i
pointer_of (err e) = err e

-- `Get`.
unfoldable pub get : Heap → ProcessManager → Bytes → Result ProcessError ℕ
unfolding with_id
get heap m id = pointer_of (only_one (with_id heap id m.processes))

abbrev pub or_not_found : Option ℕ → Result ProcessError ℕ
or_not_found none = err process_not_found
or_not_found (some i) = ok i

-- `GetByPath`.
unfoldable pub get_by_path : ProcessManager → Bytes → Bytes → Result ProcessError ℕ
unfolding process_key lookup
get_by_path m id path = or_not_found (lookup (process_key id path) m.processes)

abbrev pub removed_at : ProcessManager → Bytes → Bool → ProcessManager × Bool
removed_at m key false = (m, false)
removed_at m key true =
    (record m { processes = delete key m.processes; active_count = down m.active_count }, true)

-- `LoadAndDelete` with the counter.
unfoldable pub remove_key : ProcessManager → Bytes → ProcessManager × Bool
unfolding lookup delete
remove_key m key = removed_at m key (is_some (lookup key m.processes))

unfoldable pub remove_found :
    ProcessManager → Result ProcessError (Bytes × ℕ) → ProcessManager × Bool
unfolding remove_key
remove_found m (err e) = (m, false)
remove_found m (ok (k, i)) = remove_key m k

-- `Remove`; a key always has the zero byte, so that it is not empty.
unfoldable pub remove : Heap → ProcessManager → Bytes → ProcessManager × Bool
unfolding with_id remove_found
remove heap m id = remove_found m (only_one (with_id heap id m.processes))

-- `RemoveByPath`.
unfoldable pub remove_by_path : ProcessManager → Bytes → Bytes → ProcessManager × Bool
unfolding process_key remove_key
remove_by_path m id path = remove_key m (process_key id path)

-- `List`; the order of a Go map is not fixed.
unfoldable pub list_processes : List (Bytes × ℕ) → List ℕ
list_processes [] = []
list_processes ((k, i) ∷ ps) = i ∷ list_processes ps

abbrev value_or_nil : Option Bytes → Bytes
value_or_nil none = []
value_or_nil (some v) = v

-- The test of `ListByLabel`: a label that is missing reads as the empty one.
unfoldable pub has_label : Bytes → Bytes → Option (List (Bytes × Bytes)) → Bool
unfolding lookup same
has_label key value none = false
has_label key value (some labels) = same (value_or_nil (lookup key labels)) value

-- `ListByLabel`.
unfoldable pub list_by_label : Heap → Bytes → Bytes → List (Bytes × ℕ) → List ℕ
unfolding has_label
list_by_label heap key value [] = []
list_by_label heap key value ((k, i) ∷ ps) =
    let rest = list_by_label heap key value ps in
    if has_label key value (heap i).labels then i ∷ rest else rest

-- The loops of `GetByPID` and `lookupByPID`, up to the first process that passes the test.
unfoldable pub find_process : (ManagedProcess → Bool) → Heap → List (Bytes × ℕ) → Option ℕ
find_process test heap [] = none
find_process test heap ((k, i) ∷ ps) =
    let rest = find_process test heap ps in if test (heap i) then some i else rest

-- `GetByPID`.
unfoldable pub get_by_pid : Heap → ProcessManager → ℤ → Option ℕ
unfolding find_process is_running
get_by_pid heap m pid = find_process (λ p. eq_ℤ p.pid pid && is_running p) heap m.processes

-- `lookupByPID`.
unfoldable pub lookup_by_pid : Heap → ProcessManager → ℤ → Option ℕ
unfolding find_process
lookup_by_pid heap m pid = find_process (λ p. eq_ℤ p.pid pid) heap m.processes

-- `IsManagedPID`.
unfoldable pub is_managed_pid : Heap → ProcessManager → ℤ → Bool
unfolding get_by_pid
is_managed_pid heap m pid = is_some (get_by_pid heap m pid)

-- `IncrementFailed`.
unfoldable pub increment_failed : ProcessManager → ProcessManager
increment_failed m = record m { total_failed = suc m.total_failed }

unfoldable pub write_to {ℓ} :
    {R : Type ℓ} → Heap → (Bytes → R) → Bytes → Result ProcessError ℕ → Result ProcessError R
unfolding write_stdin
write_to heap pipe bytes (err e) = err e
write_to heap pipe bytes (ok i) = write_stdin pipe (heap i) bytes

-- `WriteStdin`.
unfoldable pub write_process_stdin {ℓ} :
    {R : Type ℓ} → Heap → ProcessManager → (Bytes → R) → Bytes → Bytes → Result ProcessError R
unfolding get write_to
write_process_stdin heap m pipe id bytes = write_to heap pipe bytes (get heap m id)
