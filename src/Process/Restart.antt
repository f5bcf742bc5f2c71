-- ===== src/Process/Restart.antt =====
-- process/lifecycle.go: `StartCommand`, `Restart` and `StartOrReuse` up to the call of `Start`.
use go_cli_server.Prelude.{
  ℕ, zero, suc, Bool, true, false, ◌&&◌, ◌≡◌, ◌⊎◌, refl, ap, arith, Bool-cases, inl, inr, Option,
  none, some, List, [], ◌∷◌, if◌then◌else◌, Result, ok, err, ℤ, pos, negsuc, ltb, ◌==◌, ap₂, ◌||◌,
  ltb_ℤ, eq_ℤ,
}
use go_cli_server.Text.{Bytes, same, is_some, is_empty}
use go_cli_server.Protocol.Registry.{lookup}
use go_cli_server.Scheduler.Tasks.{delete}
use go_cli_server.Process.RingBuffer.{new_ring_buffer, with_capacity, default_buffer_size}
use go_cli_server.Process.Managed.{
  ManagedProcess, ProcessConfig, ProcessState, ProcessError, pending, starting, running, stopping,
  stopped, failed, process_not_found, same_state, new_managed_process,
}
use go_cli_server.Process.Manager.{
  Heap, ProcessManager, process_key, remove_by_path, remove_key, removed_at, get_by_path,
  or_not_found,
}
use go_cli_server.Process.Tickets.{remove_by_path-Same}

-- `ManagerConfig` without the tracker.
pub record ManagerConfig : Type 0 where
  pub default_timeout : ℤ
  pub max_output_buffer : ℤ
  pub graceful_timeout : ℤ
  pub health_check_period : ℤ

-- `DefaultManagerConfig`, in nanoseconds.
unfoldable pub default_manager_config : ManagerConfig
default_manager_config = record {
  default_timeout = pos 0;
  max_output_buffer = pos default_buffer_size;
  graceful_timeout = pos 5000000000;
  health_check_period = pos 10000000000;
}

abbrev or_buffer : ManagerConfig → ProcessConfig → ProcessConfig
or_buffer m cfg =
    if ltb_ℤ (pos 0) cfg.buffer_size then cfg else record cfg { buffer_size = m.max_output_buffer }

abbrev or_timeout : ManagerConfig → ProcessConfig → ProcessConfig
or_timeout m cfg =
    if eq_ℤ cfg.timeout (pos 0) && ltb_ℤ (pos 0) m.default_timeout
    then record cfg { timeout = m.default_timeout }
    else cfg

-- What `StartCommand` and `StartOrReuse` fill in.
unfoldable pub with_defaults : ManagerConfig → ProcessConfig → ProcessConfig
with_defaults m cfg = or_timeout m (or_buffer m cfg)

-- The configuration that `Restart` starts again.
unfoldable pub restart_config : Bytes → ManagedProcess → ProcessConfig
restart_config id p = record {
  id = id;
  project_path = p.project_path;
  working_dir = p.working_dir;
  command = p.command;
  args = p.args;
  env = p.env;
  labels = p.labels;
  buffer_size = pos p.stdout.capacity;
  timeout = p.timeout;
  enable_stdin = p.stdin_enabled;
  output_callback = p.output_callback;
}

-- What `StartOrReuse` does: it answers with a process, it gives up with the error of its context, or
-- it goes on to start a new one, where the flag says that `Cleaned` is set.
pub data Reuse : Type 0 where
  reused : ℕ → Reuse
  gave_up : Reuse
  starts_new : Bool → Reuse

-- `waited` is the end of the wait for a process that is stopping: the manager that is found once its
-- `Done` is closed, or nothing when the context has ended first.
unfoldable pub reuse_state :
    ProcessManager
    → Option ProcessManager
    → Bytes
    → Bytes
    → ℕ
    → ProcessState
    → ProcessManager × Reuse
unfolding remove_by_path
reuse_state m waited id path i pending = ((remove_by_path m id path).0, starts_new false)
reuse_state m waited id path i starting = (m, reused i)
reuse_state m waited id path i running = (m, reused i)
reuse_state m none id path i stopping = (m, gave_up)
reuse_state m (some later) id path i stopping = ((remove_by_path later id path).0, starts_new true)
reuse_state m waited id path i stopped = ((remove_by_path m id path).0, starts_new true)
reuse_state m waited id path i failed = ((remove_by_path m id path).0, starts_new true)

unfoldable pub reuse_found :
    Heap
    → ProcessManager
    → Option ProcessManager
    → Bytes
    → Bytes
    → Result ProcessError ℕ
    → ProcessManager × Reuse
unfolding reuse_state
reuse_found heap m waited id path (err e) = (m, starts_new false)
reuse_found heap m waited id path (ok i) = reuse_state m waited id path i (heap i).state

-- `StartOrReuse` up to `Start`.
unfoldable pub start_or_reuse :
    Heap → ProcessManager → Option ProcessManager → Bytes → Bytes → ProcessManager × Reuse
unfolding get_by_path reuse_found
start_or_reuse heap m waited id path = reuse_found heap m waited id path (get_by_path m id path)

working_dir-twice :
    (w p : Bytes) → let d = (if is_empty w then p else w) in (if is_empty d then p else d) ≡ d
working_dir-twice [] [] = refl
working_dir-twice [] (c ∷ p) = refl
working_dir-twice (c ∷ w) p = refl

-- The size of the buffers for a configured size.
abbrev size_of : ℤ → ℤ
size_of z = if ltb_ℤ (pos 0) z then z else pos default_buffer_size

new_ring_buffer-twice :
    (z : ℤ)
    → new_ring_buffer (size_of (pos (new_ring_buffer (size_of z)).capacity))
      ≡ new_ring_buffer (size_of z)
unfolding new_ring_buffer with_capacity
new_ring_buffer-twice (pos zero) = refl
new_ring_buffer-twice (pos (suc n)) =
    let positive : ltb 0 (suc n) ≡ true = ground arith in
    let some_size : (suc n == 0) ≡ false = ground arith in
    rw positive (rw some_size (rw positive (rw some_size refl)))
new_ring_buffer-twice (negsuc n) = refl

-- A restart begins with the process that the first configuration makes.
pub new-restart_config :
    (cfg : ProcessConfig)
    → new_managed_process (restart_config cfg.id (new_managed_process cfg))
      ≡ new_managed_process cfg
unfolding new_managed_process restart_config
new-restart_config cfg =
    ap₂ (λ d b. record (new_managed_process cfg) { working_dir = d; stdout = b; stderr = b })
      (working_dir-twice cfg.working_dir cfg.project_path) (new_ring_buffer-twice cfg.buffer_size)

lookup-delete : (k : Bytes) (m : List (Bytes × ℕ)) → lookup k (delete k m) ≡ none
unfolding lookup delete
lookup-delete k [] = refl
lookup-delete k ((j, i) ∷ m) = elim (Bool-cases (same j k)) [
  | inl e ↦ rw e (lookup-delete k m)
  | inr e ↦ rw (e, e) (lookup-delete k m)
]

get_by_path-removed :
    (m : ProcessManager) (id path : Bytes)
    → get_by_path (remove_by_path m id path).0 id path ≡ err process_not_found
unfolding get_by_path remove_by_path remove_key
get_by_path-removed m id path = found (lookup (process_key id path) m.processes) refl
  where
    found :
        (o : Option ℕ)
        → lookup (process_key id path) m.processes ≡ o
        → or_not_found (
            lookup
              (process_key id path)
              (removed_at m (process_key id path) (is_some o)).0.processes)
          ≡ err process_not_found
    found none e = ap or_not_found e
    found (some i) e = ap or_not_found (lookup-delete (process_key id path) m.processes)

only_not_found :
    (o : Option ℕ) (x : ProcessError)
    → or_not_found o ≡ err x
    → or_not_found o ≡ err process_not_found
only_not_found none x e = refl
only_not_found (some i) x e = cc

module _ (heap : Heap) (m : ProcessManager) (waited : Option ProcessManager) (id path : Bytes) where
  -- The process under the ID and the path, and a fact about its state.
  abbrev pub Found : (ProcessState → Type 0) → Type 0
  Found P = (i : ℕ) × (get_by_path m id path ≡ ok i) × P (heap i).state

  -- Nothing is left under the ID and the path in `n`, which is otherwise the manager of before.
  abbrev pub Removed : ProcessManager → ProcessManager → Type 0
  Removed n before =
      (n ≡ (remove_by_path before id path).0)
      × (get_by_path n id path ≡ err process_not_found)
      × (n.is_shutting_down ≡ before.is_shutting_down)

  -- When a new process is started, without and with `Cleaned`.
  abbrev pub StartsNew : ProcessManager → Bool → Type 0
  StartsNew n false =
      ((n ≡ m) × (get_by_path m id path ≡ err process_not_found))
      ⊎ (Found (λ s. s ≡ pending) × Removed n m)
  StartsNew n true =
      (Found (λ s. (same_state s stopped || same_state s failed) ≡ true) × Removed n m)
      ⊎ (Found (λ s. s ≡ stopping)
          × ((later : ProcessManager) × (waited ≡ some later) × Removed n later))

  -- The only case in which each answer is given.
  unfoldable pub IsReuse : ProcessManager × Reuse → Type 0
  IsReuse (n, reused i) =
      (n ≡ m)
      × (get_by_path m id path ≡ ok i)
      × (((heap i).state ≡ starting) ⊎ ((heap i).state ≡ running))
  IsReuse (n, gave_up) = (n ≡ m) × Found (λ s. s ≡ stopping) × (waited ≡ none)
  IsReuse (n, starts_new cleaned) = StartsNew n cleaned

  removed : (before : ProcessManager) → Removed (remove_by_path before id path).0 before
  removed before =
      (refl, get_by_path-removed before id path, (remove_by_path-Same before id path).1)

  -- `StartOrReuse` up to `Start`: it answers with a process only if it is the one under that ID and
  -- path, and is starting or running; it gives up only if that process is stopping and the context
  -- ends before the wait; it starts a new one with `Cleaned` only if that process is stopped or
  -- failed, or was stopping and the wait is over; and without `Cleaned` only if there is none, or
  -- one that is pending. A process it found is then removed, in the last case from the manager
  -- found after the wait, so that none is left under that ID and path.
  pub start_or_reuse-IsReuse : IsReuse (start_or_reuse heap m waited id path)
  unfolding start_or_reuse reuse_found reuse_state IsReuse
  start_or_reuse-IsReuse = by_answer (get_by_path m id path) refl
    where
      by_state :
          (i : ℕ) (s : ProcessState) (o : Option ProcessManager)
          → get_by_path m id path ≡ ok i
          → (heap i).state ≡ s
          → waited ≡ o
          → IsReuse (reuse_state m o id path i s)
      by_state i pending o e q h = inr ((i, e, q), removed m)
      by_state i starting o e q h = (refl, e, inl q)
      by_state i running o e q h = (refl, e, inr q)
      by_state i stopping none e q h = (refl, (i, e, q), h)
      by_state i stopping (some later) e q h = inr ((i, e, q), (later, h, removed later))
      by_state i stopped o e q h =
          inl ((i, e, ap (λ s. same_state s stopped || same_state s failed) q), removed m)
      by_state i failed o e q h =
          inl ((i, e, ap (λ s. same_state s stopped || same_state s failed) q), removed m)

      by_answer :
          (r : Result ProcessError ℕ)
          → get_by_path m id path ≡ r
          → IsReuse (reuse_found heap m waited id path r)
      by_answer (ok i) e = by_state i (heap i).state waited e refl refl
      by_answer (err x) e = inl (
        refl,
        unfold get_by_path in only_not_found (lookup (process_key id path) m.processes) x e,
      )
