-- ===== src/Process/Managed.antt =====
-- `ManagedProcess` of process/process.go. Times are nanoseconds; the operating system's side of the
-- command is seen by its process ID only.
use go_cli_server.Prelude.{
  ℕ, zero, suc, ◌+◌, ◌-◌, ◌/◌, ◌%◌, ◌^◌, Bool, true, false, ◌||◌, not, ◌==◌, ltb, Option, none,
  some, List, [], ◌∷◌, ◌++◌, if◌then◌else◌, Result, ok, err, ℤ, pos, negsuc, ltb_ℤ, eq_ℤ,
}
use go_cli_server.Text.{Bytes, is_empty}
use go_cli_server.Protocol.{text}
use go_cli_server.Process.RingBuffer.{RingBuffer, new_ring_buffer, snapshot, default_buffer_size}

-- `ProcessState`, in the order of the constants.
pub data ProcessState : Type 0 where
  pending starting running stopping stopped failed : ProcessState

-- `ProcessState.String`.
unfoldable pub state_name : ProcessState → Bytes
state_name pending = text "pending"
state_name starting = text "starting"
state_name running = text "running"
state_name stopping = text "stopping"
state_name stopped = text "stopped"
state_name failed = text "failed"

abbrev pub state_number : ProcessState → ℕ
state_number pending = 0
state_number starting = 1
state_number running = 2
state_number stopping = 3
state_number stopped = 4
state_number failed = 5

-- `==` on states.
abbrev pub same_state : ProcessState → ProcessState → Bool
same_state a b = state_number a == state_number b

-- The errors of process/manager.go.
pub data ProcessError : Type 0 where
  process_exists process_not_found process_ambiguous : ProcessError
  invalid_state shutting_down stdin_not_enabled : ProcessError
  pipe_failed spawn_failed : ProcessError

-- `ProcessConfig`, where a callback is only set or not.
pub record ProcessConfig : Type 0 where
  pub id : Bytes
  pub project_path : Bytes
  pub working_dir : Bytes
  pub command : Bytes
  pub args : List Bytes
  pub env : List Bytes
  pub labels : Option (List (Bytes × Bytes))
  pub buffer_size : ℤ
  pub timeout : ℤ
  pub enable_stdin : Bool
  pub output_callback : Bool

-- `ManagedProcess`: `spawned` is the process ID in `cmd.Process`, `stdin_open` says that the pipe is
-- there, `cancelled` that the context is, and `closes` counts the calls of `close` on `done`.
pub record ManagedProcess : Type 0 where
  pub id : Bytes
  pub project_path : Bytes
  pub working_dir : Bytes
  pub command : Bytes
  pub args : List Bytes
  pub env : List Bytes
  pub labels : Option (List (Bytes × Bytes))
  pub state : ProcessState
  pub pid : ℤ
  pub spawned : Option ℕ
  pub stdout : RingBuffer
  pub stderr : RingBuffer
  pub stdin_open : Bool
  pub stdin_enabled : Bool
  pub output_callback : Bool
  pub start_time : Option ℕ
  pub end_time : Option ℕ
  pub exit_code : ℤ
  pub cancelled : Bool
  pub closes : ℕ
  pub descendants : Option (List ℕ)
  pub timeout : ℤ

-- `int32(x)`.
abbrev signed_32 : ℕ → ℤ
signed_32 m = if ltb m (2 ^ 31) then pos m else negsuc (2 ^ 32 - 1 - m)

unfoldable pub to_int32 : ℤ → ℤ
to_int32 (pos n) = signed_32 (n % 2 ^ 32)
to_int32 (negsuc n) = signed_32 (2 ^ 32 - 1 - n % 2 ^ 32)

-- `NewManagedProcess`.
unfoldable pub new_managed_process : ProcessConfig → ManagedProcess
unfolding new_ring_buffer
new_managed_process cfg =
    let size = if ltb_ℤ (pos 0) cfg.buffer_size then cfg.buffer_size else pos default_buffer_size in
    record {
      id = cfg.id;
      project_path = cfg.project_path;
      working_dir = if is_empty cfg.working_dir then cfg.project_path else cfg.working_dir;
      command = cfg.command;
      args = cfg.args;
      env = cfg.env;
      labels = cfg.labels;
      state = pending;
      pid = negsuc 0;
      spawned = none;
      stdout = new_ring_buffer size;
      stderr = new_ring_buffer size;
      stdin_open = false;
      stdin_enabled = cfg.enable_stdin;
      output_callback = cfg.output_callback;
      start_time = none;
      end_time = none;
      exit_code = negsuc 0;
      cancelled = false;
      closes = 0;
      descendants = none;
      timeout = cfg.timeout;
    }

-- `SetState`.
unfoldable pub set_state : ProcessState → ManagedProcess → ManagedProcess
set_state s p = record p { state = s }

-- `CompareAndSwapState`.
unfoldable pub compare_and_swap_state :
    ProcessState → ProcessState → ManagedProcess → ManagedProcess × Bool
unfolding set_state
compare_and_swap_state expected new p =
    if same_state p.state expected then (set_state new p, true) else (p, false)

-- `IsRunning`.
unfoldable pub is_running : ManagedProcess → Bool
is_running p = same_state p.state running

-- `IsDone`.
unfoldable pub is_done : ManagedProcess → Bool
is_done p = same_state p.state stopped || same_state p.state failed

abbrev since : ℕ → Option ℕ → Option ℕ → ℕ
since now none end = 0
since now (some start) none = now - start
since now (some start) (some end) = end - start

-- `Runtime`, where the clock does not go back.
unfoldable pub runtime : ℕ → ManagedProcess → ℕ
runtime now p = since now p.start_time p.end_time

-- `SetDescendants`.
unfoldable pub set_descendants : List ℕ → ManagedProcess → ManagedProcess
set_descendants pids p = record p { descendants = some pids }

abbrev or_nil : Option (List ℕ) → List ℕ
or_nil none = []
or_nil (some pids) = pids

-- `Descendants`.
unfoldable pub descendants_of : ManagedProcess → List ℕ
descendants_of p = or_nil p.descendants

-- `CombinedOutput`.
unfoldable pub combined_output : ManagedProcess → Bytes × Bool
unfolding snapshot
combined_output p =
    let out = snapshot p.stdout in
    let errors = snapshot p.stderr in (out.0 ++ errors.0, out.1 || errors.1)

-- `WriteStdin`, where `pipe` is the pipe's `Write`.
unfoldable pub write_stdin {ℓ} :
    {R : Type ℓ} → (Bytes → R) → ManagedProcess → Bytes → Result ProcessError R
unfolding is_running
write_stdin pipe p bytes =
    if not p.stdin_enabled || not p.stdin_open
    then err stdin_not_enabled
    else if not (is_running p)
    then err invalid_state
    else ok (pipe bytes)

-- `Cancel`.
unfoldable pub cancel : ManagedProcess → ManagedProcess
cancel p = record p { cancelled = true }

-- The loop of `itoa`: `at` is the first used place of the array; a write before it panics.
unfoldable pub fill_digits : ℕ → ℕ → Bytes → Option (ℕ × Bytes)
fill_digits zero i used = if i == 0 then some (0, used) else none
fill_digits (suc at) i used =
    let rest = fill_digits at (i / 10) ((48 + i % 10) ∷ used) in
    if i == 0 then some (suc at, used) else rest

abbrev pub put_sign : Option (ℕ × Bytes) → Option Bytes
put_sign none = none
put_sign (some (zero, used)) = none
put_sign (some (suc at, used)) = some (hyphen_sign ∷ used)
  where
    hyphen_sign : ℕ
    hyphen_sign = 45

abbrev pub used_part : Option (ℕ × Bytes) → Option Bytes
used_part none = none
used_part (some (at, used)) = some used

-- `itoa`; `none` is a panic. The negation of the least `int` is itself, and not positive.
unfoldable pub itoa : ℤ → Option Bytes
unfolding fill_digits
itoa (pos n) = if n == 0 then some (48 ∷ []) else used_part (fill_digits 20 n [])
itoa (negsuc n) = put_sign (fill_digits 20 (if ltb (suc n) (2 ^ 63) then suc n else 0) [])

abbrev in_brackets : Bytes → Option Bytes → Option Bytes
in_brackets word none = none
in_brackets word (some code) = some (word ++ text " (exit " ++ code ++ text ")")

abbrev summary_of : ProcessState → ℤ → Option Bytes → Option Bytes
summary_of pending code shown = some (text "pending")
summary_of starting code shown = some (text "starting")
summary_of running code shown = some (text "running")
summary_of stopping code shown = some (text "stopping")
summary_of stopped code shown =
    if eq_ℤ code (pos 0) then some (text "passed") else in_brackets (text "stopped") shown
summary_of failed code shown = in_brackets (text "failed") shown

-- `Summary`; `none` is a panic.
unfoldable pub summary : ManagedProcess → Option Bytes
unfolding itoa
summary p = summary_of p.state p.exit_code (itoa p.exit_code)
