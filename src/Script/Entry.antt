-- ===== src/Script/Entry.antt =====
-- `Entry` of script/registry.go. `T` are the times of package `time`, and `C` the configurations, which
-- are only compared. Each method is one step, also `SetState` and `CompareAndSwapState`,
-- which change the state before they take `mu` for the history.
use go_cli_server.Prelude.{
  ℕ, suc, ◌-◌, Bool, true, false, ◌==◌, ltb, Option, none, some, List, [], ◌∷◌, ◌++◌, if◌then◌else◌,
  length, take, drop,
}
use go_cli_server.Text.{Bytes, is_empty}
use go_cli_server.Protocol.{text}
use go_cli_server.Protocol.Registry.{add_key}
use go_cli_server.Scheduler.Store.{delete_key}
use go_cli_server.Script.Lines.{Lines, max_output_lines, new_lines, append_output, output_lines}

-- `State`, in the order of the constants.
pub data State : Type 0 where
  idle starting running failed stopped restarting : State

-- `State.String`.
unfoldable pub state_name : State → Bytes
state_name idle = text "idle"
state_name starting = text "starting"
state_name running = text "running"
state_name failed = text "failed"
state_name stopped = text "stopped"
state_name restarting = text "restarting"

-- The number of a state.
abbrev pub state_number : State → ℕ
state_number idle = 0
state_number starting = 1
state_number running = 2
state_number failed = 3
state_number stopped = 4
state_number restarting = 5

-- `StateTransition`.
pub record StateTransition (T : Type 0) : Type 0 where
  pub state : State
  pub timestamp : T

-- `maxStateTransitions`.
abbrev pub max_state_transitions : ℕ
max_state_transitions = 100

-- `Entry`.
pub record Entry (C T : Type 0) : Type 0 where
  pub name : Bytes
  pub project_path : Bytes
  pub process_id : Bytes
  pub config : C
  pub state : State
  pub start_count : ℕ
  pub fail_count : ℕ
  pub output : Lines
  pub state_history : List (StateTransition T)
  pub resolved_cmd : Bytes
  pub resolved_args : List Bytes
  pub last_error : Bytes
  pub sessions : List Bytes
  pub owner_session : Option Bytes

-- `copy(s, src)` on slices.
unfoldable pub copy_front {ℓ} : {A : Type ℓ} → List A → List A → List A
copy_front [] dst = dst
copy_front (x ∷ src) [] = []
copy_front (x ∷ src) (y ∷ dst) = x ∷ copy_front src dst

-- The bound on the history: the last `n` entries are copied to the front, and the rest is cut off.
unfoldable pub trim_history {ℓ} : {A : Type ℓ} → ℕ → List A → List A
unfolding copy_front
trim_history n h = if ltb n (length h) then take n (copy_front (drop (length h - n) h) h) else h

abbrev pub or_nil : Option Bytes → Bytes
or_nil none = []
or_nil (some s) = s

abbrev first_session : List Bytes → Bytes
first_session [] = []
first_session (s ∷ ss) = s

module _ {C T : Type 0} where
  -- `newEntry`, with the process ID that `MakeProcessID` makes.
  unfoldable pub new_entry : Bytes → Bytes → Bytes → C → T → Entry C T
  unfolding new_lines
  new_entry name project_path process_id config now = record {
    name = name;
    project_path = project_path;
    process_id = process_id;
    config = config;
    state = idle;
    start_count = 0;
    fail_count = 0;
    output = new_lines max_output_lines;
    state_history = record { state = idle; timestamp = now } ∷ [];
    resolved_cmd = [];
    resolved_args = [];
    last_error = [];
    sessions = [];
    owner_session = none;
  }

  -- `SetState`.
  unfoldable pub set_state : T → State → Entry C T → Entry C T
  unfolding trim_history
  set_state now s e = record e {
    state = s;
    state_history =
        trim_history max_state_transitions
          (e.state_history ++ record { state = s; timestamp = now } ∷ []);
  }

  -- `CompareAndSwapState`.
  unfoldable pub compare_and_swap_state : T → State → State → Entry C T → Entry C T × Bool
  unfolding set_state
  compare_and_swap_state now old new e =
      if state_number e.state == state_number old then (set_state now new e, true) else (e, false)

  -- `IncrementStartCount`.
  unfoldable pub increment_start_count : Entry C T → Entry C T
  increment_start_count e = record e { start_count = suc e.start_count }

  -- `IncrementFailCount`.
  unfoldable pub increment_fail_count : Entry C T → Entry C T
  increment_fail_count e = record e { fail_count = suc e.fail_count }

  -- `AppendOutput`.
  unfoldable pub append_line : Bytes → Entry C T → Entry C T
  unfolding append_output
  append_line line e = record e { output = append_output max_output_lines e.output line }

  -- `AddRestartMarker`.
  unfoldable pub add_restart_marker : Entry C T → Entry C T
  unfolding append_line
  add_restart_marker e = append_line (text "--- restart ---") e

  -- `OutputLines`.
  unfoldable pub lines_of : Entry C T → List Bytes
  unfolding output_lines
  lines_of e = output_lines max_output_lines e.output

  -- `OutputLen`.
  unfoldable pub output_len : Entry C T → ℕ
  output_len e = e.output.count

  -- `SetResolvedCommand`.
  unfoldable pub set_resolved_command : Bytes → List Bytes → Entry C T → Entry C T
  set_resolved_command cmd args e = record e { resolved_cmd = cmd; resolved_args = args }

  -- `SetLastError`.
  unfoldable pub set_last_error : Bytes → Entry C T → Entry C T
  set_last_error msg e = record e { last_error = msg }

  -- `AddSession`.
  unfoldable pub add_session : Bytes → Entry C T → Entry C T
  unfolding add_key
  add_session code e = record e { sessions = add_key code e.sessions }

  -- `RemoveSession`.
  unfoldable pub remove_session : Bytes → Entry C T → Entry C T
  unfolding delete_key
  remove_session code e = record e { sessions = delete_key code e.sessions }

  -- `ListSessions`; the order of a Go map is not fixed.
  unfoldable pub list_sessions : Entry C T → List Bytes
  list_sessions e = e.sessions

  -- `ObserverCount`.
  unfoldable pub observer_count : Entry C T → ℕ
  observer_count e = length e.sessions

  -- `SetOwner`.
  unfoldable pub set_owner : Bytes → Entry C T → Entry C T
  set_owner code e = record e { owner_session = some code }

  -- `Owner`.
  unfoldable pub owner : Entry C T → Bytes
  owner e = or_nil e.owner_session

  -- `TransferOwnership`; which observer a Go map shows first is not fixed.
  unfoldable pub transfer_ownership : Entry C T → Entry C T × Bytes
  transfer_ownership e =
      let new_owner = first_session e.sessions in
      (record e { owner_session = if is_empty new_owner then none else some new_owner }, new_owner)
