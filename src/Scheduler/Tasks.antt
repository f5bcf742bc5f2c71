-- ===== src/Scheduler/Tasks.antt =====
-- `Scheduler` of scheduler/scheduler.go. Each function is one section of the code under a lock, or one
-- operation made of them; what a delivery's goroutine does is cut where the lock is free.
use go_cli_server.Prelude.{
  ℕ, suc, Bool, true, false, ◌&&◌, ◌||◌, not, Option, none, some, List, [], ◌∷◌, if◌then◌else◌,
  Result, ok, ◌>>◌, guard, ℤ, pos, ltb_ℤ, eq_ℤ, drop,
}
use go_cli_server.Text.{Bytes, same, is_empty, has_prefix}
use go_cli_server.Text.Decimal.{atoi}
use go_cli_server.Protocol.{text}
use go_cli_server.Scheduler.{Task, TaskStatus, pending, delivered, failed, cancelled}
use go_cli_server.Scheduler.Clock.{backoff}
use go_cli_server.Scheduler.Store.{StateManager}

-- `Config`; the durations are in nanoseconds. `has_deliver_func` says that the callback is not nil.
pub record Config : Type 0 where
  pub tick_interval : ℤ
  pub max_retries : ℤ
  pub retry_delay : ℤ
  pub delivery_timeout : ℤ
  pub has_deliver_func : Bool
  pub validate_target : Option (Bytes → Option Bytes)
  pub state_scan_paths : List Bytes

-- `DefaultConfig`.
unfoldable pub default_config : Config
default_config = record {
  tick_interval = pos 1000000000;
  max_retries = pos 3;
  retry_delay = pos 5000000000;
  delivery_timeout = pos 5000000000;
  has_deliver_func = false;
  validate_target = none;
  state_scan_paths = [];
}

-- `Scheduler`: the tasks and the counters, with the state manager of its configuration.
pub record Scheduler (F T : Type 0) : Type 0 where
  pub config : Config
  pub state_manager : Option (StateManager F)
  pub tasks : List (Bytes × Task T)
  pub started : Bool
  pub total_scheduled : ℕ
  pub total_delivered : ℕ
  pub total_failed : ℕ
  pub total_cancelled : ℕ
  pub next_task_id : ℕ

pub data SchedulerError : Type 0 where
  deliver_func_required already_started target_required payload_required : SchedulerError
  duration_not_positive project_required : SchedulerError
  invalid_target : Bytes → SchedulerError
  task_not_found : Bytes → SchedulerError
  task_not_pending : Bytes → TaskStatus → SchedulerError

abbrev nonzero_or : ℤ → ℤ → ℤ
nonzero_or n d = if eq_ℤ n (pos 0) then d else n

-- `New`.
unfoldable pub new_scheduler :
    {F T : Type 0} → Config → Option (StateManager F) → Result SchedulerError (Scheduler F T)
new_scheduler config manager =
    guard config.has_deliver_func deliver_func_required
    >> ok (record {
      config = record config {
        tick_interval = nonzero_or config.tick_interval (pos 1000000000);
        max_retries = nonzero_or config.max_retries (pos 3);
        retry_delay = nonzero_or config.retry_delay (pos 5000000000);
        delivery_timeout = nonzero_or config.delivery_timeout (pos 5000000000);
      };
      state_manager = manager;
      tasks = [];
      started = false;
      total_scheduled = 0;
      total_delivered = 0;
      total_failed = 0;
      total_cancelled = 0;
      next_task_id = 0;
    })

abbrev pub is_pending : TaskStatus → Bool
is_pending pending = true
is_pending _ = false

abbrev pub is_cancelled : TaskStatus → Bool
is_cancelled cancelled = true
is_cancelled _ = false

-- `parseTaskIDNum`.
unfoldable pub parse_task_id_num : Bytes → Option ℤ
unfolding has_prefix atoi
parse_task_id_num i = if has_prefix (text "task-") i then atoi (drop 5 i) else none

-- `delete(m, k)`.
unfoldable pub delete {ℓ} : {V : Type ℓ} → Bytes → List (Bytes × V) → List (Bytes × V)
unfolding same
delete k [] = []
delete k ((j, v) ∷ m) = let rest = delete k m in if same j k then rest else (j, v) ∷ rest

-- What is left to do for a delivery when it has let the lock go.
pub data Rest : Type 0 where
  nothing_left persist remove_failed remove_delivered : Rest

module _ {T : Type 0} (before : T → T → Bool) where
  -- Whether `checkDueTasks` hands the task to a delivery.
  unfoldable pub is_due : T → Task T → Bool
  is_due now t = is_pending t.status && not t.delivering && before t.deliver_at now

  -- The section of `checkDueTasks` under the task's lock.
  unfoldable pub dispatch_task : T → Task T → Task T
  unfolding is_due
  dispatch_task now t = if is_due now t then record t { delivering = true } else t

  -- The loop of `checkDueTasks`: the tasks, and the IDs of those whose delivery starts.
  unfoldable pub check_due_tasks : T → List (Bytes × Task T) → List (Bytes × Task T) × List Bytes
  unfolding dispatch_task is_due
  check_due_tasks now [] = ([], [])
  check_due_tasks now ((i, t) ∷ m) =
      let rest = check_due_tasks now m in
      ((i, dispatch_task now t) ∷ rest.0, (if is_due now t then i ∷ rest.1 else rest.1))

module _ {T : Type 0} (add : T → ℤ → T) where
  -- A failed attempt of `deliverTask`: the task fails for good, or it is tried again later.
  unfoldable pub retry : ℤ → ℤ → T → Bytes → Task T → Task T × Rest
  unfolding backoff
  retry max_retries retry_delay now reason t =
      let attempts = suc t.attempts in
      if not (ltb_ℤ (pos attempts) max_retries)
      then (
        record t { delivering = false; attempts = attempts; last_error = reason; status = failed },
        remove_failed,
      )
      else (
        record t {
          delivering = false;
          attempts = attempts;
          last_error = reason;
          deliver_at = add now (backoff retry_delay attempts);
        },
        persist,
      )

  -- The section of `deliverTask` behind the callback: `outcome` is its error, and `stopping` says
  -- that the scheduler's context is done.
  unfoldable pub resolve : ℤ → ℤ → T → Bool → Option Bytes → Task T → Task T × Rest
  unfolding retry
  resolve max_retries retry_delay now stopping none t =
      if is_cancelled t.status
      then (record t { delivering = false }, nothing_left)
      else (record t { delivering = false; status = delivered }, remove_delivered)
  resolve max_retries retry_delay now stopping (some reason) t =
      if is_cancelled t.status
      then (record t { delivering = false }, nothing_left)
      else if stopping
      then (record t { delivering = false }, persist)
      else retry max_retries retry_delay now reason t

module _ {T : Type 0} where
  -- The section of `Cancel` under the task's lock.
  unfoldable pub cancel_task : Task T → Result SchedulerError (Task T)
  cancel_task t =
      guard (is_pending t.status) (task_not_pending t.id t.status)
      >> ok (record t { status = cancelled })

  -- `clone`.
  unfoldable pub clone : Task T → Task T
  clone t = record t { delivering = false }

  -- Whether `List` and `ListPending` show a task of the project `p`.
  abbrev pub is_shown : Bytes → Bool → Task T → Bool
  is_shown project global t = global || is_empty project || same t.project_path project

  -- `List`; the order of a Go map is not fixed.
  unfoldable pub list : Bytes → Bool → List (Bytes × Task T) → List (Task T)
  unfolding clone
  list project global [] = []
  list project global ((i, t) ∷ m) =
      let rest = list project global m in if is_shown project global t then clone t ∷ rest else rest

  -- `ListPending`.
  unfoldable pub list_pending : Bytes → Bool → List (Bytes × Task T) → List (Task T)
  unfolding clone
  list_pending project global [] = []
  list_pending project global ((i, t) ∷ m) =
      let rest = list_pending project global m in
      if is_pending t.status && is_shown project global t then clone t ∷ rest else rest

  -- The count of `Info`.
  unfoldable pub pending_count : List (Bytes × Task T) → ℕ
  pending_count [] = 0
  pending_count ((i, t) ∷ m) =
      let rest = pending_count m in if is_pending t.status then suc rest else rest
