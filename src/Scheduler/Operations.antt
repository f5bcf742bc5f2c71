-- ===== src/Scheduler/Operations.antt =====
-- The operations of `Scheduler` (scheduler/scheduler.go) on its tasks, counters and state manager.
-- Each is one step: in `deliverTask`, the section under the lock of the task and what follows it, where
-- the lock is free, are taken together. The number of a task has no upper bound, whereas `nextTaskID`
-- has 64 bits.
use go_cli_server.Prelude.{
  ℕ, suc, true, false, ◌&&◌, not, Option, none, some, List, [], ◌∷◌, ◌++◌, if◌then◌else◌, Result,
  Bool, ok, err, ◌>>=◌, ◌>>◌, guard, ltb, ℤ, pos, ltb_ℤ,
}
use go_cli_server.Text.{Bytes, same, is_empty, is_some}
use go_cli_server.Text.Decimal.{decimal}
use go_cli_server.Protocol.{text}
use go_cli_server.Protocol.Registry.{lookup, store}
use go_cli_server.Scheduler.{Task, pending}
use go_cli_server.Scheduler.Store.{
  Os, Codec, StateManager, save_task, remove_task, load_all_tasks, scan_for_projects,
}
use go_cli_server.Scheduler.Tasks.{
  resolve, Scheduler, SchedulerError, target_required, payload_required, duration_not_positive,
  project_required, invalid_target, task_not_found, already_started, is_pending, parse_task_id_num,
  delete, Rest, nothing_left, persist, remove_failed, remove_delivered, cancel_task, clone,
  pending_count,
}

-- `Info`.
pub record Info : Type 0 where
  pub total_scheduled : ℕ
  pub total_delivered : ℕ
  pub total_failed : ℕ
  pub total_cancelled : ℕ
  pub pending_count : ℕ

abbrev target_refused : Option (Bytes → Option Bytes) → Bytes → Option Bytes
target_refused none target = none
target_refused (some f) target = f target

abbrev target_checked : Option Bytes → Result SchedulerError (Unit {0})
target_checked none = ok tt
target_checked (some reason) = err (invalid_target reason)

-- The task that `Schedule` makes, at the time `now`.
unfoldable pub new_task : {T : Type 0} → (T → ℤ → T) → T → ℕ → Bytes → ℤ → Bytes → Bytes → Task T
new_task add now n target duration payload project = record {
  id = text "task-" ++ decimal n;
  target_id = target;
  payload = payload;
  deliver_at = add now duration;
  created_at = now;
  project_path = project;
  status = pending;
  attempts = 0;
  last_error = [];
  delivering = false;
}

-- The task of a map that is changed through a pointer, if the map still has it.
unfoldable pub update_task : {T : Type 0} → Task T → List (Bytes × Task T) → List (Bytes × Task T)
unfolding same
update_task t [] = []
update_task t ((i, u) ∷ m) =
    let rest = update_task t m in if same i t.id then (i, t) ∷ rest else (i, u) ∷ rest

module _ {F T : Type 0} where
  -- The checks of `Schedule`.
  unfoldable pub check_schedule :
      Scheduler F T → Bytes → ℤ → Bytes → Bytes → Result SchedulerError (Unit {0})
  check_schedule s target duration payload project =
      guard (not (is_empty target)) target_required
      >> (guard (not (is_empty payload)) payload_required
          >> (guard (ltb_ℤ (pos 0) duration) duration_not_positive
              >> (guard (not (is_some s.state_manager && is_empty project)) project_required
                  >> target_checked (target_refused s.config.validate_target target))))

  -- `Stop`, when the loop and the deliveries have ended.
  unfoldable pub stop : Scheduler F T → Scheduler F T
  stop s = if s.started then record s { started = false } else s

module _ {F T : Type 0} (os : Os F) (json : Codec T) (stamp : Bytes) where
  abbrev pub saved : Option (StateManager F) → Task T → Option (StateManager F)
  saved none t = none
  saved (some m) t = some (save_task os json stamp m (clone t)).0

  -- `persistTask` of a task that is still pending, or nothing.
  unfoldable pub persist_task : Scheduler F T → Task T → Scheduler F T
  unfolding save_task clone
  persist_task s t =
      if is_pending t.status then record s { state_manager = saved s.state_manager t } else s

  abbrev pub removed : Option (StateManager F) → Task T → Option (StateManager F)
  removed none t = none
  removed (some m) t = some (remove_task os json stamp m t.id t.project_path).0

  -- `removeTaskFromStorage`.
  unfoldable pub remove_task_from_storage : Scheduler F T → Task T → Scheduler F T
  unfolding delete remove_task
  remove_task_from_storage s t = record s {
    tasks = delete t.id s.tasks;
    state_manager = removed s.state_manager t;
  }

  -- `Schedule`.
  unfoldable pub schedule :
      (T → ℤ → T)
      → T
      → Scheduler F T
      → Bytes
      → ℤ
      → Bytes
      → Bytes
      → Result SchedulerError (Scheduler F T × Task T)
  unfolding check_schedule new_task persist_task store clone
  schedule add now s target duration payload project =
      check_schedule s target duration payload project
      >> (let t = new_task add now (suc s.next_task_id) target duration payload project in
          let stored = record s {
            next_task_id = suc s.next_task_id;
            tasks = store t.id t s.tasks;
            total_scheduled = suc s.total_scheduled;
          } in
          ok (persist_task stored t, clone t))

  abbrev pub cancel_found :
      Scheduler F T → Bytes → Option (Task T) → Result SchedulerError (Scheduler F T)
  cancel_found s i none = err (task_not_found i)
  cancel_found s i (some t) = cancel_task t >>= λ t'. ok (
      remove_task_from_storage
        (record s { tasks = store i t' s.tasks; total_cancelled = suc s.total_cancelled }) t')

  -- `Cancel`.
  unfoldable pub cancel : Scheduler F T → Bytes → Result SchedulerError (Scheduler F T)
  unfolding cancel_task remove_task_from_storage lookup store
  cancel s i = cancel_found s i (lookup i s.tasks)

  -- What `deliverTask` does once the lock is free. The task is the one that the map points to, as long
  -- as it is there, and it is persisted as it was resolved.
  unfoldable pub finish : Scheduler F T → Task T → Rest → Scheduler F T
  unfolding persist_task remove_task_from_storage
  finish s t nothing_left = s
  finish s t persist = persist_task s t
  finish s t remove_failed =
      remove_task_from_storage (record s { total_failed = suc s.total_failed }) t
  finish s t remove_delivered =
      remove_task_from_storage (record s { total_delivered = suc s.total_delivered }) t

  -- `deliverTask` from the return of the callback on, with its error as the outcome.
  unfoldable pub deliver_task :
      (T → ℤ → T) → T → Bool → Option Bytes → Scheduler F T → Task T → Scheduler F T
  unfolding finish resolve update_task
  deliver_task add now stopping outcome s t =
      let r = resolve add s.config.max_retries s.config.retry_delay now stopping outcome t in
      finish (record s { tasks = update_task r.0 s.tasks }) r.0 r.1

  abbrev max_id : List (Task T) → ℕ → ℕ
  max_id [] n = n
  max_id (t ∷ ts) n = max_id ts (larger n (parse_task_id_num t.id))
    where
      larger : ℕ → Option ℤ → ℕ
      larger n (some (pos k)) = if ltb n k then k else n
      larger n _ = n

  abbrev restore_tasks : List (Task T) → List (Bytes × Task T) → List (Bytes × Task T)
  restore_tasks [] m = m
  restore_tasks (t ∷ ts) m =
      let kept = restore_tasks ts (store t.id t m) in
      let left = restore_tasks ts m in if is_pending t.status then kept else left

  abbrev restore : Scheduler F T → StateManager F × List (Task T) → Scheduler F T
  restore s (m, ts) =
      let n = max_id ts 0 in
      record s {
        state_manager = some m;
        tasks = restore_tasks ts s.tasks;
        next_task_id = (if ltb s.next_task_id n then n else s.next_task_id);
      }

  abbrev load_persisted : Scheduler F T → Option (StateManager F) → Scheduler F T
  load_persisted s none = s
  load_persisted s (some m) =
      restore s
        (load_all_tasks os json stamp (scan_for_projects os json stamp m s.config.state_scan_paths))

  -- `Start`, up to the loop that it starts.
  unfoldable pub start : Scheduler F T → Result SchedulerError (Scheduler F T)
  unfolding parse_task_id_num store load_all_tasks scan_for_projects
  start s =
      guard (not s.started) already_started
      >> ok (load_persisted (record s { started = true }) s.state_manager)

abbrev clone_option : {T : Type 0} → Option (Task T) → Option (Task T)
clone_option none = none
clone_option (some t) = some (clone t)

-- `Get`.
unfoldable pub get : {F T : Type 0} → Scheduler F T → Bytes → Option (Task T)
unfolding lookup clone
get s i = clone_option (lookup i s.tasks)

-- `Info`.
unfoldable pub info : {F T : Type 0} → Scheduler F T → Info
unfolding pending_count
info s = record {
  total_scheduled = s.total_scheduled;
  total_delivered = s.total_delivered;
  total_failed = s.total_failed;
  total_cancelled = s.total_cancelled;
  pending_count = pending_count s.tasks;
}
