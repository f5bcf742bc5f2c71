-- ===== src/Scheduler/Ticks.antt =====
-- What a tick of scheduler/scheduler.go takes, and the tasks of a state file of scheduler/state.go.
use go_cli_server.Prelude.{
  Bool, true, false, ◌≡◌, refl, ap, List, [], ◌∷◌, Bool-cases, inl, inr, arith,
}
use go_cli_server.Text.{Bytes, same, same_refl}
use go_cli_server.Scheduler.{Task}
use go_cli_server.Scheduler.Store.{put_task, drop_task}
use go_cli_server.Scheduler.Tasks.{is_due, dispatch_task, check_due_tasks}

module _ {T : Type 0} (before : T → T → Bool) where
  -- A task that was handed to a delivery is not due at any time, while the delivery is in flight.
  dispatched_not_due :
      (now later : T) (t : Task T)
      → is_due before now t ≡ true
      → is_due before later (dispatch_task before now t) ≡ false
  unfolding dispatch_task is_due
  dispatched_not_due now later t h = rw h (ground arith)

  is_due-dispatch_task :
      (now : T) (t : Task T) → is_due before now (dispatch_task before now t) ≡ false
  unfolding dispatch_task
  is_due-dispatch_task now t = elim (Bool-cases (is_due before now t)) [
    | inl e ↦ dispatched_not_due now now t e
    | inr e ↦ rw (e, e) refl
  ]

  dispatch_task_idle :
      (now : T) (t : Task T) → is_due before now t ≡ false → dispatch_task before now t ≡ t
  unfolding dispatch_task
  dispatch_task_idle now t h = rw h refl

  -- A tick at the same time as the one before it starts no delivery and changes no task.
  pub check_due_tasks-check_due_tasks :
      (now : T) (m : List (Bytes × Task T))
      → check_due_tasks before now (check_due_tasks before now m).0
        ≡ ((check_due_tasks before now m).0, [])
  unfolding check_due_tasks
  check_due_tasks-check_due_tasks now [] = refl
  check_due_tasks-check_due_tasks now ((i, t) ∷ m) =
      let idle = is_due-dispatch_task now t in
      let rest = check_due_tasks-check_due_tasks now m in
      rw (dispatch_task_idle now (dispatch_task before now t) idle, idle, rest) refl

module _ {T : Type 0} where
  -- Once a task has been saved and then removed, the tasks of the file are those that removing it
  -- alone would have left.
  pub drop_task-put_task :
      (t : Task T) (ts : List (Task T)) → drop_task t.id (put_task t ts) ≡ drop_task t.id ts
  unfolding drop_task put_task
  drop_task-put_task t [] = rw (same_refl t.id) refl
  drop_task-put_task t (u ∷ us) = elim (Bool-cases (same u.id t.id)) [
    | inl e ↦ rw (e, same_refl t.id) refl
    | inr e ↦ rw (e, e) (ap (λ x. u ∷ x) (drop_task-put_task t us))
  ]
