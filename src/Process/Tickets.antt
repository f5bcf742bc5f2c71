-- ===== src/Process/Tickets.antt =====
-- process/lifecycle.go: what the steps do to the `WaitGroup` and to the shutdown flag.
use go_cli_server.Prelude.{
  ℕ, ◌+◌, Bool, true, false, ◌≡◌, refl, sym, ap, ◌∙◌, arith, Option, none, some, if◌then◌else◌,
  Result, ok, err,
}
use go_cli_server.Text.{Bytes, is_some}
use go_cli_server.Protocol.Registry.{lookup}
use go_cli_server.Process.Managed.{
  ManagedProcess, ProcessError, shutting_down, pending, starting, failed, same_state, set_state,
  compare_and_swap_state,
}
use go_cli_server.Process.Manager.{
  Heap, ProcessManager, register, register_at, remove_key, removed_at, remove_by_path, process_key,
  key_of, increment_failed,
}
use go_cli_server.Process.Lifecycle.{
  Outcome, Point, Exit, Spawn, Shared, no_pipe, no_command, spawned_as, reap, exited, exit_error,
  other_error, ticketed, claimed, refused, registered, failing, unstarted, waiting, unasked,
  settled, registered_or_refused, spawn_step, wait_step, settle_exit, act, Access, ask_stop,
  force_kill, cancel_context, check_running, check_stopping, snapshot_descendants, check_starting,
  touch, give_back, started, fail_start, started_long_ago,
}

-- The tickets and the flag are those of before.
abbrev pub Same : ProcessManager → ProcessManager → Type 0
Same n m = (n.wait_group ≡ m.wait_group) × (n.is_shutting_down ≡ m.is_shutting_down)

pub register-Same : (heap : Heap) (m : ProcessManager) (i : ℕ) → Same (register heap m i).0 m
unfolding register
register-Same heap m i = by_flag m.is_shutting_down (lookup (key_of (heap i)) m.processes)
  where
    by_flag :
        (b : Bool) (o : Option ℕ)
        → let r : ProcessManager × Result ProcessError Bool =
            (if b then (m, err shutting_down) else register_at m (key_of (heap i)) i o) in
          Same r.0 m
    by_flag true o = (refl, refl)
    by_flag false none = (refl, refl)
    by_flag false (some j) = (refl, refl)

pub remove_by_path-Same :
    (m : ProcessManager) (id path : Bytes) → Same (remove_by_path m id path).0 m
unfolding remove_by_path remove_key
remove_by_path-Same m id path = by_test (is_some (lookup (process_key id path) m.processes))
  where
    by_test : (b : Bool) → Same (removed_at m (process_key id path) b).0 m
    by_test false = (refl, refl)
    by_test true = (refl, refl)

-- How many tickets a thread holds behind a step.
abbrev pub points : Option Point → ℕ
points none = 0
points (some pt) = 1

pub spawn_step-some :
    (o : Outcome) (m : ProcessManager) (p : ManagedProcess) → points (spawn_step o m p).1 ≡ 1
unfolding spawn_step started fail_start
spawn_step-some o m p = by_flag m.is_shutting_down o.spawn
  where
    by_flag :
        (b : Bool) (s : Spawn)
        → let r : ManagedProcess × Option Point = (if b then fail_start p else started o p s) in
          points r.1 ≡ 1
    by_flag true s = refl
    by_flag false no_pipe = refl
    by_flag false no_command = refl
    by_flag false (spawned_as n) = refl

pub wait_step-some : (o : Outcome) (p : ManagedProcess) → points (wait_step o p).1 ≡ 1
unfolding wait_step settle_exit
wait_step-some o p = by_exit o.exit
  where
    by_exit : (x : Exit) → points (settle_exit (reap o p) x).1 ≡ 1
    by_exit exited = refl
    by_exit (exit_error code) = refl
    by_exit other_error = refl

-- A step gives the ticket back exactly when its thread ends, `n` being the others.
unfoldable pub Counts : ProcessManager → ℕ → Shared × Option Point → Type 0
Counts m n r = (r.0.0.wait_group ≡ points r.1 + n) × (r.0.0.is_shutting_down ≡ m.is_shutting_down)

module _ (o : Outcome) (heap : Heap) (m : ProcessManager) (i n : ℕ) (h : m.wait_group ≡ 1 + n) where
  pub act-Counts : (pt : Point) → Counts m n (act o heap m i pt)
  unfolding act Counts compare_and_swap_state increment_failed
  act-Counts ticketed = by_state (same_state (heap i).state pending)
    where
      by_state :
          (c : Bool)
          → let swap : ManagedProcess × Bool =
              (if c then (set_state starting (heap i), true) else (heap i, false)) in
            Counts m n
              (if swap.1 then ((m, swap.0), some claimed) else ((give_back m, heap i), none))
      by_state true = (h, refl)
      by_state false = (omega (arith, h), refl)
  act-Counts claimed = by_answer (register heap m i) (register-Same heap m i)
    where
      by_answer :
          (r : ProcessManager × Result ProcessError Bool)
          → Same r.0 m
          → Counts m n (registered_or_refused (heap i) r)
      by_answer (k, ok c) e = (e.0 ∙ h, e.1)
      by_answer (k, err x) e = (e.0 ∙ h, e.1)
  act-Counts refused = (omega (arith, h), refl)
  act-Counts registered = (h ∙ ap (λ k. k + n) (sym (spawn_step-some o m (heap i))), refl)
  act-Counts failing =
      let e = remove_by_path-Same (increment_failed m) (heap i).id (heap i).project_path in
      (e.0 ∙ h, e.1)
  act-Counts unstarted = (omega (arith, h), refl)
  act-Counts waiting = (h ∙ ap (λ k. k + n) (sym (wait_step-some o (heap i))), refl)
  act-Counts unasked = (h, refl)
  act-Counts settled = (omega (arith, h), refl)

pub touch-Same : (x : Access) (m : ProcessManager) (p : ManagedProcess) → Same (touch x m p).0 m
unfolding touch increment_failed
touch-Same ask_stop m p = (refl, refl)
touch-Same force_kill m p = (refl, refl)
touch-Same cancel_context m p = (refl, refl)
touch-Same check_running m p = (refl, refl)
touch-Same check_stopping m p = (refl, refl)
touch-Same (snapshot_descendants pids) m p = (refl, refl)
touch-Same (check_starting now) m p =
    by_tests (started_long_ago now p.start_time) (compare_and_swap_state starting failed p)
  where
    by_tests :
        (b : Bool) (s : ManagedProcess × Bool)
        → let r : Shared = (if b then ((if s.1 then increment_failed m else m), s.0) else (m, p)) in
          Same r.0 m
    by_tests true (q, true) = (refl, refl)
    by_tests true (q, false) = (refl, refl)
    by_tests false s = (refl, refl)
