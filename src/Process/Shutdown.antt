-- ===== src/Process/Shutdown.antt =====
-- process/lifecycle.go and `Shutdown` of process/manager.go: what cannot happen after the flag is set.
use go_cli_server.Prelude.{
  ℕ, suc, Bool, true, false, ◌==◌, ◌≡◌, refl, ap, ◌∙◌, arith, inl, inr, Bool-cases, Option, none,
  some, List, [], ◌∷◌, if◌then◌else◌, Result, ok, err,
}
use go_cli_server.Process.Managed.{
  ManagedProcess, ProcessState, ProcessError, pending, starting, running, stopping, stopped, failed,
  same_state, set_state, compare_and_swap_state, cancel, set_descendants,
}
use go_cli_server.Process.Manager.{Heap, ProcessManager, register, increment_failed}
use go_cli_server.Process.Lifecycle
use go_cli_server.Process.Lifecycle.{
  Outcome, Point, Exit, exited, exit_error, other_error, ticketed, claimed, refused, registered,
  failing, unstarted, waiting, unasked, settled, Access, ask_stop, force_kill, cancel_context,
  check_running, check_stopping, snapshot_descendants, check_starting, Shared, act, touch,
  mark_killed, registered_or_refused, spawn_step, fail_start, wait_step, settle_exit, reap,
  take_ticket, started_long_ago, give_back,
}
use go_cli_server.Process.World.{
  World, Event, call_start, step_thread, access, set_shutdown, end_health_loop, health_loop_ended,
  put, Split, split_at, ticket_taken, moved, thread_moved, touched, step, run,
}
use go_cli_server.Process.Tickets.{register-Same, remove_by_path-Same, touch-Same}

-- A step that spawns nothing and leaves the flag.
Quiet : ProcessManager → ManagedProcess → Shared → Type 0
Quiet m p r = (r.1.spawned ≡ p.spawned) × (r.0.is_shutting_down ≡ m.is_shutting_down)

swap-spawned :
    (a b : ProcessState) (p : ManagedProcess) → (compare_and_swap_state a b p).0.spawned ≡ p.spawned
unfolding compare_and_swap_state set_state
swap-spawned a b p = by_test (same_state p.state a)
  where
    by_test :
        (c : Bool)
        → let r : ManagedProcess × Bool = (if c then (set_state b p, true) else (p, false)) in
          r.0.spawned ≡ p.spawned
    by_test true = refl
    by_test false = refl

chosen-spawned :
    (b : Bool) (q p : ManagedProcess)
    → q.spawned ≡ p.spawned
    → let r : ManagedProcess = (if b then q else p) in r.spawned ≡ p.spawned
chosen-spawned true q p e = e
chosen-spawned false q p e = refl

touch-spawned :
    (x : Access) (m : ProcessManager) (p : ManagedProcess) → (touch x m p).1.spawned ≡ p.spawned
unfolding touch mark_killed cancel set_descendants set_state
touch-spawned ask_stop m p = swap-spawned running stopping p
touch-spawned force_kill m p = chosen-spawned _ (set_state stopping p) p refl
touch-spawned cancel_context m p = refl
touch-spawned check_running m p = chosen-spawned _ _ p (swap-spawned running failed p)
touch-spawned check_stopping m p = chosen-spawned _ _ p (swap-spawned stopping stopped p)
touch-spawned (snapshot_descendants pids) m p = refl
touch-spawned (check_starting now) m p =
    by_test (started_long_ago now p.start_time) (compare_and_swap_state starting failed p)
      (swap-spawned starting failed p)
  where
    by_test :
        (b : Bool) (swap : ManagedProcess × Bool)
        → swap.0.spawned ≡ p.spawned
        → let r : Shared =
            (if b then ((if swap.1 then increment_failed m else m), swap.0) else (m, p)) in
          r.1.spawned ≡ p.spawned
    by_test true swap e = e
    by_test false swap e = refl

touch-Quiet : (x : Access) (m : ProcessManager) (p : ManagedProcess) → Quiet m p (touch x m p)
unfolding Quiet
touch-Quiet x m p = (touch-spawned x m p, (touch-Same x m p).1)

wait_step-spawned : (o : Outcome) (p : ManagedProcess) → (wait_step o p).0.spawned ≡ p.spawned
unfolding wait_step settle_exit reap set_state
wait_step-spawned o p = by_exit o.exit
  where
    by_exit : (x : Exit) → (settle_exit (reap o p) x).0.spawned ≡ p.spawned
    by_exit exited = refl
    by_exit (exit_error code) = swap-spawned stopping stopped (reap o p)
    by_exit other_error = swap-spawned stopping stopped (reap o p)

module _ (o : Outcome) (heap : Heap) (m : ProcessManager) (i : ℕ)
    (down : m.is_shutting_down ≡ true) where
  -- A step of a thread after the flag is set.
  act-Quiet : (pt : Point) → Quiet m (heap i) (act o heap m i pt).0
  unfolding act Quiet set_state increment_failed fail_start
  act-Quiet ticketed =
      by_swap (compare_and_swap_state pending starting (heap i))
        (swap-spawned pending starting (heap i))
    where
      by_swap :
          (swap : ManagedProcess × Bool)
          → swap.0.spawned ≡ (heap i).spawned
          → let r : Shared × Option Point =
              (if swap.1 then ((m, swap.0), some claimed) else ((give_back m, heap i), none)) in
            Quiet m (heap i) r.0
      by_swap (p, true) e = (e, refl)
      by_swap (p, false) e = (refl, refl)
  act-Quiet claimed = by_answer (register heap m i) (register-Same heap m i).1
    where
      by_answer :
          (r : ProcessManager × Result ProcessError Bool)
          → r.0.is_shutting_down ≡ m.is_shutting_down
          → Quiet m (heap i) (registered_or_refused (heap i) r).0
      by_answer (n, ok c) e = (refl, e)
      by_answer (n, err x) e = (refl, e)
  act-Quiet refused = (refl, refl)
  act-Quiet registered = (by_flag m.is_shutting_down down, refl)
    where
      by_flag :
          (b : Bool)
          → b ≡ true
          → let r : ManagedProcess × Option Point =
              (if b then fail_start (heap i) else Lifecycle.started o (heap i) o.spawn) in
            r.0.spawned ≡ (heap i).spawned
      by_flag true e = refl
      by_flag false e = cc
  act-Quiet failing =
      (refl, (remove_by_path-Same (increment_failed m) (heap i).id (heap i).project_path).1)
  act-Quiet unstarted = (refl, refl)
  act-Quiet waiting = (wait_step-spawned o (heap i), refl)
  act-Quiet unasked = (refl, refl)
  act-Quiet settled = (refl, refl)

-- No command was spawned between two worlds, and the second one is shutting down.
abbrev pub NoSpawn : World → World → Type 0
NoSpawn w u =
    (u.manager.is_shutting_down ≡ true) × ((j : ℕ) → (u.heap j).spawned ≡ (w.heap j).spawned)

put-spawned :
    (h : Heap) (i j : ℕ) (p : ManagedProcess)
    → p.spawned ≡ (h i).spawned
    → (put h i p j).spawned ≡ (h j).spawned
unfolding put
put-spawned h i j p e = elim (Bool-cases (i == j)) [
  | inl q ↦ let same_one : i ≡ j = ground arith in rw q (e ∙ ap (λ k. (h k).spawned) same_one)
  | inr q ↦ rw q refl
]

pub step-NoSpawn :
    (e : Event) (w : World) → w.manager.is_shutting_down ≡ true → NoSpawn w (step e w)
unfolding step take_ticket thread_moved moved touched
step-NoSpawn (call_start i) w down = by_flag w.manager.is_shutting_down down
  where
    by_flag :
        (b : Bool)
        → b ≡ true
        → NoSpawn w (
            ticket_taken w i (
              if b
              then none
              else some (record w.manager { wait_group = suc w.manager.wait_group })))
    by_flag true e = (down, λ j. refl)
    by_flag false e = cc
step-NoSpawn (step_thread o k) w down = by_split (split_at k w.threads)
  where
    by_split : (s : Split) → NoSpawn w (thread_moved o w s)
    by_split none = (down, λ j. refl)
    by_split (some (a, (i, pt), b)) =
        let q = act-Quiet o w.heap w.manager i down pt in
        (unfold Quiet in q.1 ∙ down, λ j. put-spawned w.heap i j _ (unfold Quiet in q.0))
step-NoSpawn (access x i) w down =
    let q = touch-Quiet x w.manager (w.heap i) in
    (unfold Quiet in q.1 ∙ down, λ j. put-spawned w.heap i j _ (unfold Quiet in q.0))
step-NoSpawn set_shutdown w down = (refl, λ j. refl)
step-NoSpawn end_health_loop w down = by_flags w.manager.is_shutting_down w.health_loop
  where
    by_flags : (b h : Bool) → NoSpawn w (health_loop_ended w b h)
    by_flags true true = (down, λ j. refl)
    by_flags true false = (down, λ j. refl)
    by_flags false h = (down, λ j. refl)

-- Once the flag of `Shutdown` is set, it stays set and no command is spawned any more, whatever
-- threads of `Start` are under way and whatever is called.
pub run-NoSpawn :
    (es : List Event) (w : World) → w.manager.is_shutting_down ≡ true → NoSpawn w (run es w)
unfolding run
run-NoSpawn [] w down = (down, λ j. refl)
run-NoSpawn (e ∷ es) w down =
    let first = step-NoSpawn e w down in
    let rest = run-NoSpawn es (step e w) first.0 in (rest.0, λ j. rest.1 j ∙ first.1 j)
