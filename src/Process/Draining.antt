-- ===== src/Process/Draining.antt =====
-- process/lifecycle.go: the threads end by their own steps, and with the flag of `Shutdown` set nothing
-- is left of them.
use go_cli_server.Prelude.{
  ℕ, suc, ◌+◌, ◌<◌, ◌≤◌, Bool, true, false, ◌≡◌, refl, ap, arith, Option, none, some, List, [], ◌∷◌,
  if◌then◌else◌, Result, ok, err, length,
}
use go_cli_server.Process.Managed.{
  ManagedProcess, ProcessError, pending, starting, compare_and_swap_state,
}
use go_cli_server.Process.Manager.{Heap, ProcessManager, register}
use go_cli_server.Process.Lifecycle
use go_cli_server.Process.Lifecycle.{
  Outcome, Point, Exit, Spawn, no_pipe, no_command, spawned_as, exited, exit_error, other_error,
  ticketed, claimed, refused, registered, failing, unstarted, waiting, unasked, settled, Access,
  Shared, act, touch, registered_or_refused, spawn_step, fail_start, wait_step, settle_exit, reap,
  take_ticket, give_back,
}
use go_cli_server.Process.World.{
  Thread, World, Event, step_thread, split_at, with_thread, thread_moved, step, run,
}

-- How many steps a thread has left at most.
abbrev pub rank : Point → ℕ
rank ticketed = 6
rank claimed = 5
rank refused = 1
rank registered = 4
rank failing = 2
rank unstarted = 1
rank waiting = 3
rank unasked = 2
rank settled = 1

abbrev pub rank_of : Option Point → ℕ
rank_of none = 0
rank_of (some pt) = rank pt

unfoldable pub steps_left : List Thread → ℕ
steps_left [] = 0
steps_left ((i, pt) ∷ ts) = rank pt + steps_left ts

module _ (o : Outcome) (heap : Heap) (m : ProcessManager) (i : ℕ) where
  -- Whatever the system says, a step brings its thread nearer to its end.
  rank-act : (pt : Point) → rank_of (act o heap m i pt).1 < rank pt
  unfolding act spawn_step fail_start Lifecycle.started wait_step settle_exit
  rank-act ticketed = by_swap (compare_and_swap_state pending starting (heap i))
    where
      by_swap :
          (swap : ManagedProcess × Bool)
          → let r : Shared × Option Point =
              (if swap.1 then ((m, swap.0), some claimed) else ((give_back m, heap i), none)) in
            rank_of r.1 < 6
      by_swap (p, true) = omega arith
      by_swap (p, false) = omega arith
  rank-act claimed = by_answer (register heap m i)
    where
      by_answer :
          (r : ProcessManager × Result ProcessError Bool)
          → rank_of (registered_or_refused (heap i) r).1 < 5
      by_answer (n, ok c) = omega arith
      by_answer (n, err x) = omega arith
  rank-act refused = omega arith
  rank-act registered = by_flag m.is_shutting_down o.spawn
    where
      by_flag :
          (b : Bool) (s : Spawn)
          → let r : ManagedProcess × Option Point =
              (if b then fail_start (heap i) else Lifecycle.started o (heap i) s) in
            rank_of r.1 < 4
      by_flag true s = omega arith
      by_flag false no_pipe = omega arith
      by_flag false no_command = omega arith
      by_flag false (spawned_as n) = omega arith
  rank-act failing = omega arith
  rank-act unstarted = omega arith
  rank-act waiting = by_exit o.exit
    where
      by_test : (b : Bool) → rank_of (some (if b then settled else unasked)) < 3
      by_test true = omega arith
      by_test false = omega arith

      by_exit : (x : Exit) → rank_of (settle_exit (reap o (heap i)) x).1 < 3
      by_exit exited = omega arith
      by_exit (exit_error code) = by_test _
      by_exit other_error = by_test _
  rank-act unasked = omega arith
  rank-act settled = omega arith

-- The first thread runs until it ends, then the next one; the system answers each step anew.
unfoldable pub drain : List Outcome → List Event
drain [] = []
drain (o ∷ os) = step_thread o 0 ∷ drain os

steps_left-with_thread :
    (i : ℕ) (p : Option Point) (ts : List Thread)
    → steps_left (with_thread i p ts) ≡ rank_of p + steps_left ts
unfolding with_thread steps_left
steps_left-with_thread i none ts = omega arith
steps_left-with_thread i (some pt) ts = refl

steps_left-step :
    (o : Outcome) (w : World) (n : ℕ)
    → steps_left w.threads ≤ suc n
    → steps_left (step (step_thread o 0) w).threads ≤ n
unfolding step steps_left
steps_left-step o w n h = by_threads w.threads refl
  where
    by_threads :
        (ts : List Thread)
        → w.threads ≡ ts
        → steps_left (thread_moved o w (split_at 0 ts)).threads ≤ n
    by_threads [] e = omega (arith, ap steps_left e)
    by_threads ((i, pt) ∷ ts) e = omega (
      arith,
      h,
      ap steps_left e,
      rank-act o w.heap w.manager i pt,
      steps_left-with_thread i (act o w.heap w.manager i pt).1 ts,
    )

no_threads : (ts : List Thread) → steps_left ts ≤ 0 → ts ≡ []
unfolding steps_left
no_threads [] h = refl
no_threads ((i, pt) ∷ ts) h = absurd (positive pt (omega arith))
  where
    positive : (pt : Point) → rank pt ≤ 0 → ⊥
    positive ticketed h = omega arith
    positive claimed h = omega arith
    positive refused h = omega arith
    positive registered h = omega arith
    positive failing h = omega arith
    positive unstarted h = omega arith
    positive waiting h = omega arith
    positive unasked h = omega arith
    positive settled h = omega arith

-- Every thread of `Start` and of `waitForProcess` ends after a bounded number of its steps: if the
-- threads have no more steps left than the system gives answers, no thread is left behind them.
pub run-drain :
    (os : List Outcome) (w : World)
    → steps_left w.threads ≤ length os
    → (run (drain os) w).threads ≡ []
unfolding run drain
run-drain [] w h = no_threads w.threads h
run-drain (o ∷ os) w h = run-drain os (step (step_thread o 0) w) (steps_left-step o w (length os) h)
