-- ===== src/Process/Moves.antt =====
-- process/lifecycle.go: the states of a process change along the edges of one state machine.
use go_cli_server.Prelude.{
  ℕ, Bool, true, false, ◌&&◌, ◌||◌, not, ◌==◌, ◌⊎◌, ◌≡◌, refl, sym, subst, arith, Bool-cases, inl,
  inr, Option, none, some, List, [], ◌∷◌, ◌++◌, if◌then◌else◌, Result, ok, err,
}
use go_cli_server.Text.{is_some}
use go_cli_server.Process.Managed.{
  ManagedProcess, ProcessState, ProcessError, pending, starting, running, stopping, stopped, failed,
  same_state, set_state, compare_and_swap_state, cancel, set_descendants,
}
use go_cli_server.Process.Manager.{Heap, ProcessManager, register, increment_failed}
use go_cli_server.Process.Lifecycle
use go_cli_server.Process.Lifecycle.{
  Outcome, Point, Spawn, Exit, Shared, no_pipe, no_command, spawned_as, exited, exit_error,
  other_error, ticketed, claimed, refused, registered, failing, unstarted, waiting, unasked,
  settled, registered_or_refused, fail_start, publish, spawn_step, reap, settle_exit, wait_step,
  act, give_back, Access, ask_stop, force_kill, cancel_context, check_running, check_stopping,
  snapshot_descendants, check_starting, touch, mark_killed, started_long_ago, take_ticket,
}
use go_cli_server.Process.World.{
  World, Event, call_start, step_thread, access, set_shutdown, end_health_loop, health_loop_ended,
  put, Split, split_at, ticket_taken, moved, thread_moved, touched, step,
}
use go_cli_server.Process.Owner.{
  Hold, early, broken, live, over, hold_of, holds, Unspawned, Held, OwnedBy, Owned, alone,
  pending_free,
}
use go_cli_server.Process.Touch.{same_state→eq}
use go_cli_server.Process.Run.{IsOwned, Splits, split_at-Splits, holds-split}

-- The state machine: a start that is refused goes back, and a process that is over stays so.
pub edge : ProcessState → ProcessState → Bool
edge pending starting = true
edge starting pending = true
edge starting running = true
edge starting failed = true
edge running stopping = true
edge running stopped = true
edge running failed = true
edge stopping stopped = true
edge stopping failed = true
edge s t = false

abbrev pub Moves : ProcessState → ProcessState → Type 0
Moves s t = (s ≡ t) ⊎ (edge s t ≡ true)

from_state : (s u t : ProcessState) → s ≡ u → edge u t ≡ true → Moves s t
from_state s u t e h = inr (subst (λ x. edge x t ≡ true) (sym e) h)

swap-Moves :
    (a b : ProcessState) (p : ManagedProcess)
    → edge a b ≡ true
    → Moves p.state (compare_and_swap_state a b p).0.state
unfolding compare_and_swap_state set_state
swap-Moves a b p h = by_test (same_state p.state a) refl
  where
    by_test :
        (c : Bool)
        → same_state p.state a ≡ c
        → let r : ManagedProcess × Bool = (if c then (set_state b p, true) else (p, false)) in
          Moves p.state r.0.state
    by_test true e = from_state p.state a b (same_state→eq p.state a e) h
    by_test false e = inl refl

chosen-Moves :
    (b : Bool) (q p : ManagedProcess)
    → Moves p.state q.state
    → let r : ManagedProcess = (if b then q else p) in Moves p.state r.state
chosen-Moves true q p h = h
chosen-Moves false q p h = inl refl

starting-Unspawned :
    (closes : ℕ) (spawned start : Option ℕ) (hs : List Hold)
    → OwnedBy starting closes spawned start hs
    → Unspawned spawned
starting-Unspawned closes spawned start [] o = absurd o
starting-Unspawned closes spawned start (early ∷ []) o = o.1.0
starting-Unspawned closes spawned start (broken ∷ []) o = absurd o.1
starting-Unspawned closes spawned start (live ∷ []) o = absurd o.1
starting-Unspawned closes spawned start (over ∷ []) o = absurd o.1
starting-Unspawned closes spawned start (h ∷ i ∷ hs) o = absurd o

-- Only a running process is marked by `forceKill`.
kill-Moves :
    (s : ProcessState) (closes : ℕ) (spawned start : Option ℕ) (hs : List Hold)
    → OwnedBy s closes spawned start hs
    → Moves s (
        if is_some spawned
          && not (same_state s stopping || same_state s stopped || same_state s failed)
        then stopping
        else s)
unfolding edge
kill-Moves s closes none start hs o = inl refl
kill-Moves pending closes (some n) start hs o = absurd (pending_free closes (some n) start hs o).2
kill-Moves starting closes (some n) start hs o =
    absurd (starting-Unspawned closes (some n) start hs o)
kill-Moves running closes (some n) start hs o = inr refl
kill-Moves stopping closes (some n) start hs o = inl refl
kill-Moves stopped closes (some n) start hs o = inl refl
kill-Moves failed closes (some n) start hs o = inl refl

touch-Moves :
    (x : Access) (m : ProcessManager) (p : ManagedProcess) (hs : List Hold)
    → Owned p hs
    → Moves p.state (touch x m p).1.state
unfolding touch mark_killed cancel set_descendants set_state edge
touch-Moves ask_stop m p hs o = swap-Moves running stopping p refl
touch-Moves force_kill m p hs o =
    by_test
      (is_some p.spawned
        && not (
            same_state p.state stopping || same_state p.state stopped || same_state p.state failed))
      (kill-Moves p.state p.closes p.spawned p.start_time hs o)
  where
    by_test :
        (b : Bool)
        → Moves p.state (if b then stopping else p.state)
        → let r : ManagedProcess = (if b then set_state stopping p else p) in Moves p.state r.state
    by_test true h = h
    by_test false h = h
touch-Moves cancel_context m p hs o = inl refl
touch-Moves check_running m p hs o = chosen-Moves _ _ p (swap-Moves running failed p refl)
touch-Moves check_stopping m p hs o = chosen-Moves _ _ p (swap-Moves stopping stopped p refl)
touch-Moves (snapshot_descendants pids) m p hs o = inl refl
touch-Moves (check_starting now) m p hs o =
    by_test (started_long_ago now p.start_time) (compare_and_swap_state starting failed p)
      (swap-Moves starting failed p refl)
  where
    by_test :
        (b : Bool) (swap : ManagedProcess × Bool)
        → Moves p.state swap.0.state
        → let r : Shared =
            (if b then ((if swap.1 then increment_failed m else m), swap.0) else (m, p)) in
          Moves p.state r.1.state
    by_test true swap h = h
    by_test false swap h = inl refl

-- What an owner knows of the state.
early_starting :
    (s : ProcessState) (spawned start : Option ℕ) → Held early s spawned start → s ≡ starting
early_starting pending spawned start h = absurd h
early_starting starting spawned start h = refl
early_starting running spawned start h = absurd h
early_starting stopping spawned start h = absurd h
early_starting stopped spawned start h = absurd h
early_starting failed spawned start h = absurd h

live-edge :
    (s : ProcessState) (spawned start : Option ℕ)
    → Held live s spawned start
    → (edge s stopped ≡ true) × (edge s failed ≡ true)
unfolding edge
live-edge pending spawned start h = absurd h
live-edge starting spawned start h = absurd h
live-edge running spawned start h = (refl, refl)
live-edge stopping spawned start h = (refl, refl)
live-edge stopped spawned start h = absurd h
live-edge failed spawned start h = absurd h

module _ (o : Outcome) (heap : Heap) (m : ProcessManager) (i : ℕ) where
  act-Moves :
      (pt : Point) (a b : List Hold)
      → Owned (heap i) (a ++ (hold_of pt ++ b))
      → Moves (heap i).state (act o heap m i pt).0.1.state
  unfolding act fail_start publish set_state spawn_step Lifecycle.started wait_step settle_exit reap
      edge
  act-Moves ticketed a b w =
      by_swap (compare_and_swap_state pending starting (heap i))
        (swap-Moves pending starting (heap i) refl)
    where
      by_swap :
          (swap : ManagedProcess × Bool)
          → Moves (heap i).state swap.0.state
          → let r : Shared × Option Point =
              (if swap.1 then ((m, swap.0), some claimed) else ((give_back m, heap i), none)) in
            Moves (heap i).state r.0.1.state
      by_swap (p, true) h = h
      by_swap (p, false) h = inl refl
  act-Moves claimed a b w = by_answer (register heap m i)
    where
      by_answer :
          (r : ProcessManager × Result ProcessError Bool)
          → Moves (heap i).state (registered_or_refused (heap i) r).0.1.state
      by_answer (n, ok c) = inl refl
      by_answer (n, err e) = inl refl
  act-Moves refused a b w =
      let p = heap i in
      let held = (alone p.state p.closes p.spawned p.start_time a early b w).2.1 in
      from_state p.state starting pending (early_starting p.state p.spawned p.start_time held) refl
  act-Moves registered a b w = by_flag m.is_shutting_down o.spawn
    where
      begun : (heap i).state ≡ starting
      begun =
          let p = heap i in
          early_starting p.state p.spawned p.start_time
            (alone p.state p.closes p.spawned p.start_time a early b w).2.1

      by_flag :
          (c : Bool) (s : Spawn)
          → let r : ManagedProcess × Option Point =
              (if c then fail_start (heap i) else Lifecycle.started o (heap i) s) in
            Moves (heap i).state r.0.state
      by_flag true s = from_state (heap i).state starting failed begun refl
      by_flag false no_pipe = from_state (heap i).state starting failed begun refl
      by_flag false no_command = from_state (heap i).state starting failed begun refl
      by_flag false (spawned_as n) = from_state (heap i).state starting running begun refl
  act-Moves failing a b w = inl refl
  act-Moves unstarted a b w = inl refl
  act-Moves waiting a b w = by_exit o.exit
    where
      by_exit : (x : Exit) → Moves (heap i).state (settle_exit (reap o (heap i)) x).0.state
      by_exit exited =
          let p = heap i in
          inr
            (live-edge p.state p.spawned p.start_time
              (alone p.state p.closes p.spawned p.start_time a live b w).2.1).0
      by_exit (exit_error code) = swap-Moves stopping stopped (reap o (heap i)) refl
      by_exit other_error = swap-Moves stopping stopped (reap o (heap i)) refl
  act-Moves unasked a b w =
      let p = heap i in
      inr
        (live-edge p.state p.spawned p.start_time
          (alone p.state p.closes p.spawned p.start_time a live b w).2.1).1
  act-Moves settled a b w = inl refl

put-Moves :
    (h : Heap) (i j : ℕ) (p : ManagedProcess)
    → Moves (h i).state p.state
    → Moves (h j).state (put h i p j).state
unfolding put
put-Moves h i j p f = elim (Bool-cases (i == j)) [
  | inl q ↦
      let same_one : i ≡ j = ground arith in
      rw q (subst (λ k. Moves (h k).state p.state) same_one f)
  | inr q ↦ rw q (inl refl)
]

-- In a world where every process has at most one owner and every thread and the loop of health
-- checks its ticket, a step of any thread, a stop, a kill, a health check or a shutdown leaves the
-- state of each process or takes it along an edge of the state machine: pending to starting;
-- starting to pending, running or failed; running to stopping, stopped or failed; stopping to
-- stopped or failed.
pub step-Moves :
    (e : Event) (w : World) (j : ℕ) → IsOwned w → Moves (w.heap j).state ((step e w).heap j).state
unfolding step
step-Moves (call_start i) w j v = by_ticket (take_ticket w.manager)
  where
    by_ticket :
        (t : Option ProcessManager) → Moves (w.heap j).state ((ticket_taken w i t).heap j).state
    by_ticket none = inl refl
    by_ticket (some m) = inl refl
step-Moves (step_thread o k) w j v = by_split (split_at k w.threads) (split_at-Splits k w.threads)
  where
    by_split :
        (s : Split)
        → Splits w.threads s
        → Moves (w.heap j).state ((thread_moved o w s).heap j).state
    by_split none e = unfold thread_moved in inl refl
    by_split (some (a, (i, pt), b)) e =
        let split : w.threads ≡ a ++ (i, pt) ∷ b = unfold Splits in e in
        unfold thread_moved moved in
        put-Moves w.heap i j (act o w.heap w.manager i pt).0.1 (
          act-Moves o w.heap w.manager i pt (holds i a) (holds i b)
            (subst (λ l. Owned (w.heap i) l) (holds-split i pt w.threads a b split) (v.owned i)))
step-Moves (access x i) w j v =
    unfold touched in
    put-Moves w.heap i j (touch x w.manager (w.heap i)).1
      (touch-Moves x w.manager (w.heap i) (holds i w.threads) (v.owned i))
step-Moves set_shutdown w j v = inl refl
step-Moves end_health_loop w j v = by_flags w.manager.is_shutting_down w.health_loop
  where
    by_flags : (b c : Bool) → Moves (w.heap j).state ((health_loop_ended w b c).heap j).state
    by_flags true true = inl refl
    by_flags true false = inl refl
    by_flags false c = inl refl
