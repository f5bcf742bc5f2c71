-- ===== src/Process/Touch.antt =====
-- process/lifecycle.go: an access from elsewhere leaves a process to its owner.
use go_cli_server.Prelude.{
  ℕ, zero, suc, ◌<◌, Bool, true, false, ◌&&◌, ◌||◌, not, ◌==◌, ◌≡◌, refl, sym, ap, ◌∙◌, subst,
  arith, Option, none, some, List, [], ◌∷◌, if◌then◌else◌, ltb, ltb→lt, Bool-cases, inl, inr,
}
use go_cli_server.Text.{is_some}
use go_cli_server.Process.Managed.{
  ManagedProcess, ProcessState, pending, starting, running, stopping, stopped, failed, same_state,
  state_number, set_state, compare_and_swap_state, cancel, set_descendants,
}
use go_cli_server.Process.Manager.{ProcessManager}
use go_cli_server.Process.Lifecycle.{
  Access, ask_stop, force_kill, cancel_context, check_running, check_stopping, snapshot_descendants,
  check_starting, touch, mark_killed, started_long_ago,
}
use go_cli_server.Process.Owner.{Hold, early, broken, live, over, OwnedBy, Owned, Unspawned}

pub same_state→eq : (a b : ProcessState) → same_state a b ≡ true → a ≡ b
same_state→eq a b h =
    sym (of_number-state_number a)
    ∙ ap of_number (numbers (state_number a) (state_number b) h)
    ∙ of_number-state_number b
  where
    of_number : ℕ → ProcessState
    of_number zero = pending
    of_number (suc zero) = starting
    of_number (suc (suc zero)) = running
    of_number (suc (suc (suc zero))) = stopping
    of_number (suc (suc (suc (suc zero)))) = stopped
    of_number (suc (suc (suc (suc (suc n))))) = failed

    of_number-state_number : (s : ProcessState) → of_number (state_number s) ≡ s
    of_number-state_number pending = refl
    of_number-state_number starting = refl
    of_number-state_number running = refl
    of_number-state_number stopping = refl
    of_number-state_number stopped = refl
    of_number-state_number failed = refl

    numbers : (a b : ℕ) → (a == b) ≡ true → a ≡ b
    numbers a b h = ground arith

module _ (closes : ℕ) (spawned start : Option ℕ) where
  -- The states that a stop, a kill and the health check lead to.
  stopped_by :
      (s : ProcessState) (hs : List Hold)
      → OwnedBy s closes spawned start hs
      → OwnedBy (if same_state s running then stopping else s) closes spawned start hs
  stopped_by running [] o = absurd o
  stopped_by running (early ∷ []) o = absurd o.1
  stopped_by running (broken ∷ []) o = absurd o.1
  stopped_by running (live ∷ []) o = o
  stopped_by running (over ∷ []) o = absurd o.1
  stopped_by running (h ∷ i ∷ hs) o = absurd o
  stopped_by pending hs o = o
  stopped_by starting hs o = o
  stopped_by stopping hs o = o
  stopped_by stopped hs o = o
  stopped_by failed hs o = o

  -- A process that is done is not running or stopping, and one that starts has no start time.
  done_not_running :
      (hs : List Hold)
      → 0 < closes
      → OwnedBy running closes spawned start hs
      → OwnedBy failed closes spawned start hs
  done_not_running [] d o = absurd o
  done_not_running (h ∷ []) d o = absurd (let c = o.0 in omega arith)
  done_not_running (h ∷ i ∷ hs) d o = absurd o

  done_not_stopping :
      (hs : List Hold)
      → 0 < closes
      → OwnedBy stopping closes spawned start hs
      → OwnedBy stopped closes spawned start hs
  done_not_stopping [] d o = absurd o
  done_not_stopping (h ∷ []) d o = absurd (let c = o.0 in omega arith)
  done_not_stopping (h ∷ i ∷ hs) d o = absurd o

  starting_unstarted :
      (now : ℕ) (hs : List Hold)
      → started_long_ago now start ≡ true
      → OwnedBy starting closes spawned start hs
      → OwnedBy failed closes spawned start hs
  starting_unstarted now [] l o = absurd o
  starting_unstarted now (early ∷ []) l o = absurd (never start l o.1.1)
    where
      never : (t : Option ℕ) → started_long_ago now t ≡ true → Unspawned t → ⊥
      never none l u = ground arith
      never (some n) l u = u
  starting_unstarted now (broken ∷ []) l o = absurd o.1
  starting_unstarted now (live ∷ []) l o = absurd o.1
  starting_unstarted now (over ∷ []) l o = absurd o.1
  starting_unstarted now (h ∷ i ∷ hs) l o = absurd o

-- A spawned command makes the process running or later.
killed_by :
    (closes : ℕ) (spawned start : Option ℕ) (s : ProcessState) (hs : List Hold)
    → OwnedBy s closes spawned start hs
    → OwnedBy
        (if is_some spawned
            && not (same_state s stopping || same_state s stopped || same_state s failed)
          then stopping
          else s)
        closes
        spawned
        start
        hs
killed_by closes none start s hs o = o
killed_by closes (some n) start pending [] o = absurd o.1
killed_by closes (some n) start pending (early ∷ []) o = absurd o.1
killed_by closes (some n) start pending (broken ∷ []) o = absurd o.1
killed_by closes (some n) start pending (live ∷ []) o = absurd o.1
killed_by closes (some n) start pending (over ∷ []) o = absurd o.1
killed_by closes (some n) start pending (h ∷ i ∷ hs) o = absurd o
killed_by closes (some n) start starting [] o = absurd o
killed_by closes (some n) start starting (early ∷ []) o = absurd o.1.0
killed_by closes (some n) start starting (broken ∷ []) o = absurd o.1
killed_by closes (some n) start starting (live ∷ []) o = absurd o.1
killed_by closes (some n) start starting (over ∷ []) o = absurd o.1
killed_by closes (some n) start starting (h ∷ i ∷ hs) o = absurd o
killed_by closes (some n) start running hs o = stopped_by closes (some n) start running hs o
killed_by closes (some n) start stopping hs o = o
killed_by closes (some n) start stopped hs o = o
killed_by closes (some n) start failed hs o = o

-- A change of state under a condition.
chosen :
    (b : Bool) (s : ProcessState) (p : ManagedProcess) (hs : List Hold)
    → OwnedBy (if b then s else p.state) p.closes p.spawned p.start_time hs
    → Owned (if b then set_state s p else p) hs
unfolding set_state
chosen true s p hs o = o
chosen false s p hs o = o

-- The same for a swap.
swapped :
    (b : Bool) (s : ProcessState) (p : ManagedProcess) (hs : List Hold)
    → OwnedBy (if b then s else p.state) p.closes p.spawned p.start_time hs
    → let after : ManagedProcess × Bool = (if b then (set_state s p, true) else (p, false)) in
      Owned after.0 hs
unfolding set_state
swapped true s p hs o = o
swapped false s p hs o = o

-- A swap from a state under a condition that holds for no owner in that state.
settled_by :
    (from to s : ProcessState) (closes : ℕ) (spawned start : Option ℕ) (hs : List Hold)
    → (OwnedBy from closes spawned start hs → OwnedBy to closes spawned start hs)
    → OwnedBy s closes spawned start hs
    → OwnedBy (if same_state s from then to else s) closes spawned start hs
settled_by from to s closes spawned start hs move o = elim (Bool-cases (same_state s from)) [
  | inl e ↦ rw e (move (subst (λ x. OwnedBy x closes spawned start hs) (same_state→eq s from e) o))
  | inr e ↦ rw e o
]

guarded :
    (b : Bool) (q p : ManagedProcess) (hs : List Hold)
    → (b ≡ true → Owned q hs)
    → Owned p hs
    → Owned (if b then q else p) hs
guarded true q p hs oq o = oq refl
guarded false q p hs oq o = o

guarded_pair :
    (b : Bool) (n m : ProcessManager) (q p : ManagedProcess) (hs : List Hold)
    → (b ≡ true → Owned q hs)
    → Owned p hs
    → let after : ProcessManager × ManagedProcess = (if b then (n, q) else (m, p)) in
      Owned after.1 hs
guarded_pair true n m q p hs oq o = oq refl
guarded_pair false n m q p hs oq o = o

pub touch-Owned :
    (x : Access) (m : ProcessManager) (p : ManagedProcess) (hs : List Hold)
    → Owned p hs
    → Owned (touch x m p).1 hs
unfolding touch mark_killed cancel set_descendants compare_and_swap_state
touch-Owned ask_stop m p hs o =
    swapped (same_state p.state running) stopping p hs
      (stopped_by p.closes p.spawned p.start_time p.state hs o)
touch-Owned force_kill m p hs o =
    chosen
      (is_some p.spawned
        && not (
            same_state p.state stopping || same_state p.state stopped || same_state p.state failed))
      stopping p hs (killed_by p.closes p.spawned p.start_time p.state hs o)
touch-Owned cancel_context m p hs o = o
touch-Owned check_running m p hs o =
    guarded (ltb 0 p.closes) _ p hs
      (λ e. swapped (same_state p.state running) failed p hs (
        settled_by running failed p.state p.closes p.spawned p.start_time hs
          (done_not_running p.closes p.spawned p.start_time hs (ltb→lt 0 p.closes e)) o))
      o
touch-Owned check_stopping m p hs o =
    guarded (ltb 0 p.closes) _ p hs
      (λ e. swapped (same_state p.state stopping) stopped p hs (
        settled_by stopping stopped p.state p.closes p.spawned p.start_time hs
          (done_not_stopping p.closes p.spawned p.start_time hs (ltb→lt 0 p.closes e)) o))
      o
touch-Owned (snapshot_descendants pids) m p hs o = o
touch-Owned (check_starting now) m p hs o =
    guarded_pair (started_long_ago now p.start_time) _ m _ p hs
      (λ e. swapped (same_state p.state starting) failed p hs (
        settled_by starting failed p.state p.closes p.spawned p.start_time hs
          (starting_unstarted p.closes p.spawned p.start_time now hs e) o))
      o
