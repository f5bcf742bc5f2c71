-- ===== src/Process/Ending.antt =====
-- process/lifecycle.go: nothing changes a process that is over.
use go_cli_server.Prelude.{
  ℕ, Bool, true, false, ◌&&◌, ◌||◌, not, ◌==◌, ◌≡◌, refl, sym, ap, ◌∙◌, subst, arith, inl, inr,
  Bool-cases, Option, none, some, List, [], ◌∷◌, ◌++◌, if◌then◌else◌,
}
use go_cli_server.Text.{is_some}
use go_cli_server.Process.Managed.{
  ManagedProcess, ProcessState, pending, starting, running, stopping, stopped, failed, same_state,
  set_state, compare_and_swap_state, is_done, cancel, set_descendants,
}
use go_cli_server.Process.Manager.{Heap, ProcessManager, increment_failed}
use go_cli_server.Process.Lifecycle.{
  Outcome, Point, ticketed, claimed, refused, registered, failing, unstarted, waiting, unasked,
  settled, Access, ask_stop, force_kill, cancel_context, check_running, check_stopping,
  snapshot_descendants, check_starting, Shared, take_ticket, act, touch, mark_killed,
  started_long_ago, give_back,
}
use go_cli_server.Process.World.{
  Thread, World, Event, call_start, step_thread, access, set_shutdown, end_health_loop,
  health_loop_ended, put, Split, split_at, ticket_taken, moved, thread_moved, touched, step, run,
}
use go_cli_server.Process.Owner.{Hold, hold_of, holds, OwnedBy}
use go_cli_server.Process.Run.{IsOwned, step-IsOwned, Splits, split_at-Splits, holds-split}

-- A process that is over.
abbrev pub Over : ManagedProcess → Type 0
Over p = (p.closes ≡ 1) × (is_done p ≡ true)

-- What stays of a process that is over: the state, the exit code, the times, the process ID that was
-- published, the command, and the count of `close`.
unfoldable pub Settled : ManagedProcess → ManagedProcess → Type 0
Settled p q =
    (q.state ≡ p.state)
    × (q.closes ≡ p.closes)
    × (q.exit_code ≡ p.exit_code)
    × (q.start_time ≡ p.start_time)
    × (q.end_time ≡ p.end_time)
    × (q.spawned ≡ p.spawned)
    × (q.pid ≡ p.pid)

Settled-refl : (p : ManagedProcess) → Settled p p
unfolding Settled
Settled-refl p = (refl, refl, refl, refl, refl, refl, refl)

-- A swap from a state that is not the last one does nothing then.
swap-Settled :
    (a b : ProcessState) (p : ManagedProcess)
    → same_state p.state a ≡ false
    → Settled p (compare_and_swap_state a b p).0
unfolding compare_and_swap_state
swap-Settled a b p e = by_test (same_state p.state a) e
  where
    by_test :
        (c : Bool)
        → c ≡ false
        → let r : ManagedProcess × Bool = (if c then (set_state b p, true) else (p, false)) in
          Settled p r.0
    by_test true e = cc
    by_test false e = Settled-refl p

chosen-Settled : (b : Bool) (p q : ManagedProcess) → Settled p q → Settled p (if b then q else p)
chosen-Settled true p q e = e
chosen-Settled false p q e = Settled-refl p

killed :
    (b over : Bool) (p : ManagedProcess)
    → over ≡ true
    → Settled p (if b && not over then set_state stopping p else p)
killed true true p e = Settled-refl p
killed true false p e = cc
killed false over p e = Settled-refl p

not_live :
    (s : ProcessState)
    → (same_state s stopped || same_state s failed) ≡ true
    → (same_state s pending ≡ false)
      × (same_state s starting ≡ false)
      × (same_state s running ≡ false)
      × (same_state s stopping ≡ false)
      × ((same_state s stopping || same_state s stopped || same_state s failed) ≡ true)
not_live pending h = cc
not_live starting h = cc
not_live running h = cc
not_live stopping h = cc
not_live stopped h = (refl, refl, refl, refl, refl)
not_live failed h = (refl, refl, refl, refl, refl)

touch-Settled :
    (x : Access) (m : ProcessManager) (p : ManagedProcess)
    → is_done p ≡ true
    → Settled p (touch x m p).1
unfolding touch is_done mark_killed cancel set_descendants
touch-Settled ask_stop m p d = swap-Settled running stopping p (not_live p.state d).2
touch-Settled force_kill m p d = killed (is_some p.spawned) _ p (not_live p.state d).4
touch-Settled cancel_context m p d = unfold Settled in (refl, refl, refl, refl, refl, refl, refl)
touch-Settled check_running m p d =
    chosen-Settled _ p _ (swap-Settled running failed p (not_live p.state d).2)
touch-Settled check_stopping m p d =
    chosen-Settled _ p _ (swap-Settled stopping stopped p (not_live p.state d).3)
touch-Settled (snapshot_descendants pids) m p d =
    unfold Settled in (refl, refl, refl, refl, refl, refl, refl)
touch-Settled (check_starting now) m p d =
    by_test (started_long_ago now p.start_time) (compare_and_swap_state starting failed p)
      (swap-Settled starting failed p (not_live p.state d).1)
  where
    by_test :
        (b : Bool) (swap : ManagedProcess × Bool)
        → Settled p swap.0
        → let r : Shared =
            (if b then ((if swap.1 then increment_failed m else m), swap.0) else (m, p)) in
          Settled p r.1
    by_test true swap e = e
    by_test false swap e = Settled-refl p

-- A step of a thread that holds nothing.
act-Settled :
    (o : Outcome) (heap : Heap) (m : ProcessManager) (i : ℕ) (pt : Point)
    → hold_of pt ≡ []
    → is_done (heap i) ≡ true
    → Settled (heap i) (act o heap m i pt).0.1
unfolding act is_done
act-Settled o heap m i ticketed h d =
    by_swap (compare_and_swap_state pending starting (heap i))
      (swap-Settled pending starting (heap i) (not_live (heap i).state d).0)
  where
    by_swap :
        (swap : ManagedProcess × Bool)
        → Settled (heap i) swap.0
        → let r : Shared × Option Point =
            (if swap.1 then ((m, swap.0), some claimed) else ((give_back m, heap i), none)) in
          Settled (heap i) r.0.1
    by_swap (p, true) e = e
    by_swap (p, false) e = Settled-refl (heap i)
act-Settled o heap m i claimed h d = cc
act-Settled o heap m i refused h d = cc
act-Settled o heap m i registered h d = cc
act-Settled o heap m i failing h d = cc
act-Settled o heap m i unstarted h d = cc
act-Settled o heap m i waiting h d = cc
act-Settled o heap m i unasked h d = cc
act-Settled o heap m i settled h d = cc

closed_free :
    (s : ProcessState) (closes : ℕ) (spawned start : Option ℕ) (hs : List Hold)
    → closes ≡ 1
    → OwnedBy s closes spawned start hs
    → hs ≡ []
closed_free s closes spawned start [] e o = refl
closed_free s closes spawned start (h ∷ []) e o = absurd (let z = o.0 in omega arith)
closed_free s closes spawned start (h ∷ i ∷ hs) e o = absurd o

middle_nil : (a h b : List Hold) → a ++ (h ++ b) ≡ [] → h ≡ []
middle_nil a [] b e = refl
middle_nil [] (x ∷ h) b e = cc
middle_nil (y ∷ a) (x ∷ h) b e = cc

-- A thread on a process that is over holds nothing.
holding_nothing :
    (w : World) (v : IsOwned w) (i : ℕ) (pt : Point) (a b : List Thread)
    → w.threads ≡ a ++ (i, pt) ∷ b
    → (w.heap i).closes ≡ 1
    → hold_of pt ≡ []
holding_nothing w v i pt a b split closed =
    let p = w.heap i in
    middle_nil (holds i a) (hold_of pt) (holds i b) (
      sym (holds-split i pt w.threads a b split)
      ∙ closed_free p.state p.closes p.spawned p.start_time (holds i w.threads) closed (v.owned i))

put-Settled :
    (h : Heap) (i j : ℕ) (p : ManagedProcess)
    → (i ≡ j → Settled (h i) p)
    → Settled (h j) (put h i p j)
unfolding put
put-Settled h i j p f = elim (Bool-cases (i == j)) [
  | inl q ↦
      let same_one : i ≡ j = ground arith in
      rw q (subst (λ k. Settled (h k) p) same_one (f same_one))
  | inr q ↦ rw q (Settled-refl (h j))
]

step-Settled :
    (e : Event) (w : World) (j : ℕ)
    → IsOwned w
    → Over (w.heap j)
    → Settled (w.heap j) ((step e w).heap j)
unfolding step
step-Settled (call_start i) w j v over = by_ticket (take_ticket w.manager)
  where
    by_ticket : (t : Option ProcessManager) → Settled (w.heap j) ((ticket_taken w i t).heap j)
    by_ticket none = Settled-refl (w.heap j)
    by_ticket (some m) = Settled-refl (w.heap j)
step-Settled (step_thread o k) w j v over =
    by_split (split_at k w.threads) (split_at-Splits k w.threads)
  where
    by_split : (s : Split) → Splits w.threads s → Settled (w.heap j) ((thread_moved o w s).heap j)
    by_split none e = unfold thread_moved in Settled-refl (w.heap j)
    by_split (some (a, (i, pt), b)) e =
        unfold thread_moved moved in
        put-Settled w.heap i j (act o w.heap w.manager i pt).0.1 (λ q.
          let here : Over (w.heap i) = subst (λ k. Over (w.heap k)) (sym q) over in
          let split : w.threads ≡ a ++ (i, pt) ∷ b = unfold Splits in e in
          act-Settled o w.heap w.manager i pt (holding_nothing w v i pt a b split here.0) here.1)
step-Settled (access x i) w j v over =
    unfold touched in
    put-Settled w.heap i j (touch x w.manager (w.heap i)).1 (λ q.
      touch-Settled x w.manager (w.heap i) (subst (λ k. is_done (w.heap k) ≡ true) (sym q) over.1))
step-Settled set_shutdown w j v over = Settled-refl (w.heap j)
step-Settled end_health_loop w j v over = by_flags w.manager.is_shutting_down w.health_loop
  where
    by_flags : (b h : Bool) → Settled (w.heap j) ((health_loop_ended w b h).heap j)
    by_flags true true = Settled-refl (w.heap j)
    by_flags true false = Settled-refl (w.heap j)
    by_flags false h = Settled-refl (w.heap j)

Settled-trans : (p q r : ManagedProcess) → Settled p q → Settled q r → Settled p r
unfolding Settled
Settled-trans p q r e f =
    (f.0 ∙ e.0, f.1 ∙ e.1, f.2 ∙ e.2, f.3 ∙ e.3, f.4 ∙ e.4, f.5 ∙ e.5, f.6 ∙ e.6)

Settled-Over : (p q : ManagedProcess) → Settled p q → Over p → Over q
unfolding Settled is_done
Settled-Over p q e over =
    (e.1 ∙ over.0, ap (λ s. same_state s stopped || same_state s failed) e.0 ∙ over.1)

-- In a world where every process has at most one owner and every thread and the loop of health
-- checks its ticket, a process that is over, with `done` closed, keeps its state, its exit code,
-- its times, its process ID and its command, and `done` is not closed again, whatever calls, steps,
-- kills and checks come after it.
pub run-Settled :
    (es : List Event) (w : World) (j : ℕ)
    → IsOwned w
    → Over (w.heap j)
    → Settled (w.heap j) ((run es w).heap j)
unfolding run
run-Settled [] w j v over = Settled-refl (w.heap j)
run-Settled (e ∷ es) w j v over =
    let first = step-Settled e w j v over in
    Settled-trans (w.heap j) ((step e w).heap j) ((run es (step e w)).heap j) first (
      run-Settled es (step e w) j (step-IsOwned e w v)
        (Settled-Over (w.heap j) ((step e w).heap j) first over))
