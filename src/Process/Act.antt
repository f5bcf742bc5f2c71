-- ===== src/Process/Act.antt =====
-- process/lifecycle.go: a step of an owner hands the process on or lets it go.
use go_cli_server.Prelude.{
  ℕ, suc, Bool, true, false, ◌⊎◌, ◌≡◌, ◌≢◌, refl, sym, ap, subst, inl, inr, Option, none, some,
  List, [], ◌∷◌, ◌++◌, append-nil, if◌then◌else◌, Result, ok, err,
}
use go_cli_server.Process.Managed.{
  ManagedProcess, ProcessState, ProcessError, pending, starting, running, stopping, stopped, failed,
  same_state, set_state, compare_and_swap_state,
}
use go_cli_server.Process.Manager.{Heap, ProcessManager, register}
use go_cli_server.Process.Lifecycle
use go_cli_server.Process.Lifecycle.{
  Outcome, Point, Spawn, Exit, Shared, no_pipe, no_command, spawned_as, exited, exit_error,
  other_error, ticketed, claimed, refused, registered, failing, unstarted, waiting, unasked,
  settled, registered_or_refused, fail_start, publish, spawn_step, reap, settle_exit, wait_step,
  act, give_back, close_done,
}
use go_cli_server.Process.Owner.{
  Hold, early, broken, live, over, hold_of, Unspawned, Spawned, Held, OwnedBy, Owned, alone,
  pending_free,
}
use go_cli_server.Process.Touch.{same_state→eq}

abbrev pub point_holds : Option Point → List Hold
point_holds none = []
point_holds (some pt) = hold_of pt

-- What an owner knows of the command.
pub early-Unspawned :
    (s : ProcessState) (spawned start : Option ℕ)
    → Held early s spawned start
    → Unspawned spawned × Unspawned start
early-Unspawned pending spawned start h = absurd h
early-Unspawned starting spawned start h = h
early-Unspawned running spawned start h = absurd h
early-Unspawned stopping spawned start h = absurd h
early-Unspawned stopped spawned start h = absurd h
early-Unspawned failed spawned start h = absurd h

live-Spawned :
    (s : ProcessState) (spawned start : Option ℕ) → Held live s spawned start → Spawned spawned
live-Spawned pending spawned start h = absurd h
live-Spawned starting spawned start h = absurd h
live-Spawned running spawned start h = h
live-Spawned stopping spawned start h = h
live-Spawned stopped spawned start h = absurd h
live-Spawned failed spawned start h = absurd h

-- The end of an owner that has only `close` left to do.
closing :
    (h : Hold) (s : ProcessState) (closes : ℕ) (spawned start : Option ℕ)
    → (h ≡ broken) ⊎ (h ≡ over)
    → (closes ≡ 0) × Held h s spawned start
    → OwnedBy s (suc closes) spawned start []
closing early s closes spawned start w o = absurd (elim w [ inl e ↦ cc | inr e ↦ cc ])
closing live s closes spawned start w o = absurd (elim w [ inl e ↦ cc | inr e ↦ cc ])
closing broken pending closes spawned start w o = absurd o.1
closing broken starting closes spawned start w o = absurd o.1
closing broken running closes spawned start w o = absurd o.1
closing broken stopping closes spawned start w o = absurd o.1
closing broken stopped closes spawned start w o = absurd o.1
closing broken failed closes spawned start w o = ap suc o.0
closing over pending closes spawned start w o = absurd o.1
closing over starting closes spawned start w o = absurd o.1
closing over running closes spawned start w o = absurd o.1
closing over stopping closes spawned start w o = absurd o.1
closing over stopped closes spawned start w o = ap suc o.0
closing over failed closes spawned start w o = ap suc o.0

spawn_step-Owned :
    (o : Outcome) (m : ProcessManager) (p : ManagedProcess)
    → Owned p (early ∷ [])
    → Owned (spawn_step o m p).0 (point_holds (spawn_step o m p).1)
unfolding spawn_step Lifecycle.started fail_start publish set_state
spawn_step-Owned o m p w = by_flag m.is_shutting_down o.spawn
  where
    none_yet : Unspawned p.spawned
    none_yet = (early-Unspawned p.state p.spawned p.start_time w.1).0

    by_flag :
        (b : Bool) (s : Spawn)
        → let after : ManagedProcess × Option Point =
            (if b then fail_start p else Lifecycle.started o p s) in
          Owned after.0 (point_holds after.1)
    by_flag true s = (w.0, none_yet)
    by_flag false no_pipe = (w.0, none_yet)
    by_flag false no_command = (w.0, none_yet)
    by_flag false (spawned_as n) = (w.0, tt)

wait_step-Owned :
    (o : Outcome) (p : ManagedProcess)
    → Owned p (live ∷ [])
    → Owned (wait_step o p).0 (point_holds (wait_step o p).1)
unfolding wait_step settle_exit reap set_state compare_and_swap_state
wait_step-Owned o p w = by_exit o.exit
  where
    alive : Spawned p.spawned
    alive = live-Spawned p.state p.spawned p.start_time w.1

    asked :
        (b : Bool)
        → same_state p.state stopping ≡ b
        → let swap : ManagedProcess × Bool =
            (if b then (set_state stopped (reap o p), true) else (reap o p, false)) in
          Owned swap.0 (hold_of (if swap.1 then settled else unasked))
    asked true e = (w.0, alive)
    asked false e = w

    by_exit :
        (x : Exit) → Owned (settle_exit (reap o p) x).0 (point_holds (settle_exit (reap o p) x).1)
    by_exit exited = (w.0, alive)
    by_exit (exit_error code) = asked (same_state p.state stopping) refl
    by_exit other_error = asked (same_state p.state stopping) refl

-- An owner hands the process on.
handed :
    (p q : ManagedProcess) (a b k : List Hold) (h : Hold)
    → (Owned p (h ∷ []) → Owned q k)
    → Owned p (a ++ h ∷ b)
    → Owned q (a ++ (k ++ b))
handed p q a b k h f o =
    let only = alone p.state p.closes p.spawned p.start_time a h b o in
    subst (λ x. Owned q (x ++ (k ++ b))) (sym only.0)
      (subst (λ x. Owned q (k ++ x)) (sym only.1)
        (subst (λ x. Owned q x) (sym (append-nil k)) (f only.2)))

-- A process that is claimed had no owner.
claim-Owned :
    (p : ManagedProcess) (a b : List Hold)
    → p.state ≡ pending
    → Owned p (a ++ b)
    → Owned (set_state starting p) (a ++ early ∷ b)
unfolding set_state
claim-Owned p a b e o =
    empty a b
      (pending_free p.closes p.spawned p.start_time (a ++ b)
        (subst (λ s. OwnedBy s p.closes p.spawned p.start_time (a ++ b)) e o)).0
  where
    apart : (x : Hold) (l : List Hold) → x ∷ l ≢ []
    apart x l q = cc

    empty :
        (a b : List Hold)
        → a ++ b ≡ []
        → OwnedBy starting p.closes p.spawned p.start_time (a ++ early ∷ b)
    empty [] [] q =
        let known =
          pending_free p.closes p.spawned p.start_time (a ++ b)
            (subst (λ s. OwnedBy s p.closes p.spawned p.start_time (a ++ b)) e o) in
        (known.1, (known.2, known.3))
    empty [] (x ∷ b) q = absurd (apart x b q)
    empty (x ∷ a) b q = absurd (apart x (a ++ b) q)

-- What a step of an owner makes of the process.
unfoldable pub Handed : List Hold → List Hold → Shared × Option Point → Type 0
Handed a b r = Owned r.0.1 (a ++ (point_holds r.1 ++ b))

module _ (o : Outcome) (heap : Heap) (m : ProcessManager) (i : ℕ) where
  pub act-Owned :
      (pt : Point) (a b : List Hold)
      → Owned (heap i) (a ++ (hold_of pt ++ b))
      → Handed a b (act o heap m i pt)
  unfolding act Handed set_state compare_and_swap_state
  act-Owned ticketed a b w = by_state (same_state (heap i).state pending) refl
    where
      none_held : Owned (heap i) (a ++ b)
      none_held = w

      by_state :
          (c : Bool)
          → same_state (heap i).state pending ≡ c
          → let swap : ManagedProcess × Bool =
              (if c then (set_state starting (heap i), true) else (heap i, false)) in
            Handed a b
              (if swap.1 then ((m, swap.0), some claimed) else ((give_back m, heap i), none))
      by_state true e = claim-Owned (heap i) a b (same_state→eq (heap i).state pending e) none_held
      by_state false e = w
  act-Owned claimed a b w = by_answer (register heap m i)
    where
      by_answer :
          (r : ProcessManager × Result ProcessError Bool)
          → Handed a b (registered_or_refused (heap i) r)
      by_answer (n, ok c) = w
      by_answer (n, err e) = w
  act-Owned refused a b w =
      handed (heap i) (set_state pending (heap i)) a b [] early
        (λ u.
          let known = early-Unspawned (heap i).state (heap i).spawned (heap i).start_time u.1 in
          (u.0, known.0, known.1))
        w
  act-Owned registered a b w =
      handed (heap i) (spawn_step o m (heap i)).0 a b (point_holds (spawn_step o m (heap i)).1)
        early (spawn_step-Owned o m (heap i)) w
  act-Owned failing a b w = w
  act-Owned unstarted a b w =
      handed (heap i) (close_done (heap i)) a b [] broken
        (closing broken (heap i).state (heap i).closes (heap i).spawned (heap i).start_time
          (inl refl))
        w
  act-Owned waiting a b w =
      handed (heap i) (wait_step o (heap i)).0 a b (point_holds (wait_step o (heap i)).1) live
        (wait_step-Owned o (heap i)) w
  act-Owned unasked a b w =
      handed (heap i) (set_state failed (heap i)) a b (over ∷ []) live
        (λ u. (u.0, live-Spawned (heap i).state (heap i).spawned (heap i).start_time u.1)) w
  act-Owned settled a b w =
      handed (heap i) (close_done (heap i)) a b [] over
        (closing over (heap i).state (heap i).closes (heap i).spawned (heap i).start_time
          (inr refl))
        w
