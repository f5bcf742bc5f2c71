-- ===== src/Scheduler/Life.antt =====
-- The life of one task of scheduler/scheduler.go: every interleaving of ticks, deliveries and `Cancel`.
use go_cli_server.Prelude.{
  ℕ, suc, ◌<◌, Bool, true, false, ◌&&◌, not, ◌≡◌, ◌≢◌, refl, subst, inl, inr, arith, Option, none,
  some, Result, ok, ℤ, pos, Bool-cases, ltb, ltb→lt,
}
use go_cli_server.Text.{Bytes}
use go_cli_server.Scheduler.{Task, TaskStatus, pending, delivered, failed, cancelled}
use go_cli_server.Scheduler.Tasks.{
  SchedulerError, is_due, dispatch_task, retry, resolve, cancel_task,
}

true_ne : true ≢ false
true_ne e = cc

abbrev fine : {V : Type 0} → V → Result SchedulerError V
fine a = ok a

fine-inj : {V : Type 0} {a b : V} → fine a ≡ fine b → a ≡ b
fine-inj e = cc

-- The times and the configuration: `n` is the greatest number of attempts.
module _ {T : Type 0} (before : T → T → Bool) (add : T → ℤ → T) (n : ℕ) (retry_delay : ℤ) where
  -- What happens to a task: a tick takes it for delivery, its delivery ends, or it is cancelled.
  pub data Step (t : Task T) : Task T → Type 0 where
    dispatched : (now : T) → is_due before now t ≡ true → Step t (dispatch_task before now t)
    resolved :
        (now : T) (stopping : Bool) (outcome : Option Bytes)
        → t.delivering ≡ true
        → Step t (resolve add (pos n) retry_delay now stopping outcome t).0
    was_cancelled : {t' : Task T} → cancel_task t ≡ ok t' → Step t t'

  -- From a task that waits, with attempts left: one just made, or one read from a task file.
  pub data Reachable : Task T → Type 0 where
    made : {t : Task T} → t.status ≡ pending → t.attempts < n → t.delivering ≡ false → Reachable t
    stepped : {t t' : Task T} → Reachable t → Step t t' → Reachable t'

  -- What the status says about the attempts, and about a delivery in flight.
  abbrev pub Attempted : TaskStatus → ℕ → Bool → Type 0
  Attempted pending k d = k < n
  Attempted delivered k d = (k < n) × (d ≡ false)
  Attempted failed k d = (k ≡ n) × (d ≡ false)
  Attempted cancelled k d = k < n

  pub IsSound : Task T → Type 0
  IsSound t = Attempted t.status t.attempts t.delivering

  resolve_ok-IsSound :
      (t : Task T) (st : TaskStatus) (now : T) (stopping : Bool)
      → Attempted st t.attempts true
      → IsSound (resolve add (pos n) retry_delay now stopping none (record t { status = st })).0
  unfolding resolve IsSound
  resolve_ok-IsSound t pending now stopping s = (s, refl)
  resolve_ok-IsSound t delivered now stopping s = (s.0, refl)
  resolve_ok-IsSound t failed now stopping s = absurd (true_ne s.1)
  resolve_ok-IsSound t cancelled now stopping s = s

  retry-IsSound :
      (t : Task T) (now : T) (e : Bytes)
      → t.status ≡ pending
      → t.attempts < n
      → IsSound (retry add (pos n) retry_delay now e t).0
  unfolding retry IsSound
  retry-IsSound t now e p h = elim (Bool-cases (ltb (suc t.attempts) n)) [
    | inl more ↦ rw (more, p) (ltb→lt (suc t.attempts) n more)
    | inr last ↦ rw last (ground arith, refl)
  ]

  resolve_err-IsSound :
      (t : Task T) (st : TaskStatus) (now : T) (stopping : Bool) (e : Bytes)
      → Attempted st t.attempts true
      → IsSound (resolve add (pos n) retry_delay now stopping (some e) (record t { status = st })).0
  unfolding resolve IsSound
  resolve_err-IsSound t pending now true e s = s
  resolve_err-IsSound t pending now false e s =
      retry-IsSound (record t { status = pending }) now e refl s
  resolve_err-IsSound t delivered now stopping e s = absurd (true_ne s.1)
  resolve_err-IsSound t failed now stopping e s = absurd (true_ne s.1)
  resolve_err-IsSound t cancelled now stopping e s = s

  dispatch-IsSound :
      (t : Task T) (st : TaskStatus) (now : T)
      → Attempted st t.attempts t.delivering
      → IsSound (dispatch_task before now (record t { status = st }))
  unfolding dispatch_task is_due IsSound
  dispatch-IsSound t pending now s =
      elim (Bool-cases (not t.delivering && before t.deliver_at now)) [
        | inl e ↦ rw e s
        | inr e ↦ rw e s
      ]
  dispatch-IsSound t delivered now s = s
  dispatch-IsSound t failed now s = s
  dispatch-IsSound t cancelled now s = s

  cancel-IsSound :
      (t : Task T) (st : TaskStatus) {t' : Task T}
      → Attempted st t.attempts t.delivering
      → cancel_task (record t { status = st }) ≡ ok t'
      → IsSound t'
  unfolding cancel_task IsSound
  cancel-IsSound t pending s e = subst IsSound (fine-inj e) s
  cancel-IsSound t delivered s e = cc
  cancel-IsSound t failed s e = cc
  cancel-IsSound t cancelled s e = cc

  step-IsSound : {t t' : Task T} → IsSound t → Step t t' → IsSound t'
  unfolding IsSound
  step-IsSound {t = t} s (dispatched now due) = dispatch-IsSound t t.status now s
  step-IsSound {t = t} s (resolved now stopping none flying) =
      resolve_ok-IsSound t t.status now stopping
        (subst (λ d. Attempted t.status t.attempts d) flying s)
  step-IsSound {t = t} s (resolved now stopping (some e) flying) =
      resolve_err-IsSound t t.status now stopping e
        (subst (λ d. Attempted t.status t.attempts d) flying s)
  step-IsSound {t = t} s (was_cancelled e) = cancel-IsSound t t.status s e

  -- Starting from a task that is pending, with fewer attempts made than the greatest number and no
  -- delivery in flight, and however ticks, deliveries and cancellations of it interleave: it has
  -- failed only after exactly the greatest number of attempts, before that it has made fewer, and
  -- when it is delivered or has failed no delivery of it is in flight. A task that is restored with
  -- as many attempts as are allowed is not covered.
  pub Reachable-IsSound : {t : Task T} → Reachable t → IsSound t
  unfolding IsSound
  Reachable-IsSound (made {t = t} p a d) = rw p a
  Reachable-IsSound (stepped r s) = step-IsSound (Reachable-IsSound r) s

  dispatch-status : (t : Task T) (now : T) → (dispatch_task before now t).status ≡ t.status
  unfolding dispatch_task
  dispatch-status t now = elim (Bool-cases (is_due before now t)) [
    | inl e ↦ rw e refl
    | inr e ↦ rw e refl
  ]

  resolve-status :
      (t : Task T) (st : TaskStatus) (now : T) (stopping : Bool) (outcome : Option Bytes)
      → st ≢ pending
      → Attempted st t.attempts true
      → (resolve add (pos n) retry_delay now stopping outcome (record t { status = st })).0.status
        ≡ st
  unfolding resolve
  resolve-status t pending now stopping outcome ne s = absurd (ne refl)
  resolve-status t delivered now stopping outcome ne s = absurd (true_ne s.1)
  resolve-status t failed now stopping outcome ne s = absurd (true_ne s.1)
  resolve-status t cancelled now stopping none ne s = refl
  resolve-status t cancelled now stopping (some e) ne s = refl

  cancel_refused :
      (t : Task T) (st : TaskStatus) {t' : Task T}
      → st ≢ pending
      → cancel_task (record t { status = st }) ≡ ok t'
      → t'.status ≡ st
  unfolding cancel_task
  cancel_refused t pending ne e = absurd (ne refl)
  cancel_refused t delivered ne e = cc
  cancel_refused t failed ne e = cc
  cancel_refused t cancelled ne e = cc

  -- Starting from a task that is pending, with fewer attempts made than the greatest number and no
  -- delivery in flight: once it is delivered, failed or cancelled, no tick, delivery or
  -- cancellation changes its status.
  pub status_final :
      {t t' : Task T} → Reachable t → t.status ≢ pending → Step t t' → t'.status ≡ t.status
  unfolding IsSound
  status_final {t = t} r ne (dispatched now due) = dispatch-status t now
  status_final {t = t} r ne (resolved now stopping outcome flying) =
      resolve-status t t.status now stopping outcome ne
        (subst (λ d. Attempted t.status t.attempts d) flying (Reachable-IsSound r))
  status_final {t = t} r ne (was_cancelled e) = cancel_refused t t.status ne e
