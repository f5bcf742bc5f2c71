-- ===== src/Scheduler/Lookup.antt =====
-- What `Get` and `Cancel` of scheduler/scheduler.go find after `Schedule`.
use go_cli_server.Prelude.{
  suc, false, ◌≡◌, refl, sym, ap, ◌∙◌, none, some, List, [], ◌∷◌, Bool-cases, inl, inr, subst,
  Result, ok, >>=-eq-ok, ℤ,
}
use go_cli_server.Text.{Bytes, same}
use go_cli_server.Protocol.Registry.{lookup, store}
use go_cli_server.Hub.Keys.{lookup-store_same}
use go_cli_server.Scheduler.{Task, pending, cancelled}
use go_cli_server.Scheduler.Store.{Os, Codec}
use go_cli_server.Scheduler.Tasks.{Scheduler, SchedulerError, delete, clone, cancel_task}
use go_cli_server.Scheduler.Operations.{
  check_schedule, new_task, schedule, cancel, get, persist_task, remove_task_from_storage,
}

pub lookup-delete_same {ℓ} :
    {V : Type ℓ} (k : Bytes) (m : List (Bytes × V)) → lookup k (delete k m) ≡ none
unfolding lookup delete
lookup-delete_same k [] = refl
lookup-delete_same k ((j, v) ∷ m) = elim (Bool-cases (same j k)) [
  | inl e ↦ rw e (lookup-delete_same k m)
  | inr e ↦ rw (e, e) (lookup-delete_same k m)
]

module _ {F T : Type 0} (os : Os F) (json : Codec T) (stamp : Bytes) where
  -- A schedule that succeeds, taken apart.
  pub record IsScheduled (s s' : Scheduler F T) (t : Task T) : Type 0 where
    pub found : lookup t.id s'.tasks ≡ some t
    pub is_pending : t.status ≡ pending
    pub not_delivering : t.delivering ≡ false
    pub counted : s'.total_scheduled ≡ suc s.total_scheduled
    pub cancelled_kept : s'.total_cancelled ≡ s.total_cancelled

  abbrev ok_pair : Scheduler F T → Task T → Result SchedulerError (Scheduler F T × Task T)
  ok_pair s t = ok (s, t)

  pair-inj :
      (s s' : Scheduler F T) (t t' : Task T) → ok_pair s t ≡ ok_pair s' t' → (s ≡ s') × (t ≡ t')
  pair-inj s s' t t' e = (cc, cc)

  schedule-IsScheduled :
      (add : T → ℤ → T) (now : T) (s : Scheduler F T) (target : Bytes) (duration : ℤ)
      (payload project : Bytes) {s' : Scheduler F T} {t : Task T}
      → schedule os json stamp add now s target duration payload project ≡ ok (s', t)
      → IsScheduled s s' t
  unfolding schedule persist_task new_task clone
  schedule-IsScheduled add now s target duration payload project {s' = s'} {t = t} h =
      let done = >>=-eq-ok (check_schedule s target duration payload project) _ h in
      let t0 = new_task add now (suc s.next_task_id) target duration payload project in
      let stored : Scheduler F T = record s {
        next_task_id = suc s.next_task_id;
        tasks = store t0.id t0 s.tasks;
        total_scheduled = suc s.total_scheduled;
      } in
      let s0 = persist_task os json stamp stored t0 in
      let same_pair = pair-inj s0 s' (clone t0) t done.2 in
      subst (λ x. IsScheduled s x t) same_pair.0
        (subst (λ x. IsScheduled s s0 x) same_pair.1
          (record {
            found = lookup-store_same t0.id t0 s.tasks;
            is_pending = refl;
            not_delivering = refl;
            counted = refl;
            cancelled_kept = refl;
          }))

  get-removed :
      (s : Scheduler F T) (t : Task T)
      → get (remove_task_from_storage os json stamp s t) t.id ≡ none
  unfolding get remove_task_from_storage
  get-removed s t = rw (lookup-delete_same t.id s.tasks) refl

  get-found :
      (s : Scheduler F T) (t : Task T)
      → lookup t.id s.tasks ≡ some t
      → t.delivering ≡ false
      → get s t.id ≡ some t
  unfolding get clone
  get-found s t found d = rw (found, sym d) refl

  cancel_task-pending :
      (t : Task T) → t.status ≡ pending → cancel_task t ≡ ok (record t { status = cancelled })
  unfolding cancel_task
  cancel_task-pending t p = rw p refl

  -- A cancellation of a pending task that is found under its own ID.
  cancel-found :
      (s : Scheduler F T) (t : Task T)
      → lookup t.id s.tasks ≡ some t
      → t.status ≡ pending
      → (s' : Scheduler F T) × (cancel os json stamp s t.id ≡ ok s')
        × (get s' t.id ≡ none)
        × (s'.total_scheduled ≡ s.total_scheduled)
        × (s'.total_cancelled ≡ suc s.total_cancelled)
  unfolding cancel
  cancel-found s t found p =
      let t' : Task T = record t { status = cancelled } in
      let counted : Scheduler F T = record s {
        tasks = store t.id t' s.tasks;
        total_cancelled = suc s.total_cancelled;
      } in
      (
        remove_task_from_storage os json stamp counted t',
        rw (found, cancel_task-pending t p) refl,
        get-removed counted t',
        unfold remove_task_from_storage in refl,
        unfold remove_task_from_storage in refl,
      )

  -- After a successful `Schedule`, `Get` finds the returned task under its ID, and `Cancel` of that
  -- ID succeeds; then `Get` finds it no more, and the scheduled and the cancelled tasks are each
  -- one more than before.
  pub cancel-schedule :
      (add : T → ℤ → T) (now : T) (s : Scheduler F T) (target : Bytes) (duration : ℤ)
      (payload project : Bytes) {s' : Scheduler F T} {t : Task T}
      → schedule os json stamp add now s target duration payload project ≡ ok (s', t)
      → (get s' t.id ≡ some t)
        × ((s'' : Scheduler F T) × (cancel os json stamp s' t.id ≡ ok s'')
            × (get s'' t.id ≡ none)
            × (s''.total_scheduled ≡ suc s.total_scheduled)
            × (s''.total_cancelled ≡ suc s.total_cancelled))
  cancel-schedule add now s target duration payload project h =
      let v = schedule-IsScheduled add now s target duration payload project h in
      let c = cancel-found _ _ v.found v.is_pending in
      (
        get-found _ _ v.found v.not_delivering,
        (c.0, c.1, c.2, c.3 ∙ v.counted, c.4 ∙ ap suc v.cancelled_kept),
      )
