-- ===== src/Scheduler/Updates.antt =====
-- `deliverTask` of scheduler/scheduler.go: the task behind a delivery, and its update in the map.
use go_cli_server.Prelude.{
  ℕ, suc, ◌+◌, Bool, true, false, ◌&&◌, ◌≡◌, refl, sym, ap, ◌∙◌, arith, inl, inr, Bool-cases,
  Option, none, some, List, [], ◌∷◌, length, if◌then◌else◌, not, ltb_ℤ, ℤ, pos,
}
use go_cli_server.Text.{Bytes, same, is_some}
use go_cli_server.Protocol.Registry.{lookup}
use go_cli_server.Scheduler.{Task, TaskStatus, pending, delivered, failed, cancelled}
use go_cli_server.Scheduler.Clock.{backoff}
use go_cli_server.Scheduler.Tasks.{resolve, retry, Rest, persist, remove_failed}
use go_cli_server.Scheduler.Operations.{update_task}
use go_cli_server.Process.Maps.{Distinct, lookup-tail}

pub chosen_true {ℓ} : {A : Type ℓ} (b : Bool) (x y : A) → b ≡ true → (if b then x else y) ≡ x
chosen_true b x y e = rw e refl

abbrev pub count_delivered : TaskStatus → ℕ
count_delivered pending = 0
count_delivered delivered = 1
count_delivered failed = 0
count_delivered cancelled = 0

abbrev pub count_failed : TaskStatus → ℕ
count_failed pending = 0
count_failed delivered = 0
count_failed failed = 1
count_failed cancelled = 0

module _ {T : Type 0} (u : Task T) where
  -- The update of a task leaves the keys.
  pub update_task-found :
      (k : Bytes) (m : List (Bytes × Task T))
      → is_some (lookup k (update_task u m)) ≡ is_some (lookup k m)
  unfolding update_task lookup
  update_task-found k [] = refl
  update_task-found k ((j, v) ∷ m) = elim (Bool-cases (same j u.id)) [
    | inl e ↦ elim (Bool-cases (same j k)) [
      | inl q ↦ rw (e, q) refl
      | inr q ↦ rw (e, q) (update_task-found k m)
    ]
    | inr e ↦ elim (Bool-cases (same j k)) [
      | inl q ↦ rw (e, q) refl
      | inr q ↦ rw (e, q) (update_task-found k m)
    ]
  ]

  -- The task itself is what the map then has.
  pub update_task-same :
      (m : List (Bytes × Task T))
      → is_some (lookup u.id m) ≡ true
      → lookup u.id (update_task u m) ≡ some u
  unfolding update_task lookup
  update_task-same [] h = cc
  update_task-same ((j, v) ∷ m) h = elim (Bool-cases (same j u.id)) [
    | inl e ↦ rw (e, e) refl
    | inr e ↦ rw (e, e) (update_task-same m (sym (ap is_some (lookup-tail j u.id v m e)) ∙ h))
  ]

  pub length-update_task : (m : List (Bytes × Task T)) → length (update_task u m) ≡ length m
  unfolding update_task
  length-update_task [] = refl
  length-update_task ((j, v) ∷ m) = elim (Bool-cases (same j u.id)) [
    | inl e ↦ rw e (ap suc (length-update_task m))
    | inr e ↦ rw e (ap suc (length-update_task m))
  ]

  none_found : (o : Option (Task T)) → is_some o ≡ false → o ≡ none
  none_found none e = refl
  none_found (some v) e = cc

  pub update_task-Distinct : (m : List (Bytes × Task T)) → Distinct m → Distinct (update_task u m)
  unfolding update_task Distinct
  update_task-Distinct [] d = tt
  update_task-Distinct ((j, v) ∷ m) d =
      let free : lookup j (update_task u m) ≡ none =
        none_found (lookup j (update_task u m)) (update_task-found j m ∙ ap is_some d.0) in
      elim (Bool-cases (same j u.id)) [
        | inl e ↦ rw e (free, update_task-Distinct m d.1)
        | inr e ↦ rw e (free, update_task-Distinct m d.1)
      ]

-- What the answer of the callback makes of a task that is pending.
pub record IsResolved {T : Type 0} (max_retries : ℤ) (stopping : Bool) (outcome : Option Bytes)
    (t u : Task T) : Type 0 where
  pub same_id : u.id ≡ t.id
  pub not_delivering : u.delivering ≡ false
  pub attempted : u.attempts ≡ t.attempts + (if is_some outcome && not stopping then 1 else 0)
  pub is_delivered : count_delivered u.status ≡ (if is_some outcome then 0 else 1)
  pub has_failed : count_failed u.status ≡ (
      if is_some outcome && (not stopping && not (ltb_ℤ (pos u.attempts) max_retries))
      then 1
      else 0)

pub resolve_pending :
    {T : Type 0} (add : T → ℤ → T) (max_retries retry_delay : ℤ) (now : T) (stopping : Bool)
    (outcome : Option Bytes) (t : Task T)
    → let p : Task T = record t { status = pending } in
      IsResolved max_retries stopping outcome p
        (resolve add max_retries retry_delay now stopping outcome p).0
unfolding resolve retry
resolve_pending add n d now stopping none t = record {
  same_id = refl;
  not_delivering = refl;
  attempted = omega arith;
  is_delivered = refl;
  has_failed = refl;
}
resolve_pending add n d now true (some e) t = record {
  same_id = refl;
  not_delivering = refl;
  attempted = omega arith;
  is_delivered = refl;
  has_failed = refl;
}
resolve_pending {T = T} add n d now false (some e) t = by_test (ltb_ℤ (pos (suc t.attempts)) n) refl
  where
    by_test :
        (b : Bool)
        → ltb_ℤ (pos (suc t.attempts)) n ≡ b
        → let r : Task T × Rest =
            (if not b
              then (
                record t {
                  delivering = false;
                  attempts = suc t.attempts;
                  last_error = e;
                  status = failed;
                },
                remove_failed,
              )
              else (
                record t {
                  delivering = false;
                  status = pending;
                  attempts = suc t.attempts;
                  last_error = e;
                  deliver_at = add now (backoff d (suc t.attempts));
                },
                persist,
              )) in
          IsResolved n false (some e) (record t { status = pending }) r.0
    by_test true q = record {
      same_id = refl;
      not_delivering = refl;
      attempted = omega arith;
      is_delivered = refl;
      has_failed = sym (ap (λ b. if not b then 1 else 0) q);
    }
    by_test false q = record {
      same_id = refl;
      not_delivering = refl;
      attempted = omega arith;
      is_delivered = refl;
      has_failed = sym (ap (λ b. if not b then 1 else 0) q);
    }
