-- ===== src/Process/Maps.antt =====
-- Maps as lists of keys and values: no key stands twice in them.
use go_cli_server.Prelude.{
  suc, true, false, ◌≡◌, ◌≢◌, refl, sym, ap, ◌∙◌, subst, arith, inl, inr, Bool-cases, none, some,
  List, [], ◌∷◌, length,
}
use go_cli_server.Text.{Bytes, same, same_iff, same_refl, is_some}
use go_cli_server.Protocol.Registry.{lookup, store}
use go_cli_server.Hub.Keys.{lookup-store_other}
use go_cli_server.Scheduler.Tasks.{delete}

same_swap : (j k : Bytes) → same j k ≡ false → same k j ≡ false
same_swap j k h = elim (Bool-cases (same k j)) [
  | inl e ↦
      absurd (apart (sym (subst (λ x. same x k ≡ true) ((same_iff k j).0 e) (same_refl k)) ∙ h))
  | inr e ↦ e
]
  where
    apart : true ≢ false
    apart e = cc

module _ {V : Type 0} where
  -- No key stands twice.
  unfoldable pub Distinct : List (Bytes × V) → Type 0
  Distinct [] = Unit
  Distinct ((k, v) ∷ m) = (lookup k m ≡ none) × Distinct m

  pub lookup-head :
      (j k : Bytes) (w : V) (m : List (Bytes × V))
      → same j k ≡ true
      → lookup k ((j, w) ∷ m) ≡ some w
  unfolding lookup
  lookup-head j k w m e = rw e refl

  pub lookup-tail :
      (j k : Bytes) (w : V) (m : List (Bytes × V))
      → same j k ≡ false
      → lookup k ((j, w) ∷ m) ≡ lookup k m
  unfolding lookup
  lookup-tail j k w m e = rw e refl

  pub head_absent :
      {A : Type 0} (j k : Bytes) (w : V) (m : List (Bytes × V))
      → same j k ≡ true
      → lookup k ((j, w) ∷ m) ≡ none
      → A
  head_absent j k w m e h = absurd (ne w (sym (lookup-head j k w m e) ∙ h))
    where
      ne : (w : V) → some w ≢ none
      ne w e = cc

  pub length-store_new :
      (k : Bytes) (v : V) (m : List (Bytes × V))
      → lookup k m ≡ none
      → length (store k v m) ≡ suc (length m)
  unfolding store
  length-store_new k v [] h = refl
  length-store_new k v ((j, w) ∷ m) h = elim (Bool-cases (same j k)) [
    | inl e ↦ head_absent j k w m e h
    | inr e ↦ rw e (ap suc (length-store_new k v m (sym (lookup-tail j k w m e) ∙ h)))
  ]

  pub store_new-Distinct :
      (k : Bytes) (v : V) (m : List (Bytes × V))
      → lookup k m ≡ none
      → Distinct m
      → Distinct (store k v m)
  unfolding store lookup Distinct
  store_new-Distinct k v [] h d = (refl, tt)
  store_new-Distinct k v ((j, w) ∷ m) h d = elim (Bool-cases (same j k)) [
    | inl e ↦ head_absent j k w m e h
    | inr e ↦ rw e (
      lookup-store_other k j v m (same_swap j k e) ∙ d.0,
      store_new-Distinct k v m (sym (lookup-tail j k w m e) ∙ h) d.1,
    )
  ]

  pub delete-absent : (k : Bytes) (m : List (Bytes × V)) → lookup k m ≡ none → delete k m ≡ m
  unfolding delete
  delete-absent k [] h = refl
  delete-absent k ((j, w) ∷ m) h = elim (Bool-cases (same j k)) [
    | inl e ↦ head_absent j k w m e h
    | inr e ↦ rw e (ap (λ t. (j, w) ∷ t) (delete-absent k m (sym (lookup-tail j k w m e) ∙ h)))
  ]

  pub delete-store_new :
      (k : Bytes) (v : V) (m : List (Bytes × V)) → lookup k m ≡ none → delete k (store k v m) ≡ m
  unfolding store delete
  delete-store_new k v [] h = rw (same_refl k) refl
  delete-store_new k v ((j, w) ∷ m) h = elim (Bool-cases (same j k)) [
    | inl e ↦ head_absent j k w m e h
    | inr e ↦
        rw (e, e) (ap (λ t. (j, w) ∷ t) (delete-store_new k v m (sym (lookup-tail j k w m e) ∙ h)))
  ]

  lookup-delete_absent :
      (i k : Bytes) (m : List (Bytes × V)) → lookup i m ≡ none → lookup i (delete k m) ≡ none
  unfolding delete
  lookup-delete_absent i k [] h = h
  lookup-delete_absent i k ((j, w) ∷ m) h = elim (Bool-cases (same j i)) [
    | inl e ↦ head_absent j i w m e h
    | inr e ↦ elim (Bool-cases (same j k)) [
      | inl q ↦ rw q (lookup-delete_absent i k m (sym (lookup-tail j i w m e) ∙ h))
      | inr q ↦ rw q (
          lookup-tail j i w (delete k m) e
          ∙ lookup-delete_absent i k m (sym (lookup-tail j i w m e) ∙ h))
    ]
  ]

  pub delete-Distinct : (k : Bytes) (m : List (Bytes × V)) → Distinct m → Distinct (delete k m)
  unfolding delete Distinct
  delete-Distinct k [] d = tt
  delete-Distinct k ((j, w) ∷ m) d = elim (Bool-cases (same j k)) [
    | inl e ↦ rw e (delete-Distinct k m d.1)
    | inr e ↦ rw e (lookup-delete_absent j k m d.0, delete-Distinct k m d.1)
  ]

  pub length-delete :
      (k : Bytes) (m : List (Bytes × V))
      → Distinct m
      → is_some (lookup k m) ≡ true
      → suc (length (delete k m)) ≡ length m
  unfolding delete Distinct lookup
  length-delete k [] d h = ground arith
  length-delete k ((j, w) ∷ m) d h = elim (Bool-cases (same j k)) [
    | inl e ↦
        let here : lookup k m ≡ none = subst (λ x. lookup x m ≡ none) ((same_iff j k).0 e) d.0 in
        rw e (ap (λ t. suc (length t)) (delete-absent k m here))
    | inr e ↦
        rw e
          (ap suc (length-delete k m d.1 (subst (λ b. is_some b ≡ true) (lookup-tail j k w m e) h)))
  ]
