-- ===== src/Hub/Keys.antt =====
-- The maps of hub/registry.go and protocol/parser.go: what is found after a store.
use go_cli_server.Prelude.{
  ℕ, true, false, ◌||◌, ◌≡◌, refl, arith, some, List, [], ◌∷◌, ◌++◌, Bool-cases, inl, inr,
}
use go_cli_server.Text.{Bytes, same, same_iff, same_refl, to_upper, upper_byte}
use go_cli_server.Protocol.Registry.{
  VerbRegistry, member, add_key, lookup, store, register_keys, register_verb, is_valid_verb,
  register_sub_verb_for_verb, is_sub_verb_for_verb, or_empty,
}

module _ {ℓ} {V : Type ℓ} where
  pub lookup-store_same :
      (k : Bytes) (v : V) (m : List (Bytes × V)) → lookup k (store k v m) ≡ some v
  unfolding lookup store
  lookup-store_same k v [] = rw (same_refl k) refl
  lookup-store_same k v ((j, w) ∷ m) = elim (Bool-cases (same j k)) [
    | inl e ↦ rw (e, e) refl
    | inr e ↦ rw (e, e) (lookup-store_same k v m)
  ]

  pub lookup-store_other :
      (k j : Bytes) (v : V) (m : List (Bytes × V))
      → same k j ≡ false
      → lookup j (store k v m) ≡ lookup j m
  unfolding lookup store
  lookup-store_other k j v [] h = rw h refl
  lookup-store_other k j v ((i, w) ∷ m) h = elim (Bool-cases (same i k)) [
    | inl e ↦ let i≢j : same i j ≡ false = rw ((same_iff i k).0 e) h in rw (e, i≢j) refl
    | inr e ↦ rw (e, lookup-store_other k j v m h) refl
  ]

pub member-append : (k : Bytes) (a b : List Bytes) → member k (a ++ b) ≡ (member k a || member k b)
unfolding member
member-append k [] b = refl
member-append k (j ∷ a) b = ground (arith, member-append k a b)

pub member-add_key_same : (k : Bytes) (ks : List Bytes) → member k (add_key k ks) ≡ true
unfolding add_key
member-add_key_same k ks = elim (Bool-cases (member k ks)) [
  | inl e ↦ rw (e, e) refl
  | inr e ↦ rw (e, member-append k ks (k ∷ []), e) (unfold member in rw (same_refl k) refl)
]

pub member-add_key_kept :
    (j k : Bytes) (ks : List Bytes) → member j ks ≡ true → member j (add_key k ks) ≡ true
unfolding add_key
member-add_key_kept j k ks h = elim (Bool-cases (member k ks)) [
  | inl e ↦ rw e h
  | inr e ↦ rw (e, member-append j ks (k ∷ []), h) refl
]

upper_byte-upper_byte : (c : ℕ) → upper_byte (upper_byte c) ≡ upper_byte c
unfolding upper_byte
upper_byte-upper_byte c = ground arith

pub to_upper-to_upper : (s : Bytes) → to_upper (to_upper s) ≡ to_upper s
unfolding to_upper
to_upper-to_upper [] = refl
to_upper-to_upper (c ∷ s) = rw (upper_byte-upper_byte c, to_upper-to_upper s) refl

-- What a parser knows, it knows after another registration.
pub is_valid_verb-register_verb :
    (vr : VerbRegistry) (v w : Bytes)
    → is_valid_verb vr w ≡ true
    → is_valid_verb (register_verb vr (v ∷ [])) w ≡ true
unfolding is_valid_verb register_verb register_keys
is_valid_verb-register_verb vr v w h = member-add_key_kept (to_upper w) (to_upper v) vr.verbs h

pub is_valid_verb-register_verb_same :
    (vr : VerbRegistry) (v w : Bytes)
    → to_upper w ≡ to_upper v
    → is_valid_verb (register_verb vr (v ∷ [])) w ≡ true
unfolding is_valid_verb register_verb register_keys
is_valid_verb-register_verb_same vr v w e = rw e (member-add_key_same (to_upper v) vr.verbs)

pub is_valid_verb-register_sub :
    (vr : VerbRegistry) (v s w : Bytes)
    → is_valid_verb (register_sub_verb_for_verb vr v (s ∷ [])) w ≡ is_valid_verb vr w
unfolding is_valid_verb register_sub_verb_for_verb
is_valid_verb-register_sub vr v s w = refl

pub is_sub_verb-register_verb :
    (vr : VerbRegistry) (v w s : Bytes)
    → is_sub_verb_for_verb (register_verb vr (v ∷ [])) w s ≡ is_sub_verb_for_verb vr w s
unfolding is_sub_verb_for_verb register_verb
is_sub_verb-register_verb vr v w s = refl

pub is_sub_verb-register_sub_same :
    (vr : VerbRegistry) (v s w t : Bytes)
    → to_upper w ≡ to_upper v
    → to_upper t ≡ to_upper s
    → is_sub_verb_for_verb (register_sub_verb_for_verb vr v (s ∷ [])) w t ≡ true
unfolding is_sub_verb_for_verb register_sub_verb_for_verb register_keys
is_sub_verb-register_sub_same vr v s w t ew et =
    rw
      (
        ew,
        et,
        lookup-store_same (to_upper v)
            (add_key (to_upper s) (or_empty (lookup (to_upper v) vr.sub_verbs_by_verb)))
            vr.sub_verbs_by_verb,
      )
      (member-add_key_same (to_upper s) _)

pub is_sub_verb-register_sub :
    (vr : VerbRegistry) (v s w t : Bytes)
    → is_sub_verb_for_verb vr w t ≡ true
    → is_sub_verb_for_verb (register_sub_verb_for_verb vr v (s ∷ [])) w t ≡ true
unfolding is_sub_verb_for_verb register_sub_verb_for_verb register_keys
is_sub_verb-register_sub vr v s w t h = elim (Bool-cases (same (to_upper v) (to_upper w))) [
  | inl e ↦
      let same_verb = (same_iff (to_upper v) (to_upper w)).0 e in
      rw
        (
          ← same_verb,
          lookup-store_same (to_upper v)
              (add_key (to_upper s) (or_empty (lookup (to_upper v) vr.sub_verbs_by_verb)))
              vr.sub_verbs_by_verb,
        )
        (member-add_key_kept (to_upper t) (to_upper s) _ (rw same_verb h))
  | inr e ↦
      rw
        (lookup-store_other (to_upper v) (to_upper w)
          (add_key (to_upper s) (or_empty (lookup (to_upper v) vr.sub_verbs_by_verb)))
          vr.sub_verbs_by_verb e)
        h
]
