-- ===== src/Hub/InStep.antt =====
-- The handlers of hub/registry.go and the parser's tables of protocol/parser.go stay in step.
use go_cli_server.Prelude.{
  true, not, ◌≡◌, ◌⊎◌, refl, sym, ap, ◌∙◌, Option, none, some, List, [], ◌∷◌, Bool-cases, inl, inr,
  subst, Result, ok, guard, >>=-eq-ok,
}
use go_cli_server.Text.{Bytes, same, same_iff, to_upper, is_some, is_empty}
use go_cli_server.Protocol.Registry.{
  VerbRegistry, lookup, store, register_verb, is_valid_verb, register_sub_verb_for_verb,
  is_sub_verb_for_verb,
}
use go_cli_server.Hub.Registry.{
  CommandRegistry, CommandDefinition, VerbHandler, RegistryError, store_subs, register_subs,
  register, add_sub_handler, register_sub_handler,
}
use go_cli_server.Hub.Keys.{
  lookup-store_same, lookup-store_other, to_upper-to_upper, is_valid_verb-register_verb,
  is_valid_verb-register_verb_same, is_valid_verb-register_sub, is_sub_verb-register_verb,
  is_sub_verb-register_sub_same, is_sub_verb-register_sub,
}

module _ {H : Type 0} where
  -- The parser takes each sub-verb that has a handler for a sub-verb of the verb.
  abbrev pub SubsKnown : VerbRegistry → Bytes → List (Bytes × Option H) → Type 0
  SubsKnown vr verb m =
      (sub : Bytes) (h : Option H) → lookup sub m ≡ some h → is_sub_verb_for_verb vr verb sub ≡ true

  -- The parser accepts each verb that has handlers, and knows its sub-verbs.
  pub record IsInStep (r : CommandRegistry H) : Type 0 where
    pub verbs_known :
        (verb : Bytes) {vh : VerbHandler H}
        → lookup verb r.handlers ≡ some vh
        → is_valid_verb r.protocol verb ≡ true
    pub subs_known :
        (verb : Bytes) {vh : VerbHandler H}
        → lookup verb r.handlers ≡ some vh
        → SubsKnown r.protocol verb vh.sub_handlers

some-inj {ℓ} : {V : Type ℓ} {a b : V} → some a ≡ some b → a ≡ b
some-inj e = cc

pub ok-inj : {V : Type 0} {a : Result RegistryError V} → (x y : V) → a ≡ ok x → a ≡ ok y → x ≡ y
ok-inj x y e f = cc

pub found_of_guard :
    {V : Type 0} (o : Option V) (e : RegistryError) {u : Unit {0}}
    → guard (is_some o) e ≡ ok u
    → (a : V) × (o ≡ some a)
found_of_guard none e h = cc
found_of_guard (some a) e h = (a, refl)

-- What a lookup finds after a store: the new value, under a key that is the stored one, or an old one.
pub lookup-store_cases {ℓ} :
    {V : Type ℓ} (k j : Bytes) (v : V) (m : List (Bytes × V)) {w : V}
    → lookup j (store k v m) ≡ some w
    → ((k ≡ j) × (v ≡ w)) ⊎ (lookup j m ≡ some w)
lookup-store_cases k j v m {w = w} h = elim (Bool-cases (same k j)) [
  | inl e ↦
      let k≡j = (same_iff k j).0 e in
      inl (
        k≡j,
        some-inj (
            sym (lookup-store_same k v m)
            ∙ subst (λ i. lookup i (store k v m) ≡ some w) (sym k≡j) h),
      )
  | inr e ↦ inr (sym (lookup-store_other k j v m e) ∙ h)
]

-- More knowledge of the parser keeps the sub-verbs known.
register_subs-is_sub_verb :
    (vr : VerbRegistry) (verb : Bytes) (svs : List Bytes) (w t : Bytes)
    → is_sub_verb_for_verb vr w t ≡ true
    → is_sub_verb_for_verb (register_subs vr verb svs) w t ≡ true
unfolding register_subs
register_subs-is_sub_verb vr verb [] w t h = h
register_subs-is_sub_verb vr verb (sv ∷ svs) w t h =
    register_subs-is_sub_verb (register_sub_verb_for_verb vr verb (sv ∷ [])) verb svs w t
      (is_sub_verb-register_sub vr verb sv w t h)

register_subs-is_valid_verb :
    (vr : VerbRegistry) (verb : Bytes) (svs : List Bytes) (w : Bytes)
    → is_valid_verb (register_subs vr verb svs) w ≡ is_valid_verb vr w
unfolding register_subs
register_subs-is_valid_verb vr verb [] w = refl
register_subs-is_valid_verb vr verb (sv ∷ svs) w =
    register_subs-is_valid_verb (register_sub_verb_for_verb vr verb (sv ∷ [])) verb svs w
    ∙ is_valid_verb-register_sub vr verb sv w

module _ {H : Type 0} where
  -- The two loops of `Register` run over the same sub-verbs.
  store_subs-SubsKnown :
      (vr : VerbRegistry) (verb : Bytes) (svs : List Bytes) (h : Option H)
      (m : List (Bytes × Option H))
      → SubsKnown vr verb m
      → SubsKnown (register_subs vr verb svs) verb (store_subs svs h m)
  unfolding register_subs store_subs
  store_subs-SubsKnown vr verb [] h m k = k
  store_subs-SubsKnown vr verb (sv ∷ svs) h m k =
      store_subs-SubsKnown (register_sub_verb_for_verb vr verb (sv ∷ [])) verb svs h
        (store (to_upper sv) h m)
        (λ sub g found. elim (lookup-store_cases (to_upper sv) sub h m found) [
          | inl (e, _) ↦
              is_sub_verb-register_sub_same vr verb sv verb sub refl
                (ap to_upper (sym e) ∙ to_upper-to_upper sv)
          | inr old ↦ is_sub_verb-register_sub vr verb sv verb sub (k sub g old)
        ])

  -- A new handler for a verb, under a parser that knows more, keeps them in step.
  pub register_step :
      (r : CommandRegistry H) (v : Bytes) (vh : VerbHandler H) (vr : VerbRegistry)
      → IsInStep r
      → ((w : Bytes) → is_valid_verb r.protocol w ≡ true → is_valid_verb vr w ≡ true)
      → ((w t : Bytes)
          → is_sub_verb_for_verb r.protocol w t ≡ true
          → is_sub_verb_for_verb vr w t ≡ true)
      → is_valid_verb vr v ≡ true
      → SubsKnown vr v vh.sub_handlers
      → IsInStep (record { handlers = store v vh r.handlers; protocol = vr })
  register_step r v vh vr i keep_verbs keep_subs verb_ok subs_ok = record {
    verbs_known = λ w found. elim (lookup-store_cases v w vh r.handlers found) [
      | inl (e, _) ↦ subst (λ x. is_valid_verb vr x ≡ true) e verb_ok
      | inr old ↦ keep_verbs w (i.verbs_known w old)
    ];
    subs_known = λ w {vh = vh'} found. elim (lookup-store_cases v w vh r.handlers found) [
      | inl (e, f) ↦
          subst (λ x. SubsKnown {H = H} vr x (VerbHandler.sub_handlers vh')) e
            (subst (λ (x : VerbHandler H). SubsKnown vr v x.sub_handlers) f subs_ok)
      | inr old ↦ λ sub g s. keep_subs w sub (i.subs_known w old sub g s)
    ];
  }

  no_subs-SubsKnown : (vr : VerbRegistry) (verb : Bytes) → SubsKnown {H = H} vr verb []
  no_subs-SubsKnown vr verb sub h e = unfold lookup in cc

  pub register-IsInStep :
      (r : CommandRegistry H) (def : CommandDefinition H) {r' : CommandRegistry H}
      → IsInStep r
      → register r def ≡ ok r'
      → IsInStep r'
  unfolding register
  register-IsInStep r def i h =
      let verb = to_upper def.verb in
      let e1 = >>=-eq-ok (guard (not (is_empty def.verb)) _) _ h in
      let e2 = >>=-eq-ok (guard (is_some def.handler) _) _ e1.2 in
      let e3 = >>=-eq-ok (guard (not (is_some (lookup verb r.handlers))) _) _ e2.2 in
      let vr1 = register_verb r.protocol (verb ∷ []) in
      let vr2 = register_subs vr1 verb def.sub_verbs in
      subst IsInStep (ok-inj _ _ refl e3.2) (
        register_step r verb _ vr2 i
          (λ w k.
            register_subs-is_valid_verb vr1 verb def.sub_verbs w
            ∙ is_valid_verb-register_verb r.protocol verb w k)
          (λ w t k.
            register_subs-is_sub_verb vr1 verb def.sub_verbs w t
              (is_sub_verb-register_verb r.protocol verb w t ∙ k))
          (register_subs-is_valid_verb vr1 verb def.sub_verbs verb
            ∙ is_valid_verb-register_verb_same r.protocol verb verb refl)
          (store_subs-SubsKnown vr1 verb def.sub_verbs def.handler [] (no_subs-SubsKnown vr1 verb)))

  add_sub_handler-IsInStep :
      (r : CommandRegistry H) (v s : Bytes) (h : Option H) (found : Option (VerbHandler H))
      {r' : CommandRegistry H}
      → IsInStep r
      → lookup v r.handlers ≡ found
      → add_sub_handler r v s h found ≡ ok r'
      → IsInStep r'
  unfolding add_sub_handler
  add_sub_handler-IsInStep r v s h none i e q = cc
  add_sub_handler-IsInStep r v s h (some vh) i e q =
      let done = >>=-eq-ok (guard (not (is_some (lookup s vh.sub_handlers))) _) _ q in
      let vr = register_sub_verb_for_verb r.protocol v (s ∷ []) in
      subst IsInStep (ok-inj _ _ refl done.2) (
        register_step r v _ vr i (λ w k. is_valid_verb-register_sub r.protocol v s w ∙ k)
          (λ w t k. is_sub_verb-register_sub r.protocol v s w t k)
          (is_valid_verb-register_sub r.protocol v s v ∙ i.verbs_known v e)
          (λ sub g found. elim (lookup-store_cases s sub h vh.sub_handlers found) [
            | inl (same_sub, _) ↦
                is_sub_verb-register_sub_same r.protocol v s v sub refl (ap to_upper (sym same_sub))
            | inr old ↦ is_sub_verb-register_sub r.protocol v s v sub (i.subs_known v e sub g old)
          ]))

  pub register_sub_handler-IsInStep :
      (r : CommandRegistry H) (v s : Bytes) (h : Option H) {r' : CommandRegistry H}
      → IsInStep r
      → register_sub_handler r v s h ≡ ok r'
      → IsInStep r'
  unfolding register_sub_handler
  register_sub_handler-IsInStep r v s h i e =
      add_sub_handler-IsInStep r (to_upper v) (to_upper s) h (lookup (to_upper v) r.handlers) i refl
        e
