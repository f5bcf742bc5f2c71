-- ===== src/Hub/Changes.antt =====
-- Every sequence of changes to the registry of hub/registry.go keeps it in step with the parser.
use go_cli_server.Prelude.{
  Bool, true, false, ◌||◌, not, ◌≡◌, refl, Option, none, some, List, [], ◌∷◌, if◌then◌else◌, inl,
  inr, subst, Result, ok, err, guard, >>=-eq-ok,
}
use go_cli_server.Text.{Bytes, to_upper, is_some, is_empty}
use go_cli_server.Protocol.Registry.{VerbRegistry, lookup, is_sub_verb_for_verb}
use go_cli_server.Hub.Registry.{
  CommandRegistry, CommandDefinition, VerbHandler, RegistryError, register, register_sub_handler,
  extend_subs, extend, or_stop, is_nil, swap_sub_handler, replace_sub_handler, swap_handler,
  replace_command_handler, new_command_registry,
}
use go_cli_server.Hub.InStep.{
  IsInStep, ok-inj, found_of_guard, lookup-store_cases, register_step, register-IsInStep,
  register_sub_handler-IsInStep,
}

module _ {H : Type 0} where
  or_stop-IsInStep :
      (r : CommandRegistry H) (m : Result RegistryError (CommandRegistry H))
      (next : CommandRegistry H → CommandRegistry H × Option RegistryError)
      → IsInStep r
      → ((r' : CommandRegistry H) → m ≡ ok r' → IsInStep (next r').0)
      → IsInStep (or_stop r m next).0
  or_stop-IsInStep r (err e) next i k = i
  or_stop-IsInStep r (ok r') next i k = k r' refl

  extend_subs-IsInStep :
      (r : CommandRegistry H) (v : Bytes) (h : Option H) (svs : List Bytes)
      → IsInStep r
      → IsInStep (extend_subs r v h svs).0
  unfolding extend_subs
  extend_subs-IsInStep r v h [] i = i
  extend_subs-IsInStep r v h (sv ∷ svs) i =
      or_stop-IsInStep r (register_sub_handler r v sv h) (λ r'. extend_subs r' v h svs) i
        (λ r' e. extend_subs-IsInStep r' v h svs (register_sub_handler-IsInStep r v sv h i e))

  pick-IsInStep :
      (b : Bool) (x y : CommandRegistry H × Option RegistryError)
      → IsInStep x.0
      → IsInStep y.0
      → IsInStep (if b then x else y).0
  pick-IsInStep true x y i j = i
  pick-IsInStep false x y i j = j

  extend-IsInStep :
      (r : CommandRegistry H) (def : CommandDefinition H) → IsInStep r → IsInStep (extend r def).0
  unfolding extend
  extend-IsInStep r def i = pick-IsInStep (is_empty def.verb) _ _ i (
      pick-IsInStep (not (is_some def.handler)) _ _ i (
        pick-IsInStep (is_nil def.sub_verbs) _ _ i
          (extend_subs-IsInStep r def.verb def.handler def.sub_verbs i)))

  -- Replacing handlers stores under known keys only.
  swap_sub_handler-IsInStep :
      (r : CommandRegistry H) (v s : Bytes) (h : Option H) (found : Option (VerbHandler H))
      {r' : CommandRegistry H}
      → IsInStep r
      → lookup v r.handlers ≡ found
      → swap_sub_handler r v s h found ≡ ok r'
      → IsInStep r'
  unfolding swap_sub_handler
  swap_sub_handler-IsInStep r v s h none i e q = cc
  swap_sub_handler-IsInStep r v s h (some vh) i e q =
      let known = >>=-eq-ok (guard (is_some (lookup s vh.sub_handlers)) _) _ q in
      subst IsInStep (ok-inj _ _ refl known.2) (
        register_step r v _ r.protocol i (λ w k. k) (λ w t k. k) (i.verbs_known v e)
          (λ sub g found. elim (lookup-store_cases s sub h vh.sub_handlers found) [
            | inl (same_sub, _) ↦
                let old = found_of_guard (lookup s vh.sub_handlers) _ known.1 in
                subst (λ x. is_sub_verb_for_verb r.protocol v x ≡ true) same_sub
                  (i.subs_known v e s old.0 old.1)
            | inr old ↦ i.subs_known v e sub g old
          ]))

  swap_handler-IsInStep :
      (r : CommandRegistry H) (v : Bytes) (h : Option H) (found : Option (VerbHandler H))
      {r' : CommandRegistry H}
      → IsInStep r
      → lookup v r.handlers ≡ found
      → swap_handler r v h found ≡ ok r'
      → IsInStep r'
  unfolding swap_handler
  swap_handler-IsInStep r v h none i e q = cc
  swap_handler-IsInStep r v h (some vh) i e q = subst IsInStep (ok-inj _ _ refl q) (
      register_step r v _ r.protocol i (λ w k. k) (λ w t k. k) (i.verbs_known v e)
        (i.subs_known v e))

  replace_sub_handler-IsInStep :
      (r : CommandRegistry H) (v s : Bytes) (h : Option H) {r' : CommandRegistry H}
      → IsInStep r
      → replace_sub_handler r v s h ≡ ok r'
      → IsInStep r'
  unfolding replace_sub_handler
  replace_sub_handler-IsInStep r v s h i e =
      let a = >>=-eq-ok (guard (is_some h) _) _ e in
      let b = >>=-eq-ok (guard (not (is_empty v || is_empty s)) _) _ a.2 in
      swap_sub_handler-IsInStep r (to_upper v) (to_upper s) h (lookup (to_upper v) r.handlers) i
        refl b.2

  replace_command_handler-IsInStep :
      (r : CommandRegistry H) (v : Bytes) (h : Option H) {r' : CommandRegistry H}
      → IsInStep r
      → replace_command_handler r v h ≡ ok r'
      → IsInStep r'
  unfolding replace_command_handler
  replace_command_handler-IsInStep r v h i e =
      let a = >>=-eq-ok (guard (is_some h) _) _ e in
      let b = >>=-eq-ok (guard (not (is_empty v)) _) _ a.2 in
      swap_handler-IsInStep r (to_upper v) h (lookup (to_upper v) r.handlers) i refl b.2

-- The operations that change a registry; one that fails leaves it, but for `Extend`.
pub data Change {H : Type 0} (r : CommandRegistry H) : CommandRegistry H → Type 0 where
  registered :
      {r' : CommandRegistry H} (def : CommandDefinition H) → register r def ≡ ok r' → Change r r'
  sub_registered :
      {r' : CommandRegistry H} (v s : Bytes) (h : Option H)
      → register_sub_handler r v s h ≡ ok r'
      → Change r r'
  extended : (def : CommandDefinition H) → Change r (extend r def).0
  sub_replaced :
      {r' : CommandRegistry H} (v s : Bytes) (h : Option H)
      → replace_sub_handler r v s h ≡ ok r'
      → Change r r'
  replaced :
      {r' : CommandRegistry H} (v : Bytes) (h : Option H)
      → replace_command_handler r v h ≡ ok r'
      → Change r r'

-- The registries that a new one becomes.
pub data Reachable {H : Type 0} (reg : Option VerbRegistry) : CommandRegistry H → Type 0 where
  made : Reachable reg (new_command_registry reg)
  changed : {r r' : CommandRegistry H} → Reachable reg r → Change r r' → Reachable reg r'

Change-IsInStep : {H : Type 0} {r r' : CommandRegistry H} → IsInStep r → Change r r' → IsInStep r'
Change-IsInStep {r = r} i (registered def e) = register-IsInStep r def i e
Change-IsInStep {r = r} i (sub_registered v s h e) = register_sub_handler-IsInStep r v s h i e
Change-IsInStep {r = r} i (extended def) = extend-IsInStep r def i
Change-IsInStep {r = r} i (sub_replaced v s h e) = replace_sub_handler-IsInStep r v s h i e
Change-IsInStep {r = r} i (replaced v h e) = replace_command_handler-IsInStep r v h i e

none_stored :
    {H P : Type 0} (reg : Option VerbRegistry) (w : Bytes) {vh : VerbHandler H}
    → lookup w (CommandRegistry.handlers (new_command_registry {H = H} reg)) ≡ some vh
    → P
unfolding new_command_registry lookup
none_stored reg w e = cc

-- In every registry that the operations build from a new one, whatever parser it was given, each
-- verb with handlers is one the parser accepts, and each of its sub-verbs with a handler is one the
-- parser takes for a sub-verb of that verb.
pub Reachable-IsInStep :
    {H : Type 0} {reg : Option VerbRegistry} {r : CommandRegistry H} → Reachable reg r → IsInStep r
Reachable-IsInStep {reg = reg} made = record {
  verbs_known = λ w e. none_stored reg w e;
  subs_known = λ w e. none_stored reg w e;
}
Reachable-IsInStep (changed p c) = Change-IsInStep (Reachable-IsInStep p) c
