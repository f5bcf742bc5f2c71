-- ===== src/Hub/Routing.antt =====
-- Where `Dispatch` of hub/registry.go sends a command once `Register` has taken its verb.
use go_cli_server.Prelude.{
  Bool, true, false, ◌||◌, not, ◌≡◌, ◌≢◌, refl, sym, ap, ◌∙◌, Option, none, some, List, [], ◌∷◌,
  if◌then◌else◌, Bool-cases, inl, inr, subst, Result, ok, guard, >>=-eq-ok, map,
}
use go_cli_server.Text.{Bytes, same, same_iff, same-ne, to_upper, is_some, is_empty}
use go_cli_server.Protocol.{Command}
use go_cli_server.Protocol.Registry.{lookup, store, member}
use go_cli_server.Hub.Registry.{
  CommandRegistry, CommandDefinition, VerbHandler, RegistryError, Route, call, invalid_action,
  is_nil, store_subs, register, sub_route, route, dispatch,
}
use go_cli_server.Hub.Keys.{lookup-store_same, lookup-store_other}

module _ {H : Type 0} where
  -- One stored key more, under a test that is not read any further.
  picked :
      (b : Bool) (k j : Bytes) (h : Option H) (m : List (Bytes × Option H))
      → (if b then some h else lookup k (store j h m))
        ≡ (if same j k || b then some h else lookup k m)
  picked b k j h m = elim (Bool-cases (same j k)) [
    | inl e ↦ rw e (found b ((same_iff j k).0 e))
    | inr e ↦ rw (e, lookup-store_other j k h m e) refl
  ]
    where
      found : (b : Bool) → j ≡ k → (if b then some h else lookup k (store j h m)) ≡ some h
      found true e = refl
      found false e = subst (λ x. lookup x (store j h m) ≡ some h) e (lookup-store_same j h m)

  -- The handler of a sub-verb is the one handler that `Register` stored for all of them.
  lookup-store_subs :
      (k : Bytes) (svs : List Bytes) (h : Option H) (m : List (Bytes × Option H))
      → lookup k (store_subs svs h m) ≡ (if member k (map to_upper svs) then some h else lookup k m)
  unfolding store_subs member
  lookup-store_subs k [] h m = refl
  lookup-store_subs k (sv ∷ svs) h m =
      lookup-store_subs k svs h (store (to_upper sv) h m)
      ∙ picked (member k (map to_upper svs)) k (to_upper sv) h m

  -- What the definition of a command asks of `Dispatch`: its handler, unless the definition lists
  -- sub-verbs and the command has one that is not among them.
  unfoldable pub expected_route : CommandDefinition H → Command → Route H
  expected_route def cmd =
      if is_empty cmd.sub_verb
        || (is_nil def.sub_verbs || member (to_upper cmd.sub_verb) (map to_upper def.sub_verbs))
      then call def.handler
      else invalid_action cmd.verb cmd.sub_verb def.sub_verbs

  -- What `Register` stores for a definition.
  unfoldable pub registered_handler : CommandDefinition H → VerbHandler H
  registered_handler def = record {
    handler = def.handler;
    sub_handlers = store_subs def.sub_verbs def.handler [];
    valid_subs = def.sub_verbs;
  }

  abbrev fine : CommandRegistry H → Result RegistryError (CommandRegistry H)
  fine r = ok r

  ok-inj : (a b : CommandRegistry H) → fine a ≡ fine b → a ≡ b
  ok-inj a b e = cc

  lookup-register :
      (r : CommandRegistry H) (def : CommandDefinition H) {r' : CommandRegistry H}
      → register r def ≡ ok r'
      → r'.handlers ≡ store (to_upper def.verb) (registered_handler def) r.handlers
  unfolding register registered_handler
  lookup-register r def h =
      let e1 = >>=-eq-ok (guard (not (is_empty def.verb)) _) _ h in
      let e2 = >>=-eq-ok (guard (is_some def.handler) _) _ e1.2 in
      let e3 = >>=-eq-ok (guard (not (is_some (lookup (to_upper def.verb) r.handlers))) _) _ e2.2 in
      ap (λ x. x.handlers) (sym (ok-inj _ _ e3.2))

  -- The branches of `Dispatch` for one definition: `b` says that there is no sub-verb, and `m` that
  -- it is one of the definition's.
  route_branches :
      (h : Option H) (subs : List Bytes) (m : List (Bytes × Option H)) (cmd : Command)
      (b known : Bool)
      → let vh : VerbHandler H = record { handler = h; sub_handlers = m; valid_subs = subs } in
        (if b then call h else sub_route vh cmd (if known then some h else none)) ≡ (
          if b || (is_nil subs || known) then call h else invalid_action cmd.verb cmd.sub_verb subs)
  route_branches h subs m cmd true known = refl
  route_branches h [] m cmd false true = refl
  route_branches h [] m cmd false false = refl
  route_branches h (s ∷ ss) m cmd false true = refl
  route_branches h (s ∷ ss) m cmd false false = refl

  route-registered :
      (r : CommandRegistry H) (def : CommandDefinition H) (cmd : Command)
      → route r cmd (some (registered_handler def)) ≡ expected_route def cmd
  unfolding route registered_handler expected_route lookup
  route-registered r def cmd =
      ap
        (λ o.
          if is_empty cmd.sub_verb
          then call def.handler
          else sub_route (registered_handler def) cmd o)
        (lookup-store_subs (to_upper cmd.sub_verb) def.sub_verbs def.handler [])
      ∙ route_branches def.handler def.sub_verbs (store_subs def.sub_verbs def.handler []) cmd
          (is_empty cmd.sub_verb) (member (to_upper cmd.sub_verb) (map to_upper def.sub_verbs))

  -- After a successful `Register`, a command with that verb goes to the handler of the definition,
  -- unless the definition lists sub-verbs and the command has one that is not among them: then the
  -- answer is the sub-verbs of the definition. Case does not matter.
  pub dispatch-register :
      (r : CommandRegistry H) (def : CommandDefinition H) (cmd : Command) {r' : CommandRegistry H}
      → register r def ≡ ok r'
      → to_upper cmd.verb ≡ to_upper def.verb
      → dispatch r' cmd ≡ expected_route def cmd
  unfolding dispatch
  dispatch-register r def cmd {r' = r'} h e =
      ap (λ o. route r' cmd o)
        (ap (λ hs. lookup (to_upper cmd.verb) hs) (lookup-register r def h)
          ∙ ap (λ k. lookup k (store (to_upper def.verb) (registered_handler def) r.handlers)) e
          ∙ lookup-store_same (to_upper def.verb) (registered_handler def) r.handlers)
      ∙ route-registered r' def cmd

  -- A successful `Register` leaves the dispatch of every other verb that has handlers as it was.
  pub dispatch-register_other :
      (r : CommandRegistry H) (def : CommandDefinition H) (cmd : Command) {r' : CommandRegistry H}
      {vh : VerbHandler H}
      → register r def ≡ ok r'
      → to_upper cmd.verb ≢ to_upper def.verb
      → lookup (to_upper cmd.verb) r.handlers ≡ some vh
      → dispatch r' cmd ≡ dispatch r cmd
  unfolding dispatch route
  dispatch-register_other r def cmd {r' = r'} {vh = vh} h ne found =
      let kept : lookup (to_upper cmd.verb) r'.handlers ≡ some vh =
        ap (λ hs. lookup (to_upper cmd.verb) hs) (lookup-register r def h)
        ∙ lookup-store_other (to_upper def.verb) (to_upper cmd.verb) (registered_handler def)
            r.handlers (same-ne (to_upper def.verb) (to_upper cmd.verb) (λ q. ne (sym q)))
        ∙ found in
      ap (λ o. route r' cmd o) kept ∙ same_route vh ∙ ap (λ o. route r cmd o) (sym found)
    where
      same_route : (vh : VerbHandler H) → route r' cmd (some vh) ≡ route r cmd (some vh)
      same_route vh = refl
