-- ===== src/Hub/Registry.antt =====
-- `CommandRegistry` of hub/registry.go: which handler a command goes to. `H` are the handlers and
-- `none` is the nil one; each operation is taken as one step.
use go_cli_server.Prelude.{
  Bool, true, false, not, ◌||◌, Option, none, some, List, [], ◌∷◌, ◌++◌, if◌then◌else◌, Result, ok,
  err, ◌>>◌, guard,
}
use go_cli_server.Text.{Bytes, same, is_empty, is_some, to_upper}
use go_cli_server.Protocol.{Command}
use go_cli_server.Protocol.Registry.{
  VerbRegistry, lookup, store, register_verb, register_sub_verb_for_verb, new_verb_registry,
}

-- `CommandDefinition`.
pub record CommandDefinition (H : Type 0) : Type 0 where
  pub verb : Bytes
  pub sub_verbs : List Bytes
  pub handler : Option H
  pub description : Bytes

-- `verbHandler`.
pub record VerbHandler (H : Type 0) : Type 0 where
  pub handler : Option H
  pub sub_handlers : List (Bytes × Option H)
  pub valid_subs : List Bytes

-- `CommandRegistry`.
pub record CommandRegistry (H : Type 0) : Type 0 where
  pub handlers : List (Bytes × VerbHandler H)
  pub protocol : VerbRegistry

pub data RegistryError : Type 0 where
  verb_empty nil_handler : RegistryError
  verb_registered verb_unknown needs_sub_verb : Bytes → RegistryError
  sub_verb_registered sub_verb_unknown : Bytes → Bytes → RegistryError
  verb_and_sub_verb_required : RegistryError

abbrev default_registry : Option VerbRegistry → VerbRegistry
default_registry none = new_verb_registry
default_registry (some reg) = reg

-- `NewCommandRegistry`.
unfoldable pub new_command_registry : {H : Type 0} → Option VerbRegistry → CommandRegistry H
unfolding new_verb_registry
new_command_registry reg = record { handlers = []; protocol = default_registry reg }

-- The loop of `Register` over the sub-verbs of the parser.
unfoldable pub register_subs : VerbRegistry → Bytes → List Bytes → VerbRegistry
unfolding register_sub_verb_for_verb
register_subs vr verb [] = vr
register_subs vr verb (sv ∷ svs) =
    register_subs (register_sub_verb_for_verb vr verb (sv ∷ [])) verb svs

abbrev pub is_nil : List Bytes → Bool
is_nil [] = true
is_nil (x ∷ xs) = false

module _ {H : Type 0} where
  -- The loop of `Register` over the sub-verbs' handlers.
  unfoldable pub store_subs :
      List Bytes → Option H → List (Bytes × Option H) → List (Bytes × Option H)
  unfolding to_upper store
  store_subs [] h m = m
  store_subs (sv ∷ svs) h m = store_subs svs h (store (to_upper sv) h m)

  -- `Register`.
  unfoldable pub register :
      CommandRegistry H → CommandDefinition H → Result RegistryError (CommandRegistry H)
  unfolding store_subs register_subs lookup store to_upper register_verb
  register r def =
      let verb = to_upper def.verb in
      guard (not (is_empty def.verb)) verb_empty
      >> (guard (is_some def.handler) nil_handler
          >> (guard (not (is_some (lookup verb r.handlers))) (verb_registered verb)
              >> ok (record {
                handlers =
                    store verb
                      (record {
                        handler = def.handler;
                        sub_handlers = store_subs def.sub_verbs def.handler [];
                        valid_subs = def.sub_verbs;
                      })
                      r.handlers;
                protocol = register_subs (register_verb r.protocol (verb ∷ [])) verb def.sub_verbs;
              })))

  -- `RegisterSubHandler` on the handler of the verb, both names in capitals.
  unfoldable pub add_sub_handler :
      CommandRegistry H
      → Bytes
      → Bytes
      → Option H
      → Option (VerbHandler H)
      → Result RegistryError (CommandRegistry H)
  unfolding lookup store register_sub_verb_for_verb
  add_sub_handler r verb sub h none = err (verb_unknown verb)
  add_sub_handler r verb sub h (some vh) =
      guard (not (is_some (lookup sub vh.sub_handlers))) (sub_verb_registered sub verb)
      >> ok (record {
        handlers =
            store verb
              (record vh {
                sub_handlers = store sub h vh.sub_handlers;
                valid_subs = vh.valid_subs ++ sub ∷ [];
              })
              r.handlers;
        protocol = register_sub_verb_for_verb r.protocol verb (sub ∷ []);
      })

  -- `RegisterSubHandler`.
  unfoldable pub register_sub_handler :
      CommandRegistry H → Bytes → Bytes → Option H → Result RegistryError (CommandRegistry H)
  unfolding add_sub_handler lookup to_upper
  register_sub_handler r verb sub h =
      add_sub_handler r (to_upper verb) (to_upper sub) h (lookup (to_upper verb) r.handlers)

  -- Stops at an error, with the registry as it stands.
  abbrev pub or_stop :
      CommandRegistry H
      → Result RegistryError (CommandRegistry H)
      → (CommandRegistry H → CommandRegistry H × Option RegistryError)
      → CommandRegistry H × Option RegistryError
  or_stop r (err e) next = (r, some e)
  or_stop r (ok r') next = next r'

  -- The loop of `Extend`: what was registered before an error stays.
  unfoldable pub extend_subs :
      CommandRegistry H → Bytes → Option H → List Bytes → CommandRegistry H × Option RegistryError
  unfolding register_sub_handler
  extend_subs r verb h [] = (r, none)
  extend_subs r verb h (sv ∷ svs) =
      or_stop r (register_sub_handler r verb sv h) (λ r'. extend_subs r' verb h svs)

  -- `Extend`.
  unfoldable pub extend :
      CommandRegistry H → CommandDefinition H → CommandRegistry H × Option RegistryError
  unfolding extend_subs to_upper
  extend r def =
      if is_empty def.verb
      then (r, some verb_empty)
      else if not (is_some def.handler)
      then (r, some nil_handler)
      else if is_nil def.sub_verbs
      then (r, some (needs_sub_verb (to_upper def.verb)))
      else extend_subs r def.verb def.handler def.sub_verbs

  -- `ReplaceSubHandler` on the handler of the verb, both names in capitals.
  unfoldable pub swap_sub_handler :
      CommandRegistry H
      → Bytes
      → Bytes
      → Option H
      → Option (VerbHandler H)
      → Result RegistryError (CommandRegistry H)
  unfolding lookup store
  swap_sub_handler r verb sub h none = err (verb_unknown verb)
  swap_sub_handler r verb sub h (some vh) =
      guard (is_some (lookup sub vh.sub_handlers)) (sub_verb_unknown sub verb)
      >> ok (record r {
        handlers = store verb (record vh { sub_handlers = store sub h vh.sub_handlers }) r.handlers;
      })

  -- `ReplaceSubHandler`.
  unfoldable pub replace_sub_handler :
      CommandRegistry H → Bytes → Bytes → Option H → Result RegistryError (CommandRegistry H)
  unfolding swap_sub_handler lookup to_upper
  replace_sub_handler r verb sub h =
      guard (is_some h) nil_handler
      >> (guard (not (is_empty verb || is_empty sub)) verb_and_sub_verb_required
          >> swap_sub_handler r (to_upper verb) (to_upper sub) h
              (lookup (to_upper verb) r.handlers))

  -- `ReplaceCommandHandler` on the handler of the verb, in capitals.
  unfoldable pub swap_handler :
      CommandRegistry H
      → Bytes
      → Option H
      → Option (VerbHandler H)
      → Result RegistryError (CommandRegistry H)
  unfolding store
  swap_handler r verb h none = err (verb_unknown verb)
  swap_handler r verb h (some vh) =
      ok (record r { handlers = store verb (record vh { handler = h }) r.handlers })

  -- `ReplaceCommandHandler`.
  unfoldable pub replace_command_handler :
      CommandRegistry H → Bytes → Option H → Result RegistryError (CommandRegistry H)
  unfolding swap_handler lookup to_upper
  replace_command_handler r verb h =
      guard (is_some h) nil_handler
      >> (guard (not (is_empty verb)) verb_empty
          >> swap_handler r (to_upper verb) h (lookup (to_upper verb) r.handlers))

  -- `validVerbs`; the order of a Go map is not fixed.
  unfoldable pub valid_verbs : List (Bytes × VerbHandler H) → List Bytes
  unfolding same
  valid_verbs [] = []
  valid_verbs ((verb, vh) ∷ m) =
      let rest = valid_verbs m in if same verb (b'*' ∷ []) then rest else verb ∷ rest

-- What `Dispatch` does: it calls a handler, or answers with the actions that are valid.
pub data Route (H : Type 0) : Type 0 where
  call : Option H → Route H
  invalid_action : Bytes → Bytes → List Bytes → Route H

module _ {H : Type 0} where
  abbrev no_verb : CommandRegistry H → Command → Option (VerbHandler H) → Route H
  no_verb r cmd none = invalid_action [] cmd.verb (valid_verbs r.handlers)
  no_verb r cmd (some catch_all) = call catch_all.handler

  abbrev no_sub_handler : VerbHandler H → Command → List Bytes → Route H
  no_sub_handler vh cmd [] = call vh.handler
  no_sub_handler vh cmd (s ∷ ss) = invalid_action cmd.verb cmd.sub_verb (s ∷ ss)

  abbrev pub sub_route : VerbHandler H → Command → Option (Option H) → Route H
  sub_route vh cmd (some h) = call h
  sub_route vh cmd none = no_sub_handler vh cmd vh.valid_subs

  -- `Dispatch` behind the look-up of the verb.
  unfoldable pub route : CommandRegistry H → Command → Option (VerbHandler H) → Route H
  unfolding lookup to_upper valid_verbs
  route r cmd none = no_verb r cmd (lookup (b'*' ∷ []) r.handlers)
  route r cmd (some vh) =
      if is_empty cmd.sub_verb
      then call vh.handler
      else sub_route vh cmd (lookup (to_upper cmd.sub_verb) vh.sub_handlers)

  -- `Dispatch`.
  unfoldable pub dispatch : CommandRegistry H → Command → Route H
  unfolding route lookup to_upper
  dispatch r cmd = route r cmd (lookup (to_upper cmd.verb) r.handlers)

  -- `HasVerb`.
  unfoldable pub has_verb : CommandRegistry H → Bytes → Bool
  unfolding lookup to_upper
  has_verb r verb = is_some (lookup (to_upper verb) r.handlers)

  abbrev subs_of : Option (VerbHandler H) → List Bytes
  subs_of none = []
  subs_of (some vh) = vh.valid_subs

  -- `ValidSubVerbs`.
  unfoldable pub valid_sub_verbs : CommandRegistry H → Bytes → List Bytes
  unfolding lookup to_upper
  valid_sub_verbs r verb = subs_of (lookup (to_upper verb) r.handlers)
