-- ===== src/Protocol/Registry.antt =====
-- `VerbRegistry` of protocol/parser.go. A Go map from names to `true` is the list of its keys.
use go_cli_server.Prelude.{
  Bool, false, ◌||◌, Option, none, some, List, [], ◌∷◌, ◌++◌, if◌then◌else◌,
}
use go_cli_server.Text.{Bytes, same, to_upper}
use go_cli_server.Protocol.{text}

pub record VerbRegistry : Type 0 where
  pub verbs : List Bytes
  pub sub_verbs_by_verb : List (Bytes × List Bytes)

unfoldable pub member : Bytes → List Bytes → Bool
member k [] = false
member k (j ∷ ks) = same j k || member k ks

-- `m[k] = true`.
unfoldable pub add_key : Bytes → List Bytes → List Bytes
unfolding member
add_key k ks = if member k ks then ks else ks ++ k ∷ []

unfoldable pub lookup {ℓ} : {V : Type ℓ} → Bytes → List (Bytes × V) → Option V
lookup k [] = none
lookup k ((j, v) ∷ m) = if same j k then some v else lookup k m

-- `m[k] = v`.
unfoldable pub store {ℓ} : {V : Type ℓ} → Bytes → V → List (Bytes × V) → List (Bytes × V)
store k v [] = (k, v) ∷ []
store k v ((j, w) ∷ m) = if same j k then (j, v) ∷ m else (j, w) ∷ store k v m

abbrev empty_registry : VerbRegistry
empty_registry = record { verbs = []; sub_verbs_by_verb = [] }

unfoldable pub register_keys : List Bytes → List Bytes → List Bytes
unfolding add_key to_upper
register_keys [] keys = keys
register_keys (v ∷ vs) keys = register_keys vs (add_key (to_upper v) keys)

-- `RegisterVerb`.
unfoldable pub register_verb : VerbRegistry → List Bytes → VerbRegistry
unfolding register_keys
register_verb vr vs = record vr { verbs = register_keys vs vr.verbs }

-- A nil map reads as an empty one.
abbrev pub or_empty : Option (List Bytes) → List Bytes
or_empty none = []
or_empty (some ks) = ks

-- `RegisterSubVerbForVerb`.
unfoldable pub register_sub_verb_for_verb : VerbRegistry → Bytes → List Bytes → VerbRegistry
unfolding register_keys lookup store to_upper
register_sub_verb_for_verb vr verb subs =
    let known = or_empty (lookup (to_upper verb) vr.sub_verbs_by_verb) in
    record vr {
      sub_verbs_by_verb = store (to_upper verb) (register_keys subs known) vr.sub_verbs_by_verb;
    }

-- `IsValidVerb`.
unfoldable pub is_valid_verb : VerbRegistry → Bytes → Bool
unfolding member to_upper
is_valid_verb vr verb = member (to_upper verb) vr.verbs

-- `IsSubVerbForVerb`.
unfoldable pub is_sub_verb_for_verb : VerbRegistry → Bytes → Bytes → Bool
unfolding member to_upper lookup
is_sub_verb_for_verb vr verb sub_verb =
    member (to_upper sub_verb) (or_empty (lookup (to_upper verb) vr.sub_verbs_by_verb))

-- `ValidVerbs`; the order of a Go map is not fixed.
unfoldable pub valid_verbs : VerbRegistry → List Bytes
valid_verbs vr = vr.verbs

-- `NewVerbRegistry`: the built-in verbs, and the sub-verbs of four of them.
unfoldable pub new_verb_registry : VerbRegistry
unfolding register_verb register_sub_verb_for_verb
new_verb_registry =
    let verbs_only = register_verb empty_registry (
      text "RUN"
      ∷ text "RUN-JSON"
      ∷ text "PROC"
      ∷ text "SESSION"
      ∷ text "SUBPROCESS"
      ∷ text "SCRIPT"
      ∷ text "PING"
      ∷ text "INFO"
      ∷ text "SHUTDOWN"
      ∷ []) in
    let with_proc = register_sub_verb_for_verb verbs_only (text "PROC") (
      text "STATUS"
      ∷ text "OUTPUT"
      ∷ text "STOP"
      ∷ text "LIST"
      ∷ text "CLEANUP-PORT"
      ∷ text "STDIN"
      ∷ text "STREAM"
      ∷ []) in
    let with_subprocess =
      register_sub_verb_for_verb with_proc (text "SUBPROCESS") (
        text "REGISTER"
        ∷ text "UNREGISTER"
        ∷ text "HEARTBEAT"
        ∷ text "LIST"
        ∷ text "STATUS"
        ∷ []) in
    let with_session =
      register_sub_verb_for_verb with_subprocess (text "SESSION")
        (text "REGISTER" ∷ text "UNREGISTER" ∷ text "HEARTBEAT" ∷ text "GET" ∷ text "LIST" ∷ []) in
    register_sub_verb_for_verb with_session (text "SCRIPT")
      (text "LIST" ∷ text "GET" ∷ text "SET" ∷ text "CLEAR" ∷ text "RESTART" ∷ [])
