-- ===== src/Tests/Hub.antt =====
-- The theorems on hub/ at concrete inputs.
use go_cli_server.Prelude.{◌≡◌, ◌≢◌, ok, refl, ℕ, none, some, [], ◌∷◌}
use go_cli_server.Text.{same, to_upper}
use go_cli_server.Protocol.{Command, text}
use go_cli_server.Protocol.Registry.{member, lookup, register_verb, new_verb_registry}
use go_cli_server.Hub.Routing.{
  registered_handler, expected_route, dispatch-register, dispatch-register_other,
}
use go_cli_server.Hub.Registry.{
  register, CommandRegistry, CommandDefinition, new_command_registry, extend, register_subs, call,
  dispatch,
}
use go_cli_server.Hub.InStep.{IsInStep}
use go_cli_server.Hub.Changes.{made, changed, extended, Reachable-IsInStep}

abbrev proxy : CommandDefinition ℕ
proxy = record {
  verb = text "proxy";
  sub_verbs = text "start" ∷ [];
  handler = some 7;
  description = [];
}

abbrev extended_registry : CommandRegistry ℕ
extended_registry = (extend (new_command_registry none) proxy).0

Reachable-IsInStep_example : IsInStep extended_registry
Reachable-IsInStep_example = Reachable-IsInStep (changed made (extended proxy))

abbrev registered : CommandRegistry ℕ
registered = record {
  handlers = (text "PROXY", registered_handler proxy) ∷ [];
  protocol =
      register_subs (register_verb new_verb_registry (text "PROXY" ∷ [])) (text "PROXY")
        (text "start" ∷ []);
}

proxy-registered : register (new_command_registry none) proxy ≡ ok registered
unfolding register new_command_registry registered_handler
proxy-registered = refl

abbrev start_command : Command
start_command = record { verb = text "Proxy"; sub_verb = text "START"; args = []; payload = [] }

dispatch-register_example : dispatch registered start_command ≡ expected_route proxy start_command
dispatch-register_example =
    dispatch-register (new_command_registry none) proxy start_command proxy-registered
      (unfold to_upper in refl)

start_called : expected_route proxy start_command ≡ call (some 7)
unfolding expected_route member same to_upper
start_called = refl

abbrev scripts : CommandDefinition ℕ
scripts = record { verb = text "jobs"; sub_verbs = []; handler = some 8; description = [] }

abbrev both : CommandRegistry ℕ
both = record {
  handlers =
      (text "PROXY", registered_handler proxy) ∷ (text "JOBS", registered_handler scripts) ∷ [];
  protocol = register_verb registered.protocol (text "JOBS" ∷ []);
}

both-registered : register registered scripts ≡ ok both
unfolding register registered_handler same
both-registered = refl

upper_ne : to_upper (text "Proxy") ≢ to_upper (text "jobs")
unfolding to_upper
upper_ne e = cc

proxy_found :
    lookup (to_upper start_command.verb) registered.handlers ≡ some (registered_handler proxy)
unfolding lookup to_upper same
proxy_found = refl

dispatch-register_other_example : dispatch both start_command ≡ dispatch registered start_command
dispatch-register_other_example =
    dispatch-register_other registered scripts start_command both-registered upper_ne proxy_found
