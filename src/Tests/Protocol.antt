-- ===== src/Tests/Protocol.antt =====
-- The theorems on protocol/ at concrete inputs.
use go_cli_server.Prelude.{[], ◌∷◌, ◌++◌, ◌≡◌, refl, arith, ok}
use go_cli_server.Text.{Bytes, has_prefix, to_upper}
use go_cli_server.Text.Decimal.{decimal}
use go_cli_server.Base64.{encode, symbol}
use go_cli_server.Protocol.{Command, response_json, eof, command_terminator, text}
use go_cli_server.Protocol.Registry.{VerbRegistry, is_valid_verb, is_sub_verb_for_verb}
use go_cli_server.Protocol.Reader.{read_until_terminator}
use go_cli_server.Protocol.Sanitize.{sanitize_message, sanitize_error_code}
use go_cli_server.Protocol.Format.{write_command_with_sub_verb, write_ok, write_err, write_json}
use go_cli_server.Protocol.Parse.{parse_command, parse_response}
use go_cli_server.Protocol.Framing.{ends_semi, ReadOutcome, read_until_terminator-outcome}
use go_cli_server.Protocol.CommandTrip.{IsReadable, parse_command-write_command}
use go_cli_server.Protocol.Messages.{
  IsSafe, sanitize_message-IsSafe, ok_head, read-write_ok, read-write_err, err_head,
  read-write_err_stray,
}
use go_cli_server.Protocol.ResponseTrip.{json, write_payload, parse_response-write_payload}

abbrev registry : VerbRegistry
registry = record {
  verbs = text "PROC" ∷ text "RUN" ∷ [];
  sub_verbs_by_verb = (text "PROC", text "STDIN" ∷ []) ∷ [];
}

-- PROC STDIN web;x with the payload "hi".
abbrev stdin_command : Command
stdin_command = record {
  verb = text "PROC";
  sub_verb = text "STDIN";
  args = text "web;x" ∷ [];
  payload = text "hi";
}

abbrev stdin_frame : Bytes
stdin_frame = text "PROC STDIN web;x -- 4" ++ (10 ∷ (text "aGk=" ++ command_terminator))

stdin_command_written :
    write_command_with_sub_verb (text "PROC") (text "STDIN") (text "web;x" ∷ []) (text "hi")
    ≡ ok stdin_frame
unfolding write_command_with_sub_verb encode symbol decimal
stdin_command_written = refl

stdin_command-IsReadable : IsReadable registry stdin_command
unfolding is_valid_verb is_sub_verb_for_verb to_upper has_prefix write_command_with_sub_verb
stdin_command-IsReadable = record {
  verb_no_space = (refl, (refl, (refl, (refl, tt))));
  verb_upper = refl;
  verb_known = refl;
  verb_not_json = refl;
  sub_verb_known = ((refl, (refl, (refl, (refl, (refl, tt))))), refl, refl);
  payload_bytes = omega arith;
  last_not_semicolon = λ e. cc;
}

parse_command-write_command_example :
    parse_command registry (record { pending = stdin_frame ++ text "PING;;"; ending = eof })
    ≡ (ok stdin_command, record { pending = text "PING;;"; ending = eof })
parse_command-write_command_example =
    parse_command-write_command registry stdin_command stdin_frame (text "PING;;") eof
      stdin_command-IsReadable stdin_command_written

abbrev json_frame : Bytes
json_frame = text "JSON -- 4" ++ (10 ∷ (text "e30=" ++ command_terminator))

json_written : write_payload json (text "{}") ≡ ok json_frame
unfolding write_json encode symbol decimal
json_written = refl

parse_response-write_payload_example :
    parse_response (record { pending = json_frame ++ []; ending = eof }) ≡ (
      ok (record { type = response_json; message = []; code = []; payload = text "{}" }),
      record { pending = []; ending = eof },
    )
parse_response-write_payload_example =
    parse_response-write_payload json (text "{}") json_frame [] eof (omega arith) json_written

read_until_terminator-outcome_example :
    ReadOutcome
      (text "PING;;X")
      eof
      (read_until_terminator command_terminator (record { pending = text "PING;;X"; ending = eof }))
read_until_terminator-outcome_example =
    read_until_terminator-outcome (record { pending = text "PING;;X"; ending = eof })

sanitize_message-IsSafe_example : IsSafe (sanitize_message (text "a;;;b -- c"))
sanitize_message-IsSafe_example = sanitize_message-IsSafe (text "a;;;b -- c")

read-write_ok_example :
    read_until_terminator command_terminator
      (record { pending = text "OK done;;" ++ text "PONG;;"; ending = eof })
    ≡ (
      ok (ok_head ++ sanitize_message (text "done")),
      record { pending = text "PONG;;"; ending = eof },
    )
read-write_ok_example =
    read-write_ok [] (text "done") (text "OK done;;") (text "PONG;;") eof (λ e. cc)
      (unfold ends_semi in refl) (unfold write_ok sanitize_message in refl)

read-write_err_example :
    read_until_terminator command_terminator
      (record { pending = text "ERR not_found gone;;" ++ []; ending = eof })
    ≡ (
      ok (err_head (text "not_found;") ++ sanitize_message (text "gone")),
      record { pending = []; ending = eof },
    )
read-write_err_example =
    read-write_err (text "not_found;") (text "gone") (text "ERR not_found gone;;") [] eof
      (unfold ends_semi in refl) (unfold write_err sanitize_message sanitize_error_code in refl)

read-write_err_stray_example :
    (read_until_terminator command_terminator
      (record { pending = text "ERR internal near ;;;" ++ text "PONG;;"; ending = eof })).1
    ≡ record { pending = 59 ∷ text "PONG;;"; ending = eof }
read-write_err_stray_example =
    read-write_err_stray (text "internal") (text "near ;") (text "ERR internal near ;;;")
      (text "PONG;;") eof (unfold ends_semi in refl)
      (unfold write_err sanitize_message sanitize_error_code in refl)
