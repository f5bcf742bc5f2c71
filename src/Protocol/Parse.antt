-- ===== src/Protocol/Parse.antt =====
-- `ParseCommand`, `ParseResponse` and `parseDataPart` of protocol/parser.go.
use go_cli_server.Prelude.{
  ℕ, suc, ◌+◌, not, ◌||◌, Option, none, some, List, [], ◌∷◌, if◌then◌else◌, length, take, drop, ℤ,
  pos, eq_ℤ, Result, ok, err, ◌>>=◌, ◌>>◌, guard,
}
use go_cli_server.Text.{
  Bytes, same, is_empty, has_prefix, has_suffix, index, fields, split_n, join, to_upper, trim_space,
  trim_right_cr, newline,
}
use go_cli_server.Text.Decimal.{atoi}
use go_cli_server.Base64.{decode}
use go_cli_server.Protocol.{
  Command, Response, ResponseType, response_ok, response_err, response_data, response_json,
  response_chunk, response_status, response_end, response_pong, Error, DataError, missing_newline,
  invalid_length, length_mismatch, invalid_base64, empty_command, json_instead_of_command,
  marker_without_length, unknown_command, bad_data, empty_response, requires_data,
  unknown_response_type, text, command_terminator, data_marker, spaced_marker,
}
use go_cli_server.Protocol.Registry.{VerbRegistry, is_valid_verb, is_sub_verb_for_verb, valid_verbs}
use go_cli_server.Protocol.Reader.{Stream, read_until_terminator}

abbrev decoded : Option Bytes → Result DataError Bytes
decoded none = err invalid_base64
decoded (some s) = ok s

-- What follows the length: the data, trimmed of "\r" at its end.
unfoldable pub check_data : Option ℤ → Bytes → Result DataError Bytes
unfolding decode
check_data none base64_data = err invalid_length
check_data (some n) base64_data =
    if eq_ℤ n (pos 0)
    then ok []
    else if not (eq_ℤ (pos (length base64_data)) n)
    then err length_mismatch
    else decoded (decode base64_data)

-- The part of `parseDataPart` that depends on the place of the first "\n".
unfoldable pub split_data : Option ℕ → Bytes → Result DataError Bytes
unfolding check_data trim_space same atoi trim_right_cr
split_data none s = if same (trim_space s) (b'0' ∷ []) then ok [] else err missing_newline
split_data (some i) s = check_data (atoi (trim_space (take i s))) (trim_right_cr (drop (suc i) s))

-- `parseDataPart`.
unfoldable pub parse_data_part : Bytes → Result DataError Bytes
unfolding split_data index
parse_data_part s = split_data (index (newline ∷ []) s) s

-- `cmd.Data`, read if there is a data part.
unfoldable pub parse_payload : Bytes → Result Error Bytes
unfolding parse_data_part
parse_payload [] = ok []
parse_payload (c ∷ s) = elim (parse_data_part (c ∷ s)) [ ok d ↦ ok d | err e ↦ err (bad_data e) ]

-- The words behind the verb: a registered sub-verb, and the arguments.
unfoldable pub sub_verb_and_args : VerbRegistry → Bytes → List Bytes → Bytes × List Bytes
unfolding to_upper is_sub_verb_for_verb
sub_verb_and_args vr verb [] = ([], [])
sub_verb_and_args vr verb (w ∷ ws) =
    if is_sub_verb_for_verb vr verb (to_upper w) then (to_upper w, ws) else ([], w ∷ ws)

-- The words of the command and the text of its data part.
unfoldable pub build_command : VerbRegistry → List Bytes → Bytes → Result Error Command
unfolding is_valid_verb valid_verbs sub_verb_and_args parse_payload to_upper
build_command vr [] data_part = err empty_command
build_command vr (w ∷ ws) data_part = do
  let verb = to_upper w
  guard (is_valid_verb vr verb) (unknown_command verb (valid_verbs vr))
  let subs = sub_verb_and_args vr verb ws
  payload ← parse_payload data_part
  ok (record { verb = verb; sub_verb = subs.0; args = subs.1; payload = payload })

-- The part of `ParseCommand` that depends on the place of the data marker.
unfoldable pub split_command : VerbRegistry → Option ℕ → Bytes → Result Error Command
unfolding fields build_command has_suffix
split_command vr (some i) content =
    build_command vr (fields (take i content)) (drop (i + length spaced_marker) content)
split_command vr none content =
    if has_suffix (b' ' ∷ data_marker) content
    then err marker_without_length
    else build_command vr (fields content) []

unfoldable pub parse_content : VerbRegistry → Bytes → Result Error Command
unfolding has_prefix split_command index
parse_content vr content = do
  guard (not (is_empty content)) empty_command
  guard (not (has_prefix (b'{' ∷ []) content || has_prefix (b'[' ∷ []) content))
      json_instead_of_command
  split_command vr (index spaced_marker content) content

-- `ParseCommand`: the result, and the stream behind the bytes that were read.
unfoldable pub parse_command : VerbRegistry → Stream → Result Error Command × Stream
unfolding read_until_terminator trim_space parse_content
parse_command vr s =
    let (r, s') = read_until_terminator command_terminator s in
    (r >>= λ content. parse_content vr (trim_space content), s')

-- The `switch` on the type of a response: the type that a word names.
unfoldable pub response_type : Bytes → Option ResponseType
unfolding same
response_type w =
    if same w (text "OK")
    then some response_ok
    else if same w (text "ERR")
    then some response_err
    else if same w (text "PONG")
    then some response_pong
    else if same w (text "END")
    then some response_end
    else if same w (text "JSON")
    then some response_json
    else if same w (text "DATA")
    then some response_data
    else if same w (text "CHUNK")
    then some response_chunk
    else if same w (text "STATUS")
    then some response_status
    else none

abbrev pub plain_response : ResponseType → Bytes → Bytes → Bytes → Response
plain_response t message code payload = record {
  type = t;
  message = message;
  code = code;
  payload = payload;
}

-- The cases for OK and ERR, on the pieces behind the first.
abbrev err_response : List Bytes → Response
err_response [] = plain_response response_err [] [] []
err_response (code ∷ []) = plain_response response_err [] code []
err_response (code ∷ message ∷ more) = plain_response response_err message code []

abbrev pub data_response : ResponseType → Bytes → Result Error Response
data_response t [] = err (requires_data t)
data_response t (c ∷ s) = parse_payload (c ∷ s) >>= λ d. ok (plain_response t [] [] d)

-- One case of the `switch`.
unfoldable pub build_response : ResponseType → List Bytes → Bytes → Result Error Response
unfolding join parse_payload
build_response response_ok parts data_part = ok (plain_response response_ok (join parts) [] [])
build_response response_err parts data_part = ok (err_response parts)
build_response response_pong parts data_part = ok (plain_response response_pong [] [] [])
build_response response_end parts data_part = ok (plain_response response_end [] [] [])
build_response t parts data_part = data_response t data_part

unfoldable pub known_response :
    Option ResponseType → Bytes → List Bytes → Bytes → Result Error Response
unfolding build_response
known_response none w parts data_part = err (unknown_response_type w)
known_response (some t) w parts data_part = build_response t parts data_part

-- The pieces of the response part and the text of the data part.
unfoldable pub response_parts : List Bytes → Bytes → Result Error Response
unfolding response_type to_upper known_response
response_parts [] data_part = err (unknown_response_type [])
response_parts (w ∷ parts) data_part =
    known_response (response_type (to_upper w)) (to_upper w) parts data_part

unfoldable pub split_response : Option ℕ → Bytes → Result Error Response
unfolding response_parts split_n
split_response (some i) content =
    response_parts (split_n 3 (take i content)) (drop (i + length spaced_marker) content)
split_response none content = response_parts (split_n 3 content) []

unfoldable pub response_content : Bytes → Result Error Response
unfolding split_response index
response_content content = do
  guard (not (is_empty content)) empty_response
  split_response (index spaced_marker content) content

-- `ParseResponse`.
unfoldable pub parse_response : Stream → Result Error Response × Stream
unfolding read_until_terminator trim_space response_content
parse_response s =
    let (r, s') = read_until_terminator command_terminator s in
    (r >>= λ content. response_content (trim_space content), s')
