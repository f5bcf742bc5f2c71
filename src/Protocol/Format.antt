-- ===== src/Protocol/Format.antt =====
-- `FormatCommand` and `Writer` of protocol/parser.go, and the formatters of protocol/responses.go.
use go_cli_server.Prelude.{List, [], ◌∷◌, ◌++◌, if◌then◌else◌, length, Result, ok, ◌>>=◌, ◌>>◌}
use go_cli_server.Text.{Bytes, is_empty, newline}
use go_cli_server.Text.Decimal.{decimal}
use go_cli_server.Base64.{encode}
use go_cli_server.Protocol.{Command, Error, text, command_terminator, spaced_marker}
use go_cli_server.Protocol.Sanitize.{sanitize_message, sanitize_error_code}
use go_cli_server.Protocol.Validate.{validate_command, validate_frame_size}

abbrev pub format_args : List Bytes → Bytes
format_args [] = []
format_args (a ∷ as') = b' ' ∷ (a ++ format_args as')

-- " -- LENGTH\nBASE64".
abbrev pub data_part : Bytes → Bytes
data_part encoded = spaced_marker ++ (decimal (length encoded) ++ (newline ∷ encoded))

-- `FormatCommand`.
unfoldable pub format_command : Command → Bytes
format_command cmd =
    cmd.verb
    ++ ((if is_empty cmd.sub_verb then [] else b' ' ∷ cmd.sub_verb)
        ++ (format_args cmd.args
            ++ ((if is_empty cmd.payload then [] else data_part (encode cmd.payload))
                ++ command_terminator)))

-- `FormatOK`.
unfoldable pub format_ok : Bytes → Bytes
format_ok message =
    if is_empty message
    then text "OK" ++ command_terminator
    else text "OK " ++ (sanitize_message message ++ command_terminator)

-- `FormatErr`.
unfoldable pub format_err : Bytes → Bytes → Bytes
format_err code message =
    text "ERR "
    ++ (sanitize_error_code code ++ (b' ' ∷ (sanitize_message message ++ command_terminator)))

-- `FormatPong` and `FormatEnd`.
unfoldable pub format_pong : Bytes
format_pong = text "PONG" ++ command_terminator

unfoldable pub format_end : Bytes
format_end = text "END" ++ command_terminator

-- The four formatters of a response with data: NAME " -- " LENGTH "\n" BASE64 ";;".
abbrev pub format_payload : Bytes → Bytes → Bytes
format_payload name payload = name ++ (data_part (encode payload) ++ command_terminator)

-- `FormatJSON`.
unfoldable pub format_json : Bytes → Bytes
format_json payload = format_payload (text "JSON") payload

-- `FormatData`.
unfoldable pub format_data : Bytes → Bytes
format_data payload = format_payload (text "DATA") payload

-- `FormatChunk`.
unfoldable pub format_chunk : Bytes → Bytes
format_chunk payload = format_payload (text "CHUNK") payload

-- `FormatStatus`.
unfoldable pub format_status : Bytes → Bytes
format_status payload = format_payload (text "STATUS") payload

-- The methods of `Writer` return what they hand to the connection: `ok` with one frame, or an
-- error and no write.
abbrev send : Bytes → Result Error Bytes
send frame = validate_frame_size frame >>= λ _. ok frame

-- `WriteOK`, `WriteErr`, `WritePong` and `WriteEnd`.
unfoldable pub write_ok : Bytes → Result Error Bytes
unfolding format_ok validate_frame_size
write_ok message = send (format_ok message)

unfoldable pub write_err : Bytes → Bytes → Result Error Bytes
unfolding format_err validate_frame_size
write_err code message = send (format_err code message)

unfoldable pub write_pong : Result Error Bytes
unfolding format_pong validate_frame_size
write_pong = send format_pong

unfoldable pub write_end : Result Error Bytes
unfolding format_end validate_frame_size
write_end = send format_end

-- `WriteJSON`, `WriteData`, `WriteChunk` and `WriteStatus`.
unfoldable pub write_json : Bytes → Result Error Bytes
unfolding format_json validate_frame_size
write_json payload = send (format_json payload)

unfoldable pub write_data : Bytes → Result Error Bytes
unfolding format_data validate_frame_size
write_data payload = send (format_data payload)

unfoldable pub write_chunk : Bytes → Result Error Bytes
unfolding format_chunk validate_frame_size
write_chunk payload = send (format_chunk payload)

unfoldable pub write_status : Bytes → Result Error Bytes
unfolding format_status validate_frame_size
write_status payload = send (format_status payload)

-- `WriteCommandWithSubVerb`.
unfoldable pub write_command_with_sub_verb : Bytes → Bytes → List Bytes → Bytes → Result Error Bytes
unfolding validate_command validate_frame_size format_command
write_command_with_sub_verb verb sub_verb args payload = do
  let cmd : Command = record { verb = verb; sub_verb = sub_verb; args = args; payload = payload }
  validate_command cmd
  send (format_command cmd)

-- `WriteCommand`.
unfoldable pub write_command : Bytes → List Bytes → Bytes → Result Error Bytes
unfolding validate_command validate_frame_size format_command
write_command verb args payload = do
  let cmd : Command = record { verb = verb; sub_verb = []; args = args; payload = payload }
  validate_command cmd
  send (format_command cmd)
