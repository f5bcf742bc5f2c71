-- ===== src/Protocol/Validate.antt =====
-- `ValidateCommand` and `validateFrameSize` of protocol/parser.go. White space is that of ASCII, whereas
-- `unicode.IsSpace` also knows other runes.
use go_cli_server.Prelude.{
  ℕ, Bool, true, false, not, ◌||◌, List, [], ◌∷◌, ltb, ◌==◌, if◌then◌else◌, length, Result, ok, err,
  ◌>>◌, guard,
}
use go_cli_server.Text.{Bytes, same, contains, is_empty, is_space, fields, newline, carriage_return}
use go_cli_server.Protocol.{
  Command, Error, bad_token, too_large_to_send, token_empty, has_terminator, has_newline,
  has_marker, has_whitespace, command_terminator, data_marker, max_frame_size,
}

-- Some byte passes the test (`strings.ContainsAny`, and the loop over the runes).
unfoldable pub any_byte : (ℕ → Bool) → Bytes → Bool
any_byte test [] = false
any_byte test (c ∷ s) = test c || any_byte test s

unfoldable pub any_field : Bytes → List Bytes → Bool
unfolding same
any_field w [] = false
any_field w (f ∷ fs) = same f w || any_field w fs

-- `validateToken`; the flag is `allowSpace`.
unfoldable pub validate_token : Bytes → Bool → Result Error (Unit {0})
unfolding contains any_byte any_field fields is_space
validate_token tok allow_space = do
  guard (not (is_empty tok)) (bad_token token_empty)
  guard (not (contains command_terminator tok)) (bad_token has_terminator)
  guard (not (any_byte (λ c. c == carriage_return || c == newline) tok)) (bad_token has_newline)
  guard (not (any_field data_marker (fields tok))) (bad_token has_marker)
  guard (allow_space || not (any_byte is_space tok)) (bad_token has_whitespace)

unfoldable pub validate_args : List Bytes → Result Error (Unit {0})
unfolding validate_token
validate_args [] = ok tt
validate_args (a ∷ as') = do validate_token a false; validate_args as'

-- `ValidateCommand`.
unfoldable pub validate_command : Command → Result Error (Unit {0})
unfolding validate_token validate_args
validate_command cmd = do
  validate_token cmd.verb true
  if is_empty cmd.sub_verb then ok tt else validate_token cmd.sub_verb true
  validate_args cmd.args

-- `validateFrameSize`.
unfoldable pub validate_frame_size : Bytes → Result Error (Unit {0})
validate_frame_size frame =
    if ltb max_frame_size (length frame) then err too_large_to_send else ok tt
