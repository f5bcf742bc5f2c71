-- ===== src/Protocol/Sanitize.antt =====
-- `sanitizeMessage` and `sanitizeErrorCode` of protocol/responses.go.
use go_cli_server.Prelude.{
  ℕ, zero, suc, ◌-◌, Bool, ◌&&◌, ◌||◌, [], ◌∷◌, ◌++◌, leb, ◌==◌, if◌then◌else◌, length,
}
use go_cli_server.Text.{Bytes, has_prefix, contains, is_empty, newline, carriage_return, space}
use go_cli_server.Protocol.{command_terminator, spaced_marker, text}

-- `strings.ReplaceAll s old new` for an `old` that is not empty: scans from the left, and goes on
-- behind each match. `skip` counts the bytes of the last match that are still to be passed.
unfoldable pub replace_from : ℕ → Bytes → Bytes → Bytes → Bytes
unfolding has_prefix
replace_from skip old new [] = []
replace_from (suc skip) old new (c ∷ s) = replace_from skip old new s
replace_from zero old new (c ∷ s) =
    let hit = new ++ replace_from (length old - 1) old new s in
    let miss = c ∷ replace_from 0 old new s in if has_prefix old (c ∷ s) then hit else miss

unfoldable pub replace_all : Bytes → Bytes → Bytes → Bytes
unfolding replace_from
replace_all old new s = replace_from 0 old new s

-- `for strings.Contains(s, old) { s = strings.ReplaceAll(s, old, new) }`, on fuel.
unfoldable pub replace_loop : ℕ → Bytes → Bytes → Bytes → Bytes
unfolding replace_all contains
replace_loop zero old new s = s
replace_loop (suc fuel) old new s =
    let again = replace_loop fuel old new (replace_all old new s) in
    if contains old s then again else s

abbrev pub broken_terminator : Bytes
broken_terminator = b';' ∷ b' ' ∷ b';' ∷ []

abbrev pub broken_marker : Bytes
broken_marker = b' ' ∷ b'-' ∷ b' ' ∷ b'-' ∷ b' ' ∷ []

-- Both calls of `ReplaceAll` for one byte.
unfoldable pub blank_lines : Bytes → Bytes
unfolding replace_all
blank_lines s =
    replace_all (newline ∷ []) (space ∷ []) (replace_all (carriage_return ∷ []) (space ∷ []) s)

-- `sanitizeMessage`. Each round of a loop breaks a pair of adjacent bytes of `s`, so that the
-- length of `s` is enough fuel.
unfoldable pub sanitize_message : Bytes → Bytes
unfolding replace_loop blank_lines
sanitize_message s =
    let t = replace_loop (length s) command_terminator broken_terminator s in
    blank_lines (replace_loop (length t) spaced_marker broken_marker t)

unfoldable pub is_code_byte : ℕ → Bool
is_code_byte c =
    (leb b'a' c && leb c b'z')
    || (leb b'A' c && leb c b'Z')
    || (leb b'0' c && leb c b'9')
    || c == b'_'
    || c == b'-'

unfoldable pub keep_code_bytes : Bytes → Bytes
unfolding is_code_byte
keep_code_bytes [] = []
keep_code_bytes (c ∷ s) = let rest = keep_code_bytes s in if is_code_byte c then c ∷ rest else rest

-- `sanitizeErrorCode`; `ErrInternal` is "internal".
unfoldable pub sanitize_error_code : Bytes → Bytes
unfolding keep_code_bytes
sanitize_error_code s =
    let kept = keep_code_bytes s in if is_empty kept then text "internal" else kept
