-- ===== src/Base64.antt =====
-- `base64.StdEncoding` of package encoding/base64, as protocol/parser.go and protocol/responses.go
-- use it.
pub mod RoundTrip
use go_cli_server.Prelude.{
  ℕ, ◌+◌, ◌-◌, ◌*◌, ◌/◌, ◌%◌, Bool, true, false, ◌&&◌, ◌||◌, Option, none, some, List, [], ◌∷◌, ltb,
  leb, ◌==◌, if◌then◌else◌,
}
use go_cli_server.Text.{Bytes, is_empty, newline, carriage_return}

abbrev pub padding : ℕ
padding = 61

-- The character of a value below 64.
unfoldable pub symbol : ℕ → ℕ
symbol i =
    if ltb i 26
    then i + b'A'
    else if ltb i 52
    then i + 71
    else if ltb i 62
    then i - 4
    else if i == 62
    then b'+'
    else b'/'

-- The value of a character of the alphabet.
unfoldable pub value : ℕ → Option ℕ
value c =
    if leb b'A' c && leb c b'Z'
    then some (c - b'A')
    else if leb b'a' c && leb c b'z'
    then some (c - 71)
    else if leb b'0' c && leb c b'9'
    then some (c + 4)
    else if c == b'+'
    then some 62
    else if c == b'/'
    then some 63
    else none

-- `EncodeToString`: three bytes to four characters, the last group padded.
unfoldable pub encode : Bytes → Bytes
encode [] = []
encode (a ∷ []) = symbol (a / 4) ∷ symbol (a % 4 * 16) ∷ padding ∷ padding ∷ []
encode (a ∷ b ∷ []) =
    symbol (a / 4) ∷ symbol (a % 4 * 16 + b / 16) ∷ symbol (b % 16 * 4) ∷ padding ∷ []
encode (a ∷ b ∷ c ∷ s) =
    symbol (a / 4)
    ∷ symbol (a % 4 * 16 + b / 16)
    ∷ symbol (b % 16 * 4 + c / 64)
    ∷ symbol (c % 64)
    ∷ encode s

-- The decoder skips line ends.
unfoldable pub skip_lines : Bytes → Bytes
skip_lines [] = []
skip_lines (c ∷ s) =
    let rest = skip_lines s in if c == newline || c == carriage_return then rest else c ∷ rest

-- The bytes of two, three or four values.
one_byte : Option ℕ → Option ℕ → Option Bytes
one_byte (some a) (some b) = some ((a * 4 + b / 16) ∷ [])
one_byte _ _ = none

two_bytes : Option ℕ → Option ℕ → Option ℕ → Option Bytes
two_bytes (some a) (some b) (some c) = some ((a * 4 + b / 16) ∷ (b % 16 * 16 + c / 4) ∷ [])
two_bytes _ _ _ = none

three_bytes : Option ℕ → Option ℕ → Option ℕ → Option ℕ → Option Bytes → Option Bytes
three_bytes (some a) (some b) (some c) (some d) (some s) =
    some ((a * 4 + b / 16) ∷ (b % 16 * 16 + c / 4) ∷ (c % 4 * 64 + d) ∷ s)
three_bytes _ _ _ _ _ = none

-- Groups of four characters; a padded group is the last.
unfoldable pub decode_groups : Bytes → Option Bytes
unfolding one_byte two_bytes three_bytes
decode_groups [] = some []
decode_groups (a ∷ []) = none
decode_groups (a ∷ b ∷ []) = none
decode_groups (a ∷ b ∷ c ∷ []) = none
decode_groups (a ∷ b ∷ c ∷ d ∷ s) =
    let more = three_bytes (value a) (value b) (value c) (value d) (decode_groups s) in
    if d == padding
    then if is_empty s
      then if c == padding
        then one_byte (value a) (value b)
        else two_bytes (value a) (value b) (value c)
      else none
    else more

-- `DecodeString`; `none` is its error.
unfoldable pub decode : Bytes → Option Bytes
unfolding decode_groups skip_lines
decode s = decode_groups (skip_lines s)
