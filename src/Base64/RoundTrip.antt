-- ===== src/Base64/RoundTrip.antt =====
-- Decoding what was encoded, and the characters that an encoding holds.
use go_cli_server.Prelude.{
  ℕ, ◌+◌, ◌*◌, ◌/◌, ◌%◌, ◌<◌, false, some, [], ◌∷◌, ◌≡◌, ◌≢◌, refl, ap, ◌∙◌, arith, ◌==◌,
}
use go_cli_server.Text.{Bytes, All, is_space}
use go_cli_server.Base64.{padding, symbol, value, encode, skip_lines, decode_groups, decode}

abbrev pub IsByte : ℕ → Type 0
IsByte c = c < 256

value-symbol : (i : ℕ) → i < 64 → value (symbol i) ≡ some i
unfolding value symbol
value-symbol i h = ground arith

symbol-ne-padding : (i : ℕ) → i < 64 → (symbol i == padding) ≡ false
unfolding symbol
symbol-ne-padding i h = ground arith

decode_groups-encode : (s : Bytes) → All IsByte s → decode_groups (encode s) ≡ some s
unfolding decode_groups encode
decode_groups-encode [] h = refl
decode_groups-encode (a ∷ []) h = ground (arith, value-symbol (a / 4), value-symbol (a % 4 * 16))
decode_groups-encode (a ∷ b ∷ []) h = ground (
  arith,
  value-symbol (a / 4),
  value-symbol (a % 4 * 16 + b / 16),
  value-symbol (b % 16 * 4),
  symbol-ne-padding (b % 16 * 4),
)
decode_groups-encode (a ∷ b ∷ c ∷ s) h = ground (
  arith,
  value-symbol (a / 4),
  value-symbol (a % 4 * 16 + b / 16),
  value-symbol (b % 16 * 4 + c / 64),
  value-symbol (c % 64),
  symbol-ne-padding (c % 64),
  decode_groups-encode s h.1.1.1,
)

-- What a character of an encoding is not: white space, a semicolon or a hyphen.
pub record IsPlain (c : ℕ) : Type 0 where
  pub not_space : is_space c ≡ false
  pub not_semicolon : (c == 59) ≡ false

symbol-IsPlain : (i : ℕ) → i < 64 → IsPlain (symbol i)
unfolding symbol is_space
symbol-IsPlain i h = ground arith

padding-IsPlain : IsPlain padding
unfolding is_space
padding-IsPlain = record { not_space = refl; not_semicolon = refl }

pub encode-IsPlain : (s : Bytes) → All IsByte s → All IsPlain (encode s)
unfolding encode
encode-IsPlain [] h = tt
encode-IsPlain (a ∷ []) h = (
  symbol-IsPlain _ (omega arith),
  (symbol-IsPlain _ (omega arith), (padding-IsPlain, (padding-IsPlain, tt))),
)
encode-IsPlain (a ∷ b ∷ []) h = (
  symbol-IsPlain _ (omega arith),
  (symbol-IsPlain _ (omega arith), (symbol-IsPlain _ (omega arith), (padding-IsPlain, tt))),
)
encode-IsPlain (a ∷ b ∷ c ∷ s) h = (
  symbol-IsPlain _ (omega arith),
  (
    symbol-IsPlain _ (omega arith),
    (symbol-IsPlain _ (omega arith), (symbol-IsPlain _ (omega arith), encode-IsPlain s h.1.1.1)),
  ),
)

skip_lines-IsPlain : (s : Bytes) → All IsPlain s → skip_lines s ≡ s
unfolding skip_lines is_space
skip_lines-IsPlain [] h = refl
skip_lines-IsPlain (c ∷ s) h = ground (arith, skip_lines-IsPlain s h.1)

-- Every list of bytes is read back from its encoding.
pub decode-encode : (s : Bytes) → All IsByte s → decode (encode s) ≡ some s
unfolding decode
decode-encode s h =
    ap decode_groups (skip_lines-IsPlain (encode s) (encode-IsPlain s h)) ∙ decode_groups-encode s h

pub encode-ne_nil : (s : Bytes) → s ≢ [] → encode s ≢ []
unfolding encode
encode-ne_nil [] h = absurd (h refl)
encode-ne_nil (a ∷ []) h = λ e. cc
encode-ne_nil (a ∷ b ∷ []) h = λ e. cc
encode-ne_nil (a ∷ b ∷ c ∷ s) h = λ e. cc

encode_abc : encode (b'M' ∷ b'a' ∷ []) ≡ b'T' ∷ b'W' ∷ b'E' ∷ padding ∷ []
unfolding encode symbol
encode_abc = refl
