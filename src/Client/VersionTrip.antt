-- ===== src/Client/VersionTrip.antt =====
-- A version that client/version.go prints is the version it reads.
use go_cli_server.Prelude.{
  ℕ, false, ◌≡◌, ◌≢◌, refl, sym, ap, ◌∙◌, arith, ◌<◌, ◌^◌, [], ◌∷◌, ◌++◌, ok, pos, append_assoc,
  append-nil, ◌==◌,
}
use go_cli_server.Text.{Bytes, All, split, split_from}
use go_cli_server.Text.Decimal.{decimal, atoi-decimal, decimal-Digits, decimal-ne_nil, Digits}
use go_cli_server.Client.Version.{
  Version, VersionError, bad_major, bad_minor, bad_patch, number, parse_version, parse_parts,
  format_version, format_int, before_suffix, trim_prefix,
}

-- Up to its separator, a piece is read as one piece.
split_from-piece :
    (sep : ℕ) (w s t : Bytes)
    → All (λ c. (c == sep) ≡ false) s
    → split_from sep w (s ++ sep ∷ t) ≡ (w ++ s) ∷ split_from sep [] t
unfolding split_from
split_from-piece sep w [] t h = ground (arith, append-nil w)
split_from-piece sep w (c ∷ s) t h =
    ground (arith, h.0, split_from-piece sep (w ++ c ∷ []) s t h.1, append_assoc w (c ∷ []) s)

split_from_last :
    (sep : ℕ) (w s : Bytes) → All (λ c. (c == sep) ≡ false) s → split_from sep w s ≡ (w ++ s) ∷ []
unfolding split_from
split_from_last sep w [] h = ap (λ x. x ∷ []) (sym (append-nil w))
split_from_last sep w (c ∷ s) h =
    ground (arith, h.0, split_from_last sep (w ++ c ∷ []) s h.1, append_assoc w (c ∷ []) s)

not_dot : (s : Bytes) → Digits s → All (λ c. (c == b'.') ≡ false) s
not_dot [] h = tt
not_dot (c ∷ s) h = (ground (arith, h.0), not_dot s h.1)

before_suffix-Digits : (s : Bytes) → Digits s → before_suffix s ≡ s
unfolding before_suffix
before_suffix-Digits [] h = refl
before_suffix-Digits (c ∷ s) h = ground (arith, h.0, before_suffix-Digits s h.1)

number-decimal : (n : ℕ) (e : VersionError) → n < 2 ^ 63 → number (decimal n) e ≡ ok (pos n)
number-decimal n e h = rw (number, atoi-decimal n h) refl

no_capital : (s t : Bytes) → Digits s → s ≢ [] → trim_prefix b'V' (s ++ t) ≡ s ++ t
unfolding trim_prefix
no_capital [] t h ne = absurd (ne refl)
no_capital (c ∷ s) t h ne = ground (arith, h.0)

split-version :
    (a b c : ℕ)
    → split b'.' (decimal a ++ b'.' ∷ (decimal b ++ b'.' ∷ decimal c))
      ≡ decimal a ∷ decimal b ∷ decimal c ∷ []
unfolding split
split-version a b c =
    split_from-piece b'.' [] (decimal a) (decimal b ++ b'.' ∷ decimal c)
      (not_dot _ (decimal-Digits a))
    ∙ ap (λ t. decimal a ∷ t)
        (split_from-piece b'.' [] (decimal b) (decimal c) (not_dot _ (decimal-Digits b)))
    ∙ ap (λ t. decimal a ∷ decimal b ∷ t)
        (split_from_last b'.' [] (decimal c) (not_dot _ (decimal-Digits c)))

parse_parts-decimal :
    (v : Bytes) (a b c : ℕ)
    → a < 2 ^ 63
    → b < 2 ^ 63
    → c < 2 ^ 63
    → parse_parts v (decimal a ∷ decimal b ∷ decimal c ∷ [])
      ≡ ok (record { major = pos a; minor = pos b; patch = pos c })
unfolding parse_parts
parse_parts-decimal v a b c ha hb hc =
    rw
      (
        before_suffix-Digits (decimal c) (decimal-Digits c),
        number-decimal a (bad_major (decimal a)) ha,
        number-decimal b (bad_minor (decimal b)) hb,
        number-decimal c (bad_patch (decimal c)) hc,
      )
      refl

parse_version-printed :
    (a b c : ℕ)
    → a < 2 ^ 63
    → b < 2 ^ 63
    → c < 2 ^ 63
    → let v : Version = record { major = pos a; minor = pos b; patch = pos c } in
      parse_version (format_version v) ≡ ok v
unfolding parse_version format_version format_int trim_prefix
parse_version-printed a b c ha hb hc =
    let tail = b'.' ∷ (decimal b ++ b'.' ∷ decimal c) in
    ap (λ w. parse_parts w (split b'.' w))
      (no_capital (decimal a) tail (decimal-Digits a) (decimal-ne_nil a))
    ∙ ap (λ ps. parse_parts (decimal a ++ tail) ps) (split-version a b c)
    ∙ parse_parts-decimal (decimal a ++ tail) a b c ha hb hc

-- A version of three numbers that are not negative and below 2^63 is read back by `ParseVersion` as
-- `FormatVersion` printed it.
pub parse_version-format_version :
    (a b c : ℕ) {v : Version}
    → a < 2 ^ 63
    → b < 2 ^ 63
    → c < 2 ^ 63
    → v ≡ record { major = pos a; minor = pos b; patch = pos c }
    → parse_version (format_version v) ≡ ok v
parse_version-format_version a b c ha hb hc e =
    ap (λ v. parse_version (format_version v)) e
    ∙ parse_version-printed a b c ha hb hc
    ∙ ap ok (sym e)
