-- ===== src/Protocol/DataPart.antt =====
-- The data part of a frame: what `FormatCommand` and the formatters of protocol/responses.go write
-- and `parseDataPart` of protocol/parser.go reads.
use go_cli_server.Prelude.{
  ℕ, suc, ◌<◌, ◌^◌, true, false, some, [], ◌∷◌, ◌++◌, ◌≡◌, ◌≢◌, refl, ◌∙◌, arith, ◌==◌, length,
  drop, append_assoc, ok, pos,
}
use go_cli_server.Text.{
  Bytes, All, All-map, NoSpace, is_space, has_prefix, index, newline, trim_right_cr, trim_end-kept,
  trim_end-append, trim_end, take-length-append, carriage_return,
}
use go_cli_server.Text.Decimal.{decimal, decimal-Digits, atoi-decimal, trim_space-Digits, Digits}
use go_cli_server.Base64.{encode}
use go_cli_server.Base64.RoundTrip.{IsByte, IsPlain, encode-IsPlain, encode-ne_nil, decode-encode}
use go_cli_server.Protocol.{spaced_marker}
use go_cli_server.Protocol.Parse.{parse_data_part, split_data, check_data}
use go_cli_server.Protocol.Format.{data_part}
use go_cli_server.Protocol.Framing.{apart}

index-newline :
    (a b : Bytes) → Digits a → index (newline ∷ []) (a ++ (newline ∷ b)) ≡ some (length a)
unfolding index has_prefix
index-newline [] b h = refl
index-newline (c ∷ a) b h = ground (arith, index-newline a b h.1)

-- A digit is no semicolon.
Digits-apart : (a t : Bytes) → Digits a → apart false (a ++ t) ≡ apart false t
unfolding apart
Digits-apart [] t h = refl
Digits-apart (c ∷ a) t h = ground (arith, Digits-apart a t h.1)

pub plain_apart : (a : Bytes) → All IsPlain a → apart false a ≡ true
unfolding apart
plain_apart [] h = refl
plain_apart (c ∷ a) h = ground (arith, plain_apart a h.1)

plain_no_cr : (c : ℕ) → IsPlain c → (c == carriage_return) ≡ false
unfolding is_space
plain_no_cr c h = ground (arith, h.not_space)

trim_right_cr-plain : (s : Bytes) → All IsPlain s → trim_right_cr s ≡ s
unfolding trim_right_cr
trim_right_cr-plain s h =
    trim_end-kept (λ c. c == carriage_return) s
      (All-map IsPlain (λ c. (c == carriage_return) ≡ false) s plain_no_cr h)

pub plain_NoSpace : (s : Bytes) → All IsPlain s → NoSpace s
plain_NoSpace s h = All-map IsPlain (λ c. is_space c ≡ false) s (λ c p. p.not_space) h

length-ne_zero : (s : Bytes) → s ≢ [] → length s ≢ 0
length-ne_zero [] h = absurd (h refl)
length-ne_zero (c ∷ s) h = omega arith

module _ (payload : Bytes) (bytes : All IsByte payload) where
  check_data-encode :
      payload ≢ [] → check_data (some (pos (length (encode payload)))) (encode payload) ≡ ok payload
  unfolding check_data
  check_data-encode ne = ground (
    arith,
    length-ne_zero (encode payload) (encode-ne_nil payload ne),
    decode-encode payload bytes,
  )

  -- The length and the text that were written give the payload.
  pub parse_data_part-encode :
      payload ≢ []
      → length (encode payload) < 2 ^ 63
      → parse_data_part (decimal (length (encode payload)) ++ (newline ∷ encode payload))
        ≡ ok payload
  unfolding parse_data_part split_data
  parse_data_part-encode ne small =
      let n = decimal (length (encode payload)) in
      let digits = decimal-Digits (length (encode payload)) in
      rw (index-newline n (encode payload) digits) (
        rw
          (
            take-length-append n (newline ∷ encode payload),
            trim_space-Digits n digits,
            atoi-decimal (length (encode payload)) small,
          )
          (rw (drop-suc n) (
            rw (trim_right_cr-plain (encode payload) (encode-IsPlain payload bytes))
              (check_data-encode ne))))
    where
      drop-suc :
          (a : Bytes) → drop (suc (length a)) (a ++ (newline ∷ encode payload)) ≡ encode payload
      drop-suc [] = refl
      drop-suc (c ∷ a) = drop-suc a

  -- The data part holds no terminator, and does not end in a semicolon.
  pub apart-data_part : apart false (data_part (encode payload)) ≡ true
  apart-data_part =
      unfold apart in
      (Digits-apart (decimal (length (encode payload))) (newline ∷ encode payload)
          (decimal-Digits (length (encode payload)))
        ∙ plain_apart (encode payload) (encode-IsPlain payload bytes))

  -- It ends in a character of the encoding.
  pub trim_end-data_part :
      (a : Bytes)
      → payload ≢ []
      → trim_end is_space (a ++ data_part (encode payload)) ≡ a ++ data_part (encode payload)
  trim_end-data_part a ne =
      let n = decimal (length (encode payload)) in
      let front = a ++ (spaced_marker ++ (n ++ newline ∷ [])) in
      let joined : front ++ encode payload ≡ a ++ data_part (encode payload) = join_front a n in
      rw (← joined) (
        trim_end-append is_space front (encode payload) (encode-ne_nil payload ne) (
          trim_end-kept is_space (encode payload)
            (plain_NoSpace (encode payload) (encode-IsPlain payload bytes))))
    where
      join_front :
          (a n : Bytes)
          → (a ++ (spaced_marker ++ (n ++ newline ∷ []))) ++ encode payload
            ≡ a ++ (spaced_marker ++ (n ++ (newline ∷ encode payload)))
      join_front a n = simp append_assoc
