-- ===== src/Text/Decimal.antt =====
-- `strconv.Itoa` of numbers that are not negative, and `strconv.Atoi` at 64 bits.
use go_cli_server.Prelude.{
  ℕ, zero, suc, ◌+◌, ◌-◌, ◌*◌, ◌/◌, ◌%◌, ◌^◌, ◌<◌, ◌≤◌, ap, Bool, true, false, ◌&&◌, Option, none,
  some, [], ◌∷◌, ◌++◌, ◌≡◌, ◌≢◌, refl, arith, ltb, leb, ◌==◌, if◌then◌else◌, ℤ, pos, negsuc,
  append_assoc, append-nil, Bool-cases, inl, inr,
}
use go_cli_server.Text.Defs.{Bytes, is_space, trim_space}
use go_cli_server.Text.Blank.{All, All-append, trim_end-kept, trim_space-kept}

abbrev pub is_digit : ℕ → Bool
is_digit c = leb b'0' c && leb c b'9'

-- The digits of `n`, on fuel above `n`.
digits : ℕ → ℕ → Bytes
digits zero n = []
digits (suc f) n =
    let more = digits f (n / 10) ++ (48 + n % 10) ∷ [] in if ltb n 10 then (48 + n) ∷ [] else more

-- `strconv.Itoa`.
unfoldable pub decimal : ℕ → Bytes
unfolding digits
decimal n = digits (suc n) n

parse_from : ℕ → Bytes → Option ℕ
parse_from acc [] = some acc
parse_from acc (c ∷ s) =
    let rest = parse_from (acc * 10 + (c - 48)) s in if is_digit c then rest else none

parse_digits : Bytes → Option ℕ
parse_digits [] = none
parse_digits (c ∷ s) = parse_from 0 (c ∷ s)

-- The range of `int`; `neg` says that a minus sign was read.
in_range : Bool → Option ℕ → Option ℤ
in_range neg none = none
in_range false (some n) = if ltb n (2 ^ 63) then some (pos n) else none
in_range true (some zero) = some (pos 0)
in_range true (some (suc n)) = if ltb n (2 ^ 63) then some (negsuc n) else none

-- `strconv.Atoi`: an optional sign, then digits only; `none` is its error.
unfoldable pub atoi : Bytes → Option ℤ
unfolding parse_digits in_range parse_from
atoi [] = none
atoi (c ∷ s) =
    if c == b'-'
    then in_range true (parse_digits s)
    else if c == b'+'
    then in_range false (parse_digits s)
    else in_range false (parse_digits (c ∷ s))

abbrev pub Digits : Bytes → Type 0
Digits = All (λ c. is_digit c ≡ true)

parse_from-digits :
    (f n : ℕ) (rest : Bytes) → n < f → parse_from 0 (digits f n ++ rest) ≡ parse_from n rest
unfolding digits parse_from
parse_from-digits zero n rest h = absurd (omega arith)
parse_from-digits (suc f) n rest h = ground (
  arith,
  parse_from-digits f (n / 10) ((48 + n % 10) ∷ rest),
  append_assoc (digits f (n / 10)) ((48 + n % 10) ∷ []) rest,
)

digits-Digits : (f n : ℕ) → Digits (digits f n)
unfolding digits
digits-Digits zero n = tt
digits-Digits (suc f) n = elim (Bool-cases (ltb n 10)) [
  | inl small ↦ rw small (ground arith, tt)
  | inr large ↦ rw large (
      All-append (λ c. is_digit c ≡ true) (digits f (n / 10)) ((48 + n % 10) ∷ [])
        (digits-Digits f (n / 10)) (ground arith, tt))
]

digits-ne_nil : (f n : ℕ) → n < f → digits f n ≢ []
unfolding digits
digits-ne_nil zero n h = absurd (omega arith)
digits-ne_nil (suc f) n h = ground (arith, append-ne (digits f (n / 10)) (48 + n % 10))
  where
    append-ne : (a : Bytes) (c : ℕ) → a ++ c ∷ [] ≢ []
    append-ne [] c = λ e. cc
    append-ne (d ∷ a) c = λ e. cc

pub decimal-Digits : (n : ℕ) → Digits (decimal n)
unfolding decimal
decimal-Digits n = digits-Digits (suc n) n

pub decimal-ne_nil : (n : ℕ) → decimal n ≢ []
unfolding decimal
decimal-ne_nil n = digits-ne_nil (suc n) n (omega arith)

atoi_of_Digits :
    (s : Bytes) (n : ℕ)
    → Digits s
    → s ≢ []
    → parse_from 0 s ≡ some n
    → n < 2 ^ 63
    → atoi s ≡ some (pos n)
unfolding atoi
atoi_of_Digits [] n d ne e h = absurd (ne refl)
atoi_of_Digits (c ∷ s) n d ne e h = ground arith

parse_from-decimal : (n : ℕ) → parse_from 0 (decimal n) ≡ some n
unfolding decimal parse_from
parse_from-decimal n =
    rw (← append-nil (digits (suc n) n)) (parse_from-digits (suc n) n [] (omega arith))

-- A number that is printed and read again is the same.
pub atoi-decimal : (n : ℕ) → n < 2 ^ 63 → atoi (decimal n) ≡ some (pos n)
atoi-decimal n h =
    atoi_of_Digits (decimal n) n (decimal-Digits n) (decimal-ne_nil n) (parse_from-decimal n) h

digits_fuel : (f g n : ℕ) → n < f → n < g → digits f n ≡ digits g n
unfolding digits
digits_fuel zero g n h k = absurd (omega arith)
digits_fuel (suc f) zero n h k = absurd (omega arith)
digits_fuel (suc f) (suc g) n h k = elim (Bool-cases (ltb n 10)) [
  | inl small ↦ rw small refl
  | inr large ↦
      let up : 10 ≤ n = ground arith in
      rw large
        (ap (λ s. s ++ (48 + n % 10) ∷ []) (digits_fuel f g (n / 10) (omega arith) (omega arith)))
]

pub decimal-small : (n : ℕ) → n < 10 → decimal n ≡ (48 + n) ∷ []
unfolding decimal digits
decimal-small n h = ground arith

pub decimal-step : (n : ℕ) → 10 ≤ n → decimal n ≡ decimal (n / 10) ++ (48 + n % 10) ∷ []
unfolding decimal digits
decimal-step n h =
    let large : ltb n 10 ≡ false = ground arith in
    rw large (
      ap (λ s. s ++ (48 + n % 10) ∷ [])
        (digits_fuel n (suc (n / 10)) (n / 10) (omega arith) (omega arith)))

-- A number below 0 that is printed with its sign and read again is the same.
pub atoi-minus : (n : ℕ) → n < 2 ^ 63 → atoi (45 ∷ decimal (suc n)) ≡ some (negsuc n)
unfolding atoi in_range
atoi-minus n h =
    let small : ltb n (2 ^ 63) ≡ true = ground arith in
    rw
      (
        parse_digits-nonempty (decimal (suc n)) (decimal-ne_nil (suc n)),
        parse_from-decimal (suc n),
        small,
      )
      refl
  where
    parse_digits-nonempty : (s : Bytes) → s ≢ [] → parse_digits s ≡ parse_from 0 s
    parse_digits-nonempty [] ne = absurd (ne refl)
    parse_digits-nonempty (c ∷ s) ne = unfold parse_digits in refl

digit_not_space : (c : ℕ) → is_digit c ≡ true → is_space c ≡ false
unfolding is_space
digit_not_space c h = ground arith

pub Digits-NoSpace : (s : Bytes) → Digits s → All (λ c. is_space c ≡ false) s
Digits-NoSpace [] h = tt
Digits-NoSpace (c ∷ s) h = (digit_not_space c h.0, Digits-NoSpace s h.1)

pub trim_space-Digits : (s : Bytes) → Digits s → trim_space s ≡ s
unfolding trim_space
trim_space-Digits [] h = refl
trim_space-Digits (c ∷ s) h =
    trim_space-kept c s (digit_not_space c h.0)
      (trim_end-kept is_space (c ∷ s) (Digits-NoSpace (c ∷ s) h))

decimal_107 : decimal 107 ≡ 49 ∷ 48 ∷ 55 ∷ []
unfolding decimal
decimal_107 = refl
