-- ===== src/Process/Itoa.antt =====
-- `itoa` of process/process.go against the decimal numbers.
use go_cli_server.Prelude.{
  ℕ, zero, suc, ◌+◌, ◌/◌, ◌%◌, ◌^◌, ◌<◌, ◌≤◌, true, false, some, [], ◌∷◌, ◌++◌, ◌≡◌, refl, sym, ap,
  ◌∙◌, arith, ltb, ◌==◌, ℤ, pos, negsuc, append-nil, append_assoc, Bool-cases, inl, inr,
}
use go_cli_server.Text.{Bytes}
use go_cli_server.Text.Decimal.{
  decimal, decimal-small, decimal-step, atoi, atoi-decimal, atoi-minus,
}
use go_cli_server.Process.Managed.{fill_digits, put_sign, used_part, itoa}

fill_digits-step :
    (at n : ℕ) (used : Bytes)
    → 0 < n
    → fill_digits (suc at) n used ≡ fill_digits at (n / 10) ((48 + n % 10) ∷ used)
unfolding fill_digits
fill_digits-step at n used p = let e : (n == 0) ≡ false = ground arith in rw e refl

-- The digits of a number stand before what was there, and room is left for a sign.
fill_digits_lem :
    (at n : ℕ) (used : Bytes)
    → 0 < n
    → n < 10 ^ at
    → (rest : ℕ) × (fill_digits (suc at) n used ≡ some (suc rest, decimal n ++ used))
fill_digits_lem zero n used p h = absurd (omega arith)
fill_digits_lem (suc at) n used p h = elim (Bool-cases (ltb n 10)) [
  | inl small ↦
      let few : n < 10 = ground arith in
      let z : n / 10 ≡ 0 = omega arith in
      let m : n % 10 ≡ n = omega arith in
      (
        at,
        fill_digits-step (suc at) n used p
            ∙ rw (z, m, decimal-small n few) (unfold fill_digits in refl),
      )
  | inr large ↦
      let many : 10 ≤ n = ground arith in
      let rest = fill_digits_lem at (n / 10) ((48 + n % 10) ∷ used) (omega arith) (omega arith) in
      (
        rest.0,
        fill_digits-step (suc at) n used p
            ∙ rest.1
            ∙ ap (λ s. some (suc rest.0, s))
                (rw (decimal-step n many)
                  (sym (append_assoc (decimal (n / 10)) ((48 + n % 10) ∷ []) used))),
      )
]

-- Above the least `int` of 64 bits, and no larger than the greatest.
abbrev pub InRange : ℤ → Type 0
InRange (pos n) = n < 2 ^ 63
InRange (negsuc n) = suc n < 2 ^ 63

itoa-zero : itoa (pos 0) ≡ some (48 ∷ [])
unfolding itoa
itoa-zero = refl

itoa-pos : (n : ℕ) → itoa (pos (suc n)) ≡ used_part (fill_digits 20 (suc n) [])
unfolding itoa
itoa-pos n = let many : (suc n == 0) ≡ false = ground arith in rw many refl

itoa-negsuc : (n : ℕ) → suc n < 2 ^ 63 → itoa (negsuc n) ≡ put_sign (fill_digits 20 (suc n) [])
unfolding itoa
itoa-negsuc n h = let small : ltb (suc n) (2 ^ 63) ≡ true = ground arith in rw small refl

-- For an `int` of 64 bits other than the least one, `itoa` does not run over its array, and `Atoi`
-- reads its text back as that number.
pub atoi-itoa : (z : ℤ) → InRange z → (s : Bytes) × (itoa z ≡ some s) × (atoi s ≡ some z)
atoi-itoa (pos zero) h =
    let zero_text : decimal 0 ≡ 48 ∷ [] = decimal-small 0 (omega arith) in
    (48 ∷ [], itoa-zero, rw (← zero_text) (atoi-decimal 0 (omega arith)))
atoi-itoa (pos (suc n)) h =
    let filled = fill_digits_lem 19 (suc n) [] (omega arith) (omega arith) in
    (
      decimal (suc n),
      itoa-pos n ∙ ap used_part filled.1 ∙ ap some (append-nil (decimal (suc n))),
      atoi-decimal (suc n) h,
    )
atoi-itoa (negsuc n) h =
    let filled = fill_digits_lem 19 (suc n) [] (omega arith) (omega arith) in
    (
      45 ∷ decimal (suc n),
      itoa-negsuc n h
          ∙ ap put_sign filled.1
          ∙ ap (λ s. some (45 ∷ s)) (append-nil (decimal (suc n))),
      atoi-minus n (omega arith),
    )
