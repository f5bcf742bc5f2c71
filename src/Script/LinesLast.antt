-- ===== src/Script/LinesLast.antt =====
-- The output ring of script/registry.go keeps the last lines.
use native.Mathlib.Decide.{dec_lt}
use native.Mathlib.Nat.{mod-eq_of_lt, mod-eq-sub-mod, mod-lt, mod-add-mod}
use go_cli_server.Prelude.{
  ℕ, zero, suc, ◌+◌, ◌-◌, ◌%◌, ◌≤◌, ◌<◌, ◌≡◌, ◌≢◌, refl, sym, ap, ap₂, ◌∙◌, ◌⊎◌, inl, inr, arith,
  List, [], ◌∷◌, ◌++◌, ltb, ltb→lt, set, get_or, length, length-set, length-append,
  length-replicate, drop, drop_all, last_n, last_n-append, append-nil, append_assoc, Bool-cases,
}
use go_cli_server.Text.{Bytes}
use go_cli_server.Script.Lines.{Lines, new_lines, append_output, collect, output_lines}

get_or-set_self :
    (xs : List Bytes) (i : ℕ) (v : Bytes) → i < length xs → get_or (set xs i v) i [] ≡ v
get_or-set_self [] i v h = absurd (omega arith)
get_or-set_self (x ∷ xs) zero v h = refl
get_or-set_self (x ∷ xs) (suc i) v h = get_or-set_self xs i v (omega arith)

get_or-set_ne :
    (xs : List Bytes) (i j : ℕ) (v : Bytes) → i ≢ j → get_or (set xs i v) j [] ≡ get_or xs j []
get_or-set_ne [] i j v h = refl
get_or-set_ne (x ∷ xs) zero zero v h = absurd (h refl)
get_or-set_ne (x ∷ xs) zero (suc j) v h = refl
get_or-set_ne (x ∷ xs) (suc i) zero v h = refl
get_or-set_ne (x ∷ xs) (suc i) (suc j) v h = get_or-set_ne xs i j v (λ e. h (ap suc e))

module _ (n : ℕ) (pos : 0 < n) where
  -- Slots no further than `n` apart, from a head within the ring, are different.
  wrapped :
      (a t : ℕ)
      → a ≤ n
      → t ≤ n
      → ((a + t < n) × ((a + t) % n ≡ a + t)) ⊎ ((n ≤ a + t) × ((a + t) % n ≡ (a + t - n) % n))
  wrapped a t ha ht = elim (dec_lt (a + t) n) [
    | yes p ↦ inl (p, mod-eq_of_lt p)
    | no p ↦ inr (omega arith, mod-eq-sub-mod (omega arith))
  ]

  slot-ne : (a t k : ℕ) → a < n → t < k → k < n → (a + k) % n ≢ (a + t) % n
  slot-ne a t k ha ht hk e = elim (wrapped a t (omega arith) (omega arith)) [
    | inl (p, q) ↦ elim (wrapped a k (omega arith) (omega arith)) [
      | inl (p', q') ↦ omega arith
      | inr (p', q') ↦ let r = mod-eq_of_lt {n = a + k - n} {m = n} (omega arith) in omega arith
    ]
    | inr (p, q) ↦
        let r = mod-eq_of_lt {n = a + t - n} {m = n} (omega arith) in
        let r' = mod-eq_of_lt {n = a + k - n} {m = n} (omega arith) in
        let q' : (a + k) % n ≡ (a + k - n) % n = mod-eq-sub-mod (omega arith) in omega arith
  ]

  collect_snoc :
      (k at : ℕ) (s : List Bytes)
      → collect n (suc k) at s ≡ collect n k at s ++ get_or s ((at + k) % n) [] ∷ []
  unfolding collect
  collect_snoc zero at s =
      let e : at % n ≡ (at + 0) % n = ap (λ i. i % n) (omega arith) in
      ap (λ i. get_or s i [] ∷ []) e
  collect_snoc (suc k) at s =
      let e : at + 1 + k ≡ at + suc k = omega arith in
      ap (λ l. get_or s (at % n) [] ∷ l)
        (collect_snoc k (at + 1) s ∙ ap (λ i. collect n k (at + 1) s ++ get_or s (i % n) [] ∷ []) e)

  collect-set :
      (k at j : ℕ) (s : List Bytes) (v : Bytes)
      → ((t : ℕ) → t < k → j ≢ (at + t) % n)
      → collect n k at (set s j v) ≡ collect n k at s
  unfolding collect
  collect-set zero at j s v h = refl
  collect-set (suc k) at j s v h =
      let e0 : (at + 0) % n ≡ at % n = ap (λ i. i % n) (omega arith) in
      ap₂ (λ x l. x ∷ l) (get_or-set_ne s j (at % n) v (λ q. h 0 (omega arith) (q ∙ sym e0)))
        (collect-set k (at + 1) j s v (λ t lt q.
          let e : at + 1 + t ≡ at + suc t = omega arith in
          h (suc t) (omega arith) (q ∙ ap (λ i. i % n) e)))

  -- The start only matters modulo the size.
  collect-mod : (k at : ℕ) (s : List Bytes) → collect n k (at % n) s ≡ collect n k at s
  unfolding collect
  collect-mod zero at s = refl
  collect-mod (suc k) at s =
      ap₂ (λ i l. get_or s i [] ∷ l) (mod-eq_of_lt (mod-lt at pos))
        (sym (collect-mod k (at % n + 1) s)
          ∙ ap (λ i. collect n k i s) (mod-add-mod at n 1)
          ∙ collect-mod k (at + 1) s)

  length-collect : (k at : ℕ) (s : List Bytes) → length (collect n k at s) ≡ k
  unfolding collect
  length-collect zero at s = refl
  length-collect (suc k) at s = ap suc (length-collect k (at + 1) s)

  -- The ring is within its bounds.
  pub record IsRing (r : Lines) : Type 0 where
    pub sized : length r.slots ≡ n
    pub head_below : r.head < n
    pub count_le : r.count ≤ n

  pub new_lines-IsRing : IsRing (new_lines n)
  unfolding new_lines
  new_lines-IsRing = record {
    sized = length-replicate n [];
    head_below = pos;
    count_le = omega arith;
  }

  pub append_output-IsRing : (r : Lines) (line : Bytes) → IsRing r → IsRing (append_output n r line)
  unfolding append_output
  append_output-IsRing r line v = elim (Bool-cases (ltb r.count n)) [
    | inl e ↦ rw e (record {
      sized = length-set r.slots ((r.head + r.count) % n) line ∙ v.sized;
      head_below = v.head_below;
      count_le = ltb→lt r.count n e;
    })
    | inr e ↦ rw e (record {
      sized = length-set r.slots ((r.head + r.count) % n) line ∙ v.sized;
      head_below = mod-lt (r.head + 1) pos;
      count_le = v.count_le;
    })
  ]

  -- Without a full ring the line comes behind the others.
  collect-part :
      (k at : ℕ) (s : List Bytes) (line : Bytes)
      → length s ≡ n
      → at < n
      → k < n
      → collect n (suc k) at (set s ((at + k) % n) line) ≡ collect n k at s ++ line ∷ []
  collect-part k at s line sized ha hk =
      let j = (at + k) % n in
      collect_snoc k at (set s j line)
      ∙ ap₂ (λ l x. l ++ x ∷ []) (collect-set k at j s line (λ t lt. slot-ne at t k ha lt hk))
          (get_or-set_self s j line (omega (arith, mod-lt (at + k) pos, sized)))

  -- In a full ring the oldest line makes place.
  collect-full :
      (m at : ℕ) (s : List Bytes) (line : Bytes)
      → n ≡ suc m
      → length s ≡ n
      → at < n
      → collect n n ((at + 1) % n) (set s ((at + n) % n) line)
        ≡ drop 1 (collect n n at s ++ line ∷ [])
  unfolding collect
  collect-full m at s line e sized ha =
      let j = (at + n) % n in
      let home : j ≡ at % n =
        mod-eq-sub-mod {n = at + n} {m = n} (omega arith) ∙ ap (λ i. i % n) (omega arith) in
      let first : at % n ≡ (at + 0) % n = ap (λ i. i % n) (omega arith) in
      let last : (at + 1 + m) % n ≡ j = ap (λ i. i % n) (omega arith) in
      ap (λ k. collect n k ((at + 1) % n) (set s j line)) e
      ∙ collect-mod (suc m) (at + 1) (set s j line)
      ∙ collect_snoc m (at + 1) (set s j line)
      ∙ ap₂ (λ l x. l ++ x ∷ [])
          (collect-set m (at + 1) j s line (λ t lt q.
            let next : (at + suc t) % n ≡ (at + 1 + t) % n = ap (λ i. i % n) (omega arith) in
            slot-ne at 0 (suc t) ha (omega arith) (omega arith) (next ∙ sym q ∙ home ∙ first)))
          (ap (λ i. get_or (set s j line) i []) last
            ∙ get_or-set_self s j line (omega (arith, mod-lt (at + n) pos, sized)))
      ∙ ap (λ k. drop 1 (collect n k at s ++ line ∷ [])) (sym e)

  -- An append to a full ring drops the oldest line.
  pub output_lines-append_output :
      (r : Lines) (line : Bytes)
      → IsRing r
      → output_lines n (append_output n r line) ≡ last_n n (output_lines n r ++ line ∷ [])
  unfolding append_output output_lines
  output_lines-append_output r line v = elim (Bool-cases (ltb r.count n)) [
    | inl e ↦ rw e (
        collect-part r.count r.head r.slots line v.sized v.head_below (ltb→lt r.count n e)
        ∙ ap (λ k. drop k (output_lines n r ++ line ∷ [])) (short (ltb→lt r.count n e)))
    | inr e ↦ rw e (
        let full : r.count ≡ n = ground (arith, v.count_le) in
        rw full (collect-full (n - 1) r.head r.slots line (omega arith) v.sized v.head_below)
        ∙ ap₂ (λ k c. drop k (collect n c r.head r.slots ++ line ∷ [])) (one full) (sym full))
  ]
    where
      size : length (output_lines n r ++ line ∷ []) ≡ r.count + 1
      size =
          length-append (output_lines n r) (line ∷ [])
          ∙ ap (λ k. k + 1) (length-collect r.count r.head r.slots)

      short : r.count < n → 0 ≡ length (output_lines n r ++ line ∷ []) - n
      short h = omega (arith, size)

      one : r.count ≡ n → 1 ≡ length (output_lines n r ++ line ∷ []) - n
      one h = omega (arith, size)

  -- Lines appended in order.
  unfoldable pub append_all : Lines → List Bytes → Lines
  append_all r [] = r
  append_all r (x ∷ xs) = append_all (append_output n r x) xs

  pub output_lines-append_all :
      (xs : List Bytes) (r : Lines) (h : List Bytes)
      → IsRing r
      → output_lines n r ≡ last_n n h
      → output_lines n (append_all r xs) ≡ last_n n (h ++ xs)
  unfolding append_all
  output_lines-append_all [] r h v e = e ∙ ap (λ t. last_n n t) (sym (append-nil h))
  output_lines-append_all (x ∷ xs) r h v e =
      output_lines-append_all xs (append_output n r x) (h ++ x ∷ []) (append_output-IsRing r x v) (
        output_lines-append_output r x v
        ∙ ap (λ t. last_n n (t ++ x ∷ [])) e
        ∙ last_n-append n h (x ∷ []))
      ∙ ap (λ t. last_n n t) (append_assoc h (x ∷ []) xs)

  -- After any number of lines are appended to a new output ring of n > 0 slots, `OutputLines`
  -- returns exactly the last n of them, in order.
  pub output_lines-new :
      (xs : List Bytes) → output_lines n (append_all (new_lines n) xs) ≡ last_n n xs
  unfolding new_lines output_lines
  output_lines-new xs =
      output_lines-append_all xs (new_lines n) [] new_lines-IsRing
        (sym (drop_all (0 - n) [] (omega arith)))
