-- ===== src/Process/RingBuffer/Position.antt =====
-- Where a write of process/ringbuf.go puts its bytes, and what the buffer holds behind it.
use native.Mathlib.Decide.{dec_le, dec_lt}
use native.Mathlib.Nat.{mod-eq_of_lt, mod-eq-sub-mod}
use go_cli_server.Prelude.{
  ℕ, ◌+◌, ◌-◌, ◌%◌, ◌≤◌, ◌<◌, ◌++◌, ◌≡◌, sym, ap, ap₂, ◌∙◌, inl, inr, arith, leb, if◌then◌else◌,
  Bool-cases, length, take, drop, length-append, append-nil, drop_all, take_all,
}
use go_cli_server.Text.{Bytes, take-length-append}
use go_cli_server.Process.RingBuffer.{copy_at}
use go_cli_server.Process.RingBuffer.Copy.{
  length-copy_at, turned, fit_buffer, turned_fit, wrapped_buffer, turned_wrapped,
}

-- The new buffer of a write of `p` at position `at`.
abbrev pub written : ℕ → ℕ → Bytes → Bytes → Bytes
written cap at p b =
    if leb (length p) (cap - at)
    then copy_at at p b
    else copy_at 0 (drop (cap - at) p) (copy_at at (take (cap - at) p) b)

turned_zero : (b : Bytes) → turned 0 b ≡ turned (length b) b
turned_zero b =
    append-nil b
    ∙ ap₂ (λ x y. x ++ y) (sym (drop_all (length b) b (omega arith)))
        (sym (take_all (length b) b (omega arith)))

next_inside : (at k cap : ℕ) → at + k < cap → (at + k) % cap ≡ at + k
next_inside at k cap h = mod-eq_of_lt h

next_end : (at k cap : ℕ) → at + k ≡ cap → 0 < cap → (at + k) % cap ≡ 0
next_end at k cap h q =
    mod-eq-sub-mod {n = at + k} {m = cap} (omega arith)
    ∙ mod-eq_of_lt {n = at + k - cap} {m = cap} (omega arith)
    ∙ omega arith

next_round : (at k cap : ℕ) → at < cap → k ≤ cap → cap ≤ at + k → (at + k) % cap ≡ at + k - cap
next_round at k cap h q r =
    mod-eq-sub-mod {n = at + k} {m = cap} (omega arith)
    ∙ mod-eq_of_lt {n = at + k - cap} {m = cap} (omega arith)

-- The write at a position, where the buffer is cut there in two.
module _ (a b p : Bytes) (cap : ℕ) (whole : length a + length b ≡ cap) (room : 0 < length b)
    (fits : length p ≤ cap) where
  pub length-written : length (written cap (length a) p (a ++ b)) ≡ cap
  length-written = elim (Bool-cases (leb (length p) (cap - length a))) [
    | inl e ↦ rw e (omega (arith, length-copy_at (length a) p (a ++ b), length-append a b))
    | inr e ↦ rw e (
        omega (
          arith,
          length-copy_at 0 (drop (cap - length a) p)
              (copy_at (length a) (take (cap - length a) p) (a ++ b)),
          length-copy_at (length a) (take (cap - length a) p) (a ++ b),
          length-append a b,
        ))
  ]

  written_fit :
      length p ≤ length b → written cap (length a) p (a ++ b) ≡ copy_at (length a) p (a ++ b)
  written_fit h = ground arith

  written_round : length b < length p → written cap (length a) p (a ++ b) ≡ wrapped_buffer a b p
  written_round h =
      let e : cap - length a ≡ length b = omega arith in
      rw e (unfold wrapped_buffer in ground arith)

  -- Read round the new position, the buffer has lost as many old bytes as came in.
  pub turned-written :
      turned ((length a + length p) % cap) (written cap (length a) p (a ++ b))
      ≡ drop (length p) (b ++ a) ++ p
  turned-written = elim (dec_le (length p) (length b)) [
    | yes h ↦
        ap (turned ((length a + length p) % cap)) (written_fit h) ∙ position h ∙ turned_fit a b p h
    | no h ↦
        ap₂ turned
          (next_round (length a) (length p) cap (omega arith) fits (omega arith) ∙ omega arith)
          (written_round (omega arith))
        ∙ turned_wrapped a b p (omega arith) (omega arith)
  ]
    where
      position :
          length p ≤ length b
          → turned ((length a + length p) % cap) (copy_at (length a) p (a ++ b))
            ≡ turned (length a + length p) (copy_at (length a) p (a ++ b))
      position h = elim (dec_lt (length a + length p) cap) [
        | yes inside ↦
            ap (λ n. turned n (copy_at (length a) p (a ++ b)))
              (next_inside (length a) (length p) cap inside)
        | no at_end ↦
            ap (λ n. turned n (copy_at (length a) p (a ++ b)))
              (next_end (length a) (length p) cap (omega arith) (omega arith))
            ∙ turned_zero (copy_at (length a) p (a ++ b))
            ∙ ap (λ n. turned n (copy_at (length a) p (a ++ b)))
                (omega (arith, length-copy_at (length a) p (a ++ b), length-append a b))
      ]

  -- While there is room, the new bytes stand behind the old ones.
  pub take-written :
      length a + length p < cap
      → take (length a + length p) (written cap (length a) p (a ++ b)) ≡ a ++ p
  take-written h =
      ap₂ take (sym (length-append a p))
        (written_fit (omega arith) ∙ fit_buffer a b p (omega arith))
      ∙ take-length-append (a ++ p) (drop (length p) b)
