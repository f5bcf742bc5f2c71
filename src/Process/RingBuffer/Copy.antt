-- ===== src/Process/RingBuffer/Copy.antt =====
-- One write into the buffer of process/ringbuf.go, read round the write position.
use go_cli_server.Prelude.{
  ℕ, zero, suc, ◌+◌, ◌-◌, ◌≤◌, [], ◌∷◌, ◌++◌, ◌≡◌, refl, sym, ap, ap₂, ◌∙◌, arith, length, take,
  drop, length-append, length-take, length-drop, append_assoc, append-nil, take-append-drop,
  drop-append_le, drop-append_ge, drop_all,
}
use go_cli_server.Text.{Bytes, take-length-append, drop-length-append}
use go_cli_server.Process.RingBuffer.{copy_at}

copy_at-front : (a b : Bytes) → length a ≤ length b → copy_at 0 a b ≡ a ++ drop (length a) b
unfolding copy_at
copy_at-front [] b h = refl
copy_at-front (x ∷ a) [] h = absurd (omega arith)
copy_at-front (x ∷ a) (y ∷ b) h = ap (λ t. x ∷ t) (copy_at-front a b (omega arith))

-- A copy behind `a` leaves `a`, and what lies behind the copied bytes.
pub copy_at-append :
    (a p b : Bytes)
    → length p ≤ length b
    → copy_at (length a) p (a ++ b) ≡ a ++ (p ++ drop (length p) b)
unfolding copy_at
copy_at-append [] p b h = copy_at-front p b h
copy_at-append (x ∷ a) p b h = ap (λ t. x ∷ t) (copy_at-append a p b h)

pub length-copy_at : (at : ℕ) (p b : Bytes) → length (copy_at at p b) ≡ length b
unfolding copy_at
length-copy_at zero [] b = refl
length-copy_at zero (x ∷ p) [] = refl
length-copy_at zero (x ∷ p) (y ∷ b) = ap suc (length-copy_at zero p b)
length-copy_at (suc at) p [] = refl
length-copy_at (suc at) p (y ∷ b) = ap suc (length-copy_at at p b)

-- The bytes from a position on, round the end of the buffer.
abbrev pub turned : ℕ → Bytes → Bytes
turned at b = drop at b ++ take at b

turned-append : (a b : Bytes) → turned (length a) (a ++ b) ≡ b ++ a
turned-append a b = ap₂ (λ x y. x ++ y) (drop-length-append a b) (take-length-append a b)

-- Where the buffer is `a ++ b` and the position is behind `a`: a write that fits, and one that
-- goes round.
module _ (a b p : Bytes) where
  pub fit_buffer :
      length p ≤ length b → copy_at (length a) p (a ++ b) ≡ (a ++ p) ++ drop (length p) b
  fit_buffer h = copy_at-append a p b h ∙ sym (append_assoc a p (drop (length p) b))

  pub turned_fit :
      length p ≤ length b
      → turned (length a + length p) (copy_at (length a) p (a ++ b)) ≡ drop (length p) (b ++ a) ++ p
  turned_fit h =
      ap₂ turned (sym (length-append a p)) (fit_buffer h)
      ∙ turned-append (a ++ p) (drop (length p) b)
      ∙ sym (append_assoc (drop (length p) b) a p)
      ∙ ap (λ t. t ++ p) (sym (drop-append_le (length p) b a h))

  unfoldable pub wrapped_buffer : Bytes
  wrapped_buffer = copy_at 0 (drop (length b) p) (copy_at (length a) (take (length b) p) (a ++ b))

  module _ (wraps : length b ≤ length p) (within : length p ≤ length a + length b) where
    wrapped_buffer-parts :
        wrapped_buffer ≡ drop (length b) p ++ (drop (length p - length b) a ++ take (length b) p)
    unfolding wrapped_buffer
    wrapped_buffer-parts =
        let first = take (length b) p in
        let second = drop (length b) p in
        let inner : copy_at (length a) first (a ++ b) ≡ a ++ first =
          copy_at-append a first b (omega (arith, length-take (length b) p))
          ∙ ap (λ t. a ++ (first ++ t))
              (drop_all (length first) b (omega (arith, length-take (length b) p)))
          ∙ ap (λ t. a ++ t) (append-nil first) in
        ap (copy_at 0 second) inner
        ∙ copy_at-front second (a ++ first)
            (omega (arith, length-drop (length b) p, length-append a first))
        ∙ ap (λ t. second ++ t)
            (drop-append_le (length second) a first (omega (arith, length-drop (length b) p))
              ∙ ap (λ k. drop k a ++ first) (length-drop (length b) p))

    pub turned_wrapped : turned (length p - length b) wrapped_buffer ≡ drop (length p) (b ++ a) ++ p
    turned_wrapped =
        let second = drop (length b) p in
        let old = drop (length p - length b) a in
        ap₂ turned (sym (length-drop (length b) p)) wrapped_buffer-parts
        ∙ turned-append second (old ++ take (length b) p)
        ∙ append_assoc old (take (length b) p) second
        ∙ ap₂ (λ x y. x ++ y) (sym (drop-append_ge (length p) b a wraps))
            (take-append-drop (length b) p)
