-- ===== src/Protocol/Framing.antt =====
-- What `readUntilTerminator` of protocol/parser.go takes from the stream.
use go_cli_server.Prelude.{
  ℕ, suc, ◌+◌, ◌-◌, ◌≤◌, Bool, true, false, not, ◌&&◌, [], ◌∷◌, ◌++◌, ◌≡◌, refl, sym, ap, ap₂, ◌∙◌,
  inl, inr, arith, Bool-cases, ltb, ◌==◌, length, take, drop, length-append, append_assoc,
  append-nil, Result, ok, err,
}
use go_cli_server.Text.{Bytes, same, has_suffix, take-length-append, has_suffix-split}
use go_cli_server.Protocol.{
  ReadError, Error, read_error, command_terminator, max_frame_size, is_partial_frame,
}
use go_cli_server.Protocol.Reader.{Stream, read_loop, read_until_terminator}

-- The last byte is a semicolon.
unfoldable pub ends_semi : Bytes → Bool
ends_semi [] = false
ends_semi (c ∷ []) = c == 59
ends_semi (c ∷ d ∷ s) = ends_semi (d ∷ s)

-- No two semicolons stand side by side, the byte before the text (`prev`: it is one) included.
unfoldable pub no_pair : Bool → Bytes → Bool
no_pair prev [] = true
no_pair prev (c ∷ s) = not (prev && c == 59) && no_pair (c == 59) s

-- The same, and the text does not end in a semicolon.
unfoldable pub apart : Bool → Bytes → Bool
apart prev [] = not prev
apart prev (c ∷ s) = not (prev && c == 59) && apart (c == 59) s

-- A text that a terminator can follow.
abbrev pub IsFrameable : Bytes → Type 0
IsFrameable s = apart false s ≡ true

pub ends_semi-concat : (s : Bytes) (b : ℕ) → ends_semi (s ++ b ∷ []) ≡ (b == 59)
unfolding ends_semi
ends_semi-concat [] b = refl
ends_semi-concat (c ∷ []) b = refl
ends_semi-concat (c ∷ d ∷ s) b = ends_semi-concat (d ∷ s) b

drop-suc-sub :
    (c : ℕ) (s : Bytes) (n : ℕ)
    → n ≤ length s
    → drop (suc (length s) - n) (c ∷ s) ≡ drop (length s - n) s
drop-suc-sub c s n h =
    let e : suc (length s) - n ≡ suc (length s - n) = omega arith in ap (λ k. drop k (c ∷ s)) e

has_suffix-cons :
    (p s : Bytes) (c : ℕ) → length p ≤ length s → has_suffix p (c ∷ s) ≡ has_suffix p s
unfolding has_suffix
has_suffix-cons p s c h = ground (arith, drop-suc-sub c s (length p))

-- The test of the loop: the byte before and the new one are semicolons.
pub has_suffix_pair :
    (s : Bytes) (b : ℕ) → has_suffix command_terminator (s ++ b ∷ []) ≡ (ends_semi s && b == 59)
has_suffix_pair [] b = unfold has_suffix ends_semi in refl
has_suffix_pair (c ∷ []) b = unfold has_suffix ends_semi same in ground arith
has_suffix_pair (c ∷ d ∷ s) b =
    has_suffix-cons command_terminator (d ∷ (s ++ b ∷ [])) c
      (omega (arith, length-append s (b ∷ [])))
    ∙ has_suffix_pair (d ∷ s) b
    ∙ unfold ends_semi in refl

take_before :
    (s : Bytes) (b c : ℕ)
    → take (length ((s ++ b ∷ []) ++ c ∷ []) - 2) ((s ++ b ∷ []) ++ c ∷ []) ≡ s
take_before s b c =
    ap₂ (λ n t. take n t)
      (omega (arith, length-append (s ++ b ∷ []) (c ∷ []), length-append s (b ∷ [])))
      (append_assoc s (b ∷ []) (c ∷ []))
    ∙ take-length-append s (b ∷ c ∷ [])

module _ (rest : Bytes) (e : ReadError) where
  -- At the terminator: two semicolons, when the buffer does not end in one.
  read_loop_end :
      (buf : Bytes)
      → ends_semi buf ≡ false
      → length buf + 2 ≤ max_frame_size
      → read_loop command_terminator buf (59 ∷ 59 ∷ rest) e
        ≡ (ok buf, record { pending = rest; ending = e })
  unfolding read_loop
  read_loop_end buf h n = ground (
    arith,
    has_suffix_pair buf 59,
    has_suffix_pair (buf ++ 59 ∷ []) 59,
    ends_semi-concat buf 59,
    take_before buf 59 59,
    length-append buf (59 ∷ []),
    length-append (buf ++ 59 ∷ []) (59 ∷ []),
  )

  read_loop_step :
      (buf s : Bytes) (c : ℕ)
      → (ends_semi buf && c == 59) ≡ false
      → length buf + 1 ≤ max_frame_size
      → read_loop command_terminator buf (c ∷ s) e
        ≡ read_loop command_terminator (buf ++ c ∷ []) s e
  unfolding read_loop
  read_loop_step buf s c h n = ground (arith, has_suffix_pair buf c, length-append buf (c ∷ []))

  read_loop-frame :
      (content buf : Bytes)
      → apart (ends_semi buf) content ≡ true
      → length buf + length content + 2 ≤ max_frame_size
      → read_loop command_terminator buf (content ++ (command_terminator ++ rest)) e
        ≡ (ok (buf ++ content), record { pending = rest; ending = e })
  read_loop-frame [] buf a n =
      read_loop_end buf (unfold apart in ground arith) (omega arith) ∙ rw append-nil refl
  read_loop-frame (c ∷ s) buf a n =
      read_loop_step buf (s ++ (command_terminator ++ rest)) c (unfold apart in ground arith)
        (omega arith)
      ∙ read_loop-frame s (buf ++ c ∷ [])
          (rw (ends_semi-concat buf c) (unfold apart in ground arith))
          (omega (arith, length-append buf (c ∷ [])))
      ∙ rw append_assoc refl

  -- The reader returns the text in front of the first terminator, and leaves what follows it.
  pub read_until_terminator-frame :
      (content : Bytes)
      → IsFrameable content
      → length content + 2 ≤ max_frame_size
      → read_until_terminator command_terminator
          (record { pending = content ++ (command_terminator ++ rest); ending = e })
        ≡ (ok content, record { pending = rest; ending = e })
  unfolding read_until_terminator
  read_until_terminator-frame content a n =
      read_loop-frame content [] (unfold ends_semi in a) (omega arith)

-- A frame that is returned stood in front of the terminator, within the bound; nothing else of
-- the stream is lost.
pub record Framed (all content : Bytes) (e : ReadError) (left : Stream) : Type 0 where
  pub splits : all ≡ content ++ (command_terminator ++ left.pending)
  pub bounded : length content + 2 ≤ max_frame_size
  pub same_ending : left.ending ≡ e

-- The outcome of the loop on a buffer and the bytes behind it.
abbrev pub ReadOutcome : Bytes → ReadError → Result Error Bytes × Stream → Type 0
ReadOutcome all e (ok content, left) = Framed all content e left
ReadOutcome all e (err x, left) = (is_partial_frame x ≡ false) → (all ≡ []) × (x ≡ read_error e)

outcome_end :
    (buf : Bytes) (e : ReadError)
    → ReadOutcome (buf ++ []) e (read_loop command_terminator buf [] e)
unfolding read_loop is_partial_frame
outcome_end [] e h = (refl, refl)
outcome_end (c ∷ buf) e h = cc

outcome_stop :
    (buf s : Bytes) (b : ℕ) (e : ReadError)
    → ltb max_frame_size (length (buf ++ b ∷ [])) ≡ false
    → has_suffix command_terminator (buf ++ b ∷ []) ≡ true
    → Framed
        (buf ++ (b ∷ s))
        (take (length (buf ++ b ∷ []) - 2) (buf ++ b ∷ []))
        e
        (record { pending = s; ending = e })
outcome_stop buf s b e n h =
    let split = has_suffix-split command_terminator (buf ++ b ∷ []) h in
    record {
      splits =
          sym (append_assoc buf (b ∷ []) s)
          ∙ ap (λ t. t ++ s) split
          ∙ append_assoc (take (length (buf ++ b ∷ []) - 2) (buf ++ b ∷ [])) command_terminator s;
      bounded = omega (
        arith,
        ap (λ t. length t) split,
        length-append (take (length (buf ++ b ∷ []) - 2) (buf ++ b ∷ [])) command_terminator,
        ltb-false (length (buf ++ b ∷ [])) n,
      );
      same_ending = refl;
    }
  where
    ltb-false : (k : ℕ) → ltb max_frame_size k ≡ false → k ≤ max_frame_size
    ltb-false k q = ground arith

read_loop-outcome :
    (s buf : Bytes) (e : ReadError)
    → ReadOutcome (buf ++ s) e (read_loop command_terminator buf s e)
unfolding read_loop is_partial_frame
read_loop-outcome [] buf e = outcome_end buf e
read_loop-outcome (b ∷ s) buf e = elim (Bool-cases (ltb max_frame_size (length (buf ++ b ∷ [])))) [
  | inl large ↦ rw large (λ h. cc)
  | inr small ↦ elim (Bool-cases (has_suffix command_terminator (buf ++ b ∷ []))) [
    | inl hit ↦ rw (small, hit) (outcome_stop buf s b e small hit)
    | inr miss ↦
        rw (small, miss)
          (rw (append_assoc buf (b ∷ []) s) at (read_loop-outcome s (buf ++ b ∷ []) e))
  ]
]

-- Whatever the stream holds: a frame that is returned was in front of a terminator at the start of
-- the stream, within the size bound, and exactly what follows that terminator is left; and an error
-- that is not a `PartialFrameError` is the stream's own and comes from a stream with no byte left.
pub read_until_terminator-outcome :
    (s : Stream) → ReadOutcome s.pending s.ending (read_until_terminator command_terminator s)
unfolding read_until_terminator
read_until_terminator-outcome s = read_loop-outcome s.pending [] s.ending
