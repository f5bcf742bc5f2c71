-- ===== src/Process/LineWriter/Lossless.antt =====
-- What `lineWriter` (process/linewriter.go) keeps of the output, with lines of any length.
use go_cli_server.Prelude.{
  ℕ, ◌≤◌, ◌<◌, true, List, [], ◌∷◌, ◌++◌, ◌≡◌, refl, sym, ap, ◌∙◌, arith, leb, ◌==◌, if◌then◌else◌,
  Bool-cases, inl, inr, length, append_assoc, append-nil,
}
use go_cli_server.Text.{Bytes, newline, is_empty}
use go_cli_server.Process.RingBuffer
use go_cli_server.Process.LineWriter.{
  LineWriter, max_partial_line, deliver, scan, bound_partial, keep_rest, write, flush,
}
use go_cli_server.Process.LineWriter.Lines.{
  Cut, feed, feed_all, texts, texts-append, cut_of, with_segment, scan-feed_all, joined,
}

-- The bytes of an output that are no newlines.
unfoldable pub without_newlines : Bytes → Bytes
without_newlines [] = []
without_newlines (b ∷ p) = let rest = without_newlines p in if b == newline then rest else b ∷ rest

-- All that a cut holds, in order.
abbrev pub held : Cut → Bytes
held k = joined k.lines ++ k.open_line

joined-concat : (ls : List Bytes) (l : Bytes) → joined (ls ++ l ∷ []) ≡ joined ls ++ l
unfolding joined
joined-concat [] l = append-nil l
joined-concat (x ∷ ls) l = rw (joined-concat ls l) (sym (append_assoc x (joined ls) l))

held-feed : (k : Cut) (b : ℕ) → held (feed k b) ≡ held k ++ without_newlines (b ∷ [])
unfolding feed without_newlines
held-feed k b = elim (Bool-cases (b == newline)) [
  | inl e ↦ rw e (ap (λ t. t ++ []) (joined-concat k.lines k.open_line))
  | inr e ↦ rw e (sym (append_assoc (joined k.lines) k.open_line (b ∷ [])))
]

without_newlines-cons :
    (b : ℕ) (p : Bytes) → without_newlines (b ∷ []) ++ without_newlines p ≡ without_newlines (b ∷ p)
unfolding without_newlines
without_newlines-cons b p = elim (Bool-cases (b == newline)) [ inl e ↦ rw e | inr e ↦ rw e ]

held-feed_all : (p : Bytes) (k : Cut) → held (feed_all k p) ≡ held k ++ without_newlines p
unfolding feed_all
held-feed_all [] k = unfold without_newlines in sym (append-nil (held k))
held-feed_all (b ∷ p) k =
    held-feed_all p (feed k b)
    ∙ ap (λ t. t ++ without_newlines p) (held-feed k b)
    ∙ append_assoc (held k) (without_newlines (b ∷ [])) (without_newlines p)
    ∙ ap (λ t. held k ++ t) (without_newlines-cons b p)

held-deliver :
    (lw : LineWriter)
    → held (cut_of (record (deliver lw lw.partial) { partial = [] })) ≡ held (cut_of lw)
held-deliver lw =
    append-nil (joined (texts (lw.delivered ++ (lw.process_id, lw.partial) ∷ [])))
    ∙ ap joined (texts-append lw.delivered ((lw.process_id, lw.partial) ∷ []) ∙ one_more)
    ∙ joined-concat (texts lw.delivered) lw.partial
  where
    one_more :
        texts lw.delivered ++ texts ((lw.process_id, lw.partial) ∷ [])
        ≡ texts lw.delivered ++ lw.partial ∷ []
    one_more = unfold texts in refl

held-bound_partial : (lw : LineWriter) → held (cut_of (bound_partial lw)) ≡ held (cut_of lw)
unfolding bound_partial
held-bound_partial lw = elim (Bool-cases (leb max_partial_line (length lw.partial))) [
  | inl e ↦ rw e (held-deliver lw)
  | inr e ↦ rw e
]

held-keep_rest : (r : LineWriter × Bytes) → held (cut_of (keep_rest r)) ≡ held (with_segment r)
unfolding keep_rest
held-keep_rest (lw, []) = ap (λ t. joined (texts lw.delivered) ++ t) (sym (append-nil lw.partial))
held-keep_rest (lw, c ∷ rest) =
    held-bound_partial (record lw { partial = lw.partial ++ (c ∷ rest) })

-- A write loses no byte but the newlines: the delivered lines and the partial line, joined, grow by
-- exactly the other bytes written, in order.
pub held-write :
    (lw : LineWriter) (p : Bytes)
    → held (cut_of (write lw p).0) ≡ held (cut_of lw) ++ without_newlines p
unfolding write
held-write lw p =
    let lw' = record lw { buf = (RingBuffer.write lw.buf p).0 } in
    held-keep_rest (scan lw' [] p)
    ∙ ap held (scan-feed_all p lw' [])
    ∙ held-feed_all p (with_segment (lw', []))
    ∙ ap (λ t. (joined (texts lw.delivered) ++ t) ++ without_newlines p) (append-nil lw.partial)

partial-bound_partial : (lw : LineWriter) → length (bound_partial lw).partial < max_partial_line
unfolding bound_partial
partial-bound_partial lw = ground arith

partial-scan :
    (p segment : Bytes) (lw : LineWriter) → length (scan lw segment p).0.partial ≤ length lw.partial
unfolding scan
partial-scan [] segment lw = omega arith
partial-scan (b ∷ p) segment lw = elim (Bool-cases (b == newline)) [
  | inl e ↦ rw e (
      omega
        (arith, partial-scan p [] (record (deliver lw (lw.partial ++ segment)) { partial = [] })))
  | inr e ↦ rw e (partial-scan p (segment ++ b ∷ []) lw)
]

partial-keep_rest :
    (r : LineWriter × Bytes)
    → length r.0.partial < max_partial_line
    → length (keep_rest r).partial < max_partial_line
unfolding keep_rest
partial-keep_rest (lw, []) h = h
partial-keep_rest (lw, c ∷ rest) h =
    partial-bound_partial (record lw { partial = lw.partial ++ (c ∷ rest) })

-- The partial line stays below the bound, whatever is written to a writer whose partial line is
-- below it.
pub partial-write :
    (lw : LineWriter) (p : Bytes)
    → length lw.partial < max_partial_line
    → length (write lw p).0.partial < max_partial_line
unfolding write
partial-write lw p h =
    let lw' = record lw { buf = (RingBuffer.write lw.buf p).0 } in
    partial-keep_rest (scan lw' [] p) (omega (arith, h, partial-scan p [] lw'))

-- `flush` delivers what is left, and loses nothing.
pub held-flush :
    (lw : LineWriter) → (held (cut_of (flush lw)) ≡ held (cut_of lw)) × ((flush lw).partial ≡ [])
unfolding flush
held-flush lw = elim (Bool-cases (is_empty lw.partial)) [
  | inl e ↦ rw e (refl, empty lw.partial e)
  | inr e ↦ rw e (held-deliver lw, refl)
]
  where
    empty : (s : Bytes) → is_empty s ≡ true → s ≡ []
    empty [] q = refl
    empty (c ∷ s) q = cc
