-- ===== src/Process/LineWriter/Lines.antt =====
-- The lines that `lineWriter` (process/linewriter.go) delivers, however the output is cut into
-- writes.
use go_cli_server.Prelude.{
  ℕ, ◌<◌, List, [], ◌∷◌, ◌++◌, ◌≡◌, refl, sym, ap, subst, ◌∙◌, arith, ◌==◌, if◌then◌else◌,
  Bool-cases, inl, inr, length, append_assoc, append-nil,
}
use go_cli_server.Text.{Bytes, newline}
use go_cli_server.Process.RingBuffer
use go_cli_server.Process.LineWriter.{LineWriter, max_partial_line, deliver, scan, keep_rest, write}

-- What has been delivered of an output, and the start of a line at its end.
pub record Cut : Type 0 where
  pub lines : List Bytes
  pub open_line : Bytes

-- One byte of output: a newline ends the line.
unfoldable pub feed : Cut → ℕ → Cut
feed k b =
    if b == newline
    then record { lines = k.lines ++ k.open_line ∷ []; open_line = [] }
    else record k { open_line = k.open_line ++ b ∷ [] }

unfoldable pub feed_all : Cut → Bytes → Cut
feed_all k [] = k
feed_all k (b ∷ p) = feed_all (feed k b) p

-- The texts handed to the callback.
unfoldable pub texts : List (Bytes × Bytes) → List Bytes
texts [] = []
texts ((id, line) ∷ calls) = line ∷ texts calls

abbrev pub cut_of : LineWriter → Cut
cut_of lw = record { lines = texts lw.delivered; open_line = lw.partial }

-- No line of the output reaches the bound, the one at its end included.
unfoldable pub ShortLines : Cut → Bytes → Type 0
ShortLines k [] = length k.open_line < max_partial_line
ShortLines k (b ∷ p) = (length k.open_line < max_partial_line) × ShortLines (feed k b) p

pub texts-append : (a b : List (Bytes × Bytes)) → texts (a ++ b) ≡ texts a ++ texts b
unfolding texts
texts-append [] b = refl
texts-append ((id, line) ∷ a) b = ap (λ t. line ∷ t) (texts-append a b)

cut_of-deliver :
    (lw : LineWriter) (line : Bytes)
    → cut_of (record (deliver lw line) { partial = [] })
      ≡ record { lines = texts lw.delivered ++ line ∷ []; open_line = [] }
cut_of-deliver lw line =
    ap {B = Cut} (λ ls. record { lines = ls; open_line = [] }) {y = texts lw.delivered ++ line ∷ []}
      (texts-append lw.delivered ((lw.process_id, line) ∷ []) ∙ unfold texts in refl)

-- The state with the bytes since `start` added to the partial line.
abbrev pub with_segment : LineWriter × Bytes → Cut
with_segment (lw, segment) = record {
  lines = texts lw.delivered;
  open_line = lw.partial ++ segment;
}

pub scan-feed_all :
    (p : Bytes) (lw : LineWriter) (segment : Bytes)
    → with_segment (scan lw segment p) ≡ feed_all (with_segment (lw, segment)) p
unfolding scan feed_all feed
scan-feed_all [] lw segment = refl
scan-feed_all (b ∷ p) lw segment = elim (Bool-cases (b == newline)) [
  | inl e ↦ rw e (
      scan-feed_all p (record (deliver lw (lw.partial ++ segment)) { partial = [] }) []
      ∙ ap (λ k. feed_all k p) (cut_of-deliver lw (lw.partial ++ segment)))
  | inr e ↦ rw e (
      scan-feed_all p lw (segment ++ b ∷ [])
      ∙ ap (λ t. feed_all (record { lines = texts lw.delivered; open_line = t }) p)
          (sym (append_assoc lw.partial segment (b ∷ []))))
]

ShortLines-end :
    (p : Bytes) (k : Cut) → ShortLines k p → length (feed_all k p).open_line < max_partial_line
unfolding ShortLines feed_all
ShortLines-end [] k h = h
ShortLines-end (b ∷ p) k h = ShortLines-end p (feed k b) h.1

-- A rest that keeps the partial line below the bound is kept.
keep_rest-short :
    (r : LineWriter × Bytes)
    → length (with_segment r).open_line < max_partial_line
    → cut_of (keep_rest r) ≡ with_segment r
unfolding keep_rest
keep_rest-short (lw, []) h =
    ap {B = Cut} (λ t. record { lines = texts lw.delivered; open_line = t })
      (sym (append-nil lw.partial))
keep_rest-short (lw, c ∷ rest) h = ground arith

-- With short lines, a write delivers the lines that its bytes complete and no other.
pub cut_of-write :
    (lw : LineWriter) (p : Bytes)
    → ShortLines (cut_of lw) p
    → cut_of (write lw p).0 ≡ feed_all (cut_of lw) p
unfolding write
cut_of-write lw p h =
    let lw' = record lw { buf = (RingBuffer.write lw.buf p).0 } in
    let scanned : with_segment (scan lw' [] p) ≡ feed_all (cut_of lw) p =
      scan-feed_all p lw' []
      ∙ ap (λ t. feed_all (record { lines = texts lw.delivered; open_line = t }) p)
          (append-nil lw.partial) in
    keep_rest-short (scan lw' [] p) (
      subst (λ k. length k.open_line < max_partial_line) (sym scanned)
        (ShortLines-end p (cut_of lw) h))
    ∙ scanned

unfoldable pub write_all : LineWriter → List Bytes → LineWriter
write_all lw [] = lw
write_all lw (p ∷ ps) = write_all (write lw p).0 ps

unfoldable pub joined : List Bytes → Bytes
joined [] = []
joined (p ∷ ps) = p ++ joined ps

feed_all-append : (p q : Bytes) (k : Cut) → feed_all k (p ++ q) ≡ feed_all (feed_all k p) q
unfolding feed_all
feed_all-append [] q k = refl
feed_all-append (b ∷ p) q k = feed_all-append p q (feed k b)

ShortLines-left : (p q : Bytes) (k : Cut) → ShortLines k (p ++ q) → ShortLines k p
unfolding ShortLines
ShortLines-left [] [] k h = h
ShortLines-left [] (b ∷ q) k h = h.0
ShortLines-left (b ∷ p) q k h = (h.0, ShortLines-left p q (feed k b) h.1)

ShortLines-right : (p q : Bytes) (k : Cut) → ShortLines k (p ++ q) → ShortLines (feed_all k p) q
unfolding ShortLines feed_all
ShortLines-right [] q k h = h
ShortLines-right (b ∷ p) q k h = ShortLines-right p q (feed k b) h.1

-- However the output is cut into writes, while no line of it reaches the bound, the callback has
-- been given exactly its complete lines, in order, and the partial line is the rest.
pub cut_of-write_all :
    (ps : List Bytes) (lw : LineWriter)
    → ShortLines (cut_of lw) (joined ps)
    → cut_of (write_all lw ps) ≡ feed_all (cut_of lw) (joined ps)
unfolding write_all joined
cut_of-write_all [] lw h = unfold feed_all in refl
cut_of-write_all (p ∷ ps) lw h =
    let first = cut_of-write lw p (ShortLines-left p (joined ps) (cut_of lw) h) in
    cut_of-write_all ps (write lw p).0 (
      subst (λ k. ShortLines k (joined ps)) (sym first)
        (ShortLines-right p (joined ps) (cut_of lw) h))
    ∙ ap (λ k. feed_all k (joined ps)) first
    ∙ sym (feed_all-append p (joined ps) (cut_of lw))
