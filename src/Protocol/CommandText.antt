-- ===== src/Protocol/CommandText.antt =====
-- The text of a command: words joined by spaces, in front of nothing or of a data part. It is
-- trimmed, split and framed as `ParseCommand` of protocol/parser.go does it.
use go_cli_server.Prelude.{
  ℕ, ◌+◌, Bool, true, false, none, some, List, [], ◌∷◌, ◌++◌, ◌≡◌, ◌≢◌, refl, sym, ap, ap₂, ◌∙◌,
  inl, inr, arith, Bool-cases, ◌==◌, length, take, drop, length-append, append_assoc, append-nil,
}
use go_cli_server.Text.{
  Bytes, space, is_space, has_prefix, has_suffix, has_suffix-split, index, index-middle, fields,
  fields_from, fields_from-word, fields_from_last, cons_word-of-ne_nil, trim_end, trim_end-append,
  trim_end-kept, trim_space, trim_space-kept, take-length-append, drop-length-append,
}
use go_cli_server.Protocol.{data_marker, spaced_marker}
use go_cli_server.Protocol.Format.{format_args}
use go_cli_server.Protocol.Parse.{split_command, build_command}
use go_cli_server.Protocol.Registry.{VerbRegistry}
use go_cli_server.Protocol.Framing.{no_pair, apart, ends_semi}
use go_cli_server.Protocol.Words.{
  IsWord, IsWords, StartsBlank, offset, index-word, index-format_args,
}

fields_from-words :
    (w : Bytes) (ws : List Bytes)
    → IsWord w
    → IsWords ws
    → fields_from [] (w ++ format_args ws) ≡ w ∷ ws
fields_from-words w [] h hs =
    rw append-nil (fields_from_last [] w h.no_space ∙ cons_word-of-ne_nil w [] h.ne_nil)
fields_from-words w (v ∷ vs) h hs =
    fields_from-word [] w (v ++ format_args vs) h.no_space
    ∙ cons_word-of-ne_nil w (fields_from [] (v ++ format_args vs)) h.ne_nil
    ∙ ap (λ t. w ∷ t) (fields_from-words v vs hs.0 hs.1)

trim_end-words :
    (w : Bytes) (ws : List Bytes)
    → IsWord w
    → IsWords ws
    → trim_end is_space (w ++ format_args ws) ≡ w ++ format_args ws
trim_end-words w [] h hs = rw append-nil (trim_end-kept is_space w h.no_space)
trim_end-words w (v ∷ vs) h hs = rw (← append_assoc w (space ∷ []) (v ++ format_args vs)) (
    trim_end-append is_space (w ++ space ∷ []) (v ++ format_args vs)
      (word-ne_nil v (format_args vs) hs.0.ne_nil) (trim_end-words v vs hs.0 hs.1))
  where
    word-ne_nil : (a b : Bytes) → a ≢ [] → a ++ b ≢ []
    word-ne_nil [] b q = absurd (q refl)
    word-ne_nil (c ∷ a) b q = λ e. cc

apart-space :
    (prev : Bool) (w t : Bytes)
    → no_pair prev w ≡ true
    → apart prev (w ++ (space ∷ t)) ≡ apart false t
unfolding apart no_pair
apart-space prev [] t h = ground arith
apart-space prev (c ∷ w) t h = ground (arith, apart-space (c == 59) w t)

apart_last :
    (prev : Bool) (w : Bytes)
    → no_pair prev w ≡ true
    → w ≢ []
    → ends_semi w ≡ false
    → apart prev w ≡ true
unfolding apart no_pair ends_semi
apart_last prev [] h ne e = absurd (ne refl)
apart_last prev (c ∷ []) h ne e = ground arith
apart_last prev (c ∷ d ∷ w) h ne e = ground (arith, apart_last (c == 59) (d ∷ w), cons-ne_nil d w)
  where
    cons-ne_nil : (x : ℕ) (s : Bytes) → x ∷ s ≢ []
    cons-ne_nil x s = λ q. cc

ends_semi-space : (w t : Bytes) → ends_semi (w ++ (space ∷ t)) ≡ ends_semi (space ∷ t)
unfolding ends_semi
ends_semi-space [] t = refl
ends_semi-space (c ∷ []) t = refl
ends_semi-space (c ∷ d ∷ w) t = ends_semi-space (d ∷ w) t

ends_semi-cons : (c : ℕ) (s : Bytes) → s ≢ [] → ends_semi (c ∷ s) ≡ ends_semi s
unfolding ends_semi
ends_semi-cons c [] h = absurd (h refl)
ends_semi-cons c (d ∷ s) h = refl

-- Words that do not end in a semicolon can be followed by the terminator.
pub apart-words :
    (w : Bytes) (ws : List Bytes)
    → IsWord w
    → IsWords ws
    → ends_semi (w ++ format_args ws) ≡ false
    → apart false (w ++ format_args ws) ≡ true
apart-words w [] h hs e =
    rw append-nil (apart_last false w h.no_terminator h.ne_nil (rw append-nil at e))
apart-words w (v ∷ vs) h hs e =
    apart-space false w (v ++ format_args vs) h.no_terminator
    ∙ apart-words v vs hs.0 hs.1 (
        sym
          (ends_semi-cons space (v ++ format_args vs) (word-ne_nil v (format_args vs) hs.0.ne_nil))
        ∙ sym (ends_semi-space w (v ++ format_args vs))
        ∙ e)
  where
    word-ne_nil : (a b : Bytes) → a ≢ [] → a ++ b ≢ []
    word-ne_nil [] b q = absurd (q refl)
    word-ne_nil (c ∷ a) b q = λ p. cc

-- Before a space the last word may end in anything.
pub apart-words_space :
    (w : Bytes) (ws : List Bytes) (t : Bytes)
    → IsWord w
    → IsWords ws
    → apart false (w ++ (format_args ws ++ (space ∷ t))) ≡ apart false t
apart-words_space w [] t h hs = apart-space false w t h.no_terminator
apart-words_space w (v ∷ vs) t h hs = rw (append_assoc v (format_args vs) (space ∷ t)) (
    apart-space false w (v ++ (format_args vs ++ (space ∷ t))) h.no_terminator
    ∙ apart-words_space v vs t hs.0 hs.1)

pub trim_space-words :
    (w : Bytes) (ws : List Bytes) (r : Bytes)
    → IsWord w
    → trim_end is_space (w ++ (format_args ws ++ r)) ≡ w ++ (format_args ws ++ r)
    → trim_space (w ++ (format_args ws ++ r)) ≡ w ++ (format_args ws ++ r)
trim_space-words [] ws r h e = absurd (h.ne_nil refl)
trim_space-words (c ∷ w) ws r h e = trim_space-kept c (w ++ (format_args ws ++ r)) h.no_space.0 e

pub trim_space-words_only :
    (w : Bytes) (ws : List Bytes)
    → IsWord w
    → IsWords ws
    → trim_space (w ++ (format_args ws ++ [])) ≡ w ++ (format_args ws ++ [])
trim_space-words_only w ws h hs =
    trim_space-words w ws [] h (rw (append-nil (format_args ws)) (trim_end-words w ws h hs))

module _ (w : Bytes) (ws : List Bytes) (h : IsWord w) (hs : IsWords ws) where
  index-words :
      (r : Bytes)
      → StartsBlank r
      → index spaced_marker (w ++ (format_args ws ++ r))
        ≡ offset (length w) (offset (length (format_args ws)) (index spaced_marker r))
  index-words r b =
      index-word w (format_args ws ++ r) h.no_space
      ∙ ap (offset (length w)) (index-format_args ws r hs b)

  -- With no data part there is no marker.
  pub index-words_only : index spaced_marker (w ++ (format_args ws ++ [])) ≡ none
  unfolding index
  index-words_only = index-words [] tt

  no_marker_end : has_suffix (space ∷ data_marker) (w ++ (format_args ws ++ [])) ≢ true
  no_marker_end e =
      let content = w ++ (format_args ws ++ []) in
      let front = take _ content in
      let split = has_suffix-split (space ∷ data_marker) content e in
      index-middle spaced_marker front [] (λ q. cc)
        (ap (λ t. index spaced_marker t)
            (sym (
              ap (λ t. t ++ space ∷ []) split
              ∙ append_assoc front (space ∷ data_marker) (space ∷ [])))
          ∙ ap (λ t. index spaced_marker t) regroup
          ∙ index-words (space ∷ []) refl
          ∙ unfold index has_prefix in refl)
    where
      regroup : (w ++ (format_args ws ++ [])) ++ space ∷ [] ≡ w ++ (format_args ws ++ space ∷ [])
      regroup = simp (append_assoc, append-nil)

  -- The text of a command with no data part is split into its words.
  pub split_command-words :
      (vr : VerbRegistry)
      → split_command vr none (w ++ (format_args ws ++ [])) ≡ build_command vr (w ∷ ws) []
  unfolding split_command fields
  split_command-words vr =
      elim (Bool-cases (has_suffix (space ∷ data_marker) (w ++ (format_args ws ++ [])))) [
        | inl e ↦ absurd (no_marker_end e)
        | inr e ↦ rw e (
            rw (append-nil (format_args ws))
              (ap (λ t. build_command vr t []) (fields_from-words w ws h hs)))
      ]

  -- With a data part the marker is found, and both sides of it.
  pub split_command-data :
      (vr : VerbRegistry) (d : Bytes)
      → split_command vr
          (index spaced_marker (w ++ (format_args ws ++ (spaced_marker ++ d))))
          (w ++ (format_args ws ++ (spaced_marker ++ d)))
        ≡ build_command vr (w ∷ ws) d
  unfolding split_command fields
  split_command-data vr d = rw found (
      rw (regroup, cut_front)
        (rw cut_back (ap (λ t. build_command vr t d) (fields_from-words w ws h hs))))
    where
      front : Bytes
      front = w ++ format_args ws

      regroup :
          w ++ (format_args ws ++ (spaced_marker ++ d))
          ≡ (w ++ format_args ws) ++ (spaced_marker ++ d)
      regroup = simp append_assoc

      total : length w + (length (format_args ws) + 0) ≡ length (w ++ format_args ws)
      total = omega (arith, length-append w (format_args ws))

      found :
          index spaced_marker (w ++ (format_args ws ++ (spaced_marker ++ d)))
          ≡ some (length (w ++ format_args ws))
      found =
          index-words (spaced_marker ++ d) refl
          ∙ unfold index has_prefix in ap (λ (n : ℕ). some n) total

      cut_front :
          take (length (w ++ format_args ws)) ((w ++ format_args ws) ++ (spaced_marker ++ d))
          ≡ w ++ format_args ws
      cut_front = take-length-append (w ++ format_args ws) (spaced_marker ++ d)

      cut_back :
          drop (length (w ++ format_args ws) + 4) ((w ++ format_args ws) ++ (spaced_marker ++ d))
          ≡ d
      cut_back =
          ap₂ (λ n t. drop n t) (omega (arith, length-append (w ++ format_args ws) spaced_marker))
            (sym (append_assoc (w ++ format_args ws) spaced_marker d))
          ∙ drop-length-append ((w ++ format_args ws) ++ spaced_marker) d
