-- ===== src/Protocol/Words.antt =====
-- What `validateToken` of protocol/parser.go grants: words that can be joined by spaces, found
-- again, and framed.
use go_cli_server.Prelude.{
  ℕ, suc, ◌+◌, Bool, true, false, ◌&&◌, Option, none, some, List, [], ◌∷◌, ◌++◌, ◌≡◌, ◌≢◌, refl,
  sym, ap, subst, ◌∙◌, arith, ◌==◌, length, length-append, append_assoc, ok, err,
}
use go_cli_server.Text.{
  Bytes, All, NoSpace, space, is_space, has_prefix, index, contains, add_index,
}
use go_cli_server.Protocol.{bad_token, has_marker, command_terminator, data_marker, spaced_marker}
use go_cli_server.Protocol.Validate.{any_byte, validate_token}
use go_cli_server.Protocol.Format.{format_args}
use go_cli_server.Protocol.Framing.{no_pair}

pub record IsWord (w : Bytes) : Type 0 where
  pub ne_nil : w ≢ []
  pub no_space : NoSpace w
  pub no_terminator : no_pair false w ≡ true
  pub ne_marker : w ≢ data_marker

pub no_pair-of-index : (s : Bytes) → index command_terminator s ≡ none → no_pair false s ≡ true
unfolding index no_pair has_prefix
no_pair-of-index [] h = refl
no_pair-of-index (c ∷ []) h = ground arith
no_pair-of-index (c ∷ d ∷ s) h = ground (arith, no_pair-of-index (d ∷ s))

All-of-any_byte :
    (test : ℕ → Bool) (s : Bytes) → any_byte test s ≡ false → All (λ c. test c ≡ false) s
unfolding any_byte
All-of-any_byte test [] h = tt
All-of-any_byte test (c ∷ s) h = (ground arith, All-of-any_byte test s (ground arith))

pub contains-index : (p s : Bytes) → contains p s ≡ false → index p s ≡ none
unfolding contains
contains-index p s h = ground arith

marker_result : (b : Bool) → validate_token data_marker b ≡ err (bad_token has_marker)
unfolding validate_token
marker_result true = refl
marker_result false = refl

marker_refused : (b : Bool) → validate_token data_marker b ≢ ok tt
marker_refused b h = cc (marker_result b)

-- A token that passes the checks, and has no white space, is a word.
pub validate_token-IsWord :
    (w : Bytes) (b : Bool) → validate_token w b ≡ ok tt → NoSpace w → IsWord w
validate_token-IsWord w b h n = record {
  ne_nil = λ e. empty_refused b (subst (λ t. validate_token t b ≡ ok tt) e h);
  no_space = n;
  no_terminator =
      no_pair-of-index w
        (contains-index command_terminator w (unfold validate_token in ground arith));
  ne_marker = λ e. marker_refused b (subst (λ t. validate_token t b ≡ ok tt) e h);
}
  where
    empty_refused : (b : Bool) → validate_token [] b ≢ ok tt
    empty_refused b q = unfold validate_token in cc

-- An argument that passes the checks has no white space.
pub validate_token-NoSpace : (w : Bytes) → validate_token w false ≡ ok tt → NoSpace w
validate_token-NoSpace w h = All-of-any_byte is_space w (unfold validate_token in ground arith)

abbrev pub offset : ℕ → Option ℕ → Option ℕ
offset n none = none
offset n (some i) = some (n + i)

offset-zero : (o : Option ℕ) → o ≡ offset 0 o
offset-zero none = refl
offset-zero (some i) = ap (λ (k : ℕ). some k) (omega arith)

offset-add_index : (n : ℕ) (o : Option ℕ) → add_index (offset n o) ≡ offset (suc n) o
offset-add_index n none = refl
offset-add_index n (some i) = ap (λ (k : ℕ). some k) (omega arith)

space_first : (c : ℕ) (s : Bytes) → is_space c ≡ false → has_prefix spaced_marker (c ∷ s) ≡ false
unfolding has_prefix is_space
space_first c s h = ground arith

-- The marker starts with a space, so it does not start inside a word.
pub index-word :
    (w r : Bytes)
    → NoSpace w
    → index spaced_marker (w ++ r) ≡ offset (length w) (index spaced_marker r)
unfolding index
index-word [] r h = offset-zero (index spaced_marker r)
index-word (c ∷ w) r h =
    rw (space_first c (w ++ r) h.0)
      (rw (index-word w r h.1) (offset-add_index (length w) (index spaced_marker r)))

-- What may follow a word: nothing, or a space.
abbrev pub StartsBlank : Bytes → Type 0
StartsBlank [] = Unit {0}
StartsBlank (c ∷ s) = c ≡ space

marker_at_word :
    (w r : Bytes) → IsWord w → StartsBlank r → has_prefix spaced_marker (space ∷ (w ++ r)) ≡ false
unfolding has_prefix is_space
marker_at_word [] r h b = absurd (h.ne_nil refl)
marker_at_word (c ∷ []) [] h b = ground arith
marker_at_word (c ∷ []) (x ∷ r) h b = ground arith
marker_at_word (c ∷ d ∷ []) [] h b = ground arith
marker_at_word (c ∷ d ∷ []) (x ∷ r) h b = ground (arith, two_hyphens c d h.ne_marker)
  where
    two_hyphens : (c d : ℕ) → c ∷ d ∷ [] ≢ data_marker → (c == 45 && d == 45) ≡ false
    two_hyphens c d q = ground arith
marker_at_word (c ∷ d ∷ x ∷ w) r h b = ground (arith, h.no_space.1.1.0)

-- Words, each behind a space, in front of `r`.
abbrev pub IsWords : List Bytes → Type 0
IsWords [] = Unit {0}
IsWords (w ∷ ws) = IsWord w × IsWords ws

pub StartsBlank-format_args :
    (ws : List Bytes) (r : Bytes) → StartsBlank r → StartsBlank (format_args ws ++ r)
StartsBlank-format_args [] r b = b
StartsBlank-format_args (w ∷ ws) r b = refl

index-space :
    (s : Bytes)
    → has_prefix spaced_marker (space ∷ s) ≡ false
    → index spaced_marker (space ∷ s) ≡ add_index (index spaced_marker s)
unfolding index
index-space s h = rw h

pub index-format_args :
    (ws : List Bytes) (r : Bytes)
    → IsWords ws
    → StartsBlank r
    → index spaced_marker (format_args ws ++ r)
      ≡ offset (length (format_args ws)) (index spaced_marker r)
index-format_args [] r h b = offset-zero (index spaced_marker r)
index-format_args (w ∷ ws) r h b = rw (append_assoc w (format_args ws) r) (
    rw
      (index-space (w ++ (format_args ws ++ r))
        (marker_at_word w (format_args ws ++ r) h.0 (StartsBlank-format_args ws r b)))
      (rw (index-word w (format_args ws ++ r) h.0.no_space, index-format_args ws r h.1 b)
        (rw (offset-twice (length w) (length (format_args ws)) (index spaced_marker r)) (
          offset-add_index (length w + length (format_args ws)) (index spaced_marker r)
          ∙ ap (λ n. offset (suc n) (index spaced_marker r))
              (sym (length-append w (format_args ws)))))))
  where
    offset-twice : (m n : ℕ) (o : Option ℕ) → offset m (offset n o) ≡ offset (m + n) o
    offset-twice m n none = refl
    offset-twice m n (some i) = ap (λ (k : ℕ). some k) (omega arith)
