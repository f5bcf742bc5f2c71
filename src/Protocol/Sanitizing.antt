-- ===== src/Protocol/Sanitizing.antt =====
-- What `sanitizeMessage` of protocol/responses.go guarantees, and that its loops end.
use go_cli_server.Prelude.{
  ℕ, zero, suc, ◌+◌, ◌≤◌, ◌<◌, Bool, true, false, not, ◌&&◌, Option, none, some, [], ◌∷◌, ◌≡◌, refl,
  sym, ap, subst₂, ◌∙◌, ◌⊎◌, inl, inr, arith, Bool-cases, ◌==◌, if◌then◌else◌, length,
}
use go_cli_server.Text.{Bytes, has_prefix, index, contains, is_some, add_index}
use go_cli_server.Protocol.{command_terminator, spaced_marker}
use go_cli_server.Protocol.Sanitize.{replace_all, replace_loop, broken_terminator, broken_marker}
use go_cli_server.Protocol.Framing.{no_pair, ends_semi}
use go_cli_server.Protocol.Words.{no_pair-of-index, contains-index}

starts : ℕ → Bytes → Bool
starts b [] = false
starts b (c ∷ s) = c == b

-- The places where `b` stands twice in a row.
pairs : ℕ → Bytes → ℕ
pairs b [] = 0
pairs b (c ∷ s) = (if c == b && starts b s then 1 else 0) + pairs b s

pairs-le-length : (b : ℕ) (s : Bytes) → pairs b s ≤ length s
unfolding pairs starts
pairs-le-length b [] = omega arith
pairs-le-length b (c ∷ s) = ground (arith, pairs-le-length b s)

index-suc :
    (p s : Bytes) (c : ℕ) → has_prefix p (c ∷ s) ≡ false → index p (c ∷ s) ≡ add_index (index p s)
unfolding index
index-suc p s c h = rw h

contains-suc :
    (p s : Bytes) (c : ℕ) → has_prefix p (c ∷ s) ≡ false → contains p (c ∷ s) ≡ contains p s
unfolding contains
contains-suc p s c h = ap is_some (index-suc p s c h) ∙ some_add (index p s)
  where
    some_add : (o : Option ℕ) → is_some (add_index o) ≡ is_some o
    some_add none = refl
    some_add (some i) = refl

contains-nil : (p : Bytes) → contains p [] ≡ false
unfolding contains index
contains-nil p = refl

replace_all-miss :
    (old new s : Bytes) (c : ℕ)
    → has_prefix old (c ∷ s) ≡ false
    → replace_all old new (c ∷ s) ≡ c ∷ replace_all old new s
unfolding replace_all
replace_all-miss old new s c h = rw h

-- The last byte is a semicolon; `d` answers for an empty text.
unfoldable pub last_semi : Bool → Bytes → Bool
last_semi d [] = d
last_semi d (c ∷ s) = last_semi (c == 59) s

pub last_semi-ends_semi : (s : Bytes) → last_semi false s ≡ ends_semi s
unfolding last_semi ends_semi
last_semi-ends_semi [] = refl
last_semi-ends_semi (c ∷ []) = refl
last_semi-ends_semi (c ∷ d ∷ s) = last_semi-ends_semi (d ∷ s)

-- A round that finds the pattern breaks a pair of `b`; no round makes one.
record Breaks (b : ℕ) (old new s : Bytes) : Type 0 where
  same_start : starts b (replace_all old new s) ≡ starts b s
  fewer : pairs b (replace_all old new s) ≤ pairs b s
  same_last : (d : Bool) → last_semi d (replace_all old new s) ≡ last_semi d s
  strictly : contains old s ≡ true → pairs b (replace_all old new s) < pairs b s

Breaks-nil : (b : ℕ) (old new : Bytes) → Breaks b old new []
Breaks-nil b old new = record {
  same_start = unfold replace_all in refl;
  fewer = unfold replace_all in omega arith;
  same_last = λ d. unfold replace_all in refl;
  strictly = λ h. absurd (cc (contains-nil old, h));
}

Breaks-miss :
    (b : ℕ) (old new s : Bytes) (c : ℕ)
    → has_prefix old (c ∷ s) ≡ false
    → Breaks b old new s
    → Breaks b old new (c ∷ s)
unfolding pairs starts
Breaks-miss b old new s c h ih =
    let e = replace_all-miss old new s c h in
    record {
      same_start = rw e;
      fewer = rw e (ground (arith, ih.same_start, ih.fewer));
      same_last = λ d. rw e (unfold last_semi in ih.same_last (c == 59));
      strictly =
          λ q. rw e (ground (arith, ih.same_start, ih.strictly (sym (contains-suc old s c h) ∙ q)));
    }

replace_all-terminator :
    (s : Bytes)
    → replace_all command_terminator broken_terminator (59 ∷ 59 ∷ s)
      ≡ 59 ∷ 32 ∷ 59 ∷ replace_all command_terminator broken_terminator s
unfolding replace_all
replace_all-terminator s = refl

Breaks-terminator_hit :
    (s : Bytes)
    → Breaks 59 command_terminator broken_terminator s
    → Breaks 59 command_terminator broken_terminator (59 ∷ 59 ∷ s)
unfolding pairs starts
Breaks-terminator_hit s ih = record {
  same_start = rw (replace_all-terminator s);
  fewer = rw (replace_all-terminator s) (ground (arith, ih.same_start, ih.fewer));
  same_last = λ d. rw (replace_all-terminator s) (unfold last_semi in ih.same_last true);
  strictly = λ q. rw (replace_all-terminator s) (ground (arith, ih.same_start, ih.fewer));
}

Breaks-terminator : (s : Bytes) → Breaks 59 command_terminator broken_terminator s
unfolding has_prefix
Breaks-terminator [] = Breaks-nil 59 command_terminator broken_terminator
Breaks-terminator (c ∷ []) =
    Breaks-miss 59 command_terminator broken_terminator [] c (ground arith)
      (Breaks-nil 59 command_terminator broken_terminator)
Breaks-terminator (c ∷ d ∷ s) =
    split (Bool-cases (has_prefix command_terminator (c ∷ d ∷ s))) (Breaks-terminator s)
      (Breaks-terminator (d ∷ s))
  where
    split :
        (has_prefix command_terminator (c ∷ d ∷ s) ≡ true)
          ⊎ (has_prefix command_terminator (c ∷ d ∷ s) ≡ false)
        → Breaks 59 command_terminator broken_terminator s
        → Breaks 59 command_terminator broken_terminator (d ∷ s)
        → Breaks 59 command_terminator broken_terminator (c ∷ d ∷ s)
    split (inr miss) ih next =
        Breaks-miss 59 command_terminator broken_terminator (d ∷ s) c miss next
    split (inl hit) ih next =
        let c_semi : c ≡ 59 = ground arith in
        let d_semi : d ≡ 59 = ground arith in
        subst₂ (λ x y. Breaks 59 command_terminator broken_terminator (x ∷ y ∷ s)) (sym c_semi)
          (sym d_semi) (Breaks-terminator_hit s ih)

-- The same for the data marker, which holds two hyphens.
replace_all-marker :
    (s : Bytes)
    → replace_all spaced_marker broken_marker (32 ∷ 45 ∷ 45 ∷ 32 ∷ s)
      ≡ 32 ∷ 45 ∷ 32 ∷ 45 ∷ 32 ∷ replace_all spaced_marker broken_marker s
unfolding replace_all
replace_all-marker s = refl

-- Replacing the marker breaks a pair of hyphens, and leaves the semicolons as they are.
record BreaksMarker (s : Bytes) : Type 0 where
  breaks : Breaks 45 spaced_marker broken_marker s
  same_pairs :
      (prev : Bool) → no_pair prev (replace_all spaced_marker broken_marker s) ≡ no_pair prev s

BreaksMarker-nil : BreaksMarker []
BreaksMarker-nil = record {
  breaks = Breaks-nil 45 spaced_marker broken_marker;
  same_pairs = λ prev. unfold replace_all in refl;
}

BreaksMarker-miss :
    (s : Bytes) (c : ℕ)
    → has_prefix spaced_marker (c ∷ s) ≡ false
    → BreaksMarker s
    → BreaksMarker (c ∷ s)
BreaksMarker-miss s c h ih = record {
  breaks = Breaks-miss 45 spaced_marker broken_marker s c h ih.breaks;
  same_pairs = λ prev.
      rw (replace_all-miss spaced_marker broken_marker s c h)
        (unfold no_pair in ap (λ b. not (prev && c == 59) && b) (ih.same_pairs (c == 59)));
}

BreaksMarker-hit : (s : Bytes) → BreaksMarker s → BreaksMarker (32 ∷ 45 ∷ 45 ∷ 32 ∷ s)
unfolding pairs starts no_pair
BreaksMarker-hit s ih = record {
  breaks = record {
    same_start = rw (replace_all-marker s);
    fewer = rw (replace_all-marker s) (ground (arith, ih.breaks.fewer));
    same_last = λ d. rw (replace_all-marker s) (unfold last_semi in ih.breaks.same_last false);
    strictly = λ q. rw (replace_all-marker s) (ground (arith, ih.breaks.fewer));
  };
  same_pairs = λ prev. rw (replace_all-marker s) (ground (arith, ih.same_pairs false));
}

breaks_marker : (s : Bytes) → BreaksMarker s
unfolding has_prefix
breaks_marker [] = BreaksMarker-nil
breaks_marker (c ∷ []) = BreaksMarker-miss [] c (ground arith) BreaksMarker-nil
breaks_marker (c ∷ d ∷ []) = BreaksMarker-miss (d ∷ []) c (ground arith) (breaks_marker (d ∷ []))
breaks_marker (c ∷ d ∷ x ∷ []) =
    BreaksMarker-miss (d ∷ x ∷ []) c (ground arith) (breaks_marker (d ∷ x ∷ []))
breaks_marker (c ∷ d ∷ x ∷ y ∷ s) =
    split (Bool-cases (has_prefix spaced_marker (c ∷ d ∷ x ∷ y ∷ s))) (breaks_marker s)
      (breaks_marker (d ∷ x ∷ y ∷ s))
  where
    split :
        (has_prefix spaced_marker (c ∷ d ∷ x ∷ y ∷ s) ≡ true)
          ⊎ (has_prefix spaced_marker (c ∷ d ∷ x ∷ y ∷ s) ≡ false)
        → BreaksMarker s
        → BreaksMarker (d ∷ x ∷ y ∷ s)
        → BreaksMarker (c ∷ d ∷ x ∷ y ∷ s)
    split (inr miss) ih next = BreaksMarker-miss (d ∷ x ∷ y ∷ s) c miss next
    split (inl hit) ih next =
        let c_is : c ≡ 32 = ground arith in
        let d_is : d ≡ 45 = ground arith in
        let x_is : x ≡ 45 = ground arith in
        let y_is : y ≡ 32 = ground arith in
        subst₂ (λ a b. BreaksMarker (a ∷ b ∷ x ∷ y ∷ s)) (sym c_is) (sym d_is)
          (subst₂ (λ a b. BreaksMarker (32 ∷ 45 ∷ a ∷ b ∷ s)) (sym x_is) (sym y_is)
            (BreaksMarker-hit s ih))

contains-of-pairs :
    (b : ℕ) (old new s : Bytes) → Breaks b old new s → pairs b s ≤ 0 → contains old s ≡ false
contains-of-pairs b old new s br h = elim (Bool-cases (contains old s)) [
  | inl e ↦ absurd (omega (arith, br.strictly e))
  | inr e ↦ e
]

-- With as much fuel as there are pairs, a loop ends with no pattern left.
replace_loop-done :
    (b : ℕ) (old new : Bytes)
    → ((s : Bytes) → Breaks b old new s)
    → (fuel : ℕ) (s : Bytes) → pairs b s ≤ fuel
    → contains old (replace_loop fuel old new s) ≡ false
unfolding replace_loop
replace_loop-done b old new br zero s h = contains-of-pairs b old new s (br s) h
replace_loop-done b old new br (suc fuel) s h = elim (Bool-cases (contains old s)) [
  | inl e ↦
      rw (e, replace_loop)
        (replace_loop-done b old new br fuel (replace_all old new s)
          (omega (arith, (br s).strictly e)))
  | inr e ↦ rw (e, replace_loop) e
]

-- The second loop leaves the semicolons as they are.
replace_loop-same_pairs :
    (fuel : ℕ) (s : Bytes)
    → no_pair false (replace_loop fuel spaced_marker broken_marker s) ≡ no_pair false s
unfolding replace_loop
replace_loop-same_pairs zero s = refl
replace_loop-same_pairs (suc fuel) s = elim (Bool-cases (contains spaced_marker s)) [
  | inl e ↦
      rw (e, replace_loop)
        (replace_loop-same_pairs fuel (replace_all spaced_marker broken_marker s)
          ∙ (breaks_marker s).same_pairs false)
  | inr e ↦ rw (e, replace_loop)
]

replace_loop-same_last :
    (b : ℕ) (old new : Bytes)
    → ((s : Bytes) → Breaks b old new s)
    → (fuel : ℕ) (s : Bytes) → last_semi false (replace_loop fuel old new s) ≡ last_semi false s
unfolding replace_loop
replace_loop-same_last b old new br zero s = refl
replace_loop-same_last b old new br (suc fuel) s = elim (Bool-cases (contains old s)) [
  | inl e ↦
      rw (e, replace_loop)
        (replace_loop-same_last b old new br fuel (replace_all old new s) ∙ (br s).same_last false)
  | inr e ↦ rw (e, replace_loop)
]

-- What the two loops leave of a message.
pub record IsBroken (s t : Bytes) : Type 0 where
  pub no_terminator : no_pair false t ≡ true
  pub no_marker : contains spaced_marker t ≡ false
  pub same_end : last_semi false t ≡ last_semi false s

-- The length of a text is enough fuel for both loops.
pub loops-IsBroken :
    (s : Bytes)
    → let t = replace_loop (length s) command_terminator broken_terminator s in
      IsBroken s (replace_loop (length t) spaced_marker broken_marker t)
loops-IsBroken s =
    let t = replace_loop (length s) command_terminator broken_terminator s in
    record {
      no_terminator =
          replace_loop-same_pairs (length t) t
          ∙ no_pair-of-index t (
              contains-index command_terminator t (
                replace_loop-done 59 command_terminator broken_terminator Breaks-terminator
                  (length s) s (pairs-le-length 59 s)));
      no_marker =
          replace_loop-done 45 spaced_marker broken_marker (λ x. (breaks_marker x).breaks)
            (length t) t (pairs-le-length 45 t);
      same_end =
          replace_loop-same_last 45 spaced_marker broken_marker (λ x. (breaks_marker x).breaks)
            (length t) t
          ∙ replace_loop-same_last 59 command_terminator broken_terminator Breaks-terminator
              (length s) s;
    }
