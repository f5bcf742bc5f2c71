-- ===== src/Text/Search.antt =====
-- Finding one text in another.
use go_cli_server.Prelude.{
  ℕ, ◌-◌, true, false, Option, none, some, [], ◌∷◌, ◌++◌, ◌≡◌, ◌≢◌, ◌↔◌, refl, sym, ap, ◌∙◌, inl,
  inr, arith, Bool-cases, length, take, drop, take-append-drop,
}
use go_cli_server.Text.Defs.{Bytes, same, has_prefix, has_suffix, index, add_index}

pub same_iff : (a b : Bytes) → (same a b ≡ true) ↔ (a ≡ b)
unfolding same
same_iff [] [] = ground arith
same_iff [] (y ∷ b) = ground arith
same_iff (x ∷ a) [] = ground arith
same_iff (x ∷ a) (y ∷ b) = ground (arith, same_iff a b)

pub same_refl : (a : Bytes) → same a a ≡ true
same_refl a = (same_iff a a).1 refl

pub same-ne : (a b : Bytes) → a ≢ b → same a b ≡ false
same-ne a b h = elim (Bool-cases (same a b)) [ inl e ↦ absurd (h ((same_iff a b).0 e)) | inr e ↦ e ]

pub has_prefix-append : (p s : Bytes) → has_prefix p (p ++ s) ≡ true
unfolding has_prefix
has_prefix-append [] s = refl
has_prefix-append (c ∷ p) s = ground (arith, has_prefix-append p s)

add_index-ne_none : (o : Option ℕ) → o ≢ none → add_index o ≢ none
add_index-ne_none none h = h
add_index-ne_none (some i) h = λ e. cc

-- A text that stands somewhere is found.
pub index-middle : (p a b : Bytes) → p ≢ [] → index p (a ++ (p ++ b)) ≢ none
unfolding index
index-middle [] a b h = absurd (h refl)
index-middle (x ∷ p) [] b h = rw (has_prefix-append (x ∷ p) b) (λ e. cc)
index-middle (x ∷ p) (c ∷ a) b h =
    elim (Bool-cases (has_prefix (x ∷ p) (c ∷ (a ++ (x ∷ (p ++ b)))))) [
      | inl e ↦ rw e (λ q. cc)
      | inr e ↦ rw e (add_index-ne_none _ (index-middle (x ∷ p) a b h))
    ]

-- A suffix that is found is the end of the text.
pub has_suffix-split : (p s : Bytes) → has_suffix p s ≡ true → s ≡ take (length s - length p) s ++ p
unfolding has_suffix
has_suffix-split p s h =
    sym (take-append-drop (length s - length p) s)
    ∙ ap (λ t. take (length s - length p) s ++ t)
        ((same_iff (drop (length s - length p) s) p).0 (ground (arith, h)))

pub take-length-append : (a b : Bytes) → take (length a) (a ++ b) ≡ a
take-length-append [] b = refl
take-length-append (c ∷ a) b = ap (λ t. c ∷ t) (take-length-append a b)

pub drop-length-append : (a b : Bytes) → drop (length a) (a ++ b) ≡ b
drop-length-append [] b = refl
drop-length-append (c ∷ a) b = drop-length-append a b
