-- ===== src/Text/Blank.antt =====
-- White space: words, trimming and `strings.Fields`.
use go_cli_server.Prelude.{
  ℕ, Bool, true, false, List, [], ◌∷◌, ◌++◌, ◌≡◌, ◌≢◌, refl, ◌∙◌, append-nil, append_assoc,
}
use go_cli_server.Text.Defs.{
  Bytes, space, is_space, trim_left, trim_end, trim_space, cons_unless, cons_word, fields_from,
}

-- Every byte of a list has a property.
abbrev pub All : (ℕ → Type 0) → Bytes → Type 0
All P [] = Unit {0}
All P (c ∷ s) = P c × All P s

pub All-append : (P : ℕ → Type 0) (a b : Bytes) → All P a → All P b → All P (a ++ b)
All-append P [] b ha hb = hb
All-append P (c ∷ a) b ha hb = (ha.0, All-append P a b ha.1 hb)

pub All-map : (P Q : ℕ → Type 0) (s : Bytes) → ((c : ℕ) → P c → Q c) → All P s → All Q s
All-map P Q [] f h = tt
All-map P Q (c ∷ s) f h = (f c h.0, All-map P Q s f h.1)

abbrev pub NoSpace : Bytes → Type 0
NoSpace = All (λ c. is_space c ≡ false)

pub space-is_space : is_space space ≡ true
unfolding is_space
space-is_space = refl

-- A word is read up to the space behind it.
pub fields_from-word :
    (w t rest : Bytes)
    → NoSpace t
    → fields_from w (t ++ (space ∷ rest)) ≡ cons_word (w ++ t) (fields_from [] rest)
unfolding fields_from
fields_from-word w [] rest h = rw append-nil refl
fields_from-word w (c ∷ t) rest h =
    rw h.0 (fields_from-word (w ++ c ∷ []) t rest h.1 ∙ rw append_assoc)

pub fields_from_last : (w t : Bytes) → NoSpace t → fields_from w t ≡ cons_word (w ++ t) []
unfolding fields_from
fields_from_last w [] h = rw append-nil
fields_from_last w (c ∷ t) h = rw h.0 (fields_from_last (w ++ c ∷ []) t h.1 ∙ rw append_assoc)

pub cons_word-of-ne_nil : (w : Bytes) (ws : List Bytes) → w ≢ [] → cons_word w ws ≡ w ∷ ws
cons_word-of-ne_nil [] ws h = absurd (h refl)
cons_word-of-ne_nil (c ∷ w) ws h = refl

pub trim_left-black : (c : ℕ) (s : Bytes) → is_space c ≡ false → trim_left (c ∷ s) ≡ c ∷ s
unfolding trim_left
trim_left-black c s h = rw h

cons_unless-ne_nil : (drops : ℕ → Bool) (c : ℕ) (s : Bytes) → s ≢ [] → cons_unless drops c s ≡ c ∷ s
cons_unless-ne_nil drops c [] h = absurd (h refl)
cons_unless-ne_nil drops c (d ∷ s) h = refl

append-ne_nil : (a : Bytes) {b : Bytes} → b ≢ [] → a ++ b ≢ []
append-ne_nil [] h = h
append-ne_nil (c ∷ a) h = λ e. cc

-- What stands before an end that is kept is kept.
pub trim_end-append :
    (drops : ℕ → Bool) (a b : Bytes)
    → b ≢ []
    → trim_end drops b ≡ b
    → trim_end drops (a ++ b) ≡ a ++ b
unfolding trim_end
trim_end-append drops [] b ne h = h
trim_end-append drops (c ∷ a) b ne h =
    rw (trim_end-append drops a b ne h) (cons_unless-ne_nil drops c (a ++ b) (append-ne_nil a ne))

pub trim_end-kept :
    (drops : ℕ → Bool) (s : Bytes) → All (λ c. drops c ≡ false) s → trim_end drops s ≡ s
unfolding trim_end
trim_end-kept drops [] h = refl
trim_end-kept drops (c ∷ []) h = rw h.0
trim_end-kept drops (c ∷ d ∷ s) h = rw (trim_end-kept drops (d ∷ s) h.1)

pub trim_end-dropped :
    (drops : ℕ → Bool) (s : Bytes) (c : ℕ)
    → drops c ≡ true
    → trim_end drops (s ++ c ∷ []) ≡ trim_end drops s
unfolding trim_end
trim_end-dropped drops [] c h = rw h
trim_end-dropped drops (d ∷ s) c h = rw (trim_end-dropped drops s c h)

-- A text that starts and ends with other bytes than white space is left as it is.
pub trim_space-kept :
    (c : ℕ) (s : Bytes)
    → is_space c ≡ false
    → trim_end is_space (c ∷ s) ≡ c ∷ s
    → trim_space (c ∷ s) ≡ c ∷ s
unfolding trim_space
trim_space-kept c s h e = rw (trim_left-black c s h) e
