-- ===== src/Text/Defs.antt =====
-- The functions of package `strings` (and `bytes.Equal`) on lists of bytes.
use go_cli_server.Prelude.{
  ℕ, suc, ◌-◌, Bool, true, false, ◌&&◌, ◌||◌, Option, none, some, List, [], ◌∷◌, ◌++◌, leb, ◌==◌,
  if◌then◌else◌, length, drop, map,
}

abbrev pub Bytes : Type 0
Bytes = List ℕ

abbrev pub semicolon : ℕ
semicolon = 59

abbrev pub space : ℕ
space = 32

abbrev pub hyphen : ℕ
hyphen = 45

abbrev pub newline : ℕ
newline = 10

abbrev pub carriage_return : ℕ
carriage_return = 13

-- `==` on strings, `bytes.Equal`.
unfoldable pub same : Bytes → Bytes → Bool
same [] [] = true
same [] (y ∷ ys) = false
same (x ∷ xs) [] = false
same (x ∷ xs) (y ∷ ys) = x == y && same xs ys

abbrev pub is_empty : Bytes → Bool
is_empty [] = true
is_empty (x ∷ xs) = false

-- `strings.HasPrefix s p`, the prefix first.
unfoldable pub has_prefix : Bytes → Bytes → Bool
has_prefix [] s = true
has_prefix (p ∷ ps) [] = false
has_prefix (p ∷ ps) (c ∷ s) = p == c && has_prefix ps s

-- `strings.HasSuffix s p`, the suffix first.
unfoldable pub has_suffix : Bytes → Bytes → Bool
unfolding same
has_suffix p s = leb (length p) (length s) && same (drop (length s - length p) s) p

abbrev pub add_index : Option ℕ → Option ℕ
add_index none = none
add_index (some i) = some (suc i)

-- `strings.Index s p`, the pattern first: the first place where it stands. It is not empty here.
unfoldable pub index : Bytes → Bytes → Option ℕ
unfolding has_prefix
index p [] = none
index p (c ∷ s) = if has_prefix p (c ∷ s) then some 0 else add_index (index p s)

abbrev pub is_some {ℓ} : {A : Type ℓ} → Option A → Bool
is_some none = false
is_some (some a) = true

-- `strings.Contains s p`, the pattern first.
unfoldable pub contains : Bytes → Bytes → Bool
unfolding index
contains p s = is_some (index p s)

-- `unicode.IsSpace` on ASCII: \t \n \v \f \r and the space.
unfoldable pub is_space : ℕ → Bool
is_space c = (leb 9 c && leb c 13) || c == space

unfoldable pub upper_byte : ℕ → ℕ
upper_byte c = if leb b'a' c && leb c b'z' then c - 32 else c

-- `strings.ToUpper` on ASCII.
unfoldable pub to_upper : Bytes → Bytes
unfolding upper_byte
to_upper s = map upper_byte s

unfoldable pub trim_left : Bytes → Bytes
unfolding is_space
trim_left [] = []
trim_left (c ∷ s) = let rest = trim_left s in if is_space c then rest else c ∷ s

abbrev pub cons_unless : (ℕ → Bool) → ℕ → Bytes → Bytes
cons_unless drops c [] = if drops c then [] else c ∷ []
cons_unless drops c (d ∷ s) = c ∷ d ∷ s

-- Drops the bytes at the end for which the test holds.
unfoldable pub trim_end : (ℕ → Bool) → Bytes → Bytes
trim_end drops [] = []
trim_end drops (c ∷ s) = cons_unless drops c (trim_end drops s)

-- `strings.TrimSpace`.
unfoldable pub trim_space : Bytes → Bytes
unfolding trim_left trim_end is_space
trim_space s = trim_end is_space (trim_left s)

-- `strings.TrimRight s "\r"`.
unfoldable pub trim_right_cr : Bytes → Bytes
unfolding trim_end
trim_right_cr s = trim_end (λ c. c == carriage_return) s

abbrev pub cons_word : Bytes → List Bytes → List Bytes
cons_word [] ws = ws
cons_word (c ∷ w) ws = (c ∷ w) ∷ ws

-- The words of `s`, where `w` is the part of a word that was read before it.
unfoldable pub fields_from : Bytes → Bytes → List Bytes
unfolding is_space
fields_from w [] = cons_word w []
fields_from w (c ∷ s) =
    let skip = fields_from [] s in
    let more = fields_from (w ++ c ∷ []) s in if is_space c then cons_word w skip else more

-- `strings.Fields`.
unfoldable pub fields : Bytes → List Bytes
unfolding fields_from
fields s = fields_from [] s

-- `strings.SplitN s " " n` for n > 0, where `w` is the part of a piece that was read before `s`.
unfoldable pub split_n_from : ℕ → Bytes → Bytes → List Bytes
split_n_from n w [] = w ∷ []
split_n_from n w (c ∷ s) =
    let next = split_n_from (n - 1) [] s in
    let more = split_n_from n (w ++ c ∷ []) s in
    if leb n 1 then (w ++ c ∷ s) ∷ [] else if c == space then w ∷ next else more

unfoldable pub split_n : ℕ → Bytes → List Bytes
unfolding split_n_from
split_n n s = split_n_from n [] s

-- `strings.Split s sep` for a separator of one byte, where `w` was read before `s`.
unfoldable pub split_from : ℕ → Bytes → Bytes → List Bytes
split_from sep w [] = w ∷ []
split_from sep w (c ∷ s) =
    let next = split_from sep [] s in
    let more = split_from sep (w ++ c ∷ []) s in if c == sep then w ∷ next else more

unfoldable pub split : ℕ → Bytes → List Bytes
unfolding split_from
split sep s = split_from sep [] s

-- `strings.Join parts " "`.
unfoldable pub join : List Bytes → Bytes
join [] = []
join (p ∷ []) = p
join (p ∷ q ∷ ps) = p ++ space ∷ join (q ∷ ps)
