-- ===== src/Client/VersionOrder.antt =====
-- The order of versions in client/version.go.
use go_cli_server.Prelude.{
  true, ◌≡◌, ◌≢◌, ◌↔◌, refl, sym, ap, ap₂, ◌∙◌, arith, Result, ok, err, ◌>>=◌, ℤ, pos, negsuc,
  ltb_ℤ, eq_ℤ, eq_ℤ→eq, inl, inr, ◌⊎◌, zero, suc,
}
use go_cli_server.Text.{Bytes}
use go_cli_server.Client.Version.{
  Version, VersionError, parse_version, compare_int, compare_parsed, compare_versions, is_equal,
  versions_match,
}

-- The lexicographic order of versions.
abbrev pub Lt : ℤ → ℤ → Type 0
Lt a b = ltb_ℤ a b ≡ true

abbrev pub Older : Version → Version → Type 0
Older a b =
    Lt a.major b.major
    ⊎ ((a.major ≡ b.major) × (Lt a.minor b.minor ⊎ ((a.minor ≡ b.minor) × Lt a.patch b.patch)))

-- What one step of the comparison decides.
compare_int_lem :
    (a b next : ℤ) → (compare_int a b next ≡ negsuc 0) ↔ (Lt a b ⊎ ((a ≡ b) × (next ≡ negsuc 0)))
compare_int_lem (pos a) (pos b) next = ground arith
compare_int_lem (pos a) (negsuc b) next = ground arith
compare_int_lem (negsuc a) (pos b) next = (λ e. inl refl, λ h. refl)
compare_int_lem (negsuc a) (negsuc b) next = ground arith

compare_int_eq : (a b next : ℤ) → (compare_int a b next ≡ pos 0) ↔ ((a ≡ b) × (next ≡ pos 0))
compare_int_eq (pos a) (pos b) next = ground arith
compare_int_eq (pos a) (negsuc b) next = ground arith
compare_int_eq (negsuc a) (pos b) next = ground arith
compare_int_eq (negsuc a) (negsuc b) next = ground arith

abbrev pub opposite : ℤ → ℤ
opposite (pos zero) = pos 0
opposite (pos (suc n)) = negsuc n
opposite (negsuc n) = pos (suc n)

compare_int-swap :
    (a b next : ℤ) → compare_int b a (opposite next) ≡ opposite (compare_int a b next)
compare_int-swap (pos a) (pos b) next = ground arith
compare_int-swap (pos a) (negsuc b) next = refl
compare_int-swap (negsuc a) (pos b) next = refl
compare_int-swap (negsuc a) (negsuc b) next = ground arith

compare_parsed-swap : (a b : Version) → compare_parsed b a ≡ opposite (compare_parsed a b)
unfolding compare_parsed
compare_parsed-swap a b =
    let third = compare_int a.patch b.patch (pos 0) in
    let second = compare_int a.minor b.minor third in
    ap (λ n. compare_int b.major a.major n)
      (ap (λ n. compare_int b.minor a.minor n) (compare_int-swap a.patch b.patch (pos 0))
        ∙ compare_int-swap a.minor b.minor third)
    ∙ compare_int-swap a.major b.major second

compare_parsed-Older : (a b : Version) → (compare_parsed a b ≡ negsuc 0) ↔ Older a b
unfolding compare_parsed
compare_parsed-Older a b =
    let third = compare_int a.patch b.patch (pos 0) in
    let second = compare_int a.minor b.minor third in
    let l1 = compare_int_lem a.major b.major second in
    let l2 = compare_int_lem a.minor b.minor third in
    let l3 = compare_int_lem a.patch b.patch (pos 0) in
    (
      λ h. elim (l1.0 h) [
        | inl p ↦ inl p
        | inr (e, q) ↦ inr (
          e,
          elim (l2.0 q) [
            | inl p ↦ inl p
            | inr (e2, q2) ↦
                inr (e2, elim (l3.0 q2) [ inl p ↦ p | inr (e3, q3) ↦ absurd (zero_ne q3) ])
          ],
        )
      ],
      λ h. l1.1 (elim h [
        | inl p ↦ inl p
        | inr (e, inl p) ↦ inr (e, l2.1 (inl p))
        | inr (e, inr (e2, p)) ↦ inr (e, l2.1 (inr (e2, l3.1 (inl p))))
      ]),
    )
  where
    zero_ne : pos 0 ≢ negsuc 0
    zero_ne e = cc

compare_parsed_same : (a b : Version) → (compare_parsed a b ≡ pos 0) ↔ (a ≡ b)
unfolding compare_parsed
compare_parsed_same a b =
    let third = compare_int a.patch b.patch (pos 0) in
    let second = compare_int a.minor b.minor third in
    let l1 = compare_int_eq a.major b.major second in
    let l2 = compare_int_eq a.minor b.minor third in
    let l3 = compare_int_eq a.patch b.patch (pos 0) in
    (
      λ h. let (e1, h2) = l1.0 h in let (e2, h3) = l2.0 h2 in same_version e1 e2 (l3.0 h3).0,
      λ e. l1.1 (ap (λ v. v.major) e, l2.1 (ap (λ v. v.minor) e, l3.1 (ap (λ v. v.patch) e, refl))),
    )
  where
    same_version :
        {a b : Version} → a.major ≡ b.major → a.minor ≡ b.minor → a.patch ≡ b.patch → a ≡ b
    same_version e1 e2 e3 = cc

-- `CompareVersions` behind the parsing.
abbrev compare_results :
    Result VersionError Version → Result VersionError Version → Result VersionError ℤ
compare_results p q = p >>= λ va. q >>= λ vb. ok (compare_parsed va vb)

abbrev fine {ℓ} : {A : Type ℓ} → A → Result VersionError A
fine a = ok a

ok-inj : (m n : ℤ) → fine m ≡ fine n → m ≡ n
ok-inj m n e = cc

compare_results-Older :
    (p q : Result VersionError Version) (va vb : Version)
    → p ≡ ok va
    → q ≡ ok vb
    → (compare_results p q ≡ ok (negsuc 0)) ↔ Older va vb
compare_results-Older p q va vb ea eb =
    let l = compare_parsed-Older va vb in
    let whole : compare_results p q ≡ ok (compare_parsed va vb) = ap₂ compare_results ea eb in
    (λ h. l.0 (ok-inj _ _ (sym whole ∙ h)), λ o. whole ∙ ap ok (l.1 o))

compare_results-swap :
    (p q : Result VersionError Version) (n : ℤ)
    → compare_results p q ≡ ok n
    → compare_results q p ≡ ok (opposite n)
compare_results-swap (ok va) (ok vb) n h =
    ap ok (compare_parsed-swap va vb ∙ ap opposite (ok-inj _ _ h))
compare_results-swap (ok va) (err e) n h = cc
compare_results-swap (err e) q n h = cc

is_equal_lem :
    (p q : Result VersionError Version)
    → (is_equal (compare_results p q) ≡ true) ↔ ((v : Version) × (p ≡ ok v) × (q ≡ ok v))
is_equal_lem (ok va) (ok vb) =
    let l = compare_parsed_same va vb in
    (
      λ h. (va, refl, ap ok (sym (l.0 (eq_ℤ→eq _ (pos 0) h)))),
      λ s. ap (λ n. eq_ℤ n (pos 0)) (l.1 (same_ok _ _ s.1 ∙ sym (same_ok _ _ s.2))),
    )
  where
    same_ok : (a b : Version) → fine a ≡ fine b → a ≡ b
    same_ok a b e = cc
is_equal_lem (ok va) (err e) = (λ h. cc, λ s. cc s.2)
is_equal_lem (err e) q = (λ h. cc, λ s. cc s.1)

-- `CompareVersions` of two valid versions is -1 exactly if the first is older in the lexicographic
-- order of major, minor and patch number.
pub compare_versions-Older :
    (a b : Bytes) {va vb : Version}
    → parse_version a ≡ ok va
    → parse_version b ≡ ok vb
    → (compare_versions a b ≡ ok (negsuc 0)) ↔ Older va vb
compare_versions-Older a b {va = va} {vb = vb} ea eb =
    unfold compare_versions in compare_results-Older (parse_version a) (parse_version b) va vb ea eb

-- If `CompareVersions` returns a number, with the versions swapped it returns the opposite number.
pub compare_versions-swap :
    (a b : Bytes) {n : ℤ} → compare_versions a b ≡ ok n → compare_versions b a ≡ ok (opposite n)
compare_versions-swap a b {n = n} h =
    unfold compare_versions in compare_results-swap (parse_version a) (parse_version b) n h

-- `VersionsMatch` holds exactly if both texts are valid and are read as the same version.
pub versions_match_lem :
    (a b : Bytes)
    → (versions_match a b ≡ true)
      ↔ ((v : Version) × (parse_version a ≡ ok v) × (parse_version b ≡ ok v))
versions_match_lem a b =
    unfold versions_match compare_versions in is_equal_lem (parse_version a) (parse_version b)
