-- ===== src/Client/Version.antt =====
-- client/version.go: semantic versions.
use go_cli_server.Prelude.{
  Bool, false, ◌||◌, Option, none, some, List, [], ◌∷◌, ◌++◌, ◌==◌, if◌then◌else◌, ℕ, suc, Result,
  ok, err, ◌>>=◌, ℤ, pos, negsuc, ltb_ℤ, eq_ℤ, not,
}
use go_cli_server.Text.{Bytes, split, hyphen}
use go_cli_server.Text.Decimal.{decimal, atoi}

-- Major, minor and patch number.
pub record Version : Type 0 where
  pub major : ℤ
  pub minor : ℤ
  pub patch : ℤ

-- The errors of `ParseVersion`, with the text they name.
pub data VersionError : Type 0 where
  bad_format bad_major bad_minor bad_patch : Bytes → VersionError

-- `strings.TrimPrefix s` of the one byte `c`.
unfoldable pub trim_prefix : ℕ → Bytes → Bytes
trim_prefix c [] = []
trim_prefix c (d ∷ s) = if d == c then s else d ∷ s

-- What stands in front of the first `-` or `+`.
unfoldable pub before_suffix : Bytes → Bytes
before_suffix [] = []
before_suffix (c ∷ s) =
    let rest = before_suffix s in if c == hyphen || c == b'+' then [] else c ∷ rest

abbrev pub number : Bytes → VersionError → Result VersionError ℤ
number s e = elim (atoi s) [ none ↦ err e | some n ↦ ok n ]

-- The numbers of the parts of the version `v`.
unfoldable pub parse_parts : Bytes → List Bytes → Result VersionError Version
unfolding before_suffix
parse_parts v (a ∷ b ∷ c ∷ []) = number a (bad_major a) >>= λ major.
    number b (bad_minor b) >>= λ minor. number (before_suffix c) (bad_patch c) >>= λ patch.
    ok (record { major = major; minor = minor; patch = patch })
parse_parts v _ = err (bad_format v)

-- `ParseVersion`.
unfoldable pub parse_version : Bytes → Result VersionError Version
unfolding trim_prefix parse_parts
parse_version v = let w = trim_prefix b'V' (trim_prefix b'v' v) in parse_parts w (split b'.' w)

-- One step of the comparison: the numbers, and what decides when they are equal.
abbrev pub compare_int : ℤ → ℤ → ℤ → ℤ
compare_int a b next = if not (eq_ℤ a b) then (if ltb_ℤ a b then negsuc 0 else pos 1) else next

-- The comparisons of `CompareVersions`, on parsed versions.
unfoldable pub compare_parsed : Version → Version → ℤ
compare_parsed a b =
    compare_int a.major b.major (compare_int a.minor b.minor (compare_int a.patch b.patch (pos 0)))

-- `CompareVersions`.
unfoldable pub compare_versions : Bytes → Bytes → Result VersionError ℤ
unfolding parse_version compare_parsed
compare_versions a b = parse_version a >>= λ va. parse_version b >>= λ vb. ok (compare_parsed va vb)

abbrev pub is_equal : Result VersionError ℤ → Bool
is_equal (ok c) = eq_ℤ c (pos 0)
is_equal (err e) = false

-- `VersionsMatch`.
unfoldable pub versions_match : Bytes → Bytes → Bool
unfolding compare_versions
versions_match a b = is_equal (compare_versions a b)

-- `ValidateVersion`.
unfoldable pub validate_version : Bytes → Result VersionError (Unit {0})
unfolding parse_version
validate_version v = parse_version v >>= λ parsed. ok tt

-- `%d`.
unfoldable pub format_int : ℤ → Bytes
format_int (pos n) = decimal n
format_int (negsuc n) = b'-' ∷ decimal (suc n)

-- `FormatVersion`.
unfoldable pub format_version : Version → Bytes
unfolding format_int
format_version v =
    b'v' ∷ (format_int v.major ++ b'.' ∷ (format_int v.minor ++ b'.' ∷ format_int v.patch))

-- The errors of a version check; `E` are those of the request and of `onMismatch`.
pub data CheckError (E : Type 0) : Type 0 where
  no_answer : E → CheckError E
  no_version : CheckError E
  from_callback : E → CheckError E
  mismatch : Bytes → Bytes → CheckError E

abbrev callback_result : {E : Type 0} → Option E → Result (CheckError E) (Unit {0})
callback_result none = ok tt
callback_result (some e) = err (from_callback e)

-- `MakeVersionCheck`, where `info` is the hub's answer to INFO: the string under "version", if any.
unfoldable pub make_version_check :
    {E : Type 0}
    → Bytes
    → Option (Bytes → Bytes → Option E)
    → Result E (Option Bytes)
    → Result (CheckError E) (Unit {0})
unfolding versions_match
make_version_check client on_mismatch (err e) = err (no_answer e)
make_version_check client on_mismatch (ok none) = err no_version
make_version_check client none (ok (some hub)) =
    if not (versions_match client hub) then err (mismatch client hub) else ok tt
make_version_check client (some f) (ok (some hub)) =
    if not (versions_match client hub) then callback_result (f client hub) else ok tt
