-- ===== src/Versions.antt =====
-- airflow_versions/runtime_versions.go: versions of the Astro Runtime and their order. A version is
-- its code points. golang.org/x/mod/semver is a parameter.
pub mod Latest
mod Order
mod Tests
use astro_cli.Prelude.{
  ◌++◌, ◌||◌, length, false, some, not, none, [], ◌&&◌, eqb, eq_codes, if◌then◌else◌, ◌∷◌, true,
  Option, leb, ℕ, List, Bool,
}

-- The comparisons -1, 0 and 1.
pub data Comparison : Type 0 where
  less equal greater : Comparison

-- `IsValid`, `Compare` and `Major` of semver.
pub record Semver : Type 0 where
  pub is_valid : List ℕ → Bool
  pub compare : List ℕ → List ℕ → Comparison
  pub major : List ℕ → List ℕ

pub record VersionParts : Type 0 where
  pub airflow_major : List ℕ
  pub airflow_minor : List ℕ
  pub astronomer_patch : List ℕ
  pub prerelease : List ℕ

-- `strings.TrimPrefix(version, "v")`
unfoldable pub strip_version_prefix : List ℕ → List ℕ
strip_version_prefix [] = []
strip_version_prefix (c ∷ s) = if eqb c b'v' then s else c ∷ s

abbrev is_digit : ℕ → Bool
is_digit c = leb b'0' c && leb c b'9'

-- The longest run of digits at the front, and what follows it.
abbrev digits : List ℕ → List ℕ × List ℕ
digits [] = ([], [])
digits (c ∷ s) = let (run, rest) = digits s in if is_digit c then (c ∷ run, rest) else ([], c ∷ s)

-- `(\d+)`: a run of digits that is not empty.
abbrev number : List ℕ → Option (List ℕ × List ℕ)
number s = let (run, rest) = digits s in if eqb (length run) 0 then none else some (run, rest)

-- A character that must stand at the front.
abbrev expect : ℕ → List ℕ → Option (List ℕ)
expect c [] = none
expect c (d ∷ s) = if eqb c d then some s else none

abbrev all_but_newline : List ℕ → Bool
all_but_newline [] = true
all_but_newline (c ∷ s) = not (eqb c 10) && all_but_newline s

-- `(?:[.-](.+))?$`
abbrev suffix : List ℕ → Option (List ℕ)
suffix [] = some []
suffix (c ∷ s) =
    if (eqb c b'.' || eqb c b'-') && (not (eqb (length s) 0) && all_but_newline s)
    then some s
    else none

infixl 20 ◌>>=?◌
abbrev ◌>>=?◌ : {A B : Type 0} → Option A → (A → Option B) → Option B
none >>=? f = none
some a >>=? f = f a

-- newFormatRegex, whose groups can match in one way only.
unfoldable pub parse_new_format : List ℕ → Option VersionParts
parse_new_format v = number v >>=? λ (major, r1). expect b'.' r1 >>=? λ r2.
    number r2 >>=? λ (minor, r3). expect b'-' r3 >>=? λ r4. number r4 >>=? λ (patch, r5).
    suffix r5 >>=? λ prerelease. some (record {
      airflow_major = major;
      airflow_minor = minor;
      astronomer_patch = patch;
      prerelease = prerelease;
    })

abbrev is_some : {A : Type 0} → Option A → Bool
is_some none = false
is_some (some a) = true

unfoldable pub is_new_format : List ℕ → Bool
is_new_format v = is_some (parse_new_format v)

abbrev semver_text : List ℕ → Option VersionParts → List ℕ
semver_text v none = v
semver_text v (some parts) =
    let version =
      parts.airflow_major ++ b'.' ∷ parts.airflow_minor ++ b'.' ∷ parts.astronomer_patch in
    if eqb (length parts.prerelease) 0 then version else version ++ b'-' ∷ parts.prerelease

unfoldable pub normalize_version : List ℕ → List ℕ
normalize_version v = semver_text v (parse_new_format v)

module _ (s : Semver) where
  unfoldable pub is_valid_runtime_version : List ℕ → Bool
  is_valid_runtime_version version =
      s.is_valid (b'v' ∷ normalize_version (strip_version_prefix version))

  unfoldable pub compare_runtime_versions : List ℕ → List ℕ → Comparison
  compare_runtime_versions v1 v2 =
      let v1_valid = is_valid_runtime_version v1 in
      let v2_valid = is_valid_runtime_version v2 in
      let w1 = strip_version_prefix v1 in
      let w2 = strip_version_prefix v2 in
      if not v1_valid && not v2_valid
      then equal
      else if not v1_valid
      then less
      else if not v2_valid
      then greater
      else if is_new_format w1 && not (is_new_format w2)
      then greater
      else if not (is_new_format w1) && is_new_format w2
      then less
      else s.compare (b'v' ∷ normalize_version w1) (b'v' ∷ normalize_version w2)

  unfoldable pub runtime_version_major : List ℕ → List ℕ
  runtime_version_major version =
      let v = b'v' ∷ normalize_version (strip_version_prefix version) in
      if not (s.is_valid v) then [] else strip_version_prefix (s.major v)

  unfoldable pub airflow_major_version_for_runtime_version : List ℕ → List ℕ
  airflow_major_version_for_runtime_version version =
      if not (is_new_format version)
      then (if s.is_valid (b'v' ∷ strip_version_prefix version) then b'2' ∷ [] else [])
      else runtime_version_major version

  unfoldable pub is_airflow3 : List ℕ → Bool
  is_airflow3 version = eq_codes (airflow_major_version_for_runtime_version version) (b'3' ∷ [])
