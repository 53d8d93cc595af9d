-- ===== src/Versions/Tests.antt =====
-- The theorems on runtime versions with a concrete order, and runs of the code.
use astro_cli.Versions.Latest.Pick.{pick_latest_matching_runtime_version-Greatest}
use astro_cli.Versions.Order.{compare_trans, flip}
use astro_cli.Versions.Latest.Greatest.{get_astro_runtime_tag-Greatest, Greatest, names}
use astro_cli.Versions.Latest.{
  TagError, is_available, get_astro_runtime_tag, matches, Release, is_greater,
  pick_latest_matching_runtime_version,
}
use astro_cli.Prelude.{
  err, ◌&&◌, ◌++◌, leb, eqb, ◌-◌, ok, ◌⊎◌, arith, ◌*◌, refl, ◌∷◌, [], false, ltb, codes, Bool, ◌≡◌,
  if◌then◌else◌, ◌+◌, String, true, ℕ, List,
}
use astro_cli.Versions.{
  equal, greater, strip_version_prefix, less, is_new_format, parse_new_format,
  is_valid_runtime_version, normalize_version, compare_runtime_versions, Semver, Comparison,
}

-- The numbers of a version as one, where each has at most three digits; a prerelease is passed
-- over.
abbrev weight_from : List ℕ → ℕ → ℕ → ℕ
weight_from [] total current = total + current
weight_from (c ∷ s) total current =
    let next = weight_from s ((total + current) * 1000) 0 in
    let digit = weight_from s total (current * 10 + (c - b'0')) in
    let same = weight_from s total current in
    if eqb c b'.' then next else if leb b'0' c && leb c b'9' then digit else same

abbrev compare_numbers : ℕ → ℕ → Comparison
compare_numbers m n = if ltb m n then less else if ltb n m then greater else equal

abbrev semver : Semver
semver = record {
  is_valid = λ v. true;
  compare = λ v w. compare_numbers (weight_from v 0 0) (weight_from w 0 0);
  major = λ v. v;
}

compare_numbers-flip : (m n : ℕ) → compare_numbers n m ≡ flip (compare_numbers m n)
compare_numbers-flip m n = ground arith

compare_numbers_trans :
    (l m n : ℕ)
    → is_greater (compare_numbers l m) ≡ false
    → is_greater (compare_numbers m n) ≡ false
    → is_greater (compare_numbers l n) ≡ false
compare_numbers_trans l m n = ground arith

semver_flip : (v w : List ℕ) → semver.compare w v ≡ flip (semver.compare v w)
semver_flip v w = compare_numbers-flip (weight_from v 0 0) (weight_from w 0 0)

semver_trans :
    (u v w : List ℕ)
    → is_greater (semver.compare u v) ≡ false
    → is_greater (semver.compare v w) ≡ false
    → is_greater (semver.compare u w) ≡ false
semver_trans u v w =
    compare_numbers_trans (weight_from u 0 0) (weight_from v 0 0) (weight_from w 0 0)

-- A version of the new format is newer than every one of the old.
new_is_newer : compare_runtime_versions semver (codes "3.0-7") (codes "12.5.0") ≡ greater
unfolding compare_runtime_versions is_valid_runtime_version is_new_format parse_new_format
    strip_version_prefix normalize_version
new_is_newer = refl

normalized : normalize_version (codes "3.1-12.beta1") ≡ codes "3.1.12-beta1"
unfolding normalize_version parse_new_format
normalized = refl

abbrev release : String → Bool → Release
release version yanked = (
  codes version,
  record { airflow_version = codes "3.1.0"; channel = codes "stable"; yanked = yanked },
)

abbrev releases : List Release
releases =
    release "3.1-9" false
    ∷ release "3.1-12" false
    ∷ release "3.1-13" true
    ∷ release "3.2-1" false
    ∷ []

picked : pick_latest_matching_runtime_version semver (codes "3.1") releases ≡ codes "3.1-12"
unfolding pick_latest_matching_runtime_version compare_runtime_versions is_valid_runtime_version
    is_new_format parse_new_format strip_version_prefix normalize_version
picked = refl

compare_trans_example :
    is_greater (compare_runtime_versions semver (codes "2.1.1") (codes "3.0-7")) ≡ false
unfolding compare_runtime_versions is_valid_runtime_version is_new_format parse_new_format
    strip_version_prefix normalize_version
compare_trans_example =
    compare_trans semver semver_trans (codes "2.1.1") (codes "12.5.0") (codes "3.0-7") refl refl

pick_latest_matching_runtime_version-Greatest_example :
    ((names (matches (codes "3.1")) releases ≡ [])
      × (pick_latest_matching_runtime_version semver (codes "3.1") releases ≡ []))
    ⊎ Greatest semver
        (names (matches (codes "3.1")) releases)
        (pick_latest_matching_runtime_version semver (codes "3.1") releases)
pick_latest_matching_runtime_version-Greatest_example =
    pick_latest_matching_runtime_version-Greatest semver semver_flip semver_trans (codes "3.1")
      releases

get_astro_runtime_tag-Greatest_example :
    ((tag : List ℕ)
      → get_astro_runtime_tag semver [] releases [] ≡ ok tag
      → Greatest semver (names (is_available []) [] ++ names (is_available []) releases) tag)
    × ((e : TagError)
        → get_astro_runtime_tag semver [] releases [] ≡ err e
        → names (is_available []) [] ++ names (is_available []) releases ≡ [])
get_astro_runtime_tag-Greatest_example =
    get_astro_runtime_tag-Greatest semver semver_flip semver_trans [] releases []
