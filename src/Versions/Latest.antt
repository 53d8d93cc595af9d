-- ===== src/Versions/Latest.antt =====
-- airflow_versions.go: the newest version of a list of releases. The order in which Go visits a map
-- is that of the list, which is any.
pub mod Greatest
pub mod Pick
use astro_cli.Prelude.{
  is_prefix, ok, ◌++◌, err, keep, ◌||◌, codes, length, ◌&&◌, ◌∷◌, Result, map, [], if◌then◌else◌,
  eq_codes, not, false, eqb, true, ℕ, Bool, List,
}
use astro_cli.Versions.{equal, less, greater, compare_runtime_versions, Semver, Comparison}

-- RuntimeVersionMetadata, with the fields that are read.
pub record RuntimeVersionMetadata : Type 0 where
  pub airflow_version : List ℕ
  pub channel : List ℕ
  pub yanked : Bool

abbrev pub Release : Type 0
Release = List ℕ × RuntimeVersionMetadata

abbrev is_empty : List ℕ → Bool
is_empty s = eqb (length s) 0

abbrev pub is_greater : Comparison → Bool
is_greater greater = true
is_greater less = false
is_greater equal = false

-- The guards of the loop of pickLatestMatchingRuntimeVersion.
abbrev pub matches : List ℕ → Release → Bool
matches floating_tag (version, metadata) =
    not metadata.yanked
    && (is_prefix (floating_tag ++ b'-' ∷ []) version
        || is_prefix (floating_tag ++ b'.' ∷ []) version)

-- The guards of the loops of getAstroRuntimeTag; an empty version of Airflow admits every one.
abbrev pub is_available : List ℕ → Release → Bool
is_available airflow_version (version, metadata) =
    eq_codes metadata.channel (codes "stable")
    && not metadata.yanked
    && (is_empty airflow_version || eq_codes metadata.airflow_version airflow_version)

pub data TagError : Type 0 where
  no_tag_available : List ℕ → TagError
  no_runtime_versions : TagError

module _ (s : Semver) where
  -- `""` is the latest of no version.
  abbrev pub later : List ℕ → List ℕ → List ℕ
  later latest version =
      if is_empty latest || is_greater (compare_runtime_versions s version latest)
      then version
      else latest

  pick_from : List ℕ → List Release → List ℕ → List ℕ
  pick_from floating_tag [] latest = latest
  pick_from floating_tag (r ∷ rs) latest =
      pick_from floating_tag rs (if matches floating_tag r then later latest (r.0) else latest)

  unfoldable pub pick_latest_matching_runtime_version : List ℕ → List Release → List ℕ
  unfolding pick_from
  pick_latest_matching_runtime_version floating_tag releases = pick_from floating_tag releases []

  -- The loop of getAstroRuntimeTag over the available versions.
  unfoldable pub latest_of : List (List ℕ) → List ℕ → List ℕ
  latest_of [] latest = latest
  latest_of (v ∷ vs) latest =
      latest_of vs (if is_greater (compare_runtime_versions s v latest) then v else latest)

  abbrev pub available : List ℕ → List Release → List (List ℕ)
  available airflow_version releases =
      map (λ (r : Release). r.0) (keep (is_available airflow_version) releases)

  abbrev pub latest_or_error : List ℕ → List (List ℕ) → Result TagError (List ℕ)
  latest_or_error airflow_version [] =
      if is_empty airflow_version
      then err no_runtime_versions
      else err (no_tag_available airflow_version)
  latest_or_error airflow_version (v ∷ vs) = ok (latest_of (v ∷ vs) v)

  unfoldable pub get_astro_runtime_tag :
      List Release → List Release → List ℕ → Result TagError (List ℕ)
  get_astro_runtime_tag runtime_versions runtime_versions_v3 airflow_version =
      latest_or_error airflow_version (
        available airflow_version runtime_versions ++ available airflow_version runtime_versions_v3)
