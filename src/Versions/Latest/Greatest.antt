-- ===== src/Versions/Latest/Greatest.antt =====
-- The version that is picked is one of the list, and none of the list is greater.
use mathlib.Core.Path.{subst}
use astro_cli.Versions.Order.{compare_flip, compare_trans, flip}
use astro_cli.Versions.Latest.{
  latest_or_error, TagError, is_available, get_astro_runtime_tag, is_greater, latest_of, Release,
}
use astro_cli.Prelude.{
  sym, err, ok, ◌++◌, refl, true, arith, inr, [], Bool-cases, false, inl, keep, ◌⊎◌, ◌≡◌, ◌∷◌, map,
  All, Bool, ℕ, List,
}
use astro_cli.Versions.{compare_runtime_versions, Semver}

-- One of a list.
abbrev pub Among : List ℕ → List (List ℕ) → Type 0
Among v [] = ⊥
Among v (x ∷ xs) = (v ≡ x) ⊎ Among v xs

-- Not greater than the version `w`.
abbrev pub Upto : Semver → List ℕ → List ℕ → Type 0
Upto s w v = is_greater (compare_runtime_versions s v w) ≡ false

-- A version of a list that none of the list is greater than.
abbrev pub Greatest : Semver → List (List ℕ) → List ℕ → Type 0
Greatest s vs w = Among w vs × All (Upto s w) vs

-- The names of the releases that a test admits.
abbrev pub names : (Release → Bool) → List Release → List (List ℕ)
names test releases = map (λ (r : Release). r.0) (keep test releases)

pub latest_of-newer :
    (s : Semver) (v : List ℕ) (vs : List (List ℕ)) (latest : List ℕ)
    → is_greater (compare_runtime_versions s v latest) ≡ true
    → latest_of s (v ∷ vs) latest ≡ latest_of s vs v
unfolding latest_of
latest_of-newer s v vs latest h = rw h refl

pub latest_of-upto :
    (s : Semver) (v : List ℕ) (vs : List (List ℕ)) (latest : List ℕ)
    → is_greater (compare_runtime_versions s v latest) ≡ false
    → latest_of s (v ∷ vs) latest ≡ latest_of s vs latest
unfolding latest_of
latest_of-upto s v vs latest h = rw h refl

pub latest_of-nil : (s : Semver) (latest : List ℕ) → latest_of s [] latest ≡ latest
unfolding latest_of
latest_of-nil s latest = refl

pub latest_of-Among :
    (s : Semver) (vs : List (List ℕ)) (latest : List ℕ)
    → Among (latest_of s vs latest) (latest ∷ vs)
latest_of-Among s [] latest = inl (latest_of-nil s latest)
latest_of-Among s (v ∷ vs) latest =
    let Whole : List ℕ → Type 0 = (λ t. Among t (latest ∷ v ∷ vs)) in
    elim (Bool-cases (is_greater (compare_runtime_versions s v latest))) [
      | inl newer ↦
          subst Whole (sym (latest_of-newer s v vs latest newer)) (inr (latest_of-Among s vs v))
      | inr upto ↦
          subst Whole (sym (latest_of-upto s v vs latest upto))
            (skip_second (latest_of s vs latest) (latest_of-Among s vs latest))
    ]
  where
    skip_second : (w : List ℕ) → Among w (latest ∷ vs) → Among w (latest ∷ v ∷ vs)
    skip_second w (inl e) = inl e
    skip_second w (inr among) = inr (inr among)

module _ (s : Semver) (semver_flip : (v w : List ℕ) → s.compare w v ≡ flip (s.compare v w))
    (semver_trans : (u v w : List ℕ)
      → is_greater (s.compare u v) ≡ false
      → is_greater (s.compare v w) ≡ false
      → is_greater (s.compare u w) ≡ false) where
  Upto-self : (v : List ℕ) → Upto s v v
  Upto-self v = ground (arith, compare_flip s semver_flip v v)

  Upto-flip : (v w : List ℕ) → is_greater (compare_runtime_versions s v w) ≡ true → Upto s v w
  Upto-flip v w h = ground (arith, compare_flip s semver_flip v w)

  pub latest_of-Upto :
      (vs : List (List ℕ)) (latest : List ℕ)
      → Upto s (latest_of s vs latest) latest × All (Upto s (latest_of s vs latest)) vs
  latest_of-Upto [] latest = (rw (latest_of-nil s latest) (Upto-self latest), tt)
  latest_of-Upto (v ∷ vs) latest =
      let Whole : List ℕ → Type 0 = (λ t. Upto s t latest × All (Upto s t) (v ∷ vs)) in
      elim (Bool-cases (is_greater (compare_runtime_versions s v latest))) [
        | inl newer ↦
            let (first, rest) = latest_of-Upto vs v in
            subst Whole (sym (latest_of-newer s v vs latest newer)) (
              compare_trans s semver_trans latest v (latest_of s vs v) (Upto-flip v latest newer)
                  first,
              (first, rest),
            )
        | inr upto ↦
            let (first, rest) = latest_of-Upto vs latest in
            subst Whole (sym (latest_of-upto s v vs latest upto)) (
              first,
              (compare_trans s semver_trans v latest (latest_of s vs latest) upto first, rest),
            )
      ]

  latest_of-Greatest :
      (v : List ℕ) (vs : List (List ℕ)) → Greatest s (v ∷ vs) (latest_of s (v ∷ vs) v)
  latest_of-Greatest v vs =
      let (first, rest) = latest_of-Upto vs v in
      subst (Greatest s (v ∷ vs)) (sym (latest_of-upto s v vs v (Upto-self v)))
        (latest_of-Among s vs v, (first, rest))

  latest_or_error-Greatest :
      (airflow_version : List ℕ) (candidates : List (List ℕ))
      → ((tag : List ℕ)
          → latest_or_error s airflow_version candidates ≡ ok tag
          → Greatest s candidates tag)
        × ((e : TagError) → latest_or_error s airflow_version candidates ≡ err e → candidates ≡ [])
  latest_or_error-Greatest airflow_version [] = (λ tag h. absurd (ground arith), λ e h. refl)
  latest_or_error-Greatest airflow_version (v ∷ vs) = (
    λ tag h.
        let same : latest_of s (v ∷ vs) v ≡ tag = cc in
        subst (Greatest s (v ∷ vs)) same (latest_of-Greatest v vs),
    λ e h. absurd (cc),
  )

  -- With a semver whose comparison is reversed by exchanging its arguments and is transitive,
  -- getAstroRuntimeTag returns only an available version of either map, of which no available one
  -- is greater, and fails only when none is available.
  pub get_astro_runtime_tag-Greatest :
      (v2 v3 : List Release) (airflow_version : List ℕ)
      → let candidates =
          names (is_available airflow_version) v2 ++ names (is_available airflow_version) v3 in
        ((tag : List ℕ)
          → get_astro_runtime_tag s v2 v3 airflow_version ≡ ok tag
          → Greatest s candidates tag)
        × ((e : TagError) → get_astro_runtime_tag s v2 v3 airflow_version ≡ err e → candidates ≡ [])
  unfolding get_astro_runtime_tag
  get_astro_runtime_tag-Greatest v2 v3 airflow_version =
      latest_or_error-Greatest airflow_version
        (names (is_available airflow_version) v2 ++ names (is_available airflow_version) v3)
