-- ===== src/Versions/Latest/Pick.antt =====
-- pickLatestMatchingRuntimeVersion picks a greatest of the versions that match.
use astro_cli.Versions.Order.{flip}
use astro_cli.Versions.Latest.Greatest.{
  latest_of-Upto, latest_of-upto, latest_of-Among, latest_of-newer, Greatest, latest_of-nil, names,
}
use astro_cli.Versions.Latest.{
  pick_latest_matching_runtime_version, is_greater, later, is_empty, matches, Release, is_prefix,
  pick_from, latest_of,
}
use astro_cli.Prelude.{
  ◌⊎◌, ap, sym, ◌∙◌, Bool, inr, inl, Bool-cases, refl, arith, false, true, ◌≡◌, [], ◌++◌, ◌∷◌, ℕ,
  List,
}
use astro_cli.Versions.{compare_runtime_versions, Semver}

-- A text that starts with another and one character more is not empty.
prefix-nonempty :
    (tag : List ℕ) (c : ℕ) (version : List ℕ)
    → is_prefix (tag ++ c ∷ []) version ≡ true
    → is_empty version ≡ false
prefix-nonempty [] c [] h = absurd (cc)
prefix-nonempty (d ∷ tag) c [] h = absurd (cc)
prefix-nonempty tag c (d ∷ version) h = ground arith

matches-nonempty : (tag : List ℕ) (r : Release) → matches tag r ≡ true → is_empty (r.0) ≡ false
matches-nonempty tag (version, metadata) h =
    ground (arith, prefix-nonempty tag b'-' version, prefix-nonempty tag b'.' version)

pick_from-nil : (s : Semver) (tag latest : List ℕ) → pick_from s tag [] latest ≡ latest
unfolding pick_from
pick_from-nil s tag latest = refl

pick_from-skip :
    (s : Semver) (tag : List ℕ) (r : Release) (rs : List Release) (latest : List ℕ)
    → matches tag r ≡ false
    → pick_from s tag (r ∷ rs) latest ≡ pick_from s tag rs latest
unfolding pick_from
pick_from-skip s tag r rs latest h = rw h refl

pick_from-match :
    (s : Semver) (tag : List ℕ) (r : Release) (rs : List Release) (latest : List ℕ)
    → matches tag r ≡ true
    → pick_from s tag (r ∷ rs) latest ≡ pick_from s tag rs (later s latest (r.0))
unfolding pick_from
pick_from-match s tag r rs latest h = rw h refl

names-cons :
    (test : Release → Bool) (r : Release) (rs : List Release)
    → test r ≡ true
    → names test (r ∷ rs) ≡ r.0 ∷ names test rs
names-cons test r rs h = rw h refl

names-skip :
    (test : Release → Bool) (r : Release) (rs : List Release)
    → test r ≡ false
    → names test (r ∷ rs) ≡ names test rs
names-skip test r rs h = rw h refl

pick_from-latest_of :
    (s : Semver) (tag : List ℕ) (rs : List Release) (latest : List ℕ)
    → is_empty latest ≡ false
    → pick_from s tag rs latest ≡ latest_of s (names (matches tag) rs) latest
pick_from-latest_of s tag [] latest full = pick_from-nil s tag latest ∙ sym (latest_of-nil s latest)
pick_from-latest_of s tag (r ∷ rs) latest full = elim (Bool-cases (matches tag r)) [
  | inr out ↦
      pick_from-skip s tag r rs latest out
      ∙ pick_from-latest_of s tag rs latest full
      ∙ sym (ap (λ vs. latest_of s vs latest) (names-skip (matches tag) r rs out))
  | inl match_found ↦
      let compared = Bool-cases (is_greater (compare_runtime_versions s (r.0) latest)) in
      pick_from-match s tag r rs latest match_found
      ∙ elim compared [
        | inl newer ↦
            rw (full, newer)
              (pick_from-latest_of s tag rs (r.0) (matches-nonempty tag r match_found)
                ∙ sym (latest_of-newer s (r.0) (names (matches tag) rs) latest newer))
        | inr upto ↦
            rw (full, upto)
              (pick_from-latest_of s tag rs latest full
                ∙ sym (latest_of-upto s (r.0) (names (matches tag) rs) latest upto))
      ]
      ∙ sym (ap (λ vs. latest_of s vs latest) (names-cons (matches tag) r rs match_found))
]

-- The latest of the versions, or the empty text if there is none.
abbrev pub latest_or_empty : Semver → List (List ℕ) → List ℕ
latest_or_empty s [] = []
latest_or_empty s (v ∷ vs) = latest_of s vs v

pick_from-empty :
    (s : Semver) (tag : List ℕ) (rs : List Release)
    → pick_from s tag rs [] ≡ latest_or_empty s (names (matches tag) rs)
pick_from-empty s tag [] = pick_from-nil s tag []
pick_from-empty s tag (r ∷ rs) = elim (Bool-cases (matches tag r)) [
  | inr out ↦
      pick_from-skip s tag r rs [] out
      ∙ pick_from-empty s tag rs
      ∙ sym (ap (latest_or_empty s) (names-skip (matches tag) r rs out))
  | inl match_found ↦
      pick_from-match s tag r rs [] match_found
      ∙ pick_from-latest_of s tag rs (r.0) (matches-nonempty tag r match_found)
      ∙ sym (ap (latest_or_empty s) (names-cons (matches tag) r rs match_found))
]

module _ (s : Semver) (semver_flip : (v w : List ℕ) → s.compare w v ≡ flip (s.compare v w))
    (semver_trans : (u v w : List ℕ)
      → is_greater (s.compare u v) ≡ false
      → is_greater (s.compare v w) ≡ false
      → is_greater (s.compare u w) ≡ false) where
  latest_or_empty-Greatest :
      (vs : List (List ℕ))
      → ((vs ≡ []) × (latest_or_empty s vs ≡ [])) ⊎ Greatest s vs (latest_or_empty s vs)
  latest_or_empty-Greatest [] = inl (refl, refl)
  latest_or_empty-Greatest (v ∷ vs) =
      inr (latest_of-Among s vs v, latest_of-Upto s semver_flip semver_trans vs v)

  -- With a semver whose comparison is reversed by exchanging its arguments and is transitive,
  -- pickLatestMatchingRuntimeVersion returns a version that matches, of which none that matches is
  -- greater, or the empty text if none matches.
  pub pick_latest_matching_runtime_version-Greatest :
      (tag : List ℕ) (releases : List Release)
      → let candidates = names (matches tag) releases in
        let latest = pick_latest_matching_runtime_version s tag releases in
        ((candidates ≡ []) × (latest ≡ [])) ⊎ Greatest s candidates latest
  unfolding pick_latest_matching_runtime_version
  pick_latest_matching_runtime_version-Greatest tag releases =
      rw (pick_from-empty s tag releases) (latest_or_empty-Greatest (names (matches tag) releases))
