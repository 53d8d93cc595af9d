-- ===== src/Versions/Order.antt =====
-- CompareRuntimeVersions orders all texts.
use astro_cli.Versions.Latest.{is_greater}
use astro_cli.Prelude.{◌∷◌, arith, ◌≡◌, false, ℕ, List}
use astro_cli.Versions.{
  strip_version_prefix, normalize_version, compare_runtime_versions, equal, less, greater, Semver,
  Comparison,
}

abbrev pub flip : Comparison → Comparison
flip less = greater
flip equal = equal
flip greater = less

module _ (s : Semver) (semver_flip : (v w : List ℕ) → s.compare w v ≡ flip (s.compare v w)) where
  -- If semver's comparison is reversed by exchanging its arguments, so is CompareRuntimeVersions.
  pub compare_flip :
      (v w : List ℕ) → compare_runtime_versions s w v ≡ flip (compare_runtime_versions s v w)
  unfolding compare_runtime_versions
  compare_flip v w = ground (
    arith,
    semver_flip (b'v' ∷ normalize_version (strip_version_prefix v))
        (b'v' ∷ normalize_version (strip_version_prefix w)),
  )

module _ (s : Semver)
    (semver_trans : (u v w : List ℕ)
      → is_greater (s.compare u v) ≡ false
      → is_greater (s.compare v w) ≡ false
      → is_greater (s.compare u w) ≡ false) where
  -- If semver's comparison is transitive, then a version that CompareRuntimeVersions does not find
  -- greater than another is not greater than one that the other is not greater
  -- than.
  pub compare_trans :
      (u v w : List ℕ)
      → is_greater (compare_runtime_versions s u v) ≡ false
      → is_greater (compare_runtime_versions s v w) ≡ false
      → is_greater (compare_runtime_versions s u w) ≡ false
  unfolding compare_runtime_versions
  compare_trans u v w h k =
      let nu = b'v' ∷ normalize_version (strip_version_prefix u) in
      let nv = b'v' ∷ normalize_version (strip_version_prefix v) in
      let nw = b'v' ∷ normalize_version (strip_version_prefix w) in
      ground (arith, semver_trans nu nv nw)
