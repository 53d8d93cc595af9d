-- ===== src/Env/Links/Patch.antt =====
-- What an update leaves of the links, on a platform that replaces each list that an update holds,
-- empties each list that it leaves out, and keeps the override of an entry that names none.
use astro_cli.Env.Links.Upsert.{
  find-upserted, override-merged, override_of, joined, merged_override,
}
use astro_cli.Prelude.{
  arith, not, keep, eq_iff, inr, inl, Bool-cases, [], ◌==◌, ap, refl, ◌∷◌, if◌then◌else◌, some,
  none, map, ◌≡◌, List, Option, String,
}
use mathlib.Core.Option
use astro_cli.Env.{Link, ExcludeLink, EnvironmentObject, UpdateBody}
use astro_cli.Env.Links.{
  links_to, build_update_links_excluding, deref_slice, upsert_link_in_update_list,
  build_existing_excludes, echo_preserved_fields, patch_body, or_else, to_update_link,
  to_exclude_request,
}

-- The documented update of the platform.
abbrev pub patched_links : UpdateBody → EnvironmentObject → List Link
patched_links body current =
    map (merged_override (deref_slice current.links)) (deref_slice body.links)

abbrev pub patched_excludes : UpdateBody → List ExcludeLink
patched_excludes body = deref_slice body.exclude_links

pub build_existing_excludes-same :
    (es : Option (List ExcludeLink)) → build_existing_excludes es ≡ deref_slice es
unfolding build_existing_excludes to_exclude_request
build_existing_excludes-same none = refl
build_existing_excludes-same (some es) = go es
  where
    go : (xs : List ExcludeLink) → map to_exclude_request xs ≡ xs
    go [] = refl
    go (x ∷ xs) = ap (λ t. x ∷ t) (go xs)

-- An override that is given is the link's after the update; one that is not given is what it was.
abbrev pub new_override : Option String → Option (Option String) → Option String
new_override override old = or_else override (joined old)

find-excluding :
    (dep j : String) (links : List Link)
    → override_of j (map to_update_link (keep (λ l. not (links_to dep l)) links))
      ≡ (if dep == j then none else override_of j links)
unfolding to_update_link
find-excluding dep j [] = elim (Bool-cases (dep == j)) [ inl e ↦ rw e refl | inr e ↦ rw e refl ]
find-excluding dep j (l ∷ ls) = ground (
  arith,
  find-excluding dep j ls,
  eq_iff l.scope_entity_id j,
  eq_iff l.scope_entity_id dep,
  eq_iff dep j,
)

-- An override that is what it was before is merged to itself.
pub keeps_old :
    (x : Option (Option String)) → Option.map (λ (o : Option String). or_else o (joined x)) x ≡ x
keeps_old none = refl
keeps_old (some none) = refl
keeps_old (some (some o)) = refl

-- The caller's `apply` is the platform's update, which replaces the links as documented.
module _ (apply : UpdateBody → EnvironmentObject → EnvironmentObject)
    (apply_links : (body : UpdateBody) (current : EnvironmentObject)
      → deref_slice (apply body current).links ≡ patched_links body current) where
  -- After LinkVar's update the deployment is linked with the override given, or with the one it had
  -- if none is given; every other deployment keeps its link and its override of an environment
  -- variable.
  pub link_patch :
      (current : EnvironmentObject) (dep : String) (override : Option String) (j : String)
      → override_of j (
          deref_slice
            (apply
              (patch_body current
                (some (upsert_link_in_update_list current.links dep override))
                none)
              current).links)
        ≡ (if dep == j
            then some (new_override override (override_of dep (deref_slice current.links)))
            else override_of j (deref_slice current.links))
  unfolding patch_body echo_preserved_fields
  link_patch current dep override j =
      let old = deref_slice current.links in
      rw
        (
          apply_links
              (patch_body current (some (upsert_link_in_update_list current.links dep override))
                none)
              current,
          override-merged old (upsert_link_in_update_list current.links dep override) j,
          find-upserted current.links dep j override,
        )
        (elim (Bool-cases (dep == j)) [
          | inl same ↦ rw (same, (eq_iff dep j).0 same) refl
          | inr ne ↦ rw ne (keeps_old (override_of j old))
        ])

  -- After UnlinkVar's update the deployment has no link, and every other has the link it had.
  pub unlink_patch :
      (current : EnvironmentObject) (dep j : String)
      → override_of j (
          deref_slice
            (apply
              (patch_body current (some (build_update_links_excluding current.links dep)) none)
              current).links)
        ≡ (if dep == j then none else override_of j (deref_slice current.links))
  unfolding patch_body echo_preserved_fields build_update_links_excluding
  unlink_patch current dep j =
      let old = deref_slice current.links in
      rw
        (
          apply_links
              (patch_body current (some (build_update_links_excluding current.links dep)) none)
              current,
          override-merged old (build_update_links_excluding current.links dep) j,
          find-excluding dep j old,
        )
        (elim (Bool-cases (dep == j)) [
          | inl same ↦ rw same refl
          | inr ne ↦ rw ne (keeps_old (override_of j old))
        ])
