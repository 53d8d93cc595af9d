-- ===== src/Env/Links/Kept.antt =====
-- echoPreservedFields: an update that says nothing of links leaves them.
use astro_cli.Env.Links.Upsert.{find-merged, find_by-links_to, merged_override}
use mathlib.Core.Option
use astro_cli.Env.Links.Patch.{build_existing_excludes-same, patched_excludes, patched_links}
use astro_cli.Env.Links.{
  links_to, to_update_link, or_else, echo_preserved_fields, deref_slice, build_update_links,
  build_existing_excludes,
}
use astro_cli.Env.{Link, ExcludeLink, EnvironmentObject, UpdateBody}
use astro_cli.Prelude.{
  [], arith, ◌∷◌, eq_iff, refl, find_by, some, Option, ap, ◌∙◌, none, map, String, ◌≡◌, List,
}

find-to_update_link :
    (j : String) (links : List Link)
    → find_by (links_to j) (map to_update_link links)
      ≡ Option.map to_update_link (find_by (links_to j) links)
unfolding to_update_link
find-to_update_link j [] = refl
find-to_update_link j (l ∷ ls) = ground (arith, find-to_update_link j ls)

or_else_same : (o : Option String) → or_else o o ≡ o
or_else_same none = refl
or_else_same (some s) = refl

-- A link that is sent without some of its overrides gets them back.
merged-to_update_link :
    (old : List Link) (l : Link)
    → find_by (links_to l.scope_entity_id) old ≡ some l
    → merged_override old (to_update_link l) ≡ l
unfolding to_update_link
merged-to_update_link old l e = rw e (
    ap (λ o. record l { environment_variable_override = o })
      (or_else_same l.environment_variable_override))

same_links :
    (links : Option (List Link)) (j : String)
    → find_by (links_to j) (map (merged_override (deref_slice links)) (build_update_links links))
      ≡ find_by (links_to j) (deref_slice links)
unfolding build_update_links
same_links links j =
    let old = deref_slice links in
    find-merged old j (map to_update_link old)
    ∙ ap (Option.map (merged_override old)) (find-to_update_link j old)
    ∙ restored old (find_by (links_to j) old) refl
  where
    restored :
        (old : List Link) (o : Option Link)
        → find_by (links_to j) old ≡ o
        → Option.map (merged_override old) (Option.map to_update_link o) ≡ o
    restored old none e = refl
    restored old (some l) e =
        let same : l.scope_entity_id ≡ j =
          (eq_iff l.scope_entity_id j).0 (find_by-links_to j old l e) in
        ap some
          (merged-to_update_link old l (ap (λ (k : String). find_by (links_to k) old) same ∙ e))

-- After the update every deployment has the link that it had, with the overrides of every kind, and
-- the excluded deployments are the same.
abbrev pub LinksKept :
    (UpdateBody → EnvironmentObject → EnvironmentObject) → UpdateBody → EnvironmentObject → Type 0
LinksKept apply body current =
    ((j : String)
      → find_by (links_to j) (deref_slice (apply body current).links)
        ≡ find_by (links_to j) (deref_slice current.links))
    × (deref_slice (apply body current).exclude_links ≡ deref_slice current.exclude_links)

module _ (apply : UpdateBody → EnvironmentObject → EnvironmentObject)
    (apply_links : (body : UpdateBody) (current : EnvironmentObject)
      → deref_slice (apply body current).links ≡ patched_links body current)
    (apply_excludes : (body : UpdateBody) (current : EnvironmentObject)
      → deref_slice (apply body current).exclude_links ≡ patched_excludes body) where
  pub echo-LinksKept :
      (base : UpdateBody) (current : EnvironmentObject)
      → base.links ≡ none
      → base.exclude_links ≡ none
      → LinksKept apply (echo_preserved_fields base current) current
  unfolding echo_preserved_fields
  echo-LinksKept base current no_links no_excludes =
      let old = deref_slice current.links in
      let body = echo_preserved_fields base current in
      (
        (λ j.
            ap (find_by (links_to j)) (
              apply_links body current
              ∙ ap
                  (λ (l : Option (List Link)).
                    map (merged_override old)
                      (deref_slice (or_else l (some (build_update_links current.links)))))
                  no_links)
            ∙ same_links current.links j),
        apply_excludes body current
            ∙ ap
                (λ (l : Option (List ExcludeLink)).
                  deref_slice (or_else l (some (build_existing_excludes current.exclude_links))))
                no_excludes
            ∙ build_existing_excludes-same current.exclude_links,
      )
