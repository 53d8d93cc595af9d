-- ===== src/Env/Excludes/Keep.antt =====
-- A variable stays disjoint, on a platform that updates and excludes as documented.
use astro_cli.Env.Excludes.{unexclude_request}
use astro_cli.Env.Links.Sends.{unlink_request-ok, link_request-ok}
use astro_cli.Env.Excludes.Disjoint.{
  unexclude_request-ok, unexclude, exclude_request-ok, exclude, unlink, link, excludes-excluding,
  request_of, contains-build_update_links, contains-excluding, LinkCommand, contains-upserted,
  contains-merged, IsDisjoint, is_linked_to, is_excluded_from,
}
use astro_cli.Env.Links.Patch.{build_existing_excludes-same, patched_excludes, patched_links}
use astro_cli.Env.Links.{
  unlink_request, link_request, resolve_workspace_var, link_exists, build_update_excludes_excluding,
  build_update_links_excluding, upsert_link_in_update_list, exclude_exists, echo_preserved_fields,
  excludes, links_to, patch_body, deref_slice,
}
use astro_cli.Prelude.{
  bind-ok, refl, inr, eq_iff, inl, ok, arith, Bool-cases, none, some, false, Option, ◌∙◌, ap,
  contains_by, ◌||◌, ◌==◌, ◌≡◌, String,
}
use astro_cli.Env.{
  delete_call, create_call, exclude_call, update_call, EnvironmentObject, UpdateBody, Call,
  Platform, Scope,
}

-- What a call does to the variable; only these two calls are made.
abbrev pub effect :
    (UpdateBody → EnvironmentObject → EnvironmentObject)
    → (String → EnvironmentObject → EnvironmentObject)
    → Call
    → EnvironmentObject
    → EnvironmentObject
effect apply add (update_call id body) current = apply body current
effect apply add (exclude_call id dep) current = add dep current
effect apply add (create_call body) current = current
effect apply add (delete_call id) current = current

module _ (apply : UpdateBody → EnvironmentObject → EnvironmentObject)
    (apply_links : (body : UpdateBody) (current : EnvironmentObject)
      → deref_slice (apply body current).links ≡ patched_links body current)
    (apply_excludes : (body : UpdateBody) (current : EnvironmentObject)
      → deref_slice (apply body current).exclude_links ≡ patched_excludes body)
    (add : String → EnvironmentObject → EnvironmentObject)
    (add_links : (dep : String) (current : EnvironmentObject)
      → deref_slice (add dep current).links ≡ deref_slice current.links)
    (add_excludes : (dep j : String) (current : EnvironmentObject)
      → is_excluded_from (add dep current) j ≡ (dep == j || is_excluded_from current j)) where
  linked_after :
      (current : EnvironmentObject) (body : UpdateBody) (j : String)
      → is_linked_to (apply body current) j ≡ contains_by (links_to j) (deref_slice body.links)
  linked_after current body j =
      ap (contains_by (links_to j)) (apply_links body current)
      ∙ contains-merged (deref_slice current.links) j (deref_slice body.links)

  excluded_after :
      (current : EnvironmentObject) (body : UpdateBody) (j : String)
      → is_excluded_from (apply body current) j
        ≡ contains_by (excludes j) (deref_slice body.exclude_links)
  excluded_after current body j = ap (contains_by (excludes j)) (apply_excludes body current)

  link-IsDisjoint :
      (current : EnvironmentObject) (dep : String) (override : Option String)
      → exclude_exists current.exclude_links dep ≡ false
      → IsDisjoint current
      → IsDisjoint (
          apply
            (patch_body current (some (upsert_link_in_update_list current.links dep override)) none)
            current)
  unfolding patch_body echo_preserved_fields exclude_exists
  link-IsDisjoint current dep override included disjoint j =
      let body =
        patch_body current (some (upsert_link_in_update_list current.links dep override)) none in
      rw
        (
          linked_after current body j,
          excluded_after current body j,
          contains-upserted current.links dep j override,
          build_existing_excludes-same current.exclude_links,
        )
        (elim (Bool-cases (dep == j)) [
          | inl same ↦ rw (same, not_excluded j ((eq_iff dep j).0 same)) refl
          | inr ne ↦ rw ne (disjoint j)
        ])
    where
      not_excluded : (k : String) → dep ≡ k → is_excluded_from current k ≡ false
      not_excluded k same = rw same at included

  unlink-IsDisjoint :
      (current : EnvironmentObject) (dep : String)
      → IsDisjoint current
      → IsDisjoint (
          apply
            (patch_body current (some (build_update_links_excluding current.links dep)) none)
            current)
  unfolding patch_body echo_preserved_fields build_update_links_excluding
  unlink-IsDisjoint current dep disjoint j =
      let body = patch_body current (some (build_update_links_excluding current.links dep)) none in
      rw
        (
          linked_after current body j,
          excluded_after current body j,
          contains-excluding dep j (deref_slice current.links),
          build_existing_excludes-same current.exclude_links,
        )
        (ground (arith, disjoint j))

  unexclude-IsDisjoint :
      (current : EnvironmentObject) (dep : String)
      → IsDisjoint current
      → IsDisjoint (
          apply
            (patch_body current none
              (some (build_update_excludes_excluding current.exclude_links dep)))
            current)
  unfolding patch_body echo_preserved_fields build_update_excludes_excluding
  unexclude-IsDisjoint current dep disjoint j =
      let body =
        patch_body current none
          (some (build_update_excludes_excluding current.exclude_links dep)) in
      rw
        (
          linked_after current body j,
          excluded_after current body j,
          contains-build_update_links j current.links,
          excludes-excluding dep j (deref_slice current.exclude_links),
        )
        (ground (arith, disjoint j))

  exclude-IsDisjoint :
      (current : EnvironmentObject) (dep : String)
      → link_exists current.links dep ≡ false
      → IsDisjoint current
      → IsDisjoint (add dep current)
  unfolding link_exists
  exclude-IsDisjoint current dep unlinked disjoint j =
      rw (ap (contains_by (links_to j)) (add_links dep current), add_excludes dep j current)
        (elim (Bool-cases (dep == j)) [
          | inl same ↦ rw (same, not_linked j ((eq_iff dep j).0 same)) refl
          | inr ne ↦ rw ne (disjoint j)
        ])
    where
      not_linked : (k : String) → dep ≡ k → is_linked_to current k ≡ false
      not_linked k same = rw same at unlinked

  -- On a platform that updates and excludes as documented, LinkVar, UnlinkVar, ExcludeVar and
  -- UnexcludeVar, where they make a call, have found a variable, and if no deployment is both
  -- linked to it and excluded from it, then none is after the call.
  pub request_of-IsDisjoint :
      (p : Platform) (id_or_key : String) (scope : Scope) (command : LinkCommand) {call : Call}
      → request_of p id_or_key scope command ≡ ok (some call)
      → (current : EnvironmentObject) × (resolve_workspace_var p id_or_key scope false ≡ ok current)
        × (IsDisjoint current → IsDisjoint (effect apply add call current))
  request_of-IsDisjoint p id_or_key scope (link dep override) {call} h =
      let (made, request, e) = bind-ok (link_request p id_or_key scope dep override) _ h in
      let (current, (valid, found), included, sent) =
        link_request-ok p id_or_key scope dep override call (cc) in
      (current, found, λ disjoint. rw sent (link-IsDisjoint current dep override included disjoint))
  request_of-IsDisjoint p id_or_key scope (unlink dep) {call} h =
      let (made, request, e) = bind-ok (unlink_request p id_or_key scope dep) _ h in
      let (current, (valid, found), linked, sent) =
        unlink_request-ok p id_or_key scope dep call (cc) in
      (current, found, λ disjoint. rw sent (unlink-IsDisjoint current dep disjoint))
  request_of-IsDisjoint p id_or_key scope (exclude dep) {call} h =
      let (current, found, unlinked, sent) = exclude_request-ok p id_or_key scope dep call h in
      (current, found, λ disjoint. rw sent (exclude-IsDisjoint current dep unlinked disjoint))
  request_of-IsDisjoint p id_or_key scope (unexclude dep) {call} h =
      let (made, request, e) = bind-ok (unexclude_request p id_or_key scope dep) _ h in
      let (current, found, sent) = unexclude_request-ok p id_or_key scope dep call (cc) in
      (current, found, λ disjoint. rw sent (unexclude-IsDisjoint current dep disjoint))
