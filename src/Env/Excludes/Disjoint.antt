-- ===== src/Env/Excludes/Disjoint.antt =====
-- No command on the links of a variable leaves a deployment both linked and excluded.
use astro_cli.Env.Excludes.{
  exclude_exists, build_update_excludes_excluding, validate_deployment_id, id_of, link_exists,
  resolve_workspace_var, unexclude_request, exclude_request,
}
use astro_cli.Env.Links.Upsert.{merged_override}
use astro_cli.Env.Links.{
  build_update_links, new_link, patch_body, unlink_request, upsert_entry, deref_slice, excludes,
  links_to, link_request, to_exclude_request, upsert_link_in_update_list, to_update_link,
}
use astro_cli.Prelude.{
  none, inr, bind-ok, inl, Bool-cases, true, refl, [], eq_iff, ap, arith, ◌∷◌, not, some, keep,
  ◌||◌, ok, ◌==◌, map, ◌++◌, false, ◌>>=◌, ◌≡◌, contains_by, ◌&&◌, Bool, Result, Option, List,
  String,
}
use astro_cli.Env.{
  exclude_call, update_call, EnvironmentObject, Call, EnvError, Platform, Scope, Link, ExcludeLink,
}

-- A command of link.go that changes the variable.
pub data LinkCommand : Type 0 where
  link : String → Option String → LinkCommand
  unlink exclude unexclude : String → LinkCommand

abbrev pub request_of : Platform → String → Scope → LinkCommand → Result EnvError (Option Call)
request_of p id_or_key scope (link dep override) =
    link_request p id_or_key scope dep override >>= λ call. ok (some call)
request_of p id_or_key scope (unlink dep) =
    unlink_request p id_or_key scope dep >>= λ call. ok (some call)
request_of p id_or_key scope (exclude dep) = exclude_request p id_or_key scope dep
request_of p id_or_key scope (unexclude dep) =
    unexclude_request p id_or_key scope dep >>= λ call. ok (some call)

abbrev pub is_linked_to : EnvironmentObject → String → Bool
is_linked_to obj dep = contains_by (links_to dep) (deref_slice obj.links)

abbrev pub is_excluded_from : EnvironmentObject → String → Bool
is_excluded_from obj dep = contains_by (excludes dep) (deref_slice obj.exclude_links)

-- No deployment is both linked and excluded.
abbrev pub IsDisjoint : EnvironmentObject → Type 0
IsDisjoint obj = (j : String) → (is_linked_to obj j && is_excluded_from obj j) ≡ false

contains-append :
    (j : String) (xs ys : List Link)
    → contains_by (links_to j) (xs ++ ys)
      ≡ (contains_by (links_to j) xs || contains_by (links_to j) ys)
contains-append j [] ys = refl
contains-append j (x ∷ xs) ys = ground (arith, contains-append j xs ys)

pub contains-merged :
    (old : List Link) (j : String) (links : List Link)
    → contains_by (links_to j) (map (merged_override old) links) ≡ contains_by (links_to j) links
contains-merged old j [] = refl
contains-merged old j (l ∷ ls) = ap (λ b. links_to j l || b) (contains-merged old j ls)

contains-upsert_entry :
    (dep j : String) (override : Option String) (links : List Link)
    → contains_by (links_to j) (map (upsert_entry dep override) links)
      ≡ contains_by (links_to j) links
unfolding to_update_link
contains-upsert_entry dep j override [] = refl
contains-upsert_entry dep j override (l ∷ ls) =
    ground (arith, contains-upsert_entry dep j override ls)

pub contains-upserted :
    (current : Option (List Link)) (dep j : String) (override : Option String)
    → contains_by (links_to j) (upsert_link_in_update_list current dep override)
      ≡ (dep == j || contains_by (links_to j) (deref_slice current))
unfolding upsert_link_in_update_list
contains-upserted current dep j override =
    let links = deref_slice current in
    elim (Bool-cases (contains_by (links_to dep) links)) [
      | inl there ↦
          rw (there, contains-upsert_entry dep j override links)
            (ground (arith, eq_iff dep j, linked_twice links there))
      | inr gone ↦
          rw
            (
              gone,
              contains-append j (map (upsert_entry dep override) links)
                  (new_link dep override ∷ []),
              contains-upsert_entry dep j override links,
            )
            (ground arith)
    ]
  where
    linked_twice :
        (links : List Link)
        → contains_by (links_to dep) links ≡ true
        → dep ≡ j
        → contains_by (links_to j) links ≡ true
    linked_twice links there same = rw same at there

pub contains-excluding :
    (dep j : String) (links : List Link)
    → contains_by (links_to j) (map to_update_link (keep (λ l. not (links_to dep l)) links))
      ≡ (not (dep == j) && contains_by (links_to j) links)
unfolding to_update_link
contains-excluding dep j [] = ground arith
contains-excluding dep j (l ∷ ls) = ground (
  arith,
  contains-excluding dep j ls,
  eq_iff l.scope_entity_id j,
  eq_iff l.scope_entity_id dep,
  eq_iff dep j,
)

pub contains-build_update_links :
    (j : String) (links : Option (List Link))
    → contains_by (links_to j) (build_update_links links)
      ≡ contains_by (links_to j) (deref_slice links)
unfolding build_update_links to_update_link
contains-build_update_links j none = refl
contains-build_update_links j (some links) = go links
  where
    go :
        (ls : List Link)
        → contains_by (links_to j) (map to_update_link ls) ≡ contains_by (links_to j) ls
    go [] = refl
    go (l ∷ ls) = ap (λ b. links_to j l || b) (go ls)

pub excludes-excluding :
    (dep j : String) (es : List ExcludeLink)
    → contains_by (excludes j) (map to_exclude_request (keep (λ e. not (excludes dep e)) es))
      ≡ (not (dep == j) && contains_by (excludes j) es)
unfolding to_exclude_request
excludes-excluding dep j [] = ground arith
excludes-excluding dep j (e ∷ es) = ground (
  arith,
  excludes-excluding dep j es,
  eq_iff e.scope_entity_id j,
  eq_iff e.scope_entity_id dep,
  eq_iff dep j,
)

pub exclude_request-ok :
    (p : Platform) (id_or_key : String) (scope : Scope) (dep : String) (call : Call)
    → exclude_request p id_or_key scope dep ≡ ok (some call)
    → (current : EnvironmentObject) × (resolve_workspace_var p id_or_key scope false ≡ ok current)
      × (link_exists current.links dep ≡ false)
      × (call ≡ exclude_call (id_of current) dep)
unfolding exclude_request
exclude_request-ok p id_or_key scope dep call h =
    let (u, valid, h1) = bind-ok (validate_deployment_id p dep) _ h in
    let (current, found, h2) = bind-ok (resolve_workspace_var p id_or_key scope false) _ h1 in
    elim (Bool-cases (link_exists current.links dep)) [
      | inl there ↦ absurd (ground arith)
      | inr gone ↦ (current, found, gone, ground arith)
    ]

pub unexclude_request-ok :
    (p : Platform) (id_or_key : String) (scope : Scope) (dep : String) (call : Call)
    → unexclude_request p id_or_key scope dep ≡ ok call
    → (current : EnvironmentObject) × (resolve_workspace_var p id_or_key scope false ≡ ok current)
      × (call
          ≡ update_call (id_of current) (
              patch_body current none
                (some (build_update_excludes_excluding current.exclude_links dep))))
unfolding unexclude_request
unexclude_request-ok p id_or_key scope dep call h =
    let (u, valid, h1) = bind-ok (validate_deployment_id p dep) _ h in
    let (current, found, h2) = bind-ok (resolve_workspace_var p id_or_key scope false) _ h1 in
    elim (Bool-cases (exclude_exists current.exclude_links dep)) [
      | inl there ↦ (current, found, ground arith)
      | inr gone ↦ absurd (ground arith)
    ]
