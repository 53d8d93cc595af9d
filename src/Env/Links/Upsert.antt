-- ===== src/Env/Links/Upsert.antt =====
-- Looking up a deployment's override in the lists that link.go builds.
use mathlib.Core.Path.{subst}
use astro_cli.Prelude.{
  ◌∙◌, eq_iff, eq_refl, inr, inl, false, contains_by, true, ◌++◌, arith, Bool-cases, [], ◌==◌, ap,
  refl, ◌∷◌, if◌then◌else◌, some, none, map, find_by, ◌≡◌, List, Option, String,
}
use mathlib.Core.Option
use astro_cli.Env.{Link}
use astro_cli.Env.Links.{
  deref_slice, links_to, upsert_entry, upsert_link_in_update_list, or_else, new_link,
  to_update_link,
}

abbrev pub override_of : String → List Link → Option (Option String)
override_of dep links =
    Option.map (λ (l : Link). l.environment_variable_override) (find_by (links_to dep) links)

abbrev pub joined : {A : Type 0} → Option (Option A) → Option A
joined none = none
joined (some o) = o

-- What the link that a deployment had says of one kind of override.
abbrev old_override : {A : Type 0} → (Link → Option A) → String → List Link → Option A
old_override field dep old = joined (Option.map field (find_by (links_to dep) old))

-- The link's own overrides, or the ones that it had.
abbrev pub merged_override : List Link → Link → Link
merged_override old l = record l {
  environment_variable_override =
      or_else l.environment_variable_override (joined (override_of l.scope_entity_id old));
  airflow_variable_override =
      or_else l.airflow_variable_override
        (old_override (λ (k : Link). k.airflow_variable_override) l.scope_entity_id old);
  connection_overrides =
      or_else l.connection_overrides
        (old_override (λ (k : Link). k.connection_overrides) l.scope_entity_id old);
  metrics_export_overrides =
      or_else l.metrics_export_overrides
        (old_override (λ (k : Link). k.metrics_export_overrides) l.scope_entity_id old);
}

find-upsert :
    (dep j : String) (override : Option String) (links : List Link)
    → find_by (links_to j) (map (upsert_entry dep override) links)
      ≡ Option.map (upsert_entry dep override) (find_by (links_to j) links)
unfolding to_update_link
find-upsert dep j override [] = refl
find-upsert dep j override (l ∷ ls) = elim (Bool-cases (links_to dep l)) [
  | inl e ↦ rw e (ground (arith, find-upsert dep j override ls))
  | inr e ↦ rw e (ground (arith, find-upsert dep j override ls))
]

pub find-merged :
    (old : List Link) (j : String) (links : List Link)
    → find_by (links_to j) (map (merged_override old) links)
      ≡ Option.map (merged_override old) (find_by (links_to j) links)
find-merged old j [] = refl
find-merged old j (l ∷ ls) = ground (arith, find-merged old j ls)

find_by-append :
    (j : String) (xs ys : List Link)
    → find_by (links_to j) (xs ++ ys) ≡ or_else (find_by (links_to j) xs) (find_by (links_to j) ys)
find_by-append j [] ys = refl
find_by-append j (x ∷ xs) ys = ground (arith, find_by-append j xs ys)

pub find_by-links_to :
    (j : String) (links : List Link) (l : Link)
    → find_by (links_to j) links ≡ some l
    → links_to j l ≡ true
find_by-links_to j [] l h = absurd (cc)
find_by-links_to j (x ∷ xs) l h = ground (arith, find_by-links_to j xs l)

contains-find :
    (j : String) (links : List Link)
    → contains_by (links_to j) links ≡ false
    → find_by (links_to j) links ≡ none
contains-find j [] h = refl
contains-find j (x ∷ xs) h = ground (arith, contains-find j xs)

contains-find_some :
    (j : String) (links : List Link)
    → contains_by (links_to j) links ≡ true
    → (l : Link) × (find_by (links_to j) links ≡ some l)
contains-find_some j [] h = absurd (cc)
contains-find_some j (x ∷ xs) h = elim (Bool-cases (links_to j x)) [
  | inl e ↦ (x, rw e)
  | inr e ↦ rw e (contains-find_some j xs (rw e at h))
]

find-upserted_self :
    (current : Option (List Link)) (dep : String) (override : Option String)
    → override_of dep (upsert_link_in_update_list current dep override) ≡ some override
unfolding upsert_link_in_update_list
find-upserted_self current dep override =
    let links = deref_slice current in
    elim (Bool-cases (contains_by (links_to dep) links)) [
      | inl there ↦
          let (l, e) = contains-find_some dep links there in
          rw (there, find-upsert dep dep override links, e)
            (ground (arith, find_by-links_to dep links l e))
      | inr gone ↦ rw (
        gone,
        find_by-append dep (map (upsert_entry dep override) links) (new_link dep override ∷ []),
        find-upsert dep dep override links,
        contains-find dep links gone,
        eq_refl dep,
      )
    ]

find-upserted_ne :
    (current : Option (List Link)) (dep j : String) (override : Option String)
    → (dep == j) ≡ false
    → override_of j (upsert_link_in_update_list current dep override)
      ≡ override_of j (deref_slice current)
unfolding upsert_link_in_update_list
find-upserted_ne current dep j override ne =
    let links = deref_slice current in
    let mapped : override_of j (map (upsert_entry dep override) links) ≡ override_of j links =
      rw (find-upsert dep j override links) (upsert_other (find_by (links_to j) links) refl) in
    elim (Bool-cases (contains_by (links_to dep) links)) [
      | inl there ↦ rw there mapped
      | inr gone ↦
          rw
            (
              gone,
              find_by-append j (map (upsert_entry dep override) links) (new_link dep override ∷ []),
              ne,
            )
            (or_else_none (find_by (links_to j) (map (upsert_entry dep override) links)) ∙ mapped)
    ]
  where
    or_else_none :
        (o : Option Link)
        → Option.map (λ (l : Link). l.environment_variable_override) (or_else o none)
          ≡ Option.map (λ (l : Link). l.environment_variable_override) o
    or_else_none none = refl
    or_else_none (some l) = refl

    upsert_other :
        (o : Option Link)
        → find_by (links_to j) (deref_slice current) ≡ o
        → Option.map
            (λ (l : Link). l.environment_variable_override)
            (Option.map (upsert_entry dep override) o)
          ≡ Option.map (λ (l : Link). l.environment_variable_override) o
    upsert_other none e = refl
    upsert_other (some l) e = ground (
      arith,
      find_by-links_to j (deref_slice current) l e,
      eq_iff l.scope_entity_id j,
      eq_iff l.scope_entity_id dep,
      eq_iff dep j,
    )

-- The override that LinkVar sends for a deployment.
pub find-upserted :
    (current : Option (List Link)) (dep j : String) (override : Option String)
    → override_of j (upsert_link_in_update_list current dep override)
      ≡ (if dep == j then some override else override_of j (deref_slice current))
find-upserted current dep j override = elim (Bool-cases (dep == j)) [
  | inl same ↦ rw same (
      subst (λ t. override_of t (upsert_link_in_update_list current dep override) ≡ some override)
        ((eq_iff dep j).0 same) (find-upserted_self current dep override))
  | inr ne ↦ rw ne (find-upserted_ne current dep j override ne)
]

-- An entry found by its deployment is merged with the override of that deployment.
pub override-merged :
    (old links : List Link) (j : String)
    → override_of j (map (merged_override old) links)
      ≡ Option.map
          (λ (o : Option String). or_else o (joined (override_of j old)))
          (override_of j links)
override-merged old links j = rw (find-merged old j links) (go (find_by (links_to j) links) refl)
  where
    go :
        (o : Option Link)
        → find_by (links_to j) links ≡ o
        → Option.map
            (λ (l : Link). l.environment_variable_override)
            (Option.map (merged_override old) o)
          ≡ Option.map
              (λ (t : Option String). or_else t (joined (override_of j old)))
              (Option.map (λ (l : Link). l.environment_variable_override) o)
    go none e = refl
    go (some l) e =
        let same : l.scope_entity_id ≡ j =
          (eq_iff l.scope_entity_id j).0 (find_by-links_to j links l e) in
        ap
          (λ (t : String).
            some (or_else l.environment_variable_override (joined (override_of t old))))
          same
