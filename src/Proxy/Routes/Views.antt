-- ===== src/Proxy/Routes/Views.antt =====
-- What the loop of AddRoute and the write do to the list that a reader sees.
use mathlib.Core.Path.{subst}
use astro_cli.Prelude.{
  ◌⊎◌, Result, Bool-cases, ◌∙◌, inl, inr, true, false, String, ◌==◌, eq_iff, ◌≡◌, refl, Option,
  none, some, List, [], ◌∷◌, ◌++◌, keep, find_by, ok, err, arith, if◌then◌else◌,
}
use astro_cli.Proxy.Routes.{
  RoutesFile, absent, unreadable, blank, garbled, read_failed, parse_failed, read_routes, routes_of,
  Route, Disk, Os, RouteError, holds, write_routes, already_registered, place, Placed, behind,
  updated, collides, not_found, has_host, other_host,
}

pub read_cases :
    (f : RoutesFile)
    → (read_routes f ≡ ok (routes_of f)) ⊎ ((e : RouteError) × (read_routes f ≡ err e))
unfolding read_routes
read_cases absent = inl refl
read_cases unreadable = inr (read_failed, refl)
read_cases blank = inl refl
read_cases garbled = inr (parse_failed, refl)
read_cases (holds rs) = inl refl

pub write_ok_file :
    (os : Os) (rs : List Route) (d : Disk)
    → (write_routes os rs d).0 ≡ ok tt
    → (write_routes os rs d).1.file ≡ holds rs
unfolding write_routes
write_ok_file os rs d h = ground arith

pub write_file :
    (os : Os) (rs : List Route) (d : Disk)
    → ((write_routes os rs d).1.file ≡ holds rs) ⊎ ((write_routes os rs d).1.file ≡ d.file)
unfolding write_routes
write_file os rs d = ground arith

pub write_err_file :
    (os : Os) (rs : List Route) (d : Disk) {e : RouteError}
    → (write_routes os rs d).0 ≡ err e
    → (write_routes os rs d).1.file ≡ d.file
unfolding write_routes
write_err_file os rs d h = ground arith

-- A lookup in the list that AddRoute writes, for each outcome of its loop.
abbrev Finds : String → Route → List Route → Placed → Type 0
Finds j route rs (updated rs') =
    find_by (has_host j) rs' ≡ (if route.hostname == j then some route else find_by (has_host j) rs)
Finds j route rs (collides dir) = Unit
Finds j route rs not_found =
    find_by (has_host j) (rs ++ route ∷ [])
    ≡ (if route.hostname == j then some route else find_by (has_host j) rs)

Finds-behind :
    (j : String) (route r : Route) (rs : List Route) (p : Placed)
    → (r.hostname == route.hostname) ≡ false
    → Finds j route rs p
    → Finds j route (r ∷ rs) (behind r p)
Finds-behind j route r rs (updated rs') ne h =
    ground (arith, eq_iff r.hostname j, eq_iff route.hostname j, eq_iff r.hostname route.hostname)
Finds-behind j route r rs (collides dir) ne h = tt
Finds-behind j route r rs not_found ne h =
    ground (arith, eq_iff r.hostname j, eq_iff route.hostname j, eq_iff r.hostname route.hostname)

Finds-here :
    (j : String) (route r : Route) (rs : List Route)
    → (r.hostname == route.hostname) ≡ true
    → Finds j route (r ∷ rs) (updated (route ∷ rs))
Finds-here j route r rs e = ground (arith, eq_iff r.hostname route.hostname)

Finds-place : (j : String) (route : Route) (rs : List Route) → Finds j route rs (place route rs)
unfolding place
Finds-place j route [] = refl
Finds-place j route (r ∷ rs) = elim (Bool-cases (r.hostname == route.hostname)) [
  | inl same ↦ elim (Bool-cases (r.project_dir == route.project_dir)) [
    | inl dir ↦ rw (same, dir) (Finds-here j route r rs same)
    | inr other ↦ rw (same, other) tt
  ]
  | inr ne ↦ rw ne (Finds-behind j route r rs (place route rs) ne (Finds-place j route rs))
]

pub find-place-updated :
    (route : Route) (rs rs' : List Route) (j : String)
    → place route rs ≡ updated rs'
    → find_by (has_host j) rs'
      ≡ (if route.hostname == j then some route else find_by (has_host j) rs)
find-place-updated route rs rs' j h = subst (Finds j route rs) h (Finds-place j route rs)

pub find-place-not_found :
    (route : Route) (rs : List Route) (j : String)
    → place route rs ≡ not_found
    → find_by (has_host j) (rs ++ route ∷ [])
      ≡ (if route.hostname == j then some route else find_by (has_host j) rs)
find-place-not_found route rs j h = subst (Finds j route rs) h (Finds-place j route rs)

-- What AddRoute answers, by the first route with the host.
abbrev pub answer : Route → Option Route → Result RouteError (Unit {0})
answer route none = ok tt
answer route (some r) =
    if r.project_dir == route.project_dir
    then ok tt
    else err (already_registered route.hostname r.project_dir)

abbrev pub verdict : Route → Placed → Result RouteError (Unit {0})
verdict route (updated rs) = ok tt
verdict route (collides dir) = err (already_registered route.hostname dir)
verdict route not_found = ok tt

verdict-behind : (route r : Route) (p : Placed) → verdict route (behind r p) ≡ verdict route p
verdict-behind route r (updated rs) = refl
verdict-behind route r (collides dir) = refl
verdict-behind route r not_found = refl

pub verdict-place :
    (route : Route) (rs : List Route)
    → verdict route (place route rs) ≡ answer route (find_by (has_host route.hostname) rs)
unfolding place
verdict-place route [] = refl
verdict-place route (r ∷ rs) = elim (Bool-cases (r.hostname == route.hostname)) [
  | inl same ↦ rw same (ground arith)
  | inr ne ↦ rw ne (verdict-behind route r (place route rs) ∙ verdict-place route rs)
]

pub find-keep_self :
    (h : String) (rs : List Route) → find_by (has_host h) (keep (other_host h) rs) ≡ none
find-keep_self h [] = refl
find-keep_self h (r ∷ rs) = ground (arith, find-keep_self h rs)

pub find-keep_ne :
    (h j : String) (rs : List Route)
    → (h == j) ≡ false
    → find_by (has_host j) (keep (other_host h) rs) ≡ find_by (has_host j) rs
find-keep_ne h j [] n = refl
find-keep_ne h j (r ∷ rs) n =
    ground (arith, find-keep_ne h j rs n, eq_iff r.hostname h, eq_iff r.hostname j, eq_iff h j)
