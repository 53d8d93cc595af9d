-- ===== src/Proxy/Routes/Lookup.antt =====
-- What the commands answer, and what a reader finds after them.
use mathlib.Core.Path.{subst}
use astro_cli.Prelude.{
  sym, eq_iff, length, none, err, ℕ, keep-keep, keep, Result, true, String, ◌==◌, ◌≡◌, refl, ap,
  ◌∙◌, Bool-cases, inl, inr, some, List, [], ◌∷◌, ◌++◌, find_by, ok, arith, if◌then◌else◌,
}
use astro_cli.Proxy.Routes.{
  is_live, other_host, after_write, read_routes, RouteError, remove_route, write_routes, Route,
  RoutesFile, Disk, Os, holds, prune_stale_routes, place, Placed, updated, collides, not_found,
  has_host, add_route, get_route, routes_of, finish_add,
}
use astro_cli.Proxy.Routes.Views.{
  find-keep_ne, find-keep_self, verdict-place, answer, verdict, read_cases, write_ok_file,
  find-place-updated, find-place-not_found,
}

-- What every command sees: the routes of the file that are not stale.
abbrev pub live_routes : Os → Disk → List Route
live_routes os d = prune_stale_routes os (routes_of d.file)

get_route-holds :
    (j : String) (d : Disk) (rs : List Route)
    → d.file ≡ holds rs
    → get_route j d ≡ ok (find_by (has_host j) rs)
unfolding get_route
get_route-holds j d rs e = rw e

finish_add-get_route :
    (os : Os) (route : Route) (rs : List Route) (p : Placed) (d : Disk) (j : String)
    → place route rs ≡ p
    → (finish_add os route rs p d).0 ≡ ok tt
    → get_route j (finish_add os route rs p d).1
      ≡ ok (if route.hostname == j then some route else find_by (has_host j) rs)
finish_add-get_route os route rs (updated rs') d j e h =
    get_route-holds j _ rs' (write_ok_file os rs' d h) ∙ ap ok (find-place-updated route rs rs' j e)
finish_add-get_route os route rs (collides dir) d j e h = absurd (cc)
finish_add-get_route os route rs not_found d j e h =
    get_route-holds j _ (rs ++ route ∷ []) (write_ok_file os _ d h)
    ∙ ap ok (find-place-not_found route rs j e)

-- After a successful AddRoute, GetRoute of its hostname returns the route, and GetRoute of any
-- other hostname what the live routes gave before.
pub get_route-add_route :
    (os : Os) (route : Route) (d : Disk) (j : String)
    → (add_route os route d).0 ≡ ok tt
    → get_route j (add_route os route d).1
      ≡ ok (if route.hostname == j then some route else find_by (has_host j) (live_routes os d))
unfolding add_route
get_route-add_route os route d j h = elim (Bool-cases os.lock_ok) [
  | inl locked ↦ elim (read_cases d.file) [
    | inl e ↦
        rw (locked, e)
          (finish_add-get_route os route (live_routes os d) _ d j refl (rw (locked, e) at h))
    | inr (x, e) ↦ absurd (ground arith)
  ]
  | inr e ↦ absurd (ground arith)
]

-- No system call fails and the file can be read.
pub record Works (os : Os) (d : Disk) : Type 0 where
  pub locked : os.lock_ok ≡ true
  pub made : os.mkdir_ok ≡ true
  pub wrote : os.write_ok ≡ true
  pub renamed : os.rename_ok ≡ true
  pub readable : read_routes d.file ≡ ok (routes_of d.file)

write-Works : {os : Os} {d : Disk} (rs : List Route) → Works os d → (write_routes os rs d).0 ≡ ok tt
unfolding write_routes
write-Works rs w = ground arith

finish_add-verdict :
    {os : Os} {d : Disk} (route : Route) (rs : List Route) (p : Placed)
    → Works os d
    → (finish_add os route rs p d).0 ≡ verdict route p
finish_add-verdict route rs (updated rs') w = write-Works rs' w
finish_add-verdict route rs (collides dir) w = refl
finish_add-verdict route rs not_found w = write-Works (rs ++ route ∷ []) w

-- When no system call fails and the file can be read, the first of the live routes with the
-- hostname decides what AddRoute answers: it succeeds if there is none or if that route is of the
-- same project, and otherwise the error names that route's project.
pub add_route-answer :
    (os : Os) (route : Route) (d : Disk)
    → Works os d
    → (add_route os route d).0 ≡ answer route (find_by (has_host route.hostname) (live_routes os d))
unfolding add_route
add_route-answer os route d w =
    let rs = live_routes os d in
    rw (w.locked, w.readable)
      (finish_add-verdict route rs (place route rs) w ∙ verdict-place route rs)

pub after_write-ok :
    {A : Type 0} (a b : A) (p : Result RouteError (Unit {0}) × Disk)
    → (after_write a p).0 ≡ ok b
    → (a ≡ b) × (p.0 ≡ ok tt) × ((after_write a p).1 ≡ p.1)
after_write-ok a b (ok _, d) h = (cc, refl, refl)
after_write-ok a b (err e, d) h = absurd (cc)

find-other_host :
    (h j : String) (rs : List Route)
    → find_by (has_host j) (keep (other_host h) rs)
      ≡ (if h == j then none else find_by (has_host j) rs)
find-other_host h j rs = elim (Bool-cases (h == j)) [
  | inl e ↦ rw e (
      subst (λ t. find_by (has_host t) (keep (other_host h) rs) ≡ none) ((eq_iff h j).0 e)
        (find-keep_self h rs))
  | inr ne ↦ rw ne (find-keep_ne h j rs ne)
]

-- A successful RemoveRoute returns the number of routes left in the file; GetRoute then finds no
-- route for the hostname, and for any other what the live routes gave before.
pub remove_route-success :
    (os : Os) (h : String) (d : Disk) (n : ℕ) (j : String)
    → (remove_route os h d).0 ≡ ok n
    → (n ≡ length (routes_of (remove_route os h d).1.file))
      × (get_route j (remove_route os h d).1
          ≡ ok (if h == j then none else find_by (has_host j) (live_routes os d)))
unfolding remove_route
remove_route-success os h d n j p = elim (Bool-cases os.lock_ok) [
  | inl locked ↦ elim (read_cases d.file) [
    | inl e ↦ rw (locked, e) (go (rw (locked, e) at p))
    | inr (x, e) ↦ absurd (ground arith)
  ]
  | inr e ↦ absurd (ground arith)
]
  where
    kept : List Route
    kept = keep (other_host h) (live_routes os d)

    go :
        (after_write (length kept) (write_routes os kept d)).0 ≡ ok n
        → (n ≡ length (routes_of (after_write (length kept) (write_routes os kept d)).1.file))
          × (get_route j (after_write (length kept) (write_routes os kept d)).1
              ≡ ok (if h == j then none else find_by (has_host j) (live_routes os d)))
    go q =
        let (count, wrote, same) = after_write-ok (length kept) n (write_routes os kept d) q in
        let e = write_ok_file os kept d wrote in
        rw same (
          sym count ∙ sym (ap (λ (f : RoutesFile). length (routes_of f)) e),
          get_route-holds j _ kept e ∙ ap ok (find-other_host h j (live_routes os d)),
        )

-- Pruning twice is pruning once, and no docker route is ever pruned.
pub prune-prune :
    (os : Os) (rs : List Route)
    → prune_stale_routes os (prune_stale_routes os rs) ≡ prune_stale_routes os rs
unfolding prune_stale_routes
prune-prune os rs = keep-keep (is_live os) rs
