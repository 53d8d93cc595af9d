-- ===== src/Proxy/Routes/Failure.antt =====
-- A command that returns an error leaves the routes file as it was.
use astro_cli.Proxy.Routes.{
  not_found, collides, other_host, write_routes, updated, finish_add, Placed, Route, after_write,
  Disk, list_routes, remove_route, add_route, Os, RouteError,
}
use astro_cli.Prelude.{
  refl, length, ◌++◌, inr, [], false, keep, inl, ok, ◌∷◌, Bool-cases, List, true, Bool, err, String,
  Result, ◌≡◌,
}
use astro_cli.Proxy.Routes.Unique.{Command, add, remove, list, run}
use astro_cli.Proxy.Routes.Lookup.{live_routes}
use astro_cli.Proxy.Routes.Views.{write_err_file, read_cases}

file-after_write_err :
    {A : Type 0} {e : RouteError} (a : A) (p : Result RouteError (Unit {0}) × Disk)
    → (after_write a p).0 ≡ err e
    → (p.0 ≡ err e) × ((after_write a p).1 ≡ p.1)
file-after_write_err a (ok _, d) h = absurd (cc)
file-after_write_err a (err x, d) h = (cc, refl)

finish_add_err :
    (os : Os) (route : Route) (rs : List Route) (p : Placed) (d : Disk) {e : RouteError}
    → (finish_add os route rs p d).0 ≡ err e
    → (finish_add os route rs p d).1.file ≡ d.file
finish_add_err os route rs (updated rs') d h = write_err_file os rs' d h
finish_add_err os route rs (collides dir) d h = refl
finish_add_err os route rs not_found d h = write_err_file os (rs ++ route ∷ []) d h

add_route_err :
    (os : Os) (route : Route) (d : Disk) {e : RouteError}
    → (add_route os route d).0 ≡ err e
    → (add_route os route d).1.file ≡ d.file
unfolding add_route
add_route_err os route d h = elim (Bool-cases os.lock_ok) [
  | inl locked ↦ elim (read_cases d.file) [
    | inl e ↦ rw (locked, e) (finish_add_err os route (live_routes os d) _ d (rw (locked, e) at h))
    | inr (x, e) ↦ rw (locked, e)
  ]
  | inr e ↦ rw e
]

remove_route_err :
    (os : Os) (h : String) (d : Disk) {e : RouteError}
    → (remove_route os h d).0 ≡ err e
    → (remove_route os h d).1.file ≡ d.file
unfolding remove_route
remove_route_err os h d p = elim (Bool-cases os.lock_ok) [
  | inl locked ↦ elim (read_cases d.file) [
    | inl e ↦
        let kept = keep (other_host h) (live_routes os d) in
        let (q, same) =
          file-after_write_err (length kept) (write_routes os kept d) (rw (locked, e) at p) in
        rw (locked, e, same) (write_err_file os kept d q)
    | inr (x, e) ↦ rw (locked, e)
  ]
  | inr e ↦ rw e
]

list_routes_err :
    (os : Os) (d : Disk) {e : RouteError}
    → (list_routes os d).0 ≡ err e
    → (list_routes os d).1.file ≡ d.file
unfolding list_routes
list_routes_err os d p = elim (Bool-cases os.lock_ok) [
  | inl locked ↦ elim (read_cases d.file) [
    | inl e ↦
        let kept = live_routes os d in
        let (q, same) = file-after_write_err kept (write_routes os kept d) (rw (locked, e) at p) in
        rw (locked, e, same) (write_err_file os kept d q)
    | inr (x, e) ↦ rw (locked, e)
  ]
  | inr e ↦ rw e
]

abbrev is_err {ℓ} : {A : Type ℓ} → Result RouteError A → Bool
is_err (ok a) = false
is_err (err e) = true

-- Whether the command returns an error.
abbrev pub fails : Command → Disk → Bool
fails (add os route) d = is_err (add_route os route d).0
fails (remove os h) d = is_err (remove_route os h d).0
fails (list os) d = is_err (list_routes os d).0

err_of_is_err {ℓ} :
    {A : Type ℓ} (r : Result RouteError A) → is_err r ≡ true → (e : RouteError) × (r ≡ err e)
err_of_is_err (ok a) h = absurd (cc)
err_of_is_err (err e) h = (e, refl)

-- AddRoute, RemoveRoute or ListRoutes that returns an error leaves the routes file as it was.
pub run-fails : (c : Command) (d : Disk) → fails c d ≡ true → (run (c ∷ []) d).file ≡ d.file
unfolding run
run-fails (add os route) d h = add_route_err os route d (err_of_is_err (add_route os route d).0 h).1
run-fails (remove os name) d h =
    remove_route_err os name d (err_of_is_err (remove_route os name d).0 h).1
run-fails (list os) d h = list_routes_err os d (err_of_is_err (list_routes os d).0 h).1
