-- ===== src/Proxy/Routes/Unique.antt =====
-- One route for each hostname, whatever the commands, their order and the system calls' outcomes.
use mathlib.Core.Path.{subst}
use astro_cli.Prelude.{
  String, ◌==◌, eq_iff, ◌≡◌, ◌≢◌, refl, Bool, Bool-cases, inl, inr, List, [], ◌∷◌, ◌++◌, All,
  length, All-keep, All-append, sym, keep, ok, err, Result, arith,
}
use astro_cli.Proxy.Routes.Views.{write_file, read_cases}
use astro_cli.Proxy.Routes.{
  after_write, Route, Disk, Os, RouteError, write_routes, prune_stale_routes, is_live, place,
  Placed, behind, updated, collides, not_found, other_host, add_route, remove_route, list_routes,
  routes_of, finish_add,
}

abbrev pub Lacks : String → List Route → Type 0
Lacks h = All (λ (r : Route). r.hostname ≢ h)

abbrev pub UniqueHosts : List Route → Type 0
UniqueHosts [] = Unit
UniqueHosts (r ∷ rs) = Lacks r.hostname rs × UniqueHosts rs

UniqueHosts-keep :
    (test : Route → Bool) (rs : List Route) → UniqueHosts rs → UniqueHosts (keep test rs)
UniqueHosts-keep test [] u = tt
UniqueHosts-keep test (r ∷ rs) (l, u) = elim (Bool-cases (test r)) [
  | inl kept ↦ rw kept (All-keep _ test rs l, UniqueHosts-keep test rs u)
  | inr gone ↦ rw gone (UniqueHosts-keep test rs u)
]

-- What the loop of AddRoute leaves to be written.
abbrev Keeps : Route → List Route → Placed → Type 0
Keeps route rs (updated rs') =
    UniqueHosts rs' × ((h : String) → h ≢ route.hostname → Lacks h rs → Lacks h rs')
Keeps route rs (collides dir) = Unit
Keeps route rs not_found = Lacks route.hostname rs

Keeps-behind :
    (route r : Route) (rs : List Route) (p : Placed)
    → r.hostname ≢ route.hostname
    → Lacks r.hostname rs
    → Keeps route rs p
    → Keeps route (r ∷ rs) (behind r p)
Keeps-behind route r rs (updated rs') ne l (u, more) =
    ((more r.hostname ne l, u), λ h n (nh, lh). (nh, more h n lh))
Keeps-behind route r rs (collides dir) ne l k = tt
Keeps-behind route r rs not_found ne l k = (ne, k)

Keeps-place : (route : Route) (rs : List Route) → UniqueHosts rs → Keeps route rs (place route rs)
unfolding place
Keeps-place route [] u = tt
Keeps-place route (r ∷ rs) (l, u) = elim (Bool-cases (r.hostname == route.hostname)) [
  | inl same ↦
      let e = (eq_iff r.hostname route.hostname).0 same in
      elim (Bool-cases (r.project_dir == route.project_dir)) [
        | inl dir ↦
            rw (same, dir) ((subst (λ h. Lacks h rs) e l, u), λ h n (_, lh). (λ q. n (sym q), lh))
        | inr other ↦ rw (same, other) tt
      ]
  | inr ne ↦ rw ne (
      Keeps-behind route r rs (place route rs) (ground (arith, eq_iff r.hostname route.hostname)) l
        (Keeps-place route rs u))
]

UniqueHosts-append :
    (route : Route) (rs : List Route)
    → Lacks route.hostname rs
    → UniqueHosts rs
    → UniqueHosts (rs ++ route ∷ [])
UniqueHosts-append route [] l u = (tt, tt)
UniqueHosts-append route (r ∷ rs) (n, l) (lr, u) =
    (All-append _ rs (route ∷ []) lr (λ e. n (sym e), tt), UniqueHosts-append route rs l u)

abbrev pub IsWellFormed : Disk → Type 0
IsWellFormed d = UniqueHosts (routes_of d.file)

write-IsWellFormed :
    (os : Os) (rs : List Route) (d : Disk)
    → UniqueHosts rs
    → IsWellFormed d
    → IsWellFormed (write_routes os rs d).1
write-IsWellFormed os rs d u w = elim (write_file os rs d) [ inl e ↦ rw e u | inr e ↦ rw e w ]

finish_add-IsWellFormed :
    (os : Os) (route : Route) (rs : List Route) (p : Placed) (d : Disk)
    → UniqueHosts rs
    → Keeps route rs p
    → IsWellFormed d
    → IsWellFormed (finish_add os route rs p d).1
finish_add-IsWellFormed os route rs (updated rs') d u k w = write-IsWellFormed os rs' d k.0 w
finish_add-IsWellFormed os route rs (collides dir) d u k w = w
finish_add-IsWellFormed os route rs not_found d u k w =
    write-IsWellFormed os (rs ++ route ∷ []) d (UniqueHosts-append route rs k u) w

prune-UniqueHosts :
    (os : Os) (rs : List Route) → UniqueHosts rs → UniqueHosts (prune_stale_routes os rs)
unfolding prune_stale_routes
prune-UniqueHosts os rs u = UniqueHosts-keep (is_live os) rs u

pub add_route-IsWellFormed :
    (os : Os) (route : Route) (d : Disk) → IsWellFormed d → IsWellFormed (add_route os route d).1
unfolding add_route
add_route-IsWellFormed os route d w = elim (Bool-cases os.lock_ok) [
  | inl locked ↦ elim (read_cases d.file) [
    | inl e ↦
        let rs = prune_stale_routes os (routes_of d.file) in
        let u = prune-UniqueHosts os (routes_of d.file) w in
        rw (locked, e)
          (finish_add-IsWellFormed os route rs (place route rs) d u (Keeps-place route rs u) w)
    | inr (x, e) ↦ rw (locked, e) w
  ]
  | inr e ↦ rw e w
]

file-after_write :
    {A : Type 0} (a : A) (p : Result RouteError (Unit {0}) × Disk) → (after_write a p).1 ≡ p.1
file-after_write a (ok _, d) = refl
file-after_write a (err e, d) = refl

pub remove_route-IsWellFormed :
    (os : Os) (h : String) (d : Disk) → IsWellFormed d → IsWellFormed (remove_route os h d).1
unfolding remove_route
remove_route-IsWellFormed os h d w = elim (Bool-cases os.lock_ok) [
  | inl locked ↦ elim (read_cases d.file) [
    | inl e ↦
        let rs = prune_stale_routes os (routes_of d.file) in
        let kept = keep (other_host h) rs in
        let u = UniqueHosts-keep (other_host h) rs (prune-UniqueHosts os (routes_of d.file) w) in
        rw (locked, e, file-after_write (length kept) (write_routes os kept d))
          (write-IsWellFormed os kept d u w)
    | inr (x, e) ↦ rw (locked, e) w
  ]
  | inr e ↦ rw e w
]

pub list_routes-IsWellFormed :
    (os : Os) (d : Disk) → IsWellFormed d → IsWellFormed (list_routes os d).1
unfolding list_routes
list_routes-IsWellFormed os d w = elim (Bool-cases os.lock_ok) [
  | inl locked ↦ elim (read_cases d.file) [
    | inl e ↦
        let rs = prune_stale_routes os (routes_of d.file) in
        rw (locked, e, file-after_write rs (write_routes os rs d))
          (write-IsWellFormed os rs d (prune-UniqueHosts os (routes_of d.file) w) w)
    | inr (x, e) ↦ rw (locked, e) w
  ]
  | inr e ↦ rw e w
]

-- The commands that write the file, each under the outcomes of its own system calls.
pub data Command : Type 0 where
  add : Os → Route → Command
  remove : Os → String → Command
  list : Os → Command

unfoldable pub run : List Command → Disk → Disk
run [] d = d
run (add os route ∷ cs) d = run cs (add_route os route d).1
run (remove os h ∷ cs) d = run cs (remove_route os h d).1
run (list os ∷ cs) d = run cs (list_routes os d).1

-- From a file with one route for each hostname, every sequence of AddRoute, RemoveRoute and
-- ListRoutes, with any failures of the system calls, leaves one route for each hostname.
pub run-IsWellFormed : (cs : List Command) (d : Disk) → IsWellFormed d → IsWellFormed (run cs d)
unfolding run
run-IsWellFormed [] d w = w
run-IsWellFormed (add os route ∷ cs) d w =
    run-IsWellFormed cs (add_route os route d).1 (add_route-IsWellFormed os route d w)
run-IsWellFormed (remove os h ∷ cs) d w =
    run-IsWellFormed cs (remove_route os h d).1 (remove_route-IsWellFormed os h d w)
run-IsWellFormed (list os ∷ cs) d w =
    run-IsWellFormed cs (list_routes os d).1 (list_routes-IsWellFormed os d w)
