-- ===== src/Proxy/Routes/Table.antt =====
-- The routes file as a table from hostnames to routes.
use mathlib.Core.Path.{subst}
use mathlib.Core.Path.{fun_ext}
use astro_cli.Prelude.{
  if_intro, Bool, false, ℕ, ◌∙◌, sym, ap, Result-cases, refl, inr, eq_iff, inl, err, arith, ok,
  Bool-cases, [], ◌==◌, none, ◌∷◌, some, if◌then◌else◌, Result, find_by, String, ◌≡◌, List, Option,
}
use astro_cli.Proxy.Routes.{
  Route, Disk, Os, RouteError, write_routes, prune_stale_routes, is_live, add_route, remove_route,
  list_routes, get_route, routes_of, has_host, after_write, find_read, finish_add, Placed, updated,
  collides, not_found, place,
}
use astro_cli.Proxy.Routes.Views.{read_cases, answer, write_ok_file, verdict, verdict-place}
use astro_cli.Proxy.Routes.Lookup.{
  after_write-ok, live_routes, get_route-add_route, remove_route-success,
}
use astro_cli.Proxy.Routes.Unique.{
  Command, add, remove, list, run, Lacks, UniqueHosts, IsWellFormed, run-IsWellFormed,
}
use astro_cli.Proxy.Routes.Failure.{fails, run-fails}

abbrev pub Table : Type 0
Table = String → Option Route

-- What the file says of a hostname.
abbrev pub table_of : Disk → Table
table_of d j = find_by (has_host j) (routes_of d.file)

-- A stale route counts as none.
unfoldable pub live : Os → Option Route → Option Route
unfolding is_live
live os none = none
live os (some r) = if is_live os r then some r else none

-- The entry of a hostname that AddRoute may take, or the table's own where it may not.
unfoldable pub put_entry : Result RouteError (Unit {0}) → Option Route → Option Route → Option Route
put_entry (ok _) new old = new
put_entry (err e) new old = old

-- What a command that does not fail makes of a table.
unfoldable pub step_table : Command → Table → Table
unfolding live
step_table (add os route) t j =
    put_entry (answer route (live os (t route.hostname)))
      (if route.hostname == j then some route else live os (t j)) (t j)
step_table (remove os h) t j = if h == j then none else live os (t j)
step_table (list os) t j = live os (t j)

-- A command that fails changes no table.
unfoldable pub run_table : List (Command × Bool) → Table → Table
unfolding step_table
run_table [] t = t
run_table ((c, failed) ∷ cs) t = run_table cs (if failed then t else step_table c t)

-- The commands, each with whether it fails where it stands.
unfoldable pub outcomes : List Command → Disk → List (Command × Bool)
outcomes [] d = []
outcomes (c ∷ cs) d = (c, fails c d) ∷ outcomes cs (run (c ∷ []) d)

find-Lacks :
    (os : Os) (j : String) (rs : List Route)
    → Lacks j rs
    → find_by (has_host j) (prune_stale_routes os rs) ≡ none
unfolding prune_stale_routes
find-Lacks os j [] l = refl
find-Lacks os j (r ∷ rs) (n, l) = ground (arith, find-Lacks os j rs l, eq_iff r.hostname j)

-- With one route for each hostname, pruning makes stale entries none.
find-prune :
    (os : Os) (j : String) (rs : List Route)
    → UniqueHosts rs
    → find_by (has_host j) (prune_stale_routes os rs) ≡ live os (find_by (has_host j) rs)
unfolding prune_stale_routes live
find-prune os j [] u = refl
find-prune os j (r ∷ rs) (l, u) = elim (Bool-cases (r.hostname == j)) [
  | inl here ↦
      ground (arith, find-Lacks os j rs (subst (λ h. Lacks h rs) ((eq_iff r.hostname j).0 here) l))
  | inr other ↦ ground (arith, find-prune os j rs u)
]

-- GetRoute tells what the table says, where the file can be read.
table_of-get_route :
    (j : String) (d : Disk) {found : Option Route} → get_route j d ≡ ok found → table_of d j ≡ found
unfolding get_route
table_of-get_route j d h = elim (read_cases d.file) [
  | inl e ↦ (let here = ap (find_read (has_host j)) e in cc)
  | inr (x, e) ↦ absurd (ground arith)
]

finish_add-verdict_ok :
    (os : Os) (route : Route) (rs : List Route) (p : Placed) (d : Disk)
    → (finish_add os route rs p d).0 ≡ ok tt
    → verdict route p ≡ ok tt
finish_add-verdict_ok os route rs (updated rs') d h = refl
finish_add-verdict_ok os route rs (collides dir) d h = absurd (cc)
finish_add-verdict_ok os route rs not_found d h = refl

-- AddRoute succeeds only if it may take the hostname.
add_route-may :
    (os : Os) (route : Route) (d : Disk)
    → (add_route os route d).0 ≡ ok tt
    → answer route (find_by (has_host route.hostname) (live_routes os d)) ≡ ok tt
unfolding add_route
add_route-may os route d h = elim (Bool-cases os.lock_ok) [
  | inl locked ↦ elim (read_cases d.file) [
    | inl e ↦
        let rs = live_routes os d in
        sym (verdict-place route rs)
        ∙ finish_add-verdict_ok os route rs (place route rs) d (rw (locked, e) at h)
    | inr (x, e) ↦ absurd (ground arith)
  ]
  | inr e ↦ absurd (ground arith)
]

list_routes-table :
    (os : Os) (d : Disk) (j : String) {rs : List Route}
    → (list_routes os d).0 ≡ ok rs
    → table_of (list_routes os d).1 j ≡ find_by (has_host j) (live_routes os d)
unfolding list_routes
list_routes-table os d j {rs} h = elim (Bool-cases os.lock_ok) [
  | inl locked ↦ elim (read_cases d.file) [
    | inl e ↦ rw (locked, e) (go (rw (locked, e) at h))
    | inr (x, e) ↦ absurd (ground arith)
  ]
  | inr e ↦ absurd (ground arith)
]
  where
    kept : List Route
    kept = live_routes os d

    go :
        (after_write kept (write_routes os kept d)).0 ≡ ok rs
        → find_by (has_host j) (routes_of (after_write kept (write_routes os kept d)).1.file)
          ≡ find_by (has_host j) kept
    go q =
        let (_, wrote, same) = after_write-ok kept rs (write_routes os kept d) q in
        ap (λ (t : Disk). find_by (has_host j) (routes_of t.file)) same
        ∙ ap (λ f. find_by (has_host j) (routes_of f)) (write_ok_file os kept d wrote)

step_table-add :
    (os : Os) (route : Route) (d : Disk) (j : String)
    → IsWellFormed d
    → (add_route os route d).0 ≡ ok tt
    → table_of (add_route os route d).1 j ≡ step_table (add os route) (table_of d) j
unfolding step_table put_entry
step_table-add os route d j w h =
    let rs = routes_of d.file in
    table_of-get_route j _ (get_route-add_route os route d j h)
    ∙ ap (λ o. if route.hostname == j then some route else o) (find-prune os j rs w)
    ∙ ap
        (λ r.
          put_entry r (if route.hostname == j then some route else live os (table_of d j))
            (table_of d j))
        (sym (add_route-may os route d h) ∙ ap (answer route) (find-prune os route.hostname rs w))

step_table-remove :
    (os : Os) (h : String) (d : Disk) (j : String) {n : ℕ}
    → IsWellFormed d
    → (remove_route os h d).0 ≡ ok n
    → table_of (remove_route os h d).1 j ≡ step_table (remove os h) (table_of d) j
unfolding step_table
step_table-remove os h d j {n} w e =
    table_of-get_route j _ (remove_route-success os h d n j e).1
    ∙ ap (λ o. if h == j then none else o) (find-prune os j (routes_of d.file) w)

-- One command that does not fail is the table's step.
step_table-run :
    (c : Command) (d : Disk)
    → IsWellFormed d
    → fails c d ≡ false
    → table_of (run (c ∷ []) d) ≡ step_table c (table_of d)
unfolding run step_table
step_table-run (add os route) d w h = elim (Result-cases (add_route os route d).0) [
  | inl (x, e) ↦ absurd (cc)
  | inr (u, e) ↦ fun_ext (λ j. step_table-add os route d j w e)
]
step_table-run (remove os name) d w h = elim (Result-cases (remove_route os name d).0) [
  | inl (x, e) ↦ absurd (cc)
  | inr (n, e) ↦ fun_ext (λ j. step_table-remove os name d j w e)
]
step_table-run (list os) d w h = elim (Result-cases (list_routes os d).0) [
  | inl (x, e) ↦ absurd (cc)
  | inr (rs, e) ↦ fun_ext (λ j. list_routes-table os d j e ∙ find-prune os j (routes_of d.file) w)
]

-- One command, with its outcome.
table_of-run :
    (c : Command) (d : Disk)
    → IsWellFormed d
    → table_of (run (c ∷ []) d) ≡ (if fails c d then table_of d else step_table c (table_of d))
table_of-run c d w =
    if_intro (λ t. table_of (run (c ∷ []) d) ≡ t) (fails c d)
      (λ failed. fun_ext (λ j. ap (λ f. find_by (has_host j) (routes_of f)) (run-fails c d failed)))
      (λ worked. step_table-run c d w worked)

run-cons : (c : Command) (cs : List Command) (d : Disk) → run (c ∷ cs) d ≡ run cs (run (c ∷ []) d)
unfolding run
run-cons (add os route) cs d = refl
run-cons (remove os h) cs d = refl
run-cons (list os) cs d = refl

-- From a file with one route for each hostname, every sequence of AddRoute, RemoveRoute and
-- ListRoutes makes of the table of routes by hostname what the steps of the table make of it, where
-- a command that fails changes nothing, AddRoute sets the entry of its hostname if no live route of
-- another project has it, RemoveRoute empties the entry, and each empties the other entries whose
-- routes are stale.
pub run-run_table :
    (cs : List Command) (d : Disk)
    → IsWellFormed d
    → table_of (run cs d) ≡ run_table (outcomes cs d) (table_of d)
unfolding run run_table outcomes
run-run_table [] d w = refl
run-run_table (c ∷ cs) d w =
    let next = run (c ∷ []) d in
    ap table_of (run-cons c cs d)
    ∙ run-run_table cs next (run-IsWellFormed (c ∷ []) d w)
    ∙ ap (run_table (outcomes cs next)) (table_of-run c d w)
