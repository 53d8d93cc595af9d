-- ===== src/Proxy/Routes.antt =====
-- pkg/proxy/routes.go: the file of registered routes. `Disk` is the routes file, as
-- `json.Unmarshal` reads it, with the temporary file beside it; `Os` says how the system calls of
-- one command come out. `encoding/json` reads back what it wrote.
pub mod Views
pub mod Unique
pub mod Lookup
pub mod Failure
pub mod Table
use astro_cli.Prelude.{
  String, ◌==◌, Bool, true, false, not, ◌||◌, ℕ, Option, none, some, List, [], ◌∷◌, ◌++◌, length,
  keep, find_by, Result, ok, err, if◌then◌else◌,
}
use astro_cli.Prelude.Int.{ℤ}

pub record Route : Type 0 where
  pub hostname : String
  pub port : String
  pub project_dir : String
  pub pid : ℤ
  pub services : List (String × String)
  pub mode : String

-- What the routes file holds.
pub data RoutesFile : Type 0 where
  absent : RoutesFile
  unreadable : RoutesFile
  blank : RoutesFile
  garbled : RoutesFile
  holds : List Route → RoutesFile

pub record Disk : Type 0 where
  pub file : RoutesFile
  pub tmp_left : Bool

-- The outcomes of the system calls. `partial` says whether a failed write leaves a file.
pub record Os : Type 0 where
  pub lock_ok : Bool
  pub mkdir_ok : Bool
  pub write_ok : Bool
  pub partial : Bool
  pub rename_ok : Bool
  pub remove_ok : Bool
  pub is_pid_alive : ℤ → Bool

pub data RouteError : Type 0 where
  lock_failed read_failed parse_failed mkdir_failed write_failed rename_failed : RouteError
  already_registered : String → String → RouteError

-- ReadRoutes
unfoldable pub read_routes : RoutesFile → Result RouteError (List Route)
read_routes absent = ok []
read_routes unreadable = err read_failed
read_routes blank = ok []
read_routes garbled = err parse_failed
read_routes (holds routes) = ok routes

-- WriteRoutes: a temporary file, then a rename.
unfoldable pub write_routes : Os → List Route → Disk → Result RouteError (Unit {0}) × Disk
write_routes os routes d =
    if not os.mkdir_ok
    then (err mkdir_failed, d)
    else if not os.write_ok
    then (err write_failed, record d { tmp_left = d.tmp_left || os.partial })
    else if not os.rename_ok
    then (err rename_failed, record d { tmp_left = not os.remove_ok })
    else (ok tt, record d { file = holds routes; tmp_left = false })

-- The test of PruneStaleRoutes.
unfoldable pub is_live : Os → Route → Bool
is_live os r = r.mode == "docker" || os.is_pid_alive r.pid

unfoldable pub prune_stale_routes : Os → List Route → List Route
unfolding is_live
prune_stale_routes os routes = keep (is_live os) routes

-- What the loop of AddRoute finds, with the list that it writes.
pub data Placed : Type 0 where
  updated : List Route → Placed
  collides : String → Placed
  not_found : Placed

abbrev pub behind : Route → Placed → Placed
behind r (updated rs) = updated (r ∷ rs)
behind r (collides dir) = collides dir
behind r not_found = not_found

unfoldable pub place : Route → List Route → Placed
place route [] = not_found
place route (r ∷ rs) =
    let rest = place route rs in
    if r.hostname == route.hostname
    then (if r.project_dir == route.project_dir
        then updated (route ∷ rs)
        else collides r.project_dir)
    else behind r rest

abbrev pub finish_add :
    Os → Route → List Route → Placed → Disk → Result RouteError (Unit {0}) × Disk
finish_add os route routes (updated rs) d = write_routes os rs d
finish_add os route routes (collides dir) d = (err (already_registered route.hostname dir), d)
finish_add os route routes not_found d = write_routes os (routes ++ route ∷ []) d

abbrev pub add_read :
    Os → Route → Result RouteError (List Route) → Disk → Result RouteError (Unit {0}) × Disk
add_read os route (err e) d = (err e, d)
add_read os route (ok all) d =
    let routes = prune_stale_routes os all in finish_add os route routes (place route routes) d

unfoldable pub add_route : Os → Route → Disk → Result RouteError (Unit {0}) × Disk
unfolding read_routes write_routes prune_stale_routes place
add_route os route d =
    if not os.lock_ok then (err lock_failed, d) else add_read os route (read_routes d.file) d

-- An error of WriteRoutes is returned; a success returns `a`.
abbrev pub after_write :
    {A : Type 0} → A → Result RouteError (Unit {0}) × Disk → Result RouteError A × Disk
after_write a (ok _, d) = (ok a, d)
after_write a (err e, d) = (err e, d)

abbrev pub other_host : String → Route → Bool
other_host hostname r = not (r.hostname == hostname)

abbrev pub remove_read :
    Os → String → Result RouteError (List Route) → Disk → Result RouteError ℕ × Disk
remove_read os hostname (err e) d = (err e, d)
remove_read os hostname (ok all) d =
    let filtered = keep (other_host hostname) (prune_stale_routes os all) in
    after_write (length filtered) (write_routes os filtered d)

unfoldable pub remove_route : Os → String → Disk → Result RouteError ℕ × Disk
unfolding read_routes write_routes prune_stale_routes
remove_route os hostname d =
    if not os.lock_ok then (err lock_failed, d) else remove_read os hostname (read_routes d.file) d

abbrev pub list_read :
    Os → Result RouteError (List Route) → Disk → Result RouteError (List Route) × Disk
list_read os (err e) d = (err e, d)
list_read os (ok all) d =
    let routes = prune_stale_routes os all in after_write routes (write_routes os routes d)

unfoldable pub list_routes : Os → Disk → Result RouteError (List Route) × Disk
unfolding read_routes write_routes prune_stale_routes
list_routes os d =
    if not os.lock_ok then (err lock_failed, d) else list_read os (read_routes d.file) d

abbrev pub find_read :
    (Route → Bool) → Result RouteError (List Route) → Result RouteError (Option Route)
find_read test (err e) = err e
find_read test (ok routes) = ok (find_by test routes)

-- The test of GetRoute's loop.
abbrev pub has_host : String → Route → Bool
has_host hostname r = r.hostname == hostname

-- GetRoute and GetRouteByProject only read.
unfoldable pub get_route : String → Disk → Result RouteError (Option Route)
unfolding read_routes
get_route hostname d = find_read (has_host hostname) (read_routes d.file)

unfoldable pub get_route_by_project : String → Disk → Result RouteError (Option Route)
unfolding read_routes
get_route_by_project dir d = find_read (λ r. r.project_dir == dir) (read_routes d.file)

-- The routes that a reader of the file sees.
abbrev pub routes_of : RoutesFile → List Route
routes_of (holds routes) = routes
routes_of _ = []
