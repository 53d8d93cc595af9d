-- ===== src/Proxy/Ports.antt =====
-- pkg/proxy/ports.go: a free port for a project. A number that the code prints is its decimal text.
pub mod Allocate
mod Tests
use mathlib.Core.Option
use astro_cli.Proxy.Routes.{RouteError, Route, Disk, read_routes}
use astro_cli.Prelude.{
  ◌-◌, codes, itoa, eq_codes, String, List, ℕ, Bool, Result, ok, err, ◌∷◌, [], ◌==◌, ◌||◌,
  contains_by, zero, suc, if◌then◌else◌, not, ◌&&◌, ◌+◌,
}

abbrev pub port_range_min : ℕ
port_range_min = 10000

abbrev pub port_range_max : ℕ
port_range_max = 19999

abbrev pub max_retries : ℕ
max_retries = 50

pub data PortError : Type 0 where
  no_port_found : PortError

-- `allocated`: the ports of the routes and of their services.
unfoldable pub holds_port : List ℕ → Route → Bool
holds_port port r =
    eq_codes port (codes r.port)
    || contains_by (λ (s : String × String). eq_codes port (codes s.1)) r.services

unfoldable pub is_allocated : List Route → List ℕ → Bool
unfolding holds_port
is_allocated routes port = contains_by (holds_port port) routes

-- An error of ReadRoutes is ignored.
abbrev pub routes_or_none : Result RouteError (List Route) → List Route
routes_or_none (ok routes) = routes
routes_or_none (err e) = []

-- The number that is tried: `intn` is rand.Intn, by the round and the bound.
abbrev pub number_at : (ℕ → ℕ → ℕ) → ℕ → ℕ
number_at intn round = port_range_min + intn round (port_range_max - port_range_min + 1)

-- `free round port` is whether a connection to the port fails in the round; `rounds` is what is
-- left of maxRetries.
unfoldable pub draw_port :
    (ℕ → ℕ → ℕ) → (ℕ → List ℕ → Bool) → List Route → ℕ → ℕ → Result PortError (List ℕ)
unfolding is_allocated
draw_port intn free routes zero round = err no_port_found
draw_port intn free routes (suc rounds) round =
    let port = itoa (number_at intn round) in
    let next = draw_port intn free routes rounds (suc round) in
    if is_allocated routes port then next else if free round port then ok port else next

unfoldable pub allocate_port : (ℕ → ℕ → ℕ) → (ℕ → List ℕ → Bool) → Disk → Result PortError (List ℕ)
allocate_port intn free d = draw_port intn free (routes_or_none (read_routes d.file)) max_retries 0
