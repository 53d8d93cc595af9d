-- ===== src/Proxy/Ports/Tests.antt =====
-- Ports, where two are taken.
use astro_cli.Proxy.Routes.{Disk, holds, routes_of, read_routes}
use astro_cli.Proxy.Ports.{max_retries, holds_port, is_allocated, draw_port, allocate_port}
use astro_cli.Proxy.Ports.Allocate.{Drawn, allocate_port-Drawn}
use astro_cli.Prelude.{
  refl, ok, arith, eq_codes, ltb, [], itoa, ◌<◌, not, if◌then◌else◌, ◌∷◌, List, ℕ, Bool, false, ◌≡◌,
  codes,
}
use astro_cli.Prelude.Int.{pos}

abbrev disk : Disk
disk = record {
  file = holds (
      record {
        hostname = "a.localhost";
        port = "10000";
        project_dir = "/a";
        pid = pos 7;
        services = ("postgres", "10001") ∷ [];
        mode = "";
      }
      ∷ []);
  tmp_left = false;
}

-- The first rounds draw the ports in their order, and 10002 is in use.
abbrev in_order : ℕ → ℕ → ℕ
in_order i n = if ltb i n then i else 0

abbrev is_free : ℕ → List ℕ → Bool
is_free round port = not (eq_codes port (codes "10002"))

below_bound : (i n : ℕ) → 0 < n → in_order i n < n
below_bound i n h = ground arith

third_free : allocate_port in_order is_free disk ≡ ok (codes "10003")
unfolding allocate_port draw_port read_routes itoa is_allocated holds_port
third_free = refl

allocate_port-Drawn_example :
    Drawn in_order is_free (routes_of disk.file) 0 max_retries (allocate_port in_order is_free disk)
allocate_port-Drawn_example = allocate_port-Drawn in_order is_free disk below_bound
