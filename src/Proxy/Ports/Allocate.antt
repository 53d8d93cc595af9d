-- ===== src/Proxy/Ports/Allocate.antt =====
-- What AllocatePort returns, and when it gives up.
use mathlib.Core.Path.{subst}
use astro_cli.Proxy.Routes.{
  RoutesFile, absent, unreadable, blank, garbled, holds, routes_of, Route, Disk, read_routes,
}
use astro_cli.Proxy.Ports.{
  port_range_max, number_at, PortError, port_range_min, max_retries, is_allocated, routes_or_none,
  draw_port, allocate_port,
}
use astro_cli.Prelude.{
  ◌-◌, inr, inl, eqb, refl, if_intro, Bool-cases, ◌<◌, zero, err, ◌≤◌, ok, arith, suc, true, ◌+◌,
  Result, false, itoa, Bool, List, ℕ, ◌≡◌,
}

module _ (intn : ℕ → ℕ → ℕ) (free : ℕ → List ℕ → Bool) (routes : List Route) where
  abbrev pub port_at : ℕ → List ℕ
  port_at i = itoa (number_at intn i)

  -- A round whose port can be taken.
  abbrev pub Usable : ℕ → Type 0
  Usable i = (is_allocated routes (port_at i) ≡ false) × (free i (port_at i) ≡ true)

  -- The port of the first usable round, or none of the rounds is usable.
  abbrev pub Drawn : ℕ → ℕ → Result PortError (List ℕ) → Type 0
  Drawn from to (ok port) =
      (i : ℕ) × (from ≤ i)
      × (i < to)
      × (port ≡ port_at i)
      × ((port_range_min ≤ number_at intn i) × (number_at intn i ≤ port_range_max))
      × Usable i
      × ((j : ℕ) → from ≤ j → j < i → ¬ Usable j)
  Drawn from to (err e) = (j : ℕ) → from ≤ j → j < to → ¬ Usable j

  later : (from j : ℕ) → ¬ Usable from → (suc from ≤ j → ¬ Usable j) → from ≤ j → ¬ Usable j
  later from j unusable h le = elim (Bool-cases (eqb from j)) [
    | inl e ↦ subst (λ n. ¬ Usable n) (ground arith) unusable
    | inr ne ↦ h (ground arith)
  ]

  Drawn-later :
      (from to : ℕ) (r : Result PortError (List ℕ))
      → ¬ Usable from
      → Drawn (suc from) to r
      → Drawn from to r
  Drawn-later from to (ok port) unusable (i, le, lt, same, ranged, usable, before) = (
    i,
    omega arith,
    lt,
    same,
    ranged,
    usable,
    λ j le' lt'. later from j unusable (λ lt. before j lt lt') le',
  )
  Drawn-later from to (err e) unusable h = λ j le lt. later from j unusable (λ lt'. h j lt' lt) le

  draw_port-Drawn :
      ((i n : ℕ) → 0 < n → intn i n < n)
      → (rounds round to : ℕ) → to ≡ round + rounds
      → Drawn round to (draw_port intn free routes rounds round)
  unfolding draw_port
  draw_port-Drawn below zero round to h = λ j le lt. absurd (omega arith)
  draw_port-Drawn below (suc rounds) round to h =
      let rest = draw_port-Drawn below rounds (suc round) to (omega arith) in
      if_intro (Drawn round to) (is_allocated routes (port_at round))
        (λ taken. Drawn-later round to _ (λ u. absurd (cc)) rest)
        (λ others.
          if_intro (Drawn round to) (free round (port_at round))
            (λ works. (
              round,
              omega arith,
              omega arith,
              refl,
              (let lt = below round (port_range_max - port_range_min + 1) (omega arith) in
                  (omega arith, omega arith)),
              (others, works),
              λ j le lt. absurd (omega arith),
            ))
            (λ busy. Drawn-later round to _ (λ u. absurd (cc)) rest))

routes_or_none-read : (f : RoutesFile) → routes_or_none (read_routes f) ≡ routes_of f
unfolding read_routes
routes_or_none-read absent = refl
routes_or_none-read unreadable = refl
routes_or_none-read blank = refl
routes_or_none-read garbled = refl
routes_or_none-read (holds routes) = refl

-- Where rand.Intn stays below its bound, AllocatePort returns the port of the first of its fifty
-- rounds whose port no route of the file and no service of a route has, and which is free, and this
-- port is between 10000 and 19999; it gives up only where there is no such round.
pub allocate_port-Drawn :
    (intn : ℕ → ℕ → ℕ) (free : ℕ → List ℕ → Bool) (d : Disk)
    → ((i n : ℕ) → 0 < n → intn i n < n)
    → Drawn intn free (routes_of d.file) 0 max_retries (allocate_port intn free d)
unfolding allocate_port
allocate_port-Drawn intn free d below =
    subst (λ rs. Drawn intn free rs 0 max_retries (allocate_port intn free d))
      (routes_or_none-read d.file)
      (draw_port-Drawn intn free (routes_or_none (read_routes d.file)) below max_retries 0
        max_retries refl)
