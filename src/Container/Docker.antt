-- ===== src/Container/Docker.antt =====
-- docker_runtime.go: waiting for Docker to start.
use astro_cli.Prelude.{
  [], refl, not, ok, err, zero, some, if◌then◌else◌, none, true, ◌∷◌, Result, suc, false, ◌≡◌,
  Option, ℕ, List, Bool,
}
use astro_cli.Container.{docker_not_started, timed_out, ContainerError}

-- What the loop of initializeDocker receives: half a second has gone, with the answer of `docker
-- ps`, or the minute is over.
pub data Event : Type 0 where
  tick : Bool → Event
  timeout : Event

-- `none`: the loop waits for more.
unfoldable pub poll : List Event → Option (Result ContainerError (Unit {0}))
poll [] = none
poll (timeout ∷ events) = some (err timed_out)
poll (tick running ∷ events) = let rest = poll events in if running then some (ok tt) else rest

-- `is_running` and `started` are the first answer of `docker ps` and that of the start.
unfoldable pub initialize_docker :
    Bool → Bool → List Event → Option (Result ContainerError (Unit {0}))
initialize_docker is_running started events =
    if is_running
    then some (ok tt)
    else if not started
    then some (err docker_not_started)
    else poll events

unfoldable pub initialize :
    Bool → Bool → Bool → List Event → Option (Result ContainerError (Unit {0}))
initialize is_mac is_running started events =
    if not is_mac then some (ok tt) else initialize_docker is_running started events

-- `n` ticks at which Docker is not up.
abbrev pub waiting : ℕ → List Event → List Event
waiting zero events = events
waiting (suc n) events = tick false ∷ waiting n events

poll-waiting : (n : ℕ) (events : List Event) → poll (waiting n events) ≡ poll events
unfolding poll
poll-waiting zero events = refl
poll-waiting (suc n) events = poll-waiting n events

-- However often Docker is found not to be up, the wait ends with the first tick that finds it up,
-- in success, or with the end of the minute, in an error.
pub initialize_docker-waits :
    (n : ℕ) (later : List Event)
    → (initialize_docker false true (waiting n (tick true ∷ later)) ≡ some (ok tt))
      × (initialize_docker false true (waiting n (timeout ∷ later)) ≡ some (err timed_out))
unfolding initialize_docker poll
initialize_docker-waits n later =
    (poll-waiting n (tick true ∷ later), poll-waiting n (timeout ∷ later))
