-- ===== src/Container/Manager.antt =====
-- manager.go and manager_runtime.go: the Podman machine of the projects, "astro-machine". The
-- podman program is a parameter over a world `W`; the variables of the process stand beside the
-- world. os.Setenv succeeds, since its names are valid. Feedback is not modelled.
pub mod Steps
pub mod Ensures
pub mod Repeat
use astro_cli.Prelude.{
  length, ◌++◌, contains_text, ltb, ◌||◌, eqb, codes, some, false, none, find_by, true, not,
  contains_by, ◌&&◌, ◌==◌, ℕ, if◌then◌else◌, Option, err, ok, Result, List, Bool, String,
}
use mathlib.Core.Option
use astro_cli.Container.{
  orbstack, machine_already_running, docker, machine_stopped, podman, machine_not_running,
  machine_running, project_not_running, machine_absent, engine_failed, Config, ContainerError,
  Engine, MachineState, ListedMachine, InspectedMachine, ListedContainer,
}

-- PodmanEngine; what only reads leaves the world.
pub record PodmanEngine (W : Type 0) : Type 0 where
  pub initialize_machine : String → Config → W → Result String (Unit {0}) × W
  pub start_machine : String → W → Result String (Unit {0}) × W
  pub stop_machine : String → W → Result String (Unit {0}) × W
  pub remove_machine : String → W → Result String (Unit {0}) × W
  pub set_machine_as_default : String → W → Result String (Unit {0}) × W
  pub inspect_machine : String → W → Result String InspectedMachine
  pub list_machines : W → Result String (List ListedMachine)
  pub list_containers : W → Result String (List ListedContainer)

-- Manager, without the feedback.
pub record Setup (W : Type 0) : Type 0 where
  pub engine : Engine
  pub cfg : Config
  pub is_windows : Bool
  pub is_mac : Bool
  pub podman : PodmanEngine W

-- The variables that are read and set, and the world of podman.
pub record State (W : Type 0) : Type 0 where
  pub docker_host : List ℕ
  pub container_host : List ℕ
  pub world : W

-- A step may fail, and what it has done stays.
abbrev pub M : Type 0 → Type 0 → Type 0
M W A = State W → Result ContainerError A × State W

abbrev pub and_then :
    {W A B : Type 0}
    → Result ContainerError A × State W
    → (A → M W B)
    → Result ContainerError B × State W
and_then (err e, s) next = (err e, s)
and_then (ok a, s) next = next a s

infixl 5 ◌>>=◌ ◌>>◌
abbrev pub ◌>>=◌ : {W A B : Type 0} → M W A → (A → M W B) → M W B
◌>>=◌ m next s = and_then (m s) next

abbrev pub ◌>>◌ : {W A B : Type 0} → M W A → M W B → M W B
m >> next = m >>= (λ a. next)

abbrev pub pure : {W A : Type 0} → A → M W A
pure a s = (ok a, s)

abbrev pub fail : {W A : Type 0} → ContainerError → M W A
fail e s = (err e, s)

abbrev pub podman_machine_name : String
podman_machine_name = "astro-machine"

abbrev pub compose_project_label : String
compose_project_label = "com.docker.compose.project"

-- What a command of podman answers, with the new world.
abbrev pub finished :
    {W : Type 0}
    → State W
    → Result String (Unit {0}) × W
    → Result ContainerError (Unit {0}) × State W
finished s (err message, w) = (err (engine_failed message), record s { world = w })
finished s (ok u, w) = (ok u, record s { world = w })

abbrev pub act : {W : Type 0} → (W → Result String (Unit {0}) × W) → M W (Unit {0})
act op s = finished s (op s.world)

abbrev pub answered : {A : Type 0} → Result String A → Result ContainerError A
answered (err message) = err (engine_failed message)
answered (ok a) = ok a

abbrev pub ask : {W A : Type 0} → (W → Result String A) → M W A
ask op s = (answered (op s.world), s)

-- A listed machine by its name.
abbrev pub is_astro : ListedMachine → Bool
is_astro m = m.name == podman_machine_name

abbrev pub is_other_running : ListedMachine → Bool
is_other_running m = m.running && not (is_astro m)

abbrev pub is_project : ListedContainer → Bool
is_project c = contains_by (λ (l : String × String). l.0 == compose_project_label) c.labels

unfoldable pub has_running_projects : List ListedContainer → Bool
has_running_projects containers = contains_by is_project containers

-- connectionEnvFor, as the values of DOCKER_HOST and CONTAINER_HOST.
unfoldable pub connection_env_for : InspectedMachine → Bool → List ℕ × Option (List ℕ)
connection_env_for machine windows =
    let socket = codes "unix://" ++ machine.socket_path in
    if windows
    then (codes "npipe:////./pipe/podman-" ++ codes machine.name, none)
    else (socket, some socket)

abbrev pub set_env : {W : Type 0} → Option (List ℕ × Option (List ℕ)) → M W (Unit {0})
set_env none s = (ok tt, s)
set_env (some (docker_host, none)) s = (ok tt, record s { docker_host = docker_host })
set_env (some (docker_host, some container_host)) s =
    (ok tt, record s { docker_host = docker_host; container_host = container_host })

-- Whether the user has a DOCKER_HOST.
abbrev pub has_docker_host : {W : Type 0} → State W → Bool
has_docker_host s = not (eqb (length s.docker_host) 0)

abbrev pub is_podman : Engine → Bool
is_podman podman = true
is_podman docker = false
is_podman orbstack = false

abbrev pub unless_idle : {W : Type 0} → Setup W → M W (Unit {0}) → M W (Unit {0})
unless_idle m next s = if not (is_podman m.engine) || has_docker_host s then (ok tt, s) else next s

module _ {W : Type 0} (m : Setup W) where
  -- astroMachine
  abbrev pub astro_machine : M W (Option ListedMachine)
  astro_machine = do machines ← ask m.podman.list_machines; pure (find_by is_astro machines)

  abbrev pub state_of : Option ListedMachine → MachineState
  state_of none = machine_absent
  state_of (some machine) = if machine.running then machine_running else machine_stopped

  unfoldable pub machine_state : M W MachineState
  machine_state s =
      if not (is_podman m.engine)
      then (ok machine_absent, s)
      else (astro_machine >>= λ machine. pure (state_of machine)) s

  -- The name of the other running machine; an error of the listing is none.
  abbrev pub other_in : Result String (List ListedMachine) → Option String
  other_in (err message) = none
  other_in (ok machines) =
      Option.map (λ (machine : ListedMachine). machine.name) (find_by is_other_running machines)

  unfoldable pub other_running_machine : W → Option String
  other_running_machine w = other_in (m.podman.list_machines w)

  -- The step of EnsureMachine on a Mac where another machine runs.
  unfoldable pub make_room : Option String → M W (Unit {0})
  make_room none = pure tt
  make_room (some other) = if other == "" || not m.is_mac then pure tt else do
    act (m.podman.set_machine_as_default other)
    containers ← ask m.podman.list_containers
    if ltb 0 (length containers)
        then fail machine_already_running
        else act (m.podman.stop_machine other)

  abbrev pub set_astro_default : M W (Unit {0})
  set_astro_default = act (m.podman.set_machine_as_default podman_machine_name)

  unfoldable pub bring_up : MachineState → M W (Unit {0})
  bring_up machine_running = set_astro_default
  bring_up machine_stopped = act (m.podman.start_machine podman_machine_name) >> set_astro_default
  bring_up machine_absent =
      act (m.podman.initialize_machine podman_machine_name m.cfg) >> set_astro_default

  unfoldable pub ensure_machine : M W (Unit {0})
  ensure_machine =
      unless_idle m
        λ s. (make_room (other_running_machine s.world) >> (machine_state >>= bring_up)) s

  abbrev pub running_env :
      Result String InspectedMachine → Result ContainerError (Option (List ℕ × Option (List ℕ)))
  running_env (err message) = err machine_not_running
  running_env (ok machine) =
      if machine.state == "running"
      then ok (some (connection_env_for machine m.is_windows))
      else err machine_not_running

  unfoldable pub connection_env : M W (Option (List ℕ × Option (List ℕ)))
  connection_env s =
      if not (is_podman m.engine) || has_docker_host s
      then (ok none, s)
      else (running_env (m.podman.inspect_machine podman_machine_name s.world), s)

  unfoldable pub initialize : M W (Unit {0})
  initialize = ensure_machine >> (connection_env >>= set_env)

  abbrev pub is_running : Option ListedMachine → Bool
  is_running none = false
  is_running (some machine) = machine.running

  abbrev pub listed_running : Result String (List ListedMachine) → Bool
  listed_running (err message) = false
  listed_running (ok machines) = is_running (find_by is_astro machines)

  unfoldable pub astro_machine_is_running : W → Bool
  astro_machine_is_running w = listed_running (m.podman.list_machines w)

  unfoldable pub configure_machine_for_usage : String → M W (Unit {0})
  configure_machine_for_usage name = do
    machine ← ask (m.podman.inspect_machine name)
    set_env (some (connection_env_for machine m.is_windows))
    act (m.podman.set_machine_as_default machine.name)

  unfoldable pub configure : M W (Unit {0})
  configure = unless_idle m λ s.
      if astro_machine_is_running s.world
      then configure_machine_for_usage podman_machine_name s
      else (err project_not_running, s)

  -- Stops the machine unless a project runs on it; `next` is what follows a stop.
  abbrev pub stop_unless_used : M W (Unit {0}) → M W (Unit {0})
  stop_unless_used next = do
    containers ← ask m.podman.list_containers
    if has_running_projects containers
        then pure tt
        else act (m.podman.stop_machine podman_machine_name) >> next

  abbrev pub remove_astro : M W (Unit {0})
  remove_astro = act (m.podman.remove_machine podman_machine_name)

  abbrev pub stop_and_kill_found : Option ListedMachine → M W (Unit {0})
  stop_and_kill_found none = pure tt
  stop_and_kill_found (some machine) =
      if machine.running then stop_unless_used remove_astro else remove_astro

  unfoldable pub stop_and_kill_machine : M W (Unit {0})
  stop_and_kill_machine = astro_machine >>= stop_and_kill_found

  unfoldable pub configure_or_kill : M W (Unit {0})
  configure_or_kill = unless_idle m λ s.
      if astro_machine_is_running s.world
      then configure_machine_for_usage podman_machine_name s
      else (stop_and_kill_machine >> fail project_not_running) s

  unfoldable pub kill : M W (Unit {0})
  kill s =
      if is_podman m.engine && contains_text s.docker_host (codes podman_machine_name)
      then stop_and_kill_machine s
      else (ok tt, s)

  unfoldable pub start_machine : M W (Unit {0})
  start_machine s =
      if not (is_podman m.engine)
      then (ok tt, s)
      else act (m.podman.start_machine podman_machine_name) s

  abbrev pub stop_found : Option ListedMachine → M W (Unit {0})
  stop_found none = pure tt
  stop_found (some machine) = if not machine.running then pure tt else stop_unless_used (pure tt)

  unfoldable pub stop_machine : M W (Unit {0})
  stop_machine s = if not (is_podman m.engine) then (ok tt, s) else (astro_machine >>= stop_found) s

  abbrev pub remove_found : Option ListedMachine → M W (Unit {0})
  remove_found none = pure tt
  remove_found (some machine) = stop_machine >> remove_astro

  unfoldable pub remove_machine : M W (Unit {0})
  remove_machine s =
      if not (is_podman m.engine) then (ok tt, s) else (astro_machine >>= remove_found) s
