-- ===== src/Container/Tests.antt =====
-- The theorems on the container engine with a concrete podman, and runs of the code.
use mathlib.Core.Path.{subst}
use astro_cli.Container.Manager.Repeat.{initialize-initialize}
use astro_cli.Container.Docker.{initialize_docker-waits, timeout, tick, waiting, initialize_docker}
use astro_cli.Container.Resolve.{orbctl_binary, docker_binary, podman_binary, Host, Binary}
use astro_cli.Container.Manager.Ensures.{ensure_machine-IsUp}
use astro_cli.Prelude.{
  some-inj, ap, sym, refl, some, ℕ, find_by, err, ◌≡◌, false, codes, true, Bool, [], ok, ◌∷◌,
  Result, List, String,
}
use astro_cli.Container.{
  timed_out, machine_absent, machine_running, machine_stopped, podman, Config, MachineState,
  ListedMachine, InspectedMachine, ListedContainer,
}
use astro_cli.Container.Manager.{
  connection_env_for, connection_env, bring_up, initialize, machine_state, is_astro,
  other_running_machine, make_room, podman_machine_name, ensure_machine, State, Setup, PodmanEngine,
}

-- The state of the one machine, and the default connection.
abbrev World : Type 0
World = MachineState × String

abbrev list_of : MachineState → List ListedMachine
list_of machine_running = record { name = "astro-machine"; running = true } ∷ []
list_of machine_stopped = record { name = "astro-machine"; running = false } ∷ []
list_of machine_absent = []

abbrev inspected_in : MachineState → Result String InspectedMachine
inspected_in machine_running = ok (record {
  name = "astro-machine";
  socket_path = codes "/run/astro-machine.sock";
  state = "running";
})
inspected_in machine_stopped = err "stopped"
inspected_in machine_absent = err "absent"

abbrev project : ListedContainer
project = record { name = "webserver"; labels = ("com.docker.compose.project", "dags") ∷ [] }

abbrev podman_engine : PodmanEngine World
podman_engine = record {
  initialize_machine = λ name cfg w. (ok tt, (machine_running, w.1));
  start_machine = λ name w. (ok tt, (machine_running, w.1));
  stop_machine = λ name w. (ok tt, (machine_stopped, w.1));
  remove_machine = λ name w. (ok tt, (machine_absent, w.1));
  set_machine_as_default = λ name w. (ok tt, (w.0, name));
  inspect_machine = λ name w. inspected_in (w.0);
  list_machines = λ w. ok (list_of (w.0));
  list_containers = λ w. ok (project ∷ []);
}

abbrev config : Config
config = record { binary = "podman"; machine_memory = ""; machine_cpu = "" }

abbrev setup : Setup World
setup = record {
  engine = podman;
  cfg = config;
  is_windows = false;
  is_mac = true;
  podman = podman_engine;
}

abbrev at_state : MachineState → State World
at_state state = record { docker_host = []; container_host = []; world = (state, "other") }

abbrev runs_in : MachineState → Bool
runs_in machine_running = true
runs_in machine_stopped = false
runs_in machine_absent = false

abbrev running : World → String → Bool
running w name = runs_in (w.0)

found_running :
    (state : MachineState) (machine : ListedMachine)
    → find_by is_astro (list_of state) ≡ some machine
    → machine.running ≡ runs_in state
found_running machine_running machine e = sym (ap (λ (m : ListedMachine). m.running) (some-inj e))
found_running machine_stopped machine e = sym (ap (λ (m : ListedMachine). m.running) (some-inj e))
found_running machine_absent machine e = absurd (cc)

listed_running :
    (state : MachineState) (machines : List ListedMachine) (machine : ListedMachine)
    → (let listing : Result String (List ListedMachine) = ok (list_of state) in listing)
      ≡ ok machines
    → find_by is_astro machines ≡ some machine
    → machine.running ≡ runs_in state
listed_running state machines machine h e =
    let same : list_of state ≡ machines = cc in
    found_running state machine
      (subst (λ (ms : List ListedMachine). find_by is_astro ms ≡ some machine) (sym same) e)

abbrev up : State World
up = record (at_state machine_stopped) { world = (machine_running, "astro-machine") }

ensured : ensure_machine setup (at_state machine_stopped) ≡ (ok tt, up)
unfolding ensure_machine make_room other_running_machine machine_state bring_up
ensured = refl

ensure_machine-IsUp_example :
    (running up.world podman_machine_name ≡ true) × (up.world.1 ≡ podman_machine_name)
ensure_machine-IsUp_example =
    ensure_machine-IsUp setup running (λ w. w.1)
      (λ w machines machine h e. listed_running (w.0) machines machine h e) (λ w name h. refl)
      (λ w name h. refl) (λ w name h. (refl, refl)) (at_state machine_stopped) up refl refl ensured

abbrev socket : List ℕ
socket = codes "unix:///run/astro-machine.sock"

abbrev pointed : State World
pointed = record up { docker_host = socket; container_host = socket }

initialized : initialize setup (at_state machine_stopped) ≡ (ok tt, pointed)
unfolding initialize ensure_machine make_room other_running_machine machine_state bring_up
    connection_env connection_env_for
initialized = refl

initialize-initialize_example : initialize setup pointed ≡ (ok tt, pointed)
initialize-initialize_example =
    initialize-initialize setup (at_state machine_stopped) pointed initialized

abbrev is_podman_binary : Binary → Bool
is_podman_binary podman_binary = true
is_podman_binary docker_binary = false
is_podman_binary orbctl_binary = false

abbrev host : Host
host = record {
  is_windows = false;
  is_mac = true;
  path_dirs = "/bin" ∷ [];
  file_exists = λ dir binary exe. is_podman_binary binary;
}

initialize_docker-waits_example :
    (initialize_docker false true (waiting 3 (tick true ∷ [])) ≡ some (ok tt))
    × (initialize_docker false true (waiting 3 (timeout ∷ [])) ≡ some (err timed_out))
initialize_docker-waits_example = initialize_docker-waits 3 []
