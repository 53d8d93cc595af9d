-- ===== src/Container/Manager/Ensures.antt =====
-- EnsureMachine brings the machine up, on a podman that does what it documents.
use astro_cli.Container.{machine_absent, machine_stopped, machine_running, MachineState}
use astro_cli.Container.Manager.Steps.{and_then-ok, finished-ok}
use astro_cli.Prelude.{
  none, arith, ◌∙◌, sym, ap, Option, refl, false, err, Result, true, some, find_by, ok, ◌≡◌, List,
  Bool, String,
}
use astro_cli.Container.Manager.{
  other_running_machine, make_room, pure, state_of, answered, act, has_docker_host, is_podman,
  podman, ensure_machine, bring_up, machine_state, and_then, ContainerError, set_astro_default,
  podman_machine_name, is_astro, ListedMachine, State, Setup,
}

-- `running` and `default` are what a world of podman holds: the machines that run, and the default
-- connection.
module _ {W : Type 0} (m : Setup W) (running : W → String → Bool) (default : W → String)
    (listed : (w : W) (machines : List ListedMachine) (machine : ListedMachine)
      → m.podman.list_machines w ≡ ok machines
      → find_by is_astro machines ≡ some machine
      → machine.running ≡ running w podman_machine_name)
    (started : (w : W) (name : String)
      → (m.podman.start_machine name w).0 ≡ ok tt
      → running ((m.podman.start_machine name w).1) name ≡ true)
    (initialized : (w : W) (name : String)
      → (m.podman.initialize_machine name m.cfg w).0 ≡ ok tt
      → running ((m.podman.initialize_machine name m.cfg w).1) name ≡ true)
    (made_default : (w : W) (name : String)
      → (m.podman.set_machine_as_default name w).0 ≡ ok tt
      → (default ((m.podman.set_machine_as_default name w).1) ≡ name)
        × (running ((m.podman.set_machine_as_default name w).1) ≡ running w)) where
  abbrev IsUp : State W → Type 0
  IsUp s = (running s.world podman_machine_name ≡ true) × (default s.world ≡ podman_machine_name)

  set_astro_default-IsUp :
      (s s' : State W)
      → running s.world podman_machine_name ≡ true
      → set_astro_default m s ≡ (ok tt, s')
      → IsUp s'
  set_astro_default-IsUp s s' r h =
      let (done, moved) =
        finished-ok s (m.podman.set_machine_as_default podman_machine_name s.world) h in
      let (is_default, same) = made_default s.world podman_machine_name done in
      rw moved (rw same r, is_default)

  -- A machine that is said to run does.
  abbrev IsSaid : State W → State W → MachineState → Type 0
  IsSaid s s' state =
      (s' ≡ s) × (state ≡ machine_running → running s.world podman_machine_name ≡ true)

  found-IsSaid :
      (s s' : State W) (state : MachineState) (machines : List ListedMachine)
      (found : Option ListedMachine)
      → m.podman.list_machines s.world ≡ ok machines
      → find_by is_astro machines ≡ found
      → (let pair : Result ContainerError MachineState × State W = (ok (state_of m found), s) in
          pair)
        ≡ (ok state, s')
      → IsSaid s s' state
  found-IsSaid s s' state machines none listing e h = (cc, λ r. absurd (cc))
  found-IsSaid s s' state machines (some machine) listing e h =
      (cc, λ r. sym (listed s.world machines machine listing e) ∙ ground arith)

  listing-IsSaid :
      (s s' : State W) (state : MachineState) (listing : Result String (List ListedMachine))
      → m.podman.list_machines s.world ≡ listing
      → and_then
          (and_then (answered listing, s) (λ machines. pure (find_by is_astro machines)))
          (λ found. pure (state_of m found))
        ≡ (ok state, s')
      → IsSaid s s' state
  listing-IsSaid s s' state (err message) e h = absurd (cc)
  listing-IsSaid s s' state (ok machines) e h =
      found-IsSaid s s' state machines (find_by is_astro machines) e refl h

  machine_state-IsSaid :
      (s s' : State W) (state : MachineState)
      → is_podman m.engine ≡ true
      → machine_state m s ≡ (ok state, s')
      → IsSaid s s' state
  unfolding machine_state
  machine_state-IsSaid s s' state e h =
      listing-IsSaid s s' state (m.podman.list_machines s.world) refl (rw e at h)

  bring_up-IsUp :
      (state : MachineState) (s s' : State W)
      → (state ≡ machine_running → running s.world podman_machine_name ≡ true)
      → bring_up m state s ≡ (ok tt, s')
      → IsUp s'
  unfolding bring_up
  bring_up-IsUp machine_running s s' r h = set_astro_default-IsUp s s' (r refl) h
  bring_up-IsUp machine_stopped s s' r h =
      let (u, s1, first, second) =
        and_then-ok (act (m.podman.start_machine podman_machine_name) s) _ h in
      let (done, moved) =
        finished-ok s (m.podman.start_machine podman_machine_name s.world) first in
      set_astro_default-IsUp s1 s' (rw moved (started s.world podman_machine_name done)) second
  bring_up-IsUp machine_absent s s' r h =
      let (u, s1, first, second) =
        and_then-ok (act (m.podman.initialize_machine podman_machine_name m.cfg) s) _ h in
      let (done, moved) =
        finished-ok s (m.podman.initialize_machine podman_machine_name m.cfg s.world) first in
      set_astro_default-IsUp s1 s' (rw moved (initialized s.world podman_machine_name done)) second

  -- On a podman that starts, initializes and makes default as documented, an EnsureMachine that
  -- succeeds, for Podman and without a DOCKER_HOST of the user, leaves the machine of the projects
  -- running and the default connection.
  pub ensure_machine-IsUp :
      (s s' : State W)
      → m.engine ≡ podman
      → has_docker_host s ≡ false
      → ensure_machine m s ≡ (ok tt, s')
      → IsUp s'
  unfolding ensure_machine
  ensure_machine-IsUp s s' e no_host h =
      let podman_engine : is_podman m.engine ≡ true = ap is_podman e in
      let (u, s1, first, second) =
        and_then-ok (make_room m (other_running_machine m s.world) s) _
          (rw (podman_engine, no_host) at h) in
      let (state, s2, third, fourth) = and_then-ok (machine_state m s1) (bring_up m) second in
      let (same, said) = machine_state-IsSaid s1 s2 state podman_engine third in
      bring_up-IsUp state s2 s' (λ r. rw same (said r)) fourth
