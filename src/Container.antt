-- ===== src/Container.antt =====
-- pkg/container: the container engine of the host, and the Podman machine that it may need. The
-- podman and docker programs are parameters.
pub mod Resolve
pub mod Manager
pub mod Docker
mod Tests
use astro_cli.Prelude.{List, Bool, String, ℕ}

-- Config, with texts as their code points where the code looks into them.
pub record Config : Type 0 where
  pub binary : String
  pub machine_memory : String
  pub machine_cpu : String

pub data ContainerError : Type 0 where
  runtime_not_found machine_not_running machine_already_running : ContainerError
  project_not_running docker_not_started timed_out : ContainerError
  engine_failed : String → ContainerError

-- Docker and OrbStack are both driven through the docker program.
pub data Engine : Type 0 where
  docker podman orbstack : Engine

pub data MachineState : Type 0 where
  machine_running machine_stopped machine_absent : MachineState

pub record ListedMachine : Type 0 where
  pub name : String
  pub running : Bool

-- The socket's path is that of ConnectionInfo.
pub record InspectedMachine : Type 0 where
  pub name : String
  pub socket_path : List ℕ
  pub state : String

pub record ListedContainer : Type 0 where
  pub name : String
  pub labels : List (String × String)
