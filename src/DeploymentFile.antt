-- ===== src/DeploymentFile.antt =====
-- cloud/deployment/fromfile/fromfile.go: deployments from a file. The types of the file are those
-- of cloud/deployment/inspect/inspect.go. A pointer that may be nil is an `Option`, a nil pointer
-- that is followed the error `nil_pointer`, and an index out of range the error `out_of_range`.
pub mod Check
pub mod Kinds
pub mod Queues
pub mod Requests
pub mod Calls
pub mod Create
pub mod Update
pub mod Lookup
pub mod Send
pub mod Command
mod Examples
mod Tests
use astro_cli.Prelude.{ℕ, String, Bool, Option, List}
use astro_cli.Prelude.Int.{ℤ}
use astro_cli.WorkerQueue.{WorkerQueue, WorkerMachine, NodePool, WorkerQueueOptions, QueueError}

pub record Workerq : Type 0 where
  pub name : String
  pub max_worker_count : ℤ
  pub min_worker_count : ℤ
  pub worker_concurrency : ℤ
  pub worker_type : String
  pub pod_ephemeral_storage : String

pub record EnvironmentVariable : Type 0 where
  pub is_secret : Bool
  pub key : String
  pub value : Option String

pub record HibernationSchedule : Type 0 where
  pub hibernate_at : String
  pub wake_at : String
  pub description : String
  pub enabled : Bool

pub record RemoteExecution : Type 0 where
  pub enabled : Bool
  pub allowed_ip_address_ranges : Option (List String)
  pub task_log_bucket : Option String
  pub task_log_url_pattern : Option String

pub record DeploymentConfig : Type 0 where
  pub name : String
  pub description : String
  pub runtime_version : String
  pub dag_deploy_enabled : Option Bool
  pub api_key_only_deployments : Bool
  pub scheduler_size : String
  pub is_high_availability : Bool
  pub is_development_mode : Bool
  pub executor : String
  pub scheduler_au : ℤ
  pub scheduler_count : ℤ
  pub cluster_name : String
  pub workspace_name : String
  pub deployment_type : String
  pub cloud_provider : String
  pub region : String
  pub default_task_pod_cpu : String
  pub default_task_pod_memory : String
  pub resource_quota_cpu : String
  pub resource_quota_memory : String
  pub default_worker_type : String
  pub workload_identity : String
  pub remote_execution : Option RemoteExecution

-- The field `Deployment` of a FormattedDeployment, without its metadata, which is not read.
pub record FormattedDeployment : Type 0 where
  pub env_vars : List EnvironmentVariable
  pub configuration : DeploymentConfig
  pub worker_queues : List Workerq
  pub alert_emails : List String
  pub hibernation_schedules : List HibernationSchedule

-- The deployment that the platform returns; `remote_execution` is its field `Enabled`.
pub record Deployment : Type 0 where
  pub id : String
  pub name : String
  pub workspace_id : String
  pub cluster_id : Option String
  pub is_dag_deploy_enabled : Bool
  pub is_development_mode : Option Bool
  pub worker_queues : Option (List WorkerQueue)
  pub remote_execution : Option Bool
  pub default_task_pod_cpu : Option String
  pub default_task_pod_memory : Option String
  pub resource_quota_cpu : Option String
  pub resource_quota_memory : Option String

pub record Cluster : Type 0 where
  pub id : String
  pub name : String
  pub node_pools : Option (List NodePool)

pub record Workspace : Type 0 where
  pub id : String
  pub name : String

-- DeploymentOptions: the options of the queues, the machines, and the default sizes of a task's pod
-- and of the quota.
pub record DeploymentOptions : Type 0 where
  pub worker_queues : WorkerQueueOptions
  pub worker_machines : List WorkerMachine
  pub default_pod_cpu : String
  pub default_pod_memory : String
  pub quota_cpu : String
  pub quota_memory : String

-- The fields that errRequiredField names; the number is the index in the file's list.
pub data Field : Type 0 where
  config_name config_executor default_queue : Field
  worker_queue_name worker_queue_type variable_key variable_value : ℕ → Field

-- `failed` is an error that a call outside this component returned.
pub data FileError : Type 0 where
  empty_file not_permitted no_use_worker_queues use_default_worker_type : FileError
  same_name nil_pointer out_of_range : FileError
  required_field : Field → FileError
  invalid_executor invalid_email already_exists not_found : String → FileError
  cluster_not_found worker_type_not_found : String → FileError
  invalid_queue : QueueError → FileError
  failed : String → FileError
