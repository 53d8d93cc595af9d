-- ===== src/DeploymentFile/Requests.antt =====
-- What createOrUpdateDeployment sends: the bodies of the create and update calls, with the helpers
-- of cloud/deployment/deployment.go that fill in the sizes. A standard and a dedicated body share
-- most of their fields.
use astro_cli.Prelude.Int.{ℤ}
use astro_cli.Prelude.{
  [], ◌==◌, ◌∷◌, some, not, none, if◌then◌else◌, map, Option, true, Bool, List, String,
}
use astro_cli.DeploymentFile.{
  FormattedDeployment, HibernationSchedule, EnvironmentVariable, Deployment, DeploymentOptions,
  RemoteExecution,
}
use astro_cli.DeploymentFile.Kinds.{SchedulerSize, CloudProvider}
use astro_cli.WorkerQueue.{Executor}
use astro_cli.WorkerQueue.Queues.{SentQueue}

pub record DeploymentHibernationSchedule : Type 0 where
  pub description : String
  pub hibernate_at_cron : String
  pub is_enabled : Bool
  pub wake_at_cron : String

unfoldable pub to_deployment_hibernation_schedules :
    List HibernationSchedule → List DeploymentHibernationSchedule
to_deployment_hibernation_schedules = map (λ (s : HibernationSchedule). record {
  description = s.description;
  hibernate_at_cron = s.hibernate_at;
  is_enabled = s.enabled;
  wake_at_cron = s.wake_at;
})

pub record RemoteExecutionRequest : Type 0 where
  pub enabled : Bool
  pub allowed_ip_address_ranges : Option (List String)
  pub task_log_bucket : Option String
  pub task_log_url_pattern : Option String

abbrev pub remote_request : RemoteExecution → RemoteExecutionRequest
remote_request r = record {
  enabled = true;
  allowed_ip_address_ranges = r.allowed_ip_address_ranges;
  task_log_bucket = r.task_log_bucket;
  task_log_url_pattern = r.task_log_url_pattern;
}

-- The fields DefaultTaskPodCpu, DefaultTaskPodMemory, ResourceQuotaCpu and ResourceQuotaMemory.
pub record Sizes : Type 0 where
  pub task_pod_cpu : Option String
  pub task_pod_memory : Option String
  pub quota_cpu : Option String
  pub quota_memory : Option String

-- CreateDefaultTaskPodCPU and its three siblings: the size of the file, or the platform's default.
unfoldable pub create_size : String → Bool → String → Option String
create_size size remote_enabled default =
    if not (size == "") then some size else if remote_enabled then none else some default

unfoldable pub created_sizes : FormattedDeployment → Bool → DeploymentOptions → Sizes
unfolding create_size
created_sizes file remote_enabled options =
    let config = file.configuration in
    record {
      task_pod_cpu = create_size config.default_task_pod_cpu remote_enabled options.default_pod_cpu;
      task_pod_memory =
          create_size config.default_task_pod_memory remote_enabled options.default_pod_memory;
      quota_cpu = create_size config.resource_quota_cpu remote_enabled options.quota_cpu;
      quota_memory = create_size config.resource_quota_memory remote_enabled options.quota_memory;
    }

-- UpdateDefaultTaskPodCPU and its three siblings, called without options: the size of the file, or
-- that of the deployment.
unfoldable pub update_size : String → Option String → Option String
update_size size current = if not (size == "") then some size else current

unfoldable pub updated_sizes : FormattedDeployment → Deployment → Sizes
unfolding update_size
updated_sizes file d =
    let config = file.configuration in
    record {
      task_pod_cpu = update_size config.default_task_pod_cpu d.default_task_pod_cpu;
      task_pod_memory = update_size config.default_task_pod_memory d.default_task_pod_memory;
      quota_cpu = update_size config.resource_quota_cpu d.resource_quota_cpu;
      quota_memory = update_size config.resource_quota_memory d.resource_quota_memory;
    }

pub record HostedCreate : Type 0 where
  pub astro_runtime_version : String
  pub description : String
  pub name : String
  pub executor : Option Executor
  pub is_cicd_enforced : Bool
  pub is_dag_deploy_enabled : Bool
  pub is_high_availability : Bool
  pub is_development_mode : Bool
  pub workspace_id : String
  pub sizes : Sizes
  pub workload_identity : Option String
  pub worker_queues : Option (List SentQueue)
  pub scheduler_size : Option SchedulerSize
  pub schedules : Option (List DeploymentHibernationSchedule)

pub record HybridCreate : Type 0 where
  pub astro_runtime_version : String
  pub description : String
  pub name : String
  pub executor : Option Executor
  pub is_cicd_enforced : Bool
  pub is_dag_deploy_enabled : Bool
  pub cluster_id : String
  pub workspace_id : String
  pub workload_identity : String
  pub worker_queues : Option (List SentQueue)
  pub scheduler : Option (Option ℤ × Option ℤ)
  pub task_pod_node_pool_id : Option String

-- A standard body names a cloud provider and a region, a dedicated one a cluster.
pub data CreateRequest : Type 0 where
  create_standard : HostedCreate → Option CloudProvider → String → CreateRequest
  create_dedicated : HostedCreate → String → Option RemoteExecutionRequest → CreateRequest
  create_hybrid : HybridCreate → CreateRequest

pub record HostedUpdate : Type 0 where
  pub description : String
  pub name : String
  pub executor : Option Executor
  pub is_cicd_enforced : Bool
  pub is_dag_deploy_enabled : Bool
  pub is_high_availability : Bool
  pub workspace_id : String
  pub sizes : Sizes
  pub scheduler_size : Option SchedulerSize
  pub contact_emails : List String
  pub environment_variables : List EnvironmentVariable
  pub workload_identity : Option String
  pub worker_queues : Option (List SentQueue)
  pub schedules : Option (List DeploymentHibernationSchedule)

pub record HybridUpdate : Type 0 where
  pub description : String
  pub name : String
  pub executor : Option Executor
  pub is_cicd_enforced : Bool
  pub is_dag_deploy_enabled : Bool
  pub workspace_id : String
  pub scheduler : ℤ × ℤ
  pub contact_emails : List String
  pub environment_variables : List EnvironmentVariable
  pub workload_identity : String
  pub worker_queues : Option (List SentQueue)
  pub task_pod_node_pool_id : Option String

pub data UpdateRequest : Type 0 where
  update_standard : HostedUpdate → UpdateRequest
  update_dedicated : HostedUpdate → Option RemoteExecutionRequest → UpdateRequest
  update_hybrid : HybridUpdate → UpdateRequest

-- A list that is sent only if it is not empty.
abbrev pub list_unless_empty {ℓ} : {A : Type ℓ} → List A → Option (List A)
list_unless_empty [] = none
list_unless_empty (x ∷ xs) = some (x ∷ xs)

-- The schedules are sent for a deployment in development mode.
abbrev pub schedules_of : FormattedDeployment → Bool → Option (List DeploymentHibernationSchedule)
schedules_of file is_development =
    if is_development
    then some (to_deployment_hibernation_schedules file.hibernation_schedules)
    else none

-- createEnvVarsRequest: DeploymentEnvironmentVariableRequest has the fields of the file's variable.
unfoldable pub create_env_vars_request : FormattedDeployment → List EnvironmentVariable
create_env_vars_request file =
    map
      (λ (v : EnvironmentVariable). record {
        is_secret = v.is_secret;
        key = v.key;
        value = v.value;
      })
      file.env_vars
