-- ===== src/DeploymentFile/Create.antt =====
-- The create half of createOrUpdateDeployment: the body for each deployment type.
use astro_cli.Prelude.Int.{pos, eq_ℤ, ℤ}
use astro_cli.Prelude.{
  ◌&&◌, ok, ◌>>=◌, Result, none, some, if◌then◌else◌, List, false, String, Bool, Option,
}
use astro_cli.DeploymentFile.{FormattedDeployment, DeploymentOptions, RemoteExecution, FileError}
use astro_cli.DeploymentFile.Kinds.{
  created_executor, hybrid_executor, scheduler_size_of, cloud_provider_of,
}
use astro_cli.DeploymentFile.Queues.{get_node_pool_id_from_worker_type, text_or_none}
use astro_cli.DeploymentFile.Requests.{
  HostedCreate, CreateRequest, create_standard, create_dedicated, create_hybrid, created_sizes,
  remote_request, RemoteExecutionRequest, schedules_of, list_unless_empty,
}
use astro_cli.WorkerQueue.{Executor, kubernetes, NodePool, DeploymentKind, standard, dedicated}
use astro_cli.WorkerQueue.Queues.{SentQueue}

abbrev pub is_enabled : Option RemoteExecution → Bool
is_enabled none = false
is_enabled (some r) = r.enabled

-- remoteExecutionEnabled
abbrev pub wants_remote : FormattedDeployment → Bool
wants_remote file = is_enabled file.configuration.remote_execution

-- The remote execution of a create, if the file enables it.
abbrev pub created_remote : Option RemoteExecution → Option RemoteExecutionRequest
created_remote none = none
created_remote (some r) = if r.enabled then some (remote_request r) else none

-- The fields that a standard and a dedicated body share.
unfoldable pub hosted_create :
    FormattedDeployment → String → Bool → List SentQueue → DeploymentOptions → HostedCreate
hosted_create file workspace_id dag_deploy queues options =
    let config = file.configuration in
    record {
      astro_runtime_version = config.runtime_version;
      description = config.description;
      name = config.name;
      executor = created_executor config.executor;
      is_cicd_enforced = config.api_key_only_deployments;
      is_dag_deploy_enabled = dag_deploy;
      is_high_availability = config.is_high_availability;
      is_development_mode = config.is_development_mode;
      workspace_id = workspace_id;
      sizes = created_sizes file (wants_remote file) options;
      workload_identity = text_or_none config.workload_identity;
      worker_queues = list_unless_empty queues;
      scheduler_size = scheduler_size_of config.scheduler_size;
      schedules = schedules_of file config.is_development_mode;
    }

abbrev pub unless_zero : ℤ → Option ℤ
unless_zero n = if eq_ℤ n (pos 0) then none else some n

-- The scheduler of a hybrid body: the units and the replicas that are not 0.
abbrev pub hybrid_scheduler : ℤ → ℤ → Option (Option ℤ × Option ℤ)
hybrid_scheduler au replicas =
    if eq_ℤ au (pos 0) && eq_ℤ replicas (pos 0)
    then none
    else some (unless_zero au, unless_zero replicas)

-- Only a Kubernetes executor has a node pool for its pods.
unfoldable pub task_pod_node_pool :
    Option Executor → String → List NodePool → Result FileError (Option String)
task_pod_node_pool (some kubernetes) worker_type pools = do
  pool ← get_node_pool_id_from_worker_type worker_type pools
  ok (some pool)
task_pod_node_pool _ worker_type pools = ok none

unfoldable pub hybrid_create :
    FormattedDeployment
    → String
    → String
    → List NodePool
    → Bool
    → List SentQueue
    → Result FileError CreateRequest
hybrid_create file cluster_id workspace_id pools dag_deploy queues =
    let config = file.configuration in
    let executor = hybrid_executor (created_executor config.executor) in
    task_pod_node_pool executor config.default_worker_type pools >>= λ pool. ok (
      create_hybrid (record {
        astro_runtime_version = config.runtime_version;
        description = config.description;
        name = config.name;
        executor = executor;
        is_cicd_enforced = config.api_key_only_deployments;
        is_dag_deploy_enabled = dag_deploy;
        cluster_id = cluster_id;
        workspace_id = workspace_id;
        workload_identity = config.workload_identity;
        worker_queues = list_unless_empty queues;
        scheduler = hybrid_scheduler config.scheduler_au config.scheduler_count;
        task_pod_node_pool_id = pool;
      }))

-- The options are those that GetDeploymentOptions returned, which is not called for a hybrid one.
unfoldable pub create_deployment_request :
    Option DeploymentKind
    → FormattedDeployment
    → String
    → String
    → List NodePool
    → Bool
    → List SentQueue
    → DeploymentOptions
    → Result FileError CreateRequest
create_deployment_request (some standard) file cluster_id workspace_id pools dag_deploy queues
      options =
    ok (
      create_standard (hosted_create file workspace_id dag_deploy queues options)
        (cloud_provider_of file.configuration.cloud_provider) file.configuration.region)
create_deployment_request (some dedicated) file cluster_id workspace_id pools dag_deploy queues
      options =
    ok (
      create_dedicated (hosted_create file workspace_id dag_deploy queues options) cluster_id
        (created_remote file.configuration.remote_execution))
create_deployment_request _ file cluster_id workspace_id pools dag_deploy queues options =
    hybrid_create file cluster_id workspace_id pools dag_deploy queues
