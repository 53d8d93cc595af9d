-- ===== src/DeploymentFile/Update.antt =====
-- The update half of createOrUpdateDeployment: the body for each deployment type.
use astro_cli.Prelude.{
  ◌==◌, none, err, ok, not, some, ◌>>=◌, if◌then◌else◌, Result, false, List, Bool, String, Option,
}
use astro_cli.DeploymentFile.{
  FormattedDeployment, Deployment, EnvironmentVariable, RemoteExecution, FileError, not_permitted,
}
use astro_cli.DeploymentFile.Kinds.{updated_executor, hybrid_executor, scheduler_size_of}
use astro_cli.DeploymentFile.Queues.{text_or_none, follow}
use astro_cli.DeploymentFile.Requests.{
  HostedUpdate, UpdateRequest, update_standard, update_dedicated, update_hybrid, updated_sizes,
  remote_request, RemoteExecutionRequest, schedules_of, list_unless_empty,
}
use astro_cli.DeploymentFile.Create.{task_pod_node_pool}
use astro_cli.WorkerQueue.{NodePool, DeploymentKind, standard, dedicated}
use astro_cli.WorkerQueue.Queues.{SentQueue}

-- A pointer to a Boolean that is not nil and true.
abbrev pub is_set : Option Bool → Bool
is_set none = false
is_set (some b) = b

-- `clusterID != *existingDeployment.ClusterId`, where the deployment has a cluster.
abbrev pub changes_cluster : String → Option String → Bool
changes_cluster cluster_id none = false
changes_cluster cluster_id (some current) = not (cluster_id == current)

-- IsRemoteExecutionEnabled of the deployment: the file's part is followed without a test.
abbrev pub updated_remote :
    Option Bool → Option RemoteExecution → Result FileError (Option RemoteExecutionRequest)
updated_remote enabled remote =
    if not (is_set enabled) then ok none else do r ← follow remote; ok (some (remote_request r))

-- The fields that a standard and a dedicated body share.
unfoldable pub hosted_update :
    FormattedDeployment
    → String
    → Deployment
    → Bool
    → List EnvironmentVariable
    → List SentQueue
    → HostedUpdate
hosted_update file workspace_id d dag_deploy env_vars queues =
    let config = file.configuration in
    record {
      description = config.description;
      name = config.name;
      executor = updated_executor config.executor;
      is_cicd_enforced = config.api_key_only_deployments;
      is_dag_deploy_enabled = dag_deploy;
      is_high_availability = config.is_high_availability;
      workspace_id = workspace_id;
      sizes = updated_sizes file d;
      scheduler_size = scheduler_size_of config.scheduler_size;
      contact_emails = file.alert_emails;
      environment_variables = env_vars;
      workload_identity = text_or_none config.workload_identity;
      worker_queues = list_unless_empty queues;
      schedules = schedules_of file (is_set d.is_development_mode);
    }

unfoldable pub hybrid_update :
    FormattedDeployment
    → String
    → List NodePool
    → Bool
    → List EnvironmentVariable
    → List SentQueue
    → Result FileError UpdateRequest
hybrid_update file workspace_id pools dag_deploy env_vars queues =
    let config = file.configuration in
    let executor = hybrid_executor (updated_executor config.executor) in
    task_pod_node_pool executor config.default_worker_type pools >>= λ pool. ok (
      update_hybrid (record {
        description = config.description;
        name = config.name;
        executor = executor;
        is_cicd_enforced = config.api_key_only_deployments;
        is_dag_deploy_enabled = dag_deploy;
        workspace_id = workspace_id;
        scheduler = (config.scheduler_au, config.scheduler_count);
        contact_emails = file.alert_emails;
        environment_variables = env_vars;
        workload_identity = config.workload_identity;
        worker_queues = list_unless_empty queues;
        task_pod_node_pool_id = pool;
      }))

abbrev pub body_of :
    Option DeploymentKind
    → FormattedDeployment
    → String
    → Deployment
    → List NodePool
    → Bool
    → List EnvironmentVariable
    → List SentQueue
    → Option RemoteExecutionRequest
    → Result FileError UpdateRequest
body_of (some standard) file workspace_id d pools dag_deploy env_vars queues remote =
    ok (update_standard (hosted_update file workspace_id d dag_deploy env_vars queues))
body_of (some dedicated) file workspace_id d pools dag_deploy env_vars queues remote =
    ok (update_dedicated (hosted_update file workspace_id d dag_deploy env_vars queues) remote)
body_of _ file workspace_id d pools dag_deploy env_vars queues remote =
    hybrid_update file workspace_id pools dag_deploy env_vars queues

-- The cluster is compared before the body is built.
unfoldable pub update_deployment_request :
    Option DeploymentKind
    → FormattedDeployment
    → String
    → String
    → Deployment
    → List NodePool
    → Bool
    → List EnvironmentVariable
    → List SentQueue
    → Result FileError UpdateRequest
update_deployment_request kind file cluster_id workspace_id d pools dag_deploy env_vars queues =
    if changes_cluster cluster_id d.cluster_id then err not_permitted else do
      remote ← updated_remote d.remote_execution file.configuration.remote_execution
      body_of kind file workspace_id d pools dag_deploy env_vars queues remote
