-- ===== src/DeploymentFile/Send.antt =====
-- createOrUpdateDeployment: the queues, the body and the call.
pub mod Sent
pub mod Traces
pub mod Ids
use astro_cli.Prelude.Int.{pos}
use astro_cli.Prelude.{◌&&◌, ok, not, err, if◌then◌else◌, Result, Bool, [], Option, List, String}
use astro_cli.DeploymentFile.{
  FormattedDeployment, Deployment, EnvironmentVariable, DeploymentOptions, FileError,
}
use astro_cli.DeploymentFile.Check.{has_queues}
use astro_cli.DeploymentFile.Kinds.{
  transform_deployment_type, is_hosted_type, get_core_cloud_provider,
}
use astro_cli.DeploymentFile.Queues.{get_queues, hosted_requests, hybrid_requests}
use astro_cli.DeploymentFile.Requests.{CreateRequest, UpdateRequest}
use astro_cli.DeploymentFile.Calls.{
  Platform, Surroundings, Calls, pure, lift, asks, sends, create_call, update_call, ◌>>=◌,
}
use astro_cli.DeploymentFile.Create.{create_deployment_request}
use astro_cli.DeploymentFile.Update.{update_deployment_request}
use astro_cli.WorkerQueue.{Action, create, update, NodePool, WorkerQueue, DeploymentKind, Range}
use astro_cli.WorkerQueue.Prepare.{zero_machine, queues_or_none}
use astro_cli.WorkerQueue.Queues.{
  SentQueue, convert_create_queues_to_update, convert_hybrid_queues_to_update,
}

-- The options that a create reads before the body of a standard or dedicated deployment is built.
abbrev pub zero_range : Range
zero_range = record { ceiling = pos 0; default = pos 0; floor = pos 0 }

abbrev pub zero_options : DeploymentOptions
zero_options = record {
  worker_queues = record {
    max_workers = zero_range;
    min_workers = zero_range;
    worker_concurrency = zero_range;
  };
  worker_machines = [];
  default_pod_cpu = "";
  default_pod_memory = "";
  quota_cpu = "";
  quota_memory = "";
}

unfoldable pub options_of :
    Platform → Option DeploymentKind → FormattedDeployment → Calls DeploymentOptions
options_of platform kind file =
    if is_hosted_type kind
    then asks (
        platform.deployment_options kind
          (get_core_cloud_provider file.configuration.cloud_provider))
    else pure zero_options

abbrev pub on_ok {ℓ κ} :
    {A : Type ℓ} {B : Type κ} → (A → B) → Result FileError A → Result FileError B
on_ok f (err e) = err e
on_ok f (ok a) = ok (f a)

-- The queues that a body holds. Encoding a body follows the pointers to the ids, and the slice they
-- point into does not change after the pointers were taken.
unfoldable pub queue_requests :
    Option DeploymentKind
    → FormattedDeployment
    → List WorkerQueue
    → DeploymentOptions
    → Result FileError (List SentQueue)
queue_requests kind file queues options =
    let executor = file.configuration.executor in
    if is_hosted_type kind
    then on_ok (convert_create_queues_to_update queues)
        (hosted_requests options executor queues 0 zero_machine)
    else on_ok (convert_hybrid_queues_to_update queues)
        (hybrid_requests options.worker_queues executor queues 0)

-- The first half of createOrUpdateDeployment.
unfoldable pub worker_queues_of :
    Platform → FormattedDeployment → Deployment → List NodePool → Calls (List SentQueue)
worker_queues_of platform file d pools = if not (has_queues file) then pure [] else do
  queues ← lift (get_queues file pools (queues_or_none d.worker_queues))
  options ← asks platform.platform_options
  lift (
      queue_requests (transform_deployment_type file.configuration.deployment_type) file queues
        options)

-- CoreCreateDeployment and, if it is asked for, HealthPoll of the new deployment.
unfoldable pub send_create : Surroundings → String → CreateRequest → Calls (Unit {0})
send_create around workspace_id request = do
  id ← sends (create_call request) (around.platform.create_deployment request)
  if around.wait_for_status then asks (around.platform.health_poll id workspace_id) else pure tt

-- The warning about CI/CD enforcement, and CoreUpdateDeployment unless the user cancels.
unfoldable pub send_update :
    Surroundings → FormattedDeployment → Bool → String → UpdateRequest → Calls (Unit {0})
send_update around file dag_deploy id request =
    if not around.force
      && file.configuration.api_key_only_deployments
      && dag_deploy
      && not around.can_cicd_deploy
      && not around.confirm
    then pure tt
    else sends (update_call id request) (around.platform.update_deployment id request)

unfoldable pub create_or_update_deployment :
    Surroundings
    → FormattedDeployment
    → String
    → String
    → Action
    → Deployment
    → List NodePool
    → Bool
    → List EnvironmentVariable
    → Calls (Unit {0})
create_or_update_deployment around file cluster_id workspace_id create d pools dag_deploy env_vars =
    let kind = transform_deployment_type file.configuration.deployment_type in
    do
      queues ← worker_queues_of around.platform file d pools
      options ← options_of around.platform kind file
      request ← lift (
          create_deployment_request kind file cluster_id workspace_id pools dag_deploy queues
            options)
      send_create around workspace_id request
create_or_update_deployment around file cluster_id workspace_id update d pools dag_deploy env_vars =
    let kind = transform_deployment_type file.configuration.deployment_type in
    do
      queues ← worker_queues_of around.platform file d pools
      request ← lift (
          update_deployment_request kind file cluster_id workspace_id d pools dag_deploy env_vars
            queues)
      send_update around file dag_deploy d.id request
