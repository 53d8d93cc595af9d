-- ===== src/DeploymentFile/Send/Sent.antt =====
-- The calls that createOrUpdateDeployment makes, whatever the platform answers.
use astro_cli.Prelude.{
  arith, ok-inj, bind-ok, sym, false, ap, none, inr, some, inl, ◌∷◌, ok, Bool-cases, Bool, ◌≡◌,
  Option, List, String,
}
use astro_cli.DeploymentFile.{
  FormattedDeployment, Deployment, DeploymentOptions, EnvironmentVariable,
}
use astro_cli.DeploymentFile.Kinds.{created_executor, updated_executor, hybrid_executor}
use astro_cli.DeploymentFile.Requests.{
  RemoteExecutionRequest, CreateRequest, create_standard, create_dedicated, create_hybrid,
  UpdateRequest, update_standard, update_dedicated, update_hybrid,
}
use astro_cli.DeploymentFile.Create.{
  create_deployment_request, hosted_create, hybrid_create, task_pod_node_pool,
}
use astro_cli.DeploymentFile.Update.{
  update_deployment_request, hosted_update, hybrid_update, body_of, changes_cluster, updated_remote,
}
use astro_cli.DeploymentFile.Calls.{Platform, Surroundings, History, create_call}
use astro_cli.DeploymentFile.Send.{worker_queues_of, options_of, send_create}
use astro_cli.WorkerQueue.{NodePool, DeploymentKind, standard, dedicated, hybrid}
use astro_cli.WorkerQueue.Queues.{SentQueue}

-- The name in a body.
abbrev pub created_name : CreateRequest → String
created_name (create_standard body provider region) = body.name
created_name (create_dedicated body cluster remote) = body.name
created_name (create_hybrid body) = body.name

abbrev pub updated_name : UpdateRequest → String
updated_name (update_standard body) = body.name
updated_name (update_dedicated body remote) = body.name
updated_name (update_hybrid body) = body.name

pub worker_queues-silent :
    (platform : Platform) (file : FormattedDeployment) (d : Deployment) (pools : List NodePool)
    (h : History)
    → (worker_queues_of platform file d pools h).1 ≡ h
unfolding worker_queues_of
worker_queues-silent platform file d pools h = ground arith

pub options-silent :
    (platform : Platform) (kind : Option DeploymentKind) (file : FormattedDeployment) (h : History)
    → (options_of platform kind file h).1 ≡ h
unfolding options_of
options-silent platform kind file h = ground arith

pub create_deployment_request-name :
    (kind : Option DeploymentKind) (file : FormattedDeployment) (cluster_id workspace_id : String)
    (pools : List NodePool) (dag_deploy : Bool) (queues : List SentQueue)
    (options : DeploymentOptions) {request : CreateRequest}
    → create_deployment_request kind file cluster_id workspace_id pools dag_deploy queues options
      ≡ ok request
    → created_name request ≡ file.configuration.name
unfolding create_deployment_request hosted_create hybrid_create
create_deployment_request-name (some standard) file cluster_id workspace_id pools dag_deploy queues
      options e =
    ap created_name (sym (ok-inj e))
create_deployment_request-name (some dedicated) file cluster_id workspace_id pools dag_deploy queues
      options e =
    ap created_name (sym (ok-inj e))
create_deployment_request-name (some hybrid) file cluster_id workspace_id pools dag_deploy queues
      options e =
    let (pool, _, made) =
      bind-ok
        (task_pod_node_pool (hybrid_executor (created_executor file.configuration.executor))
          file.configuration.default_worker_type pools)
        _ e in
    ap created_name (sym (ok-inj made))
create_deployment_request-name none file cluster_id workspace_id pools dag_deploy queues options e =
    let (pool, _, made) =
      bind-ok
        (task_pod_node_pool (hybrid_executor (created_executor file.configuration.executor))
          file.configuration.default_worker_type pools)
        _ e in
    ap created_name (sym (ok-inj made))

pub send_create-history :
    (around : Surroundings) (workspace_id : String) (request : CreateRequest) (h : History)
    → (send_create around workspace_id request h).1 ≡ create_call request ∷ h
unfolding send_create
send_create-history around workspace_id request h = ground arith

update_deployment_request-name :
    (kind : Option DeploymentKind) (file : FormattedDeployment) (workspace_id : String)
    (d : Deployment) (pools : List NodePool) (dag_deploy : Bool)
    (env_vars : List EnvironmentVariable) (queues : List SentQueue)
    (remote : Option RemoteExecutionRequest) {request : UpdateRequest}
    → body_of kind file workspace_id d pools dag_deploy env_vars queues remote ≡ ok request
    → updated_name request ≡ file.configuration.name
unfolding hosted_update hybrid_update
update_deployment_request-name (some standard) file workspace_id d pools dag_deploy env_vars queues
      remote e =
    ap updated_name (sym (ok-inj e))
update_deployment_request-name (some dedicated) file workspace_id d pools dag_deploy env_vars queues
      remote e =
    ap updated_name (sym (ok-inj e))
update_deployment_request-name (some hybrid) file workspace_id d pools dag_deploy env_vars queues
      remote e =
    let (pool, _, made) =
      bind-ok
        (task_pod_node_pool (hybrid_executor (updated_executor file.configuration.executor))
          file.configuration.default_worker_type pools)
        _ e in
    ap updated_name (sym (ok-inj made))
update_deployment_request-name none file workspace_id d pools dag_deploy env_vars queues remote e =
    let (pool, _, made) =
      bind-ok
        (task_pod_node_pool (hybrid_executor (updated_executor file.configuration.executor))
          file.configuration.default_worker_type pools)
        _ e in
    ap updated_name (sym (ok-inj made))

-- An update body that was made: its cluster is the deployment's, and it has the file's name.
pub update_deployment_request-ok :
    (kind : Option DeploymentKind) (file : FormattedDeployment) (cluster_id workspace_id : String)
    (d : Deployment) (pools : List NodePool) (dag_deploy : Bool)
    (env_vars : List EnvironmentVariable) (queues : List SentQueue) {request : UpdateRequest}
    → update_deployment_request kind file cluster_id workspace_id d pools dag_deploy env_vars queues
      ≡ ok request
    → (changes_cluster cluster_id d.cluster_id ≡ false)
      × (updated_name request ≡ file.configuration.name)
unfolding update_deployment_request
update_deployment_request-ok kind file cluster_id workspace_id d pools dag_deploy env_vars queues
      e =
    elim (Bool-cases (changes_cluster cluster_id d.cluster_id)) [
      | inl changes ↦ absurd (ground arith)
      | inr keeps ↦
          let (remote, _, made) =
            bind-ok (updated_remote d.remote_execution file.configuration.remote_execution) _
              (rw keeps at e) in
          (
            keeps,
            update_deployment_request-name kind file workspace_id d pools dag_deploy env_vars queues
                remote made,
          )
    ]
