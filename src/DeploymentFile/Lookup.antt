-- ===== src/DeploymentFile/Lookup.antt =====
-- The deployments, clusters and workspaces that a file names.
pub mod Unique
use astro_cli.Prelude.{
  ltb, suc, ◌∷◌, some, ok, err, false, ℕ, contains_by, ◌==◌, if◌then◌else◌, Result, Bool, [],
  Option, none, List, String,
}
use astro_cli.DeploymentFile.{
  FormattedDeployment, Deployment, Cluster, Workspace, FileError, same_name, cluster_not_found,
}
use astro_cli.DeploymentFile.Kinds.{transform_deployment_type, is_deployment_standard}
use astro_cli.DeploymentFile.Calls.{Platform, Calls, pure, raise, lift, asks, ◌>>=◌}
use astro_cli.WorkerQueue.{NodePool}

abbrev pub named : String → Deployment → Bool
named name d = d.name == name

abbrev pub deployment_exists : List Deployment → String → Bool
deployment_exists deployments name = contains_by (named name) deployments

-- The value of existingDeployment and the counter j after the loop of deploymentFromName.
abbrev pub last_named : String → List Deployment → Option Deployment × ℕ → Option Deployment × ℕ
last_named name [] found = found
last_named name (d ∷ ds) (found, j) =
    last_named name ds (if named name d then (some d, suc j) else (found, j))

-- Go's zero value of the deployment.
abbrev pub zero_deployment : Deployment
zero_deployment = record {
  id = "";
  name = "";
  workspace_id = "";
  cluster_id = none;
  is_dag_deploy_enabled = false;
  is_development_mode = none;
  worker_queues = none;
  remote_execution = none;
  default_task_pod_cpu = none;
  default_task_pod_memory = none;
  resource_quota_cpu = none;
  resource_quota_memory = none;
}

abbrev pub get_found : Platform → Option Deployment × ℕ → Calls Deployment
get_found platform (none, j) = pure zero_deployment
get_found platform (some d, j) =
    if ltb 1 j then raise same_name else asks (platform.get_deployment d.id)

unfoldable pub deployment_from_name : Platform → List Deployment → String → Calls Deployment
deployment_from_name platform deployments name =
    get_found platform (last_named name deployments (none, 0))

unfoldable pub find_cluster : String → List Cluster → Result FileError (String × List NodePool)
find_cluster name [] = err (cluster_not_found name)
find_cluster name (c ∷ cs) =
    if c.name == name
    then ok (c.id, elim c.node_pools [ none ↦ [] | some pools ↦ pools ])
    else find_cluster name cs

-- A workspace that is not found has the empty id.
unfoldable pub find_workspace : String → List Workspace → String
find_workspace name [] = ""
find_workspace name (w ∷ ws) = if w.name == name then w.id else find_workspace name ws

unfoldable pub get_cluster_info_from_name : Platform → String → Calls (String × List NodePool)
get_cluster_info_from_name platform name = do
  clusters ← asks platform.list_clusters
  lift (find_cluster name clusters)

unfoldable pub get_workspace_id_from_name : Platform → String → Calls String
get_workspace_id_from_name platform name = do
  workspaces ← asks platform.get_workspaces
  pure (find_workspace name workspaces)

-- A standard deployment has no cluster to look for.
unfoldable pub cluster_info : Platform → FormattedDeployment → Calls (String × List NodePool)
cluster_info platform file =
    if is_deployment_standard (transform_deployment_type file.configuration.deployment_type)
    then pure ("", [])
    else get_cluster_info_from_name platform file.configuration.cluster_name
