-- ===== src/DeploymentFile/Command.antt =====
-- CreateOrUpdate: the file, what it names, and the create and update blocks.
pub mod Traces
pub mod Blocks
pub mod Runs
pub mod Whole
pub mod Refusals
use astro_cli.Prelude.{
  length, some, eqb, ok, not, ℕ, if◌then◌else◌, Result, Bool, [], Option, none, List, String,
}
use astro_cli.DeploymentFile.{
  FormattedDeployment, Deployment, FileError, already_exists, not_found, empty_file,
}
use astro_cli.DeploymentFile.Check.{has_env_vars_or_alert_emails, check_required_fields}
use astro_cli.DeploymentFile.Kinds.{transform_deployment_type, is_deployment_standard}
use astro_cli.DeploymentFile.Queues.{follow}
use astro_cli.DeploymentFile.Requests.{create_env_vars_request}
use astro_cli.DeploymentFile.Calls.{Surroundings, Calls, pure, raise, lift, asks, ◌>>=◌, ◌>>◌}
use astro_cli.WorkerQueue.{Action, create, update, NodePool}
use astro_cli.Versions.{Semver}
use astro_cli.DeploymentFile.Lookup.{
  deployment_exists, deployment_from_name, zero_deployment, cluster_info,
  get_workspace_id_from_name,
}
use astro_cli.DeploymentFile.Send.{create_or_update_deployment}

-- The value of `dag_deploy_enabled`, or the one given if the file leaves it out.
abbrev pub dag_deploy_or : Bool → Option Bool → Bool
dag_deploy_or default none = default
dag_deploy_or default (some b) = b

-- The block of the create action, with the action that follows it.
unfoldable pub create_step :
    Surroundings
    → FormattedDeployment
    → String
    → String
    → List NodePool
    → List Deployment
    → Calls Action
create_step around file cluster_id workspace_id pools deployments =
    let config = file.configuration in
    if deployment_exists deployments config.name then raise (already_exists config.name) else do
      create_or_update_deployment around file cluster_id workspace_id create zero_deployment pools
          (dag_deploy_or around.is_org_hosted config.dag_deploy_enabled) []
      pure (if has_env_vars_or_alert_emails file then update else create)

-- The cluster of an update is the one that the deployment has.
abbrev pub cluster_of : FormattedDeployment → String → Deployment → Result FileError String
cluster_of file cluster_id d =
    if is_deployment_standard (transform_deployment_type file.configuration.deployment_type)
    then ok cluster_id
    else follow d.cluster_id

-- The block of the update action, with the id of the workspace.
unfoldable pub update_step :
    Surroundings → FormattedDeployment → String → List NodePool → List Deployment → Calls String
update_step around file cluster_id pools deployments =
    let config = file.configuration in
    if not (deployment_exists deployments config.name) then raise (not_found config.name) else do
      d ← deployment_from_name around.platform deployments config.name
      cluster ← lift (cluster_of file cluster_id d)
      create_or_update_deployment around file cluster d.workspace_id update d pools
          (dag_deploy_or d.is_dag_deploy_enabled config.dag_deploy_enabled)
          (create_env_vars_request file)
      pure d.workspace_id

-- `if action == createAction`: the value of `action` behind it.
unfoldable pub create_block :
    Surroundings
    → FormattedDeployment
    → Action
    → String
    → String
    → List NodePool
    → List Deployment
    → Calls Action
create_block around file create cluster_id workspace_id pools deployments =
    create_step around file cluster_id workspace_id pools deployments
create_block around file update cluster_id workspace_id pools deployments = pure update

-- `if action == updateAction`: the value of `workspaceID` behind it.
abbrev pub update_block :
    Surroundings
    → FormattedDeployment
    → Action
    → String
    → String
    → List NodePool
    → List Deployment
    → Calls String
update_block around file create cluster_id workspace_id pools deployments = pure workspace_id
update_block around file update cluster_id workspace_id pools deployments =
    update_step around file cluster_id pools deployments

-- CreateOrUpdate from the first list of deployments on.
unfoldable pub run_blocks :
    Surroundings
    → FormattedDeployment
    → Action
    → Bool
    → String
    → String
    → List NodePool
    → List Deployment
    → Calls (Unit {0})
run_blocks around file action json_output cluster_id workspace_id pools existing = do
  next ← create_block around file action cluster_id workspace_id pools existing
  deployments ← asks (around.platform.list_deployments workspace_id)
  workspace ← update_block around file next cluster_id workspace_id pools deployments
  d ← deployment_from_name around.platform deployments file.configuration.name
  asks (around.platform.inspect workspace d.id json_output)

-- CreateOrUpdate behind the reading and the check of the file.
unfoldable pub run_file : Surroundings → FormattedDeployment → Action → Bool → Calls (Unit {0})
run_file around file action json_output = do
  lift around.platform.organization
  (cluster_id, pools) ← cluster_info around.platform file
  workspace_id ← get_workspace_id_from_name around.platform file.configuration.workspace_name
  existing ← asks (around.platform.list_deployments workspace_id)
  run_blocks around file action json_output cluster_id workspace_id pools existing

-- What CreateOrUpdate uses of the packages that read a file: the content of the file, isJSON,
-- yaml.Unmarshal, mail.ParseAddress and semver.
pub record Reader : Type 0 where
  pub content : Result FileError (List ℕ)
  pub is_json : List ℕ → Bool
  pub unmarshal : List ℕ → Result FileError FormattedDeployment
  pub is_valid_email : String → Bool
  pub semver : Semver

unfoldable pub create_or_update_from_file : Reader → Surroundings → Action → Calls (Unit {0})
create_or_update_from_file reader around action = do
  data_bytes ← lift reader.content
  (if eqb (length data_bytes) 0 then raise empty_file else pure (tt {0}))
  file ← lift (reader.unmarshal data_bytes)
  lift (check_required_fields reader.semver reader.is_valid_email file action)
  run_file around file action (reader.is_json data_bytes)
