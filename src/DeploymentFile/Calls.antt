-- ===== src/DeploymentFile/Calls.antt =====
-- The calls of the platform's API in order. A call that changes the platform is added to the
-- history whether or not it succeeds, and every answer depends on the history: what the platform
-- answers is a parameter, as are the user's answer, the token's permission and the packages that
-- read the file.
pub mod Steps
use astro_cli.Prelude.{◌∷◌, Option, err, ok, Bool, Result, List, String}
use astro_cli.DeploymentFile.{Deployment, Cluster, Workspace, DeploymentOptions, FileError}
use astro_cli.DeploymentFile.Kinds.{CloudProvider}
use astro_cli.DeploymentFile.Requests.{CreateRequest, UpdateRequest}
use astro_cli.WorkerQueue.{DeploymentKind}

pub data Call : Type 0 where
  create_call : CreateRequest → Call
  update_call : String → UpdateRequest → Call

-- The latest call first.
abbrev pub History : Type 0
History = List Call

pub record Platform : Type 0 where
  pub organization : Result FileError String
  pub list_clusters : History → Result FileError (List Cluster)
  pub get_workspaces : History → Result FileError (List Workspace)
  pub list_deployments : String → History → Result FileError (List Deployment)
  pub get_deployment : String → History → Result FileError Deployment
  pub platform_options : History → Result FileError DeploymentOptions
  pub deployment_options :
      Option DeploymentKind → Option CloudProvider → History → Result FileError DeploymentOptions
  pub create_deployment : CreateRequest → History → Result FileError String
  pub update_deployment : String → UpdateRequest → History → Result FileError (Unit {0})
  pub health_poll : String → String → History → Result FileError (Unit {0})
  pub inspect : String → String → Bool → History → Result FileError (Unit {0})

-- The rest of a run's surroundings: `is_org_hosted` is organization.IsOrgHosted, `can_cicd_deploy`
-- is CanCiCdDeploy of the context's token.
pub record Surroundings : Type 0 where
  pub platform : Platform
  pub is_org_hosted : Bool
  pub can_cicd_deploy : Bool
  pub confirm : Bool
  pub wait_for_status : Bool
  pub force : Bool

abbrev pub Calls {ℓ} : Type ℓ → Type ℓ
Calls A = History → Result FileError A × History

module _ {ℓ} {A : Type ℓ} where
  abbrev pub pure : A → Calls A
  pure a h = (ok a, h)

  abbrev pub raise : FileError → Calls A
  raise e h = (err e, h)

  abbrev pub lift : Result FileError A → Calls A
  lift r h = (r, h)

  -- A call that reads.
  abbrev pub asks : (History → Result FileError A) → Calls A
  asks answer h = (answer h, h)

  -- A call that changes the platform.
  abbrev pub sends : Call → (History → Result FileError A) → Calls A
  sends call answer h = (answer h, call ∷ h)

infixl 5 ◌>>=◌ ◌>>◌
abbrev pub ◌>>=◌ {ℓ κ} : {A : Type ℓ} {B : Type κ} → Calls A → (A → Calls B) → Calls B
◌>>=◌ m f h = let (r, next) = m h in elim r [ ok a ↦ f a next | err e ↦ (err e, next) ]

abbrev pub ◌>>◌ {ℓ κ} : {A : Type ℓ} {B : Type κ} → Calls A → Calls B → Calls B
m >> k = m >>= λ _. k
