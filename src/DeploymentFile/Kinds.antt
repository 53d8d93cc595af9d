-- ===== src/DeploymentFile/Kinds.antt =====
-- The texts of a file that stand for values of the platform: the deployment type, the executor, the
-- scheduler size and the cloud provider. A text that stands for none gives Go's empty text, `none`.
pub mod Executors
use astro_cli.Prelude.{
  false, none, ◌||◌, true, ◌==◌, some, if◌then◌else◌, Bool, to_upper, Option, String,
}
use astro_cli.WorkerQueue.{
  DeploymentKind, standard, dedicated, hybrid, Executor, celery, kubernetes, astro,
}

pub data SchedulerSize : Type 0 where
  small medium large extra_large : SchedulerSize

pub data CloudProvider : Type 0 where
  gcp aws azure : CloudProvider

-- transformDeploymentType
unfoldable pub transform_deployment_type : String → Option DeploymentKind
transform_deployment_type text =
    let upper = to_upper text in
    if upper == "STANDARD" || upper == "HOSTED_SHARED" || upper == "HOSTED_STANDARD"
    then some standard
    else if upper == "DEDICATED" || upper == "HOSTED_DEDICATED"
    then some dedicated
    else if upper == "HYBRID"
    then some hybrid
    else none

abbrev pub is_deployment_standard : Option DeploymentKind → Bool
is_deployment_standard (some standard) = true
is_deployment_standard _ = false

abbrev pub is_deployment_dedicated : Option DeploymentKind → Bool
is_deployment_dedicated (some dedicated) = true
is_deployment_dedicated _ = false

abbrev pub is_hosted_type : Option DeploymentKind → Bool
is_hosted_type kind = is_deployment_standard kind || is_deployment_dedicated kind

-- The executor of a create: its name is compared as it is written.
unfoldable pub created_executor : String → Option Executor
created_executor executor =
    if executor == "CeleryExecutor" || executor == "CELERY"
    then some celery
    else if executor == "KubernetesExecutor" || executor == "KUBERNETES"
    then some kubernetes
    else if executor == "AstroExecutor" || executor == "ASTRO"
    then some astro
    else none

-- The executor of an update: its name is compared in upper case.
unfoldable pub updated_executor : String → Option Executor
updated_executor executor =
    let upper = to_upper executor in
    if upper == to_upper "CeleryExecutor" || upper == "CELERY"
    then some celery
    else if upper == to_upper "KubernetesExecutor" || upper == "KUBERNETES"
    then some kubernetes
    else if upper == to_upper "AstroExecutor" || upper == "ASTRO"
    then some astro
    else none

-- The switches of a hybrid deployment have no case for the Astro executor.
abbrev pub hybrid_executor : Option Executor → Option Executor
hybrid_executor (some astro) = none
hybrid_executor executor = executor

unfoldable pub scheduler_size_of : String → Option SchedulerSize
scheduler_size_of text =
    let upper = to_upper text in
    if upper == "SMALL"
    then some small
    else if upper == "MEDIUM"
    then some medium
    else if upper == "LARGE"
    then some large
    else if upper == "EXTRA_LARGE"
    then some extra_large
    else none

unfoldable pub cloud_provider_of : String → Option CloudProvider
cloud_provider_of text =
    let upper = to_upper text in
    if upper == "GCP"
    then some gcp
    else if upper == "AWS"
    then some aws
    else if upper == "AZURE"
    then some azure
    else none

-- GetCoreCloudProvider
unfoldable pub get_core_cloud_provider : String → Option CloudProvider
get_core_cloud_provider text =
    let upper = to_upper text in
    if upper == to_upper "aws"
    then some aws
    else if upper == to_upper "gcp"
    then some gcp
    else if upper == to_upper "azure"
    then some azure
    else none

-- The test on the executor before worker queues are sent.
abbrev pub uses_kubernetes : String → Bool
uses_kubernetes executor = executor == "KubernetesExecutor" || executor == "KUBERNETES"
