-- ===== src/DeploymentFile/Examples.antt =====
-- A platform with one cluster, one workspace and at most one deployment, and files for it.
use astro_cli.Prelude.Int.{pos}
use astro_cli.Prelude.{not, ◌==◌, Bool, some, [], none, ok, true, ◌∷◌, List, false, String}
use astro_cli.DeploymentFile.{
  FormattedDeployment, DeploymentConfig, Workerq, EnvironmentVariable, Deployment,
  DeploymentOptions,
}
use astro_cli.DeploymentFile.Calls.{Platform, Surroundings, History}
use astro_cli.DeploymentFile.Command.{Reader}
use astro_cli.Versions.{Semver, equal}
use astro_cli.WorkerQueue.{WorkerQueue, NodePool, Range}

abbrev pub requested : String → String → Workerq
requested name worker_type = record {
  name = name;
  max_worker_count = pos 10;
  min_worker_count = pos 1;
  worker_concurrency = pos 5;
  worker_type = worker_type;
  pod_ephemeral_storage = "";
}

abbrev pub config : String → String → String → DeploymentConfig
config deployment_type executor name = record {
  name = name;
  description = "";
  runtime_version = "12.0.0";
  dag_deploy_enabled = none;
  api_key_only_deployments = false;
  scheduler_size = "small";
  is_high_availability = false;
  is_development_mode = false;
  executor = executor;
  scheduler_au = pos 5;
  scheduler_count = pos 1;
  cluster_name = "cluster";
  workspace_name = "workspace";
  deployment_type = deployment_type;
  cloud_provider = "aws";
  region = "us-east-1";
  default_task_pod_cpu = "";
  default_task_pod_memory = "";
  resource_quota_cpu = "";
  resource_quota_memory = "";
  default_worker_type = "";
  workload_identity = "";
  remote_execution = none;
}

abbrev pub file_of : String → List Workerq → List EnvironmentVariable → FormattedDeployment
file_of deployment_type queues env_vars = record {
  env_vars = env_vars;
  configuration = config deployment_type "CeleryExecutor" "name";
  worker_queues = queues;
  alert_emails = [];
  hibernation_schedules = [];
}

abbrev pub variable : EnvironmentVariable
variable = record { is_secret = false; key = "K"; value = some "v" }

abbrev pub existing_queue : String → String → WorkerQueue
existing_queue name id = record {
  astro_machine = some "A5";
  id = id;
  is_default = name == "default";
  max_worker_count = pos 10;
  min_worker_count = pos 0;
  name = name;
  node_pool_id = none;
  pod_cpu = "";
  pod_ephemeral_storage = none;
  pod_memory = "";
  worker_concurrency = pos 5;
}

abbrev pub deployment : String → String → List WorkerQueue → Deployment
deployment id name queues = record {
  id = id;
  name = name;
  workspace_id = "w1";
  cluster_id = some "c1";
  is_dag_deploy_enabled = true;
  is_development_mode = none;
  worker_queues = some queues;
  remote_execution = none;
  default_task_pod_cpu = none;
  default_task_pod_memory = none;
  resource_quota_cpu = none;
  resource_quota_memory = none;
}

abbrev pub existing_queues : List WorkerQueue
existing_queues = existing_queue "default" "q1" ∷ existing_queue "a" "q2" ∷ []

abbrev pub existing : Deployment
existing = deployment "d1" "name" existing_queues

abbrev pub range : Range
range = record { ceiling = pos 20; default = pos 4; floor = pos 0 }

abbrev pub options : DeploymentOptions
options = record {
  worker_queues = record { max_workers = range; min_workers = range; worker_concurrency = range };
  worker_machines = record { name = "A5"; concurrency = range } ∷ [];
  default_pod_cpu = "0.25";
  default_pod_memory = "0.5Gi";
  quota_cpu = "10";
  quota_memory = "20Gi";
}

abbrev pub pools : List NodePool
pools =
    record { id = "p1"; node_instance_type = "m5"; created_at = 1 }
    ∷ record { id = "p2"; node_instance_type = "r5"; created_at = 2 }
    ∷ []

-- The deployment exists once a call was made.
abbrev pub listed : History → List Deployment
listed [] = []
listed (call ∷ calls) = existing ∷ []

abbrev pub platform_of : (String → History → List Deployment) → Platform
platform_of deployments = record {
  organization = ok "o1";
  list_clusters = λ h. ok (record { id = "c1"; name = "cluster"; node_pools = some pools } ∷ []);
  get_workspaces = λ h. ok (record { id = "w1"; name = "workspace" } ∷ []);
  list_deployments = λ workspace_id h. ok (deployments workspace_id h);
  get_deployment = λ id h. ok existing;
  platform_options = λ h. ok options;
  deployment_options = λ kind provider h. ok options;
  create_deployment = λ request h. ok "d1";
  update_deployment = λ id request h. ok tt;
  health_poll = λ id workspace_id h. ok tt;
  inspect = λ workspace_id id json_output h. ok tt;
}

abbrev pub around_of : (String → History → List Deployment) → Surroundings
around_of deployments = record {
  platform = platform_of deployments;
  is_org_hosted = true;
  can_cicd_deploy = true;
  confirm = false;
  wait_for_status = true;
  force = false;
}

abbrev pub semver : Semver
semver = record { is_valid = λ v. true; compare = λ v w. equal; major = λ v. v }

abbrev pub is_valid_email : String → Bool
is_valid_email email = not (email == "")

abbrev pub reader_of : FormattedDeployment → Reader
reader_of file = record {
  content = ok (123 ∷ []);
  is_json = λ data_bytes. false;
  unmarshal = λ data_bytes. ok file;
  is_valid_email = is_valid_email;
  semver = semver;
}
