-- ===== src/WorkerQueue.antt =====
-- cloud/deployment/workerqueue/workerqueue.go: the worker queues of a deployment. The types are
-- those of astro-client-v1 that the file uses. A `Slot` is a pointer to the id of an element of the
-- deployment's slice of queues: the index of that element in the shared backing array.
pub mod Validate
pub mod Queues
pub mod Select
pub mod Prepare
pub mod Forward
pub mod CreateOrUpdate
pub mod Delete
mod Examples
mod Tests
use astro_cli.Prelude.{ℕ, String, Bool, Option, List}
use astro_cli.Prelude.Int.{ℤ}

pub data Executor : Type 0 where
  celery kubernetes astro : Executor

pub data DeploymentKind : Type 0 where
  standard dedicated hybrid : DeploymentKind

pub data Action : Type 0 where
  create update : Action

-- The bounds are whole numbers, so `int(…)` of them is the number itself.
pub record Range : Type 0 where
  pub ceiling : ℤ
  pub default : ℤ
  pub floor : ℤ

pub record WorkerQueueOptions : Type 0 where
  pub max_workers : Range
  pub min_workers : Range
  pub worker_concurrency : Range

pub record WorkerMachine : Type 0 where
  pub name : String
  pub concurrency : Range

pub record NodePool : Type 0 where
  pub id : String
  pub node_instance_type : String
  pub created_at : ℕ

pub record WorkerQueue : Type 0 where
  pub astro_machine : Option String
  pub id : String
  pub is_default : Bool
  pub max_worker_count : ℤ
  pub min_worker_count : ℤ
  pub name : String
  pub node_pool_id : Option String
  pub pod_cpu : String
  pub pod_ephemeral_storage : Option String
  pub pod_memory : String
  pub worker_concurrency : ℤ

abbrev pub Slot : Type 0
Slot = ℕ

pub record WorkerQueueRequest : Type 0 where
  pub astro_machine : String
  pub id : Option Slot
  pub is_default : Bool
  pub max_worker_count : ℤ
  pub min_worker_count : ℤ
  pub name : String
  pub pod_ephemeral_storage : Option String
  pub worker_concurrency : ℤ

pub record HybridWorkerQueueRequest : Type 0 where
  pub id : Option Slot
  pub is_default : Bool
  pub max_worker_count : ℤ
  pub min_worker_count : ℤ
  pub name : String
  pub node_pool_id : String
  pub worker_concurrency : ℤ

pub record Deployment : Type 0 where
  pub id : String
  pub kind : DeploymentKind
  pub executor : Executor
  pub worker_queues : Option (List WorkerQueue)

pub data OptionField : Type 0 where
  min_count max_count concurrency : OptionField

pub data Unsupported : Type 0 where
  queue_name maximum_count concurrency : Unsupported

-- `nil_pointer` is the panic of a nil pointer that is followed.
pub data QueueError : Type 0 where
  invalid_option : OptionField → ℤ → ℤ → QueueError
  not_supported : Unsupported → QueueError
  cannot_update_existing cannot_create_new queue_does_not_exist invalid_queue : String → QueueError
  invalid_node_pool invalid_astro_machine : String → QueueError
  cannot_delete_default no_use_worker_queues no_worker_queues nil_pointer : QueueError
