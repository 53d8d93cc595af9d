-- ===== src/DeploymentFile/Queues.antt =====
-- getQueues and the loop of createOrUpdateDeployment over its result: the worker queues of a file
-- as requests to the platform.
pub mod Fill
pub mod Answer
pub mod Hosted
pub mod Machines
mod Tests
use astro_cli.Prelude.{
  not, ◌+◌, map, ◌&&◌, ◌>>◌, [], equal_fold, sort_slice, none, ◌==◌, ◌>>=◌, ◌∷◌, some, to_upper, ok,
  str_lt, if◌then◌else◌, err, Result, Option, Bool, List, String,
}
use astro_cli.DeploymentFile.{
  FormattedDeployment, Workerq, DeploymentOptions, FileError, out_of_range, worker_type_not_found,
  nil_pointer, no_use_worker_queues, use_default_worker_type, invalid_queue,
}
use astro_cli.DeploymentFile.Kinds.{transform_deployment_type, is_hosted_type, uses_kubernetes}
use astro_cli.WorkerQueue.{
  WorkerQueue, NodePool, WorkerMachine, WorkerQueueRequest, HybridWorkerQueueRequest, QueueError,
  Slot, WorkerQueueOptions,
}
use astro_cli.WorkerQueue.Validate.{
  set_worker_queue_values, set_worker_queue_values_hybrid, is_hosted_worker_queue_input_valid,
  is_worker_queue_input_valid,
}
use astro_cli.WorkerQueue.Queues.{by_name}

unfoldable pub find_node_pool : String → List NodePool → Result FileError String
find_node_pool worker_type [] = err (worker_type_not_found worker_type)
find_node_pool worker_type (p ∷ ps) =
    if p.node_instance_type == worker_type then ok p.id else find_node_pool worker_type ps

-- The index 0 of an empty list panics.
abbrev pub first_node_pool : List NodePool → Result FileError String
first_node_pool [] = err out_of_range
first_node_pool (p ∷ ps) = ok p.id

unfoldable pub get_node_pool_id_from_worker_type : String → List NodePool → Result FileError String
get_node_pool_id_from_worker_type worker_type pools =
    if worker_type == "" then first_node_pool pools else find_node_pool worker_type pools

abbrev pub by_queue_name : Workerq → Workerq → Bool
by_queue_name p q = str_lt p.name q.name

-- The id of the existing queue at the same index, if it has the same name.
abbrev pub existing_id : String → Workerq → List WorkerQueue → String
existing_id executor r [] = ""
existing_id executor r (q ∷ qs) =
    if r.name == q.name && not (executor == "KubernetesExecutor") then q.id else ""

abbrev pub rest_of : List WorkerQueue → List WorkerQueue
rest_of [] = []
rest_of (q ∷ qs) = qs

abbrev pub text_or_none : String → Option String
text_or_none text = if text == "" then none else some text

-- An element of qList without its node pool.
abbrev pub queue_of : Bool → String → Workerq → List WorkerQueue → WorkerQueue
queue_of hosted executor r existing = record {
  astro_machine = if hosted then some r.worker_type else none;
  id = existing_id executor r existing;
  is_default = r.name == "default";
  max_worker_count = r.max_worker_count;
  min_worker_count = r.min_worker_count;
  name = r.name;
  node_pool_id = none;
  pod_cpu = "";
  pod_ephemeral_storage = text_or_none r.pod_ephemeral_storage;
  pod_memory = "";
  worker_concurrency = r.worker_concurrency;
}

-- The loop of getQueues. `pool` is the variable nodePoolID, declared outside of the loop; the
-- result has its last value beside the queues.
unfoldable pub fill_queues :
    Bool
    → String
    → List NodePool
    → List Workerq
    → List WorkerQueue
    → String
    → Result FileError (List WorkerQueue × String)
fill_queues hosted executor pools [] existing pool = ok ([], pool)
fill_queues hosted executor pools (r ∷ rs) existing pool = do
  next ← (if hosted then ok pool else get_node_pool_id_from_worker_type r.worker_type pools)
  (queues, last) ← fill_queues hosted executor pools rs (rest_of existing) next
  ok (queue_of hosted executor r existing ∷ queues, last)

-- Every queue of a hybrid deployment points to that variable.
abbrev pub point_to : Bool → String → WorkerQueue → WorkerQueue
point_to hosted pool q = if hosted then q else record q { node_pool_id = some pool }

unfoldable pub get_queues :
    FormattedDeployment → List NodePool → List WorkerQueue → Result FileError (List WorkerQueue)
get_queues file pools existing = do
  let hosted = is_hosted_type (transform_deployment_type file.configuration.deployment_type)
  (queues, pool) ←
      fill_queues hosted file.configuration.executor pools
        (sort_slice by_queue_name file.worker_queues) (sort_slice by_name existing) ""
  ok (map (point_to hosted pool) queues)

abbrev pub follow {ℓ} : {A : Type ℓ} → Option A → Result FileError A
follow none = err nil_pointer
follow (some a) = ok a

-- An error of package workerqueue, passed on.
abbrev pub of_queue {ℓ} : {A : Type ℓ} → Result QueueError A → Result FileError A
of_queue (err e) = err (invalid_queue e)
of_queue (ok a) = ok a

-- The last machine with the name, or the one that an earlier queue left in the variable.
unfoldable pub machine_named : WorkerMachine → String → List WorkerMachine → WorkerMachine
machine_named machine name [] = machine
machine_named machine name (m ∷ ms) =
    machine_named (if equal_fold m.name name then m else machine) name ms

-- The request for the queue at the i-th index, its id a pointer into the list of queues.
unfoldable pub hosted_queue_request :
    WorkerQueue → Slot → String → WorkerMachine → WorkerQueueOptions → WorkerQueueRequest
unfolding set_worker_queue_values
hosted_queue_request q i name machine options =
    set_worker_queue_values q.min_worker_count q.max_worker_count q.worker_concurrency
      (record {
        astro_machine = to_upper name;
        id = some i;
        is_default = q.is_default;
        max_worker_count = q.max_worker_count;
        min_worker_count = q.min_worker_count;
        name = q.name;
        pod_ephemeral_storage = q.pod_ephemeral_storage;
        worker_concurrency = q.worker_concurrency;
      })
      options machine

-- The loop over the queues of a standard or dedicated deployment. `machine` is the variable
-- astroMachine, declared outside of the loop.
unfoldable pub hosted_requests :
    DeploymentOptions
    → String
    → List WorkerQueue
    → Slot
    → WorkerMachine
    → Result FileError (List WorkerQueueRequest)
hosted_requests options executor [] i machine = ok []
hosted_requests options executor (q ∷ qs) i machine = do
  name ← follow q.astro_machine
  let used = machine_named machine name options.worker_machines
  let request = hosted_queue_request q i name used options.worker_queues
  (if uses_kubernetes executor then err no_use_worker_queues else ok (tt {0}))
  of_queue (is_hosted_worker_queue_input_valid request options.worker_queues used)
  rest ← hosted_requests options executor qs (i + 1) used
  ok (request ∷ rest)

unfoldable pub hybrid_queue_request :
    WorkerQueue → Slot → String → WorkerQueueOptions → HybridWorkerQueueRequest
unfolding set_worker_queue_values_hybrid
hybrid_queue_request q i pool options =
    set_worker_queue_values_hybrid q.min_worker_count q.max_worker_count q.worker_concurrency
      (record {
        id = some i;
        is_default = q.is_default;
        max_worker_count = q.max_worker_count;
        min_worker_count = q.min_worker_count;
        name = q.name;
        node_pool_id = pool;
        worker_concurrency = q.worker_concurrency;
      })
      options

-- The same loop for the queues of a hybrid deployment.
unfoldable pub hybrid_requests :
    WorkerQueueOptions
    → String
    → List WorkerQueue
    → Slot
    → Result FileError (List HybridWorkerQueueRequest)
hybrid_requests options executor [] i = ok []
hybrid_requests options executor (q ∷ qs) i = do
  pool ← follow q.node_pool_id
  (if uses_kubernetes executor then err use_default_worker_type else ok (tt {0}))
  let request = hybrid_queue_request q i pool options
  of_queue (is_worker_queue_input_valid request options)
  rest ← hybrid_requests options executor qs (i + 1)
  ok (request ∷ rest)
