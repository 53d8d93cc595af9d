-- ===== src/WorkerQueue/Queues.antt =====
-- The lists of queues: membership, sanitizing, merging an update, and what is sent.
pub mod Update
use astro_cli.Prelude.Int.{negsuc, eq_ℤ, ℤ, pos}
use astro_cli.Prelude.{
  [], ◌∷◌, none, get_elem?, sort_slice, ◌||◌, some, if◌then◌else◌, map, str_lt, contains_by, ◌==◌,
  false, Option, Bool, String, List,
}
use mathlib.Core.Option
use astro_cli.WorkerQueue.{
  WorkerQueue, WorkerQueueRequest, HybridWorkerQueueRequest, Executor, celery, kubernetes, astro,
  Slot,
}

-- The id that a pointer reads in the backing array as it is now.
abbrev pub deref : List WorkerQueue → Slot → Option String
deref queues slot = Option.map (λ (q : WorkerQueue). q.id) (get_elem? queues slot)

-- `id != nil && queue.Id == *id`
abbrev pub same_id : String → Option String → Bool
same_id id none = false
same_id id (some other) = id == other

abbrev pub id_of : List WorkerQueue → Option Slot → Option String
id_of queues none = none
id_of queues (some slot) = deref queues slot

-- The body of the loop of QueueExists.
abbrev pub is_requested :
    List WorkerQueue → WorkerQueueRequest → HybridWorkerQueueRequest → WorkerQueue → Bool
is_requested queues q h queue =
    queue.name == h.name
    || same_id queue.id (id_of queues h.id)
    || queue.name == q.name
    || same_id queue.id (id_of queues q.id)

unfoldable pub queue_exists :
    List WorkerQueue → WorkerQueueRequest → HybridWorkerQueueRequest → Bool
queue_exists queues q h = contains_by (is_requested queues q h) queues

-- The fields that sanitizeExistingQueues clears.
abbrev pub sanitize : Executor → WorkerQueue → WorkerQueue
sanitize celery q = record q { pod_memory = ""; pod_cpu = "" }
sanitize kubernetes q = record q {
  worker_concurrency = pos 0;
  min_worker_count = pos 0;
  max_worker_count = pos 0;
  pod_memory = "";
  pod_cpu = "";
}
sanitize astro q = q

abbrev pub by_name : WorkerQueue → WorkerQueue → Bool
by_name p q = str_lt p.name q.name

-- sanitizeExistingQueues: the backing array after the call. It sorts in place.
unfoldable pub sanitize_existing_queues : List WorkerQueue → Executor → List WorkerQueue
sanitize_existing_queues queues executor = map (sanitize executor) (sort_slice by_name queues)

-- The queue that updateQueueList stores in place of the first one with the name.
abbrev pub merge :
    Executor → ℤ → ℤ → ℤ → WorkerQueueRequest → WorkerQueueRequest → WorkerQueueRequest
merge kubernetes w_min w_max w_concurrency new queue = record queue {
  worker_concurrency = pos 0;
  min_worker_count = pos 0;
  max_worker_count = pos 0;
  astro_machine = new.astro_machine;
}
merge _ w_min w_max w_concurrency new queue = record queue {
  min_worker_count = if eq_ℤ w_min (negsuc 0) then queue.min_worker_count else new.min_worker_count;
  max_worker_count = if eq_ℤ w_max (pos 0) then queue.max_worker_count else new.max_worker_count;
  worker_concurrency =
      if eq_ℤ w_concurrency (pos 0) then queue.worker_concurrency else new.worker_concurrency;
  astro_machine = new.astro_machine;
}

unfoldable pub update_queue_list :
    List WorkerQueueRequest → WorkerQueueRequest → Executor → ℤ → ℤ → ℤ → List WorkerQueueRequest
update_queue_list [] new executor w_min w_max w_concurrency = []
update_queue_list (queue ∷ queues) new executor w_min w_max w_concurrency =
    let rest = update_queue_list queues new executor w_min w_max w_concurrency in
    if queue.name == new.name
    then merge executor w_min w_max w_concurrency new queue ∷ queues
    else queue ∷ rest

-- Here the ASTRO executor sets no counts.
abbrev pub merge_hybrid :
    Executor
    → ℤ
    → ℤ
    → ℤ
    → HybridWorkerQueueRequest
    → HybridWorkerQueueRequest
    → HybridWorkerQueueRequest
merge_hybrid celery w_min w_max w_concurrency new queue = record queue {
  min_worker_count = if eq_ℤ w_min (negsuc 0) then queue.min_worker_count else new.min_worker_count;
  max_worker_count = if eq_ℤ w_max (pos 0) then queue.max_worker_count else new.max_worker_count;
  worker_concurrency =
      if eq_ℤ w_concurrency (pos 0) then queue.worker_concurrency else new.worker_concurrency;
  node_pool_id = new.node_pool_id;
}
merge_hybrid kubernetes w_min w_max w_concurrency new queue = record queue {
  worker_concurrency = pos 0;
  min_worker_count = pos 0;
  max_worker_count = pos 0;
  node_pool_id = new.node_pool_id;
}
merge_hybrid astro w_min w_max w_concurrency new queue = record queue {
  node_pool_id = new.node_pool_id;
}

unfoldable pub update_hybrid_queue_list :
    List HybridWorkerQueueRequest
    → HybridWorkerQueueRequest
    → Executor
    → ℤ
    → ℤ
    → ℤ
    → List HybridWorkerQueueRequest
update_hybrid_queue_list [] new executor w_min w_max w_concurrency = []
update_hybrid_queue_list (queue ∷ queues) new executor w_min w_max w_concurrency =
    let rest = update_hybrid_queue_list queues new executor w_min w_max w_concurrency in
    if queue.name == new.name
    then merge_hybrid executor w_min w_max w_concurrency new queue ∷ queues
    else queue ∷ rest

-- A queue of the request that deployment.Update sends: the pointer to the id is followed then.
pub record SentQueue : Type 0 where
  pub id : Option String
  pub is_default : Bool
  pub max_worker_count : ℤ
  pub min_worker_count : ℤ
  pub name : String
  pub machine_or_pool : String
  pub pod_ephemeral_storage : Option String
  pub worker_concurrency : ℤ

-- ConvertCreateQueuesToUpdate
unfoldable pub convert_create_queues_to_update :
    List WorkerQueue → List WorkerQueueRequest → List SentQueue
convert_create_queues_to_update array = map (λ (q : WorkerQueueRequest). record {
  id = id_of array q.id;
  is_default = q.is_default;
  max_worker_count = q.max_worker_count;
  min_worker_count = q.min_worker_count;
  name = q.name;
  machine_or_pool = q.astro_machine;
  pod_ephemeral_storage = q.pod_ephemeral_storage;
  worker_concurrency = q.worker_concurrency;
})

-- ConvertHybridQueuesToUpdate
unfoldable pub convert_hybrid_queues_to_update :
    List WorkerQueue → List HybridWorkerQueueRequest → List SentQueue
convert_hybrid_queues_to_update array = map (λ (q : HybridWorkerQueueRequest). record {
  id = id_of array q.id;
  is_default = q.is_default;
  max_worker_count = q.max_worker_count;
  min_worker_count = q.min_worker_count;
  name = q.name;
  machine_or_pool = q.node_pool_id;
  pod_ephemeral_storage = none;
  worker_concurrency = q.worker_concurrency;
})
