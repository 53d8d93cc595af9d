-- ===== src/WorkerQueue/Prepare.antt =====
-- The first half of CreateOrUpdate: the requests for the existing queues and for the one that is
-- created or updated, from the flags, the answers to the prompts and what the platform returned.
use astro_cli.Prelude.Int.{eq_ℤ, ℤ, pos}
use astro_cli.Prelude.{
  ◌&&◌, not, ◌>>=◌, ◌+◌, some, ◌==◌, ◌∷◌, if◌then◌else◌, err, [], false, ok, true, Result, Option,
  none, Bool, List, String,
}
use astro_cli.WorkerQueue.{
  WorkerQueue, WorkerMachine, NodePool, Action, create, update, QueueError, Deployment,
  DeploymentKind, standard, dedicated, hybrid, WorkerQueueOptions, WorkerQueueRequest,
  HybridWorkerQueueRequest, Slot, nil_pointer,
}
use astro_cli.WorkerQueue.Validate.{set_worker_queue_values, set_worker_queue_values_hybrid}
use astro_cli.WorkerQueue.Select.{select_worker_machine, select_node_pool, get_queue_name}

pub record Flags : Type 0 where
  pub name : String
  pub action : Action
  pub worker_type : String
  pub w_min : ℤ
  pub w_max : ℤ
  pub w_concurrency : ℤ
  pub force : Bool

pub record Answers : Type 0 where
  pub machine : String
  pub queue_name : String
  pub queue : String
  pub confirm : Bool

pub record Platform : Type 0 where
  pub options : WorkerQueueOptions
  pub machines : List WorkerMachine
  pub node_pools : Result QueueError (List NodePool)

abbrev pub is_hosted : DeploymentKind → Bool
is_hosted standard = true
is_hosted dedicated = true
is_hosted hybrid = false

-- The request that keeps an existing queue as it is; its id is a pointer into the array.
abbrev pub request_of : WorkerQueue → String → Slot → WorkerQueueRequest
request_of q machine i = record {
  astro_machine = machine;
  id = some i;
  is_default = q.is_default;
  max_worker_count = q.max_worker_count;
  min_worker_count = q.min_worker_count;
  name = q.name;
  pod_ephemeral_storage = none;
  worker_concurrency = q.worker_concurrency;
}

abbrev pub hybrid_request_of : WorkerQueue → String → Slot → HybridWorkerQueueRequest
hybrid_request_of q pool i = record {
  id = some i;
  is_default = q.is_default;
  max_worker_count = q.max_worker_count;
  min_worker_count = q.min_worker_count;
  name = q.name;
  node_pool_id = pool;
  worker_concurrency = q.worker_concurrency;
}

-- `append(list, request)` behind the rest of the loop.
abbrev pub append_ok : {A : Type 0} → A → Result QueueError (List A) → Result QueueError (List A)
append_ok r (err e) = err e
append_ok r (ok rs) = ok (r ∷ rs)

-- Requests for the existing queues, from the i-th on; a nil machine panics.
unfoldable pub existing_requests :
    List WorkerQueue → Slot → Result QueueError (List WorkerQueueRequest)
existing_requests [] i = ok []
existing_requests (q ∷ qs) i =
    let rest = existing_requests qs (i + 1) in
    elim q.astro_machine [
      | none ↦ err nil_pointer
      | some machine ↦ append_ok (request_of q machine i) rest
    ]

unfoldable pub existing_hybrid_requests :
    List WorkerQueue → Slot → Result QueueError (List HybridWorkerQueueRequest)
existing_hybrid_requests [] i = ok []
existing_hybrid_requests (q ∷ qs) i =
    let rest = existing_hybrid_requests qs (i + 1) in
    elim q.node_pool_id [
      | none ↦ err nil_pointer
      | some pool ↦ append_ok (hybrid_request_of q pool i) rest
    ]

-- Go's zero values of the two requests.
abbrev pub zero_request : WorkerQueueRequest
zero_request = record {
  astro_machine = "";
  id = none;
  is_default = false;
  max_worker_count = pos 0;
  min_worker_count = pos 0;
  name = "";
  pod_ephemeral_storage = none;
  worker_concurrency = pos 0;
}

abbrev pub zero_hybrid_request : HybridWorkerQueueRequest
zero_hybrid_request = record {
  id = none;
  is_default = false;
  max_worker_count = pos 0;
  min_worker_count = pos 0;
  name = "";
  node_pool_id = "";
  worker_concurrency = pos 0;
}

-- What the first half of CreateOrUpdate leaves in its variables.
pub record Prepared : Type 0 where
  pub name : String
  pub array : Option (List WorkerQueue)
  pub machine : WorkerMachine
  pub queue : WorkerQueueRequest
  pub list : List WorkerQueueRequest
  pub hybrid_queue : HybridWorkerQueueRequest
  pub hybrid_list : List HybridWorkerQueueRequest
  pub w_concurrency : ℤ

-- The machine of the last queue with the name.
unfoldable pub machine_of : String → String → List WorkerQueueRequest → String
machine_of worker_type name [] = worker_type
machine_of worker_type name (q ∷ qs) =
    machine_of (if name == q.name then q.astro_machine else worker_type) name qs

abbrev pub is_create : Action → Bool
is_create create = true
is_create update = false

-- The name flag, or the answer to its prompt.
unfoldable pub name_or_prompt :
    Flags
    → Answers
    → Option (List WorkerQueue)
    → Result QueueError (String × Option (List WorkerQueue))
name_or_prompt flags answers queues =
    if flags.name == ""
    then get_queue_name flags.action queues answers.queue_name answers.queue
    else ok (flags.name, queues)

abbrev pub zero_machine : WorkerMachine
zero_machine = record {
  name = "";
  concurrency = record { ceiling = pos 0; default = pos 0; floor = pos 0 };
}

abbrev pub queues_or_none : Option (List WorkerQueue) → List WorkerQueue
queues_or_none none = []
queues_or_none (some queues) = queues

-- The concurrency of a queue to create is the machine's default, if the flag does not give one.
abbrev pub hosted_concurrency : Flags → WorkerMachine → ℤ
hosted_concurrency flags machine =
    if eq_ℤ flags.w_concurrency (pos 0) && is_create flags.action
    then machine.concurrency.default
    else flags.w_concurrency

-- The request for the queue itself: it cannot be a default queue, and it has no id.
unfoldable pub hosted_request :
    Flags → WorkerQueueOptions → String → WorkerMachine → WorkerQueueRequest
unfolding set_worker_queue_values
hosted_request flags options name machine =
    let w_concurrency = hosted_concurrency flags machine in
    set_worker_queue_values flags.w_min flags.w_max w_concurrency
      (record {
        astro_machine = machine.name;
        id = none;
        is_default = false;
        max_worker_count = flags.w_max;
        min_worker_count = flags.w_min;
        name = name;
        pod_ephemeral_storage = none;
        worker_concurrency = w_concurrency;
      })
      options machine

-- The machine asked for: that of the queue itself, where an update names none.
abbrev pub hosted_type : Flags → String → List WorkerQueueRequest → String
hosted_type flags name list =
    if not (is_create flags.action) && flags.worker_type == ""
    then machine_of flags.worker_type name list
    else flags.worker_type

-- A standard or dedicated deployment.
unfoldable pub prepare_hosted : Flags → Answers → Deployment → Platform → Result QueueError Prepared
prepare_hosted flags answers d platform = do
  list ← existing_requests (queues_or_none d.worker_queues) 0
  (name, array) ← name_or_prompt flags answers d.worker_queues
  machine ← select_worker_machine (hosted_type flags name list) platform.machines answers.machine
  ok (record {
    name = name;
    array = array;
    machine = machine;
    queue = hosted_request flags platform.options name machine;
    list = list;
    hybrid_queue = zero_hybrid_request;
    hybrid_list = [];
    w_concurrency = hosted_concurrency flags machine;
  })

-- `*p`
abbrev pub follow {ℓ} : {A : Type ℓ} → Option A → Result QueueError A
follow none = err nil_pointer
follow (some a) = ok a

-- A hybrid deployment.
unfoldable pub prepare_hybrid : Flags → Answers → Deployment → Platform → Result QueueError Prepared
prepare_hybrid flags answers d platform = do
  pools ← platform.node_pools
  pool ← select_node_pool flags.worker_type pools answers.machine
  queues ← follow d.worker_queues
  list ← existing_hybrid_requests queues 0
  (name, array) ← name_or_prompt flags answers d.worker_queues
  ok (record {
    name = name;
    array = array;
    machine = zero_machine;
    queue = zero_request;
    list = [];
    hybrid_queue =
        set_worker_queue_values_hybrid flags.w_min flags.w_max flags.w_concurrency
          (record {
            id = none;
            is_default = false;
            max_worker_count = flags.w_max;
            min_worker_count = flags.w_min;
            name = name;
            node_pool_id = pool;
            worker_concurrency = flags.w_concurrency;
          })
          platform.options;
    hybrid_list = list;
    w_concurrency = flags.w_concurrency;
  })
