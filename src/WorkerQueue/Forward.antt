-- ===== src/WorkerQueue/Forward.antt =====
-- What deployment.Update sends for the list of a hosted deployment, with an empty executor flag:
-- the field WorkerQueues of its request. `default_queues` is the list that holds the default queue.
use astro_cli.WorkerQueue.Prepare.{append_ok, queues_or_none}
use astro_cli.Prelude.{
  if◌then◌else◌, err, ◌>>=◌, [], ok, ◌∷◌, none, Result, some, Bool, Option, List, String,
}
use astro_cli.WorkerQueue.{
  nil_pointer, kubernetes, WorkerQueue, WorkerQueueRequest, QueueError, Deployment, Executor,
}
use astro_cli.WorkerQueue.Queues.{SentQueue, convert_create_queues_to_update}

-- The request for a queue that the deployment has.
abbrev pub existing_update_queue : WorkerQueue → String → SentQueue
existing_update_queue q machine = record {
  id = some q.id;
  is_default = q.is_default;
  max_worker_count = q.max_worker_count;
  min_worker_count = q.min_worker_count;
  name = q.name;
  machine_or_pool = machine;
  pod_ephemeral_storage = none;
  worker_concurrency = q.worker_concurrency;
}

-- A nil machine panics.
unfoldable pub existing_update_queues : List WorkerQueue → Result QueueError (List SentQueue)
existing_update_queues [] = ok []
existing_update_queues (q ∷ qs) =
    let rest = existing_update_queues qs in
    elim q.astro_machine [
      | none ↦ err nil_pointer
      | some machine ↦ append_ok (existing_update_queue q machine) rest
    ]

unfoldable pub update_worker_queues_for_executor :
    Executor → Option (List SentQueue) → Option (List SentQueue) → Option (List SentQueue)
update_worker_queues_for_executor kubernetes queues default_queues = none
update_worker_queues_for_executor _ none default_queues = default_queues
update_worker_queues_for_executor _ (some queues) default_queues = some queues

-- An empty list stands for the queues that the deployment has.
abbrev queues_to_send : List WorkerQueue → List WorkerQueueRequest → List SentQueue → List SentQueue
queues_to_send array [] existing = existing
queues_to_send array (r ∷ rs) existing = convert_create_queues_to_update array (r ∷ rs)

unfoldable pub forwarded_queues :
    Deployment
    → Bool
    → List SentQueue
    → List WorkerQueue
    → List WorkerQueueRequest
    → Result QueueError (Option (List SentQueue))
forwarded_queues d is_remote default_queues array list = do
  existing ← existing_update_queues (queues_or_none d.worker_queues)
  let queues = some (queues_to_send array list existing)
  ok (
      if is_remote
      then queues
      else update_worker_queues_for_executor d.executor queues (some default_queues))
