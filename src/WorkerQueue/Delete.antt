-- ===== src/WorkerQueue/Delete.antt =====
-- Delete: the queues that are kept are sent again, all but the one with the name.
pub mod Kept
pub mod Sent
use astro_cli.Prelude.{
  ◌&&◌, not, some, [], ◌>>=◌, none, err, ◌+◌, ◌∷◌, ◌==◌, if◌then◌else◌, ok, Result, Option, List,
  Bool, String,
}
use astro_cli.WorkerQueue.{
  WorkerQueue, WorkerQueueRequest, HybridWorkerQueueRequest, QueueError, Deployment, Slot,
  nil_pointer, cannot_delete_default, queue_does_not_exist,
}
use astro_cli.WorkerQueue.Validate.{default_queue_name}
use astro_cli.WorkerQueue.Queues.{queue_exists, sanitize_existing_queues}
use astro_cli.WorkerQueue.Select.{select_queue}
use astro_cli.WorkerQueue.Prepare.{
  is_hosted, follow, request_of, hybrid_request_of, append_ok, zero_request, zero_hybrid_request,
}
use astro_cli.WorkerQueue.CreateOrUpdate.{Outcome, no_deployment, canceled, update_deployment}

-- Requests for the queues with another name, from the i-th on; a nil machine panics.
unfoldable pub kept_requests :
    String → List WorkerQueue → Slot → Result QueueError (List WorkerQueueRequest)
kept_requests name [] i = ok []
kept_requests name (q ∷ qs) i =
    let rest = kept_requests name qs (i + 1) in
    let kept : Result QueueError (List WorkerQueueRequest) = elim q.astro_machine [
      | none ↦ err nil_pointer
      | some machine ↦ append_ok (request_of q machine i) rest
    ] in
    if q.name == name then rest else kept

unfoldable pub kept_hybrid_requests :
    String → List WorkerQueue → Slot → Result QueueError (List HybridWorkerQueueRequest)
kept_hybrid_requests name [] i = ok []
kept_hybrid_requests name (q ∷ qs) i =
    let rest = kept_hybrid_requests name qs (i + 1) in
    let kept : Result QueueError (List HybridWorkerQueueRequest) = elim q.node_pool_id [
      | none ↦ err nil_pointer
      | some pool ↦ append_ok (hybrid_request_of q pool i) rest
    ] in
    if q.name == name then rest else kept

-- What is sent once the queue is known to exist and the user agreed.
abbrev pub send_kept : String → Deployment → List WorkerQueue → Result QueueError Outcome
send_kept name d queues =
    if is_hosted d.kind
    then (do kept ← kept_requests name queues 0; ok (update_deployment queues kept []))
    else do kept ← kept_hybrid_requests name queues 0; ok (update_deployment queues [] kept)

abbrev pub delete_named :
    Bool → Bool → String → Deployment → Option (List WorkerQueue) → Result QueueError Outcome
delete_named force confirm name d array =
    if name == default_queue_name then err cannot_delete_default else do
      before ← follow array
      let queues = sanitize_existing_queues before d.executor
      let found =
          queue_exists queues (record zero_request { name = name })
            (record zero_hybrid_request { name = name })
      if not found
          then err (queue_does_not_exist name)
          else if not force && not confirm
          then ok canceled
          else send_kept name d queues

-- `choice` answers the prompt for a queue, `confirm` the question.
unfoldable pub delete : String → Bool → String → Bool → Deployment → Result QueueError Outcome
delete name force choice confirm d = if d.id == "" then ok no_deployment else do
  (chosen, array) ←
      (if name == "" then select_queue d.worker_queues choice else ok (name, d.worker_queues))
  delete_named force confirm chosen d array
