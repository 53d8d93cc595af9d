-- ===== src/WorkerQueue/CreateOrUpdate.antt =====
-- CreateOrUpdate. `update_deployment` is the call of deployment.Update that it ends in: the backing
-- array of the deployment's queues at that time, and the two lists.
pub mod Slots
pub mod Inversion
pub mod Create
pub mod Update
use astro_cli.WorkerQueue.Prepare.{
  Flags, Answers, Platform, Prepared, is_hosted, is_create, prepare_hosted, prepare_hybrid, follow,
}
use astro_cli.Prelude.Int.{negsuc}
use astro_cli.Prelude.{
  ◌>>◌, ◌&&◌, not, ◌++◌, ◌>>=◌, ◌==◌, ◌∷◌, if◌then◌else◌, err, [], ok, Result, List,
}
use astro_cli.WorkerQueue.{
  WorkerQueue, QueueError, Deployment, DeploymentKind, WorkerQueueRequest, HybridWorkerQueueRequest,
  Executor, kubernetes, no_use_worker_queues, cannot_update_existing, cannot_create_new,
}
use astro_cli.WorkerQueue.Validate.{
  is_worker_queue_input_valid, is_hosted_worker_queue_input_valid,
  is_kubernetes_worker_queue_input_valid,
}
use astro_cli.WorkerQueue.Queues.{
  queue_exists, sanitize_existing_queues, update_queue_list, update_hybrid_queue_list,
}

pub data Outcome : Type 0 where
  no_deployment canceled : Outcome
  update_deployment :
      List WorkerQueue → List WorkerQueueRequest → List HybridWorkerQueueRequest → Outcome

-- The switch on the executor: it validates the queue, and resets the minimum for Kubernetes.
unfoldable pub check_input :
    DeploymentKind → Executor → Platform → Prepared → Result QueueError Prepared
check_input kind kubernetes platform p = if is_hosted kind then err no_use_worker_queues else do
  let hybrid_queue = record p.hybrid_queue { min_worker_count = negsuc 0 }
  is_kubernetes_worker_queue_input_valid hybrid_queue
  ok (record p { hybrid_queue = hybrid_queue })
check_input kind _ platform p = do
  (if is_hosted kind
      then is_hosted_worker_queue_input_valid p.queue platform.options p.machine
      else is_worker_queue_input_valid p.hybrid_queue platform.options)
  ok p

-- The switch on the action, with the queues as sanitizeExistingQueues leaves them.
unfoldable pub apply_action :
    Flags → Answers → Executor → Prepared → List WorkerQueue → Result QueueError Outcome
apply_action flags answers executor p queues =
    let exists = queue_exists queues p.queue p.hybrid_queue in
    if is_create flags.action
    then (if exists
        then err (cannot_update_existing p.name)
        else ok (
            update_deployment queues (p.list ++ p.queue ∷ [])
              (p.hybrid_list ++ p.hybrid_queue ∷ [])))
    else if not exists
    then err (
        cannot_create_new (if p.hybrid_queue.name == "" then p.queue.name else p.hybrid_queue.name))
    else if not flags.force && not answers.confirm
    then ok canceled
    else ok (
        update_deployment queues
          (update_queue_list p.list p.queue executor flags.w_min flags.w_max p.w_concurrency)
          (update_hybrid_queue_list p.hybrid_list p.hybrid_queue executor flags.w_min flags.w_max
            p.w_concurrency))

unfoldable pub create_or_update :
    Flags → Answers → Deployment → Platform → Result QueueError Outcome
create_or_update flags answers d platform = if d.id == "" then ok no_deployment else do
  p ←
      (if is_hosted d.kind
        then prepare_hosted flags answers d platform
        else prepare_hybrid flags answers d platform)
  checked ← check_input d.kind d.executor platform p
  queues ← follow checked.array
  apply_action flags answers d.executor checked (sanitize_existing_queues queues d.executor)
