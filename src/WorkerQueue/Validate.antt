-- ===== src/WorkerQueue/Validate.antt =====
-- The defaults and the bounds of a requested queue.
pub mod Bounds
use astro_cli.Prelude.Int.{pos, le_ℤ, negsuc, eq_ℤ, ℤ}
use astro_cli.Prelude.{◌||◌, ◌==◌, ok, err, not, Bool, if◌then◌else◌, Result, String}
use astro_cli.WorkerQueue.{
  WorkerQueueRequest, HybridWorkerQueueRequest, WorkerQueueOptions, WorkerMachine, QueueError,
  invalid_option, not_supported, OptionField, Unsupported,
}

abbrev pub default_queue_name : String
default_queue_name = "default"

-- SetWorkerQueueValues: -1 asks for the default minimum, 0 for the other defaults.
unfoldable pub set_worker_queue_values :
    ℤ → ℤ → ℤ → WorkerQueueRequest → WorkerQueueOptions → WorkerMachine → WorkerQueueRequest
set_worker_queue_values w_min w_max w_concurrency queue options machine = record queue {
  min_worker_count =
      if eq_ℤ w_min (negsuc 0) then options.min_workers.default else queue.min_worker_count;
  max_worker_count =
      if eq_ℤ w_max (pos 0) then options.max_workers.default else queue.max_worker_count;
  worker_concurrency =
      if eq_ℤ w_concurrency (pos 0) then machine.concurrency.default else queue.worker_concurrency;
}

unfoldable pub set_worker_queue_values_hybrid :
    ℤ → ℤ → ℤ → HybridWorkerQueueRequest → WorkerQueueOptions → HybridWorkerQueueRequest
set_worker_queue_values_hybrid w_min w_max w_concurrency queue options = record queue {
  min_worker_count =
      if eq_ℤ w_min (negsuc 0) then options.min_workers.default else queue.min_worker_count;
  max_worker_count =
      if eq_ℤ w_max (pos 0) then options.max_workers.default else queue.max_worker_count;
  worker_concurrency =
      if eq_ℤ w_concurrency (pos 0)
      then options.worker_concurrency.default
      else queue.worker_concurrency;
}

-- `!(v >= floor) || !(v <= ceiling)`
abbrev pub outside : ℤ → ℤ → ℤ → Bool
outside v floor ceiling = not (le_ℤ floor v) || not (le_ℤ v ceiling)

unfoldable pub is_worker_queue_input_valid :
    HybridWorkerQueueRequest → WorkerQueueOptions → Result QueueError (Unit {0})
is_worker_queue_input_valid q o =
    if outside q.min_worker_count o.min_workers.floor o.min_workers.ceiling
    then err (invalid_option OptionField.min_count o.min_workers.floor o.min_workers.ceiling)
    else if outside q.max_worker_count o.max_workers.floor o.max_workers.ceiling
    then err (invalid_option OptionField.max_count o.max_workers.floor o.max_workers.ceiling)
    else if outside q.worker_concurrency o.worker_concurrency.floor o.worker_concurrency.ceiling
    then err (
        invalid_option OptionField.concurrency o.worker_concurrency.floor
          o.worker_concurrency.ceiling)
    else ok tt

-- The floor of the concurrency of a hosted deployment is 1, its ceiling the machine's.
unfoldable pub is_hosted_worker_queue_input_valid :
    WorkerQueueRequest → WorkerQueueOptions → WorkerMachine → Result QueueError (Unit {0})
is_hosted_worker_queue_input_valid q o m =
    if outside q.min_worker_count o.min_workers.floor o.min_workers.ceiling
    then err (invalid_option OptionField.min_count o.min_workers.floor o.min_workers.ceiling)
    else if outside q.max_worker_count o.max_workers.floor o.max_workers.ceiling
    then err (invalid_option OptionField.max_count o.max_workers.floor o.max_workers.ceiling)
    else if outside q.worker_concurrency (pos 1) m.concurrency.ceiling
    then err (invalid_option OptionField.concurrency (pos 1) m.concurrency.ceiling)
    else ok tt

unfoldable pub is_kubernetes_worker_queue_input_valid :
    HybridWorkerQueueRequest → Result QueueError (Unit {0})
is_kubernetes_worker_queue_input_valid q =
    if not (q.name == default_queue_name)
    then err (not_supported Unsupported.queue_name)
    else if not (eq_ℤ q.max_worker_count (pos 0))
    then err (not_supported Unsupported.maximum_count)
    else if not (eq_ℤ q.worker_concurrency (pos 0))
    then err (not_supported Unsupported.concurrency)
    else ok tt
