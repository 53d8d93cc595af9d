-- ===== src/DeploymentFile/Queues/Tests.antt =====
-- The theorems on the queues of a file at concrete inputs, and runs of the code.
use astro_cli.WorkerQueue.Prepare.{request_of, zero_machine}
use astro_cli.DeploymentFile.Queues.Machines.{hosted-AllFit, AllFit}
use astro_cli.DeploymentFile.Queues.Fill.{id_of, file_shape, shape}
use astro_cli.DeploymentFile.Queues.Answer.{get_queues-HasPool, HasPool}
use astro_cli.Prelude.Int.{pos}
use astro_cli.Prelude.{
  All, ◌>>=◌, false, List, none, refl, map, some, ok, err, to_upper, ◌≡◌, [], sort_slice, String,
  ◌∷◌,
}
use astro_cli.DeploymentFile.{invalid_queue, FormattedDeployment}
use astro_cli.DeploymentFile.Kinds.{transform_deployment_type}
use astro_cli.DeploymentFile.Queues.{
  find_node_pool, get_node_pool_id_from_worker_type, get_queues, fill_queues, hosted_requests,
  hosted_queue_request, machine_named,
}
use astro_cli.DeploymentFile.Examples.{options, existing_queue, requested, file_of, pools}
use astro_cli.WorkerQueue.{OptionField, invalid_option, WorkerQueueRequest, WorkerQueue}
use astro_cli.WorkerQueue.Validate.{is_hosted_worker_queue_input_valid}

abbrev dedicated_file : FormattedDeployment
dedicated_file = file_of "DEDICATED" (requested "default" "a5" ∷ requested "a" "A5" ∷ []) []

abbrev hybrid_file : FormattedDeployment
hybrid_file = file_of "HYBRID" (requested "z" "r5" ∷ requested "default" "m5" ∷ []) []

abbrev pooled : String → WorkerQueue
pooled name = record (existing_queue name "") {
  astro_machine = none;
  min_worker_count = pos 1;
  node_pool_id = some "p2";
}

-- The default queue, of worker type m5, gets the pool of type r5.
pools_run : get_queues hybrid_file pools [] ≡ ok (pooled "default" ∷ pooled "z" ∷ [])
unfolding get_queues fill_queues transform_deployment_type sort_slice to_upper
    get_node_pool_id_from_worker_type find_node_pool
pools_run = refl

get_queues-HasPool_example :
    (pool : String) × (map shape (pooled "default" ∷ pooled "z" ∷ [])
      ≡ map (file_shape false) (requested "default" "m5" ∷ requested "z" "r5" ∷ []))
    × (get_node_pool_id_from_worker_type "r5" pools ≡ ok pool)
    × All (HasPool pool) (pooled "default" ∷ pooled "z" ∷ [])
unfolding transform_deployment_type sort_slice to_upper
get_queues-HasPool_example =
    get_queues-HasPool hybrid_file pools [] (requested "default" "m5") (requested "z" "r5" ∷ [])
      refl refl pools_run

-- A new queue whose name sorts first takes the place of the default queue, which loses its id.
new_queue_run :
    (get_queues dedicated_file pools (existing_queue "default" "q1" ∷ []) >>= λ qs.
    ok (map id_of qs))
    ≡ ok ("" ∷ "" ∷ [])
unfolding get_queues fill_queues transform_deployment_type sort_slice to_upper
new_queue_run = refl

abbrev named_machines : List WorkerQueue
named_machines = existing_queue "a" "" ∷ existing_queue "default" "" ∷ []

abbrev machine_requests : List WorkerQueueRequest
machine_requests =
    (record (request_of (existing_queue "a" "") "A5" 0) { pod_ephemeral_storage = none })
    ∷ (request_of (existing_queue "default" "") "A5" 1)
    ∷ []

hosted_run :
    hosted_requests options "CeleryExecutor" named_machines 0 zero_machine ≡ ok machine_requests
unfolding hosted_requests hosted_queue_request machine_named is_hosted_worker_queue_input_valid
    to_upper
hosted_run = refl

hosted-AllFit_example : AllFit options "CeleryExecutor" named_machines machine_requests
hosted-AllFit_example =
    hosted-AllFit options "CeleryExecutor" named_machines 0 zero_machine
      (("A5", refl, refl), (("A5", refl, refl), tt)) hosted_run

abbrev other_machine : String → WorkerQueue
other_machine name = record (existing_queue name "") { astro_machine = some "A99" }

-- A machine that the platform does not have is refused for the first queue only.
stale_run :
    (hosted_requests options "CeleryExecutor"
        (existing_queue "a" "" ∷ other_machine "default" ∷ [])
        0
        zero_machine
      ≡ ok (
          request_of (existing_queue "a" "") "A5" 0
          ∷ request_of (existing_queue "default" "") "A99" 1
          ∷ []))
    × (hosted_requests options "CeleryExecutor" (other_machine "a" ∷ []) 0 zero_machine
        ≡ err (invalid_queue (invalid_option OptionField.concurrency (pos 1) (pos 0))))
unfolding hosted_requests hosted_queue_request machine_named is_hosted_worker_queue_input_valid
    to_upper
stale_run = (refl, refl)
