-- ===== src/WorkerQueue/Tests.antt =====
-- The theorems on worker queues at concrete inputs, and runs of the code.
use astro_cli.WorkerQueue.Forward.{
  update_worker_queues_for_executor, existing_update_queues, forwarded_queues,
}
use mathlib.Core.Option
use astro_cli.WorkerQueue.Queues.Update.{is_named}
use astro_cli.WorkerQueue.CreateOrUpdate.Inversion.{IsMachine}
use astro_cli.Prelude.Int.{pos}
use astro_cli.Prelude.{
  if◌then◌else◌, find_by, refl, contains_by, err, ◌⊎◌, [], some, ◌++◌, ok, false, ◌∷◌, true, ◌==◌,
  ◌≡◌, map, String, sort_slice, none, List,
}
use astro_cli.WorkerQueue.{
  cannot_delete_default, WorkerMachine, Action, WorkerQueue, WorkerQueueRequest,
}
use astro_cli.WorkerQueue.Validate.{is_hosted_worker_queue_input_valid}
use astro_cli.WorkerQueue.Validate.Bounds.{Within}
use astro_cli.WorkerQueue.Queues.{
  update_hybrid_queue_list, convert_create_queues_to_update, by_name, update_queue_list,
  sanitize_existing_queues, queue_exists,
}
use astro_cli.WorkerQueue.Prepare.{
  Flags, request_of, zero_hybrid_request, prepare_hosted, existing_requests, name_or_prompt,
  hosted_request,
}
use astro_cli.WorkerQueue.Select.{select_worker_machine}
use astro_cli.WorkerQueue.CreateOrUpdate.{
  update_deployment, create_or_update, check_input, apply_action,
}
use astro_cli.WorkerQueue.CreateOrUpdate.Slots.{queue_name, own_id}
use astro_cli.WorkerQueue.CreateOrUpdate.Create.{
  sent_name, sent_id, has_name, create_sends, create-Within,
}
use astro_cli.WorkerQueue.CreateOrUpdate.Update.{update_sends, changed}
use astro_cli.WorkerQueue.Delete.{delete, kept_requests}
use astro_cli.WorkerQueue.Examples.{queue, unsorted, deployment, platform, new_queue, answers}

abbrev sorted : List WorkerQueue
sorted = queue "a" "q2" ∷ queue "default" "q1" ∷ []

abbrev requests : List WorkerQueueRequest
requests = request_of (queue "default" "q1") "A5" 0 ∷ request_of (queue "a" "q2") "A5" 1 ∷ []

abbrev added : WorkerQueueRequest
added = record {
  astro_machine = "A5";
  id = none;
  is_default = false;
  max_worker_count = pos 4;
  min_worker_count = pos 4;
  name = "b";
  pod_ephemeral_storage = none;
  worker_concurrency = pos 4;
}

created_run :
    create_or_update new_queue answers (deployment unsorted) platform
    ≡ ok (update_deployment sorted (requests ++ added ∷ []) (zero_hybrid_request ∷ []))
unfolding create_or_update prepare_hosted existing_requests name_or_prompt select_worker_machine
    hosted_request check_input is_hosted_worker_queue_input_valid apply_action queue_exists
    sanitize_existing_queues sort_slice
created_run = refl

create_sends_example :
    (name : String) × (map sent_name
        (convert_create_queues_to_update sorted (requests ++ added ∷ []))
      ≡ map queue_name unsorted ++ name ∷ [])
    × (map sent_id (convert_create_queues_to_update sorted (requests ++ added ∷ []))
        ≡ map own_id (sort_slice by_name unsorted) ++ none ∷ [])
    × (contains_by (has_name name) unsorted ≡ false)
create_sends_example =
    create_sends new_queue answers (deployment unsorted) platform unsorted refl refl refl
      created_run

-- The queue "default" is sent with the id of "a", and "a" with that of "default".
mixed_ids :
    map sent_id (convert_create_queues_to_update sorted requests) ≡ some "q2" ∷ some "q1" ∷ []
unfolding convert_create_queues_to_update
mixed_ids = refl

create-Within_example :
    (new : WorkerQueueRequest) × (existing : List WorkerQueueRequest) × (machine : WorkerMachine)
    × (existing_requests unsorted 0 ≡ ok existing)
    × (requests ++ added ∷ [] ≡ existing ++ new ∷ [])
    × (new.id ≡ none)
    × IsMachine new_queue platform machine
    × (new.astro_machine ≡ machine.name)
    × Within new.min_worker_count new.max_worker_count new.worker_concurrency platform.options
        (pos 1)
        machine.concurrency.ceiling
create-Within_example =
    create-Within new_queue answers (deployment unsorted) platform unsorted refl refl refl
      created_run

abbrev change_a : Flags
change_a = record new_queue { name = "a"; action = Action.update; w_max = pos 7; force = true }

abbrev requests_after : List WorkerQueueRequest
requests_after =
    request_of (queue "default" "q1") "A5" 0
    ∷ record (request_of (queue "a" "q2") "A5" 1) { max_worker_count = pos 7 }
    ∷ []

updated_run :
    create_or_update change_a answers (deployment unsorted) platform
    ≡ ok (update_deployment sorted requests_after [])
unfolding create_or_update prepare_hosted existing_requests name_or_prompt select_worker_machine
    hosted_request check_input is_hosted_worker_queue_input_valid apply_action queue_exists
    sanitize_existing_queues sort_slice update_queue_list update_hybrid_queue_list
updated_run = refl

update_sends_example :
    (existing : List WorkerQueueRequest) × (machine : WorkerMachine) × ((change_a.force ≡ true)
      ⊎ (answers.confirm ≡ true))
    × IsMachine change_a platform machine
    × (existing_requests unsorted 0 ≡ ok existing)
    × ((name : String)
        → find_by (is_named name) requests_after ≡ (
            if "a" == name
            then Option.map (changed change_a machine) (find_by (is_named name) existing)
            else find_by (is_named name) existing))
    × (map sent_name (convert_create_queues_to_update sorted requests_after)
        ≡ map queue_name unsorted)
    × (map sent_id (convert_create_queues_to_update sorted requests_after)
        ≡ map own_id (sort_slice by_name unsorted))
update_sends_example =
    update_sends change_a answers (deployment unsorted) platform unsorted refl refl refl refl
      updated_run

-- Where no queue is kept, the queues that the deployment has are sent, the deleted one too.
abbrev lonely : List WorkerQueue
lonely = queue "a" "q2" ∷ []

lonely_delete : delete "a" true "" false (deployment lonely) ≡ ok (update_deployment lonely [] [])
unfolding delete kept_requests queue_exists sanitize_existing_queues sort_slice
lonely_delete = refl

lonely_stays :
    forwarded_queues (deployment lonely) false [] lonely []
    ≡ ok (some (convert_create_queues_to_update lonely (request_of (queue "a" "q2") "A5" 0 ∷ [])))
unfolding forwarded_queues existing_update_queues update_worker_queues_for_executor
    convert_create_queues_to_update
lonely_stays = refl

default_stays : delete "default" true "" false (deployment unsorted) ≡ err cannot_delete_default
unfolding delete
default_stays = refl
