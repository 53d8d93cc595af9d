-- ===== src/DeploymentFile/Tests.antt =====
-- The theorems on deployment files at concrete inputs, and runs of the code.
use astro_cli.Prelude.Int.{pos}
use astro_cli.Prelude.{
  true, List, none, refl, ◌==◌, ◌↔◌, map, some, ok, err, ◌⊎◌, to_upper, ◌≡◌, [], sort_slice, String,
  ◌∷◌,
}
use astro_cli.DeploymentFile.{FileError, Deployment, FormattedDeployment, required_field, Field}
use astro_cli.DeploymentFile.Check.{
  check_required_fields, check_env_vars, check_queues, check_alert_emails, is_valid_executor,
}
use astro_cli.DeploymentFile.Check.Complete.{IsComplete, check_required_fields_iff}
use astro_cli.DeploymentFile.Kinds.{
  hybrid_executor, updated_executor, created_executor, transform_deployment_type,
}
use astro_cli.DeploymentFile.Queues.{
  get_queues, fill_queues, hosted_requests, hosted_queue_request, machine_named,
}
use astro_cli.DeploymentFile.Requests.{
  update_dedicated, create_env_vars_request, created_sizes, updated_sizes,
}
use astro_cli.DeploymentFile.Calls.{History, Call, create_call, update_call}
use astro_cli.DeploymentFile.Create.{create_deployment_request, hosted_create}
use astro_cli.DeploymentFile.Update.{update_deployment_request, hosted_update}
use astro_cli.DeploymentFile.Lookup.{
  deployment_from_name, get_cluster_info_from_name, find_cluster, get_workspace_id_from_name,
  find_workspace, cluster_info,
}
use astro_cli.DeploymentFile.Send.{
  worker_queues_of, queue_requests, options_of, send_create, send_update,
  create_or_update_deployment,
}
use astro_cli.DeploymentFile.Send.Ids.{names-worker_queues_of, worker_queues_sent}
use astro_cli.DeploymentFile.Command.{
  create_or_update_from_file, run_file, run_blocks, create_block, create_step, update_step,
}
use astro_cli.DeploymentFile.Command.Blocks.{Sends}
use astro_cli.DeploymentFile.Command.Whole.{create_or_update_from_file-Sends}
use astro_cli.DeploymentFile.Examples.{
  requested, file_of, variable, existing_queues, existing, pools, listed, platform_of, around_of,
  semver, is_valid_email, reader_of,
}
use astro_cli.WorkerQueue.{celery, create}
use astro_cli.WorkerQueue.Queues.{SentQueue, convert_create_queues_to_update, by_name}
use astro_cli.WorkerQueue.Validate.{is_hosted_worker_queue_input_valid}
use astro_cli.WorkerQueue.CreateOrUpdate.Create.{sent_name, sent_id}
use astro_cli.WorkerQueue.CreateOrUpdate.Slots.{own_id}

abbrev dedicated_file : FormattedDeployment
dedicated_file =
    file_of "DEDICATED" (requested "default" "a5" ∷ requested "a" "A5" ∷ []) (variable ∷ [])

abbrev call_kind : Call → String
call_kind (create_call request) = "create"
call_kind (update_call id request) = id

-- A create of a file with a variable makes a create call and then an update call.
created_run :
    map call_kind
      (create_or_update_from_file (reader_of dedicated_file) (around_of (λ w. listed)) create []).1
    ≡ "d1" ∷ "create" ∷ []
unfolding create_or_update_from_file check_required_fields is_valid_executor check_alert_emails
    check_env_vars check_queues run_file run_blocks create_block create_step update_step
    deployment_from_name get_cluster_info_from_name find_cluster get_workspace_id_from_name
    find_workspace cluster_info create_or_update_deployment worker_queues_of queue_requests
    options_of send_create send_update create_deployment_request hosted_create
    update_deployment_request hosted_update created_sizes updated_sizes create_env_vars_request
    get_queues fill_queues hosted_requests hosted_queue_request machine_named
    is_hosted_worker_queue_input_valid convert_create_queues_to_update transform_deployment_type
    sort_slice to_upper
created_run = refl

create_or_update_from_file-Sends_example :
    ((e : FileError) × (create_or_update_from_file
          (reader_of dedicated_file)
          (around_of (λ w. listed))
          create
          []
        ≡ (err e, [])))
    ⊎ (IsComplete semver is_valid_email create dedicated_file
        × Sends (around_of (λ w. listed)) dedicated_file create [] (
            create_or_update_from_file
              (reader_of dedicated_file)
              (around_of (λ w. listed))
              create
              []))
create_or_update_from_file-Sends_example =
    create_or_update_from_file-Sends (reader_of dedicated_file) (around_of (λ w. listed)) create []
      refl refl

-- A file whose queues lack the default queue.
no_default_run :
    check_required_fields semver is_valid_email
      (file_of "DEDICATED" (requested "a" "A5" ∷ []) [])
      create
    ≡ err (required_field Field.default_queue)
unfolding check_required_fields is_valid_executor check_queues
no_default_run = refl

check_required_fields_iff_example :
    (check_required_fields semver is_valid_email dedicated_file create ≡ ok tt)
    ↔ IsComplete semver is_valid_email create dedicated_file
check_required_fields_iff_example =
    check_required_fields_iff semver is_valid_email dedicated_file create

abbrev sent_queue : String → String → SentQueue
sent_queue name id = record {
  id = some id;
  is_default = name == "default";
  max_worker_count = pos 10;
  min_worker_count = pos 1;
  name = name;
  machine_or_pool = "A5";
  pod_ephemeral_storage = none;
  worker_concurrency = pos 5;
}

queues_run :
    worker_queues_of (platform_of (λ w. listed)) dedicated_file existing pools []
    ≡ (ok (sent_queue "a" "q2" ∷ sent_queue "default" "q1" ∷ []), [])
unfolding worker_queues_of queue_requests get_queues fill_queues hosted_requests
    hosted_queue_request machine_named is_hosted_worker_queue_input_valid
    convert_create_queues_to_update transform_deployment_type sort_slice to_upper
queues_run = refl

names-worker_queues_of_example :
    map sent_name (sent_queue "a" "q2" ∷ sent_queue "default" "q1" ∷ []) ≡ "a" ∷ "default" ∷ []
unfolding transform_deployment_type sort_slice to_upper
names-worker_queues_of_example =
    names-worker_queues_of (platform_of (λ w. listed)) dedicated_file existing pools [] [] refl refl
      queues_run

worker_queues_sent_example :
    (map sent_name (sent_queue "a" "q2" ∷ sent_queue "default" "q1" ∷ []) ≡ "a" ∷ "default" ∷ [])
    × (map sent_id (sent_queue "a" "q2" ∷ sent_queue "default" "q1" ∷ [])
        ≡ map own_id (sort_slice by_name existing_queues))
unfolding transform_deployment_type sort_slice to_upper
worker_queues_sent_example =
    worker_queues_sent (platform_of (λ w. listed)) dedicated_file existing pools [] [] refl refl
      (λ e. absurd (cc)) refl queues_run

-- An executor in lower case is valid, but a create sends none.
lower_case_run :
    (is_valid_executor semver "celeryexecutor" "12.0.0" "DEDICATED" ≡ true)
    × (created_executor "celeryexecutor" ≡ none)
    × (updated_executor "celeryexecutor" ≡ some celery)
unfolding is_valid_executor created_executor updated_executor to_upper
lower_case_run = (refl, refl, refl)

-- A hybrid file without a runtime version may name the Astro executor, and an update sends none.
hybrid_astro_run :
    (is_valid_executor semver "AstroExecutor" "" "HYBRID" ≡ true)
    × (hybrid_executor (updated_executor "AstroExecutor") ≡ none)
unfolding is_valid_executor updated_executor to_upper
hybrid_astro_run = (refl, refl)

abbrev crowded : String → History → List Deployment
crowded workspace_id [] = []
crowded workspace_id (call ∷ calls) = existing ∷ existing ∷ []

abbrev past : History
past =
    update_call "d1" (update_dedicated (hosted_update dedicated_file "w1" existing true [] []) none)
    ∷ []
