-- ===== src/DeploymentFile/Send/Ids.antt =====
-- The queues of a standard or dedicated deployment on their way from the file to the platform.
use astro_cli.Prelude.{
  ◌∙◌, sym, ◌≢◌, some, Option, refl, [], ok-inj, String, err, ap, ◌∷◌, true, ok, sort_slice, ◌≡◌,
  map, Result, Bool, List,
}
use mathlib.Core.Path.{ap₂}
use astro_cli.DeploymentFile.{
  FormattedDeployment, Deployment, Workerq, DeploymentOptions, FileError,
}
use astro_cli.DeploymentFile.Check.{has_queues}
use astro_cli.DeploymentFile.Kinds.{transform_deployment_type, is_hosted_type}
use astro_cli.DeploymentFile.Queues.{get_queues, hosted_requests, by_queue_name}
use astro_cli.DeploymentFile.Queues.Fill.{shape, Shape, file_shape, file_name, cons-inj}
use astro_cli.DeploymentFile.Queues.Answer.{get_queues-shapes, get_queues-ids}
use astro_cli.DeploymentFile.Queues.Hosted.{hosted-names, hosted-ids}
use astro_cli.DeploymentFile.Calls.{Platform, Calls, History, lift, asks, ◌>>=◌}
use astro_cli.DeploymentFile.Calls.Steps.{both-ok}
use astro_cli.DeploymentFile.Send.{worker_queues_of, queue_requests, on_ok}
use astro_cli.WorkerQueue.{DeploymentKind, WorkerQueue, NodePool, WorkerQueueRequest}
use astro_cli.WorkerQueue.Prepare.{zero_machine, queues_or_none}
use astro_cli.WorkerQueue.Queues.{SentQueue, by_name, convert_create_queues_to_update}
use astro_cli.WorkerQueue.CreateOrUpdate.Slots.{queue_name, own_id}
use astro_cli.WorkerQueue.CreateOrUpdate.Create.{sent_name, sent_id, names-convert, ids-convert}

names-shape :
    (qs : List WorkerQueue) → map (λ (s : Shape). s.name) (map shape qs) ≡ map queue_name qs
names-shape [] = refl
names-shape (q ∷ qs) = ap (λ (ns : List String). q.name ∷ ns) (names-shape qs)

names-file_shape :
    (hosted : Bool) (rs : List Workerq)
    → map (λ (s : Shape). s.name) (map (file_shape hosted) rs) ≡ map file_name rs
names-file_shape hosted [] = refl
names-file_shape hosted (r ∷ rs) =
    ap (λ (ns : List String). r.name ∷ ns) (names-file_shape hosted rs)

own_ids :
    (qs ps : List WorkerQueue)
    → map (λ (q : WorkerQueue). q.id) qs ≡ map (λ (q : WorkerQueue). q.id) ps
    → map own_id qs ≡ map own_id ps
own_ids [] [] e = refl
own_ids [] (p ∷ ps) e = absurd (cc)
own_ids (q ∷ qs) [] e = absurd (cc)
own_ids (q ∷ qs) (p ∷ ps) e =
    ap₂ (λ (x : Option String) (xs : List (Option String)). x ∷ xs) (ap some (cons-inj e).0)
      (own_ids qs ps (cons-inj e).1)

on_ok-ok {ℓ κ} :
    {A : Type ℓ} {B : Type κ} (f : A → B) (r : Result FileError A) {b : B}
    → on_ok f r ≡ ok b
    → (a : A) × (r ≡ ok a) × (f a ≡ b)
on_ok-ok f (err e) h = absurd (cc)
on_ok-ok f (ok a) h = (a, refl, ok-inj h)

module _ (platform : Platform) (file : FormattedDeployment) (d : Deployment)
    (pools : List NodePool) where
  abbrev sorted : List Workerq
  sorted = sort_slice by_queue_name file.worker_queues

  abbrev kind : Option DeploymentKind
  kind = transform_deployment_type file.configuration.deployment_type

  abbrev requests_behind : List WorkerQueue → DeploymentOptions → Calls (List SentQueue)
  requests_behind queues options = lift (queue_requests kind file queues options)

  abbrev options_behind : List WorkerQueue → Calls (List SentQueue)
  options_behind queues = asks platform.platform_options >>= requests_behind queues

  hosted_requests-from :
      (queues : List WorkerQueue) (options : DeploymentOptions) {sent : List SentQueue}
      → is_hosted_type (transform_deployment_type file.configuration.deployment_type) ≡ true
      → queue_requests kind file queues options ≡ ok sent
      → (requests : List WorkerQueueRequest) × (hosted_requests options file.configuration.executor
            queues 0 zero_machine
          ≡ ok requests)
        × (convert_create_queues_to_update queues requests ≡ sent)
  unfolding queue_requests
  hosted_requests-from queues options hosted e =
      on_ok-ok (convert_create_queues_to_update queues)
        (hosted_requests options file.configuration.executor queues 0 zero_machine) (rw hosted at e)

  -- The queues that were sent are requests for those that getQueues returned.
  sent-from :
      (h last : History) {sent : List SentQueue}
      → is_hosted_type (transform_deployment_type file.configuration.deployment_type) ≡ true
      → has_queues file ≡ true
      → worker_queues_of platform file d pools h ≡ (ok sent, last)
      → (queues : List WorkerQueue) × (options : DeploymentOptions) × (requests : List
          WorkerQueueRequest)
        × (get_queues file pools (queues_or_none d.worker_queues) ≡ ok queues)
        × (hosted_requests options file.configuration.executor queues 0 zero_machine ≡ ok requests)
        × (convert_create_queues_to_update queues requests ≡ sent)
  unfolding worker_queues_of
  sent-from h last {sent = sent} hosted some_queues e =
      let (queues, h1, got, e1) =
        both-ok (lift (get_queues file pools (queues_or_none d.worker_queues))) options_behind h
          (rw some_queues at e) in
      let (options, h2, read, e2) =
        both-ok (asks platform.platform_options) (requests_behind queues) h1 e1 in
      let (requests, made, converted) =
        hosted_requests-from queues options {sent = sent} hosted
          (ap (λ (p : Result FileError (List SentQueue) × History). p.0) e2) in
      (
        queues,
        options,
        requests,
        ap (λ (p : Result FileError (List WorkerQueue) × History). p.0) got,
        made,
        converted,
      )

  -- On a standard or dedicated deployment the queues of the file are sent in the order of their
  -- names, each under its name, by a create and by an update, whatever queues the deployment has.
  pub names-worker_queues_of :
      (h last : History) {sent : List SentQueue}
      → is_hosted_type (transform_deployment_type file.configuration.deployment_type) ≡ true
      → has_queues file ≡ true
      → worker_queues_of platform file d pools h ≡ (ok sent, last)
      → map sent_name sent ≡ map file_name sorted
  names-worker_queues_of h last hosted some_queues e =
      let (queues, options, requests, got, made, converted) =
        sent-from h last hosted some_queues e in
      ap (map sent_name) (sym converted)
      ∙ names-convert queues requests
      ∙ hosted-names options file.configuration.executor queues 0 zero_machine made
      ∙ sym (names-shape queues)
      ∙ ap (map (λ (s : Shape). s.name))
          (get_queues-shapes file pools (queues_or_none d.worker_queues) got)
      ∙ names-file_shape (is_hosted_type kind) sorted

  -- If the file of a standard or dedicated deployment has queues, whose names are just those of the
  -- deployment's queues, and the executor is not written KubernetesExecutor, the queues of the file
  -- are sent in the order of their names, each under its name and with the id that the deployment's
  -- queue of that name has.
  pub worker_queues_sent :
      (h last : History) {sent : List SentQueue}
      → is_hosted_type (transform_deployment_type file.configuration.deployment_type) ≡ true
      → has_queues file ≡ true
      → file.configuration.executor ≢ "KubernetesExecutor"
      → map queue_name (sort_slice by_name (queues_or_none d.worker_queues)) ≡ map file_name sorted
      → worker_queues_of platform file d pools h ≡ (ok sent, last)
      → (map sent_name sent ≡ map file_name sorted)
        × (map sent_id sent ≡ map own_id (sort_slice by_name (queues_or_none d.worker_queues)))
  worker_queues_sent h last hosted some_queues other names e =
      let (queues, options, requests, got, made, converted) =
        sent-from h last hosted some_queues e in
      let existing = queues_or_none d.worker_queues in
      (
        names-worker_queues_of h last hosted some_queues e,
        ap (map sent_id) (sym converted)
            ∙ ids-convert queues requests
            ∙ hosted-ids options file.configuration.executor queues zero_machine made
            ∙ own_ids queues (sort_slice by_name existing)
                (get_queues-ids file pools existing other names got),
      )
