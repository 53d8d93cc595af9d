-- ===== src/WorkerQueue/CreateOrUpdate/Update.antt =====
-- What an update of a hosted deployment sends.
use mathlib.Core.Option
use astro_cli.WorkerQueue.Validate.{set_worker_queue_values}
use mathlib.Core.Path.{ap₂, subst}
use astro_cli.Prelude.Int.{pos, negsuc, eq_ℤ, ℤ}
use astro_cli.Prelude.{
  none, refl, ◌≢◌, find_by, if◌then◌else◌, Bool, ap, ◌∙◌, sym, some-inj, sort_slice, ◌⊎◌, arith,
  some, ok, false, true, ◌==◌, ◌≡◌, map, String, List, Option,
}
use astro_cli.WorkerQueue.{
  kubernetes, Executor, WorkerQueueOptions, WorkerMachine, Slot, WorkerQueue, WorkerQueueRequest,
  HybridWorkerQueueRequest, Deployment, update,
}
use mathlib.Core.List.{map-map}
use astro_cli.WorkerQueue.Queues.{
  merge, id_of, sanitize_existing_queues, convert_create_queues_to_update, by_name,
}
use astro_cli.WorkerQueue.Queues.Update.{find-update, is_named, identity, identity-update}
use astro_cli.WorkerQueue.Prepare.{
  hosted_concurrency, Flags, Answers, Platform, is_hosted, name_or_prompt, existing_requests,
  hosted_request, queues_or_none,
}
use astro_cli.WorkerQueue.CreateOrUpdate.{update_deployment, create_or_update}
use astro_cli.WorkerQueue.CreateOrUpdate.Slots.{
  request_name, queue_name, own_id, read_id, names-existing_requests, ids-sanitized,
}
use astro_cli.WorkerQueue.CreateOrUpdate.Inversion.{
  prepare_hosted-IsMachine, IsMachine, stages, apply_action-update, prepare_hosted-IsPrepared,
}
use astro_cli.WorkerQueue.CreateOrUpdate.Create.{sent_name, sent_id, names-convert, ids-convert}

-- A name flag leaves the array alone.
array-name_flag :
    (flags : Flags) (answers : Answers) (queues : Option (List WorkerQueue)) {name : String}
    {array : Option (List WorkerQueue)}
    → (flags.name == "") ≡ false
    → name_or_prompt flags answers queues ≡ ok (name, array)
    → (array ≡ queues) × (name ≡ flags.name)
unfolding name_or_prompt
array-name_flag flags answers queues c h = ground arith

abbrev Identity : Type 0
Identity = String × Option Slot × Bool

ids_of_identity :
    (array : List WorkerQueue) (xs ys : List WorkerQueueRequest)
    → map identity xs ≡ map identity ys
    → (map request_name xs ≡ map request_name ys)
      × (map (read_id array) xs ≡ map (read_id array) ys)
ids_of_identity array xs ys h = (
  sym (map-map (λ (t : Identity). t.0) identity xs)
      ∙ ap (map (λ (t : Identity). t.0)) h
      ∙ map-map (λ (t : Identity). t.0) identity ys,
  sym (map-map (λ (t : Identity). id_of array t.1) identity xs)
      ∙ ap (map (λ (t : Identity). id_of array t.1)) h
      ∙ map-map (λ (t : Identity). id_of array t.1) identity ys,
)

map_ext {ℓ} :
    {A B : Type ℓ} (f g : A → B)
    → ((a : A) → f a ≡ g a)
    → (o : Option A) → Option.map f o ≡ Option.map g o
map_ext f g same none = refl
map_ext f g same (some a) = ap some (same a)

-- What the flags of an update ask of a queue: a count that is not given stays as it is.
abbrev pub changed : Flags → WorkerMachine → WorkerQueueRequest → WorkerQueueRequest
changed flags machine q = record q {
  min_worker_count = if eq_ℤ flags.w_min (negsuc 0) then q.min_worker_count else flags.w_min;
  max_worker_count = if eq_ℤ flags.w_max (pos 0) then q.max_worker_count else flags.w_max;
  worker_concurrency =
      if eq_ℤ flags.w_concurrency (pos 0) then q.worker_concurrency else flags.w_concurrency;
  astro_machine = machine.name;
}

merge-changed :
    (flags : Flags) (options : WorkerQueueOptions) (name : String) (machine : WorkerMachine)
    (e : Executor) (q : WorkerQueueRequest)
    → flags.action ≡ update
    → e ≢ kubernetes
    → merge e flags.w_min flags.w_max
        (hosted_concurrency flags machine)
        (hosted_request flags options name machine)
        q
      ≡ changed flags machine q
unfolding hosted_request set_worker_queue_values
merge-changed flags options name machine Executor.kubernetes q updates other = absurd (other refl)
merge-changed flags options name machine Executor.celery q updates other = ground arith
merge-changed flags options name machine Executor.astro q updates other = ground arith

module _ (flags : Flags) (answers : Answers) (d : Deployment) (platform : Platform)
    (queues : List WorkerQueue) {array : List WorkerQueue} {list : List WorkerQueueRequest}
    {hybrid : List HybridWorkerQueueRequest} (hosted : is_hosted d.kind ≡ true)
    (updates : flags.action ≡ update) (named : (flags.name == "") ≡ false)
    (has : d.worker_queues ≡ some queues)
    (sent : create_or_update flags answers d platform
      ≡ ok (update_deployment array list hybrid)) where
  -- An update of a named queue of a hosted deployment that reaches deployment.Update was forced or
  -- confirmed. Of the requests that it passes on, the first with the flag's name is the existing
  -- one with the counts and the concurrency that the flags give and with the name of a machine of
  -- the platform, the one asked for if one was; looked up by any other name, the request is the
  -- existing one. The names are sent in the existing order, and the ids that are sent beside them
  -- are the existing ids in the order of the sorted names.
  pub update_sends :
      (existing : List WorkerQueueRequest) × (machine : WorkerMachine) × ((flags.force ≡ true)
        ⊎ (answers.confirm ≡ true))
      × IsMachine flags platform machine
      × (existing_requests queues 0 ≡ ok existing)
      × ((name : String)
          → find_by (is_named name) list ≡ (
              if flags.name == name
              then Option.map (changed flags machine) (find_by (is_named name) existing)
              else find_by (is_named name) existing))
      × (map sent_name (convert_create_queues_to_update array list) ≡ map queue_name queues)
      × (map sent_id (convert_create_queues_to_update array list)
          ≡ map own_id (sort_slice by_name queues))
  unfolding hosted_request
  update_sends =
      let s = stages flags answers d platform hosted sent in
      let p = s.prepared in
      let made = prepare_hosted-IsPrepared flags answers d platform p s.is_prepared in
      let (known, agreed, a, l) =
        apply_action-update flags answers d.executor p
          (sanitize_existing_queues s.queues d.executor) updates s.applied in
      let (same, name) = array-name_flag flags answers d.worker_queues named made.named in
      let these : s.queues ≡ queues = some-inj (sym s.has_queues ∙ same ∙ has) in
      let b : array ≡ sanitize_existing_queues queues d.executor =
        a ∙ ap (λ (q : List WorkerQueue). sanitize_existing_queues q d.executor) these in
      let read : existing_requests queues 0 ≡ ok p.list =
        subst
          (λ (o : Option (List WorkerQueue)). existing_requests (queues_or_none o) 0 ≡ ok p.list)
          has made.list in
      let merged : (q : WorkerQueueRequest)
          → merge d.executor flags.w_min flags.w_max p.w_concurrency p.queue q
            ≡ changed flags p.machine q =
        (λ q.
          ap₂ (λ (c : ℤ) (r : WorkerQueueRequest). merge d.executor flags.w_min flags.w_max c r q)
            made.w_concurrency made.queue
          ∙ merge-changed flags platform.options p.name p.machine d.executor q updates
              s.not_kubernetes) in
      let (names, ids) = ids_of_identity array list p.list (
        ap (map identity) l
        ∙ identity-update p.queue d.executor flags.w_min flags.w_max p.w_concurrency p.list) in
      (
        p.list,
        p.machine,
        agreed,
        prepare_hosted-IsMachine flags answers d platform p s.is_prepared,
        read,
        (λ asked.
            ap (find_by (is_named asked)) l
            ∙ find-update p.queue d.executor flags.w_min flags.w_max p.w_concurrency p.list asked
            ∙ rw
                (
                  ap (λ (q : WorkerQueueRequest). q.name) made.queue ∙ name,
                  map_ext (merge d.executor flags.w_min flags.w_max p.w_concurrency p.queue)
                      (changed flags p.machine) merged (find_by (is_named asked) p.list),
                )
                refl),
        names-convert array list ∙ names ∙ names-existing_requests queues 0 p.list read,
        ids-convert array list
            ∙ ids
            ∙ ap (λ (q : List WorkerQueue). map (read_id q) p.list) b
            ∙ ids-sanitized queues d.executor p.list read,
      )
