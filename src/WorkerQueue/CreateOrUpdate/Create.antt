-- ===== src/WorkerQueue/CreateOrUpdate/Create.antt =====
-- What a create of a hosted deployment sends.
use mathlib.Core.Path.{subst}
use astro_cli.Prelude.Int.{pos}
use astro_cli.WorkerQueue.Select.{get_queue_name}
use mathlib.Core.List.{map-append}
use mathlib.Core.Path.{ap₂}
use astro_cli.Prelude.{
  ◌||◌, ◌==◌, sort_slice, contains_by, Bool, ◌∙◌, sym, some-inj, none, refl, false, ◌++◌, [], some,
  arith, ap, ◌∷◌, true, ok, ◌≡◌, map, List, Option, String, contains_by-sort_slice,
}
use astro_cli.WorkerQueue.{
  WorkerQueue, WorkerMachine, WorkerQueueRequest, HybridWorkerQueueRequest, Executor, Deployment,
  create,
}
use astro_cli.WorkerQueue.Queues.{
  id_of, sanitize, queue_exists, is_requested, sanitize_existing_queues, SentQueue,
  convert_create_queues_to_update, by_name,
}
use astro_cli.WorkerQueue.Validate.Bounds.{Within, hosted_valid_iff}
use astro_cli.WorkerQueue.Prepare.{
  queues_or_none, hosted_request, Flags, Answers, Platform, is_hosted, name_or_prompt,
  zero_hybrid_request, existing_requests,
}
use astro_cli.WorkerQueue.CreateOrUpdate.{update_deployment, create_or_update}
use astro_cli.WorkerQueue.CreateOrUpdate.Slots.{
  request_name, queue_name, own_id, read_id, names-existing_requests, ids-sanitized,
}
use astro_cli.WorkerQueue.CreateOrUpdate.Inversion.{
  prepare_hosted-IsMachine, IsMachine, stages, apply_action-create, prepare_hosted-IsPrepared,
}

abbrev pub sent_name : SentQueue → String
sent_name q = q.name

abbrev pub sent_id : SentQueue → Option String
sent_id q = q.id

pub names-convert :
    (array : List WorkerQueue) (list : List WorkerQueueRequest)
    → map sent_name (convert_create_queues_to_update array list) ≡ map request_name list
unfolding convert_create_queues_to_update
names-convert array [] = refl
names-convert array (r ∷ rs) = ap (λ t. r.name ∷ t) (names-convert array rs)

pub ids-convert :
    (array : List WorkerQueue) (list : List WorkerQueueRequest)
    → map sent_id (convert_create_queues_to_update array list) ≡ map (read_id array) list
unfolding convert_create_queues_to_update
ids-convert array [] = refl
ids-convert array (r ∷ rs) = ap (λ t. read_id array r ∷ t) (ids-convert array rs)

-- A create that asks for no name in a prompt for an existing queue leaves the array alone.
array-name_or_prompt :
    (flags : Flags) (answers : Answers) (queues : Option (List WorkerQueue)) {name : String}
    {array : Option (List WorkerQueue)}
    → flags.action ≡ create
    → name_or_prompt flags answers queues ≡ ok (name, array)
    → array ≡ queues
unfolding name_or_prompt get_queue_name
array-name_or_prompt flags answers queues c h = ground arith

abbrev pub has_name : String → WorkerQueue → Bool
has_name name q = q.name == name

contains_by-name :
    (array queues : List WorkerQueue) (new : WorkerQueueRequest)
    → contains_by (is_requested array new zero_hybrid_request) queues ≡ false
    → contains_by (has_name new.name) queues ≡ false
contains_by-name array [] new h = refl
contains_by-name array (q ∷ qs) new h = ground (arith, contains_by-name array qs new)

contains_by-sanitize :
    (e : Executor) (name : String) (queues : List WorkerQueue)
    → contains_by (has_name name) (map (sanitize e) queues) ≡ contains_by (has_name name) queues
contains_by-sanitize e name [] = refl
contains_by-sanitize Executor.celery name (q ∷ qs) =
    ap (λ b. has_name name q || b) (contains_by-sanitize Executor.celery name qs)
contains_by-sanitize Executor.kubernetes name (q ∷ qs) =
    ap (λ b. has_name name q || b) (contains_by-sanitize Executor.kubernetes name qs)
contains_by-sanitize Executor.astro name (q ∷ qs) =
    ap (λ b. has_name name q || b) (contains_by-sanitize Executor.astro name qs)

-- A queue that is not found after sanitizing has a new name.
pub queue_exists-fresh :
    (queues : List WorkerQueue) (e : Executor) (new : WorkerQueueRequest)
    → queue_exists (sanitize_existing_queues queues e) new zero_hybrid_request ≡ false
    → contains_by (has_name new.name) queues ≡ false
unfolding queue_exists sanitize_existing_queues
queue_exists-fresh queues e new h =
    let sorted = sort_slice by_name queues in
    sym (
      contains_by-sanitize e new.name sorted
      ∙ contains_by-sort_slice by_name (has_name new.name) queues)
    ∙ contains_by-name (map (sanitize e) sorted) (map (sanitize e) sorted) new h

module _ (flags : Flags) (answers : Answers) (d : Deployment) (platform : Platform)
    (queues : List WorkerQueue) {array : List WorkerQueue} {list : List WorkerQueueRequest}
    {hybrid : List HybridWorkerQueueRequest} (hosted : is_hosted d.kind ≡ true)
    (creates : flags.action ≡ create) (has : d.worker_queues ≡ some queues)
    (sent : create_or_update flags answers d platform
      ≡ ok (update_deployment array list hybrid)) where
  -- The parts of the request, in the stages' own terms.
  created :
      (new : WorkerQueueRequest) × (existing : List WorkerQueueRequest) × (machine : WorkerMachine)
      × (existing_requests queues 0 ≡ ok existing)
      × (array ≡ sanitize_existing_queues queues d.executor)
      × (list ≡ existing ++ new ∷ [])
      × (queue_exists array new zero_hybrid_request ≡ false)
      × (new.id ≡ none)
      × IsMachine flags platform machine
      × (new.astro_machine ≡ machine.name)
      × Within new.min_worker_count new.max_worker_count new.worker_concurrency platform.options
          (pos 1)
          machine.concurrency.ceiling
  unfolding hosted_request
  created =
      let s = stages flags answers d platform hosted sent in
      let p = s.prepared in
      let made = prepare_hosted-IsPrepared flags answers d platform p s.is_prepared in
      let (fresh, a, l) =
        apply_action-create flags answers d.executor p
          (sanitize_existing_queues s.queues d.executor) creates s.applied in
      let same = array-name_or_prompt flags answers d.worker_queues creates made.named in
      let these : s.queues ≡ queues = some-inj (sym s.has_queues ∙ same ∙ has) in
      (
        p.queue,
        p.list,
        p.machine,
        subst
            (λ (o : Option (List WorkerQueue)). existing_requests (queues_or_none o) 0 ≡ ok p.list)
            has made.list,
        a ∙ ap (λ (q : List WorkerQueue). sanitize_existing_queues q d.executor) these,
        l,
        rw (a, ← made.hybrid_queue) fresh,
        ap (λ (q : WorkerQueueRequest). q.id) made.queue,
        prepare_hosted-IsMachine flags answers d platform p s.is_prepared,
        ap (λ (q : WorkerQueueRequest). q.astro_machine) made.queue,
        (hosted_valid_iff p.queue platform.options p.machine).0 s.is_valid,
      )

  -- A create that reaches the platform for a hosted deployment sends the existing queues under
  -- their names, in their order, and one queue more, whose name none of them has. The ids that it
  -- sends beside those names are the existing ids in the order of the sorted names.
  pub create_sends :
      (name : String) × (map sent_name (convert_create_queues_to_update array list)
        ≡ map queue_name queues ++ name ∷ [])
      × (map sent_id (convert_create_queues_to_update array list)
          ≡ map own_id (sort_slice by_name queues) ++ none ∷ [])
      × (contains_by (has_name name) queues ≡ false)
  create_sends =
      let (new, existing, machine, read, a, l, fresh, no_id, known, on_it, within) = created in
      (
        new.name,
        names-convert array list
            ∙ ap (map request_name) l
            ∙ map-append request_name existing (new ∷ [])
            ∙ ap (λ t. t ++ new.name ∷ []) (names-existing_requests queues 0 existing read),
        ids-convert array list
            ∙ ap (map (read_id array)) l
            ∙ map-append (read_id array) existing (new ∷ [])
            ∙ ap₂ (λ t o. t ++ o ∷ [])
                (ap (λ (q : List WorkerQueue). map (read_id q) existing) a
                  ∙ ids-sanitized queues d.executor existing read)
                (ap (id_of array) no_id),
        queue_exists-fresh queues d.executor new (rw a at fresh),
      )

  -- A create of a hosted deployment adds a queue without an id behind the existing ones. Its
  -- machine is one of the platform's, and has the name that was asked for, if one was; its counts
  -- lie within the platform's bounds, and its concurrency between 1 and that machine's ceiling.
  pub create-Within :
      (new : WorkerQueueRequest) × (existing : List WorkerQueueRequest) × (machine : WorkerMachine)
      × (existing_requests queues 0 ≡ ok existing)
      × (list ≡ existing ++ new ∷ [])
      × (new.id ≡ none)
      × IsMachine flags platform machine
      × (new.astro_machine ≡ machine.name)
      × Within new.min_worker_count new.max_worker_count new.worker_concurrency platform.options
          (pos 1)
          machine.concurrency.ceiling
  create-Within =
      let (new, existing, machine, read, a, l, fresh, no_id, known, on_it, within) = created in
      (new, existing, machine, read, l, no_id, known, on_it, within)
