-- ===== src/WorkerQueue/CreateOrUpdate/Inversion.antt =====
-- What each stage of CreateOrUpdate did when the whole call reached deployment.Update.
use astro_cli.WorkerQueue.Select.Known.{select_worker_machine-known}
use astro_cli.WorkerQueue.Select.{select_worker_machine}
use mathlib.Core.Path.{subst}
use astro_cli.Prelude.{
  ◌≢◌, ap, equal_fold, get_elem?, ℕ, String, Result, inr, [], inl, ◌∷◌, ◌==◌, ◌++◌, none,
  Bool-cases, some, ◌⊎◌, false, arith, ok, true, Option, List, ◌≡◌, bind-ok,
}
use astro_cli.WorkerQueue.{
  kubernetes, WorkerMachine, WorkerQueue, WorkerQueueRequest, HybridWorkerQueueRequest, QueueError,
  Executor, Deployment, DeploymentKind, create, update, WorkerQueueOptions,
}
use astro_cli.WorkerQueue.Validate.{is_hosted_worker_queue_input_valid}
use astro_cli.WorkerQueue.Queues.{queue_exists, sanitize_existing_queues, update_queue_list}
use astro_cli.WorkerQueue.Prepare.{
  hosted_concurrency, hosted_type, hosted_request, Flags, Answers, Platform, Prepared, is_hosted,
  prepare_hosted, follow, existing_requests, name_or_prompt, queues_or_none, zero_hybrid_request,
}
use astro_cli.WorkerQueue.CreateOrUpdate.{
  Outcome, update_deployment, check_input, apply_action, create_or_update,
}

pub ok-inj {ℓ} : {A : Type ℓ} {a b : A} → ◌≡◌ {A = Result QueueError A} (ok a) (ok b) → a ≡ b
ok-inj h = cc

-- A prepared queue of a hosted deployment that passes has been validated, and nothing else changed.
pub check_input-hosted :
    (kind : DeploymentKind) (e : Executor) (platform : Platform) (p p' : Prepared)
    → is_hosted kind ≡ true
    → check_input kind e platform p ≡ ok p'
    → (p ≡ p') × (is_hosted_worker_queue_input_valid p.queue platform.options p.machine ≡ ok tt)
unfolding check_input
check_input-hosted kind Executor.kubernetes platform p p' k h = absurd (ground arith)
check_input-hosted kind Executor.celery platform p p' k h =
    let (_, valid, rest) = bind-ok _ _ (rw k at h) in (ok-inj rest, valid)
check_input-hosted kind Executor.astro platform p p' k h =
    let (_, valid, rest) = bind-ok _ _ (rw k at h) in (ok-inj rest, valid)

check_input-executor :
    (kind : DeploymentKind) (e : Executor) (platform : Platform) (p : Prepared) {p' : Prepared}
    → is_hosted kind ≡ true
    → check_input kind e platform p ≡ ok p'
    → e ≢ kubernetes
unfolding check_input
check_input-executor kind Executor.kubernetes platform p k h = absurd (ground arith)
check_input-executor kind Executor.celery platform p k h = λ same. cc
check_input-executor kind Executor.astro platform p k h = λ same. cc

pub apply_action-create :
    (flags : Flags) (answers : Answers) (e : Executor) (p : Prepared) (queues : List WorkerQueue)
    {array : List WorkerQueue} {list : List WorkerQueueRequest}
    {hybrid : List HybridWorkerQueueRequest}
    → flags.action ≡ create
    → apply_action flags answers e p queues ≡ ok (update_deployment array list hybrid)
    → (queue_exists queues p.queue p.hybrid_queue ≡ false)
      × (array ≡ queues)
      × (list ≡ p.list ++ p.queue ∷ [])
unfolding apply_action
apply_action-create flags answers e p queues c h = ground arith

pub apply_action-update :
    (flags : Flags) (answers : Answers) (e : Executor) (p : Prepared) (queues : List WorkerQueue)
    {array : List WorkerQueue} {list : List WorkerQueueRequest}
    {hybrid : List HybridWorkerQueueRequest}
    → flags.action ≡ update
    → apply_action flags answers e p queues ≡ ok (update_deployment array list hybrid)
    → (queue_exists queues p.queue p.hybrid_queue ≡ true)
      × ((flags.force ≡ true) ⊎ (answers.confirm ≡ true))
      × (array ≡ queues)
      × (list ≡ update_queue_list p.list p.queue e flags.w_min flags.w_max p.w_concurrency)
unfolding apply_action
apply_action-update flags answers e p queues c h = ground arith

-- The stages of a call for a hosted deployment.
pub record Stages (flags : Flags) (answers : Answers) (d : Deployment) (platform : Platform)
    (outcome : Outcome) : Type 0 where
  pub prepared : Prepared
  pub queues : List WorkerQueue
  pub is_prepared : prepare_hosted flags answers d platform ≡ ok prepared
  pub is_valid :
      is_hosted_worker_queue_input_valid prepared.queue platform.options prepared.machine ≡ ok tt
  pub not_kubernetes : d.executor ≢ kubernetes
  pub has_queues : prepared.array ≡ some queues
  pub applied :
      apply_action flags answers d.executor prepared (sanitize_existing_queues queues d.executor)
      ≡ ok outcome

pub follow-inv {ℓ} : {A : Type ℓ} (o : Option A) {a : A} → follow o ≡ ok a → o ≡ some a
follow-inv none h = absurd (cc)
follow-inv (some a) h = cc

pub stages :
    (flags : Flags) (answers : Answers) (d : Deployment) (platform : Platform)
    {array : List WorkerQueue} {list : List WorkerQueueRequest}
    {hybrid : List HybridWorkerQueueRequest}
    → is_hosted d.kind ≡ true
    → create_or_update flags answers d platform ≡ ok (update_deployment array list hybrid)
    → Stages flags answers d platform (update_deployment array list hybrid)
unfolding create_or_update
stages flags answers d platform k h = elim (Bool-cases (d.id == "")) [
  | inl e ↦ absurd (ground arith)
  | inr e ↦
      let (p, hp, h1) = bind-ok (prepare_hosted flags answers d platform) _ (rw (e, k) at h) in
      let (c, hc, h2) = bind-ok (check_input d.kind d.executor platform p) _ h1 in
      let (queues, hq, h3) = bind-ok (follow c.array) _ h2 in
      let (same, valid) = check_input-hosted d.kind d.executor platform p c k hc in
      record {
        prepared = c;
        queues = queues;
        is_prepared = rw same at hp;
        is_valid =
            subst
              (λ (q : Prepared).
                is_hosted_worker_queue_input_valid q.queue platform.options q.machine ≡ ok tt)
              same valid;
        not_kubernetes = check_input-executor d.kind d.executor platform p k hc;
        has_queues = follow-inv c.array hq;
        applied = h3;
      }
]

-- What a prepared hosted queue is made of.
pub record IsPrepared (flags : Flags) (answers : Answers) (d : Deployment)
    (options : WorkerQueueOptions) (p : Prepared) : Type 0 where
  pub list : existing_requests (queues_or_none d.worker_queues) 0 ≡ ok p.list
  pub named : name_or_prompt flags answers d.worker_queues ≡ ok (p.name, p.array)
  pub queue : p.queue ≡ hosted_request flags options p.name p.machine
  pub hybrid_queue : p.hybrid_queue ≡ zero_hybrid_request
  pub w_concurrency : p.w_concurrency ≡ hosted_concurrency flags p.machine

pub prepare_hosted-IsPrepared :
    (flags : Flags) (answers : Answers) (d : Deployment) (platform : Platform) (p : Prepared)
    → prepare_hosted flags answers d platform ≡ ok p
    → IsPrepared flags answers d platform.options p
unfolding prepare_hosted
prepare_hosted-IsPrepared flags answers d platform p h = ground arith

-- A prepared machine is one of the platform's, with the name asked for if one was asked for.
abbrev pub IsMachine : Flags → Platform → WorkerMachine → Type 0
IsMachine flags platform machine =
    (k : ℕ) × (get_elem? platform.machines k ≡ some machine)
    × ((flags.worker_type == "") ≡ false → equal_fold machine.name flags.worker_type ≡ true)

type_asked :
    (flags : Flags) (name : String) (list : List WorkerQueueRequest)
    → (flags.worker_type == "") ≡ false
    → hosted_type flags name list ≡ flags.worker_type
type_asked flags name list asked = rw asked (ground arith)

pub prepare_hosted-IsMachine :
    (flags : Flags) (answers : Answers) (d : Deployment) (platform : Platform) (p : Prepared)
    → prepare_hosted flags answers d platform ≡ ok p
    → IsMachine flags platform p.machine
unfolding prepare_hosted
prepare_hosted-IsMachine flags answers d platform p h =
    let (list, _, h1) = bind-ok (existing_requests (queues_or_none d.worker_queues) 0) _ h in
    let ((name, array), _, h2) = bind-ok (name_or_prompt flags answers d.worker_queues) _ h1 in
    let (machine, selected, h3) =
      bind-ok
        (select_worker_machine (hosted_type flags name list) platform.machines answers.machine) _
        h2 in
    let (k, there, same) =
      select_worker_machine-known (hosted_type flags name list) platform.machines answers.machine
        selected in
    let this : machine ≡ p.machine = ap (λ (q : Prepared). q.machine) (ok-inj h3) in
    subst (IsMachine flags platform) this (
      k,
      there,
      λ asked.
          subst (λ t. equal_fold machine.name t ≡ true) (type_asked flags name list asked)
            (same (rw (type_asked flags name list asked) asked)),
    )
