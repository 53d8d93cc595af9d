-- ===== src/DeploymentFile/Queues/Hosted.antt =====
-- The requests for the queues of a standard or dedicated deployment.
use mathlib.Core.Path.{ap₂}
use mathlib.Core.Option
use astro_cli.WorkerQueue.CreateOrUpdate.Slots.{
  own_id, queue_name, get_elem?-length, read_id, request_name,
}
use astro_cli.Prelude.{
  append_assoc, length-append, ap, ◌++◌, length, map, [], ok-inj, sym, refl, bind-ok, true, none,
  ◌+◌, false, some, ◌∷◌, err, ok, List, if◌then◌else◌, ◌≡◌, String, Bool, Result, Option,
}
use astro_cli.DeploymentFile.{DeploymentOptions, FileError, no_use_worker_queues}
use astro_cli.DeploymentFile.Kinds.{uses_kubernetes}
use astro_cli.DeploymentFile.Queues.{
  hosted_requests, hosted_queue_request, machine_named, follow, of_queue,
}
use astro_cli.WorkerQueue.{WorkerQueue, WorkerMachine, WorkerQueueRequest, QueueError, Slot}
use astro_cli.WorkerQueue.Validate.{is_hosted_worker_queue_input_valid}

follow-ok {ℓ} : {A : Type ℓ} (o : Option A) {a : A} → follow o ≡ ok a → o ≡ some a
follow-ok none e = absurd (cc)
follow-ok (some b) e = cc

of_queue-ok {ℓ} : {A : Type ℓ} (r : Result QueueError A) {a : A} → of_queue r ≡ ok a → r ≡ ok a
of_queue-ok (err f) e = absurd (cc)
of_queue-ok (ok b) e = cc

-- A test that stops the loop, passed.
stop-ok :
    (test : Bool) (e : FileError) {u : Unit {0}}
    → (if test then err e else ok tt) ≡ ok u
    → test ≡ false
stop-ok true e h = absurd (cc)
stop-ok false e h = refl

module _ (options : DeploymentOptions) (executor : String) where
  abbrev pub used_machine : WorkerMachine → String → WorkerMachine
  used_machine machine name = machine_named machine name options.worker_machines

  abbrev pub used_request : WorkerQueue → Slot → WorkerMachine → String → WorkerQueueRequest
  used_request q i machine name =
      hosted_queue_request q i name (used_machine machine name) options.worker_queues

  -- A turn of the loop that went through.
  pub hosted-ok :
      (q : WorkerQueue) (qs : List WorkerQueue) (i : Slot) (machine : WorkerMachine)
      {requests : List WorkerQueueRequest}
      → hosted_requests options executor (q ∷ qs) i machine ≡ ok requests
      → (name : String) × (rest : List WorkerQueueRequest) × (q.astro_machine ≡ some name)
        × (uses_kubernetes executor ≡ false)
        × (is_hosted_worker_queue_input_valid
              (used_request q i machine name)
              options.worker_queues
              (used_machine machine name)
            ≡ ok tt)
        × (hosted_requests options executor qs (i + 1) (used_machine machine name) ≡ ok rest)
        × (requests ≡ used_request q i machine name ∷ rest)
  unfolding hosted_requests
  hosted-ok q qs i machine e =
      let (name, e1, e2) = bind-ok (follow q.astro_machine) _ e in
      let (_, e3, e4) =
        bind-ok (if uses_kubernetes executor then err no_use_worker_queues else ok (tt {0})) _ e2 in
      let (_, e5, e6) =
        bind-ok
          (of_queue (
            is_hosted_worker_queue_input_valid (used_request q i machine name) options.worker_queues
              (used_machine machine name)))
          _ e4 in
      let (rest, e7, e8) =
        bind-ok (hosted_requests options executor qs (i + 1) (used_machine machine name)) _ e6 in
      (
        name,
        rest,
        follow-ok q.astro_machine e1,
        stop-ok (uses_kubernetes executor) no_use_worker_queues e3,
        of_queue-ok
            (is_hosted_worker_queue_input_valid (used_request q i machine name)
              options.worker_queues (used_machine machine name))
            e5,
        e7,
        sym (ok-inj e8),
      )

  pub hosted-nil :
      (i : Slot) (machine : WorkerMachine) {requests : List WorkerQueueRequest}
      → hosted_requests options executor [] i machine ≡ ok requests
      → [] ≡ requests
  unfolding hosted_requests
  hosted-nil i machine e = ok-inj e

  used_request-name :
      (q : WorkerQueue) (i : Slot) (machine : WorkerMachine) (name : String)
      → (used_request q i machine name).name ≡ q.name
  unfolding hosted_queue_request
  used_request-name q i machine name = refl

  used_request-id :
      (q : WorkerQueue) (i : Slot) (machine : WorkerMachine) (name : String)
      → (used_request q i machine name).id ≡ some i
  unfolding hosted_queue_request
  used_request-id q i machine name = refl

  pub hosted-names :
      (qs : List WorkerQueue) (i : Slot) (machine : WorkerMachine)
      {requests : List WorkerQueueRequest}
      → hosted_requests options executor qs i machine ≡ ok requests
      → map request_name requests ≡ map queue_name qs
  hosted-names [] i machine e = ap (map request_name) (sym (hosted-nil i machine e))
  hosted-names (q ∷ qs) i machine e =
      let (name, rest, _, _, _, behind, all) = hosted-ok q qs i machine e in
      rw (all, used_request-name q i machine name)
        (ap (λ (ns : List String). q.name ∷ ns)
          (hosted-names qs (i + 1) (used_machine machine name) behind))

  -- The pointers read the ids of the queues, which stand behind `pre` in the slice.
  hosted-ids_behind :
      (pre qs : List WorkerQueue) (machine : WorkerMachine) {requests : List WorkerQueueRequest}
      → hosted_requests options executor qs (length pre) machine ≡ ok requests
      → map (read_id (pre ++ qs)) requests ≡ map own_id qs
  hosted-ids_behind pre [] machine e =
      ap (map (read_id (pre ++ []))) (sym (hosted-nil (length pre) machine e))
  hosted-ids_behind pre (q ∷ qs) machine e =
      let (name, rest, _, _, _, behind, all) = hosted-ok q qs (length pre) machine e in
      let after : length (pre ++ q ∷ []) ≡ length pre + 1 = length-append pre (q ∷ []) in
      let same : (pre ++ q ∷ []) ++ qs ≡ pre ++ q ∷ qs = append_assoc pre (q ∷ []) qs in
      let tails =
        hosted-ids_behind (pre ++ q ∷ []) qs (used_machine machine name) {requests = rest}
          (rw after behind) in
      rw (all, used_request-id q (length pre) machine name)
        (ap₂ (λ (x : Option String) (xs : List (Option String)). x ∷ xs)
          (ap (Option.map (λ (p : WorkerQueue). p.id)) (get_elem?-length pre q qs))
          (rw same at tails))

  pub hosted-ids :
      (qs : List WorkerQueue) (machine : WorkerMachine) {requests : List WorkerQueueRequest}
      → hosted_requests options executor qs 0 machine ≡ ok requests
      → map (read_id qs) requests ≡ map own_id qs
  hosted-ids qs machine e = hosted-ids_behind [] qs machine e
