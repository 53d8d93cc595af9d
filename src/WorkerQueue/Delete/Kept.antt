-- ===== src/WorkerQueue/Delete/Kept.antt =====
-- A delete keeps every other queue with its own id.
use mathlib.Core.Option
use mathlib.Core.Path.{ap₂}
use astro_cli.Prelude.{
  ap, ◌∙◌, inr, sym, inl, sort_slice, refl, ◌⊎◌, Bool-cases, Option-cases, some, arith, ◌++◌, ◌+◌,
  ◌∷◌, ok, true, false, keep, ◌≡◌, not, map, length, [], ◌==◌, Option, Bool, List, String,
  append_assoc, length-append,
}
use astro_cli.WorkerQueue.{
  WorkerQueue, WorkerQueueRequest, HybridWorkerQueueRequest, Deployment, Slot, Executor,
}
use astro_cli.WorkerQueue.Queues.{by_name, sanitize, sanitize_existing_queues}
use astro_cli.WorkerQueue.Prepare.{request_of, is_hosted}
use astro_cli.WorkerQueue.CreateOrUpdate.{update_deployment}
use astro_cli.WorkerQueue.CreateOrUpdate.Slots.{own_id, read_id, get_elem?-length, append_ok-inv}
use astro_cli.WorkerQueue.Delete.{kept_requests, delete}

-- The queues with another name.
abbrev pub is_other : String → WorkerQueue → Bool
is_other name q = not (q.name == name)

abbrev pub name_and_id : WorkerQueue → String × Option String
name_and_id q = (q.name, own_id q)

abbrev pub sent_name_and_id : List WorkerQueue → WorkerQueueRequest → String × Option String
sent_name_and_id array r = (r.name, read_id array r)

-- One round of the loop over a queue that is kept.
kept_requests-cons :
    (name : String) (q : WorkerQueue) (qs : List WorkerQueue) (i : Slot)
    {rs : List WorkerQueueRequest}
    → (q.name == name) ≡ false
    → kept_requests name (q ∷ qs) i ≡ ok rs
    → (machine : String) × (rest : List WorkerQueueRequest) × (kept_requests name qs (i + 1)
        ≡ ok rest)
      × (rs ≡ request_of q machine i ∷ rest)
unfolding kept_requests
kept_requests-cons name q qs i other h = elim (Option-cases q.astro_machine) [
  | inl gone ↦ absurd (ground arith)
  | inr (machine, there) ↦
      let (rest, e, f) =
        append_ok-inv (request_of q machine i) (kept_requests name qs (i + 1)) (ground arith) in
      (machine, rest, e, sym f)
]

kept_requests-skip :
    (name : String) (q : WorkerQueue) (qs : List WorkerQueue) (i : Slot)
    → (q.name == name) ≡ true
    → kept_requests name (q ∷ qs) i ≡ kept_requests name qs (i + 1)
unfolding kept_requests
kept_requests-skip name q qs i same = ground arith

kept_requests-nil :
    (name : String) (i : Slot) {rs : List WorkerQueueRequest}
    → kept_requests name [] i ≡ ok rs
    → rs ≡ []
unfolding kept_requests
kept_requests-nil name i h = cc

kept_requests-keep :
    (name : String) (qs pre : List WorkerQueue) (rs : List WorkerQueueRequest)
    → kept_requests name qs (length pre) ≡ ok rs
    → map (sent_name_and_id (pre ++ qs)) rs ≡ map name_and_id (keep (is_other name) qs)
kept_requests-keep name [] pre rs h = rw (kept_requests-nil name (length pre) h)
kept_requests-keep name (q ∷ qs) pre rs h =
    let after : length (pre ++ q ∷ []) ≡ length pre + 1 = length-append pre (q ∷ []) in
    let same : (pre ++ q ∷ []) ++ qs ≡ pre ++ q ∷ qs = append_assoc pre (q ∷ []) qs in
    let ih : (ts : List WorkerQueueRequest)
        → kept_requests name qs (length pre + 1) ≡ ok ts
        → map (sent_name_and_id (pre ++ q ∷ qs)) ts ≡ map name_and_id (keep (is_other name) qs) =
      (λ ts e. rw same at (kept_requests-keep name qs (pre ++ q ∷ []) ts (rw after e))) in
    elim (Bool-cases (q.name == name)) [
      | inl gone ↦ rw gone (ih rs (sym (kept_requests-skip name q qs (length pre) gone) ∙ h))
      | inr other ↦
          let (machine, rest, e, f) = kept_requests-cons name q qs (length pre) other h in
          rw (f, other)
            (ap₂ (λ (x : Option String) (xs : List (String × Option String)). (q.name, x) ∷ xs)
              (ap (Option.map (λ (p : WorkerQueue). p.id)) (get_elem?-length pre q qs)) (ih rest e))
    ]

keep-sanitize :
    (e : Executor) (name : String) (qs : List WorkerQueue)
    → map name_and_id (keep (is_other name) (map (sanitize e) qs))
      ≡ map name_and_id (keep (is_other name) qs)
keep-sanitize e name [] = refl
keep-sanitize Executor.celery name (q ∷ qs) = ground (arith, keep-sanitize Executor.celery name qs)
keep-sanitize Executor.kubernetes name (q ∷ qs) =
    ground (arith, keep-sanitize Executor.kubernetes name qs)
keep-sanitize Executor.astro name (q ∷ qs) = ground (arith, keep-sanitize Executor.astro name qs)

delete-inv :
    (name : String) (force : Bool) (choice : String) (confirm : Bool) (d : Deployment)
    (queues : List WorkerQueue) {array : List WorkerQueue} {kept : List WorkerQueueRequest}
    {hybrid : List HybridWorkerQueueRequest}
    → is_hosted d.kind ≡ true
    → (name == "") ≡ false
    → d.worker_queues ≡ some queues
    → delete name force choice confirm d ≡ ok (update_deployment array kept hybrid)
    → ((name == "default") ≡ false)
      × ((force ≡ true) ⊎ (confirm ≡ true))
      × (kept_requests name (sanitize_existing_queues queues d.executor) 0 ≡ ok kept)
      × (array ≡ sanitize_existing_queues queues d.executor)
unfolding delete
delete-inv name force choice confirm d queues hosted named has h = ground arith

pub delete_keeps :
    (name : String) (force : Bool) (choice : String) (confirm : Bool) (d : Deployment)
    (queues : List WorkerQueue) {array : List WorkerQueue} {kept : List WorkerQueueRequest}
    {hybrid : List HybridWorkerQueueRequest}
    → is_hosted d.kind ≡ true
    → (name == "") ≡ false
    → d.worker_queues ≡ some queues
    → delete name force choice confirm d ≡ ok (update_deployment array kept hybrid)
    → ((name == "default") ≡ false)
      × ((force ≡ true) ⊎ (confirm ≡ true))
      × (map (sent_name_and_id array) kept
          ≡ map name_and_id (keep (is_other name) (sort_slice by_name queues)))
unfolding sanitize_existing_queues
delete_keeps name force choice confirm d queues hosted named has h =
    let (protected, agreed, e, a) =
      delete-inv name force choice confirm d queues hosted named has h in
    (
      protected,
      agreed,
      rw a (kept_requests-keep name (sanitize_existing_queues queues d.executor) [] _ e)
          ∙ keep-sanitize d.executor name (sort_slice by_name queues),
    )
