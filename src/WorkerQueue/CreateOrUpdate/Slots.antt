-- ===== src/WorkerQueue/CreateOrUpdate/Slots.antt =====
-- The pointers of the requests for existing queues, and what they read in another array.
use mathlib.Core.Option
use mathlib.Core.Path.{ap₂}
use astro_cli.Prelude.{◌∙◌, length-map, length-sort_slice, length-append}
use astro_cli.Prelude.{
  sym, inr, inl, refl, arith, Option-cases, [], err, sort_slice, ◌+◌, ap, ◌++◌, ok, map, length,
  ◌∷◌, get_elem?, ◌≡◌, some, Result, List, Option, String, append_assoc,
}
use astro_cli.WorkerQueue.{WorkerQueue, WorkerQueueRequest, Slot, QueueError, Executor}
use astro_cli.WorkerQueue.Queues.{id_of, sanitize, sanitize_existing_queues, by_name}
use astro_cli.WorkerQueue.Prepare.{existing_requests, request_of, append_ok}

abbrev pub request_name : WorkerQueueRequest → String
request_name q = q.name

abbrev pub queue_name : WorkerQueue → String
queue_name q = q.name

abbrev pub own_id : WorkerQueue → Option String
own_id q = some q.id

abbrev pub read_id : List WorkerQueue → WorkerQueueRequest → Option String
read_id array r = id_of array r.id

pub append_ok-inv :
    {A : Type 0} (a : A) (m : Result QueueError (List A)) {rs : List A}
    → append_ok a m ≡ ok rs
    → (rest : List A) × (m ≡ ok rest) × (a ∷ rest ≡ rs)
append_ok-inv a (ok rest) h = (rest, refl, cc)
append_ok-inv a (err e) h = absurd (cc)

pub get_elem?-length {ℓ} :
    {A : Type ℓ} (pre : List A) (a : A) (post : List A)
    → get_elem? (pre ++ a ∷ post) (length pre) ≡ some a
get_elem?-length [] a post = refl
get_elem?-length (x ∷ pre) a post = get_elem?-length pre a post

existing_requests-nil :
    (i : Slot) {rs : List WorkerQueueRequest} → existing_requests [] i ≡ ok rs → rs ≡ []
unfolding existing_requests
existing_requests-nil i h = cc

-- One round of the loop.
existing_requests-cons :
    (q : WorkerQueue) (qs : List WorkerQueue) (i : Slot) {rs : List WorkerQueueRequest}
    → existing_requests (q ∷ qs) i ≡ ok rs
    → (machine : String) × (rest : List WorkerQueueRequest) × (existing_requests qs (i + 1)
        ≡ ok rest)
      × (rs ≡ request_of q machine i ∷ rest)
unfolding existing_requests
existing_requests-cons q qs i h = elim (Option-cases q.astro_machine) [
  | inl gone ↦ absurd (ground arith)
  | inr (machine, there) ↦
      let (rest, e, f) =
        append_ok-inv (request_of q machine i) (existing_requests qs (i + 1)) (ground arith) in
      (machine, rest, e, sym f)
]

pub names-existing_requests :
    (qs : List WorkerQueue) (i : Slot) (rs : List WorkerQueueRequest)
    → existing_requests qs i ≡ ok rs
    → map request_name rs ≡ map queue_name qs
names-existing_requests [] i rs h = rw (existing_requests-nil i h)
names-existing_requests (q ∷ qs) i rs h =
    let (machine, rest, e, f) = existing_requests-cons q qs i h in
    rw f (ap (λ t. q.name ∷ t) (names-existing_requests qs (i + 1) rest e))

-- Whatever array of that length the pointers are read in, they read its ids in its order.
pub ids-existing_requests :
    (qs : List WorkerQueue) (pre array : List WorkerQueue) (rs : List WorkerQueueRequest)
    → length array ≡ length qs
    → existing_requests qs (length pre) ≡ ok rs
    → map (read_id (pre ++ array)) rs ≡ map own_id array
ids-existing_requests [] pre [] rs l h = rw (existing_requests-nil (length pre) h)
ids-existing_requests [] pre (a ∷ array) rs l h = absurd (omega arith)
ids-existing_requests (q ∷ qs) pre [] rs l h = absurd (omega arith)
ids-existing_requests (q ∷ qs) pre (a ∷ array) rs l h =
    let (machine, rest, e, f) = existing_requests-cons q qs (length pre) h in
    let after : length (pre ++ a ∷ []) ≡ length pre + 1 = length-append pre (a ∷ []) in
    let same : (pre ++ a ∷ []) ++ array ≡ pre ++ a ∷ array = append_assoc pre (a ∷ []) array in
    let tails = ids-existing_requests qs (pre ++ a ∷ []) array rest (omega arith) (rw after e) in
    rw f (
      ap₂ (λ x xs. x ∷ xs)
        (ap (Option.map (λ (p : WorkerQueue). p.id)) (get_elem?-length pre a array))
        (rw same at tails))

ids-sanitize :
    (e : Executor) (qs : List WorkerQueue) → map own_id (map (sanitize e) qs) ≡ map own_id qs
ids-sanitize e [] = refl
ids-sanitize Executor.celery (q ∷ qs) = ap (λ t. own_id q ∷ t) (ids-sanitize Executor.celery qs)
ids-sanitize Executor.kubernetes (q ∷ qs) =
    ap (λ t. own_id q ∷ t) (ids-sanitize Executor.kubernetes qs)
ids-sanitize Executor.astro (q ∷ qs) = ap (λ t. own_id q ∷ t) (ids-sanitize Executor.astro qs)

-- Read after sanitizeExistingQueues has sorted the array, the pointers give the ids in the order
-- of the names, whatever the order in which the requests were made.
pub ids-sanitized :
    (qs : List WorkerQueue) (e : Executor) (rs : List WorkerQueueRequest)
    → existing_requests qs 0 ≡ ok rs
    → map (read_id (sanitize_existing_queues qs e)) rs ≡ map own_id (sort_slice by_name qs)
unfolding sanitize_existing_queues
ids-sanitized qs e rs h =
    let sorted = sort_slice by_name qs in
    let size = length-map sorted (sanitize e) ∙ length-sort_slice by_name qs in
    ids-existing_requests qs [] (map (sanitize e) sorted) rs size h ∙ ids-sanitize e sorted
