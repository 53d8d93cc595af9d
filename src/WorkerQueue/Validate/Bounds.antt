-- ===== src/WorkerQueue/Validate/Bounds.antt =====
-- The validators accept exactly the queues within the platform's bounds.
use astro_cli.Prelude.{refl, true, err, if◌then◌else◌, Bool, arith, ◌↔◌, false, ok, ◌≡◌}
use astro_cli.Prelude.Int.{pos, ◌≤ℤ◌, ℤ}
use astro_cli.WorkerQueue.{
  OptionField, invalid_option, Range, WorkerQueueRequest, HybridWorkerQueueRequest,
  WorkerQueueOptions, WorkerMachine, QueueError,
}
use astro_cli.WorkerQueue.Validate.{
  is_worker_queue_input_valid, is_hosted_worker_queue_input_valid, outside,
}

-- The three counts lie in the three ranges.
abbrev pub Within : ℤ → ℤ → ℤ → WorkerQueueOptions → ℤ → ℤ → Type 0
Within low high concurrency o floor ceiling =
    (o.min_workers.floor ≤ℤ low)
    × (low ≤ℤ o.min_workers.ceiling)
    × (o.max_workers.floor ≤ℤ high)
    × (high ≤ℤ o.max_workers.ceiling)
    × (floor ≤ℤ concurrency)
    × (concurrency ≤ℤ ceiling)

outside-false : (v lo hi : ℤ) → (outside v lo hi ≡ false) ↔ ((lo ≤ℤ v) × (v ≤ℤ hi))
outside-false v lo hi = ground arith

-- A ladder of three tests passes when each does.
ladder_iff :
    (a b c : Bool) (e f g : QueueError)
    → ((if a then err e else if b then err f else if c then err g else ok (tt {0})) ≡ ok (tt {0}))
      ↔ ((a ≡ false) × (b ≡ false) × (c ≡ false))
ladder_iff true b c e f g = (λ h. cc, λ h. cc (h.0))
ladder_iff false true c e f g = (λ h. cc, λ h. cc (h.1))
ladder_iff false false true e f g = (λ h. cc, λ h. cc (h.2))
ladder_iff false false false e f g = (λ _. (refl, refl, refl), λ _. refl)

outside_iff :
    (u v w a b c d e f : ℤ)
    → ((outside u a b ≡ false) × (outside v c d ≡ false) × (outside w e f ≡ false))
      ↔ ((a ≤ℤ u) × (u ≤ℤ b) × (c ≤ℤ v) × (v ≤ℤ d) × (e ≤ℤ w) × (w ≤ℤ f))
outside_iff u v w a b c d e f =
    let p = outside-false u a b in
    let q = outside-false v c d in
    let r = outside-false w e f in
    (
      λ (x, y, z). ((p.0 x).0, (p.0 x).1, (q.0 y).0, (q.0 y).1, (r.0 z).0, (r.0 z).1),
      λ h. (p.1 (h.0, h.1), q.1 (h.2, h.3), r.1 (h.4, h.5)),
    )

iff_trans : {A B C : Type 0} → A ↔ B → B ↔ C → A ↔ C
iff_trans p q = (λ a. q.0 (p.0 a), λ c. p.1 (q.1 c))

valid_iff :
    (u v w : ℤ) (low high n : Range)
    → ((if outside u low.floor low.ceiling
          then err (invalid_option OptionField.min_count low.floor low.ceiling)
          else if outside v high.floor high.ceiling
          then err (invalid_option OptionField.max_count high.floor high.ceiling)
          else if outside w n.floor n.ceiling
          then err (invalid_option OptionField.concurrency n.floor n.ceiling)
          else ok (tt {0}))
        ≡ ok (tt {0}))
      ↔ ((low.floor ≤ℤ u)
          × (u ≤ℤ low.ceiling)
          × (high.floor ≤ℤ v)
          × (v ≤ℤ high.ceiling)
          × (n.floor ≤ℤ w)
          × (w ≤ℤ n.ceiling))
valid_iff u v w low high n =
    iff_trans
      (ladder_iff (outside u low.floor low.ceiling) (outside v high.floor high.ceiling)
        (outside w n.floor n.ceiling) (invalid_option OptionField.min_count low.floor low.ceiling)
        (invalid_option OptionField.max_count high.floor high.ceiling)
        (invalid_option OptionField.concurrency n.floor n.ceiling))
      (outside_iff u v w low.floor low.ceiling high.floor high.ceiling n.floor n.ceiling)

pub hosted_valid_iff :
    (q : WorkerQueueRequest) (o : WorkerQueueOptions) (m : WorkerMachine)
    → (is_hosted_worker_queue_input_valid q o m ≡ ok tt)
      ↔ Within q.min_worker_count q.max_worker_count q.worker_concurrency o
          (pos 1)
          m.concurrency.ceiling
unfolding is_hosted_worker_queue_input_valid
hosted_valid_iff q o m =
    valid_iff q.min_worker_count q.max_worker_count q.worker_concurrency o.min_workers o.max_workers
      (record { ceiling = m.concurrency.ceiling; default = pos 0; floor = pos 1 })

hybrid_valid_iff :
    (q : HybridWorkerQueueRequest) (o : WorkerQueueOptions)
    → (is_worker_queue_input_valid q o ≡ ok tt)
      ↔ Within q.min_worker_count q.max_worker_count q.worker_concurrency o
          o.worker_concurrency.floor o.worker_concurrency.ceiling
unfolding is_worker_queue_input_valid
hybrid_valid_iff q o =
    valid_iff q.min_worker_count q.max_worker_count q.worker_concurrency o.min_workers o.max_workers
      o.worker_concurrency

-- The validator of hosted deployments accepts a queue exactly when its minimum and maximum lie in
-- the platform's ranges and its concurrency between 1 and the machine's ceiling, and the validator
-- of hybrid deployments exactly when its minimum, maximum and concurrency lie in the platform's
-- ranges.
pub queue_valid_iff :
    (q : WorkerQueueRequest) (hybrid : HybridWorkerQueueRequest) (o : WorkerQueueOptions)
    (m : WorkerMachine)
    → ((is_hosted_worker_queue_input_valid q o m ≡ ok tt)
        ↔ Within q.min_worker_count q.max_worker_count q.worker_concurrency o
            (pos 1)
            m.concurrency.ceiling)
      × ((is_worker_queue_input_valid hybrid o ≡ ok tt)
          ↔ Within hybrid.min_worker_count hybrid.max_worker_count hybrid.worker_concurrency o
              o.worker_concurrency.floor o.worker_concurrency.ceiling)
queue_valid_iff q hybrid o m = (hosted_valid_iff q o m, hybrid_valid_iff hybrid o)
