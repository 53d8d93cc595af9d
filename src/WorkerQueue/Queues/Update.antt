-- ===== src/WorkerQueue/Queues/Update.antt =====
-- An update changes one queue of the list: the first with the name.
use astro_cli.Prelude.Int.{ℤ}
use astro_cli.Prelude.{
  [], eq_iff, inr, ap, inl, arith, Bool-cases, ◌∷◌, if◌then◌else◌, refl, find_by, map, ◌==◌, List,
  ◌≡◌, Bool, Option, String,
}
use mathlib.Core.Option
use astro_cli.WorkerQueue.{WorkerQueueRequest, HybridWorkerQueueRequest, Executor, Slot}
use astro_cli.WorkerQueue.Queues.{merge, update_queue_list}

-- What identifies a queue, and what a user cannot change.
abbrev pub identity : WorkerQueueRequest → String × Option Slot × Bool
identity q = (q.name, q.id, q.is_default)

abbrev pub hybrid_identity : HybridWorkerQueueRequest → String × Option Slot × Bool
hybrid_identity q = (q.name, q.id, q.is_default)

abbrev pub is_named : String → WorkerQueueRequest → Bool
is_named name q = q.name == name

abbrev pub hybrid_is_named : String → HybridWorkerQueueRequest → Bool
hybrid_is_named name q = q.name == name

module _ (new : WorkerQueueRequest) (e : Executor) (w_min w_max w_concurrency : ℤ) where
  identity-merge :
      (q : WorkerQueueRequest) → identity (merge e w_min w_max w_concurrency new q) ≡ identity q
  identity-merge q = go e
    where
      go : (x : Executor) → identity (merge x w_min w_max w_concurrency new q) ≡ identity q
      go Executor.kubernetes = refl
      go Executor.celery = refl
      go Executor.astro = refl

  name-merge : (q : WorkerQueueRequest) → (merge e w_min w_max w_concurrency new q).name ≡ q.name
  name-merge q = ap (λ (t : String × Option Slot × Bool). t.0) (identity-merge q)

  -- An update keeps the names, the ids and the default marks of all queues, in their order.
  pub identity-update :
      (queues : List WorkerQueueRequest)
      → map identity (update_queue_list queues new e w_min w_max w_concurrency)
        ≡ map identity queues
  unfolding update_queue_list
  identity-update [] = refl
  identity-update (q ∷ qs) = elim (Bool-cases (q.name == new.name)) [
    | inl same ↦ rw same (ap (λ t. t ∷ map identity qs) (identity-merge q))
    | inr other ↦ rw other (ap (λ t. identity q ∷ t) (identity-update qs))
  ]

  -- Looked up by name after an update, the queue with the new queue's name is merged with it, and
  -- every other queue is what it was.
  pub find-update :
      (queues : List WorkerQueueRequest) (name : String)
      → find_by (is_named name) (update_queue_list queues new e w_min w_max w_concurrency) ≡ (
          if new.name == name
          then Option.map (merge e w_min w_max w_concurrency new) (find_by (is_named name) queues)
          else find_by (is_named name) queues)
  unfolding update_queue_list
  find-update [] name = ground arith
  find-update (q ∷ qs) name = elim (Bool-cases (q.name == new.name)) [
    | inl same ↦
        rw (same, name-merge q)
          (ground (arith, eq_iff q.name new.name, eq_iff q.name name, eq_iff new.name name))
    | inr other ↦ rw other (
        ground (
          arith,
          find-update qs name,
          eq_iff q.name new.name,
          eq_iff q.name name,
          eq_iff new.name name,
        ))
  ]
