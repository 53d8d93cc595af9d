-- ===== src/WorkerQueue/Select.antt =====
-- The prompts: a numbered list, of which the user types a number.
pub mod Known
use astro_cli.Prelude.{
  [], eq_codes, ◌+◌, ◌∷◌, ℕ, ◌>>=◌, equal_fold, find_by, none, sort_slice, codes, some, ◌==◌, ok,
  if◌then◌else◌, err, ltb, List, Result, Bool, String, Option, itoa,
}
use astro_cli.WorkerQueue.{
  WorkerQueue, WorkerMachine, NodePool, Action, create, update, QueueError, invalid_node_pool,
  invalid_astro_machine, invalid_queue, no_worker_queues,
}
use astro_cli.WorkerQueue.Queues.{by_name}

-- A lookup in the map from `strconv.Itoa(i + 1)` to the i-th item.
unfoldable pub choose {ℓ} : {A : Type ℓ} → List A → ℕ → List ℕ → Option A
unfolding itoa
choose [] i choice = none
choose (x ∷ xs) i choice =
    let rest = choose xs (i + 1) choice in if eq_codes choice (itoa (i + 1)) then some x else rest

abbrev pub or_error {ℓ} : {A : Type ℓ} → Option A → QueueError → Result QueueError A
or_error none e = err e
or_error (some a) e = ok a

unfoldable pub select_worker_machine :
    String → List WorkerMachine → String → Result QueueError WorkerMachine
unfolding choose
select_worker_machine worker_type machines choice =
    if worker_type == ""
    then or_error (choose machines 0 (codes choice)) (invalid_astro_machine choice)
    else or_error (find_by (λ (m : WorkerMachine). equal_fold m.name worker_type) machines)
        (invalid_astro_machine worker_type)

abbrev pub by_creation : NodePool → NodePool → Bool
by_creation p q = ltb p.created_at q.created_at

unfoldable pub select_node_pool : String → List NodePool → String → Result QueueError String
unfolding choose
select_node_pool worker_type pools choice = do
  pool ←
      (if worker_type == ""
        then or_error (choose (sort_slice by_creation pools) 0 (codes choice))
            (invalid_node_pool choice)
        else or_error (find_by (λ (p : NodePool). p.node_instance_type == worker_type) pools)
            (invalid_node_pool worker_type))
  ok pool.id

-- selectQueue sorts the deployment's queues in place: the array after it comes back too.
unfoldable pub select_queue :
    Option (List WorkerQueue) → String → Result QueueError (String × Option (List WorkerQueue))
unfolding choose
select_queue none choice = err no_worker_queues
select_queue (some queues) choice = do
  let sorted = sort_slice by_name queues
  queue ← or_error (choose sorted 0 (codes choice)) (invalid_queue choice)
  ok (queue.name, some sorted)

-- getQueueName, called where no name was given: `typed` answers the prompt for a new name.
unfoldable pub get_queue_name :
    Action
    → Option (List WorkerQueue)
    → String
    → String
    → Result QueueError (String × Option (List WorkerQueue))
unfolding select_queue
get_queue_name create queues typed choice = ok (typed, queues)
get_queue_name update queues typed choice = select_queue queues choice
