-- ===== src/DeploymentFile/Queues/Fill.antt =====
-- The loop of getQueues: what it puts into each queue, and into the variable behind it.
use mathlib.Core.Path.{subst}
use astro_cli.Prelude.Int.{ℤ}
use astro_cli.Prelude.{
  eq_iff, arith, ◌∙◌, false, ◌≢◌, sym, ok-inj, bind-ok, ap, none, map, some, [], ok, if◌then◌else◌,
  Option, ◌≡◌, ◌∷◌, ◌==◌, List, Bool, String,
}
use astro_cli.DeploymentFile.{Workerq}
use astro_cli.DeploymentFile.Queues.{
  fill_queues, get_node_pool_id_from_worker_type, queue_of, rest_of, text_or_none, existing_id,
}
use astro_cli.WorkerQueue.{WorkerQueue, NodePool}

-- What a queue of the platform and a queue of the file say about the same queue.
pub record Shape : Type 0 where
  pub name : String
  pub is_default : Bool
  pub min_worker_count : ℤ
  pub max_worker_count : ℤ
  pub worker_concurrency : ℤ
  pub pod_ephemeral_storage : Option String
  pub astro_machine : Option String

abbrev pub shape : WorkerQueue → Shape
shape q = record {
  name = q.name;
  is_default = q.is_default;
  min_worker_count = q.min_worker_count;
  max_worker_count = q.max_worker_count;
  worker_concurrency = q.worker_concurrency;
  pod_ephemeral_storage = q.pod_ephemeral_storage;
  astro_machine = q.astro_machine;
}

abbrev pub file_shape : Bool → Workerq → Shape
file_shape hosted r = record {
  name = r.name;
  is_default = r.name == "default";
  min_worker_count = r.min_worker_count;
  max_worker_count = r.max_worker_count;
  worker_concurrency = r.worker_concurrency;
  pod_ephemeral_storage = text_or_none r.pod_ephemeral_storage;
  astro_machine = if hosted then some r.worker_type else none;
}

abbrev pub id_of : WorkerQueue → String
id_of q = q.id

abbrev pub file_name : Workerq → String
file_name r = r.name

abbrev pub queue_name : WorkerQueue → String
queue_name q = q.name

-- The last of a list that begins with the given element.
abbrev pub last_from {ℓ} : {A : Type ℓ} → A → List A → A
last_from a [] = a
last_from a (b ∷ bs) = last_from b bs

pub cons-inj {ℓ} : {A : Type ℓ} {x y : A} {xs ys : List A} → x ∷ xs ≡ y ∷ ys → (x ≡ y) × (xs ≡ ys)
cons-inj e = (cc, cc)

own_id :
    (executor : String) (r : Workerq) (q : WorkerQueue) (qs : List WorkerQueue)
    → executor ≢ "KubernetesExecutor"
    → r.name ≡ q.name
    → existing_id executor r (q ∷ qs) ≡ q.id
own_id executor r q qs other same =
    ground (arith, eq_iff executor "KubernetesExecutor", eq_iff r.name q.name)

module _ (hosted : Bool) (executor : String) (pools : List NodePool) where
  -- A turn of the loop that went through: the pool of the queue, and the rest of the loop.
  fill-ok :
      (r : Workerq) (rs : List Workerq) (existing : List WorkerQueue) (pool : String)
      {queues : List WorkerQueue} {last : String}
      → fill_queues hosted executor pools (r ∷ rs) existing pool ≡ ok (queues, last)
      → (next : String) × (rest : List WorkerQueue) × ((if hosted
            then ok pool
            else get_node_pool_id_from_worker_type r.worker_type pools)
          ≡ ok next)
        × (fill_queues hosted executor pools rs (rest_of existing) next ≡ ok (rest, last))
        × (queues ≡ queue_of hosted executor r existing ∷ rest)
  unfolding fill_queues
  fill-ok r rs existing pool e =
      let (next, found, e') =
        bind-ok (if hosted then ok pool else get_node_pool_id_from_worker_type r.worker_type pools)
          _ e in
      let ((rest, last'), filled, e'') =
        bind-ok (fill_queues hosted executor pools rs (rest_of existing) next) _ e' in
      let same = ok-inj e'' in
      (
        next,
        rest,
        found,
        filled
            ∙ ap (λ (l : String). ok (rest, l)) (ap (λ (p : List WorkerQueue × String). p.1) same),
        sym (ap (λ (p : List WorkerQueue × String). p.0) same),
      )

  pub fill-shapes :
      (rs : List Workerq) (existing : List WorkerQueue) (pool : String) {queues : List WorkerQueue}
      {last : String}
      → fill_queues hosted executor pools rs existing pool ≡ ok (queues, last)
      → map shape queues ≡ map (file_shape hosted) rs
  unfolding fill_queues
  fill-shapes [] existing pool e =
      ap (λ (p : List WorkerQueue × String). map shape p.0) (sym (ok-inj e))
  fill-shapes (r ∷ rs) existing pool e =
      let (next, rest, _, behind, all) = fill-ok r rs existing pool e in
      rw all (
        ap (λ shapes. file_shape hosted r ∷ shapes) (fill-shapes rs (rest_of existing) next behind))

  -- Where the existing queues have the names of the file's, index by index, every id is kept.
  pub fill-ids :
      (rs : List Workerq) (existing : List WorkerQueue) (pool : String) {queues : List WorkerQueue}
      {last : String}
      → executor ≢ "KubernetesExecutor"
      → map queue_name existing ≡ map file_name rs
      → fill_queues hosted executor pools rs existing pool ≡ ok (queues, last)
      → map id_of queues ≡ map id_of existing
  unfolding fill_queues
  fill-ids [] [] pool other names e =
      ap (λ (p : List WorkerQueue × String). map id_of p.0) (sym (ok-inj e))
  fill-ids [] (q ∷ qs) pool other names e = absurd (cc)
  fill-ids (r ∷ rs) [] pool other names e = absurd (cc)
  fill-ids (r ∷ rs) (q ∷ qs) pool other names e =
      let (next, rest, _, behind, all) = fill-ok r rs (q ∷ qs) pool e in
      let (first, others) = cons-inj names in
      rw (all, own_id executor r q qs other (sym first))
        (ap (λ ids. q.id ∷ ids) (fill-ids rs qs next other others behind))

  -- Behind the loop the variable has the pool of the last queue.
  pub fill-last :
      (r : Workerq) (rs : List Workerq) (existing : List WorkerQueue) (pool : String)
      {queues : List WorkerQueue} {last : String}
      → hosted ≡ false
      → fill_queues hosted executor pools (r ∷ rs) existing pool ≡ ok (queues, last)
      → get_node_pool_id_from_worker_type (last_from r rs).worker_type pools ≡ ok last
  unfolding fill_queues
  fill-last r [] existing pool hybrid e =
      let (next, rest, found, behind, _) = fill-ok r [] existing pool e in
      let same = ok-inj behind in
      subst
        (λ (b : Bool).
          (if b then ok pool else get_node_pool_id_from_worker_type r.worker_type pools) ≡ ok next)
        hybrid found
      ∙ ap (λ (p : List WorkerQueue × String). ok p.1) same
  fill-last r (s ∷ rs) existing pool hybrid e =
      let (next, rest, _, behind, _) = fill-ok r (s ∷ rs) existing pool e in
      fill-last s rs (rest_of existing) next hybrid behind
