-- ===== src/DeploymentFile/Queues/Answer.antt =====
-- What getQueues returns for the queues of a file.
use mathlib.Core.Path.{subst}
use astro_cli.Prelude.{
  true, refl, sort_slice, All, ◌∙◌, false, ◌≢◌, ok-inj, bind-ok, ap, map, some, [], ok, ◌≡◌, ◌∷◌,
  List, Bool, String,
}
use astro_cli.DeploymentFile.{FormattedDeployment, Workerq}
use astro_cli.DeploymentFile.Kinds.{transform_deployment_type, is_hosted_type}
use astro_cli.DeploymentFile.Queues.{
  get_queues, fill_queues, get_node_pool_id_from_worker_type, point_to, by_queue_name,
}
use astro_cli.WorkerQueue.{WorkerQueue, NodePool}
use astro_cli.WorkerQueue.Queues.{by_name}
use astro_cli.DeploymentFile.Queues.Fill.{
  shape, file_shape, file_name, id_of, queue_name, last_from, fill-shapes, fill-ids, fill-last,
}

abbrev file_hosted : FormattedDeployment → Bool
file_hosted file = is_hosted_type (transform_deployment_type file.configuration.deployment_type)

point_to-shape :
    (hosted : Bool) (pool : String) (qs : List WorkerQueue)
    → map shape (map (point_to hosted pool) qs) ≡ map shape qs
point_to-shape hosted pool [] = refl
point_to-shape true pool (q ∷ qs) = ap (λ t. shape q ∷ t) (point_to-shape true pool qs)
point_to-shape false pool (q ∷ qs) = ap (λ t. shape q ∷ t) (point_to-shape false pool qs)

point_to-id :
    (hosted : Bool) (pool : String) (qs : List WorkerQueue)
    → map id_of (map (point_to hosted pool) qs) ≡ map id_of qs
point_to-id hosted pool [] = refl
point_to-id true pool (q ∷ qs) = ap (λ t. q.id ∷ t) (point_to-id true pool qs)
point_to-id false pool (q ∷ qs) = ap (λ t. q.id ∷ t) (point_to-id false pool qs)

abbrev pub HasPool : String → WorkerQueue → Type 0
HasPool pool q = q.node_pool_id ≡ some pool

point_to-HasPool :
    (pool : String) (qs : List WorkerQueue) → All (HasPool pool) (map (point_to false pool) qs)
point_to-HasPool pool [] = tt
point_to-HasPool pool (q ∷ qs) = (refl, point_to-HasPool pool qs)

module _ (file : FormattedDeployment) (pools : List NodePool) (existing : List WorkerQueue) where
  -- A list of queues that getQueues returned, as the loop left it.
  get_queues-ok :
      {queues : List WorkerQueue}
      → get_queues file pools existing ≡ ok queues
      → (filled : List WorkerQueue) × (pool : String) × (fill_queues
            (file_hosted file)
            file.configuration.executor
            pools
            (sort_slice by_queue_name file.worker_queues)
            (sort_slice by_name existing)
            ""
          ≡ ok (filled, pool))
        × (map (point_to (file_hosted file) pool) filled ≡ queues)
  unfolding get_queues
  get_queues-ok e =
      let ((filled, pool), found, e') =
        bind-ok
          (fill_queues (file_hosted file) file.configuration.executor pools
            (sort_slice by_queue_name file.worker_queues) (sort_slice by_name existing) "")
          _ e in
      (filled, pool, found, ok-inj e')

  -- The queues that getQueues returns are those of the file in the order of their names, each with
  -- the name, counts, concurrency, storage and, on a standard or dedicated deployment, the machine
  -- that the file gives it.
  pub get_queues-shapes :
      {queues : List WorkerQueue}
      → get_queues file pools existing ≡ ok queues
      → map shape queues
        ≡ map (file_shape (file_hosted file)) (sort_slice by_queue_name file.worker_queues)
  get_queues-shapes e =
      let (filled, pool, found, all) = get_queues-ok e in
      subst
        (λ (qs : List WorkerQueue).
          map shape qs
          ≡ map (file_shape (file_hosted file)) (sort_slice by_queue_name file.worker_queues))
        all
        (point_to-shape (file_hosted file) pool filled
          ∙ fill-shapes (file_hosted file) file.configuration.executor pools
              (sort_slice by_queue_name file.worker_queues) (sort_slice by_name existing) "" found)

  -- If the file has the same queue names as the deployment and its executor is not written
  -- KubernetesExecutor, every queue keeps the id it has on the platform.
  pub get_queues-ids :
      {queues : List WorkerQueue}
      → file.configuration.executor ≢ "KubernetesExecutor"
      → map queue_name (sort_slice by_name existing)
        ≡ map file_name (sort_slice by_queue_name file.worker_queues)
      → get_queues file pools existing ≡ ok queues
      → map id_of queues ≡ map id_of (sort_slice by_name existing)
  get_queues-ids other names e =
      let (filled, pool, found, all) = get_queues-ok e in
      subst (λ (qs : List WorkerQueue). map id_of qs ≡ map id_of (sort_slice by_name existing)) all
        (point_to-id (file_hosted file) pool filled
          ∙ fill-ids (file_hosted file) file.configuration.executor pools
              (sort_slice by_queue_name file.worker_queues) (sort_slice by_name existing) "" other
              names found)

  -- On a deployment that is neither standard nor dedicated, the queues that getQueues returns are
  -- those of the file in the order of their names, each with the name, counts, concurrency and
  -- storage that the file gives it, but all with the same node pool: that of the worker type of the
  -- queue whose name sorts last.
  pub get_queues-HasPool :
      (r : Workerq) (rs : List Workerq) {queues : List WorkerQueue}
      → file_hosted file ≡ false
      → sort_slice by_queue_name file.worker_queues ≡ r ∷ rs
      → get_queues file pools existing ≡ ok queues
      → (pool : String) × (map shape queues ≡ map (file_shape false) (r ∷ rs))
        × (get_node_pool_id_from_worker_type (last_from r rs).worker_type pools ≡ ok pool)
        × All (HasPool pool) queues
  get_queues-HasPool r rs {queues = queues} hybrid sorted e =
      let (filled, pool, found, all) = get_queues-ok e in
      (
        pool,
        subst (λ (qs : List Workerq). map shape queues ≡ map (file_shape false) qs) sorted
            (subst
              (λ (b : Bool).
                map shape queues ≡ map (file_shape b) (sort_slice by_queue_name file.worker_queues))
              hybrid (get_queues-shapes e)),
        fill-last (file_hosted file) file.configuration.executor pools r rs
            (sort_slice by_name existing) "" hybrid
            (subst
              (λ (qs : List Workerq).
                fill_queues (file_hosted file) file.configuration.executor pools qs
                  (sort_slice by_name existing) ""
                ≡ ok (filled, pool))
              sorted found),
        subst (λ (qs : List WorkerQueue). All (HasPool pool) qs)
            (subst (λ (b : Bool). map (point_to b pool) filled ≡ queues) hybrid all)
            (point_to-HasPool pool filled),
      )
