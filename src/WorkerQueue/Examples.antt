-- ===== src/WorkerQueue/Examples.antt =====
-- A deployment whose queues the platform does not return in the order of their names.
use astro_cli.Prelude.Int.{negsuc, pos}
use astro_cli.Prelude.{none, ok, ◌==◌, [], some, false, ◌∷◌, List, String}
use astro_cli.WorkerQueue.{WorkerQueue, Deployment, Range, celery, standard, create}
use astro_cli.WorkerQueue.Prepare.{Flags, Answers, Platform}

abbrev pub queue : String → String → WorkerQueue
queue name id = record {
  astro_machine = some "A5";
  id = id;
  is_default = name == "default";
  max_worker_count = pos 10;
  min_worker_count = pos 0;
  name = name;
  node_pool_id = some "pool";
  pod_cpu = "";
  pod_ephemeral_storage = none;
  pod_memory = "";
  worker_concurrency = pos 5;
}

abbrev pub unsorted : List WorkerQueue
unsorted = queue "default" "q1" ∷ queue "a" "q2" ∷ []

abbrev pub deployment : List WorkerQueue → Deployment
deployment queues = record {
  id = "d";
  kind = standard;
  executor = celery;
  worker_queues = some queues;
}

abbrev pub range : Range
range = record { ceiling = pos 20; default = pos 4; floor = pos 0 }

abbrev pub platform : Platform
platform = record {
  options = record { max_workers = range; min_workers = range; worker_concurrency = range };
  machines = (record { name = "A5"; concurrency = range }) ∷ [];
  node_pools = ok [];
}

abbrev pub new_queue : Flags
new_queue = record {
  name = "b";
  action = create;
  worker_type = "a5";
  w_min = negsuc 0;
  w_max = pos 0;
  w_concurrency = pos 0;
  force = false;
}

abbrev pub answers : Answers
answers = record { machine = ""; queue_name = ""; queue = ""; confirm = false }
