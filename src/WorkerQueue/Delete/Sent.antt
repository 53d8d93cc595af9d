-- ===== src/WorkerQueue/Delete/Sent.antt =====
-- What deployment.Update sends for a delete of a hosted deployment.
use astro_cli.WorkerQueue.{WorkerQueue}
use astro_cli.WorkerQueue.Queues.{SentQueue}
use astro_cli.Prelude.{some, Option, ◌≡◌, String}

-- What deployment.Update can send again: a queue with a machine.
abbrev pub HasMachine : WorkerQueue → Type 0
HasMachine q = (machine : String) × (q.astro_machine ≡ some machine)

abbrev pub name_and_id_sent : SentQueue → String × Option String
name_and_id_sent q = (q.name, q.id)
