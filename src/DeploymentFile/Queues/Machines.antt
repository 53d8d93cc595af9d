-- ===== src/DeploymentFile/Queues/Machines.antt =====
-- The machines of the requests of a standard or dedicated deployment.
use mathlib.Core.Path.{subst}
use astro_cli.Prelude.Int.{pos}
use astro_cli.Prelude.{
  ap, inr, ◌+◌, suc, ◌∙◌, if◌then◌else◌, refl, inl, sym, [], some-inj, Bool-cases, ◌∷◌, ok,
  equal_fold, arith, All, some, get_elem?, contains_by, true, false, ◌≡◌, ℕ, List, ◌||◌, String,
  Bool,
}
use astro_cli.DeploymentFile.{DeploymentOptions}
use astro_cli.DeploymentFile.Queues.{hosted_requests, machine_named}
use astro_cli.DeploymentFile.Queues.Hosted.{hosted-ok, hosted-nil, used_machine, used_request}
use astro_cli.WorkerQueue.{WorkerQueue, WorkerMachine, WorkerQueueRequest, Slot}
use astro_cli.WorkerQueue.Validate.Bounds.{Within, hosted_valid_iff}

Or-false : (a b : Bool) → (a || b) ≡ false → (a ≡ false) × (b ≡ false)
Or-false a b e = ground arith

Or-left : (a b : Bool) → (a || b) ≡ true → b ≡ false → a ≡ true
Or-left a b e f = ground arith

machine_named-unknown :
    (machine : WorkerMachine) (name : String) (ms : List WorkerMachine)
    → contains_by (λ (m : WorkerMachine). equal_fold m.name name) ms ≡ false
    → machine_named machine name ms ≡ machine
unfolding machine_named
machine_named-unknown machine name [] e = refl
machine_named-unknown machine name (m ∷ ms) e =
    let step =
      Or-false (equal_fold m.name name)
        (contains_by (λ (x : WorkerMachine). equal_fold x.name name) ms) e in
    rw (step.0) (machine_named-unknown machine name ms step.1)

-- Whatever the variable held, a known name gives a machine of the list with that name.
machine_named-known :
    (machine : WorkerMachine) (name : String) (ms : List WorkerMachine)
    → contains_by (λ (m : WorkerMachine). equal_fold m.name name) ms ≡ true
    → (i : ℕ) × (get_elem? ms i ≡ some (machine_named machine name ms))
      × (equal_fold (machine_named machine name ms).name name ≡ true)
unfolding machine_named
machine_named-known machine name [] e = absurd (cc)
machine_named-known machine name (m ∷ ms) e =
    elim (Bool-cases (contains_by (λ (m : WorkerMachine). equal_fold m.name name) ms)) [
      | inl later ↦
          let (i, there, same) =
            machine_named-known (if equal_fold m.name name then m else machine) name ms later in
          (suc i, there, same)
      | inr never ↦
          let found =
            Or-left (equal_fold m.name name)
              (contains_by (λ (x : WorkerMachine). equal_fold x.name name) ms) e never in
          let same : machine_named (if equal_fold m.name name then m else machine) name ms ≡ m =
            rw found (machine_named-unknown m name ms never) in
          (
            0,
            ap some (sym same),
            subst (λ (x : WorkerMachine). equal_fold x.name name ≡ true) (sym same) found,
          )
    ]

module _ (options : DeploymentOptions) (executor : String) where
  -- A request is that of a machine of the platform that the queue names.

  abbrev pub FitsMachine : WorkerQueue → WorkerQueueRequest → Type 0
  FitsMachine q r =
      (i : ℕ) × (m : WorkerMachine) × (name : String) × (get_elem? options.worker_machines i
        ≡ some m)
      × (q.astro_machine ≡ some name)
      × (equal_fold m.name name ≡ true)
      × Within r.min_worker_count r.max_worker_count r.worker_concurrency options.worker_queues
          (pos 1) m.concurrency.ceiling

  abbrev pub AllFit : List WorkerQueue → List WorkerQueueRequest → Type 0
  AllFit [] [] = Unit
  AllFit (q ∷ qs) (r ∷ rs) = FitsMachine q r × AllFit qs rs
  AllFit _ _ = ⊥

  -- The machine that the queue names is one of the platform's.
  abbrev pub KnowsMachine : WorkerQueue → Type 0
  KnowsMachine q =
      (name : String) × (q.astro_machine ≡ some name)
      × (contains_by (λ (m : WorkerMachine). equal_fold m.name name) options.worker_machines ≡ true)

  -- If every queue names a machine of the platform, each request that the loop makes lies within
  -- the platform's ranges and has a concurrency between 1 and the ceiling of a machine with the
  -- name that its own queue gives.
  pub hosted-AllFit :
      (qs : List WorkerQueue) (i : Slot) (machine : WorkerMachine)
      {requests : List WorkerQueueRequest}
      → All KnowsMachine qs
      → hosted_requests options executor qs i machine ≡ ok requests
      → AllFit qs requests
  hosted-AllFit [] i machine known e =
      subst (λ (rs : List WorkerQueueRequest). AllFit [] rs)
        (hosted-nil options executor i machine e) tt
  hosted-AllFit (q ∷ qs) i machine ((asked, asks, there), known) e =
      let (name, rest, names, _, valid, behind, all) =
        hosted-ok options executor q qs i machine e in
      let same : asked ≡ name = some-inj (sym asks ∙ names) in
      let (k, found, matches) = machine_named-known machine name options.worker_machines (
        subst
          (λ (n : String).
            contains_by (λ (m : WorkerMachine). equal_fold m.name n) options.worker_machines ≡ true)
          same there) in
      rw all (
        (
          k,
          machine_named machine name options.worker_machines,
          name,
          found,
          names,
          matches,
          (hosted_valid_iff (used_request options executor q i machine name) options.worker_queues
                (used_machine options executor machine name)).0
              valid,
        ),
        hosted-AllFit qs (i + 1) (used_machine options executor machine name) known behind,
      )
