-- ===== src/DeploymentFile/Check/Complete.antt =====
-- What a complete file is, beside what checkRequiredFields tests.
use astro_cli.Versions.{Semver}
use astro_cli.Prelude.{
  suc, err, ◌>>◌, length, ltb, Result, if◌then◌else◌, some, Option, refl, ◌+◌, [], eq_iff,
  contains_by, arith, ◌∷◌, ◌||◌, All, ◌↔◌, true, ok, false, ◌⊎◌, List, ◌≡◌, ◌==◌, none, String, ℕ,
  ◌&&◌, Bool, ◌≢◌,
}
use astro_cli.DeploymentFile.{FileError, FormattedDeployment, EnvironmentVariable, Workerq}
use astro_cli.DeploymentFile.Check.{
  is_valid_executor, check_required_fields, check_env_vars, check_queues, check_alert_emails,
  needs_value, is_none,
}
use astro_cli.WorkerQueue.{Action, create, update}

-- A variable may lack its value in an update of a secret only.
abbrev pub HasValue : Action → EnvironmentVariable → Type 0
HasValue create v = v.value ≢ none
HasValue update v = (v.value ≢ none) ⊎ (v.is_secret ≡ true)

abbrev pub IsCompleteVariable : Action → EnvironmentVariable → Type 0
IsCompleteVariable action v = (v.key ≢ "") × HasValue action v

abbrev pub IsCompleteQueue : Workerq → Type 0
IsCompleteQueue q = (q.name ≢ "") × (q.worker_type ≢ "")

abbrev pub is_default_name : Workerq → Bool
is_default_name q = q.name == "default"

is_none_iff {ℓ} : {A : Type ℓ} (o : Option A) → (is_none o ≡ false) ↔ (o ≢ none)
is_none_iff none = (λ e h. cc, λ h. absurd (h refl))
is_none_iff (some a) = (λ e h. cc, λ h. refl)

HasValue-iff :
    (action : Action) (v : EnvironmentVariable)
    → ((needs_value action v && is_none v.value) ≡ false) ↔ HasValue action v
HasValue-iff create v = is_none_iff v.value
HasValue-iff update v = ground (arith, is_none_iff v.value)

check_env_vars_iff :
    (action : Action) (i : ℕ) (vs : List EnvironmentVariable)
    → (check_env_vars action i vs ≡ ok tt) ↔ All (IsCompleteVariable action) vs
unfolding check_env_vars
check_env_vars_iff action i [] = (λ e. tt, λ h. refl)
check_env_vars_iff action i (v ∷ vs) =
    ground (arith, eq_iff v.key "", HasValue-iff action v, check_env_vars_iff action (i + 1) vs)

check_queues_iff :
    (i : ℕ) (has_default : Bool) (qs : List Workerq)
    → (check_queues i has_default qs ≡ ok tt)
      ↔ (All IsCompleteQueue qs × ((has_default || contains_by is_default_name qs) ≡ true))
unfolding check_queues
check_queues_iff i has_default [] = ground arith
check_queues_iff i has_default (q ∷ qs) = ground (
  arith,
  eq_iff q.name "",
  eq_iff q.worker_type "",
  check_queues_iff (i + 1) (has_default || q.name == "default") qs,
)

check_alert_emails_iff :
    (is_valid_email : String → Bool) (es : List String)
    → (check_alert_emails is_valid_email es ≡ ok tt) ↔ All (λ e. is_valid_email e ≡ true) es
unfolding check_alert_emails
check_alert_emails_iff is_valid_email [] = (λ e. tt, λ h. refl)
check_alert_emails_iff is_valid_email (e ∷ es) =
    ground (arith, check_alert_emails_iff is_valid_email es)

-- No queues at all, or complete ones with the default queue among them.
abbrev pub AreCompleteQueues : List Workerq → Type 0
AreCompleteQueues [] = Unit
AreCompleteQueues (q ∷ qs) =
    All IsCompleteQueue (q ∷ qs) × (contains_by is_default_name (q ∷ qs) ≡ true)

longer_than_zero : (n : ℕ) → ltb 0 (suc n) ≡ true
longer_than_zero n = ground arith

module _ (semver : Semver) (is_valid_email : String → Bool) where
  pub record IsComplete (action : Action) (file : FormattedDeployment) : Type 0 where
    pub name : file.configuration.name ≢ ""
    pub executor : file.configuration.executor ≢ ""
    pub valid_executor :
        is_valid_executor semver file.configuration.executor file.configuration.runtime_version
          file.configuration.deployment_type
        ≡ true
    pub emails : All (λ e. is_valid_email e ≡ true) file.alert_emails
    pub variables : All (IsCompleteVariable action) file.env_vars
    pub queues : AreCompleteQueues file.worker_queues

  queues_part_iff :
      (qs : List Workerq)
      → ((if ltb 0 (length qs) then check_queues 0 false qs else ok tt) ≡ ok tt)
        ↔ AreCompleteQueues qs
  queues_part_iff [] = (λ e. tt, λ h. refl)
  queues_part_iff (q ∷ qs) = rw (longer_than_zero (length qs)) (check_queues_iff 0 false (q ∷ qs))

  variables_part_iff :
      (action : Action) (vs : List EnvironmentVariable)
      → ((if ltb 0 (length vs) then check_env_vars action 0 vs else ok tt) ≡ ok tt)
        ↔ All (IsCompleteVariable action) vs
  variables_part_iff action [] = (λ e. tt, λ h. refl)
  variables_part_iff action (v ∷ vs) =
      rw (longer_than_zero (length vs)) (check_env_vars_iff action 0 (v ∷ vs))

  emails_part_iff :
      (es : List String)
      → ((if ltb 0 (length es) then check_alert_emails is_valid_email es else ok tt) ≡ ok tt)
        ↔ All (λ e. is_valid_email e ≡ true) es
  emails_part_iff [] = (λ e. tt, λ h. refl)
  emails_part_iff (e ∷ es) =
      rw (longer_than_zero (length es)) (check_alert_emails_iff is_valid_email (e ∷ es))

  -- Two checks in a row pass if both do.
  then_iff :
      (first second : Result FileError (Unit {0}))
      → ((first >> second) ≡ ok tt) ↔ ((first ≡ ok tt) × (second ≡ ok tt))
  then_iff (err e) second = (λ h. absurd (cc), λ h. absurd (cc))
  then_iff (ok tt) second = (λ h. (refl, h), λ h. h.1)

  -- checkRequiredFields passes exactly the complete files: they have a name and a valid executor,
  -- every address among the alert emails is valid, every variable has a key and, unless it is a
  -- secret of an update, a value, every queue has a name and a worker type, and one of the queues,
  -- if there are any, is the default queue.
  pub check_required_fields_iff :
      (file : FormattedDeployment) (action : Action)
      → (check_required_fields semver is_valid_email file action ≡ ok tt) ↔ IsComplete action file
  unfolding check_required_fields
  check_required_fields_iff file action =
      let config = file.configuration in
      let emails =
        if ltb 0 (length file.alert_emails)
        then check_alert_emails is_valid_email file.alert_emails
        else ok tt in
      let variables =
        if ltb 0 (length file.env_vars) then check_env_vars action 0 file.env_vars else ok tt in
      let queues =
        if ltb 0 (length file.worker_queues)
        then check_queues 0 false file.worker_queues
        else ok tt in
      ground (
        arith,
        eq_iff config.name "",
        eq_iff config.executor "",
        then_iff emails (variables >> queues),
        then_iff variables queues,
        emails_part_iff file.alert_emails,
        variables_part_iff action file.env_vars,
        queues_part_iff file.worker_queues,
      )
