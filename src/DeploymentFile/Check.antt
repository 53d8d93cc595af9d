-- ===== src/DeploymentFile/Check.antt =====
-- checkRequiredFields, with IsValidExecutor of cloud/deployment/deployment.go: what a file must say
-- before anything is read from the platform.
pub mod Complete
use astro_cli.Prelude.{
  ◌>>◌, none, ◌+◌, [], ◌&&◌, err, false, some, equal_fold, ◌∷◌, codes, if◌then◌else◌, ok, not,
  length, Result, contains_by, ◌==◌, List, true, ◌||◌, ltb, String, ℕ, Option, Bool,
}
use astro_cli.DeploymentFile.{
  FormattedDeployment, EnvironmentVariable, Workerq, FileError, required_field, Field,
  invalid_executor, invalid_email,
}
use astro_cli.WorkerQueue.{Action, create, update}
use astro_cli.Versions.{Semver, is_airflow3}

abbrev pub has_env_vars : FormattedDeployment → Bool
has_env_vars file = ltb 0 (length file.env_vars)

abbrev pub has_queues : FormattedDeployment → Bool
has_queues file = ltb 0 (length file.worker_queues)

abbrev pub has_alert_emails : FormattedDeployment → Bool
has_alert_emails file = ltb 0 (length file.alert_emails)

abbrev pub has_env_vars_or_alert_emails : FormattedDeployment → Bool
has_env_vars_or_alert_emails file = has_env_vars file || has_alert_emails file

-- A create needs every value, an update those of the variables that are not secret.
abbrev pub needs_value : Action → EnvironmentVariable → Bool
needs_value create v = true
needs_value update v = not v.is_secret

abbrev pub is_none {ℓ} : {A : Type ℓ} → Option A → Bool
is_none none = true
is_none (some a) = false

-- checkEnvVars, from the i-th variable on
unfoldable pub check_env_vars : Action → ℕ → List EnvironmentVariable → Result FileError (Unit {0})
check_env_vars action i [] = ok tt
check_env_vars action i (v ∷ vs) =
    if v.key == ""
    then err (required_field (Field.variable_key i))
    else if needs_value action v && is_none v.value
    then err (required_field (Field.variable_value i))
    else check_env_vars action (i + 1) vs

-- The loop over the queues, from the i-th on, and the test behind it.
unfoldable pub check_queues : ℕ → Bool → List Workerq → Result FileError (Unit {0})
check_queues i has_default [] =
    if has_default then ok tt else err (required_field Field.default_queue)
check_queues i has_default (q ∷ qs) =
    if q.name == ""
    then err (required_field (Field.worker_queue_name i))
    else if q.worker_type == ""
    then err (required_field (Field.worker_queue_type i))
    else check_queues (i + 1) (has_default || q.name == "default") qs

-- `mail.ParseAddress` accepts an address. The test is a parameter, as semver is.
module _ (is_valid_email : String → Bool) where
  unfoldable pub check_alert_emails : List String → Result FileError (Unit {0})
  check_alert_emails [] = ok tt
  check_alert_emails (e ∷ es) =
      if is_valid_email e then check_alert_emails es else err (invalid_email e)

module _ (semver : Semver) where
  -- A file without a runtime version is one of an update.
  abbrev pub allows_astro : String → String → Bool
  allows_astro runtime_version deployment_type =
      runtime_version == ""
      || (is_airflow3 semver (codes runtime_version) && not (equal_fold deployment_type "hybrid"))

  abbrev pub valid_executors : String → String → List String
  valid_executors runtime_version deployment_type =
      "KubernetesExecutor"
      ∷ "CeleryExecutor"
      ∷ "CELERY"
      ∷ "KUBERNETES"
      ∷ (if allows_astro runtime_version deployment_type
          then "AstroExecutor" ∷ "ASTRO" ∷ []
          else [])

  unfoldable pub is_valid_executor : String → String → String → Bool
  is_valid_executor executor runtime_version deployment_type =
      contains_by (λ e. equal_fold executor e) (valid_executors runtime_version deployment_type)

module _ (semver : Semver) (is_valid_email : String → Bool) where
  unfoldable pub check_required_fields : FormattedDeployment → Action → Result FileError (Unit {0})
  check_required_fields file action =
      let config = file.configuration in
      if config.name == ""
      then err (required_field Field.config_name)
      else if config.executor == ""
      then err (required_field Field.config_executor)
      else if not
          (is_valid_executor semver config.executor config.runtime_version config.deployment_type)
      then err (invalid_executor config.executor)
      else do
        (if has_alert_emails file
            then check_alert_emails is_valid_email file.alert_emails
            else ok tt)
        (if has_env_vars file then check_env_vars action 0 file.env_vars else ok tt)
        (if has_queues file then check_queues 0 false file.worker_queues else ok tt)
