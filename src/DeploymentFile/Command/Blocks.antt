-- ===== src/DeploymentFile/Command/Blocks.antt =====
-- The two blocks of CreateOrUpdate, one behind the other, whatever the platform answers.
use mathlib.Core.Path.{subst}
use astro_cli.Prelude.{
  err, false, ◌∙◌, if◌then◌else◌, refl, inr, sym, Result, inl, ◌⊎◌, arith, true, Bool, ◌∷◌, String,
  List, ◌≡◌,
}
use astro_cli.DeploymentFile.{FormattedDeployment, Deployment, FileError}
use astro_cli.DeploymentFile.Check.{has_env_vars_or_alert_emails}
use astro_cli.DeploymentFile.Requests.{CreateRequest, UpdateRequest}
use astro_cli.DeploymentFile.Calls.{
  Surroundings, Calls, History, pure, asks, create_call, update_call, ◌>>=◌,
}
use astro_cli.DeploymentFile.Calls.Steps.{after_read, read_then, call_then, after_silent}
use astro_cli.DeploymentFile.Lookup.{deployment_from_name}
use astro_cli.DeploymentFile.Send.Sent.{created_name, updated_name}
use astro_cli.DeploymentFile.Send.Traces.{MayCreate, MayUpdate, Declines}
use astro_cli.DeploymentFile.Command.{
  create_step, create_block, update_step, update_block, run_blocks,
}
use astro_cli.DeploymentFile.Command.Traces.{
  deployment-silent, create_step-MayCreate, create_step-ok, update_step-MayUpdate,
}
use astro_cli.WorkerQueue.{Action, create, update, NodePool}

-- What a run of an action on a file has done, from the history before it to what it returned and
-- the history behind it. Every body has the file's name. A run that changes nothing ends in an
-- error, or the user has declined the update. An update follows a create exactly if the file has
-- variables or alert emails, unless there is an error behind the create or the user declines.
pub data Sends (around : Surroundings) (file : FormattedDeployment)
    : Action → History → Result FileError (Unit {0}) × History → Type 0 where
  sends_nothing :
      {action : Action} {h : History} (e : FileError) → Sends around file action h (err e, h)
  sends_declined :
      {h : History} (result : Result FileError (Unit {0}))
      → Declines around file
      → Sends around file update h (result, h)
  sends_create :
      {h : History} (result : Result FileError (Unit {0})) (r : CreateRequest)
      → created_name r ≡ file.configuration.name
      → ((e : FileError) × (result ≡ err e))
        ⊎ (has_env_vars_or_alert_emails file ≡ false)
        ⊎ Declines around file
      → Sends around file create h (result, create_call r ∷ h)
  sends_update :
      {h : History} (result : Result FileError (Unit {0})) (id : String) (u : UpdateRequest)
      → updated_name u ≡ file.configuration.name
      → Sends around file update h (result, update_call id u ∷ h)
  sends_both :
      {h : History} (result : Result FileError (Unit {0})) (r : CreateRequest) (id : String)
      (u : UpdateRequest)
      → created_name r ≡ file.configuration.name
      → updated_name u ≡ file.configuration.name
      → has_env_vars_or_alert_emails file ≡ true
      → Sends around file create h (result, update_call id u ∷ create_call r ∷ h)

update_if : (b : Bool) → (if b then update else create) ≡ update → b ≡ true
update_if true e = refl
update_if false e = absurd (cc)

create_if : (b : Bool) → (if b then update else create) ≡ create → b ≡ false
create_if true e = absurd (cc)
create_if false e = refl

module _ (around : Surroundings) (file : FormattedDeployment) where
  abbrev inspect_behind : List Deployment → Bool → String → Calls (Unit {0})
  inspect_behind deployments json_output workspace = do
    d ← deployment_from_name around.platform deployments file.configuration.name
    asks (around.platform.inspect workspace d.id json_output)

  inspect-silent :
      (deployments : List Deployment) (json_output : Bool) (workspace : String) (h : History)
      → (inspect_behind deployments json_output workspace h).1 ≡ h
  inspect-silent deployments json_output workspace h =
      ground (arith, deployment-silent around.platform deployments file.configuration.name h)

  module _ (cluster_id workspace_id : String) (pools : List NodePool) (json_output : Bool) where
    -- What follows the create block.
    abbrev update_behind : Action → List Deployment → Calls (Unit {0})
    update_behind next deployments =
        update_block around file next cluster_id workspace_id pools deployments
        >>= inspect_behind deployments json_output

    abbrev block_behind : Action → Calls (Unit {0})
    block_behind next = asks (around.platform.list_deployments workspace_id) >>= update_behind next

    -- A step that reads behind an update block.
    MayUpdate-inspect :
        (deployments : List Deployment) (m : Calls String) (h : History)
        → MayUpdate around file h (m h)
        → MayUpdate around file h ((m >>= inspect_behind deployments json_output) h)
    MayUpdate-inspect deployments m h (inl (e, same)) = inl (e, ground (arith, same))
    MayUpdate-inspect deployments m h (inr (inl (declines, same))) = inr (
        inl (
          declines,
          after_silent m (inspect_behind deployments json_output) h
                (inspect-silent deployments json_output)
              ∙ same,
        ))
    MayUpdate-inspect deployments m h (inr (inr (id, u, name, same))) = inr (
        inr (
          id,
          u,
          name,
          after_silent m (inspect_behind deployments json_output) h
                (inspect-silent deployments json_output)
              ∙ same,
        ))

    update_behind-MayUpdate : (h : History) → MayUpdate around file h (block_behind update h)
    update_behind-MayUpdate h =
        read_then (λ (out : Result FileError (Unit {0}) × History). MayUpdate around file h out)
          (asks (around.platform.list_deployments workspace_id)) (update_behind update) h refl
          (λ e. inl (e, refl))
          (λ deployments _.
            MayUpdate-inspect deployments (update_step around file cluster_id pools deployments) h
              (update_step-MayUpdate around file cluster_id workspace_id pools deployments h))

    create_behind-silent : (h : History) → (block_behind create h).1 ≡ h
    create_behind-silent h =
        after_read (λ (k : History). k ≡ h) (asks (around.platform.list_deployments workspace_id))
          (update_behind create) h refl refl
          (λ deployments _.
            after_read (λ (k : History). k ≡ h) (pure workspace_id)
              (inspect_behind deployments json_output) h refl refl
              (λ workspace _. inspect-silent deployments json_output workspace h))

    -- What was returned stays as it is where the history is rewritten.
    abbrev moves :
        (action : Action) (h : History) (out : Result FileError (Unit {0}) × History) {k : History}
        → out.1 ≡ k
        → Sends around file action h (out.0, k)
        → Sends around file action h out
    moves action h out same sent =
        subst (λ (x : History). Sends around file action h (out.0, x)) (sym same) sent

    failed_create :
        (e : FileError) (h k : History)
        → MayCreate file.configuration.name h k
        → Sends around file create h (err e, k)
    failed_create e h k (inl same) = moves create h (err e, k) same (sends_nothing e)
    failed_create e h k (inr (r, name, same)) =
        moves create h (err e, k) same (sends_create (err e) r name (inl (e, refl)))

    updated-Sends :
        (h : History) (out : Result FileError (Unit {0}) × History)
        → MayUpdate around file h out
        → Sends around file update h out
    updated-Sends h out (inl (e, same)) =
        subst (λ (o : Result FileError (Unit {0}) × History). Sends around file update h o)
          (sym same) (sends_nothing e)
    updated-Sends h out (inr (inl (declines, same))) =
        moves update h out same (sends_declined out.0 declines)
    updated-Sends h out (inr (inr (id, u, name, same))) =
        moves update h out same (sends_update out.0 id u name)

    followed-Sends :
        (r : CreateRequest) (h : History) (out : Result FileError (Unit {0}) × History)
        → created_name r ≡ file.configuration.name
        → has_env_vars_or_alert_emails file ≡ true
        → MayUpdate around file (create_call r ∷ h) out
        → Sends around file create h out
    followed-Sends r h out name asked (inl (e, same)) =
        subst (λ (o : Result FileError (Unit {0}) × History). Sends around file create h o)
          (sym same) (sends_create (err e) r name (inl (e, refl)))
    followed-Sends r h out name asked (inr (inl (declines, same))) =
        moves create h out same (sends_create out.0 r name (inr (inr declines)))
    followed-Sends r h out name asked (inr (inr (id, u, updated_as, same))) =
        moves create h out same (sends_both out.0 r id u name updated_as asked)

    -- Behind a create, by the action that it left.
    follow-Sends :
        (r : CreateRequest) (next : Action) (h : History)
        → created_name r ≡ file.configuration.name
        → next ≡ (if has_env_vars_or_alert_emails file then update else create)
        → Sends around file create h (block_behind next (create_call r ∷ h))
    follow-Sends r create h name turned =
        moves create h (block_behind create (create_call r ∷ h))
          (create_behind-silent (create_call r ∷ h))
          (sends_create (block_behind create (create_call r ∷ h)).0 r name
            (inr (inl (create_if (has_env_vars_or_alert_emails file) (sym turned)))))
    follow-Sends r update h name turned =
        followed-Sends r h (block_behind update (create_call r ∷ h)) name
          (update_if (has_env_vars_or_alert_emails file) (sym turned))
          (update_behind-MayUpdate (create_call r ∷ h))

    pub run_blocks-Sends :
        (action : Action) (existing : List Deployment) (h : History)
        → Sends around file action h
            (run_blocks around file action json_output cluster_id workspace_id pools existing h)
    unfolding run_blocks create_block
    run_blocks-Sends create existing h =
        call_then (λ (out : Result FileError (Unit {0}) × History). Sends around file create h out)
          (create_step around file cluster_id workspace_id pools existing) block_behind h
          (λ e k same. failed_create e h k (
            subst
              (λ (out : Result FileError Action × History).
                MayCreate file.configuration.name h out.1)
              same (create_step-MayCreate around file cluster_id workspace_id pools existing h)))
          (λ next k same.
            let (r, name, calls, turned) =
              create_step-ok around file cluster_id workspace_id pools existing h k next same in
            subst (λ (x : History). Sends around file create h (block_behind next x)) (sym calls)
              (follow-Sends r next h name turned))
    run_blocks-Sends update existing h =
        updated-Sends h (block_behind update h) (update_behind-MayUpdate h)
