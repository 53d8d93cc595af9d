-- ===== src/DeploymentFile/Command/Traces.antt =====
-- The calls that CreateOrUpdate makes, whatever the platform answers.
use astro_cli.Prelude.{
  refl, not, if_intro, ok-inj, ◌∙◌, sym, Result, ap, inr, inl, Bool-cases, [], ok, if◌then◌else◌,
  Bool, arith, ◌∷◌, List, String, ◌≡◌,
}
use astro_cli.DeploymentFile.{FormattedDeployment, Deployment, FileError, not_found}
use astro_cli.DeploymentFile.Check.{has_env_vars_or_alert_emails}
use astro_cli.DeploymentFile.Requests.{CreateRequest, create_env_vars_request}
use astro_cli.DeploymentFile.Calls.{
  Platform, Surroundings, Calls, History, lift, pure, create_call, ◌>>=◌, ◌>>◌,
}
use astro_cli.DeploymentFile.Calls.Steps.{read_then, both-ok, then_pure}
use astro_cli.DeploymentFile.Lookup.{
  deployment_exists, deployment_from_name, zero_deployment, cluster_info,
  get_workspace_id_from_name, get_cluster_info_from_name,
}
use astro_cli.DeploymentFile.Send.{create_or_update_deployment}
use astro_cli.DeploymentFile.Send.Sent.{created_name}
use astro_cli.DeploymentFile.Send.Traces.{
  MayCreate, MayUpdate, create-MayCreate, create-calls, update-MayUpdate,
}
use astro_cli.DeploymentFile.Command.{create_step, update_step, dag_deploy_or, cluster_of}
use astro_cli.WorkerQueue.{Action, create, update, NodePool}

pub cluster_info-silent :
    (platform : Platform) (file : FormattedDeployment) (h : History)
    → (cluster_info platform file h).1 ≡ h
unfolding cluster_info get_cluster_info_from_name
cluster_info-silent platform file h = ground arith

pub workspace-silent :
    (platform : Platform) (name : String) (h : History)
    → (get_workspace_id_from_name platform name h).1 ≡ h
unfolding get_workspace_id_from_name
workspace-silent platform name h = ground arith

pub deployment-silent :
    (platform : Platform) (ds : List Deployment) (name : String) (h : History)
    → (deployment_from_name platform ds name h).1 ≡ h
unfolding deployment_from_name
deployment-silent platform ds name h = ground arith

module _ (around : Surroundings) (file : FormattedDeployment) (cluster_id workspace_id : String)
    (pools : List NodePool) (existing : List Deployment) where
  abbrev dag_deploy : Bool
  dag_deploy = dag_deploy_or around.is_org_hosted file.configuration.dag_deploy_enabled

  abbrev pub follow_up : Action
  follow_up = if has_env_vars_or_alert_emails file then update else create

  pub create_step-MayCreate :
      (h : History)
      → MayCreate file.configuration.name h
          (create_step around file cluster_id workspace_id pools existing h).1
  unfolding create_step
  create_step-MayCreate h = ground (
    arith,
    create-MayCreate around file cluster_id workspace_id zero_deployment pools dag_deploy [] h,
  )

  pub create_step-ok :
      (h last : History) (next : Action)
      → create_step around file cluster_id workspace_id pools existing h ≡ (ok next, last)
      → (r : CreateRequest) × (created_name r ≡ file.configuration.name)
        × (last ≡ create_call r ∷ h)
        × (next ≡ follow_up)
  unfolding create_step
  create_step-ok h last next e =
      elim (Bool-cases (deployment_exists existing file.configuration.name)) [
        | inl taken ↦ absurd (ground arith)
        | inr free ↦
            let (_, middle, made, e1) =
              both-ok
                (create_or_update_deployment around file cluster_id workspace_id create
                  zero_deployment pools dag_deploy [])
                (λ _. pure follow_up) h (rw free at e) in
            let (r, name, calls) =
              create-calls around file cluster_id workspace_id zero_deployment pools dag_deploy [] h
                middle made in
            (
              r,
              name,
              ap (λ (p : Result FileError Action × History). p.1) (sym e1) ∙ calls,
              ok-inj (ap (λ (p : Result FileError Action × History). p.0) (sym e1)),
            )
      ]

  abbrev update_only : Deployment → String → Calls (Unit {0})
  update_only d cluster =
      create_or_update_deployment around file cluster d.workspace_id update d pools
        (dag_deploy_or d.is_dag_deploy_enabled file.configuration.dag_deploy_enabled)
        (create_env_vars_request file)

  abbrev update_last : Deployment → String → Calls String
  update_last d cluster = update_only d cluster >> pure d.workspace_id

  abbrev update_behind : Deployment → Calls String
  update_behind d = lift (cluster_of file cluster_id d) >>= update_last d

  -- A value put behind the call changes nothing of this.
  MayUpdate-pure :
      (m : Calls (Unit {0})) (w : String) (h : History)
      → MayUpdate around file h (m h)
      → MayUpdate around file h ((m >> pure w) h)
  MayUpdate-pure m w h (inl (e, same)) = inl (e, ground (arith, same))
  MayUpdate-pure m w h (inr (inl (declines, same))) = inr (inl (declines, then_pure m w h ∙ same))
  MayUpdate-pure m w h (inr (inr (id, u, name, same))) =
      inr (inr (id, u, name, then_pure m w h ∙ same))

  pub update_step-MayUpdate :
      (h : History) → MayUpdate around file h (update_step around file cluster_id pools existing h)
  unfolding update_step
  update_step-MayUpdate h =
      let P = λ (out : Result FileError String × History). MayUpdate around file h out in
      if_intro (λ (m : Calls String). P (m h))
        (not (deployment_exists existing file.configuration.name))
        (λ missing. inl (not_found file.configuration.name, refl))
        (λ there.
          read_then P (deployment_from_name around.platform existing file.configuration.name)
            update_behind h (deployment-silent around.platform existing file.configuration.name h)
            (λ e. inl (e, refl))
            (λ d _.
              read_then P (lift (cluster_of file cluster_id d)) (update_last d) h refl
                (λ e. inl (e, refl))
                (λ cluster _. MayUpdate-pure (update_only d cluster) d.workspace_id h (
                  update-MayUpdate around file cluster d.workspace_id d pools
                    (dag_deploy_or d.is_dag_deploy_enabled file.configuration.dag_deploy_enabled)
                    (create_env_vars_request file) h))))
