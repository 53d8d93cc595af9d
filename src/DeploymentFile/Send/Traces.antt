-- ===== src/DeploymentFile/Send/Traces.antt =====
-- The history behind createOrUpdateDeployment, whatever the platform answers.
use astro_cli.Prelude.{
  arith, true, err, false, ◌∙◌, refl, sym, ◌&&◌, Result, ap, not, inr, ok, if_intro, inl, Option,
  ◌∷◌, Bool, ◌⊎◌, List, ◌≡◌, String,
}
use astro_cli.DeploymentFile.{
  FormattedDeployment, Deployment, DeploymentOptions, FileError, EnvironmentVariable,
}
use astro_cli.DeploymentFile.Kinds.{transform_deployment_type}
use astro_cli.DeploymentFile.Requests.{CreateRequest, UpdateRequest}
use astro_cli.DeploymentFile.Create.{create_deployment_request}
use astro_cli.DeploymentFile.Update.{update_deployment_request}
use astro_cli.DeploymentFile.Calls.{
  Surroundings, Calls, History, lift, create_call, update_call, ◌>>=◌,
}
use astro_cli.DeploymentFile.Calls.Steps.{after_read, read_then, both-ok}
use astro_cli.DeploymentFile.Send.{
  worker_queues_of, options_of, send_create, send_update, create_or_update_deployment,
}
use astro_cli.DeploymentFile.Send.Sent.{
  created_name, updated_name, create_deployment_request-name, update_deployment_request-ok,
  send_create-history, worker_queues-silent, options-silent,
}
use astro_cli.WorkerQueue.{create, update, NodePool, DeploymentKind}
use astro_cli.WorkerQueue.Queues.{SentQueue}

-- The history is as it was, or has one more create call, of a body with the name.
abbrev pub MayCreate : String → History → History → Type 0
MayCreate name h k =
    (k ≡ h) ⊎ ((r : CreateRequest) × (created_name r ≡ name) × (k ≡ create_call r ∷ h))

-- The user has declined an update of a deployment that only CI/CD may deploy to.
abbrev pub Declines : Surroundings → FormattedDeployment → Type 0
Declines around file =
    (around.force ≡ false)
    × (file.configuration.api_key_only_deployments ≡ true)
    × (around.can_cicd_deploy ≡ false)
    × (around.confirm ≡ false)

-- An error that changed nothing, an update that the user declined, or one more update call, of a
-- body with the name.
abbrev pub MayUpdate {ℓ} :
    Surroundings
    → FormattedDeployment
    → History
    → {A : Type ℓ} → Result FileError A × History
    → Type ℓ
MayUpdate around file h out =
    ((e : FileError) × (out ≡ (err e, h)))
    ⊎ (Declines around file × (out.1 ≡ h))
    ⊎ ((id : String) × (u : UpdateRequest) × (updated_name u ≡ file.configuration.name)
        × (out.1 ≡ update_call id u ∷ h))

declined :
    (force enforced dag_deploy allowed confirm : Bool)
    → (not force && enforced && dag_deploy && not allowed && not confirm) ≡ true
    → (force ≡ false) × (enforced ≡ true) × (allowed ≡ false) × (confirm ≡ false)
declined force enforced dag_deploy allowed confirm e = ground arith

module _ (around : Surroundings) (file : FormattedDeployment) (cluster_id workspace_id : String)
    (d : Deployment) (pools : List NodePool) (dag_deploy : Bool)
    (env_vars : List EnvironmentVariable) where
  abbrev kind_of : Option DeploymentKind
  kind_of = transform_deployment_type file.configuration.deployment_type

  -- The steps behind the queues.
  abbrev create_behind : List SentQueue → Calls (Unit {0})
  create_behind queues = do
    options ← options_of around.platform kind_of file
    request ← lift (
        create_deployment_request kind_of file cluster_id workspace_id pools dag_deploy queues
          options)
    send_create around workspace_id request

  abbrev create_last : List SentQueue → DeploymentOptions → Calls (Unit {0})
  create_last queues options = do
    request ← lift (
        create_deployment_request kind_of file cluster_id workspace_id pools dag_deploy queues
          options)
    send_create around workspace_id request

  abbrev update_behind : List SentQueue → Calls (Unit {0})
  update_behind queues = do
    request ← lift (
        update_deployment_request kind_of file cluster_id workspace_id d pools dag_deploy env_vars
          queues)
    send_update around file dag_deploy d.id request

  pub create-MayCreate :
      (h : History)
      → MayCreate file.configuration.name h
          (create_or_update_deployment around file cluster_id workspace_id create d pools dag_deploy
            env_vars h).1
  unfolding create_or_update_deployment
  create-MayCreate h =
      let P = MayCreate file.configuration.name h in
      after_read P (worker_queues_of around.platform file d pools) create_behind h
        (worker_queues-silent around.platform file d pools h) (inl refl)
        (λ queues _.
          after_read P (options_of around.platform kind_of file) (create_last queues) h
            (options-silent around.platform kind_of file h) (inl refl)
            (λ options _.
              after_read P
                (lift (
                  create_deployment_request kind_of file cluster_id workspace_id pools dag_deploy
                    queues options))
                (send_create around workspace_id) h refl (inl refl)
                (λ request made. inr (
                  request,
                  create_deployment_request-name kind_of file cluster_id workspace_id pools
                      dag_deploy queues options
                      (ap (λ (p : Result FileError CreateRequest × History). p.0) made),
                  send_create-history around workspace_id request h,
                ))))

  send_update-MayUpdate :
      (request : UpdateRequest) (h : History)
      → updated_name request ≡ file.configuration.name
      → MayUpdate around file h (send_update around file dag_deploy d.id request h)
  unfolding send_update
  send_update-MayUpdate request h same =
      if_intro (λ (m : Calls (Unit {0})). MayUpdate around file h (m h))
        (not around.force
          && file.configuration.api_key_only_deployments
          && dag_deploy
          && not around.can_cicd_deploy
          && not around.confirm)
        (λ canceled. inr (
          inl (
            declined around.force file.configuration.api_key_only_deployments dag_deploy
                around.can_cicd_deploy around.confirm canceled,
            refl,
          )))
        (λ sent. inr (inr (d.id, request, same, refl)))

  pub update-MayUpdate :
      (h : History)
      → MayUpdate around file h (
          create_or_update_deployment around file cluster_id workspace_id update d pools dag_deploy
            env_vars h)
  unfolding create_or_update_deployment
  update-MayUpdate h =
      let P = λ (out : Result FileError (Unit {0}) × History). MayUpdate around file h out in
      read_then P (worker_queues_of around.platform file d pools) update_behind h
        (worker_queues-silent around.platform file d pools h) (λ e. inl (e, refl))
        (λ queues _.
          read_then P
            (lift (
              update_deployment_request kind_of file cluster_id workspace_id d pools dag_deploy
                env_vars queues))
            (send_update around file dag_deploy d.id) h refl (λ e. inl (e, refl))
            (λ request made.
              send_update-MayUpdate request h
                (update_deployment_request-ok kind_of file cluster_id workspace_id d pools
                  dag_deploy env_vars queues
                  (ap (λ (p : Result FileError UpdateRequest × History). p.0) made)).1))

  -- A create that succeeded made its call.
  pub create-calls :
      (h last : History)
      → create_or_update_deployment around file cluster_id workspace_id create d pools dag_deploy
          env_vars h
        ≡ (ok tt, last)
      → (r : CreateRequest) × (created_name r ≡ file.configuration.name)
        × (last ≡ create_call r ∷ h)
  unfolding create_or_update_deployment
  create-calls h last e =
      let (queues, h1, read, e1) =
        both-ok (worker_queues_of around.platform file d pools) create_behind h e in
      let (options, h2, got, e2) =
        both-ok (options_of around.platform kind_of file) (create_last queues) h1 e1 in
      let (request, h3, made, e3) =
        both-ok
          (lift (
            create_deployment_request kind_of file cluster_id workspace_id pools dag_deploy queues
              options))
          (send_create around workspace_id) h2 e2 in
      let same : h3 ≡ h =
        ap (λ (p : Result FileError CreateRequest × History). p.1) (sym made)
        ∙ ap (λ (p : Result FileError DeploymentOptions × History). p.1) (sym got)
        ∙ options-silent around.platform kind_of file h1
        ∙ ap (λ (p : Result FileError (List SentQueue) × History). p.1) (sym read)
        ∙ worker_queues-silent around.platform file d pools h in
      (
        request,
        create_deployment_request-name kind_of file cluster_id workspace_id pools dag_deploy queues
            options (ap (λ (p : Result FileError CreateRequest × History). p.0) made),
        ap (λ (p : Result FileError (Unit {0}) × History). p.1) (sym e3)
            ∙ send_create-history around workspace_id request h3
            ∙ ap (λ (k : History). create_call request ∷ k) same,
      )
