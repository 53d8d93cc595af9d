-- ===== src/DeploymentFile/Lookup/Unique.antt =====
-- deploymentFromName counts the deployments with the name.
use astro_cli.Prelude.{
  refl, inr, inl, Bool-cases, arith, [], keep, suc, ◌∷◌, ◌≡◌, none, some, ℕ, String, List,
}
use astro_cli.DeploymentFile.{Deployment, same_name}
use astro_cli.DeploymentFile.Calls.{Platform, Calls, History, pure, raise, asks}
use astro_cli.DeploymentFile.Lookup.{
  named, last_named, get_found, deployment_from_name, zero_deployment,
}

-- What is done with the deployments that have the name.
abbrev pub get_only : Platform → List Deployment → Calls Deployment
get_only platform [] = pure zero_deployment
get_only platform (d ∷ []) = asks (platform.get_deployment d.id)
get_only platform (d ∷ e ∷ ds) = raise same_name

module _ (platform : Platform) (name : String) where
  many-same :
      (ds : List Deployment) (d : Deployment) (j : ℕ) (h : History)
      → get_found platform (last_named name ds (some d, suc (suc j))) h ≡ raise same_name h
  many-same [] d j h = ground arith
  many-same (e ∷ ds) d j h = elim (Bool-cases (named name e)) [
    | inl yes_it ↦ rw yes_it (many-same ds e (suc j) h)
    | inr other ↦ rw other (many-same ds d j h)
  ]

  one-found :
      (ds : List Deployment) (d : Deployment) (h : History)
      → get_found platform (last_named name ds (some d, 1)) h
        ≡ get_only platform (d ∷ keep (named name) ds) h
  one-found [] d h = ground arith
  one-found (e ∷ ds) d h = elim (Bool-cases (named name e)) [
    | inl yes_it ↦ rw yes_it (many-same ds e 0 h)
    | inr other ↦ rw other (one-found ds d h)
  ]

  none-found :
      (ds : List Deployment) (h : History)
      → get_found platform (last_named name ds (none, 0)) h
        ≡ get_only platform (keep (named name) ds) h
  none-found [] h = refl
  none-found (e ∷ ds) h = elim (Bool-cases (named name e)) [
    | inl yes_it ↦ rw yes_it (one-found ds e h)
    | inr other ↦ rw other (none-found ds h)
  ]

  -- deploymentFromName gets the only deployment with the name by its id; where several have the
  -- name it is an error without a call, and where none has it the empty deployment.
  pub deployment_from_name-get_only :
      (ds : List Deployment) (h : History)
      → deployment_from_name platform ds name h ≡ get_only platform (keep (named name) ds) h
  unfolding deployment_from_name
  deployment_from_name-get_only ds h = none-found ds h
