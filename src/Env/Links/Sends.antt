-- ===== src/Env/Links/Sends.antt =====
-- What LinkVar and UnlinkVar leave of a variable's links, from the command to the platform.
use astro_cli.Env.Links.Upsert.{override_of}
use astro_cli.Env.Links.Patch.{unlink_patch, link_patch, new_override, patched_links}
use astro_cli.Env.Links.{
  answer_unit, unlink_var, link_var, deref_slice, build_update_links_excluding,
  upsert_link_in_update_list, patch_body, id_of, link_exists, exclude_exists, resolve_workspace_var,
  validate_deployment_id, perform, unlink_request, link_request,
}
use astro_cli.Prelude.{
  ◌==◌, if◌then◌else◌, inr, arith, inl, Bool-cases, bind-ok, none, some, err, true, false, [], ok,
  ◌∷◌, ◌≡◌, Option, String, Result,
}
use astro_cli.Env.{UpdateBody, update_call, EnvironmentObject, Call, EnvError, Platform, Scope}

pub perform-call :
    {A : Type 0} (request : Result EnvError Call) (answer : Call → Result EnvError A) (call : Call)
    (result : Result EnvError A)
    → perform request answer ≡ (call ∷ [], result)
    → request ≡ ok call
perform-call (err e) answer call result h = absurd (cc)
perform-call (ok c) answer call result h = cc

-- What a request of the two commands has found.
abbrev pub Resolved : Platform → String → Scope → String → EnvironmentObject → Type 0
Resolved p id_or_key scope dep current =
    (validate_deployment_id p dep ≡ ok tt)
    × (resolve_workspace_var p id_or_key scope false ≡ ok current)

pub link_request-ok :
    (p : Platform) (id_or_key : String) (scope : Scope) (dep : String) (override : Option String)
    (call : Call)
    → link_request p id_or_key scope dep override ≡ ok call
    → (current : EnvironmentObject) × Resolved p id_or_key scope dep current
      × (exclude_exists current.exclude_links dep ≡ false)
      × (call
          ≡ update_call (id_of current) (
              patch_body current
                (some (upsert_link_in_update_list current.links dep override))
                none))
unfolding link_request
link_request-ok p id_or_key scope dep override call h =
    let (u, valid, h1) = bind-ok (validate_deployment_id p dep) _ h in
    let (current, found, h2) = bind-ok (resolve_workspace_var p id_or_key scope false) _ h1 in
    elim (Bool-cases (exclude_exists current.exclude_links dep)) [
      | inl out ↦ absurd (ground arith)
      | inr in_use ↦ (current, (valid, found), in_use, ground arith)
    ]

pub unlink_request-ok :
    (p : Platform) (id_or_key : String) (scope : Scope) (dep : String) (call : Call)
    → unlink_request p id_or_key scope dep ≡ ok call
    → (current : EnvironmentObject) × Resolved p id_or_key scope dep current
      × (link_exists current.links dep ≡ true)
      × (call
          ≡ update_call
              (id_of current)
              (patch_body current (some (build_update_links_excluding current.links dep)) none))
unfolding unlink_request
unlink_request-ok p id_or_key scope dep call h =
    let (u, valid, h1) = bind-ok (validate_deployment_id p dep) _ h in
    let (current, found, h2) = bind-ok (resolve_workspace_var p id_or_key scope false) _ h1 in
    elim (Bool-cases (link_exists current.links dep)) [
      | inl there ↦ (current, (valid, found), there, ground arith)
      | inr gone ↦ absurd (ground arith)
    ]

-- LinkVar has found the variable, which does not exclude the deployment, and makes one update of
-- it, after which the deployment is linked with the override given, or the one it had, and every
-- other deployment is linked as before, with the environment variable override that it had.
abbrev pub LinkSent :
    (UpdateBody → EnvironmentObject → EnvironmentObject)
    → Platform
    → String
    → Scope
    → String
    → Option String
    → Call
    → Type 0
LinkSent apply p id_or_key scope dep override call =
    (current : EnvironmentObject) × (body : UpdateBody) × Resolved p id_or_key scope dep current
    × (exclude_exists current.exclude_links dep ≡ false)
    × (call ≡ update_call (id_of current) body)
    × ((j : String)
        → override_of j (deref_slice (apply body current).links) ≡ (
            if dep == j
            then some (new_override override (override_of dep (deref_slice current.links)))
            else override_of j (deref_slice current.links)))

-- UnlinkVar has found the variable, which is linked to the deployment, and makes one update of it,
-- after which the deployment has no link, and every other deployment is linked as before, with the
-- environment variable override that it had.
abbrev pub UnlinkSent :
    (UpdateBody → EnvironmentObject → EnvironmentObject)
    → Platform
    → String
    → Scope
    → String
    → Call
    → Type 0
UnlinkSent apply p id_or_key scope dep call =
    (current : EnvironmentObject) × (body : UpdateBody) × Resolved p id_or_key scope dep current
    × (link_exists current.links dep ≡ true)
    × (call ≡ update_call (id_of current) body)
    × ((j : String)
        → override_of j (deref_slice (apply body current).links)
          ≡ (if dep == j then none else override_of j (deref_slice current.links)))

-- `apply` is the platform's update, which replaces the links as documented.
module _ (apply : UpdateBody → EnvironmentObject → EnvironmentObject)
    (apply_links : (body : UpdateBody) (current : EnvironmentObject)
      → deref_slice (apply body current).links ≡ patched_links body current) where
  -- On a platform whose update replaces the links as documented, LinkVar that makes a call has
  -- found the variable, which does not exclude the deployment, and makes one update of it, after
  -- which the deployment is linked with the override given, or the one it had, and every other
  -- deployment is linked as before, with the environment variable override that it had.
  pub link_var_sends :
      (p : Platform) (id_or_key : String) (scope : Scope) (dep : String) (override : Option String)
      {call : Call} {result : Result EnvError (Unit {0})}
      → link_var p id_or_key scope dep override ≡ (call ∷ [], result)
      → LinkSent apply p id_or_key scope dep override call
  unfolding link_var
  link_var_sends p id_or_key scope dep override {call} {result} h =
      let ok_request =
        perform-call (link_request p id_or_key scope dep override) (answer_unit p) call result h in
      let (current, found, included, sent) =
        link_request-ok p id_or_key scope dep override call ok_request in
      (
        current,
        patch_body current (some (upsert_link_in_update_list current.links dep override)) none,
        found,
        included,
        sent,
        link_patch apply apply_links current dep override,
      )

  -- On a platform whose update replaces the links as documented, UnlinkVar that makes a call has
  -- found the variable, which is linked to the deployment, and makes one update of it, after which
  -- the deployment has no link, and every other deployment is linked as before, with the
  -- environment variable override that it had.
  pub unlink_var_sends :
      (p : Platform) (id_or_key : String) (scope : Scope) (dep : String) {call : Call}
      {result : Result EnvError (Unit {0})}
      → unlink_var p id_or_key scope dep ≡ (call ∷ [], result)
      → UnlinkSent apply p id_or_key scope dep call
  unfolding unlink_var
  unlink_var_sends p id_or_key scope dep {call} {result} h =
      let ok_request =
        perform-call (unlink_request p id_or_key scope dep) (answer_unit p) call result h in
      let (current, found, linked, sent) =
        unlink_request-ok p id_or_key scope dep call ok_request in
      (
        current,
        patch_body current (some (build_update_links_excluding current.links dep)) none,
        found,
        linked,
        sent,
        unlink_patch apply apply_links current dep,
      )
