-- ===== src/Env/Vars/Update.antt =====
-- UpdateVar and UpdateAirflowVar leave the links of the object that they update.
use astro_cli.Env.Links.Kept.{LinksKept, echo-LinksKept}
use astro_cli.Env.Links.Sends.{perform-call}
use astro_cli.Env.Links.Patch.{patched_excludes, patched_links}
use astro_cli.Env.Links.{or_else, echo_preserved_fields, deref_slice}
use astro_cli.Prelude.{refl, bind-ok, [], ◌∷◌, false, Result, ok, Bool, Option, String, ◌≡◌}
use astro_cli.Env.Vars.{
  answer_update, airflow_field, context, env_field, object_id, type_of, get_object, update_body,
  update_var, VarKind, update_request,
}
use astro_cli.Env.{update_call, EnvironmentObject, UpdateBody, Call, EnvError, Platform, Scope}

update_request-ok :
    (kind : VarKind) (p : Platform) (id_or_key : String) (scope : Scope) (value : String)
    (auto_link : Option Bool) (call : Call)
    → update_request kind p id_or_key scope value auto_link ≡ ok call
    → (current : EnvironmentObject) × (id : String) × (get_object p id_or_key scope
          (type_of kind)
          false
        ≡ ok current)
      × (object_id current id_or_key ≡ ok id)
      × (call ≡ update_call id (update_body kind value auto_link current))
unfolding update_request
update_request-ok kind p id_or_key scope value auto_link call h =
    let (current, found, h1) = bind-ok (get_object p id_or_key scope (type_of kind) false) _ h in
    let (id, has_id, h2) = bind-ok (object_id current id_or_key) _ h1 in
    let (u, ctx, h3) = bind-ok (context p) _ h2 in (current, id, found, has_id, cc)

-- An update of a variable has found the object, and makes one update of it, which holds the value
-- in the field of the variable's kind, and the caller's auto-link flag or else the object's; after
-- it every deployment has the link that it had, with the overrides of every kind, and the
-- excluded deployments are the same.
abbrev pub UpdateSent :
    (UpdateBody → EnvironmentObject → EnvironmentObject)
    → VarKind
    → Platform
    → String
    → Scope
    → String
    → Option Bool
    → Call
    → Type 0
UpdateSent apply kind p id_or_key scope value auto_link call =
    (current : EnvironmentObject) × (id : String) × (body : UpdateBody) × (get_object p id_or_key
        scope (type_of kind) false
      ≡ ok current)
    × (object_id current id_or_key ≡ ok id)
    × (call ≡ update_call id body)
    × ((body.environment_var ≡ env_field kind value)
        × (body.airflow_var ≡ airflow_field kind value)
        × (body.auto_link ≡ or_else auto_link current.auto_link))
    × LinksKept apply body current

module _ (apply : UpdateBody → EnvironmentObject → EnvironmentObject)
    (apply_links : (body : UpdateBody) (current : EnvironmentObject)
      → deref_slice (apply body current).links ≡ patched_links body current)
    (apply_excludes : (body : UpdateBody) (current : EnvironmentObject)
      → deref_slice (apply body current).exclude_links ≡ patched_excludes body) where
  -- On a platform whose update replaces both lists as documented, an update of a variable that
  -- makes a call has found the object, and makes one update of it, which holds the value in the
  -- field of the variable's kind, and the caller's auto-link flag or else the object's; after it
  -- every deployment has the link that it had, with the overrides of every kind, and the
  -- excluded deployments are the same.
  pub update_var_sends :
      (kind : VarKind) (p : Platform) (id_or_key : String) (scope : Scope) (value : String)
      (auto_link : Option Bool) {call : Call} {result : Result EnvError EnvironmentObject}
      → update_var kind p id_or_key scope value auto_link ≡ (call ∷ [], result)
      → UpdateSent apply kind p id_or_key scope value auto_link call
  unfolding update_var update_body echo_preserved_fields
  update_var_sends kind p id_or_key scope value auto_link {call} {result} h =
      let (current, id, found, has_id, sent) =
        update_request-ok kind p id_or_key scope value auto_link call (
          perform-call (update_request kind p id_or_key scope value auto_link) (answer_update p)
            call result h) in
      (
        current,
        id,
        update_body kind value auto_link current,
        found,
        has_id,
        sent,
        (refl, refl, refl),
        echo-LinksKept apply apply_links apply_excludes _ current refl refl,
      )
