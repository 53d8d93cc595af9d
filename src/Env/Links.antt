-- ===== src/Env/Links.antt =====
-- link.go: linking a workspace's variable to deployments.
pub mod Upsert
pub mod Patch
pub mod Sends
pub mod Kept
use astro_cli.Prelude.{
  false, ◌∷◌, not, ◌>>=◌, keep, ◌++◌, err, ◌>>◌, map, ok, contains_by, [], ◌==◌, none,
  if◌then◌else◌, Bool, List, Result, some, Option, String,
}
use mathlib.Core.Option
use astro_cli.Env.{
  Scope, Link, ExcludeLink, EnvironmentObject, UpdateBody, Call, EnvError, Platform, update_call,
  environment_variable, ObjectScope, workspace_scope, deployment_scope, VarValue,
  empty_deployment_id, linking_requires_workspace, invalid_deployment_id, not_workspace_scoped,
  is_excluded, not_linked,
}
use astro_cli.Env.Objects.{Command, perform, answer_unit, context, get_object, object_id}

unfoldable pub validate_deployment_id : Platform → String → Result EnvError (Unit {0})
validate_deployment_id p dep =
    if dep == ""
    then err empty_deployment_id
    else if not (p.is_cuid dep)
    then err (invalid_deployment_id dep)
    else ok tt

-- derefSlice
abbrev pub deref_slice {ℓ} : {A : Type ℓ} → Option (List A) → List A
deref_slice none = []
deref_slice (some xs) = xs

abbrev pub links_to : String → Link → Bool
links_to dep l = l.scope_entity_id == dep

abbrev pub excludes : String → ExcludeLink → Bool
excludes dep e = e.scope_entity_id == dep

unfoldable pub link_exists : Option (List Link) → String → Bool
link_exists links dep = contains_by (links_to dep) (deref_slice links)

unfoldable pub exclude_exists : Option (List ExcludeLink) → String → Bool
exclude_exists exclude_links dep = contains_by (excludes dep) (deref_slice exclude_links)

abbrev pub workspace_only : ObjectScope → String → Result EnvError (Unit {0})
workspace_only workspace_scope key = ok tt
workspace_only deployment_scope key = err (not_workspace_scoped key)

-- resolveWorkspaceVar
unfoldable pub resolve_workspace_var :
    Platform → String → Scope → Bool → Result EnvError EnvironmentObject
resolve_workspace_var p id_or_key scope include_secrets =
    if scope.workspace_id == "" then err linking_requires_workspace else do
      obj ← get_object p id_or_key scope environment_variable include_secrets
      workspace_only obj.scope obj.object_key
      object_id obj id_or_key
      ok obj

-- toUpdateLink copies the override of an environment variable and no other; toExcludeRequest copies
-- the whole entry.
unfoldable pub to_update_link : Link → Link
to_update_link l = record {
  scope = l.scope;
  scope_entity_id = l.scope_entity_id;
  environment_variable_override = l.environment_variable_override;
  airflow_variable_override = none;
  connection_overrides = none;
  metrics_export_overrides = none;
}

unfoldable pub to_exclude_request : ExcludeLink → ExcludeLink
to_exclude_request e = record { scope = e.scope; scope_entity_id = e.scope_entity_id }

abbrev pub new_link : String → Option String → Link
new_link dep override = record {
  scope = "DEPLOYMENT";
  scope_entity_id = dep;
  environment_variable_override = override;
  airflow_variable_override = none;
  connection_overrides = none;
  metrics_export_overrides = none;
}

-- The body of the loop of upsertLinkInUpdateList.
abbrev pub upsert_entry : String → Option String → Link → Link
upsert_entry dep override l =
    if links_to dep l
    then record (to_update_link l) { environment_variable_override = override }
    else to_update_link l

unfoldable pub upsert_link_in_update_list : Option (List Link) → String → Option String → List Link
unfolding to_update_link
upsert_link_in_update_list current dep override =
    let links = deref_slice current in
    let out = map (upsert_entry dep override) links in
    if contains_by (links_to dep) links then out else out ++ new_link dep override ∷ []

unfoldable pub build_update_links : Option (List Link) → List Link
build_update_links current = map to_update_link (deref_slice current)

unfoldable pub build_update_links_excluding : Option (List Link) → String → List Link
build_update_links_excluding current dep =
    map to_update_link (keep (λ l. not (links_to dep l)) (deref_slice current))

unfoldable pub build_update_excludes_excluding :
    Option (List ExcludeLink) → String → List ExcludeLink
build_update_excludes_excluding current dep =
    map to_exclude_request (keep (λ e. not (excludes dep e)) (deref_slice current))

unfoldable pub build_existing_excludes : Option (List ExcludeLink) → List ExcludeLink
build_existing_excludes current = map to_exclude_request (deref_slice current)

abbrev pub or_else {ℓ} : {A : Type ℓ} → Option A → Option A → Option A
or_else none other = other
or_else (some a) other = some a

-- echoPreservedFields: what the caller did not set is the object's state.
unfoldable pub echo_preserved_fields : UpdateBody → EnvironmentObject → UpdateBody
echo_preserved_fields body current = record body {
  auto_link = or_else body.auto_link current.auto_link;
  links = or_else body.links (some (build_update_links current.links));
  exclude_links = or_else body.exclude_links (some (build_existing_excludes current.exclude_links));
}

-- The body of patchVarLinks, and its call.
unfoldable pub patch_body :
    EnvironmentObject → Option (List Link) → Option (List ExcludeLink) → UpdateBody
patch_body current links exclude_links =
    echo_preserved_fields
      (record {
        environment_var = Option.map (λ (v : VarValue). v.value) current.environment_var;
        airflow_var = none;
        connection = none;
        metrics_export = none;
        auto_link = none;
        links = links;
        exclude_links = exclude_links;
      })
      current

abbrev pub patch_var_links :
    Platform
    → String
    → EnvironmentObject
    → Option (List Link)
    → Option (List ExcludeLink)
    → Result EnvError Call
patch_var_links p id current links exclude_links =
    context p >> ok (update_call id (patch_body current links exclude_links))

-- `*current.Id`, which resolveWorkspaceVar has found to be set.
abbrev pub id_of : EnvironmentObject → String
id_of obj = elim obj.id [ none ↦ "" | some id ↦ id ]

unfoldable pub link_request :
    Platform → String → Scope → String → Option String → Result EnvError Call
link_request p id_or_key scope dep override = do
  validate_deployment_id p dep
  current ← resolve_workspace_var p id_or_key scope false
  if exclude_exists current.exclude_links dep
      then err (is_excluded current.object_key)
      else patch_var_links p (id_of current) current
          (some (upsert_link_in_update_list current.links dep override)) none

unfoldable pub link_var : Platform → String → Scope → String → Option String → Command (Unit {0})
link_var p id_or_key scope dep override =
    perform (link_request p id_or_key scope dep override) (answer_unit p)

unfoldable pub unlink_request : Platform → String → Scope → String → Result EnvError Call
unlink_request p id_or_key scope dep = do
  validate_deployment_id p dep
  current ← resolve_workspace_var p id_or_key scope false
  if not (link_exists current.links dep)
      then err (not_linked current.object_key)
      else patch_var_links p (id_of current) current
          (some (build_update_links_excluding current.links dep)) none

unfoldable pub unlink_var : Platform → String → Scope → String → Command (Unit {0})
unlink_var p id_or_key scope dep = perform (unlink_request p id_or_key scope dep) (answer_unit p)
