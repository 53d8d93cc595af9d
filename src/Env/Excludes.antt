-- ===== src/Env/Excludes.antt =====
-- link.go: excluding deployments from a workspace's variable, and the report of its links.
pub mod Disjoint
pub mod Keep
use astro_cli.Prelude.{
  not, ◌∷◌, ok, if◌then◌else◌, none, ◌>>=◌, List, [], ◌>>◌, some, err, map, Bool, false, Option,
  Result, String,
}
use mathlib.Core.Option
use astro_cli.Env.{
  Scope, Link, ExcludeLink, EnvironmentObject, Call, EnvError, Platform, VarValue, exclude_call,
  is_linked, not_excluded,
}
use astro_cli.Env.Objects.{Command, perform, answer_unit, context}
use astro_cli.Env.Links.{
  validate_deployment_id, resolve_workspace_var, link_exists, exclude_exists,
  build_update_excludes_excluding, patch_var_links, id_of, deref_slice,
}

-- `none` is the success without a call: the deployment is excluded already.
unfoldable pub exclude_request : Platform → String → Scope → String → Result EnvError (Option Call)
exclude_request p id_or_key scope dep = do
  validate_deployment_id p dep
  current ← resolve_workspace_var p id_or_key scope false
  if link_exists current.links dep
      then err (is_linked current.object_key)
      else if exclude_exists current.exclude_links dep
      then ok none
      else context p >> ok (some (exclude_call (id_of current) dep))

abbrev pub perform_some :
    Result EnvError (Option Call) → (Call → Result EnvError (Unit {0})) → Command (Unit {0})
perform_some (err e) answer = ([], err e)
perform_some (ok none) answer = ([], ok tt)
perform_some (ok (some call)) answer = (call ∷ [], answer call)

unfoldable pub exclude_var : Platform → String → Scope → String → Command (Unit {0})
exclude_var p id_or_key scope dep =
    perform_some (exclude_request p id_or_key scope dep) (answer_unit p)

unfoldable pub unexclude_request : Platform → String → Scope → String → Result EnvError Call
unexclude_request p id_or_key scope dep = do
  validate_deployment_id p dep
  current ← resolve_workspace_var p id_or_key scope false
  if not (exclude_exists current.exclude_links dep)
      then err (not_excluded current.object_key)
      else patch_var_links p (id_of current) current none
          (some (build_update_excludes_excluding current.exclude_links dep))

unfoldable pub unexclude_var : Platform → String → Scope → String → Command (Unit {0})
unexclude_var p id_or_key scope dep =
    perform (unexclude_request p id_or_key scope dep) (answer_unit p)

-- VarLinksReport, with a VarLink as a deployment and its override.
pub record VarLinksReport : Type 0 where
  pub object_key : String
  pub object_id : String
  pub workspace_value : String
  pub is_secret : Bool
  pub auto_link_deployments : Bool
  pub links : List (String × Option String)
  pub exclude_links : List String

abbrev pub value_or : {A : Type 0} → A → Option A → A
value_or default none = default
value_or default (some a) = a

unfoldable pub report_of : EnvironmentObject → VarLinksReport
report_of current = record {
  object_key = current.object_key;
  object_id = id_of current;
  workspace_value = value_or "" (Option.map (λ (v : VarValue). v.value) current.environment_var);
  is_secret = value_or false (Option.map (λ (v : VarValue). v.is_secret) current.environment_var);
  auto_link_deployments = value_or false current.auto_link;
  links =
      map (λ (l : Link). (l.scope_entity_id, l.environment_variable_override))
        (deref_slice current.links);
  exclude_links = map (λ (e : ExcludeLink). e.scope_entity_id) (deref_slice current.exclude_links);
}

unfoldable pub list_var_links : Platform → String → Scope → Bool → Result EnvError VarLinksReport
list_var_links p id_or_key scope include_secrets = do
  current ← resolve_workspace_var p id_or_key scope include_secrets
  ok (report_of current)
