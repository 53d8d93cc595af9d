-- ===== src/Env/Objects.antt =====
-- objects.go and errors.go: scopes, reading objects, and what every command shares.
pub mod Complete
use astro_cli.Prelude.{
  contains_text, is_prefix, zero, leb, ltb, ◌++◌, find_by, length, codes, eqb, suc, [], some,
  to_lower, ◌||◌, false, not, ◌&&◌, ◌>>=◌, ◌∷◌, ◌>>◌, ◌==◌, err, map, true, none, ok, if◌then◌else◌,
  Bool, ℕ, List, Option, String, Result,
}
use astro_cli.Env.{
  Scope, ObjectType, ObjectScope, EnvironmentObject, ListParams, Page, Call, EnvError, Response,
  Platform, failed, refused, answered, workspace_scope, deployment_scope, scope_not_specified,
  scope_ambiguous, auto_link_requires_workspace, not_found, no_id, transport_failed, api_error,
  secrets_fetching_not_allowed, no_context, aborted, delete_call,
}

unfoldable pub validate : Scope → Result EnvError (Unit {0})
validate s =
    if s.workspace_id == "" && s.deployment_id == ""
    then err scope_not_specified
    else if not (s.workspace_id == "") && not (s.deployment_id == "")
    then err scope_ambiguous
    else ok tt

unfoldable pub scope_from_ids : String → String → Scope
scope_from_ids workspace_id deployment_id =
    if not (deployment_id == "")
    then record { workspace_id = ""; deployment_id = deployment_id }
    else record { workspace_id = workspace_id; deployment_id = "" }

-- scopeRequest
unfoldable pub scope_request : Scope → ObjectScope × String
scope_request s =
    if not (s.deployment_id == "")
    then (deployment_scope, s.deployment_id)
    else (workspace_scope, s.workspace_id)

unfoldable pub validate_auto_link : Scope → Option Bool → Result EnvError (Unit {0})
validate_auto_link s none = ok tt
validate_auto_link s (some auto_link) =
    if auto_link && not (s.deployment_id == "") then err auto_link_requires_workspace else ok tt

unfoldable pub build_list_params : Scope → ObjectType → Option String → Bool → Bool → ℕ → ListParams
build_list_params s object_type object_key resolve_linked include_secrets limit = record {
  object_type = object_type;
  object_key = object_key;
  show_secrets = include_secrets;
  resolve_linked = resolve_linked;
  limit = limit;
  offset = none;
  workspace_id = if not (s.workspace_id == "") then some s.workspace_id else none;
  deployment_id =
      if s.workspace_id == "" && not (s.deployment_id == "") then some s.deployment_id else none;
}

-- IsSecretsFetchingNotAllowedError, of the message of an API error, which wraps no other error.
unfoldable pub is_secrets_fetching_not_allowed : String → Bool
is_secrets_fetching_not_allowed message =
    let text = map to_lower (codes message) in
    contains_text text (codes "showsecrets")
    && contains_text text (codes "organization")
    && contains_text text (codes "not allowed")

-- The error of a response, with NormalizeAPIError.
unfoldable pub normalize {ℓ} : {A : Type ℓ} → Response A → Result EnvError A
normalize (failed message) = err (transport_failed message)
normalize (refused message) = err (api_error message)
normalize (answered a) = ok a

-- normalizeListErr replaces the refusal of secrets.
unfoldable pub normalize_list {ℓ} : {A : Type ℓ} → Response A → Result EnvError A
normalize_list (failed message) = err (transport_failed message)
normalize_list (refused message) =
    if is_secrets_fetching_not_allowed message
    then err secrets_fetching_not_allowed
    else err (api_error message)
normalize_list (answered a) = ok a

-- config.GetCurrentContext
abbrev pub context : Platform → Result EnvError (Unit {0})
context p = if p.has_context then ok tt else err no_context

-- The loop of listObjects: `pages` is what is left of maxListPages.
unfoldable pub list_pages :
    (ℕ → Result EnvError Page)
    → ℕ
    → ℕ
    → List EnvironmentObject
    → Result EnvError (List EnvironmentObject)
list_pages fetch limit zero all = err aborted
list_pages fetch limit (suc pages) all = do
  page ← fetch (length all)
  let next = all ++ page.objects
  let more = list_pages fetch limit pages next
  if ltb (length page.objects) limit || leb page.total_count (length next) then ok next else more

abbrev pub default_list_limit : ℕ
default_list_limit = 1000

abbrev pub max_list_pages : ℕ
max_list_pages = 100

unfoldable pub list_objects :
    Platform → Scope → ObjectType → Bool → Bool → Result EnvError (List EnvironmentObject)
list_objects p scope object_type resolve_linked include_secrets = do
  validate scope
  context p
  let params =
      build_list_params scope object_type none resolve_linked include_secrets default_list_limit
  list_pages (λ offset. normalize_list (p.list (record params { offset = some offset })))
      default_list_limit max_list_pages []

abbrev pub or_not_found : String → Option EnvironmentObject → Result EnvError EnvironmentObject
or_not_found key none = err (not_found key)
or_not_found key (some obj) = ok obj

abbrev pub has_key : String → EnvironmentObject → Bool
has_key key obj = obj.object_key == key

unfoldable pub get_object :
    Platform → String → Scope → ObjectType → Bool → Result EnvError EnvironmentObject
get_object p id_or_key scope object_type include_secrets = do
  context p
  if p.is_cuid id_or_key then normalize (p.get id_or_key) else do
    validate scope
    page ←
        normalize_list
          (p.list (build_list_params scope object_type (some id_or_key) false include_secrets 2))
    or_not_found id_or_key (find_by (has_key id_or_key) page.objects)

abbrev pub id_or_error : String → Option String → Result EnvError String
id_or_error id_or_key none = err (no_id id_or_key)
id_or_error id_or_key (some id) = if id == "" then err (no_id id_or_key) else ok id

unfoldable pub object_id : EnvironmentObject → String → Result EnvError String
object_id obj id_or_key = id_or_error id_or_key obj.id

unfoldable pub resolve_id : Platform → String → Scope → ObjectType → Result EnvError String
resolve_id p id_or_key scope object_type =
    if p.is_cuid id_or_key
    then ok id_or_key
    else do existing ← get_object p id_or_key scope object_type false; object_id existing id_or_key

-- A command: the calls that change the platform, and the result.
abbrev pub Command : Type 0 → Type 0
Command A = List Call × Result EnvError A

-- Nothing is called after an error; otherwise one call is made.
abbrev pub perform : {A : Type 0} → Result EnvError Call → (Call → Result EnvError A) → Command A
perform (err e) answer = ([], err e)
perform (ok call) answer = (call ∷ [], answer call)

abbrev pub delete_request : Platform → String → Scope → ObjectType → Result EnvError Call
delete_request p id_or_key scope object_type = do
  id ← resolve_id p id_or_key scope object_type
  context p
  ok (delete_call id)

-- What the platform answers to a call that returns nothing.
abbrev pub answer_unit : Platform → Call → Result EnvError (Unit {0})
answer_unit p (delete_call id) = normalize (p.delete id)
answer_unit p (Call.exclude_call id deployment) = normalize (p.exclude id deployment)
answer_unit p (Call.update_call id body) = normalize (p.update id body) >> ok tt
answer_unit p (Call.create_call body) = normalize (p.create body) >> ok tt

unfoldable pub delete_object : Platform → String → Scope → ObjectType → Command (Unit {0})
delete_object p id_or_key scope object_type =
    perform (delete_request p id_or_key scope object_type) (answer_unit p)
