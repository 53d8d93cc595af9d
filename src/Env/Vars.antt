-- ===== src/Env/Vars.antt =====
-- var.go and airflow_var.go: the two kinds of variables, whose commands mirror one another.
pub mod Update
use astro_cli.Prelude.{false, ok, ◌>>◌, err, ◌>>=◌, List, none, some, Result, String, Bool, Option}
use astro_cli.Env.{
  Scope, ObjectType, EnvironmentObject, CreateBody, UpdateBody, Call, EnvError, Platform,
  environment_variable, airflow_variable, create_call, update_call, empty_response,
}
use astro_cli.Env.Objects.{
  Command, perform, context, get_object, object_id, validate, validate_auto_link, scope_request,
  list_objects, delete_object, normalize,
}
use astro_cli.Env.Links.{echo_preserved_fields}

-- The two types that hold a plain value.
pub data VarKind : Type 0 where
  env airflow : VarKind

abbrev pub type_of : VarKind → ObjectType
type_of env = environment_variable
type_of airflow = airflow_variable

-- The value stands in the field of its kind.
abbrev pub env_field {ℓ} : {A : Type ℓ} → VarKind → A → Option A
env_field env a = some a
env_field airflow a = none

abbrev pub airflow_field {ℓ} : {A : Type ℓ} → VarKind → A → Option A
airflow_field env a = none
airflow_field airflow a = some a

unfoldable pub list_vars :
    VarKind → Platform → Scope → Bool → Bool → Result EnvError (List EnvironmentObject)
list_vars kind p scope resolve_linked include_secrets =
    list_objects p scope (type_of kind) resolve_linked include_secrets

unfoldable pub get_var :
    VarKind → Platform → String → Scope → Bool → Result EnvError EnvironmentObject
get_var kind p id_or_key scope include_secrets =
    get_object p id_or_key scope (type_of kind) include_secrets

abbrev pub create_body : VarKind → Scope → String → String → Bool → Option Bool → CreateBody
create_body kind scope key value is_secret auto_link =
    let (scope_type, scope_entity_id) = scope_request scope in
    record {
      object_key = key;
      object_type = type_of kind;
      scope = scope_type;
      scope_entity_id = scope_entity_id;
      environment_var = env_field kind (record { value = value; is_secret = is_secret });
      airflow_var = airflow_field kind (record { value = value; is_secret = is_secret });
      connection = none;
      metrics_export = none;
      auto_link = auto_link;
    }

unfoldable pub create_request :
    VarKind → Platform → Scope → String → String → Bool → Option Bool → Result EnvError Call
create_request kind p scope key value is_secret auto_link = do
  validate scope
  validate_auto_link scope auto_link
  context p
  ok (create_call (create_body kind scope key value is_secret auto_link))

-- The object that is returned is made of the inputs and the id of the response.
abbrev pub created : CreateBody → String → EnvironmentObject
created body id = record {
  id = some id;
  object_key = body.object_key;
  object_type = body.object_type;
  scope = body.scope;
  scope_entity_id = body.scope_entity_id;
  auto_link = none;
  links = none;
  exclude_links = none;
  environment_var = body.environment_var;
  airflow_var = body.airflow_var;
  connection = body.connection;
  metrics_export = body.metrics_export;
}

abbrev pub answer_create : Platform → CreateBody → Result EnvError EnvironmentObject
answer_create p body = normalize (p.create body) >>= λ id. ok (created body id)

unfoldable pub create_var :
    VarKind → Platform → Scope → String → String → Bool → Option Bool → Command EnvironmentObject
create_var kind p scope key value is_secret auto_link =
    perform (create_request kind p scope key value is_secret auto_link)
      (λ call. answer_create p (create_body kind scope key value is_secret auto_link))

unfoldable pub update_body : VarKind → String → Option Bool → EnvironmentObject → UpdateBody
update_body kind value auto_link current =
    echo_preserved_fields
      (record {
        environment_var = env_field kind value;
        airflow_var = airflow_field kind value;
        connection = none;
        metrics_export = none;
        auto_link = auto_link;
        links = none;
        exclude_links = none;
      })
      current

abbrev pub or_empty : Option EnvironmentObject → Result EnvError EnvironmentObject
or_empty none = err empty_response
or_empty (some obj) = ok obj

abbrev pub answer_update : Platform → Call → Result EnvError EnvironmentObject
answer_update p (update_call id body) = normalize (p.update id body) >>= or_empty
answer_update p call = err empty_response

unfoldable pub update_request :
    VarKind → Platform → String → Scope → String → Option Bool → Result EnvError Call
update_request kind p id_or_key scope value auto_link = do
  current ← get_object p id_or_key scope (type_of kind) false
  id ← object_id current id_or_key
  context p
  ok (update_call id (update_body kind value auto_link current))

unfoldable pub update_var :
    VarKind → Platform → String → Scope → String → Option Bool → Command EnvironmentObject
update_var kind p id_or_key scope value auto_link =
    perform (update_request kind p id_or_key scope value auto_link) (answer_update p)

unfoldable pub delete_var : VarKind → Platform → String → Scope → Command (Unit {0})
delete_var kind p id_or_key scope = delete_object p id_or_key scope (type_of kind)
