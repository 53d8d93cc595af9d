-- ===== src/Env/Metrics.antt =====
-- metrics.go: metrics exports.
pub mod Update
mod Tests
use astro_cli.Prelude.{
  ◌==◌, if◌then◌else◌, false, ok, ◌>>◌, err, ◌>>=◌, List, none, some, Result, String, Bool, Option,
}
use astro_cli.Env.{
  Scope, ObjectType, MetricsDetails, EnvironmentObject, CreateBody, UpdateBody, Call, EnvError,
  Platform, create_call, update_call, endpoint_required, exporter_type_required,
}
use astro_cli.Env.Objects.{
  Command, perform, context, get_object, object_id, validate, validate_auto_link, scope_request,
  list_objects, delete_object,
}
use astro_cli.Env.Links.{echo_preserved_fields}
use astro_cli.Env.Vars.{answer_create, answer_update}

-- `AuthType` is the empty string where it is left out; the other fields are pointers.
pub record MetricsInput : Type 0 where
  pub endpoint : String
  pub exporter_type : String
  pub auth_type : String
  pub basic_token : Option String
  pub username : Option String
  pub password : Option String
  pub sig_v4_assume_arn : Option String
  pub sig_v4_sts_region : Option String
  pub headers : Option (List (String × String))
  pub labels : Option (List (String × String))
  pub auto_link : Option Bool

unfoldable pub list_metrics_exports :
    Platform → Scope → Bool → Bool → Result EnvError (List EnvironmentObject)
list_metrics_exports p scope resolve_linked include_secrets =
    list_objects p scope ObjectType.metrics_export resolve_linked include_secrets

unfoldable pub get_metrics_export :
    Platform → String → Scope → Bool → Result EnvError EnvironmentObject
get_metrics_export p id_or_key scope include_secrets =
    get_object p id_or_key scope ObjectType.metrics_export include_secrets

-- A string that is empty is left out.
unfoldable pub unless_empty : String → Option String
unless_empty s = if s == "" then none else some s

unfoldable pub details_of : MetricsInput → MetricsDetails
unfolding unless_empty
details_of input = record {
  auth_type = unless_empty input.auth_type;
  basic_token = input.basic_token;
  username = input.username;
  password = input.password;
  sig_v4_assume_arn = input.sig_v4_assume_arn;
  sig_v4_sts_region = input.sig_v4_sts_region;
  headers = input.headers;
  labels = input.labels;
}

abbrev pub require_endpoint : MetricsInput → Result EnvError (Unit {0})
require_endpoint input =
    if input.endpoint == ""
    then err endpoint_required
    else if input.exporter_type == ""
    then err exporter_type_required
    else ok tt

abbrev pub create_metrics_body : Scope → String → MetricsInput → CreateBody
create_metrics_body scope key input =
    let (scope_type, scope_entity_id) = scope_request scope in
    record {
      object_key = key;
      object_type = ObjectType.metrics_export;
      scope = scope_type;
      scope_entity_id = scope_entity_id;
      environment_var = none;
      airflow_var = none;
      connection = none;
      metrics_export = some (record {
        endpoint = input.endpoint;
        exporter_type = input.exporter_type;
        details = details_of input;
      });
      auto_link = input.auto_link;
    }

unfoldable pub create_metrics_request :
    Platform → Scope → String → MetricsInput → Result EnvError Call
create_metrics_request p scope key input = do
  validate scope
  validate_auto_link scope input.auto_link
  require_endpoint input
  context p
  ok (create_call (create_metrics_body scope key input))

unfoldable pub create_metrics_export :
    Platform → Scope → String → MetricsInput → Command EnvironmentObject
create_metrics_export p scope key input =
    perform (create_metrics_request p scope key input)
      (λ call. answer_create p (create_metrics_body scope key input))

-- The update has a field for each input that is not left out.
unfoldable pub update_metrics_body : MetricsInput → UpdateBody
unfolding unless_empty details_of
update_metrics_body input = record {
  environment_var = none;
  airflow_var = none;
  connection = none;
  metrics_export = some (record {
    endpoint = unless_empty input.endpoint;
    exporter_type = unless_empty input.exporter_type;
    details = details_of input;
  });
  auto_link = input.auto_link;
  links = none;
  exclude_links = none;
}

unfoldable pub update_metrics_request :
    Platform → String → Scope → MetricsInput → Result EnvError Call
update_metrics_request p id_or_key scope input = do
  validate_auto_link scope input.auto_link
  current ← get_object p id_or_key scope ObjectType.metrics_export false
  id ← object_id current id_or_key
  context p
  ok (update_call id (echo_preserved_fields (update_metrics_body input) current))

unfoldable pub update_metrics_export :
    Platform → String → Scope → MetricsInput → Command EnvironmentObject
update_metrics_export p id_or_key scope input =
    perform (update_metrics_request p id_or_key scope input) (answer_update p)

unfoldable pub delete_metrics_export : Platform → String → Scope → Command (Unit {0})
delete_metrics_export p id_or_key scope = delete_object p id_or_key scope ObjectType.metrics_export
