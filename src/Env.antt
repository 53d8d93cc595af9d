-- ===== src/Env.antt =====
-- cloud/env: environment objects of a workspace or a deployment. The types are those of
-- astro-client-v1, with the fields that the package reads or writes. The platform is a parameter:
-- `Platform` holds its answers, and a command returns the calls that it made beside its result.
pub mod Objects
pub mod Links
pub mod Excludes
pub mod Vars
pub mod Conns
pub mod Metrics
pub mod Format
pub mod Sends
mod Examples
mod Tests
use astro_cli.Prelude.Int.{ℤ}
use astro_cli.Prelude.{ℕ, String, Bool, Option, List, Result}

-- At most one of the two is set, and exactly one after `validate`.
pub record Scope : Type 0 where
  pub workspace_id : String
  pub deployment_id : String

pub data ObjectType : Type 0 where
  environment_variable airflow_variable connection metrics_export : ObjectType

pub data ObjectScope : Type 0 where
  workspace_scope deployment_scope : ObjectScope

-- The value of an environment variable or of an Airflow variable.
pub record VarValue : Type 0 where
  pub value : String
  pub is_secret : Bool

-- A connection, as an object has it and as requests send it. `extra` is the map's JSON, which is
-- only passed on.
pub record Connection : Type 0 where
  pub conn_type : String
  pub host : Option String
  pub login : Option String
  pub password : Option String
  pub schema : Option String
  pub port : Option ℤ
  pub extra : Option String

-- The parts of a metrics export that an update may leave out in the same way as a create.
pub record MetricsDetails : Type 0 where
  pub auth_type : Option String
  pub basic_token : Option String
  pub username : Option String
  pub password : Option String
  pub sig_v4_assume_arn : Option String
  pub sig_v4_sts_region : Option String
  pub headers : Option (List (String × String))
  pub labels : Option (List (String × String))

pub record MetricsExport : Type 0 where
  pub endpoint : String
  pub exporter_type : String
  pub details : MetricsDetails

pub record MetricsUpdate : Type 0 where
  pub endpoint : Option String
  pub exporter_type : Option String
  pub details : MetricsDetails

-- The fields of a connection that a link overrides.
pub record ConnectionOverrides : Type 0 where
  pub conn_type : Option String
  pub host : Option String
  pub login : Option String
  pub password : Option String
  pub schema : Option String
  pub port : Option ℤ
  pub extra : Option String

-- A link as the platform returns it, and as an update sends it, with the overrides of the four
-- kinds of objects; that of a variable is its value.
pub record Link : Type 0 where
  pub scope : String
  pub scope_entity_id : String
  pub environment_variable_override : Option String
  pub airflow_variable_override : Option String
  pub connection_overrides : Option ConnectionOverrides
  pub metrics_export_overrides : Option MetricsUpdate

pub record ExcludeLink : Type 0 where
  pub scope : String
  pub scope_entity_id : String

pub record EnvironmentObject : Type 0 where
  pub id : Option String
  pub object_key : String
  pub object_type : ObjectType
  pub scope : ObjectScope
  pub scope_entity_id : String
  pub auto_link : Option Bool
  pub links : Option (List Link)
  pub exclude_links : Option (List ExcludeLink)
  pub environment_var : Option VarValue
  pub airflow_var : Option VarValue
  pub connection : Option Connection
  pub metrics_export : Option MetricsExport

pub record CreateBody : Type 0 where
  pub object_key : String
  pub object_type : ObjectType
  pub scope : ObjectScope
  pub scope_entity_id : String
  pub environment_var : Option VarValue
  pub airflow_var : Option VarValue
  pub connection : Option Connection
  pub metrics_export : Option MetricsExport
  pub auto_link : Option Bool

-- What is `none` is left out of the request.
pub record UpdateBody : Type 0 where
  pub environment_var : Option String
  pub airflow_var : Option String
  pub connection : Option Connection
  pub metrics_export : Option MetricsUpdate
  pub auto_link : Option Bool
  pub links : Option (List Link)
  pub exclude_links : Option (List ExcludeLink)

pub record ListParams : Type 0 where
  pub object_type : ObjectType
  pub object_key : Option String
  pub show_secrets : Bool
  pub resolve_linked : Bool
  pub limit : ℕ
  pub offset : Option ℕ
  pub workspace_id : Option String
  pub deployment_id : Option String

pub record Page : Type 0 where
  pub objects : List EnvironmentObject
  pub total_count : ℕ

pub data Call : Type 0 where
  create_call : CreateBody → Call
  update_call : String → UpdateBody → Call
  delete_call : String → Call
  exclude_call : String → String → Call

pub data EnvError : Type 0 where
  scope_not_specified scope_ambiguous auto_link_requires_workspace : EnvError
  not_found no_id transport_failed api_error : String → EnvError
  secrets_fetching_not_allowed no_context aborted empty_response : EnvError
  conn_type_required endpoint_required exporter_type_required : EnvError
  empty_deployment_id linking_requires_workspace : EnvError
  invalid_deployment_id not_workspace_scoped : String → EnvError
  is_excluded not_linked is_linked not_excluded : String → EnvError

-- A request fails on the way, is refused with a message (NormalizeAPIError), or is answered.
pub data Response {ℓ} (A : Type ℓ) : Type ℓ where
  failed refused : String → Response A
  answered : A → Response A

-- `has_context` is GetCurrentContext; `is_cuid` is util.IsCUID, which asks lucsky/cuid.
pub record Platform : Type 0 where
  pub has_context : Bool
  pub is_cuid : String → Bool
  pub get : String → Response EnvironmentObject
  pub list : ListParams → Response Page
  pub create : CreateBody → Response String
  pub update : String → UpdateBody → Response (Option EnvironmentObject)
  pub delete : String → Response (Unit {0})
  pub exclude : String → String → Response (Unit {0})
