-- ===== src/Env/Conns.antt =====
-- conn.go: connections.
pub mod Update
mod Tests
use astro_cli.Prelude.{
  ◌==◌, if◌then◌else◌, [], ◌∷◌, false, ok, ◌>>◌, err, ◌>>=◌, List, none, some, Result, String, Bool,
  Option,
}
use astro_cli.Env.{
  Scope, ObjectType, Connection, EnvironmentObject, CreateBody, UpdateBody, Call, EnvError,
  Platform, create_call, update_call, conn_type_required,
}
use astro_cli.Env.Objects.{
  Command, perform, context, get_object, object_id, validate, validate_auto_link, scope_request,
  list_objects, delete_object,
}
use astro_cli.Env.Links.{echo_preserved_fields}
use astro_cli.Env.Vars.{answer_create, answer_update}

unfoldable pub list_conns :
    Platform → Scope → Bool → Bool → Result EnvError (List EnvironmentObject)
list_conns p scope resolve_linked include_secrets =
    list_objects p scope ObjectType.connection resolve_linked include_secrets

-- `out[key] = conn`
unfoldable pub put_conn :
    List (String × Connection) → String → Connection → List (String × Connection)
put_conn [] key conn = (key, conn) ∷ []
put_conn ((k, c) ∷ out) key conn =
    let rest = put_conn out key conn in if k == key then (k, conn) ∷ out else (k, c) ∷ rest

-- Objects without a connection are left out.
unfoldable pub put_object :
    List (String × Connection) → String → Option Connection → List (String × Connection)
unfolding put_conn
put_object out key none = out
put_object out key (some conn) = put_conn out key conn

unfoldable pub by_key :
    List (String × Connection) → List EnvironmentObject → List (String × Connection)
unfolding put_object
by_key out [] = out
by_key out (obj ∷ objs) = by_key (put_object out obj.object_key obj.connection) objs

unfoldable pub list_conns_by_key :
    Platform → Scope → Bool → Bool → Result EnvError (List (String × Connection))
unfolding by_key
list_conns_by_key p scope resolve_linked include_secrets =
    list_conns p scope resolve_linked include_secrets >>= (λ objs. ok (by_key [] objs))

unfoldable pub get_conn : Platform → String → Scope → Bool → Result EnvError EnvironmentObject
get_conn p id_or_key scope include_secrets =
    get_object p id_or_key scope ObjectType.connection include_secrets

abbrev pub require_type : Connection → Result EnvError (Unit {0})
require_type conn = if conn.conn_type == "" then err conn_type_required else ok tt

abbrev pub create_conn_body : Scope → String → Connection → Option Bool → CreateBody
create_conn_body scope key conn auto_link =
    let (scope_type, scope_entity_id) = scope_request scope in
    record {
      object_key = key;
      object_type = ObjectType.connection;
      scope = scope_type;
      scope_entity_id = scope_entity_id;
      environment_var = none;
      airflow_var = none;
      connection = some conn;
      metrics_export = none;
      auto_link = auto_link;
    }

unfoldable pub create_conn_request :
    Platform → Scope → String → Connection → Option Bool → Result EnvError Call
create_conn_request p scope key conn auto_link = do
  validate scope
  validate_auto_link scope auto_link
  require_type conn
  context p
  ok (create_call (create_conn_body scope key conn auto_link))

unfoldable pub create_conn :
    Platform → Scope → String → Connection → Option Bool → Command EnvironmentObject
create_conn p scope key conn auto_link =
    perform (create_conn_request p scope key conn auto_link)
      (λ call. answer_create p (create_conn_body scope key conn auto_link))

unfoldable pub update_conn_body : Connection → Option Bool → UpdateBody
update_conn_body conn auto_link = record {
  environment_var = none;
  airflow_var = none;
  connection = some conn;
  metrics_export = none;
  auto_link = auto_link;
  links = none;
  exclude_links = none;
}

unfoldable pub update_conn_request :
    Platform → String → Scope → Connection → Option Bool → Result EnvError Call
update_conn_request p id_or_key scope conn auto_link = do
  require_type conn
  validate_auto_link scope auto_link
  current ← get_object p id_or_key scope ObjectType.connection false
  id ← object_id current id_or_key
  context p
  ok (update_call id (echo_preserved_fields (update_conn_body conn auto_link) current))

unfoldable pub update_conn :
    Platform → String → Scope → Connection → Option Bool → Command EnvironmentObject
update_conn p id_or_key scope conn auto_link =
    perform (update_conn_request p id_or_key scope conn auto_link) (answer_update p)

unfoldable pub delete_conn : Platform → String → Scope → Command (Unit {0})
delete_conn p id_or_key scope = delete_object p id_or_key scope ObjectType.connection
