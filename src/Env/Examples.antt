-- ===== src/Env/Examples.antt =====
-- A platform for the tests of connections and metrics exports.
use astro_cli.Env.{
  Scope, ObjectType, Connection, MetricsExport, EnvironmentObject, Platform, workspace_scope,
  answered,
}
use astro_cli.Env.Links.{new_link}
use astro_cli.Prelude.{◌==◌, [], not, ◌∷◌, true, Option, some, none}

abbrev pub workspace : Scope
workspace = record { workspace_id = "ws"; deployment_id = "" }

-- It is linked to "d1" and excludes "d3".
abbrev pub object_of : ObjectType → Option Connection → Option MetricsExport → EnvironmentObject
object_of object_type connection metrics_export = record {
  id = some "obj";
  object_key = "KEY";
  object_type = object_type;
  scope = workspace_scope;
  scope_entity_id = "ws";
  auto_link = some true;
  links = some (new_link "d1" (some "one") ∷ []);
  exclude_links = some (record { scope = "DEPLOYMENT"; scope_entity_id = "d3" } ∷ []);
  environment_var = none;
  airflow_var = none;
  connection = connection;
  metrics_export = metrics_export;
}

-- The platform holds the object; every id but the key is a CUID.
abbrev pub platform_of : EnvironmentObject → Platform
platform_of obj = record {
  has_context = true;
  is_cuid = λ id. not (id == "KEY");
  get = λ id. answered obj;
  list = λ params. answered (record { objects = obj ∷ []; total_count = 1 });
  create = λ body. answered "new";
  update = λ id body. answered (some obj);
  delete = λ id. answered tt;
  exclude = λ id deployment. answered tt;
}
