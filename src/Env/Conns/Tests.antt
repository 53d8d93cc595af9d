-- ===== src/Env/Conns/Tests.antt =====
-- Connections at a concrete platform.
use astro_cli.Env.Conns.{
  create_conn, create_conn_request, update_conn, update_conn_request, update_conn_body,
  list_conns_by_key, list_conns,
}
use astro_cli.Env.Sends.{Sent, new_conn, run_update-Sent}
use astro_cli.Env.Examples.{workspace, object_of, platform_of}
use astro_cli.Env.Links.{
  echo_preserved_fields, build_update_links, to_update_link, build_existing_excludes,
  to_exclude_request,
}
use astro_cli.Env.Links.Patch.{patched_excludes, patched_links}
use astro_cli.Env.Objects.{
  normalize, normalize_list, object_id, get_object, build_list_params, validate, validate_auto_link,
  list_objects, list_pages,
}
use astro_cli.Env.{
  Connection, ObjectType, EnvironmentObject, Platform, Call, UpdateBody, update_call,
  conn_type_required,
}
use astro_cli.Prelude.{err, ◌∷◌, [], ok, true, ◌≡◌, false, String, refl, none, some}

abbrev conn : String → String → Connection
conn conn_type host = record {
  conn_type = conn_type;
  host = some host;
  login = none;
  password = none;
  schema = none;
  port = none;
  extra = none;
}

abbrev old : EnvironmentObject
old = object_of ObjectType.connection (some (conn "postgres" "a")) none

abbrev platform : Platform
platform = platform_of old

by_key_run :
    list_conns_by_key platform workspace false false ≡ ok (("KEY", conn "postgres" "a") ∷ [])
unfolding list_conns_by_key list_conns list_objects list_pages build_list_params validate
    normalize_list
by_key_run = refl

untyped : create_conn platform workspace "KEY" (conn "" "a") none ≡ ([], err conn_type_required)
unfolding create_conn create_conn_request validate validate_auto_link
untyped = refl

abbrev sent : Call
sent = update_call "obj" (record {
  environment_var = none;
  airflow_var = none;
  connection = some (conn "postgres" "b");
  metrics_export = none;
  auto_link = some true;
  links = old.links;
  exclude_links = old.exclude_links;
})

update_run : update_conn platform "KEY" workspace (conn "postgres" "b") none ≡ (sent ∷ [], ok old)
unfolding update_conn update_conn_request update_conn_body get_object object_id build_list_params
    validate validate_auto_link echo_preserved_fields build_update_links to_update_link
    build_existing_excludes to_exclude_request normalize normalize_list
update_run = refl

abbrev apply : UpdateBody → EnvironmentObject → EnvironmentObject
apply body current = record current {
  links = some (patched_links body current);
  exclude_links = some (patched_excludes body);
  auto_link = body.auto_link;
}

run_update-Sent_example :
    Sent apply platform "KEY" workspace (new_conn (conn "postgres" "b") none) sent
run_update-Sent_example =
    run_update-Sent apply (λ body current. refl) (λ body current. refl)
      (new_conn (conn "postgres" "b") none) platform "KEY" workspace update_run
