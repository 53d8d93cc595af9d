-- ===== src/Env/Metrics/Tests.antt =====
-- Metrics exports at a concrete platform.
use astro_cli.Env.Metrics.{
  MetricsInput, unless_empty, details_of, update_metrics_body, update_metrics_request,
  update_metrics_export, create_metrics_export, create_metrics_request,
}
use astro_cli.Env.Examples.{workspace, object_of, platform_of}
use astro_cli.Env.Links.{
  echo_preserved_fields, build_update_links, to_update_link, build_existing_excludes,
  to_exclude_request,
}
use astro_cli.Env.Links.Patch.{patched_excludes, patched_links}
use astro_cli.Env.Objects.{
  normalize, normalize_list, object_id, get_object, build_list_params, validate, validate_auto_link,
}
use astro_cli.Env.{
  ObjectType, EnvironmentObject, Platform, Call, UpdateBody, update_call, endpoint_required,
}
use astro_cli.Prelude.{ok, err, ◌∷◌, [], ◌≡◌, false, String, refl, none, some}

-- An endpoint, and a user's name.
abbrev given : String → MetricsInput
given endpoint = record {
  endpoint = endpoint;
  exporter_type = "";
  auth_type = "";
  basic_token = none;
  username = some "user";
  password = none;
  sig_v4_assume_arn = none;
  sig_v4_sts_region = none;
  headers = none;
  labels = none;
  auto_link = some false;
}

abbrev old : EnvironmentObject
old = object_of ObjectType.metrics_export none (
    some
      (record { endpoint = "a"; exporter_type = "PROMETHEUS"; details = details_of (given "a") }))

abbrev platform : Platform
platform = platform_of old

no_endpoint :
    create_metrics_export platform workspace "KEY" (given "") ≡ ([], err endpoint_required)
unfolding create_metrics_export create_metrics_request validate validate_auto_link
no_endpoint = refl

abbrev sent : Call
sent = update_call "obj" (record {
  environment_var = none;
  airflow_var = none;
  connection = none;
  metrics_export =
      some (record { endpoint = some "b"; exporter_type = none; details = details_of (given "b") });
  auto_link = some false;
  links = old.links;
  exclude_links = old.exclude_links;
})

update_run : update_metrics_export platform "KEY" workspace (given "b") ≡ (sent ∷ [], ok old)
unfolding update_metrics_export update_metrics_request update_metrics_body unless_empty get_object
    object_id build_list_params validate validate_auto_link echo_preserved_fields build_update_links
    to_update_link build_existing_excludes to_exclude_request normalize normalize_list
update_run = refl

abbrev apply : UpdateBody → EnvironmentObject → EnvironmentObject
apply body current = record current {
  links = some (patched_links body current);
  exclude_links = some (patched_excludes body);
  auto_link = body.auto_link;
}
