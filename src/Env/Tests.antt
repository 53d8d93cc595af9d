-- ===== src/Env/Tests.antt =====
-- The theorems on environment objects at a concrete platform.
use astro_cli.Env.Excludes.Keep.{request_of-IsDisjoint, effect}
use astro_cli.Env.Excludes.Disjoint.{exclude, request_of, IsDisjoint}
use astro_cli.Env.Sends.{Linked, link, run_link-Linked}
use astro_cli.Env.Vars.{update_body, env, update_request, update_var}
use astro_cli.Env.Excludes.{exclude_request, value_or}
use astro_cli.Env.Objects.Complete.{page_of, list_objects_complete}
use astro_cli.Env.Links.{
  deref_slice, build_update_links, to_exclude_request, build_existing_excludes,
  echo_preserved_fields, to_update_link, build_update_links_excluding, upsert_link_in_update_list,
  patch_body, link_exists, exclude_exists, resolve_workspace_var, validate_deployment_id,
  unlink_request, link_request, unlink_var, link_var, new_link,
}
use astro_cli.Env.Links.Patch.{patched_excludes, patched_links}
use astro_cli.Env.Objects.{
  normalize, normalize_list, object_id, get_object, build_list_params, validate, list_objects,
}
use astro_cli.Prelude.{
  String, err, List, refl, arith, [], none, ok, ◌∷◌, ◌≡◌, false, ◌==◌, not, true, some,
}
use astro_cli.Env.{
  exclude_call, is_excluded, update_call, Call, Link, answered, workspace_scope,
  environment_variable, UpdateBody, EnvironmentObject, Scope, Platform,
}

abbrev workspace : Scope
workspace = record { workspace_id = "ws"; deployment_id = "" }

-- A variable that is linked to "d1" and "d2", and excludes "d3".
abbrev variable : EnvironmentObject
variable = record {
  id = some "obj";
  object_key = "KEY";
  object_type = environment_variable;
  scope = workspace_scope;
  scope_entity_id = "ws";
  auto_link = some true;
  links = some (new_link "d1" (some "one") ∷ new_link "d2" none ∷ []);
  exclude_links = some (record { scope = "DEPLOYMENT"; scope_entity_id = "d3" } ∷ []);
  environment_var = some (record { value = "v"; is_secret = false });
  airflow_var = none;
  connection = none;
  metrics_export = none;
}

-- The platform holds the variable; every id but the key is a CUID.
abbrev platform : Platform
platform = record {
  has_context = true;
  is_cuid = λ id. not (id == "KEY");
  get = λ id. answered variable;
  list = λ params. answered (page_of params.limit (variable ∷ []) (value_or 0 params.offset));
  create = λ body. answered "new";
  update = λ id body. answered (some variable);
  delete = λ id. answered tt;
  exclude = λ id deployment. answered tt;
}

-- The documented update.
abbrev apply : UpdateBody → EnvironmentObject → EnvironmentObject
apply body current = record current {
  links = some (patched_links body current);
  exclude_links = some (patched_excludes body);
  auto_link = body.auto_link;
}

list_objects-complete_example :
    list_objects platform workspace environment_variable false false ≡ ok (variable ∷ [])
unfolding validate build_list_params
list_objects-complete_example =
    list_objects_complete platform workspace environment_variable false false (variable ∷ []) refl
      refl (λ offset. refl) (omega arith)

-- The links of the variable that a request sends.
abbrev sent : List Link → Call
sent links = update_call "obj" (record {
  environment_var = some "v";
  airflow_var = none;
  connection = none;
  metrics_export = none;
  auto_link = some true;
  links = some links;
  exclude_links = some (record { scope = "DEPLOYMENT"; scope_entity_id = "d3" } ∷ []);
})

abbrev links_after : List Link
links_after = new_link "d1" (some "one") ∷ new_link "d2" none ∷ new_link "d4" (some "four") ∷ []

link_run : link_var platform "KEY" workspace "d4" (some "four") ≡ (sent links_after ∷ [], ok tt)
unfolding link_var link_request validate_deployment_id resolve_workspace_var get_object object_id
    build_list_params exclude_exists patch_body upsert_link_in_update_list to_update_link
    echo_preserved_fields build_existing_excludes to_exclude_request normalize normalize_list
    validate
link_run = refl

unlink_run : unlink_var platform "KEY" workspace "d1" ≡ (sent (new_link "d2" none ∷ []) ∷ [], ok tt)
unfolding unlink_var unlink_request validate_deployment_id resolve_workspace_var get_object
    object_id build_list_params link_exists patch_body build_update_links_excluding to_update_link
    echo_preserved_fields build_existing_excludes to_exclude_request normalize normalize_list
    validate
unlink_run = refl

run_link-Linked_example :
    Linked apply platform "KEY" workspace "d4" (link (some "four")) (sent links_after)
run_link-Linked_example =
    run_link-Linked apply (λ body current. refl) (link (some "four")) platform "KEY" workspace "d4"
      link_run

-- A deployment that is excluded is not linked, and no call is made.
link_excluded : link_var platform "KEY" workspace "d3" none ≡ ([], err (is_excluded "KEY"))
unfolding link_var link_request validate_deployment_id resolve_workspace_var get_object object_id
    build_list_params exclude_exists normalize_list validate
link_excluded = refl

-- An update keeps the links, since it sends them again.
abbrev updated : Call
updated = update_call "obj" (record {
  environment_var = some "new";
  airflow_var = none;
  connection = none;
  metrics_export = none;
  auto_link = some true;
  links = variable.links;
  exclude_links = variable.exclude_links;
})

update_run : update_var env platform "KEY" workspace "new" none ≡ (updated ∷ [], ok variable)
unfolding update_var update_request get_object object_id build_list_params update_body
    echo_preserved_fields build_update_links to_update_link build_existing_excludes
    to_exclude_request normalize normalize_list validate
update_run = refl

-- The documented exclusion.
abbrev add_exclude : String → EnvironmentObject → EnvironmentObject
add_exclude dep current = record current {
  exclude_links =
      some (
        record { scope = "DEPLOYMENT"; scope_entity_id = dep } ∷ deref_slice current.exclude_links);
}

exclude_run :
    request_of platform "KEY" workspace (exclude "d5") ≡ ok (some (exclude_call "obj" "d5"))
unfolding exclude_request validate_deployment_id resolve_workspace_var get_object object_id
    build_list_params link_exists exclude_exists normalize_list validate
exclude_run = refl

request_of-IsDisjoint_example :
    (current : EnvironmentObject) × (resolve_workspace_var platform "KEY" workspace false
      ≡ ok current)
    × (IsDisjoint current → IsDisjoint (effect apply add_exclude (exclude_call "obj" "d5") current))
request_of-IsDisjoint_example =
    request_of-IsDisjoint apply (λ body current. refl) (λ body current. refl) add_exclude
      (λ dep current. refl) (λ dep j current. refl) platform "KEY" workspace (exclude "d5")
      exclude_run
