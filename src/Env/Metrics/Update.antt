-- ===== src/Env/Metrics/Update.antt =====
-- UpdateMetricsExport sends what is given, and leaves the links of the object.
use astro_cli.Env.Links.Kept.{LinksKept, echo-LinksKept}
use astro_cli.Env.Links.Sends.{perform-call}
use astro_cli.Env.Links.Patch.{patched_excludes, patched_links}
use astro_cli.Env.Links.{or_else, echo_preserved_fields, deref_slice}
use astro_cli.Env.Objects.{context, get_object, object_id, validate_auto_link}
use astro_cli.Env.Vars.{answer_update}
use astro_cli.Env.Metrics.{
  MetricsInput, unless_empty, details_of, update_metrics_body, update_metrics_request,
  update_metrics_export,
}
use astro_cli.Prelude.{
  refl, none, [], some, true, bind-ok, ◌∷◌, ◌==◌, false, Result, ok, Option, String, ◌≡◌,
}
use astro_cli.Env.{
  update_call, MetricsUpdate, ObjectType, EnvironmentObject, UpdateBody, Call, EnvError, Platform,
  Scope,
}

update_metrics_request-ok :
    (p : Platform) (id_or_key : String) (scope : Scope) (input : MetricsInput) (call : Call)
    → update_metrics_request p id_or_key scope input ≡ ok call
    → (current : EnvironmentObject) × (id : String) × (validate_auto_link scope input.auto_link
        ≡ ok tt)
      × (get_object p id_or_key scope ObjectType.metrics_export false ≡ ok current)
      × (object_id current id_or_key ≡ ok id)
      × (call ≡ update_call id (echo_preserved_fields (update_metrics_body input) current))
unfolding update_metrics_request
update_metrics_request-ok p id_or_key scope input call h =
    let (v, linked, h1) = bind-ok (validate_auto_link scope input.auto_link) _ h in
    let (current, found, h2) =
      bind-ok (get_object p id_or_key scope ObjectType.metrics_export false) _ h1 in
    let (id, has_id, h3) = bind-ok (object_id current id_or_key) _ h2 in
    let (w, ctx, h4) = bind-ok (context p) _ h3 in (current, id, linked, found, has_id, cc)

-- A text is sent exactly if it is not empty.
abbrev pub SentText : String → Option String → Type 0
SentText s sent = ((s == "") ≡ true → sent ≡ none) × ((s == "") ≡ false → sent ≡ some s)

abbrev pub UpdateOf : MetricsInput → MetricsUpdate → Type 0
UpdateOf input update =
    SentText input.endpoint update.endpoint
    × SentText input.exporter_type update.exporter_type
    × SentText input.auth_type update.details.auth_type
    × (update.details ≡ details_of input)

unless_empty-SentText : (s : String) → SentText s (unless_empty s)
unfolding unless_empty
unless_empty-SentText s = (λ e. rw e refl, λ e. rw e refl)

abbrev pub MetricsSent :
    (UpdateBody → EnvironmentObject → EnvironmentObject)
    → Platform
    → String
    → Scope
    → MetricsInput
    → Call
    → Type 0
MetricsSent apply p id_or_key scope input call =
    (current : EnvironmentObject) × (id : String) × (body : UpdateBody) × (update : MetricsUpdate)
    × (validate_auto_link scope input.auto_link ≡ ok tt)
    × (get_object p id_or_key scope ObjectType.metrics_export false ≡ ok current)
    × (object_id current id_or_key ≡ ok id)
    × (call ≡ update_call id body)
    × ((body.metrics_export ≡ some update)
        × (body.auto_link ≡ or_else input.auto_link current.auto_link))
    × UpdateOf input update
    × LinksKept apply body current

module _ (apply : UpdateBody → EnvironmentObject → EnvironmentObject)
    (apply_links : (body : UpdateBody) (current : EnvironmentObject)
      → deref_slice (apply body current).links ≡ patched_links body current)
    (apply_excludes : (body : UpdateBody) (current : EnvironmentObject)
      → deref_slice (apply body current).exclude_links ≡ patched_excludes body) where
  -- On a platform whose update replaces both lists as documented, an update of a metrics export
  -- that makes a call was given an auto-link flag that its scope allows, has found the object, and
  -- makes one update of it, in which the endpoint, the exporter type and the authentication type
  -- stand exactly if they are not empty, with the other inputs and the caller's auto-link flag or
  -- else the object's; after it every deployment has the link that it had, with the overrides of
  -- every kind, and the excluded deployments are the same.
  pub update_metrics_export_sends :
      (p : Platform) (id_or_key : String) (scope : Scope) (input : MetricsInput) {call : Call}
      {result : Result EnvError EnvironmentObject}
      → update_metrics_export p id_or_key scope input ≡ (call ∷ [], result)
      → MetricsSent apply p id_or_key scope input call
  unfolding update_metrics_export update_metrics_body echo_preserved_fields details_of
  update_metrics_export_sends p id_or_key scope input {call} {result} h =
      let (current, id, linked, found, has_id, sent) =
        update_metrics_request-ok p id_or_key scope input call (
          perform-call (update_metrics_request p id_or_key scope input) (answer_update p) call
            result h) in
      (
        current,
        id,
        echo_preserved_fields (update_metrics_body input) current,
        _,
        linked,
        found,
        has_id,
        sent,
        (refl, refl),
        (
          unless_empty-SentText input.endpoint,
          unless_empty-SentText input.exporter_type,
          unless_empty-SentText input.auth_type,
          refl,
        ),
        echo-LinksKept apply apply_links apply_excludes (update_metrics_body input) current refl
            refl,
      )
