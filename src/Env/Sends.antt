-- ===== src/Env/Sends.antt =====
-- The updates of the three kinds of objects, and the two commands on links, together.
use astro_cli.Prelude.{[], ◌∷◌, Result, List, Bool, ◌≡◌, Option, String}
use astro_cli.Env.{Connection, EnvironmentObject, UpdateBody, Call, EnvError, Platform, Scope}
use astro_cli.Env.Links.{deref_slice, link_var, unlink_var}
use astro_cli.Env.Links.Patch.{patched_links, patched_excludes}
use astro_cli.Env.Links.Sends.{LinkSent, UnlinkSent, link_var_sends, unlink_var_sends}
use astro_cli.Env.Vars.{VarKind, update_var}
use astro_cli.Env.Vars.Update.{UpdateSent, update_var_sends}
use astro_cli.Env.Conns.{update_conn}
use astro_cli.Env.Conns.Update.{ConnSent, update_conn_sends}
use astro_cli.Env.Metrics.{MetricsInput, update_metrics_export}
use astro_cli.Env.Metrics.Update.{MetricsSent, update_metrics_export_sends}

-- The new value of a variable, a connection or a metrics export.
pub data Update : Type 0 where
  new_var : VarKind → String → Option Bool → Update
  new_conn : Connection → Option Bool → Update
  new_metrics : MetricsInput → Update

abbrev pub run_update :
    Platform → String → Scope → Update → List Call × Result EnvError EnvironmentObject
run_update p id_or_key scope (new_var kind value auto_link) =
    update_var kind p id_or_key scope value auto_link
run_update p id_or_key scope (new_conn conn auto_link) =
    update_conn p id_or_key scope conn auto_link
run_update p id_or_key scope (new_metrics input) = update_metrics_export p id_or_key scope input

abbrev pub Sent :
    (UpdateBody → EnvironmentObject → EnvironmentObject)
    → Platform
    → String
    → Scope
    → Update
    → Call
    → Type 0
Sent apply p id_or_key scope (new_var kind value auto_link) call =
    UpdateSent apply kind p id_or_key scope value auto_link call
Sent apply p id_or_key scope (new_conn conn auto_link) call =
    ConnSent apply p id_or_key scope conn auto_link call
Sent apply p id_or_key scope (new_metrics input) call =
    MetricsSent apply p id_or_key scope input call

-- LinkVar with an override that may be left out, and UnlinkVar.
pub data LinkCommand : Type 0 where
  link : Option String → LinkCommand
  unlink : LinkCommand

abbrev pub run_link :
    Platform → String → Scope → String → LinkCommand → List Call × Result EnvError (Unit {0})
run_link p id_or_key scope dep (link override) = link_var p id_or_key scope dep override
run_link p id_or_key scope dep unlink = unlink_var p id_or_key scope dep

abbrev pub Linked :
    (UpdateBody → EnvironmentObject → EnvironmentObject)
    → Platform
    → String
    → Scope
    → String
    → LinkCommand
    → Call
    → Type 0
Linked apply p id_or_key scope dep (link override) call =
    LinkSent apply p id_or_key scope dep override call
Linked apply p id_or_key scope dep unlink call = UnlinkSent apply p id_or_key scope dep call

module _ (apply : UpdateBody → EnvironmentObject → EnvironmentObject)
    (apply_links : (body : UpdateBody) (current : EnvironmentObject)
      → deref_slice (apply body current).links ≡ patched_links body current) where
  -- On a platform whose update replaces the links as documented, LinkVar or UnlinkVar that makes a
  -- call has found the variable and makes one update of it, after which every other deployment is
  -- linked as before, with the environment variable override that it had. LinkVar found a variable
  -- that does not exclude the deployment, and leaves the deployment linked with the override given,
  -- or the one it had; UnlinkVar found a variable that is linked to the deployment, and leaves the
  -- deployment without a link.
  pub run_link-Linked :
      (command : LinkCommand) (p : Platform) (id_or_key : String) (scope : Scope) (dep : String)
      {call : Call} {result : Result EnvError (Unit {0})}
      → run_link p id_or_key scope dep command ≡ (call ∷ [], result)
      → Linked apply p id_or_key scope dep command call
  run_link-Linked (link override) p id_or_key scope dep h =
      link_var_sends apply apply_links p id_or_key scope dep override h
  run_link-Linked unlink p id_or_key scope dep h =
      unlink_var_sends apply apply_links p id_or_key scope dep h

  module _
      (apply_excludes : (body : UpdateBody) (current : EnvironmentObject)
        → deref_slice (apply body current).exclude_links ≡ patched_excludes body) where
    -- On a platform whose update replaces both lists as documented, an update of a variable, a
    -- connection or a metrics export that makes a call has found the object and makes one update of
    -- it, with the caller's auto-link flag or else the object's, after which every deployment has
    -- the link that it had, with the overrides of every kind, and the excluded deployments are
    -- the same. The body holds a variable's value in the field of its kind, the connection, which
    -- has a type, or of a metrics export the endpoint, exporter type and authentication type
    -- exactly if they are not empty; for the latter two kinds the scope allows the auto-link flag.
    pub run_update-Sent :
        (new : Update) (p : Platform) (id_or_key : String) (scope : Scope) {call : Call}
        {result : Result EnvError EnvironmentObject}
        → run_update p id_or_key scope new ≡ (call ∷ [], result)
        → Sent apply p id_or_key scope new call
    run_update-Sent (new_var kind value auto_link) p id_or_key scope h =
        update_var_sends apply apply_links apply_excludes kind p id_or_key scope value auto_link h
    run_update-Sent (new_conn conn auto_link) p id_or_key scope h =
        update_conn_sends apply apply_links apply_excludes p id_or_key scope conn auto_link h
    run_update-Sent (new_metrics input) p id_or_key scope h =
        update_metrics_export_sends apply apply_links apply_excludes p id_or_key scope input h
