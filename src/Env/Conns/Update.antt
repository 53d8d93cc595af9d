-- ===== src/Env/Conns/Update.antt =====
-- UpdateConn sends the whole connection, and leaves the links of the object.
use astro_cli.Env.Links.Kept.{LinksKept, echo-LinksKept}
use astro_cli.Env.Links.Sends.{perform-call}
use astro_cli.Env.Links.Patch.{patched_excludes, patched_links}
use astro_cli.Env.Links.{or_else, echo_preserved_fields, deref_slice}
use astro_cli.Env.Objects.{context, get_object, object_id, validate_auto_link}
use astro_cli.Env.Vars.{answer_update}
use astro_cli.Env.Conns.{require_type, update_conn_body, update_conn_request, update_conn}
use astro_cli.Prelude.{
  refl, [], some, arith, bind-ok, ◌∷◌, ◌==◌, false, Result, ok, Bool, Option, String, ◌≡◌,
}
use astro_cli.Env.{
  update_call, Connection, ObjectType, EnvironmentObject, UpdateBody, Call, EnvError, Platform,
  Scope,
}

update_conn_request-ok :
    (p : Platform) (id_or_key : String) (scope : Scope) (conn : Connection)
    (auto_link : Option Bool) (call : Call)
    → update_conn_request p id_or_key scope conn auto_link ≡ ok call
    → (current : EnvironmentObject) × (id : String) × (require_type conn ≡ ok tt)
      × (validate_auto_link scope auto_link ≡ ok tt)
      × (get_object p id_or_key scope ObjectType.connection false ≡ ok current)
      × (object_id current id_or_key ≡ ok id)
      × (call ≡ update_call id (echo_preserved_fields (update_conn_body conn auto_link) current))
unfolding update_conn_request
update_conn_request-ok p id_or_key scope conn auto_link call h =
    let (u, typed, h1) = bind-ok (require_type conn) _ h in
    let (v, linked, h2) = bind-ok (validate_auto_link scope auto_link) _ h1 in
    let (current, found, h3) =
      bind-ok (get_object p id_or_key scope ObjectType.connection false) _ h2 in
    let (id, has_id, h4) = bind-ok (object_id current id_or_key) _ h3 in
    let (w, ctx, h5) = bind-ok (context p) _ h4 in (current, id, typed, linked, found, has_id, cc)

require_type-ok : (conn : Connection) → require_type conn ≡ ok tt → (conn.conn_type == "") ≡ false
require_type-ok conn h = ground arith

abbrev pub ConnSent :
    (UpdateBody → EnvironmentObject → EnvironmentObject)
    → Platform
    → String
    → Scope
    → Connection
    → Option Bool
    → Call
    → Type 0
ConnSent apply p id_or_key scope conn auto_link call =
    (current : EnvironmentObject) × (id : String) × (body : UpdateBody) × ((conn.conn_type == "")
      ≡ false)
    × (validate_auto_link scope auto_link ≡ ok tt)
    × (get_object p id_or_key scope ObjectType.connection false ≡ ok current)
    × (object_id current id_or_key ≡ ok id)
    × (call ≡ update_call id body)
    × ((body.connection ≡ some conn) × (body.auto_link ≡ or_else auto_link current.auto_link))
    × LinksKept apply body current

module _ (apply : UpdateBody → EnvironmentObject → EnvironmentObject)
    (apply_links : (body : UpdateBody) (current : EnvironmentObject)
      → deref_slice (apply body current).links ≡ patched_links body current)
    (apply_excludes : (body : UpdateBody) (current : EnvironmentObject)
      → deref_slice (apply body current).exclude_links ≡ patched_excludes body) where
  -- On a platform whose update replaces both lists as documented, an update of a connection that
  -- makes a call was given a type and an auto-link flag that its scope allows, has found the
  -- object, and makes one update of it, which holds the connection, and the caller's auto-link flag
  -- or else the object's; after it every deployment has the link that it had, with the overrides of
  -- every kind, and the excluded deployments are the same.
  pub update_conn_sends :
      (p : Platform) (id_or_key : String) (scope : Scope) (conn : Connection)
      (auto_link : Option Bool) {call : Call} {result : Result EnvError EnvironmentObject}
      → update_conn p id_or_key scope conn auto_link ≡ (call ∷ [], result)
      → ConnSent apply p id_or_key scope conn auto_link call
  unfolding update_conn update_conn_body echo_preserved_fields
  update_conn_sends p id_or_key scope conn auto_link {call} {result} h =
      let (current, id, typed, linked, found, has_id, sent) =
        update_conn_request-ok p id_or_key scope conn auto_link call (
          perform-call (update_conn_request p id_or_key scope conn auto_link) (answer_update p) call
            result h) in
      (
        current,
        id,
        echo_preserved_fields (update_conn_body conn auto_link) current,
        require_type-ok conn typed,
        linked,
        found,
        has_id,
        sent,
        (refl, refl),
        echo-LinksKept apply apply_links apply_excludes (update_conn_body conn auto_link) current
            refl refl,
      )
