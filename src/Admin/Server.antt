-- ===== src/Admin/Server.antt =====
-- The state behind the handlers of src/admin/mod.rs, and how a handler reads an outcome of the
-- database or of the access control as a status.
pub mod Laws
use hi_mqtt.Prelude.{ℕ, suc, Option, Text, Map}
use hi_mqtt.Prelude.Exec.{Result, ok, err, map_err, Exec}
use hi_mqtt.Db.Query.{Db, DbError, Database, Link}
use hi_mqtt.Db.Defaults.{Serde}
use hi_mqtt.Acl.Cache.{AclCache}
use hi_mqtt.Monitor.State.{MonitorState}
use hi_mqtt.Acl.Service.{AclService, Acting, Bcrypt, on_pool, reload}

-- `axum::http::StatusCode`, as far as the handlers use it.
pub data Status : Type 0 where
  created no_content bad_request unauthorized not_found : Status
  internal_server_error service_unavailable : Status

-- The libraries and the outside world: `Uuid::new_v4()` takes its value from the generator.
pub record Env : Type 0 where
  pub link : Link
  pub bcrypt : Bcrypt
  pub serde : Serde
  pub new_v4 : ℕ → Text

-- The service, the sessions of `AdminAuth` and the monitor, which is there if it was not switched
-- off. The handlers only read the monitor.
pub record AppState : Type 0 where
  pub acl : AclService
  pub sessions : Map Text
  pub monitor : Option MonitorState

abbrev pub Handler : Type 0 → Type 0
Handler A = Exec AppState Status A

-- `service_call.map_err(|_| status)?`
unfoldable pub on_acl : {A : Type 0} → Status → Acting A → Handler A
on_acl status m s = (map_err (λ _. status) (m s.acl).0, record s { acl = (m s.acl).1 })

-- `db::call(state.acl.pool(), …).map_err(|_| status)?`
unfoldable pub query : {A : Type 0} → Status → Db A → Handler A
unfolding on_acl on_pool
query status m = on_acl status (on_pool m)

-- `state.acl.reload().map_err(|_| StatusCode::INTERNAL_SERVER_ERROR)?`
unfoldable pub refresh : Env → Handler (Unit {0})
unfolding on_acl reload
refresh env = on_acl internal_server_error (reload env.link)
