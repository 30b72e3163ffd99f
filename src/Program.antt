-- ===== src/Program.antt =====
-- The program as a whole: the administration API, the listeners, the refresh task and the monitor
-- of src/main.rs work on one state, in any order. A step is one request, one login of a client,
-- one round of the refresh task, or what the collector does to the monitor. Since all of these wait
-- for the database, others may come in between: so a single statement that writes is a step too,
-- and so is the store of a reload. What a reload can have read is the matter of Acl.Interleaving;
-- here it may store anything. A login to the administration is one step even so: what it reads
-- before it opens the session, an account, is never changed or removed.
pub mod Tables
pub mod Sessions
pub mod Tokens
pub mod Start
pub mod Whole
use hi_mqtt.Prelude.{◌≡◌, ℕ, true, Option, some, Text, is_some}
use hi_mqtt.Db.Schema as Schema
use hi_mqtt.Db.Writes.{Write}
use hi_mqtt.Acl.Cache.{AclCache}
use hi_mqtt.Acl.Service.{reload}
use hi_mqtt.Monitor.State.{MonitorState}
use hi_mqtt.Admin.Server.{AppState, Env}
use hi_mqtt.Admin.Server.Laws.{tables_of}
use hi_mqtt.Admin.Auth.{Head}
use hi_mqtt.Admin.Router.{Request, serve}
use hi_mqtt.Startup.{authenticate}

module _ (env : Env) (parse : Text → Option Text) where
  pub data Step : AppState → AppState → Type 1 where
    request :
        (s : AppState) {S : Type 0} (shown : S) (now : ℕ) (head : Head) (r : Request)
        → Step s (serve shown env now head r s).1
    client :
        (s : AppState) (username password peer : Text)
        → Step s (record s {
          acl = (authenticate env.link env.bcrypt parse username password peer s.acl).1;
        })
    -- The end of a reload that other steps have overtaken, whatever it has read.
    store_cache :
        (s : AppState) (cache : AclCache)
        → Step s (record s { acl = record s.acl { cache = cache } })
    -- A statement of a request or a login that other steps overtake before it has ended.
    statement :
        (s : AppState) {tables : Schema.Tables}
        → Write (tables_of s) tables
        → Step s (record s {
          acl = record s.acl { database = record s.acl.database { tables = tables } };
        })
    -- A round of `spawn_refresh_task`, which goes on after an error.
    tick : (s : AppState) → Step s (record s { acl = (reload env.link s.acl).1 })
    observe :
        (s : AppState) (monitor : MonitorState)
        → is_some s.monitor ≡ true
        → Step s (record s { monitor = some monitor })

  pub data Reach (s : AppState) : AppState → Type 1 where
    here : Reach s s
    next : {t u : AppState} → Reach s t → Step t u → Reach s u
