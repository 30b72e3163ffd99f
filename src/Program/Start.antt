-- ===== src/Program/Start.antt =====
-- The state that the start of src/main.rs hands to the running program.
use mathlib.Core.Path.{subst}
use hi_mqtt.Prelude.{◌≡◌, refl, sym, true, Option, some, [], Text}
use hi_mqtt.Prelude.Exec.{ok}
use hi_mqtt.Db.Query.{Database}
use hi_mqtt.Db.Constraints.{IsSound}
use hi_mqtt.Db.Constraints.Categories.{all_IsSound}
use hi_mqtt.Acl.Matcher.{Matches}
use hi_mqtt.Acl.Service.{AclService}
use hi_mqtt.Acl.Service.Reload.{IsFresh}
use hi_mqtt.Monitor.State.{MonitorState}
use hi_mqtt.Admin.Server.{AppState, Env}
use hi_mqtt.Admin.Server.Laws.{tables_of}
use hi_mqtt.Startup.{AppSettings, Config, start_acl}
use hi_mqtt.Startup.Guard.{start_acl-InForce}
use hi_mqtt.Startup.Tables.{start_acl-Keeps}

-- What `admin::serve` is started with: no session is open yet.
abbrev pub started : AclService → Option MonitorState → AppState
started s monitor = record { acl = s; sessions = []; monitor = monitor }

some_inj : {A : Type 0} (a b : A) → some a ≡ some b → a ≡ b
some_inj a b h = cc

-- A start with access control that succeeds, on a database that meets the constraints, hands a
-- state to the program from which the theorems about runs hold: its tables meet the constraints,
-- its cache shows them, and no session is open.
pub start_acl-IsReady :
    (env : Env) (parse : Text → Option Text) (matches : Matches) (settings : AppSettings)
    (configs c : Config) (d : Database) (s : AclService) (monitor : Option MonitorState)
    → settings.acl.enabled ≡ true
    → start_acl env.link env.bcrypt parse matches settings configs (ok d) ≡ ok (some s, c)
    → IsSound d.tables
    → IsSound (tables_of (started s monitor))
      × IsFresh (started s monitor).acl
      × ((started s monitor).sessions ≡ [])
start_acl-IsReady env parse matches settings configs c d s monitor e h sound =
    let force =
      start_acl-InForce env.link env.bcrypt parse matches settings configs (ok d) (some s, c) e h in
    (
      start_acl-Keeps all_IsSound env.link env.bcrypt parse matches settings configs d s c e h
          sound,
      subst IsFresh (some_inj force.service s (sym force.is_kept)) force.is_fresh,
      refl,
    )
