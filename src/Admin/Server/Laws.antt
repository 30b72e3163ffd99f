-- ===== src/Admin/Server/Laws.antt =====
-- What a successful call of the database or of `reload` means to a handler.
use hi_mqtt.Prelude.{◌≡◌, ap, ◌∙◌, Text, arith}
use hi_mqtt.Prelude.Exec.{Result, ok, err, map_err, pure, bind-ok, ◌>>=◌}
use hi_mqtt.Db.Schema.{Tables}
use hi_mqtt.Db.Query.{Cause, Statement, run}
use hi_mqtt.Db.Query.Laws.{run-ok}
use hi_mqtt.Acl.Service.Reload.{IsFresh, tables-reload, reload-IsFresh}
use hi_mqtt.Admin.Server.{AppState, Status, Env, query, refresh}

abbrev pub tables_of : AppState → Tables
tables_of s = s.acl.database.tables

pub map_err-ok :
    {E F A : Type 0} (f : E → F) (r : Result E A) (a : A) → map_err f r ≡ ok a → r ≡ ok a
map_err-ok f (ok b) a h = ground arith
map_err-ok f (err e) a h = cc

module _ {A : Type 0} (env : Env) (context : Text) (statement : Statement A) (status : Status)
    (s : AppState) where
  abbrev pub reply : Result Cause A × Tables
  reply = statement (env.link.now s.acl.database.statements) s.acl.database.tables

  pub query-ok :
      (a : A)
      → (query status (run env.link context statement) s).0 ≡ ok a
      → (reply.0 ≡ ok a) × (tables_of (query status (run env.link context statement) s).1 ≡ reply.1)
  unfolding query
  query-ok a h = run-ok env.link context statement s.acl.database a (map_err-ok (λ _. status) _ a h)

ok_inj : {E A : Type 0} (a b : A) → ◌≡◌ {A = Result E A} (ok a) (ok b) → a ≡ b
ok_inj a b h = cc

module _ (env : Env) (s : AppState) where
  pub tables-refresh : tables_of (refresh env s).1 ≡ tables_of s
  unfolding refresh
  tables-refresh = tables-reload env.link s.acl

  pub refresh-IsFresh : (refresh env s).0 ≡ ok tt → IsFresh (refresh env s).1.acl
  unfolding refresh
  refresh-IsFresh h = reload-IsFresh env.link s.acl (map_err-ok _ _ tt h)

  -- The end of the handlers that write: `refresh`, then the reply.
  pub reply_after_refresh :
      {R : Type 0} (answer r : R)
      → ((refresh env >>= λ _. pure answer) s).0 ≡ ok r
      → (answer ≡ r)
        × (tables_of ((refresh env >>= λ _. pure answer) s).1 ≡ tables_of s)
        × IsFresh ((refresh env >>= λ _. pure answer) s).1.acl
  reply_after_refresh {R} answer r h =
      let (u, refreshed, same, replied) = bind-ok (refresh env) (λ _. pure answer) s r h in
      (
        ok_inj answer r replied,
        ap (λ (x : Result Status R × AppState). tables_of x.1) same ∙ tables-refresh,
        rw same (refresh-IsFresh refreshed),
      )
