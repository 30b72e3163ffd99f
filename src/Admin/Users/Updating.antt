-- ===== src/Admin/Users/Updating.antt =====
-- The handlers of src/admin/mod.rs that update a row: what a 200 says of the tables and of the cache.
use hi_mqtt.Prelude.{◌≡◌, ap, ◌∙◌, Option, Text, arith}
use hi_mqtt.Prelude.Exec.{Result, ok, pure, ok_or, bind-ok, ◌>>=◌}
use hi_mqtt.Db.Query.{Statement, run}
use hi_mqtt.Acl.Service.Reload.{IsFresh}
use hi_mqtt.Admin.Server.{
  AppState, Handler, Status, Env, not_found, internal_server_error, query, refresh,
}
use hi_mqtt.Admin.Server.Laws.{tables_of, reply, query-ok, reply_after_refresh}

module _ {A : Type 0} (env : Env) (context : Text) (statement : Statement (Option A)) where
  abbrev ask : Handler (Option A)
  ask = query internal_server_error (run env.link context statement)

  abbrev finish : A → Handler A
  finish row = refresh env >>= λ _. pure row

  abbrev take : Option A → Handler A
  take found = ok_or found not_found >>= finish

  abbrev pub update_handler : Handler A
  update_handler s = (ask >>= take) s

  pub update-ok :
      (s : AppState) (row : A)
      → (update_handler s).0 ≡ ok row
      → (found : Option A) × ((reply env context statement internal_server_error s).0 ≡ ok found)
        × (tables_of (update_handler s).1 ≡ (reply env context statement internal_server_error s).1)
        × IsFresh (update_handler s).1.acl
  update-ok s row h =
      let (found, asked, same1, run1) = bind-ok ask take s row h in
      let (answered, tables) = query-ok env context statement internal_server_error s found asked in
      let (r, there, same2, run2) = bind-ok (ok_or found not_found) finish (ask s).1 row run1 in
      let s2 = (ok_or {S = AppState} found not_found (ask s).1).1 in
      let kept : s2 ≡ (ask s).1 = ground arith in
      let (_, tables2, fresh) = reply_after_refresh env s2 r row run2 in
      let whole = same1 ∙ same2 in
      (
        found,
        answered,
        ap (λ (x : Result Status A × AppState). tables_of x.1) whole
            ∙ tables2
            ∙ ap (λ (x : AppState). tables_of x) kept
            ∙ tables,
        rw whole fresh,
      )
