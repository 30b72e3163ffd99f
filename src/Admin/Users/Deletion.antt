-- ===== src/Admin/Users/Deletion.antt =====
-- The handlers of src/admin/mod.rs that delete: what a 204 says of the tables and of the cache.
use hi_mqtt.Prelude.{◌≡◌, refl, ap, ◌∙◌, Bool, true, false, Text}
use hi_mqtt.Prelude.Exec.{Result, ok, pure, bind-ok, ◌>>=◌}
use hi_mqtt.Db.Query.{Statement, run}
use hi_mqtt.Acl.Service.Reload.{IsFresh}
use hi_mqtt.Admin.Server.{
  AppState, Handler, Status, Env, no_content, internal_server_error, query, refresh,
}
use hi_mqtt.Admin.Server.Laws.{tables_of, reply, query-ok, tables-refresh, refresh-IsFresh}
use hi_mqtt.Admin.Users.{after_delete}

module _ (env : Env) where
  after_delete-ok :
      (deleted : Bool) (s : AppState)
      → (after_delete env deleted s).0 ≡ ok no_content
      → (deleted ≡ true)
        × (tables_of (after_delete env deleted s).1 ≡ tables_of s)
        × IsFresh (after_delete env deleted s).1.acl
  unfolding after_delete
  after_delete-ok false s h = cc
  after_delete-ok true s h =
      let (u, refreshed, same, _) = bind-ok (refresh env) (λ _. pure no_content) s no_content h in
      (
        refl,
        ap (λ (x : Result Status Status × AppState). tables_of x.1) same ∙ tables-refresh env s,
        rw same (refresh-IsFresh env s refreshed),
      )

  -- The whole of such a handler, for the statement that it sends.
  module _ (context : Text) (statement : Statement Bool) (s : AppState) where
    abbrev pub delete_handler : Handler Status
    delete_handler s =
        (query internal_server_error (run env.link context statement) >>= after_delete env) s

    pub delete-ok :
        (delete_handler s).0 ≡ ok no_content
        → ((reply env context statement internal_server_error s).0 ≡ ok true)
          × (tables_of (delete_handler s).1
              ≡ (reply env context statement internal_server_error s).1)
          × IsFresh (delete_handler s).1.acl
    delete-ok h =
        let (deleted, asked, same, rest) =
          bind-ok (query internal_server_error (run env.link context statement)) (after_delete env)
            s no_content h in
        let (answered, tables) =
          query-ok env context statement internal_server_error s deleted asked in
        let (gone, kept, fresh) = after_delete-ok deleted _ rest in
        (
          answered ∙ ap ok gone,
          ap (λ (x : Result Status Status × AppState). tables_of x.1) same ∙ kept ∙ tables,
          rw same fresh,
        )
