-- ===== src/Admin/Revocation.antt =====
-- What deleting a user through the handlers of src/admin/mod.rs means for the broker.
use hi_mqtt.Prelude.{
  ℕ, ◌≡◌, ap, ◌∙◌, true, false, not, ◌&&◌, Text, codes, any, any-select, lookup, find, find_of_none,
  arith, none,
}
use mathlib.Core.Option
use hi_mqtt.Prelude.Exec.{ok}
use hi_mqtt.Db.Schema.{Tables}
use hi_mqtt.Db.Users.{
  named, numbered, belongs_to, remove_user, select_user, get_mqtt_user, join_category,
}
use hi_mqtt.Db.Users as Store
use hi_mqtt.Acl.Matcher.{Matches}
use hi_mqtt.Acl.Cache.{AclOperation, AclConfig, AclCache, check_acl, build_cache}
use hi_mqtt.Acl.Service.{AclService, Bcrypt, verify_mqtt_password}
use hi_mqtt.Acl.Service.Reload.{IsFresh, read-cases}
use hi_mqtt.Admin.Server.{AppState, Env, no_content}
use hi_mqtt.Admin.Server.Laws.{tables_of}
use hi_mqtt.Admin.Users.{delete_mqtt_user}
use hi_mqtt.Admin.Users.Deletion.{delete-ok}
use hi_mqtt.Acl.Service.Rows.{check_acl-HasNoGrants, remove_user-HasNoGrants}
use hi_mqtt.Acl.Service.Users.{lookup-user_rows-none}
use hi_mqtt.Db.Query.{Link}

-- A delete that was answered with 204: the user was there, its row and all that refers to it are
-- gone from the tables, and the cache shows those tables.
delete_mqtt_user-ok :
    (env : Env) (id : ℕ) (s : AppState)
    → (delete_mqtt_user env id s).0 ≡ ok no_content
    → (now : ℕ) × (any (numbered id) (tables_of s).users ≡ true)
      × (tables_of (delete_mqtt_user env id s).1 ≡ (remove_user id now (tables_of s)).1)
      × IsFresh (delete_mqtt_user env id s).1.acl
unfolding delete_mqtt_user Store.delete_mqtt_user remove_user
delete_mqtt_user-ok env id s h =
    let (answered, tables, fresh) = delete-ok env (codes "删除 mqtt_user 失败") (remove_user id) s h in
    (env.link.now s.acl.database.statements, ground (arith, answered), tables, fresh)

-- After a delete that was answered with 204 the broker allows the user nothing, whatever the
-- settings: neither a publish nor a subscription, at any topic.
pub delete_mqtt_user-revokes :
    (env : Env) (id : ℕ) (s : AppState) (username : Text)
    → belongs_to id (tables_of s).users username ≡ true
    → (delete_mqtt_user env id s).0 ≡ ok no_content
    → (matches : Matches) (config : AclConfig) (target : Text) (op : AclOperation)
    → check_acl matches config (delete_mqtt_user env id s).1.acl.cache username target op ≡ false
delete_mqtt_user-revokes env id s username owned h =
    let (now, _, tables, fresh) = delete_mqtt_user-ok env id s h in
    check_acl-HasNoGrants (delete_mqtt_user env id s).1.acl username fresh
      (rw tables (remove_user-HasNoGrants id now (tables_of s) username owned))

-- No user of this name is in the tables.
abbrev pub IsUnknown : Tables → Text → Type 0
IsUnknown t username = any (named username) t.users ≡ false

-- Nobody logs in by a name that is in neither the cache nor the database.
pub verify_mqtt_password-IsUnknown :
    (link : Link) (bcrypt : Bcrypt) (s : AclService) (username password : Text)
    → IsFresh s
    → IsUnknown s.database.tables username
    → (verify_mqtt_password link bcrypt username password s).0 ≡ false
unfolding verify_mqtt_password get_mqtt_user select_user build_cache
verify_mqtt_password-IsUnknown link bcrypt s username password fresh h =
    let t = s.database.tables in
    let cached : lookup username s.cache.mqtt_users ≡ none =
      ap (λ (c : AclCache). lookup username c.mqtt_users) fresh.cached
      ∙ lookup-user_rows-none t username h in
    let stored : Option.map (join_category t.categories) (find (named username) t.users) ≡ none =
      ap (Option.map (join_category t.categories)) (find_of_none (named username) t.users h) in
    ground (
      arith,
      cached,
      stored,
      read-cases link (codes "查询 mqtt_user 失败")
          (λ t. Option.map (join_category t.categories) (find (named username) t.users)) s.database,
    )

-- After such a delete the user's password is refused, if no other user has the name.
pub delete_mqtt_user-refuses :
    (env : Env) (id : ℕ) (s : AppState) (username password : Text)
    → any (λ u. not (numbered id u) && named username u) (tables_of s).users ≡ false
    → (delete_mqtt_user env id s).0 ≡ ok no_content
    → (verify_mqtt_password env.link env.bcrypt username password
        (delete_mqtt_user env id s).1.acl).0
      ≡ false
unfolding remove_user
delete_mqtt_user-refuses env id s username password alone h =
    let (now, _, tables, fresh) = delete_mqtt_user-ok env id s h in
    verify_mqtt_password-IsUnknown env.link env.bcrypt (delete_mqtt_user env id s).1.acl username
      password fresh
      (rw tables
        (any-select (named username) (λ u. not (numbered id u)) (tables_of s).users ∙ alone))
