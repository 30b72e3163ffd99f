-- ===== src/Acl/Service/Password.antt =====
-- `verify_mqtt_password` of src/acl/mod.rs when the cache shows the tables.
use hi_mqtt.Prelude.{
  ◌≡◌, ap, ◌∙◌, Bool, true, false, not, ◌&&◌, some, List, [], ◌∷◌, map, Text, codes, any, find,
  find-passes, text_eq, lookup, insert, Map, lookup-insert, any-order_by, any-map, if◌then◌else◌,
  arith, Bool-cases, inl, inr,
}
use mathlib.Core.Option
use hi_mqtt.Db.Schema.{MqttUserRow, StoredUser, Tables}
use hi_mqtt.Db.Query.{Link}
use hi_mqtt.Db.Users.{named, join_category, select_user, get_mqtt_user}
use hi_mqtt.Acl.Cache.{AclCache, index_users, build_cache}
use hi_mqtt.Acl.Service.{AclService, Bcrypt, verifies, verify_mqtt_password}
use hi_mqtt.Acl.Service.Reload.{IsFresh, user_rows, read-cases, tables-read}
use hi_mqtt.Acl.Service.Users.{lookup-index_users-none, any-user_rows}

-- Where all rows of a name pass a test and there is one, the cache holds one that passes.
lookup-index_users-some :
    (username : Text) (test : MqttUserRow → Bool) (m : Map MqttUserRow) (rows : List MqttUserRow)
    → any (λ u. text_eq u.username username && not (test u)) rows ≡ false
    → any (λ u. text_eq u.username username) rows ≡ true
    → (u : MqttUserRow) × (lookup username (index_users m rows) ≡ some u) × (test u ≡ true)
unfolding index_users
lookup-index_users-some username test m [] h k = cc
lookup-index_users-some username test m (u ∷ rows) h k =
    elim (Bool-cases (any (λ (u : MqttUserRow). text_eq u.username username) rows)) [
      | inl later ↦
          lookup-index_users-some username test (insert u.username u m) rows (ground arith) later
      | inr last ↦ (
        u,
        ground (
          arith,
          lookup-index_users-none username (insert u.username u m) rows,
          lookup-insert u.username username u m,
        ),
        ground arith,
      )
    ]

abbrev pub same : Bool → Bool → Bool
same true b = b
same false b = not b

module _ (link : Link) (bcrypt : Bcrypt) (username password : Text) where
  -- Whether this account may log in with the password.
  abbrev pub accepts : StoredUser → Bool
  accepts u = if u.enabled then verifies link bcrypt password u.password_hash else false

  abbrev accepts_row : MqttUserRow → Bool
  accepts_row u = if u.enabled then verifies link bcrypt password u.password_hash else false

  -- Every account of this name accepts the password, or none does, as `b` says.
  abbrev pub Agrees : Bool → Tables → Type 0
  Agrees b t = any (λ u. named username u && not (same b (accepts u))) t.users ≡ false

  module _ (s : AclService) (fresh : IsFresh s) where
    abbrev t : Tables
    t = s.database.tables

    cached_user :
        (b : Bool)
        → Agrees b t
        → any (named username) t.users ≡ true
        → (u : MqttUserRow) × (lookup username s.cache.mqtt_users ≡ some u)
          × (same b (accepts_row u) ≡ true)
    unfolding build_cache join_category
    cached_user b h k =
        let test =
          λ (u : MqttUserRow). text_eq u.username username && not (same b (accepts_row u)) in
        let (u, found, passed) =
          lookup-index_users-some username (λ u. same b (accepts_row u)) [] (user_rows t)
            (any-order_by (λ (u : MqttUserRow). u.id) test
                (map (join_category t.categories) t.users)
              ∙ any-map test (join_category t.categories) t.users
              ∙ h)
            (any-user_rows t username ∙ k) in
        (u, ap (λ (c : AclCache). lookup username c.mqtt_users) fresh.cached ∙ found, passed)

    stored_user :
        (b : Bool)
        → Agrees b t
        → any (named username) t.users ≡ true
        → (u : StoredUser) × (find (named username) t.users ≡ some u) × (same b (accepts u) ≡ true)
    stored_user b h k = find-passes (named username) (λ u. same b (accepts u)) t.users h k

    -- The answer to a login by a name that is in the tables.
    pub verify_of_fresh :
        (b : Bool)
        → Agrees b t
        → any (named username) t.users ≡ true
        → (verify_mqtt_password link bcrypt username password s).0 ≡ b
    unfolding verify_mqtt_password get_mqtt_user select_user join_category
    verify_of_fresh b h k =
        let (u, cached, passed) = cached_user b h k in
        let (v, stored, held) = stored_user b h k in
        ground (
          arith,
          cached,
          passed,
          held,
          ap (Option.map (join_category t.categories)) stored,
          read-cases link (codes "查询 mqtt_user 失败")
              (λ t. Option.map (join_category t.categories) (find (named username) t.users))
              s.database,
        )

-- Checking a password only reads.
pub tables-verify_mqtt_password :
    (link : Link) (bcrypt : Bcrypt) (username password : Text) (s : AclService)
    → (verify_mqtt_password link bcrypt username password s).1.database.tables ≡ s.database.tables
unfolding verify_mqtt_password get_mqtt_user select_user
tables-verify_mqtt_password link bcrypt username password s = ground (
  arith,
  tables-read link (codes "查询 mqtt_user 失败")
      (λ t. Option.map (join_category t.categories) (find (named username) t.users)) s.database,
)
