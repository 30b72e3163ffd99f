-- ===== src/Acl/Service.antt =====
-- The service of src/acl/mod.rs: its state is the database, the cache, and how often the random
-- generator was asked. `bcrypt` is a parameter. The one write to the cache cannot panic, so its
-- lock is never poisoned.
pub mod Reload
pub mod Users
pub mod Password
pub mod Seed
pub mod Rows
use hi_mqtt.Prelude.{
  ℕ, zero, suc, Bool, true, false, Option, none, some, Text, codes, lookup, if◌then◌else◌, ◌==◌,
  max, ◌≡◌,
}
use hi_mqtt.Prelude.Exec.{Result, ok, err, map_err, Exec, pure, ok_or, ◌>>=◌, ◌>>◌}
use hi_mqtt.Db.Schema.{MqttUserRow, Tables}
use hi_mqtt.Db.Query.{Db, DbError, Database, Link, because, Cause}
use hi_mqtt.Db.Users.{list_mqtt_users, get_mqtt_user, record_mqtt_user_login}
use hi_mqtt.Db.Topics.{list_mqtt_topics}
use hi_mqtt.Db.Acls.{list_topic_acls}
use hi_mqtt.Db.Admins.{count_admins, create_admin_user}
use hi_mqtt.Acl.Cache.{AclConfig, AclCache, build_cache}

-- `hash` takes its salt from the generator; `none` is an error.
pub record Bcrypt : Type 0 where
  pub hash : (salt : ℕ) → (password : Text) → (cost : ℕ) → Option Text
  pub verify : (password : Text) → (hashed : Text) → Option Bool

-- A password verifies against each hash of it.
pub record IsBcrypt (bcrypt : Bcrypt) : Type 0 where
  pub verify-hash :
      (salt : ℕ) (password : Text) (cost : ℕ) (h : Text)
      → bcrypt.hash salt password cost ≡ some h
      → bcrypt.verify password h ≡ some true

-- `bcrypt::DEFAULT_COST`
abbrev pub default_cost : ℕ
default_cost = 12

pub record AclService : Type 0 where
  pub database : Database
  pub cache : AclCache
  pub draws : ℕ

abbrev pub Acting : Type 0 → Type 0
Acting A = Exec AclService DbError A

-- An action on the pool of the service.
unfoldable pub on_pool : {A : Type 0} → Db A → Acting A
on_pool m s = ((m s.database).0, record s { database = (m s.database).1 })

module _ (link : Link) where
  abbrev store_cache : AclCache → Acting (Unit {0})
  store_cache cache s = (ok tt, record s { cache = cache })

  -- The time of `Instant::now()`
  abbrev instant : Acting ℕ
  instant s = (ok (link.now s.database.statements), s)

  unfoldable pub reload : Acting (Unit {0})
  unfolding on_pool
  reload = do
    users ← on_pool (list_mqtt_users link)
    topics ← on_pool (list_mqtt_topics link)
    rules ← on_pool (list_topic_acls link)
    now ← instant
    store_cache (build_cache users topics rules now)

  -- `spawn_refresh_task`: the seconds between two reloads, and a failed reload changes nothing.
  unfoldable pub refresh_interval : AclConfig → ℕ
  refresh_interval config = max config.cache_refresh_secs 5

  unfoldable pub record_last_login : Text → Text → Acting (Unit {0})
  unfolding on_pool
  record_last_login username ip = on_pool (record_mqtt_user_login link username ip)

  module _ (bcrypt : Bcrypt) where
    -- `bcrypt::verify(…).unwrap_or(false)`
    unfoldable pub verifies : Text → Text → Bool
    verifies password hash = elim (bcrypt.verify password hash) [ none ↦ false | some b ↦ b ]

    -- The answer by the database.
    unfoldable pub verify_stored : Text → Result DbError (Option MqttUserRow) → Bool
    unfolding verifies
    verify_stored password (ok (some user)) =
        if user.enabled then verifies password user.password_hash else false
    verify_stored password (ok none) = false
    verify_stored password (err e) = false

    ask_database : Text → Text → AclService → Bool × AclService
    unfolding verify_stored on_pool
    ask_database username password s =
        let asked = on_pool (get_mqtt_user link username) s in
        (verify_stored password asked.0, asked.1)

    answer : Text → Text → Option MqttUserRow → AclService → Bool × AclService
    unfolding verifies ask_database
    answer username password none s = ask_database username password s
    answer username password (some user) s =
        if user.enabled
        then (verifies password user.password_hash, s)
        else ask_database username password s

    unfoldable pub verify_mqtt_password : Text → Text → AclService → Bool × AclService
    unfolding answer
    verify_mqtt_password username password s =
        answer username password (lookup username s.cache.mqtt_users) s

    -- `bcrypt::hash`
    unfoldable pub draw_hash : {E : Type 0} → E → Text → ℕ → Exec AclService E Text
    draw_hash failed password cost s =
        ok_or (bcrypt.hash s.draws password cost) failed (record s { draws = suc s.draws })

    seed_admin : Text → ℕ → Acting (Unit {0})
    unfolding draw_hash on_pool
    seed_admin default_admin_password zero = do
      hash ←
          draw_hash (because (codes "hash admin 密码失败") Cause.hash_failed) default_admin_password
            default_cost
      on_pool (create_admin_user link (codes "admin") hash)
    seed_admin default_admin_password (suc n) = pure tt

    unfoldable pub ensure_seed_data : Text → Acting (Unit {0})
    unfolding seed_admin
    ensure_seed_data default_admin_password = do
      admin_count ← on_pool (count_admins link)
      seed_admin default_admin_password admin_count
