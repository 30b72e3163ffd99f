-- ===== src/Acl/Service/Reload.antt =====
-- `reload` of src/acl/mod.rs takes a picture of the tables, or leaves everything as it was.
use hi_mqtt.Prelude.{ℕ, ◌≡◌, refl, List, map, Text, codes, order_by, arith, ◌⊎◌, inl, inr}
use hi_mqtt.Prelude.Exec.{Result, ok, err}
use hi_mqtt.Db.Schema.{MqttUserRow, MqttTopicRow, AclRuleRow, Tables}
use hi_mqtt.Db.Query.{Database, DbError, Link, Statement, run}
use hi_mqtt.Db.Query.Laws.{run-ok, run-tables}
use hi_mqtt.Db.Users.{join_category, select_users, list_mqtt_users}
use hi_mqtt.Db.Topics.{select_topics, list_mqtt_topics}
use hi_mqtt.Db.Acls.{select_acls, list_topic_acls}
use hi_mqtt.Acl.Cache.{build_cache}
use hi_mqtt.Acl.Service.{AclService, reload}

-- What the three lists of `reload` hold.
abbrev pub user_rows : Tables → List MqttUserRow
user_rows t = order_by (λ u. u.id) (map (join_category t.categories) t.users)

abbrev pub topic_rows : Tables → List MqttTopicRow
topic_rows t = order_by (λ r. r.id) t.topics

abbrev pub acl_rows : Tables → List AclRuleRow
acl_rows t = order_by (λ r. r.id) t.acls

-- The cache is the picture of the tables that was taken at some instant.
pub record IsFresh (s : AclService) : Type 0 where
  pub instant : ℕ
  pub cached :
      s.cache
      ≡ build_cache
          (user_rows s.database.tables)
          (topic_rows s.database.tables)
          (acl_rows s.database.tables)
          instant

-- A statement that only reads gives what it reads, or an error, and leaves the tables.
module _ {A : Type 0} (link : Link) (context : Text) (value : Tables → A) (d : Database) where
  abbrev read : Statement A
  read now t = (ok (value t), t)

  pub tables-read : (run link context read d).1.tables ≡ d.tables
  tables-read = run-tables link context read d (λ t. t ≡ d.tables) refl refl

  pub read-cases :
      ((run link context read d).0 ≡ ok (value d.tables))
      ⊎ ((e : DbError) × ((run link context read d).0 ≡ err e))
  read-cases = go (run link context read d).0 refl
    where
      go :
          (r : Result DbError A)
          → (run link context read d).0 ≡ r
          → ((run link context read d).0 ≡ ok (value d.tables))
            ⊎ ((e : DbError) × ((run link context read d).0 ≡ err e))
      go (ok a) h = inl (ground (arith, (run-ok link context read d a h).0))
      go (err e) h = inr (e, h)

module _ (link : Link) (s : AclService) where
  abbrev after_users : Database
  after_users = (list_mqtt_users link s.database).1

  abbrev after_topics : Database
  after_topics = (list_mqtt_topics link after_users).1

  abbrev after_acls : Database
  after_acls = (list_topic_acls link after_topics).1

  pub tables-reload : (reload link s).1.database.tables ≡ s.database.tables
  unfolding reload list_mqtt_users list_mqtt_topics list_topic_acls select_users select_topics
      select_acls
  tables-reload = ground (
    arith,
    tables-read link (codes "查询 mqtt_users 失败") user_rows s.database,
    tables-read link (codes "查询 mqtt_topics 失败") topic_rows after_users,
    tables-read link (codes "查询 topic_acl 失败") acl_rows after_topics,
  )

  pub cache-reload_fails :
      {e : DbError} → (reload link s).0 ≡ err e → (reload link s).1.cache ≡ s.cache
  unfolding reload
  cache-reload_fails h = ground arith

  pub reload-IsFresh : (reload link s).0 ≡ ok tt → IsFresh (reload link s).1
  unfolding reload list_mqtt_users list_mqtt_topics list_topic_acls select_users select_topics
      select_acls
  reload-IsFresh h = record {
    instant = link.now after_acls.statements;
    cached = rw tables-reload (
        ground (
          arith,
          read-cases link (codes "查询 mqtt_users 失败") user_rows s.database,
          read-cases link (codes "查询 mqtt_topics 失败") topic_rows after_users,
          read-cases link (codes "查询 topic_acl 失败") acl_rows after_topics,
          tables-read link (codes "查询 mqtt_users 失败") user_rows s.database,
          tables-read link (codes "查询 mqtt_topics 失败") topic_rows after_users,
        ));
  }
