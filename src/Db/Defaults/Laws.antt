-- ===== src/Db/Defaults/Laws.antt =====
-- What the templates of src/db/mod.rs leave alone.
use hi_mqtt.Prelude.{ℕ, ◌≡◌, refl, ◌∙◌, Bool, Option, none, some, List, [], ◌∷◌, Text, codes, arith}
use hi_mqtt.Prelude.Exec.{bind-keeps}
use hi_mqtt.Db.Schema.{DefaultTopicTemplate, DefaultAclTemplate, UserDefaultsSettings, Tables}
use hi_mqtt.Db.Query.{Link, Database, run}
use hi_mqtt.Db.Query.Laws.{run-tables}
use hi_mqtt.Db.Defaults.{
  Serde, apply_topics, apply_acls, apply_user_defaults, get_user_defaults, parse_defaults,
  upsert_topic, upsert_acl, render_template, select_defaults,
}

users-upsert_topic :
    (topic description username : Text) (now : ℕ) (t : Tables)
    → (upsert_topic topic description username now t).1.users ≡ t.users
unfolding upsert_topic
users-upsert_topic topic description username now t = ground arith

users-upsert_acl :
    (username topic_pattern : Text) (can_subscribe can_publish : Bool) (now : ℕ) (t : Tables)
    → (upsert_acl username topic_pattern can_subscribe can_publish now t).1.users ≡ t.users
unfolding upsert_acl
users-upsert_acl username topic_pattern can_subscribe can_publish now t = ground arith

module _ (link : Link) (username : Text) where
  users-apply_topics :
      (topics : List DefaultTopicTemplate) (d : Database)
      → (apply_topics link username topics d).1.tables.users ≡ d.tables.users
  unfolding apply_topics
  users-apply_topics [] d = refl
  users-apply_topics (topic ∷ topics) d =
      let statement =
        upsert_topic (render_template topic.topic username)
          (render_template topic.description username) username in
      let send = run link (codes "应用默认 Topic 失败") statement in
      let step : (send d).1.tables.users ≡ d.tables.users =
        run-tables link (codes "应用默认 Topic 失败") statement d (λ t. t.users ≡ d.tables.users) refl
          (users-upsert_topic _ _ username _ d.tables) in
      bind-keeps (λ (e : Database). e.tables.users ≡ d.tables.users) send
        (λ _. apply_topics link username topics) d step
        (λ _. users-apply_topics topics (send d).1 ∙ step)

  users-apply_acls :
      (acls : List DefaultAclTemplate) (d : Database)
      → (apply_acls link username acls d).1.tables.users ≡ d.tables.users
  unfolding apply_acls
  users-apply_acls [] d = refl
  users-apply_acls (acl ∷ acls) d =
      let statement =
        upsert_acl username (render_template acl.topic_pattern username) acl.can_subscribe
          acl.can_publish in
      let send = run link (codes "应用默认 ACL 失败") statement in
      let step : (send d).1.tables.users ≡ d.tables.users =
        run-tables link (codes "应用默认 ACL 失败") statement d (λ t. t.users ≡ d.tables.users) refl
          (users-upsert_acl username _ _ _ _ d.tables) in
      bind-keeps (λ (e : Database). e.tables.users ≡ d.tables.users) send
        (λ _. apply_acls link username acls) d step (λ _. users-apply_acls acls (send d).1 ∙ step)

  -- Applying the templates, even in part, leaves the users as they are.
  pub users-apply_user_defaults :
      (defaults : UserDefaultsSettings) (d : Database)
      → (apply_user_defaults link username defaults d).1.tables.users ≡ d.tables.users
  unfolding apply_user_defaults
  users-apply_user_defaults defaults d =
      let topics = users-apply_topics defaults.default_topics d in
      bind-keeps (λ (e : Database). e.tables.users ≡ d.tables.users)
        (apply_topics link username defaults.default_topics)
        (λ _. apply_acls link username defaults.default_acls) d topics
        (λ _. users-apply_acls defaults.default_acls _ ∙ topics)

tables-parse_defaults :
    (link : Link) (serde : Serde) (value : Option Text) (d : Database)
    → (parse_defaults link serde value d).1.tables ≡ d.tables
unfolding parse_defaults
tables-parse_defaults link serde none d = refl
tables-parse_defaults link serde (some value) d = ground arith

pub tables-get_user_defaults :
    (link : Link) (serde : Serde) (d : Database)
    → (get_user_defaults link serde d).1.tables ≡ d.tables
unfolding get_user_defaults
tables-get_user_defaults link serde d =
    let step = run-tables link (codes "读取系统设置失败") select_defaults d (λ t. t ≡ d.tables) refl refl in
    bind-keeps (λ (e : Database). e.tables ≡ d.tables) (run link (codes "读取系统设置失败") select_defaults)
      (parse_defaults link serde) d step (λ value. tables-parse_defaults link serde value _ ∙ step)
