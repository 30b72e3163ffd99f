-- ===== src/Acl/Interleaving/Mixed.antt =====
-- What the cache of src/acl/mod.rs may hold when reloads overlap with writers and with one another.
use hi_mqtt.Prelude.{◌≡◌, ℕ, List}
use hi_mqtt.Db.Schema.{MqttUserRow, MqttTopicRow, AclRuleRow}
use hi_mqtt.Acl.Cache.{build_cache}
use hi_mqtt.Acl.Service.Reload.{topic_rows, acl_rows}
use hi_mqtt.Acl.Interleaving.{Progress, idle, users_read, topics_read, rules_read, Shared, Run}

module _ (s : Shared) where
  -- Topics that were in the tables of a state of the run.
  abbrev WasTopics : Shared → List MqttTopicRow → Type 0
  WasTopics t topics = (u : Shared) × Run s u × Run u t × (topics ≡ topic_rows u.tables)

  -- And rules that were there then or later.
  record WasRead (t : Shared) (topics : List MqttTopicRow) (rules : List AclRuleRow) : Type 0 where
    first : Shared
    second : Shared
    to_first : Run s first
    to_second : Run first second
    to_now : Run second t
    were_topics : topics ≡ topic_rows first.tables
    were_rules : rules ≡ acl_rows second.tables

  -- What a task holds was in the tables.
  abbrev WasHeld : Shared → Progress → Type 0
  WasHeld t idle = Unit
  WasHeld t (users_read users) = Unit
  WasHeld t (topics_read users topics) = WasTopics t topics
  WasHeld t (rules_read users topics rules) = WasRead t topics rules

  record Seen (t : Shared) : Type 0 where
    users : List MqttUserRow
    topics : List MqttTopicRow
    rules : List AclRuleRow
    now : ℕ
    was_read : WasRead t topics rules
    cached : t.cache ≡ build_cache users topics rules now
