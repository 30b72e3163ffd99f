-- ===== src/Db/Constraints/Upserts.antt =====
-- The statements of `apply_user_defaults` and `set_user_defaults`, src/db/mod.rs, which insert or
-- update, keep the constraints.
use hi_mqtt.Prelude.{
  ℕ, suc, ◌≡◌, refl, Bool, false, not, ◌&&◌, List, map, Text, text_eq, any, arith, Bool-cases, inl,
  inr, if◌then◌else◌,
}
use hi_mqtt.Prelude.Keeps.{Keeps}
use hi_mqtt.Db.Schema.{MqttTopicRow, AclRuleRow, SettingRow, Tables, has_user, has_owner}
use hi_mqtt.Db.Acls.{keyed}
use hi_mqtt.Db.Defaults.{coalesce, defaults_key, upsert_topic, upsert_acl, upsert_defaults}
use hi_mqtt.Db.Table.{
  All-mono, All-and, All-none, All-map, update_where-map, IsTable-later, IsTable-map,
}
use hi_mqtt.Db.Constraints.{IsSound, with_topics, with_acls}
use hi_mqtt.Db.Constraints.Rules.{later_topics, later_acls, add_topic, add_acl}

module _ (topic description username : Text) where
  abbrev same : MqttTopicRow → Bool
  same r = text_eq r.topic topic

  abbrev set : MqttTopicRow → MqttTopicRow
  set r = record r {
    description = description;
    owner_username = coalesce r.owner_username username;
  }

  abbrev change : MqttTopicRow → MqttTopicRow
  change r = if same r then set r else r

  abbrev dangling : Tables → MqttTopicRow → Bool
  dangling t r = same r && not (has_owner t.users (coalesce r.owner_username username))

  upserted_topic :
      (t : Tables)
      → IsSound t
      → any (dangling t) t.topics ≡ false
      → IsSound (record t { topics = map change t.topics; topic_seq = suc t.topic_seq })
  upserted_topic t h owned =
      with_topics t h (suc t.topic_seq) (map change t.topics)
        (IsTable-later _ _ t.topic_seq (map change t.topics) (
          IsTable-map _ _ (λ r. Unit) change t.topic_seq t.topics (λ r. ground arith)
            (λ x y qx qy ne r. ground (arith, r)) (All-mono _ _ t.topics (λ r p. tt) h.topic_owners)
            h.topics))
        (All-map _ _ change t.topics (λ r o. ground (arith, o.0, o.1))
          (All-and _ _ t.topics (All-none _ t.topics owned) h.topic_owners))

  pub upsert_topic-IsSound : (now : ℕ) → Keeps IsSound (upsert_topic topic description username now)
  unfolding upsert_topic
  upsert_topic-IsSound now = record {
    at = λ t h. elim (Bool-cases (any same t.topics)) [
      | inl there ↦ elim (Bool-cases (any (dangling t) t.topics)) [
        | inl refused ↦ rw (there, refused) (later_topics t h)
        | inr fine ↦ rw (there, fine, update_where-map same set t.topics) (upserted_topic t h fine)
      ]
      | inr new ↦ elim (Bool-cases (has_user t.users username)) [
        | inl owned ↦ rw (new, owned) (add_topic t h _ refl new owned)
        | inr missing ↦ rw (new, missing) (later_topics t h)
      ]
    ];
  }

module _ (username topic_pattern : Text) (can_subscribe can_publish : Bool) where
  abbrev set_rights : AclRuleRow → AclRuleRow
  set_rights r = record r { can_subscribe = can_subscribe; can_publish = can_publish }

  abbrev change_rights : AclRuleRow → AclRuleRow
  change_rights r = if keyed username topic_pattern r then set_rights r else r

  upserted_acl :
      (t : Tables)
      → IsSound t
      → IsSound (record t { acls = map change_rights t.acls; acl_seq = suc t.acl_seq })
  upserted_acl t h =
      with_acls t h (suc t.acl_seq) (map change_rights t.acls)
        (IsTable-later _ _ t.acl_seq (map change_rights t.acls) (
          IsTable-map _ _ (λ r. Unit) change_rights t.acl_seq t.acls (λ r. ground arith)
            (λ x y qx qy ne r. ground (arith, r)) (All-mono _ _ t.acls (λ r p. tt) h.rule_users)
            h.acls))
        (All-map _ _ change_rights t.acls (λ r o. ground (arith, o)) h.rule_users)

  pub upsert_acl-IsSound :
      (now : ℕ) → Keeps IsSound (upsert_acl username topic_pattern can_subscribe can_publish now)
  unfolding upsert_acl
  upsert_acl-IsSound now = record {
    at = λ t h. elim (Bool-cases (any (keyed username topic_pattern) t.acls)) [
      | inl there ↦
          rw (there, update_where-map (keyed username topic_pattern) set_rights t.acls)
            (upserted_acl t h)
      | inr new ↦ elim (Bool-cases (has_user t.users username)) [
        | inl owned ↦ rw (new, owned) (add_acl t h _ refl new owned)
        | inr missing ↦ rw (new, missing) (later_acls t h)
      ]
    ];
  }

with_settings :
    (t : Tables) (h : IsSound t) (rows : List SettingRow) → IsSound (record t { settings = rows })
with_settings t h rows = record {
  admins = h.admins;
  categories = h.categories;
  users = h.users;
  topics = h.topics;
  acls = h.acls;
  user_categories = h.user_categories;
  topic_owners = h.topic_owners;
  rule_users = h.rule_users;
}

pub upsert_defaults-IsSound : (value : Text) (now : ℕ) → Keeps IsSound (upsert_defaults value now)
unfolding upsert_defaults
upsert_defaults-IsSound value now = record {
  at = λ t h. elim (Bool-cases (any (λ (r : SettingRow). text_eq r.key defaults_key) t.settings)) [
    | inl there ↦ rw there (with_settings t h _)
    | inr new ↦ rw new (with_settings t h _)
  ];
}
