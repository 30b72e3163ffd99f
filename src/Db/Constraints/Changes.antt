-- ===== src/Db/Constraints/Changes.antt =====
-- The statements that change registered topics and access rules, src/db/mod.rs, keep the
-- constraints: the primary keys make sure that a change by an id meets one row.
use hi_mqtt.Prelude.{
  ℕ, ◌≡◌, Bool, true, false, not, ◌&&◌, Option, map, Text, text_eq, text_eq_iff, any, arith, ◌==◌,
  Bool-cases, inl, inr, if◌then◌else◌,
}
use hi_mqtt.Prelude.Keeps.{Keeps}
use hi_mqtt.Db.Schema.{MqttTopicRow, AclRuleRow, Tables, has_owner}
use hi_mqtt.Db.Topics.{set_topic}
use hi_mqtt.Db.Acls.{keyed, clashes, set_acl}
use hi_mqtt.Db.Table.{
  All-and, All-none, All-map, All-member, update_where-map, update_where-none, IsTable-map,
}
use hi_mqtt.Db.Constraints.{IsSound, with_topics, with_acls}

module _ (id : ℕ) (topic description : Text) (owner_username : Option Text) where
  abbrev set : MqttTopicRow → MqttTopicRow
  set r = record r { topic = topic; description = description; owner_username = owner_username }

  abbrev change : MqttTopicRow → MqttTopicRow
  change r = if r.id == id then set r else r

  changed_topic :
      (t : Tables)
      → IsSound t
      → any (λ r. text_eq r.topic topic && not (r.id == id)) t.topics ≡ false
      → has_owner t.users owner_username ≡ true
      → IsSound (record t { topics = map change t.topics })
  changed_topic t h free owned =
      with_topics t h t.topic_seq (map change t.topics)
        (IsTable-map _ _ _ change t.topic_seq t.topics (λ r. ground arith)
          (λ x y qx qy ne r. ground (
            arith,
            qx,
            qy,
            ne,
            r,
            text_eq_iff x.topic topic,
            text_eq_iff y.topic topic,
            text_eq_iff topic x.topic,
            text_eq_iff topic y.topic,
          ))
          (All-none _ t.topics free) h.topics)
        (All-map _ _ change t.topics (λ r o. ground (arith, o, owned)) h.topic_owners)

  pub set_topic-IsSound :
      (now : ℕ) → Keeps IsSound (set_topic id topic description owner_username now)
  unfolding set_topic
  set_topic-IsSound now = record {
    at = λ t h.
        let same = update_where-map (λ (r : MqttTopicRow). r.id == id) set t.topics in
        elim (Bool-cases (any (λ (r : MqttTopicRow). r.id == id) t.topics)) [
          | inr missing ↦
              rw
                (missing, update_where-none (λ (r : MqttTopicRow). r.id == id) set t.topics missing)
                h
          | inl found ↦
              elim (Bool-cases
                (any (λ (r : MqttTopicRow). text_eq r.topic topic && not (r.id == id)) t.topics)) [
                  | inl taken ↦ rw (found, taken) h
                  | inr free ↦ elim (Bool-cases (has_owner t.users owner_username)) [
                    | inl there ↦ rw (found, free, there, same) (changed_topic t h free there)
                    | inr dangling ↦ rw (found, free, dangling) h
                  ]
                ]
        ];
  }

module _ (id : ℕ) (topic_pattern : Text) (can_subscribe can_publish : Bool) where
  abbrev set_rule : AclRuleRow → AclRuleRow
  set_rule r = record r {
    topic_pattern = topic_pattern;
    can_subscribe = can_subscribe;
    can_publish = can_publish;
  }

  abbrev change_rule : AclRuleRow → AclRuleRow
  change_rule r = if r.id == id then set_rule r else r

  abbrev another : AclRuleRow → AclRuleRow → Bool
  another r s = keyed r.username topic_pattern s && not (s.id == id)

  changed_acl :
      (t : Tables)
      → IsSound t
      → clashes id topic_pattern t.acls ≡ false
      → IsSound (record t { acls = map change_rule t.acls })
  changed_acl t h free =
      with_acls t h t.acl_seq (map change_rule t.acls)
        (IsTable-map _ _ _ change_rule t.acl_seq t.acls (λ r. ground arith)
          (λ x y qx qy ne r. ground (
            arith,
            qx.0,
            qy.0,
            ne,
            r,
            qy.1 (another x),
            qx.1 (another y),
            text_eq_iff x.username y.username,
            text_eq_iff y.username x.username,
            text_eq_iff y.topic_pattern topic_pattern,
            text_eq_iff topic_pattern y.topic_pattern,
          ))
          (All-and _ _ t.acls (All-none _ t.acls free) (All-member t.acls)) h.acls)
        (All-map _ _ change_rule t.acls (λ r o. ground (arith, o)) h.rule_users)

  pub set_acl-IsSound :
      (now : ℕ) → Keeps IsSound (set_acl id topic_pattern can_subscribe can_publish now)
  unfolding set_acl
  set_acl-IsSound now = record {
    at = λ t h. elim (Bool-cases (clashes id topic_pattern t.acls)) [
      | inl taken ↦ rw taken h
      | inr free ↦
          rw (free, update_where-map (λ (r : AclRuleRow). r.id == id) set_rule t.acls)
            (changed_acl t h free)
    ];
  }
