-- ===== src/Db/Constraints/Rules.antt =====
-- The statements on the registered topics and the access rules, src/db/mod.rs, keep the constraints.
use hi_mqtt.Prelude.{
  ℕ, suc, ◌≡◌, refl, Bool, true, false, not, Option, [], ◌∷◌, ◌++◌, Text, text_eq, any, All-append,
  select, ◌==◌, Bool-cases, inl, inr,
}
use hi_mqtt.Prelude.Keeps.{Keeps}
use hi_mqtt.Db.Schema.{MqttTopicRow, AclRuleRow, Tables, has_user, has_owner}
use hi_mqtt.Db.Topics.{insert_topic, remove_topic}
use hi_mqtt.Db.Acls.{keyed, insert_acl, remove_acl}
use hi_mqtt.Db.Table.{All-mono, All-select, All-none, IsTable-later, IsTable-add, IsTable-select}
use hi_mqtt.Db.Constraints.{IsSound, with_topics, with_acls}

-- A new row with the next id.
module _ (t : Tables) (h : IsSound t) where
  pub later_topics : IsSound (record t { topic_seq = suc t.topic_seq })
  later_topics =
      with_topics t h (suc t.topic_seq) t.topics (IsTable-later _ _ _ _ h.topics) h.topic_owners

  pub later_acls : IsSound (record t { acl_seq = suc t.acl_seq })
  later_acls = with_acls t h (suc t.acl_seq) t.acls (IsTable-later _ _ _ _ h.acls) h.rule_users

  pub add_topic :
      (row : MqttTopicRow)
      → row.id ≡ suc t.topic_seq
      → any (λ r. text_eq r.topic row.topic) t.topics ≡ false
      → has_owner t.users row.owner_username ≡ true
      → IsSound (record t { topics = t.topics ++ row ∷ []; topic_seq = suc t.topic_seq })
  add_topic row e new owned =
      with_topics t h (suc t.topic_seq) (t.topics ++ row ∷ [])
        (IsTable-add _ _ t.topic_seq t.topics row e (All-none _ t.topics new) h.topics)
        (All-append _ t.topics (row ∷ []) h.topic_owners (owned, tt))

  pub add_acl :
      (row : AclRuleRow)
      → row.id ≡ suc t.acl_seq
      → any (keyed row.username row.topic_pattern) t.acls ≡ false
      → has_user t.users row.username ≡ true
      → IsSound (record t { acls = t.acls ++ row ∷ []; acl_seq = suc t.acl_seq })
  add_acl row e new owned =
      with_acls t h (suc t.acl_seq) (t.acls ++ row ∷ [])
        (IsTable-add _ _ t.acl_seq t.acls row e (All-none _ t.acls new) h.acls)
        (All-append _ t.acls (row ∷ []) h.rule_users (owned, tt))

pub insert_topic-IsSound :
    (topic description : Text) (owner_username : Option Text) (now : ℕ)
    → Keeps IsSound (insert_topic topic description owner_username now)
unfolding insert_topic
insert_topic-IsSound topic description owner_username now = record {
  at = λ t h. elim (Bool-cases (any (λ r. text_eq r.topic topic) t.topics)) [
    | inl taken ↦ rw taken (later_topics t h)
    | inr free ↦ elim (Bool-cases (has_owner t.users owner_username)) [
      | inl there ↦ rw (free, there) (add_topic t h _ refl free there)
      | inr missing ↦ rw (free, missing) (later_topics t h)
    ]
  ];
}

pub remove_topic-IsSound : (id now : ℕ) → Keeps IsSound (remove_topic id now)
unfolding remove_topic
remove_topic-IsSound id now = record {
  at = λ t h.
      with_topics t h t.topic_seq (select (λ r. not (r.id == id)) t.topics)
        (IsTable-select _ _ _ t.topic_seq t.topics h.topics)
        (All-mono _ _ _ (λ r p. p.0) (All-select _ _ t.topics h.topic_owners));
}

pub insert_acl-IsSound :
    (username topic_pattern : Text) (can_subscribe can_publish : Bool) (now : ℕ)
    → Keeps IsSound (insert_acl username topic_pattern can_subscribe can_publish now)
unfolding insert_acl
insert_acl-IsSound username topic_pattern can_subscribe can_publish now = record {
  at = λ t h. elim (Bool-cases (any (keyed username topic_pattern) t.acls)) [
    | inl taken ↦ rw taken (later_acls t h)
    | inr free ↦ elim (Bool-cases (has_user t.users username)) [
      | inl there ↦ rw (free, there) (add_acl t h _ refl free there)
      | inr missing ↦ rw (free, missing) (later_acls t h)
    ]
  ];
}

pub remove_acl-IsSound : (id now : ℕ) → Keeps IsSound (remove_acl id now)
unfolding remove_acl
remove_acl-IsSound id now = record {
  at = λ t h.
      with_acls t h t.acl_seq (select (λ r. not (r.id == id)) t.acls)
        (IsTable-select _ _ _ t.acl_seq t.acls h.acls)
        (All-mono _ _ _ (λ r p. p.0) (All-select _ _ t.acls h.rule_users));
}
