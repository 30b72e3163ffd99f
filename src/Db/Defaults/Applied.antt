-- ===== src/Db/Defaults/Applied.antt =====
-- What the upserts of src/db/mod.rs that succeed leave in the tables.
pub mod Loops
use hi_mqtt.Prelude.{
  ℕ, suc, ◌≡◌, refl, ap, ◌∙◌, Bool, true, false, not, ◌&&◌, ◌||◌, Option, none, some, List, [], ◌∷◌,
  ◌++◌, Text, codes, text_eq, text_eq_iff, text_eq_refl, any, any-append, update_where, arith,
  Bool-cases, Option-cases, inl, inr, if◌then◌else◌,
}
use hi_mqtt.Prelude.Exec.{ok, bind-ok}
use hi_mqtt.Db.Schema.{
  MqttTopicRow, AclRuleRow, DefaultTopicTemplate, DefaultAclTemplate, UserDefaultsSettings, Tables,
}
use hi_mqtt.Db.Query.{Db, Link, Database, run}
use hi_mqtt.Db.Query.Laws.{run-ok}
use hi_mqtt.Db.Acls.{keyed}
use hi_mqtt.Db.Defaults.{
  apply_topics, apply_acls, apply_user_defaults, upsert_topic, upsert_acl, render_template,
  coalesce,
}

-- An update of topics that leaves their names.
any-update_topic :
    (q : Text → Bool) (same : MqttTopicRow → Bool) (set : MqttTopicRow → MqttTopicRow)
    (rows : List MqttTopicRow)
    → ((r : MqttTopicRow) → (set r).topic ≡ r.topic)
    → any (λ (r : MqttTopicRow). q r.topic) (update_where same set rows)
      ≡ any (λ (r : MqttTopicRow). q r.topic) rows
unfolding update_where
any-update_topic q same set [] h = refl
any-update_topic q same set (r ∷ rows) h = ground (arith, h r, any-update_topic q same set rows h)

any-named :
    (q : Text → Bool) (topic : Text) (rows : List MqttTopicRow)
    → any (λ (r : MqttTopicRow). text_eq r.topic topic) rows ≡ true
    → any (λ (r : MqttTopicRow). q r.topic) rows
      ≡ (q topic || any (λ (r : MqttTopicRow). q r.topic) rows)
any-named q topic [] h = cc
any-named q topic (r ∷ rows) h = elim (Bool-cases (text_eq r.topic topic)) [
  | inl e ↦ ground (arith, (text_eq_iff r.topic topic).0 e)
  | inr e ↦ ground (arith, e, h, any-named q topic rows)
]

-- An upsert that succeeds adds its topic, and no other.
pub upsert_topic-any :
    (q : Text → Bool) (topic description username : Text) (now : ℕ) (t : Tables)
    → (upsert_topic topic description username now t).0 ≡ ok tt
    → any (λ (r : MqttTopicRow). q r.topic) (upsert_topic topic description username now t).1.topics
      ≡ (q topic || any (λ (r : MqttTopicRow). q r.topic) t.topics)
unfolding upsert_topic
upsert_topic-any q topic description username now t h =
    elim (Bool-cases (any (λ (r : MqttTopicRow). text_eq r.topic topic) t.topics)) [
      | inl there ↦ ground (
        arith,
        there,
        h,
        any-named q topic t.topics there,
        any-update_topic q (λ (r : MqttTopicRow). text_eq r.topic topic)
            (λ (r : MqttTopicRow). record r {
              description = description;
              owner_username = coalesce r.owner_username username;
            })
            t.topics (λ r. refl),
      )
      | inr new ↦
          let row : MqttTopicRow = record {
            id = suc t.topic_seq;
            topic = topic;
            description = description;
            owner_username = some username;
            created_at = now;
          } in
          ground (arith, new, h, any-append (λ (r : MqttTopicRow). q r.topic) t.topics (row ∷ []))
    ]

module _ (username pattern : Text) (allows : Bool → Bool → Bool) where
  -- A rule of this user for this pattern whose two permissions pass the test.
  abbrev pub standing : AclRuleRow → Bool
  standing r = keyed username pattern r && allows r.can_subscribe r.can_publish

  abbrev set_rule : Bool → Bool → AclRuleRow → AclRuleRow
  set_rule s p r = record r { can_subscribe = s; can_publish = p }

  update-standing :
      (s p : Bool) (rows : List AclRuleRow)
      → allows s p ≡ true
      → any (keyed username pattern) rows ≡ true
      → any standing (update_where (keyed username pattern) (set_rule s p) rows) ≡ true
  unfolding update_where
  update-standing s p [] a h = cc
  update-standing s p (r ∷ rows) a h = elim (Bool-cases (keyed username pattern r)) [
    | inl e ↦ ground (arith, e, a)
    | inr e ↦ ground (arith, e, update-standing s p rows a)
  ]

  update-other :
      (other : Text) (s p : Bool) (rows : List AclRuleRow)
      → text_eq other pattern ≡ false
      → any standing rows ≡ true
      → any standing (update_where (keyed username other) (set_rule s p) rows) ≡ true
  unfolding update_where
  update-other other s p [] d h = h
  update-other other s p (r ∷ rows) d h = elim (Bool-cases (text_eq r.topic_pattern other)) [
    | inl e ↦
        let same = (text_eq_iff r.topic_pattern other).0 e in
        let apart : text_eq r.topic_pattern pattern ≡ false = rw same d in
        ground (arith, apart, h, update-other other s p rows d)
    | inr e ↦ ground (arith, e, h, update-other other s p rows d)
  ]

  new_rule : ℕ → Text → Bool → Bool → ℕ → AclRuleRow
  new_rule id topic_pattern s p now = record {
    id = id;
    username = username;
    topic_pattern = topic_pattern;
    can_subscribe = s;
    can_publish = p;
    created_at = now;
  }

  -- An upsert that succeeds makes its rule stand.
  pub upsert_acl-standing :
      (s p : Bool) (now : ℕ) (t : Tables)
      → allows s p ≡ true
      → (upsert_acl username pattern s p now t).0 ≡ ok tt
      → any standing (upsert_acl username pattern s p now t).1.acls ≡ true
  unfolding upsert_acl new_rule
  upsert_acl-standing s p now t a h = elim (Bool-cases (any (keyed username pattern) t.acls)) [
    | inl there ↦ ground (arith, there, update-standing s p t.acls a there)
    | inr new ↦ ground (
      arith,
      new,
      h,
      a,
      text_eq_refl username,
      text_eq_refl pattern,
      any-append standing t.acls (new_rule (suc t.acl_seq) pattern s p now ∷ []),
    )
  ]

  -- An upsert for another pattern leaves it standing.
  pub upsert_acl-other :
      (other : Text) (s p : Bool) (now : ℕ) (t : Tables)
      → text_eq other pattern ≡ false
      → any standing t.acls ≡ true
      → any standing (upsert_acl username other s p now t).1.acls ≡ true
  unfolding upsert_acl new_rule
  upsert_acl-other other s p now t d h = elim (Bool-cases (any (keyed username other) t.acls)) [
    | inl there ↦ ground (arith, there, update-other other s p t.acls d h)
    | inr new ↦
        ground
          (arith, new, h, any-append standing t.acls (new_rule (suc t.acl_seq) other s p now ∷ []))
  ]
