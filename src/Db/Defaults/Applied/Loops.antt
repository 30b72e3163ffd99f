-- ===== src/Db/Defaults/Applied/Loops.antt =====
-- Templates of src/db/mod.rs that were applied with success are in the tables: each topic is
-- registered, and of the rules for one pattern the last one stands.
use hi_mqtt.Prelude.{
  ℕ, ◌≡◌, refl, Bool, true, false, ◌||◌, Option, none, some, List, [], ◌∷◌, Text, codes, text_eq,
  text_eq_iff, any, arith, Option-cases, inl, inr, if◌then◌else◌,
}
use hi_mqtt.Prelude.Exec.{ok, bind-ok}
use hi_mqtt.Db.Schema.{MqttTopicRow, DefaultTopicTemplate, DefaultAclTemplate, UserDefaultsSettings}
use hi_mqtt.Db.Schema.{Tables}
use hi_mqtt.Db.Query.{Db, Link, Database, run}
use hi_mqtt.Db.Query.Laws.{run-ok}
use hi_mqtt.Db.Defaults.{
  apply_topics, apply_acls, apply_user_defaults, upsert_topic, upsert_acl, render_template,
}
use hi_mqtt.Db.Defaults.Applied.{standing, upsert_topic-any, upsert_acl-standing, upsert_acl-other}

abbrev later : {A : Type 0} → Option A → Option A → Option A
later (some a) other = some a
later none other = other

-- The last template that renders to this pattern.
abbrev pub last_for : Text → Text → List DefaultAclTemplate → Option DefaultAclTemplate
last_for username pattern [] = none
last_for username pattern (acl ∷ acls) =
    later (last_for username pattern acls)
      (if text_eq (render_template acl.topic_pattern username) pattern then some acl else none)

module _ (username pattern : Text) (allows : Bool → Bool → Bool) where
  module _ (link : Link) where
    send_acl : DefaultAclTemplate → Db (Unit {0})
    send_acl acl = run link (codes "应用默认 ACL 失败") (
        upsert_acl username (render_template acl.topic_pattern username) acl.can_subscribe
          acl.can_publish)

    -- A round for another pattern, or for this one where the test passes.
    send_acl-standing :
        (acl : DefaultAclTemplate) (d : Database)
        → (send_acl acl d).0 ≡ ok tt
        → text_eq (render_template acl.topic_pattern username) pattern ≡ true
        → allows acl.can_subscribe acl.can_publish ≡ true
        → any (standing username pattern allows) (send_acl acl d).1.tables.acls ≡ true
    unfolding send_acl
    send_acl-standing acl d h e a =
        let (answered, tables) = run-ok link _ _ d tt h in
        let rendered = (text_eq_iff (render_template acl.topic_pattern username) pattern).0 e in
        rw (tables, rendered)
          (upsert_acl-standing username pattern allows acl.can_subscribe acl.can_publish _ d.tables
            a (rw rendered at answered))

    send_acl-other :
        (acl : DefaultAclTemplate) (d : Database)
        → (send_acl acl d).0 ≡ ok tt
        → text_eq (render_template acl.topic_pattern username) pattern ≡ false
        → any (standing username pattern allows) d.tables.acls ≡ true
        → any (standing username pattern allows) (send_acl acl d).1.tables.acls ≡ true
    unfolding send_acl
    send_acl-other acl d h e k =
        let (_, tables) = run-ok link _ _ d tt h in
        rw tables (
          upsert_acl-other username pattern allows _ acl.can_subscribe acl.can_publish _ d.tables e
            k)

    apply_acls-other :
        (acls : List DefaultAclTemplate) (d : Database)
        → (apply_acls link username acls d).0 ≡ ok tt
        → last_for username pattern acls ≡ none
        → any (standing username pattern allows) d.tables.acls ≡ true
        → any (standing username pattern allows) (apply_acls link username acls d).1.tables.acls
          ≡ true
    unfolding apply_acls send_acl
    apply_acls-other [] d h l k = k
    apply_acls-other (acl ∷ acls) d h l k =
        let (_, sent, same, rest) =
          bind-ok (send_acl acl) (λ _. apply_acls link username acls) d tt h in
        let step = send_acl-other acl d sent (ground (arith, l)) k in
        rw same (apply_acls-other acls (send_acl acl d).1 rest (ground (arith, l)) step)

    -- After the rules were applied with success, the last one for the pattern stands.
    pub apply_acls-standing :
        (acls : List DefaultAclTemplate) (a : DefaultAclTemplate) (d : Database)
        → (apply_acls link username acls d).0 ≡ ok tt
        → last_for username pattern acls ≡ some a
        → allows a.can_subscribe a.can_publish ≡ true
        → any (standing username pattern allows) (apply_acls link username acls d).1.tables.acls
          ≡ true
    unfolding apply_acls send_acl
    apply_acls-standing [] a d h l p = cc
    apply_acls-standing (acl ∷ acls) a d h l p =
        let (_, sent, same, rest) =
          bind-ok (send_acl acl) (λ _. apply_acls link username acls) d tt h in
        let after = (send_acl acl d).1 in
        rw same (elim (Option-cases (last_for username pattern acls)) [
          | inl last ↦
              apply_acls-other acls after rest last (
                send_acl-standing acl d sent (ground (arith, l, last)) (ground (arith, l, last, p)))
          | inr (b, more) ↦ apply_acls-standing acls a after rest (ground (arith, l, more)) p
        ])

pub apply_topics-any :
    (link : Link) (username : Text) (q : Text → Bool) (topics : List DefaultTopicTemplate)
    (d : Database)
    → (apply_topics link username topics d).0 ≡ ok tt
    → any (λ (r : MqttTopicRow). q r.topic) (apply_topics link username topics d).1.tables.topics
      ≡ (any (λ (t : DefaultTopicTemplate). q (render_template t.topic username)) topics
          || any (λ (r : MqttTopicRow). q r.topic) d.tables.topics)
unfolding apply_topics
apply_topics-any link username q [] d h = refl
apply_topics-any link username q (topic ∷ topics) d h =
    let name = render_template topic.topic username in
    let description = render_template topic.description username in
    let statement = upsert_topic name description username in
    let send = run link (codes "应用默认 Topic 失败") statement in
    let (_, sent, same, rest) = bind-ok send (λ _. apply_topics link username topics) d tt h in
    let (answered, tables) = run-ok link (codes "应用默认 Topic 失败") statement d tt sent in
    let one =
      upsert_topic-any q name description username (link.now d.statements) d.tables answered in
    let all = apply_topics-any link username q topics (send d).1 rest in
    rw same (ground (arith, all, tables, one))

topics-upsert_acl :
    (username topic_pattern : Text) (s p : Bool) (now : ℕ) (t : Tables)
    → (upsert_acl username topic_pattern s p now t).1.topics ≡ t.topics
unfolding upsert_acl
topics-upsert_acl username topic_pattern s p now t = ground arith

topics-apply_acls :
    (link : Link) (username : Text) (acls : List DefaultAclTemplate) (d : Database)
    → (apply_acls link username acls d).0 ≡ ok tt
    → (apply_acls link username acls d).1.tables.topics ≡ d.tables.topics
unfolding apply_acls
topics-apply_acls link username [] d h = refl
topics-apply_acls link username (acl ∷ acls) d h =
    let pattern = render_template acl.topic_pattern username in
    let statement = upsert_acl username pattern acl.can_subscribe acl.can_publish in
    let send = run link (codes "应用默认 ACL 失败") statement in
    let (_, sent, same, rest) = bind-ok send (λ _. apply_acls link username acls) d tt h in
    let (_, tables) = run-ok link (codes "应用默认 ACL 失败") statement d tt sent in
    let all = topics-apply_acls link username acls (send d).1 rest in
    let one =
      topics-upsert_acl username pattern acl.can_subscribe acl.can_publish (link.now d.statements)
        d.tables in
    rw same (ground (arith, all, tables, one))

-- What applying templates with success provides: a rule for each pattern, as its last template
-- says, and every topic.
pub apply_user_defaults-provides :
    (link : Link) (username pattern : Text) (allows : Bool → Bool → Bool) (q : Text → Bool)
    (defaults : UserDefaultsSettings) (a : DefaultAclTemplate) (d : Database)
    → (apply_user_defaults link username defaults d).0 ≡ ok tt
    → last_for username pattern defaults.default_acls ≡ some a
    → allows a.can_subscribe a.can_publish ≡ true
    → (any
          (standing username pattern allows)
          (apply_user_defaults link username defaults d).1.tables.acls
        ≡ true)
      × (any
            (λ (r : MqttTopicRow). q r.topic)
            (apply_user_defaults link username defaults d).1.tables.topics
          ≡ (any
                (λ (t : DefaultTopicTemplate). q (render_template t.topic username))
                defaults.default_topics
              || any (λ (r : MqttTopicRow). q r.topic) d.tables.topics))
unfolding apply_user_defaults
apply_user_defaults-provides link username pattern allows q defaults a d h l p =
    let first = apply_topics link username defaults.default_topics in
    let (_, named, same, rest) =
      bind-ok first (λ _. apply_acls link username defaults.default_acls) d tt h in
    let ruled =
      apply_acls-standing username pattern allows link defaults.default_acls a (first d).1 rest l
        p in
    let topics = apply_topics-any link username q defaults.default_topics d named in
    let kept = topics-apply_acls link username defaults.default_acls (first d).1 rest in
    rw same (ruled, rw kept topics)
