-- ===== src/Admin/Provisioning/Effect.antt =====
-- What creating a user with the templates, through the handlers of src/admin/mod.rs, means for the
-- broker.
use hi_mqtt.Prelude.{
  ◌≡◌, ap, ◌∙◌, Bool, true, false, not, ◌||◌, some, List, Text, any, any_mono, is_empty,
  text_eq_iff, arith,
}
use hi_mqtt.Prelude.Exec.{ok}
use hi_mqtt.Db.Schema.{
  MqttUserRow, MqttTopicRow, AclRuleRow, DefaultTopicTemplate, DefaultAclTemplate,
  UserDefaultsSettings, Tables,
}
use hi_mqtt.Db.Defaults.{render_template}
use hi_mqtt.Db.Defaults.Settings.{stored, defaults_in}
use hi_mqtt.Db.Defaults.Applied.{standing}
use hi_mqtt.Db.Defaults.Applied.Loops.{last_for, apply_user_defaults-provides}
use hi_mqtt.Acl.Matcher.{Matches}
use hi_mqtt.Acl.Cache.{AclOperation, AclConfig, check_acl, rule_allows, allowed_topic}
use hi_mqtt.Acl.Decision.{grants}
use hi_mqtt.Acl.Service.Rows.{check_acl-IsFresh}
use hi_mqtt.Admin.Server.{AppState, Env, created}
use hi_mqtt.Admin.Server.Laws.{tables_of}
use hi_mqtt.Admin.Users.{CreateMqttUserRequest, create_mqtt_user}
use hi_mqtt.Admin.Provisioning.{create_mqtt_user-provided}

-- The rule that a template renders to.
abbrev pub rendered_rule : Text → Text → DefaultAclTemplate → AclRuleRow
rendered_rule username pattern acl = record {
  id = 0;
  username = username;
  topic_pattern = pattern;
  can_subscribe = acl.can_subscribe;
  can_publish = acl.can_publish;
  created_at = 0;
}

module _ (matches : Matches) (op : AclOperation) (target username pattern : Text) where
  abbrev permits : Bool → Bool → Bool
  permits s p = rule_allows matches op target (
      rendered_rule username pattern
        (record { topic_pattern = pattern; can_subscribe = s; can_publish = p }))

  standing-grants :
      (r : AclRuleRow)
      → standing username pattern permits r ≡ true
      → grants matches op target username r ≡ true
  unfolding rule_allows
  standing-grants r h = ground (arith, h, text_eq_iff r.topic_pattern pattern)

-- A user that was created with the templates, and a reply of 201, may do what the stored templates
-- say, for its name, from that moment: what the last template for a pattern allows the broker
-- allows, if the user has a name and, where registration is enforced, a template or an entry that
-- was registered before covers the target.
pub create_mqtt_user-provisions :
    (env : Env) (body : CreateMqttUserRequest) (s : AppState) (user : MqttUserRow)
    (matches : Matches) (config : AclConfig) (target : Text) (op : AclOperation)
    (defaults : UserDefaultsSettings) (pattern : Text) (acl : DefaultAclTemplate)
    → (create_mqtt_user env body s).0 ≡ ok (created, user)
    → body.apply_defaults ≡ true
    → is_empty body.username ≡ false
    → defaults_in env.link env.serde (stored (tables_of s).settings) ≡ some defaults
    → last_for body.username pattern defaults.default_acls ≡ some acl
    → rule_allows matches op target (rendered_rule body.username pattern acl) ≡ true
    → (not config.enforce_registered_topics
        || (any
              (λ (t : DefaultTopicTemplate).
                allowed_topic op target (render_template t.topic body.username))
              defaults.default_topics
            || any (λ (r : MqttTopicRow). allowed_topic op target r.topic) (tables_of s).topics))
      ≡ true
    → check_acl matches config (create_mqtt_user env body s).1.acl.cache body.username target op
      ≡ true
create_mqtt_user-provisions env body s user matches config target op defaults pattern acl h e named
      k last permitted covered =
    let (read, d, stored_there, before, applied, tables, fresh) =
      create_mqtt_user-provided env body s user h e in
    let same : read ≡ defaults = cc in
    let t = tables_of (create_mqtt_user env body s).1 in
    let allows = permits matches op target body.username pattern in
    let q = allowed_topic op target in
    let (ruled, topics) =
      apply_user_defaults-provides env.link body.username pattern allows q defaults acl d
        (rw same at applied) last permitted in
    let left = rw same at tables in
    let registers = λ (rows : List MqttTopicRow). any (λ (r : MqttTopicRow). q r.topic) rows in
    let from_templates =
      any (λ (t : DefaultTopicTemplate). q (render_template t.topic body.username))
        defaults.default_topics in
    let granted : any (grants matches op target body.username) t.acls ≡ true = rw left (
      any_mono (standing body.username pattern allows) (grants matches op target body.username) _
        (standing-grants matches op target body.username pattern) ruled) in
    let covers : registers t.topics ≡ (from_templates || registers (tables_of s).topics) =
      ap (λ (t : Tables). registers t.topics) left
      ∙ topics
      ∙ ap (λ (rows : List MqttTopicRow). from_templates || registers rows) before in
    ground (
      arith,
      granted,
      covers,
      covered,
      named,
      check_acl-IsFresh matches config (create_mqtt_user env body s).1.acl body.username target op
          fresh,
    )
