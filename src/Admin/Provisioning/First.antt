-- ===== src/Admin/Provisioning/First.antt =====
-- The users of a new installation: what the templates of migrations/002 give them.
use hi_mqtt.Prelude.{
  ℕ, ◌≡◌, refl, sym, ap, ◌∙◌, true, false, some, ◌++◌, Text, codes, All, find, is_empty, replace,
  starts_with, starts_with_iff, strip_suffix-append, text_eq_refl, arith,
}
use mathlib.Core.List.{append_assoc}
use hi_mqtt.Prelude.Exec.{ok}
use hi_mqtt.Db.Schema.{MqttUserRow, DefaultTopicTemplate, DefaultAclTemplate}
use hi_mqtt.Db.Defaults.{defaults_key, render_template}
use hi_mqtt.Db.Defaults.Settings.{stored, defaults_in}
use hi_mqtt.Db.Defaults.Applied.Loops.{last_for}
use hi_mqtt.Db.Migrations.{created_tables, first_defaults, insert_first_defaults, migrated}
use hi_mqtt.Acl.Matcher.{Matches, subscribe_allowed, publish_allowed, registered_covers}
use hi_mqtt.Acl.Cache.{
  AclOperation, AclConfig, subscribe, publish, check_acl, rule_allows, allowed_topic,
}
use hi_mqtt.Admin.Server.{AppState, Env, created}
use hi_mqtt.Admin.Server.Laws.{tables_of}
use hi_mqtt.Admin.Users.{CreateMqttUserRequest, create_mqtt_user}
use hi_mqtt.Admin.Provisioning.Effect.{rendered_rule, create_mqtt_user-provisions}

-- The pattern of the first rule, for this user.
abbrev pub own_pattern : Text → Text
own_pattern username = render_template (codes "devices/{username}/#") username

own_rule : DefaultAclTemplate
own_rule = record {
  topic_pattern = codes "devices/{username}/#";
  can_subscribe = true;
  can_publish = true;
}

own_pattern-splits :
    (username : Text) → own_pattern username ≡ (codes "devices/" ++ username) ++ codes "/#"
unfolding render_template replace starts_with
own_pattern-splits username = refl

last_for-first :
    (username : Text)
    → last_for username (own_pattern username) first_defaults.default_acls ≡ some own_rule
unfolding first_defaults own_rule
last_for-first username = ground (arith, text_eq_refl (own_pattern username))

-- The subscription test under `base/#` takes what begins with `base/`.
subscribe_allowed-below :
    (base leaf : Text) → subscribe_allowed (base ++ codes "/#") ((base ++ codes "/") ++ leaf) ≡ true
unfolding subscribe_allowed
subscribe_allowed-below base leaf = ground (
  arith,
  strip_suffix-append base (codes "/#"),
  (starts_with_iff ((base ++ codes "/") ++ leaf) (base ++ codes "/")).1 (leaf, refl),
)

own_topic : Text → Text → Text
own_topic username leaf = ((codes "devices/" ++ username) ++ codes "/") ++ leaf

own_topic-data :
    (username : Text)
    → render_template (codes "devices/{username}/data") username ≡ own_topic username (codes "data")
unfolding render_template replace starts_with own_topic
own_topic-data username = simp append_assoc

own_topic-cmd :
    (username : Text)
    → render_template (codes "devices/{username}/cmd") username ≡ own_topic username (codes "cmd")
unfolding render_template replace starts_with own_topic
own_topic-cmd username = simp append_assoc

subscribe_own :
    (username leaf : Text)
    → subscribe_allowed (own_pattern username) (own_topic username leaf) ≡ true
unfolding own_topic
subscribe_own username leaf =
    ap (λ (p : Text). subscribe_allowed p (own_topic username leaf)) (own_pattern-splits username)
    ∙ subscribe_allowed-below (codes "devices/" ++ username) leaf

-- The rule of the first templates allows both operations.
own_rule-allows :
    (matches : Matches) (op : AclOperation) (username leaf : Text)
    → matches (own_topic username leaf) (own_pattern username) ≡ true
    → rule_allows matches op
        (own_topic username leaf)
        (rendered_rule username (own_pattern username) own_rule)
      ≡ true
unfolding rule_allows publish_allowed own_rule
own_rule-allows matches subscribe username leaf h = ground (arith, subscribe_own username leaf)
own_rule-allows matches publish username leaf h = ground (arith, h)

own_topic-allows :
    (matches : Matches) (op : AclOperation) (username topic leaf : Text)
    → topic ≡ own_topic username leaf
    → matches topic (own_pattern username) ≡ true
    → rule_allows matches op topic (rendered_rule username (own_pattern username) own_rule) ≡ true
own_topic-allows matches op username topic leaf e h =
    ap
      (λ (t : Text).
        rule_allows matches op t (rendered_rule username (own_pattern username) own_rule))
      e
    ∙ own_rule-allows matches op username leaf
        (ap (λ (t : Text). matches t (own_pattern username)) (sym e) ∙ h)

allowed_topic-same : (op : AclOperation) (topic : Text) → allowed_topic op topic topic ≡ true
unfolding allowed_topic registered_covers
allowed_topic-same subscribe topic = ground (arith, text_eq_refl topic)
allowed_topic-same publish topic = ground (arith, text_eq_refl topic)

defaults_in-migrated :
    (env : Env) (value : Text) (now : ℕ)
    → env.serde.from_value value ≡ some first_defaults
    → defaults_in env.link env.serde (stored (migrated value now).settings) ≡ some first_defaults
unfolding migrated insert_first_defaults created_tables find
defaults_in-migrated env value now h = ground (arith, h, text_eq_refl defaults_key)

-- While the settings are those of a new installation, whatever else is in the tables, a user that
-- was created with the templates and a reply of 201, and has a name, may from that moment subscribe
-- and publish to devices/<name>/data and devices/<name>/cmd, whatever the access settings, if the
-- broker matches these topics to devices/<name>/#.
pub first_user_may :
    (env : Env) (body : CreateMqttUserRequest) (s : AppState) (user : MqttUserRow)
    (matches : Matches) (config : AclConfig) (op : AclOperation) (value : Text) (now : ℕ)
    → env.serde.from_value value ≡ some first_defaults
    → (tables_of s).settings ≡ (migrated value now).settings
    → (create_mqtt_user env body s).0 ≡ ok (created, user)
    → body.apply_defaults ≡ true
    → is_empty body.username ≡ false
    → All
        (λ (t : DefaultTopicTemplate).
          matches (render_template t.topic body.username) (own_pattern body.username) ≡ true)
        first_defaults.default_topics
    → All
        (λ (t : DefaultTopicTemplate).
          check_acl matches config
            (create_mqtt_user env body s).1.acl.cache
            body.username
            (render_template t.topic body.username)
            op
          ≡ true)
        first_defaults.default_topics
unfolding first_defaults
first_user_may env body s user matches config op value now parses fresh h e named
      (data_matches, (cmd_matches, _)) =
    let u = body.username in
    let read : defaults_in env.link env.serde (stored (tables_of s).settings)
        ≡ some first_defaults =
      rw fresh (defaults_in-migrated env value now parses) in
    let may = λ (target : Text).
      create_mqtt_user-provisions env body s user matches config target op first_defaults
        (own_pattern u) own_rule h e named read (last_for-first u) in
    let data_topic = render_template (codes "devices/{username}/data") u in
    let cmd_topic = render_template (codes "devices/{username}/cmd") u in
    (
      may data_topic
          (own_topic-allows matches op u data_topic (codes "data") (own_topic-data u) data_matches)
          (ground (arith, allowed_topic-same op data_topic)),
      (
        may cmd_topic
            (own_topic-allows matches op u cmd_topic (codes "cmd") (own_topic-cmd u) cmd_matches)
            (ground (arith, allowed_topic-same op cmd_topic)),
        tt,
      ),
    )
