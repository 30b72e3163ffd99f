-- ===== src/Db/Defaults.antt =====
-- The templates that a new user gets, src/db/mod.rs. `serde_json` is a parameter.
pub mod Applied
pub mod Laws
pub mod Settings
use hi_mqtt.Prelude.{
  ℕ, suc, Option, none, some, List, [], ◌∷◌, ◌++◌, Text, codes, text_eq, replace, find, any,
  update_where, if◌then◌else◌, ◌≡◌, not, ◌&&◌, Bool,
}
use mathlib.Core.Option
use hi_mqtt.Prelude.Exec.{Result, ok, err, Exec, pure, ok_or, ◌>>=◌, ◌>>◌}
use hi_mqtt.Db.Schema.{
  MqttTopicRow, AclRuleRow, DefaultTopicTemplate, DefaultAclTemplate, UserDefaultsSettings,
  no_defaults, SettingRow, Tables, has_user, has_owner,
}
use hi_mqtt.Db.Query.{
  Db, DbError, Database, Link, Statement, run, because, bad_json, foreign_key_violation,
}
use hi_mqtt.Db.Acls.{keyed}

unfoldable pub render_template : Text → Text → Text
unfolding replace
render_template template username = replace template (codes "{username}") username

-- `COALESCE(owner, EXCLUDED.owner_username)`
abbrev pub coalesce : Option Text → Text → Option Text
coalesce none username = some username
coalesce (some owner) username = some owner

-- `INSERT INTO mqtt_topics … ON CONFLICT (topic) DO UPDATE`. The new owner, where there was none, is
-- a reference.
unfoldable pub upsert_topic : Text → Text → Text → Statement (Unit {0})
upsert_topic topic description username now t =
    let row : MqttTopicRow = record {
      id = suc t.topic_seq;
      topic = topic;
      description = description;
      owner_username = some username;
      created_at = now;
    } in
    let set = λ (r : MqttTopicRow). record r {
      description = description;
      owner_username = coalesce r.owner_username username;
    } in
    let same = λ (r : MqttTopicRow). text_eq r.topic topic in
    let dangling = λ (r : MqttTopicRow).
      same r && not (has_owner t.users (coalesce r.owner_username username)) in
    if any same t.topics
    then if any dangling t.topics
      then (err foreign_key_violation, record t { topic_seq = suc t.topic_seq })
      else (
        ok tt,
        record t { topics = update_where same set t.topics; topic_seq = suc t.topic_seq },
      )
    else if has_user t.users username
    then (ok tt, record t { topics = t.topics ++ row ∷ []; topic_seq = suc t.topic_seq })
    else (err foreign_key_violation, record t { topic_seq = suc t.topic_seq })

-- `INSERT INTO topic_acl … ON CONFLICT (username, topic_pattern) DO UPDATE`
unfoldable pub upsert_acl : Text → Text → Bool → Bool → Statement (Unit {0})
upsert_acl username topic_pattern can_subscribe can_publish now t =
    let row : AclRuleRow = record {
      id = suc t.acl_seq;
      username = username;
      topic_pattern = topic_pattern;
      can_subscribe = can_subscribe;
      can_publish = can_publish;
      created_at = now;
    } in
    let set =
      λ (r : AclRuleRow). record r { can_subscribe = can_subscribe; can_publish = can_publish } in
    if any (keyed username topic_pattern) t.acls
    then (
      ok tt,
      record t {
        acls = update_where (keyed username topic_pattern) set t.acls;
        acl_seq = suc t.acl_seq;
      },
    )
    else if has_user t.users username
    then (ok tt, record t { acls = t.acls ++ row ∷ []; acl_seq = suc t.acl_seq })
    else (err foreign_key_violation, record t { acl_seq = suc t.acl_seq })

abbrev pub defaults_key : Text
defaults_key = codes "user_defaults"

unfoldable pub select_defaults : Statement (Option Text)
select_defaults now t =
    (ok (Option.map (λ r. r.value) (find (λ r. text_eq r.key defaults_key) t.settings)), t)

-- `INSERT INTO system_settings … ON CONFLICT (key) DO UPDATE`
unfoldable pub upsert_defaults : Text → Statement (Unit {0})
upsert_defaults value now t =
    let row : SettingRow = record { key = defaults_key; value = value; updated_at = now } in
    let set = λ (r : SettingRow). record r { value = value; updated_at = now } in
    let same = λ (r : SettingRow). text_eq r.key defaults_key in
    if any same t.settings
    then (ok tt, record t { settings = update_where same set t.settings })
    else (ok tt, record t { settings = t.settings ++ row ∷ [] })

-- `serde_json::to_value` and `from_value` at `UserDefaultsSettings`.
pub record Serde : Type 0 where
  pub to_value : UserDefaultsSettings → Option Text
  pub from_value : Text → Option UserDefaultsSettings

-- What is serialised is read back.
pub record IsRoundTrip (serde : Serde) : Type 0 where
  pub reads_back :
      (d : UserDefaultsSettings) (v : Text)
      → serde.to_value d ≡ some v
      → serde.from_value v ≡ some d

module _ (link : Link) where
  -- The first loop of `apply_user_defaults`.
  unfoldable pub apply_topics : Text → List DefaultTopicTemplate → Db (Unit {0})
  unfolding run upsert_topic
  apply_topics username [] = pure tt
  apply_topics username (topic ∷ topics) = do
    run link (codes "应用默认 Topic 失败") (
        upsert_topic (render_template topic.topic username)
          (render_template topic.description username) username)
    apply_topics username topics

  -- The second loop.
  unfoldable pub apply_acls : Text → List DefaultAclTemplate → Db (Unit {0})
  unfolding run upsert_acl
  apply_acls username [] = pure tt
  apply_acls username (acl ∷ acls) = do
    run link (codes "应用默认 ACL 失败") (
        upsert_acl username (render_template acl.topic_pattern username) acl.can_subscribe
          acl.can_publish)
    apply_acls username acls

  unfoldable pub apply_user_defaults : Text → UserDefaultsSettings → Db (Unit {0})
  unfolding apply_topics apply_acls
  apply_user_defaults username defaults = do
    apply_topics username defaults.default_topics
    apply_acls username defaults.default_acls

  module _ (serde : Serde) where
    abbrev pub parse_defaults : Option Text → Db UserDefaultsSettings
    parse_defaults none = pure no_defaults
    parse_defaults (some value) =
        ok_or (serde.from_value value) (because (codes "解析 user_defaults 失败") bad_json)

    unfoldable pub get_user_defaults : Db UserDefaultsSettings
    unfolding run select_defaults parse_defaults
    get_user_defaults = do value ← run link (codes "读取系统设置失败") select_defaults; parse_defaults value

    unfoldable pub set_user_defaults : UserDefaultsSettings → Db UserDefaultsSettings
    unfolding run upsert_defaults
    set_user_defaults settings = do
      value ← ok_or (serde.to_value settings) (because (codes "序列化 user_defaults 失败") bad_json)
      run link (codes "保存系统设置失败") (upsert_defaults value)
      pure settings
