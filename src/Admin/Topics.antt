-- ===== src/Admin/Topics.antt =====
-- The handlers for registered topics in src/admin/mod.rs.
use hi_mqtt.Prelude.{ℕ, Option, List, Text}
use hi_mqtt.Prelude.Exec.{pure, ok_or, ◌>>=◌, ◌>>◌}
use hi_mqtt.Db.Schema.{MqttTopicRow}
use hi_mqtt.Db.Topics as Store
use hi_mqtt.Admin.Server.{
  Handler, Status, Env, created, bad_request, not_found, internal_server_error, query, refresh,
}
use hi_mqtt.Admin.Users.{after_delete}

-- `CreateTopicRequest` and `UpdateTopicRequest`
pub record TopicRequest : Type 0 where
  pub topic : Text
  pub description : Text
  pub owner_username : Option Text

module _ (env : Env) where
  unfoldable pub list_topics : Handler (List MqttTopicRow)
  unfolding query Store.list_mqtt_topics
  list_topics = query internal_server_error (Store.list_mqtt_topics env.link)

  unfoldable pub create_topic : TopicRequest → Handler (Status × MqttTopicRow)
  unfolding query Store.create_mqtt_topic refresh
  create_topic body = do
    topic ←
        query bad_request
          (Store.create_mqtt_topic env.link body.topic body.description body.owner_username)
    refresh env
    pure (created, topic)

  unfoldable pub update_topic : ℕ → TopicRequest → Handler MqttTopicRow
  unfolding query Store.update_mqtt_topic refresh
  update_topic id body = do
    found ←
        query internal_server_error
          (Store.update_mqtt_topic env.link id body.topic body.description body.owner_username)
    topic ← ok_or found not_found
    refresh env
    pure topic

  unfoldable pub delete_topic : ℕ → Handler Status
  unfolding query Store.delete_mqtt_topic after_delete
  delete_topic id = do
    deleted ← query internal_server_error (Store.delete_mqtt_topic env.link id)
    after_delete env deleted
