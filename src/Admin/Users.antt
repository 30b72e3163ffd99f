-- ===== src/Admin/Users.antt =====
-- The handlers for MQTT users in src/admin/mod.rs. A numeral in a path that is no `i32` never
-- reaches a handler.
pub mod Creation
pub mod Deletion
pub mod Updating
use hi_mqtt.Prelude.{ℕ, Bool, true, false, Option, none, some, List, Text, is_empty, if◌then◌else◌}
use hi_mqtt.Prelude.Exec.{Result, ok, err, Exec, map_err, pure, raise, ok_or, ◌>>=◌, ◌>>◌}
use hi_mqtt.Db.Schema.{MqttUserRow, MqttTopicRow, AclRuleRow, UserDefaultsSettings}
use hi_mqtt.Db.Query.{Database}
use hi_mqtt.Db.Users as Store
use hi_mqtt.Db.Topics.{list_mqtt_topics_for_user}
use hi_mqtt.Db.Acls.{list_topic_acls_for_user}
use hi_mqtt.Db.Defaults.{get_user_defaults, apply_user_defaults}
use hi_mqtt.Acl.Service.{AclService, draw_hash}
use hi_mqtt.Admin.Server.{
  AppState, Handler, Status, Env, created, no_content, bad_request, not_found,
  internal_server_error, query, refresh,
}

-- `MQTT_PASSWORD_BCRYPT_COST`
abbrev pub mqtt_password_bcrypt_cost : ℕ
mqtt_password_bcrypt_cost = 10

pub record CreateMqttUserRequest : Type 0 where
  pub username : Text
  pub password : Text
  pub enabled : Bool
  pub category_id : Option ℕ
  pub apply_defaults : Bool

pub record UpdateMqttUserRequest : Type 0 where
  pub password : Option Text
  pub enabled : Bool
  pub category_id : Option ℕ

pub record UserResourcesResponse : Type 0 where
  pub user : MqttUserRow
  pub topics : List MqttTopicRow
  pub acls : List AclRuleRow

-- `hash(password, MQTT_PASSWORD_BCRYPT_COST)`
unfoldable pub hash_password : Env → Text → Handler Text
unfolding draw_hash
hash_password env password s =
    let drawn =
      draw_hash env.link env.bcrypt internal_server_error password mqtt_password_bcrypt_cost
        s.acl in
    (drawn.0, record s { acl = drawn.1 })

unfoldable pub list_mqtt_users : Env → Handler (List MqttUserRow)
unfolding query Store.list_mqtt_users
list_mqtt_users env = query internal_server_error (Store.list_mqtt_users env.link)

-- `if body.apply_defaults { … }`
unfoldable pub give_defaults : Env → Bool → Text → Handler (Unit {0})
unfolding query get_user_defaults apply_user_defaults
give_defaults env false username = pure tt
give_defaults env true username = do
  defaults ← query internal_server_error (get_user_defaults env.link env.serde)
  query internal_server_error (apply_user_defaults env.link username defaults)

unfoldable pub create_mqtt_user : Env → CreateMqttUserRequest → Handler (Status × MqttUserRow)
unfolding hash_password query Store.create_mqtt_user give_defaults refresh
create_mqtt_user env body = do
  password_hash ← hash_password env body.password
  user ←
      query bad_request
        (Store.create_mqtt_user env.link body.username password_hash body.enabled body.category_id)
  give_defaults env body.apply_defaults user.username
  refresh env
  pure (created, user)

-- `match body.password`: no password and an empty one leave the hash.
unfoldable pub new_hash : Env → Option Text → Handler (Option Text)
unfolding hash_password
new_hash env none = pure none
new_hash env (some p) = if is_empty p then pure none else do h ← hash_password env p; pure (some h)

unfoldable pub update_mqtt_user : Env → ℕ → UpdateMqttUserRequest → Handler MqttUserRow
unfolding new_hash query Store.update_mqtt_user refresh
update_mqtt_user env id body = do
  password_hash ← new_hash env body.password
  found ←
      query internal_server_error
        (Store.update_mqtt_user env.link id password_hash body.enabled (some body.category_id))
  user ← ok_or found not_found
  refresh env
  pure user

-- What the handlers that delete do with `rows_affected() > 0`.
unfoldable pub after_delete : Env → Bool → Handler Status
unfolding refresh
after_delete env false = raise not_found
after_delete env true = do refresh env; pure no_content

unfoldable pub delete_mqtt_user : Env → ℕ → Handler Status
unfolding query Store.delete_mqtt_user after_delete
delete_mqtt_user env id = do
  deleted ← query internal_server_error (Store.delete_mqtt_user env.link id)
  after_delete env deleted

unfoldable pub get_user_resources : Env → ℕ → Handler UserResourcesResponse
unfolding query Store.get_mqtt_user_by_id list_mqtt_topics_for_user list_topic_acls_for_user
get_user_resources env id = do
  found ← query internal_server_error (Store.get_mqtt_user_by_id env.link id)
  user ← ok_or found not_found
  topics ← query internal_server_error (list_mqtt_topics_for_user env.link user.username)
  acls ← query internal_server_error (list_topic_acls_for_user env.link user.username)
  pure (record { user = user; topics = topics; acls = acls })
