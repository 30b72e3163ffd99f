-- ===== src/Admin/Router.antt =====
-- `serve` of src/admin/mod.rs: the routes of the administration, the handlers of the monitor, and
-- the middleware before all of them but the login. Routing is the web library's: a request whose
-- path, numeral or body does not parse reaches no handler and is left out, as are the static files.
pub mod Cache
pub mod Draws
pub mod Keeps
pub mod Sessions
use hi_mqtt.Prelude.{
  ℕ, Bool, true, false, not, ◌&&◌, Option, none, some, List, is_some, if◌then◌else◌,
}
use hi_mqtt.Prelude.Exec.{Result, ok, err, Exec, pure, ok_or, ◌>>=◌}
use hi_mqtt.Db.Schema.{
  MqttUserCategoryRow, MqttUserRow, MqttTopicRow, AclRuleRow, UserDefaultsSettings,
}
use hi_mqtt.Monitor.State.{
  MonitorState, MonitorStats, MessageRecord, ConnectionSnapshot, SubscriptionSnapshot,
}
use hi_mqtt.Monitor.Web.{MessagesQuery, messages}
use hi_mqtt.Admin.Server.{AppState, Handler, Status, Env, service_unavailable}
use hi_mqtt.Admin.Auth.{Head, require_auth}
use hi_mqtt.Admin.Login.{LoginRequest, LoginResponse, login, logout, me}
use hi_mqtt.Admin.Users.{
  CreateMqttUserRequest, UpdateMqttUserRequest, UserResourcesResponse, list_mqtt_users,
  create_mqtt_user, update_mqtt_user, delete_mqtt_user, get_user_resources,
}
use hi_mqtt.Admin.Batch.{BatchMqttUsersRequest, BatchMqttUsersResponse, batch_create_mqtt_users}
use hi_mqtt.Admin.Categories.{
  CategoryRequest, list_categories, create_category, update_category, delete_category, get_settings,
  update_settings,
}
use hi_mqtt.Admin.Topics.{TopicRequest, list_topics, create_topic, update_topic, delete_topic}
use hi_mqtt.Admin.Acls.{
  CreateAclRequest, UpdateAclRequest, list_acls, create_acl, update_acl, delete_acl, reload_acl,
}

-- The routes with their methods.
pub data Request : Type 0 where
  post_login : LoginRequest → Request
  get_me post_logout : Request
  get_mqtt_users : Request
  post_mqtt_users : CreateMqttUserRequest → Request
  post_batch : BatchMqttUsersRequest → Request
  put_mqtt_user : ℕ → UpdateMqttUserRequest → Request
  delete_user get_resources : ℕ → Request
  get_categories : Request
  post_categories : CategoryRequest → Request
  put_category : ℕ → CategoryRequest → Request
  remove_category : ℕ → Request
  get_user_defaults : Request
  put_user_defaults : UserDefaultsSettings → Request
  get_topics : Request
  post_topics : TopicRequest → Request
  put_topic : ℕ → TopicRequest → Request
  remove_topic : ℕ → Request
  get_acls : Request
  post_acls : CreateAclRequest → Request
  put_acl : ℕ → UpdateAclRequest → Request
  remove_acl : ℕ → Request
  post_reload get_system : Request
  get_stats get_connections get_subscriptions get_events : Request
  get_messages : MessagesQuery → Request

-- The replies; `S` is what the system monitor shows.
pub data Reply (S : Type 0) : Type 0 where
  session : LoginResponse → Reply S
  done : Status → Reply S
  users : List MqttUserRow → Reply S
  user : MqttUserRow → Reply S
  new_user : Status × MqttUserRow → Reply S
  batch : BatchMqttUsersResponse → Reply S
  resources : UserResourcesResponse → Reply S
  categories : List MqttUserCategoryRow → Reply S
  category : MqttUserCategoryRow → Reply S
  new_category : Status × MqttUserCategoryRow → Reply S
  settings : UserDefaultsSettings → Reply S
  topics : List MqttTopicRow → Reply S
  topic : MqttTopicRow → Reply S
  new_topic : Status × MqttTopicRow → Reply S
  acls : List AclRuleRow → Reply S
  acl : AclRuleRow → Reply S
  new_acl : Status × AclRuleRow → Reply S
  system : S → Reply S
  stats : MonitorStats → Reply S
  message_list : List MessageRecord → Reply S
  connections : List ConnectionSnapshot → Reply S
  subscriptions : List SubscriptionSnapshot → Reply S
  -- The stream of events, and the fallback to the static files.
  event_stream static_files : Reply S

-- `state.monitor.as_ref().ok_or(StatusCode::SERVICE_UNAVAILABLE)?`
unfoldable pub the_monitor : Handler MonitorState
the_monitor s = ok_or s.monitor service_unavailable s

unfoldable pub monitor_stats : Handler MonitorStats
unfolding the_monitor
monitor_stats = do monitor ← the_monitor; pure monitor.stats

-- At the time that the wall clock shows.
unfoldable pub monitor_messages : MessagesQuery → ℕ → Handler (List MessageRecord)
unfolding the_monitor messages
monitor_messages query now = do monitor ← the_monitor; pure (messages query now monitor)

unfoldable pub monitor_connections : Handler (List ConnectionSnapshot)
unfolding the_monitor
monitor_connections = do monitor ← the_monitor; pure monitor.connections

unfoldable pub monitor_subscriptions : Handler (List SubscriptionSnapshot)
unfolding the_monitor
monitor_subscriptions = do monitor ← the_monitor; pure monitor.subscriptions

-- The routes that are there only beside a monitor.
abbrev pub is_monitor_route : Request → Bool
is_monitor_route get_stats = true
is_monitor_route get_connections = true
is_monitor_route get_subscriptions = true
is_monitor_route get_events = true
is_monitor_route (get_messages query) = true
is_monitor_route _ = false

module _ {S : Type 0} (shown : S) (env : Env) (now : ℕ) where
  replying : {A : Type 0} → (A → Reply S) → Handler A → Handler (Reply S)
  replying reply m = m >>= λ a. pure (reply a)

  unfoldable pub dispatch : Head → Request → Handler (Reply S)
  unfolding replying login me logout list_mqtt_users create_mqtt_user batch_create_mqtt_users
      update_mqtt_user delete_mqtt_user get_user_resources list_categories create_category
      update_category delete_category get_settings update_settings list_topics create_topic
      update_topic delete_topic list_acls create_acl update_acl delete_acl reload_acl monitor_stats
      monitor_messages monitor_connections monitor_subscriptions the_monitor
  dispatch head (post_login body) = replying session (login env body)
  dispatch head get_me = replying session (me head)
  dispatch head post_logout = replying done (logout head)
  dispatch head get_mqtt_users = replying users (list_mqtt_users env)
  dispatch head (post_mqtt_users body) = replying new_user (create_mqtt_user env body)
  dispatch head (post_batch body) = replying batch (batch_create_mqtt_users env body)
  dispatch head (put_mqtt_user id body) = replying user (update_mqtt_user env id body)
  dispatch head (delete_user id) = replying done (delete_mqtt_user env id)
  dispatch head (get_resources id) = replying resources (get_user_resources env id)
  dispatch head get_categories = replying categories (list_categories env)
  dispatch head (post_categories body) = replying new_category (create_category env body)
  dispatch head (put_category id body) = replying category (update_category env id body)
  dispatch head (remove_category id) = replying done (delete_category env id)
  dispatch head get_user_defaults = replying settings (get_settings env)
  dispatch head (put_user_defaults body) = replying settings (update_settings env body)
  dispatch head get_topics = replying topics (list_topics env)
  dispatch head (post_topics body) = replying new_topic (create_topic env body)
  dispatch head (put_topic id body) = replying topic (update_topic env id body)
  dispatch head (remove_topic id) = replying done (delete_topic env id)
  dispatch head get_acls = replying acls (list_acls env)
  dispatch head (post_acls body) = replying new_acl (create_acl env body)
  dispatch head (put_acl id body) = replying acl (update_acl env id body)
  dispatch head (remove_acl id) = replying done (delete_acl env id)
  dispatch head post_reload = replying done (reload_acl env)
  dispatch head get_system = pure (system shown)
  dispatch head get_stats = replying stats monitor_stats
  dispatch head get_connections = replying connections monitor_connections
  dispatch head get_subscriptions = replying subscriptions monitor_subscriptions
  dispatch head get_events = replying (λ _. event_stream) the_monitor
  dispatch head (get_messages query) = replying message_list (monitor_messages query now)

  -- A request to a protected route.
  protect : Head → Request → Handler (Reply S)
  unfolding dispatch require_auth
  protect head request s =
      if is_monitor_route request && not (is_some s.monitor)
      then (ok static_files, s)
      else require_auth head (dispatch head request) s

  unfoldable pub serve : Head → Request → Handler (Reply S)
  unfolding dispatch protect
  serve head (post_login body) = dispatch head (post_login body)
  serve head request = protect head request
