-- ===== src/Admin/Router/Keeps.antt =====
-- What every statement keeps, `serve` of src/admin/mod.rs keeps.
use hi_mqtt.Prelude.{ℕ, Text, arith}
use hi_mqtt.Prelude.Keeps.{Keeps, keeps_rules}
use hi_mqtt.Db.Schema.{Tables, AdminUserRow}
use hi_mqtt.Db.Admins.{get_admin_user, select_admin}
use hi_mqtt.Db.Invariants.{IsInvariant, reads-Keeps}
use hi_mqtt.Admin.Server.{Handler, Env}
use hi_mqtt.Admin.Auth.{Head, require_auth}
use hi_mqtt.Admin.Login.{LoginRequest, open_session, admit, login, logout, me}
use hi_mqtt.Admin.Invariants as Kept
use hi_mqtt.Admin.Invariants.{InState, query-Keeps}
use hi_mqtt.Admin.Batch.Keeps.{batch_create_mqtt_users-Keeps}
use hi_mqtt.Admin.Router.{
  Request, Reply, dispatch, protect, serve, replying, the_monitor, monitor_stats, monitor_messages,
  monitor_connections, monitor_subscriptions, post_login, get_me, post_logout, get_mqtt_users,
  post_mqtt_users, post_batch, put_mqtt_user, delete_user, get_resources, get_categories,
  post_categories, put_category, remove_category, get_user_defaults, put_user_defaults, get_topics,
  post_topics, put_topic, remove_topic, get_acls, post_acls, put_acl, remove_acl, post_reload,
}

module _ (P : Tables → Type 0) (env : Env) where
  open_session-Keeps : (username : Text) → Keeps (InState P) (open_session env username)
  unfolding open_session
  open_session-Keeps username = record { at = λ s h. h }

  admit-Keeps :
      (password : Text) (user : AdminUserRow) → Keeps (InState P) (admit env password user)
  unfolding admit
  admit-Keeps password user = search (keeps_rules, open_session-Keeps)

  login-Keeps : (body : LoginRequest) → Keeps (InState P) (login env body)
  unfolding login get_admin_user select_admin
  login-Keeps body = search (keeps_rules, query-Keeps P, reads-Keeps P, admit-Keeps)

  logout-Keeps : (head : Head) → Keeps (InState P) (logout head)
  unfolding logout
  logout-Keeps head = record { at = λ s h. ground arith }

  me-Keeps : (head : Head) → Keeps (InState P) (me head)
  unfolding me
  me-Keeps head = record { at = λ s h. ground arith }

  the_monitor-Keeps : Keeps (InState P) the_monitor
  unfolding the_monitor
  the_monitor-Keeps = record { at = λ s h. ground arith }

module _ {P : Tables → Type 0} (inv : IsInvariant P) {S : Type 0} (shown : S) (env : Env)
    (now : ℕ) where
  replying-Keeps :
      {A : Type 0} (reply : A → Reply S) (m : Handler A)
      → Keeps (InState P) m
      → Keeps (InState P) (replying shown env now reply m)
  unfolding replying
  replying-Keeps reply m k = search keeps_rules

  dispatch-Keeps :
      (head : Head) (request : Request) → Keeps (InState P) (dispatch shown env now head request)
  unfolding dispatch replying monitor_stats monitor_messages monitor_connections
      monitor_subscriptions the_monitor
  dispatch-Keeps head (post_login body) = replying-Keeps _ _ (login-Keeps P env body)
  dispatch-Keeps head get_me = replying-Keeps _ _ (me-Keeps P env head)
  dispatch-Keeps head post_logout =
      replying-Keeps Reply.done (logout head) (logout-Keeps P env head)
  dispatch-Keeps head (post_batch body) =
      replying-Keeps _ _ (batch_create_mqtt_users-Keeps inv env body)
  dispatch-Keeps head get_mqtt_users = replying-Keeps _ _ (Kept.list_mqtt_users-Keeps inv env)
  dispatch-Keeps head (post_mqtt_users body) =
      replying-Keeps _ _ (Kept.create_mqtt_user-Keeps inv env body)
  dispatch-Keeps head (put_mqtt_user id body) =
      replying-Keeps _ _ (Kept.update_mqtt_user-Keeps inv env id body)
  dispatch-Keeps head (delete_user id) = replying-Keeps _ _ (Kept.delete_mqtt_user-Keeps inv env id)
  dispatch-Keeps head (get_resources id) =
      replying-Keeps _ _ (Kept.get_user_resources-Keeps inv env id)
  dispatch-Keeps head get_categories = replying-Keeps _ _ (Kept.list_categories-Keeps inv env)
  dispatch-Keeps head (post_categories body) =
      replying-Keeps _ _ (Kept.create_category-Keeps inv env body)
  dispatch-Keeps head (put_category id body) =
      replying-Keeps _ _ (Kept.update_category-Keeps inv env id body)
  dispatch-Keeps head (remove_category id) =
      replying-Keeps _ _ (Kept.delete_category-Keeps inv env id)
  dispatch-Keeps head get_user_defaults = replying-Keeps _ _ (Kept.get_settings-Keeps inv env)
  dispatch-Keeps head (put_user_defaults body) =
      replying-Keeps _ _ (Kept.update_settings-Keeps inv env body)
  dispatch-Keeps head get_topics = replying-Keeps _ _ (Kept.list_topics-Keeps inv env)
  dispatch-Keeps head (post_topics body) = replying-Keeps _ _ (Kept.create_topic-Keeps inv env body)
  dispatch-Keeps head (put_topic id body) =
      replying-Keeps _ _ (Kept.update_topic-Keeps inv env id body)
  dispatch-Keeps head (remove_topic id) = replying-Keeps _ _ (Kept.delete_topic-Keeps inv env id)
  dispatch-Keeps head get_acls = replying-Keeps _ _ (Kept.list_acls-Keeps inv env)
  dispatch-Keeps head (post_acls body) = replying-Keeps _ _ (Kept.create_acl-Keeps inv env body)
  dispatch-Keeps head (put_acl id body) = replying-Keeps _ _ (Kept.update_acl-Keeps inv env id body)
  dispatch-Keeps head (remove_acl id) = replying-Keeps _ _ (Kept.delete_acl-Keeps inv env id)
  dispatch-Keeps head post_reload = replying-Keeps _ _ (Kept.reload_acl-Keeps inv env)
  dispatch-Keeps head request = record { at = λ s h. ground arith }

  protect-Keeps :
      (head : Head) (request : Request) → Keeps (InState P) (protect shown env now head request)
  unfolding protect require_auth
  protect-Keeps head request = record {
    at = λ s h. ground (arith, (dispatch-Keeps head request).at s);
  }

  -- Whatever the statements keep, each request keeps, whoever sends it and whatever the link to
  -- the server does.
  pub serve-Keeps :
      (head : Head) (request : Request) → Keeps (InState P) (serve shown env now head request)
  unfolding serve
  serve-Keeps head (post_login body) = dispatch-Keeps head (post_login body)
  serve-Keeps head request = protect-Keeps head request
