-- ===== src/Admin/Router/Cache.antt =====
-- The cache after a request: the one before it, or the picture of the tables that the request
-- leaves.
use hi_mqtt.Prelude.{ℕ, ◌≡◌, ◌⊎◌, refl, inl, inr, arith, Bool-cases, not, ◌&&◌, is_some}
use hi_mqtt.Prelude.Exec.{Result, ok, err, pure, continue}
use hi_mqtt.Acl.Cache.{AclCache}
use hi_mqtt.Acl.Service.Reload.{IsFresh}
use hi_mqtt.Admin.Server.{AppState, Handler, Env, Status, query}
use hi_mqtt.Admin.Auth.{Head, require_auth, is_valid, request_token}
use hi_mqtt.Admin.Login.{login, logout, me, admit, open_session}
use hi_mqtt.Admin.Users.{list_mqtt_users, get_user_resources}
use hi_mqtt.Admin.Categories.{
  list_categories, create_category, update_category, delete_category, get_settings, update_settings,
}
use hi_mqtt.Admin.Topics.{list_topics}
use hi_mqtt.Admin.Acls.{list_acls}
use hi_mqtt.Admin.Cache.{
  Ends, create_mqtt_user-Ends, update_mqtt_user-Ends, delete_mqtt_user-Ends,
  batch_create_mqtt_users-Ends, create_topic-Ends, update_topic-Ends, delete_topic-Ends,
  create_acl-Ends, update_acl-Ends, delete_acl-Ends, reload_acl-Ends,
}
use hi_mqtt.Admin.Router.{
  Request, Reply, dispatch, protect, serve, replying, the_monitor, monitor_stats, monitor_messages,
  monitor_connections, monitor_subscriptions, is_monitor_route, post_login, post_mqtt_users,
  post_batch, put_mqtt_user, delete_user, post_topics, put_topic, remove_topic, post_acls, put_acl,
  remove_acl, post_reload,
}

module _ (c : AclCache) {S : Type 0} (shown : S) (env : Env) (now : ℕ) where
  replied :
      {A : Type 0} (r : Result Status A) (reply : A → Reply S) (s : AppState)
      → (continue r (λ a. pure (reply a)) s).1 ≡ s
  replied (ok a) reply s = refl
  replied (err e) reply s = refl

  replying-Ends :
      {A : Type 0} (reply : A → Reply S) (m : Handler A)
      → Ends c m
      → Ends c (replying shown env now reply m)
  unfolding replying
  replying-Ends reply m k = record { at = λ s h. rw (replied (m s).0 reply (m s).1) (k.at s h) }

  dispatch-Ends : (head : Head) (r : Request) → Ends c (dispatch shown env now head r)
  unfolding dispatch replying login me logout admit open_session list_mqtt_users get_user_resources
      list_categories create_category update_category delete_category get_settings update_settings
      list_topics list_acls monitor_stats monitor_messages monitor_connections monitor_subscriptions
      the_monitor query
  dispatch-Ends head (post_mqtt_users body) = replying-Ends _ _ (create_mqtt_user-Ends c env body)
  dispatch-Ends head (post_batch body) = replying-Ends _ _ (batch_create_mqtt_users-Ends c env body)
  dispatch-Ends head (put_mqtt_user id body) =
      replying-Ends _ _ (update_mqtt_user-Ends c env id body)
  dispatch-Ends head (delete_user id) = replying-Ends Reply.done _ (delete_mqtt_user-Ends c env id)
  dispatch-Ends head (post_topics body) = replying-Ends _ _ (create_topic-Ends c env body)
  dispatch-Ends head (put_topic id body) = replying-Ends _ _ (update_topic-Ends c env id body)
  dispatch-Ends head (remove_topic id) = replying-Ends Reply.done _ (delete_topic-Ends c env id)
  dispatch-Ends head (post_acls body) = replying-Ends _ _ (create_acl-Ends c env body)
  dispatch-Ends head (put_acl id body) = replying-Ends _ _ (update_acl-Ends c env id body)
  dispatch-Ends head (remove_acl id) = replying-Ends Reply.done _ (delete_acl-Ends c env id)
  dispatch-Ends head post_reload = replying-Ends Reply.done _ (reload_acl-Ends c env)
  dispatch-Ends head r = record { at = λ s h. inl (ground (arith, h)) }

  protect-Ends : (head : Head) (r : Request) → Ends c (protect shown env now head r)
  unfolding protect require_auth
  protect-Ends head r = record {
    at = λ s h. elim (Bool-cases (is_monitor_route r && not (is_some s.monitor))) [
      | inl files ↦ rw files (inl h)
      | inr served ↦ elim (Bool-cases (is_valid (request_token head) s.sessions)) [
        | inl valid ↦ rw (served, valid) ((dispatch-Ends head r).at s h)
        | inr other ↦ rw (served, other) (inl h)
      ]
    ];
  }

  serve-Ends : (head : Head) (r : Request) → Ends c (serve shown env now head r)
  unfolding serve
  serve-Ends head (post_login body) = dispatch-Ends head (post_login body)
  serve-Ends head r = protect-Ends head r

-- After any request, with whatever outcome, the cache is the one before it or the picture of the
-- tables that the request leaves: no request leaves a mixture.
pub cache-serve :
    {S : Type 0} (shown : S) (env : Env) (now : ℕ) (head : Head) (r : Request) (s : AppState)
    → ((serve shown env now head r s).1.acl.cache ≡ s.acl.cache)
      ⊎ IsFresh (serve shown env now head r s).1.acl
cache-serve shown env now head r s = (serve-Ends s.acl.cache shown env now head r).at s refl
