-- ===== src/Admin/Router/Draws.antt =====
-- The generator's position after a request: the handlers of src/admin/mod.rs only ever go on.
use hi_mqtt.Prelude.{ℕ, ◌≡◌, ◌≤◌, arith, Bool, true, false, Text, Option, none, some}
use hi_mqtt.Prelude.Keeps.{Keeps, keeps_rules}
use hi_mqtt.Acl.Service.{draw_hash, on_pool, reload}
use hi_mqtt.Admin.Server.{AppState, Handler, Status, Env, query, refresh}
use hi_mqtt.Db.Query.{Db}
use hi_mqtt.Admin.Auth.{Head, require_auth}
use hi_mqtt.Admin.Login.{LoginRequest, login, logout, me, admit, open_session}
use hi_mqtt.Admin.Users.{
  CreateMqttUserRequest, UpdateMqttUserRequest, hash_password, give_defaults, new_hash,
  create_mqtt_user, update_mqtt_user, delete_mqtt_user, get_user_resources, list_mqtt_users,
  after_delete,
}
use hi_mqtt.Admin.Batch.{BatchMqttUsersRequest, batch_defaults, batch_create_mqtt_users}
use hi_mqtt.Admin.Batch.Keeps.{IsRoundInvariant, run_rounds-Keeps}
use hi_mqtt.Admin.Categories.{
  list_categories, create_category, update_category, delete_category, get_settings, update_settings,
}
use hi_mqtt.Admin.Topics.{list_topics, create_topic, update_topic, delete_topic}
use hi_mqtt.Admin.Acls.{list_acls, create_acl, update_acl, delete_acl, reload_acl}
use hi_mqtt.Admin.Router.{
  Request, Reply, post_batch, post_login, post_mqtt_users, put_mqtt_user, delete_user, post_topics,
  put_topic, remove_topic, post_acls, put_acl, remove_acl, post_reload, dispatch, protect, serve,
  replying, the_monitor, monitor_stats, monitor_messages, monitor_connections,
  monitor_subscriptions,
}

module _ (n : ℕ) (env : Env) where
  -- The generator has given out at least this many values.
  abbrev pub HasDrawn : AppState → Type 0
  HasDrawn s = n ≤ s.acl.draws

  hash_password-HasDrawn : (password : Text) → Keeps HasDrawn (hash_password env password)
  unfolding hash_password draw_hash
  hash_password-HasDrawn password = record { at = λ s h. ground (arith, h) }

  HasDrawn-IsRoundInvariant : IsRoundInvariant HasDrawn env
  unfolding on_pool
  HasDrawn-IsRoundInvariant = record {
    hashed = hash_password-HasDrawn;
    inserted = λ u p e c s h. h;
    applied = λ u d s h. h;
  }

  reload-HasDrawn : Keeps HasDrawn (refresh env)
  unfolding refresh reload on_pool
  reload-HasDrawn = record { at = λ s h. ground (arith, h) }

  batch_defaults-HasDrawn : (apply : Bool) → Keeps HasDrawn (batch_defaults env apply)
  unfolding batch_defaults query on_pool
  batch_defaults-HasDrawn apply = record { at = λ s h. ground (arith, h) }

  batch-HasDrawn :
      (body : BatchMqttUsersRequest) → Keeps HasDrawn (batch_create_mqtt_users env body)
  unfolding batch_create_mqtt_users
  batch-HasDrawn body = search (
    keeps_rules,
    batch_defaults-HasDrawn,
    run_rounds-Keeps HasDrawn-IsRoundInvariant,
    reload-HasDrawn,
  )

  query-HasDrawn : {A : Type 0} (status : Status) (m : Db A) → Keeps HasDrawn (query status m)
  unfolding query on_pool
  query-HasDrawn status m = record { at = λ s h. h }

  ruleset drawing = (keeps_rules, query-HasDrawn, reload-HasDrawn, hash_password-HasDrawn)

  give_defaults-HasDrawn :
      (apply : Bool) (username : Text) → Keeps HasDrawn (give_defaults env apply username)
  unfolding give_defaults
  give_defaults-HasDrawn true username = search drawing
  give_defaults-HasDrawn false username = search drawing

  new_hash-HasDrawn : (password : Option Text) → Keeps HasDrawn (new_hash env password)
  unfolding new_hash
  new_hash-HasDrawn none = search drawing
  new_hash-HasDrawn (some p) = search drawing

  after_delete-HasDrawn : (deleted : Bool) → Keeps HasDrawn (after_delete env deleted)
  unfolding after_delete
  after_delete-HasDrawn true = search drawing
  after_delete-HasDrawn false = search drawing

  create_mqtt_user-HasDrawn :
      (body : CreateMqttUserRequest) → Keeps HasDrawn (create_mqtt_user env body)
  unfolding create_mqtt_user
  create_mqtt_user-HasDrawn body = search (drawing, give_defaults-HasDrawn)

  update_mqtt_user-HasDrawn :
      (id : ℕ) (body : UpdateMqttUserRequest) → Keeps HasDrawn (update_mqtt_user env id body)
  unfolding update_mqtt_user
  update_mqtt_user-HasDrawn id body = search (drawing, new_hash-HasDrawn)

  module _ {S : Type 0} (shown : S) (now : ℕ) where
    replying-HasDrawn :
        {A : Type 0} (reply : A → Reply S) (m : Handler A)
        → Keeps HasDrawn m
        → Keeps HasDrawn (replying shown env now reply m)
    unfolding replying
    replying-HasDrawn reply m k = record { at = λ s h. ground (arith, k.at s h) }

    ruleset replying_rules = (drawing, replying-HasDrawn, after_delete-HasDrawn)

    dispatch-HasDrawn : (head : Head) (r : Request) → Keeps HasDrawn (dispatch shown env now head r)
    unfolding dispatch replying login me logout admit open_session list_mqtt_users delete_mqtt_user
        get_user_resources list_categories create_category update_category delete_category
        get_settings update_settings list_topics create_topic update_topic delete_topic list_acls
        create_acl update_acl delete_acl reload_acl monitor_stats monitor_messages
        monitor_connections monitor_subscriptions the_monitor query on_pool
    dispatch-HasDrawn head (post_mqtt_users body) =
        replying-HasDrawn _ _ (create_mqtt_user-HasDrawn body)
    dispatch-HasDrawn head (post_batch body) = replying-HasDrawn _ _ (batch-HasDrawn body)
    dispatch-HasDrawn head (put_mqtt_user id body) =
        replying-HasDrawn _ _ (update_mqtt_user-HasDrawn id body)
    dispatch-HasDrawn head (delete_user id) = search replying_rules
    dispatch-HasDrawn head (post_topics body) = search replying_rules
    dispatch-HasDrawn head (put_topic id body) = search replying_rules
    dispatch-HasDrawn head (remove_topic id) = search replying_rules
    dispatch-HasDrawn head (post_acls body) = search replying_rules
    dispatch-HasDrawn head (put_acl id body) = search replying_rules
    dispatch-HasDrawn head (remove_acl id) = search replying_rules
    dispatch-HasDrawn head post_reload = search replying_rules
    dispatch-HasDrawn head r = record { at = λ s h. ground (arith, h) }

    protect-HasDrawn : (head : Head) (r : Request) → Keeps HasDrawn (protect shown env now head r)
    unfolding protect require_auth
    protect-HasDrawn head r = record {
      at = λ s h. ground (arith, h, (dispatch-HasDrawn head r).at s);
    }

    -- No request takes the generator back.
    pub serve-HasDrawn : (head : Head) (r : Request) → Keeps HasDrawn (serve shown env now head r)
    unfolding serve
    serve-HasDrawn head (post_login body) = dispatch-HasDrawn head (post_login body)
    serve-HasDrawn head r = protect-HasDrawn head r

pub draws-serve-login :
    {S : Type 0} (shown : S) (env : Env) (now : ℕ) (head : Head) (body : LoginRequest)
    (s : AppState)
    → (serve shown env now head (post_login body) s).1.acl.draws ≡ (login env body s).1.acl.draws
unfolding serve dispatch replying
draws-serve-login shown env now head body s = ground arith
