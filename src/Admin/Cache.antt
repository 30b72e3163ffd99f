-- ===== src/Admin/Cache.antt =====
-- The cache after a handler of src/admin/mod.rs: the one before it, or the picture of the tables
-- that the handler leaves, since a handler that writes ends with the reload.
use hi_mqtt.Prelude.{
  ◌≡◌, ◌∙◌, refl, ℕ, Bool, true, false, Option, none, some, Text, ◌⊎◌, inl, inr, arith,
}
use hi_mqtt.Prelude.Exec.{Result, ok, err, pure, continue, ◌>>=◌}
use hi_mqtt.Prelude.Keeps.{Keeps, Keeps-ok_or, keeps_rules}
use hi_mqtt.Db.Query.{Db, DbError}
use hi_mqtt.Acl.Cache.{AclCache}
use hi_mqtt.Acl.Service.{reload, draw_hash, on_pool}
use hi_mqtt.Acl.Service.Reload.{IsFresh, reload-IsFresh, cache-reload_fails}
use hi_mqtt.Admin.Server.{AppState, Handler, Status, Env, query, refresh}
use hi_mqtt.Admin.Users.{
  CreateMqttUserRequest, UpdateMqttUserRequest, hash_password, give_defaults, new_hash,
  create_mqtt_user, update_mqtt_user, delete_mqtt_user, after_delete,
}
use hi_mqtt.Admin.Batch.{BatchMqttUsersRequest, batch_defaults, batch_create_mqtt_users}
use hi_mqtt.Admin.Batch.Keeps.{IsRoundInvariant, run_rounds-Keeps}
use hi_mqtt.Admin.Topics.{TopicRequest, create_topic, update_topic, delete_topic}
use hi_mqtt.Admin.Acls.{
  CreateAclRequest, UpdateAclRequest, create_acl, update_acl, delete_acl, reload_acl,
}

-- The cache is still this one.
abbrev pub HasCache : AclCache → AppState → Type 0
HasCache c s = s.acl.cache ≡ c

-- The cache is still this one, or it shows the tables.
abbrev pub HasCacheOrFresh : AclCache → AppState → Type 0
HasCacheOrFresh c s = (s.acl.cache ≡ c) ⊎ IsFresh s.acl

-- An action that takes a state with this cache to one that has it still or a fresh one.
pub record Ends {A : Type 0} (c : AclCache) (m : Handler A) : Type 0 where
  pub at : (s : AppState) → HasCache c s → HasCacheOrFresh c (m s).1

module _ (c : AclCache) where
  module _ {A B : Type 0} where
    Ends-continue :
        (r : Result Status A) (f : A → Handler B) → ((a : A) → Ends c (f a)) → Ends c (continue r f)
    Ends-continue (ok a) f k = record { at = λ s h. (k a).at s h }
    Ends-continue (err e) f k = record { at = λ s h. inl h }

    Ends-bind :
        (m : Handler A) (f : A → Handler B)
        → Keeps (HasCache c) m
        → ((a : A) → Ends c (f a))
        → Ends c (m >>= f)
    Ends-bind m f km k = record { at = λ s h. (Ends-continue (m s).0 f k).at (m s).1 (km.at s h) }

  refreshed :
      (env : Env) (s : AppState) (r : Result DbError (Unit {0}))
      → (reload env.link s.acl).0 ≡ r
      → HasCache c s
      → HasCacheOrFresh c (refresh env s).1
  unfolding refresh
  refreshed env s (ok _) e h = inr (reload-IsFresh env.link s.acl e)
  refreshed env s (err d) e h = inl (cache-reload_fails env.link s.acl e ∙ h)

  Ends-refresh : {A : Type 0} (env : Env) (a : A) → Ends c (refresh env >>= λ _. pure a)
  Ends-refresh env a = record {
    at = λ s h.
        replied (refresh env s).0 a (refresh env s).1
          (refreshed env s (reload env.link s.acl).0 refl h);
  }
    where
      replied :
          {A : Type 0} (r : Result Status (Unit {0})) (a : A) (s : AppState)
          → HasCacheOrFresh c s
          → HasCacheOrFresh c (continue r (λ _. pure a) s).1
      replied (ok _) a s h = h
      replied (err e) a s h = h

  Ends-Keeps : {A : Type 0} (m : Handler A) → Keeps (HasCache c) m → Ends c m
  Ends-Keeps m k = record { at = λ s h. inl (k.at s h) }

  query-Keeps : {A : Type 0} (status : Status) (m : Db A) → Keeps (HasCache c) (query status m)
  unfolding query
  query-Keeps status m = record { at = λ s h. h }

  ruleset ending_rules = (Ends-bind, Ends-refresh, Ends-Keeps, Keeps-ok_or, query-Keeps)

  hash_password-Keeps :
      (env : Env) (password : Text) → Keeps (HasCache c) (hash_password env password)
  unfolding hash_password draw_hash
  hash_password-Keeps env password = record { at = λ s h. ground (arith, h) }

  HasCache-IsRoundInvariant : (env : Env) → IsRoundInvariant (HasCache c) env
  unfolding on_pool
  HasCache-IsRoundInvariant env = record {
    hashed = hash_password-Keeps env;
    inserted = λ u p e d s h. h;
    applied = λ u d s h. h;
  }

  module _ (env : Env) where
    new_hash-Keeps : (password : Option Text) → Keeps (HasCache c) (new_hash env password)
    unfolding new_hash
    new_hash-Keeps none = search keeps_rules
    new_hash-Keeps (some p) = search (keeps_rules, hash_password-Keeps env)

    give_defaults-Keeps :
        (apply : Bool) (username : Text) → Keeps (HasCache c) (give_defaults env apply username)
    unfolding give_defaults
    give_defaults-Keeps true username = search (keeps_rules, query-Keeps)
    give_defaults-Keeps false username = search keeps_rules

    batch_defaults-Keeps : (apply : Bool) → Keeps (HasCache c) (batch_defaults env apply)
    unfolding batch_defaults
    batch_defaults-Keeps true = search (keeps_rules, query-Keeps)
    batch_defaults-Keeps false = search keeps_rules

    after_delete-Ends : (deleted : Bool) → Ends c (after_delete env deleted)
    unfolding after_delete
    after_delete-Ends true = Ends-refresh env _
    after_delete-Ends false = search (Ends-Keeps, keeps_rules)

    pub create_mqtt_user-Ends : (body : CreateMqttUserRequest) → Ends c (create_mqtt_user env body)
    unfolding create_mqtt_user
    create_mqtt_user-Ends body =
        search (Ends-bind, Ends-refresh, hash_password-Keeps env, query-Keeps, give_defaults-Keeps)

    pub update_mqtt_user-Ends :
        (id : ℕ) (body : UpdateMqttUserRequest) → Ends c (update_mqtt_user env id body)
    unfolding update_mqtt_user
    update_mqtt_user-Ends id body = search (ending_rules, new_hash-Keeps)

    pub delete_mqtt_user-Ends : (id : ℕ) → Ends c (delete_mqtt_user env id)
    unfolding delete_mqtt_user
    delete_mqtt_user-Ends id = search (ending_rules, after_delete-Ends)

    pub batch_create_mqtt_users-Ends :
        (body : BatchMqttUsersRequest) → Ends c (batch_create_mqtt_users env body)
    unfolding batch_create_mqtt_users
    batch_create_mqtt_users-Ends body = search (
      Ends-bind,
      Ends-refresh,
      batch_defaults-Keeps,
      run_rounds-Keeps (HasCache-IsRoundInvariant env),
    )

    pub create_topic-Ends : (body : TopicRequest) → Ends c (create_topic env body)
    unfolding create_topic
    create_topic-Ends body = search ending_rules

    pub update_topic-Ends : (id : ℕ) (body : TopicRequest) → Ends c (update_topic env id body)
    unfolding update_topic
    update_topic-Ends id body = search ending_rules

    pub delete_topic-Ends : (id : ℕ) → Ends c (delete_topic env id)
    unfolding delete_topic
    delete_topic-Ends id = search (ending_rules, after_delete-Ends)

    pub create_acl-Ends : (body : CreateAclRequest) → Ends c (create_acl env body)
    unfolding create_acl
    create_acl-Ends body = search ending_rules

    pub update_acl-Ends : (id : ℕ) (body : UpdateAclRequest) → Ends c (update_acl env id body)
    unfolding update_acl
    update_acl-Ends id body = search ending_rules

    pub delete_acl-Ends : (id : ℕ) → Ends c (delete_acl env id)
    unfolding delete_acl
    delete_acl-Ends id = search (ending_rules, after_delete-Ends)

    pub reload_acl-Ends : Ends c (reload_acl env)
    unfolding reload_acl
    reload_acl-Ends = Ends-refresh env _
