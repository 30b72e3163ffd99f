-- ===== src/Admin/Accounts.antt =====
-- Whether the broker lets a user in after the handlers of src/admin/mod.rs have created or changed
-- the account.
use hi_mqtt.Prelude.{
  ℕ, suc, ◌≡◌, refl, ap, ◌∙◌, Bool, true, false, not, ◌&&◌, Option, some, [], ◌∷◌, ◌++◌, Text, any,
  any-append, any-and_left, text_eq_refl, arith,
}
use hi_mqtt.Prelude.Exec.{ok, bind-keeps}
use hi_mqtt.Db.Schema.{MqttUserRow, StoredUser, Tables}
use hi_mqtt.Db.Users.{named, insert_user, new_user}
use hi_mqtt.Db.Defaults.{apply_user_defaults, get_user_defaults}
use hi_mqtt.Db.Defaults.Laws.{users-apply_user_defaults, tables-get_user_defaults}
use hi_mqtt.Acl.Service.{IsBcrypt, verifies, verify_mqtt_password}
use hi_mqtt.Acl.Service.Reload.{IsFresh}
use hi_mqtt.Acl.Service.Password.{accepts, same, verify_of_fresh}
use hi_mqtt.Admin.Server.{AppState, Env, created, internal_server_error, query}
use hi_mqtt.Admin.Server.Laws.{tables_of}
use hi_mqtt.Admin.Users.Creation.{create_mqtt_user-Ran}
use hi_mqtt.Admin.Users.{
  CreateMqttUserRequest, give_defaults, create_mqtt_user, mqtt_password_bcrypt_cost,
}

users-give_defaults :
    (env : Env) (apply : Bool) (username : Text) (s : AppState)
    → (tables_of (give_defaults env apply username s).1).users ≡ (tables_of s).users
unfolding give_defaults query
users-give_defaults env false username s = refl
users-give_defaults env true username s =
    let ask = query internal_server_error (get_user_defaults env.link env.serde) in
    let step =
      ap (λ (t : Tables). t.users) (tables-get_user_defaults env.link env.serde s.acl.database) in
    bind-keeps (λ (x : AppState). (tables_of x).users ≡ (tables_of s).users) ask
      (λ defaults. query internal_server_error (apply_user_defaults env.link username defaults)) s
      step
      (λ defaults.
        users-apply_user_defaults env.link username defaults (ask s).1.acl.database ∙ step)

insert_user-ok :
    (username password_hash : Text) (enabled : Bool) (category_id : Option ℕ) (now : ℕ) (t : Tables)
    (user : MqttUserRow)
    → (insert_user username password_hash enabled category_id now t).0 ≡ ok user
    → (any (named username) t.users ≡ false)
      × ((insert_user username password_hash enabled category_id now t).1.users
          ≡ t.users
            ++ new_user (suc t.user_seq) username password_hash enabled category_id now ∷ [])
unfolding insert_user
insert_user-ok username password_hash enabled category_id now t user h =
    (ground arith, ground arith)

-- A user that was created with a reply of 201: the password was hashed, the row was inserted where
-- no user had the name, and the cache shows the tables.
create_mqtt_user-ok :
    (env : Env) (body : CreateMqttUserRequest) (s : AppState) (user : MqttUserRow)
    → (create_mqtt_user env body s).0 ≡ ok (created, user)
    → (h : Text) × (id : ℕ) × (now : ℕ) × (env.bcrypt.hash s.acl.draws body.password
          mqtt_password_bcrypt_cost
        ≡ some h)
      × (any (named body.username) (tables_of s).users ≡ false)
      × ((tables_of (create_mqtt_user env body s).1).users
          ≡ (tables_of s).users
            ++ new_user id body.username h body.enabled body.category_id now ∷ [])
      × IsFresh (create_mqtt_user env body s).1.acl
create_mqtt_user-ok env body s user h =
    let ran = create_mqtt_user-Ran env body s user h in
    let (free, users) =
      insert_user-ok body.username ran.hash body.enabled body.category_id ran.now (tables_of s)
        ran.user ran.inserted in
    (
      ran.hash,
      suc (tables_of s).user_seq,
      ran.now,
      ran.hashed,
      free,
      ap (λ (t : Tables). t.users) ran.left
          ∙ users-give_defaults env body.apply_defaults ran.user.username ran.before
          ∙ ap (λ (t : Tables). t.users) ran.is_before
          ∙ users,
      ran.is_fresh,
    )

-- The outcome of a login by a user that was just created with a reply of 201: the password is
-- accepted exactly if the account was created enabled.
pub create_mqtt_user-verifies :
    (env : Env) (body : CreateMqttUserRequest) (s : AppState) (user : MqttUserRow)
    → IsBcrypt env.bcrypt
    → (create_mqtt_user env body s).0 ≡ ok (created, user)
    → (verify_mqtt_password env.link env.bcrypt body.username body.password
        (create_mqtt_user env body s).1.acl).0
      ≡ body.enabled
unfolding verifies
create_mqtt_user-verifies env body s user bcrypt h =
    let (p, id, now, hashed, free, users, fresh) = create_mqtt_user-ok env body s user h in
    let row = new_user id body.username p body.enabled body.category_id now in
    let link = env.link in
    let test = λ (u : StoredUser).
      named body.username u
      && not (same body.enabled (accepts link env.bcrypt body.username body.password u)) in
    verify_of_fresh link env.bcrypt body.username body.password (create_mqtt_user env body s).1.acl
      fresh body.enabled
      (rw users (
        any-append test (tables_of s).users (row ∷ [])
        ∙ ground (
          arith,
          any-and_left (named body.username)
              (λ u. not (same body.enabled (accepts link env.bcrypt body.username body.password u)))
              (tables_of s).users free,
          bcrypt.verify-hash s.acl.draws body.password mqtt_password_bcrypt_cost p hashed,
        )))
      (rw users (
        any-append (named body.username) (tables_of s).users (row ∷ [])
        ∙ ground (arith, free, text_eq_refl body.username)))
