-- ===== src/Admin/Disabling.antt =====
-- What disabling a user through the handlers of src/admin/mod.rs means for the broker.
use hi_mqtt.Prelude.{
  ℕ, ◌≡◌, refl, ap, ◌∙◌, Bool, false, not, ◌&&◌, Option, some, List, [], ◌∷◌, Text, codes, any,
  update_where, arith, Bool-cases, inl, inr,
}
use hi_mqtt.Prelude.Exec.{Result, ok, bind-ok}
use hi_mqtt.Db.Schema.{MqttUserRow, StoredUser, Tables}
use hi_mqtt.Db.Query.{Database}
use hi_mqtt.Db.Users.{named, numbered, set_user, change_user}
use hi_mqtt.Db.Users as Store
use hi_mqtt.Acl.Service.{verify_mqtt_password}
use hi_mqtt.Acl.Service.Reload.{IsFresh}
use hi_mqtt.Acl.Service.Password.{accepts, same, verify_of_fresh}
use hi_mqtt.Admin.Server.{AppState, Status, Env}
use hi_mqtt.Admin.Users.Updating.{update_handler, update-ok}
use hi_mqtt.Admin.Server.Laws.{tables_of}
use hi_mqtt.Admin.Users.{UpdateMqttUserRequest, new_hash, hash_password, update_mqtt_user}
use hi_mqtt.Admin.Revocation.{verify_mqtt_password-IsUnknown}

any-update_where :
    {A : Type 0} (p q : A → Bool) (f : A → A) (xs : List A)
    → ((x : A) → p (f x) ≡ false)
    → any (λ x. not (q x) && p x) xs ≡ false
    → any p (update_where q f xs) ≡ false
unfolding update_where
any-update_where p q f [] h k = refl
any-update_where p q f (x ∷ xs) h k = ground (arith, h x, any-update_where p q f xs h)

any-weaken :
    {A : Type 0} (p q : A → Bool) (xs : List A)
    → ((x : A) → q x ≡ false → p x ≡ false)
    → any q xs ≡ false
    → any p xs ≡ false
any-weaken p q [] h k = refl
any-weaken p q (x ∷ xs) h k = ground (arith, h x, any-weaken p q xs h)

enabled-change_user :
    (hash : Option Text) (enabled : Bool) (category : Option (Option ℕ)) (now : ℕ) (u : StoredUser)
    → (change_user hash enabled category now u).enabled ≡ enabled
unfolding change_user
enabled-change_user hash enabled category now u = ground arith

users-set_user :
    (id : ℕ) (password_hash : Option Text) (enabled : Bool) (category_id : Option (Option ℕ))
    (now : ℕ) (t : Tables) (found : Option MqttUserRow)
    → (set_user id password_hash enabled category_id now t).0 ≡ ok found
    → (set_user id password_hash enabled category_id now t).1.users
      ≡ update_where (numbered id) (change_user password_hash enabled category_id now) t.users
unfolding set_user
users-set_user id password_hash enabled category_id now t found h = ground arith

database-new_hash :
    (env : Env) (password : Option Text) (s : AppState)
    → (new_hash env password s).1.acl.database ≡ s.acl.database
unfolding new_hash hash_password
database-new_hash env password s = ground arith

-- An update that was answered with 200: the rows with this id were changed, and the cache shows
-- the tables.
update_mqtt_user-ok :
    (env : Env) (id : ℕ) (body : UpdateMqttUserRequest) (s : AppState) (user : MqttUserRow)
    → (update_mqtt_user env id body s).0 ≡ ok user
    → (hash : Option Text) × (now : ℕ) × ((tables_of (update_mqtt_user env id body s).1).users
        ≡ update_where
            (numbered id)
            (change_user hash body.enabled (some body.category_id) now)
            (tables_of s).users)
      × IsFresh (update_mqtt_user env id body s).1.acl
unfolding update_mqtt_user Store.update_mqtt_user
update_mqtt_user-ok env id body s user h =
    let set = λ (p : Option Text). set_user id p body.enabled (some body.category_id) in
    let (p, hashed, same1, run1) =
      bind-ok (new_hash env body.password)
        (λ p. update_handler env (codes "更新 mqtt_user 失败") (set p)) s user h in
    let s1 = (new_hash env body.password s).1 in
    let (found, answered, tables, fresh) =
      update-ok env (codes "更新 mqtt_user 失败") (set p) s1 user run1 in
    let now = env.link.now s1.acl.database.statements in
    let changed = λ (d : Database).
      update_where (numbered id) (change_user p body.enabled (some body.category_id) now)
        d.tables.users in
    (
      p,
      now,
      ap (λ (x : Result Status MqttUserRow × AppState). (tables_of x.1).users) same1
          ∙ ap (λ (t : Tables). t.users) tables
          ∙ users-set_user id p body.enabled (some body.category_id) now _ found answered
          ∙ ap changed (database-new_hash env body.password s),
      rw same1 fresh,
    )

-- After an update that was answered with 200 and disabled the user, no password is accepted for
-- the user's name, if no other user has it.
pub update_mqtt_user-refuses :
    (env : Env) (id : ℕ) (body : UpdateMqttUserRequest) (s : AppState) (user : MqttUserRow)
    (username password : Text)
    → body.enabled ≡ false
    → any (λ u. not (numbered id u) && named username u) (tables_of s).users ≡ false
    → (update_mqtt_user env id body s).0 ≡ ok user
    → (verify_mqtt_password env.link env.bcrypt username password
        (update_mqtt_user env id body s).1.acl).0
      ≡ false
update_mqtt_user-refuses env id body s user username password disabled alone h =
    let (hash, now, users, fresh) = update_mqtt_user-ok env id body s user h in
    let change = change_user hash body.enabled (some body.category_id) now in
    let after = (update_mqtt_user env id body s).1.acl in
    let accepted = λ (u : StoredUser).
      named username u && not (same false (accepts env.link env.bcrypt username password u)) in
    let none_accepts : any accepted after.database.tables.users ≡ false = rw users (
      any-update_where accepted (numbered id) change (tables_of s).users
        (λ u.
          ground
            (arith, enabled-change_user hash body.enabled (some body.category_id) now u, disabled))
        (any-weaken _ (λ u. not (numbered id u) && named username u) (tables_of s).users
          (λ u k. ground (arith, k)) alone)) in
    elim (Bool-cases (any (named username) after.database.tables.users)) [
      | inr unknown ↦
          verify_mqtt_password-IsUnknown env.link env.bcrypt after username password fresh unknown
      | inl known ↦
          verify_of_fresh env.link env.bcrypt username password after fresh false none_accepts known
    ]
