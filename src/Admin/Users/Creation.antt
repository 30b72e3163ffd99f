-- ===== src/Admin/Users/Creation.antt =====
-- How `create_mqtt_user` of src/admin/mod.rs runs where it answers 201.
use hi_mqtt.Prelude.{◌≡◌, sym, ap, ◌∙◌, ℕ, some, Text, codes, arith}
use hi_mqtt.Prelude.Exec.{Result, ok, pure, bind-ok, ◌>>=◌}
use hi_mqtt.Db.Schema.{MqttUserRow}
use hi_mqtt.Db.Query.{Database, run}
use hi_mqtt.Db.Users.{insert_user}
use hi_mqtt.Db.Users as Store
use hi_mqtt.Acl.Service.Reload.{IsFresh}
use hi_mqtt.Admin.Server.{AppState, Status, Env, created, bad_request, query, refresh}
use hi_mqtt.Admin.Server.Laws.{tables_of, query-ok, reply_after_refresh}
use hi_mqtt.Admin.Users.{
  CreateMqttUserRequest, hash_password, give_defaults, create_mqtt_user, mqtt_password_bcrypt_cost,
}

hash_password-ok :
    (env : Env) (password : Text) (s : AppState) (h : Text)
    → (hash_password env password s).0 ≡ ok h
    → (env.bcrypt.hash s.acl.draws password mqtt_password_bcrypt_cost ≡ some h)
      × ((hash_password env password s).1.acl.database ≡ s.acl.database)
unfolding hash_password
hash_password-ok env password s h e = (ground arith, ground arith)

-- The password was hashed, the row inserted, and the templates given from the state `before`; the
-- cache shows the tables that this left.
pub record Ran (env : Env) (body : CreateMqttUserRequest) (s : AppState) : Type 0 where
  pub hash : Text
  pub user : MqttUserRow
  pub now : ℕ
  pub before : AppState
  pub hashed : env.bcrypt.hash s.acl.draws body.password mqtt_password_bcrypt_cost ≡ some hash
  pub inserted :
      (insert_user body.username hash body.enabled body.category_id now (tables_of s)).0 ≡ ok user
  pub is_before :
      tables_of before
      ≡ (insert_user body.username hash body.enabled body.category_id now (tables_of s)).1
  pub given : (give_defaults env body.apply_defaults user.username before).0 ≡ ok tt
  pub left :
      tables_of (create_mqtt_user env body s).1
      ≡ tables_of (give_defaults env body.apply_defaults user.username before).1
  pub is_fresh : IsFresh (create_mqtt_user env body s).1.acl

pub create_mqtt_user-Ran :
    (env : Env) (body : CreateMqttUserRequest) (s : AppState) (user : MqttUserRow)
    → (create_mqtt_user env body s).0 ≡ ok (created, user)
    → Ran env body s
unfolding create_mqtt_user Store.create_mqtt_user
create_mqtt_user-Ran env body s user h =
    let insert = λ (p : Text). insert_user body.username p body.enabled body.category_id in
    let send =
      λ (p : Text). query bad_request (run env.link (codes "创建 mqtt_user 失败") (insert p)) in
    let finish = λ (u : MqttUserRow). refresh env >>= λ _. pure (created, u) in
    let give =
      λ (u : MqttUserRow). give_defaults env body.apply_defaults u.username >>= λ _. finish u in
    let (p, hashed, same1, run1) =
      bind-ok (hash_password env body.password) (λ p. send p >>= give) s (created, user) h in
    let (drawn, database) = hash_password-ok env body.password s p hashed in
    let s1 = (hash_password env body.password s).1 in
    let (u, sent, same2, run2) = bind-ok (send p) give s1 (created, user) run1 in
    let (told, tables) = query-ok env (codes "创建 mqtt_user 失败") (insert p) bad_request s1 u sent in
    let at_once = λ (d : Database). insert p (env.link.now d.statements) d.tables in
    let s2 = (send p s1).1 in
    let (_, given, same3, run3) =
      bind-ok (give_defaults env body.apply_defaults u.username) (λ _. finish u) s2 (created, user)
        run2 in
    let s3 = (give_defaults env body.apply_defaults u.username s2).1 in
    let (_, tables3, fresh) = reply_after_refresh env s3 (created, u) (created, user) run3 in
    let whole = same1 ∙ same2 ∙ same3 in
    record {
      hash = p;
      user = u;
      now = env.link.now s.acl.database.statements;
      before = s2;
      hashed = drawn;
      inserted = sym (ap (λ (d : Database). (at_once d).0) database) ∙ told;
      is_before = tables ∙ ap (λ (d : Database). (at_once d).1) database;
      given = given;
      left =
          ap (λ (x : Result Status (Status × MqttUserRow) × AppState). tables_of x.1) whole
          ∙ tables3;
      is_fresh = rw whole fresh;
    }
