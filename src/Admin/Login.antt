-- ===== src/Admin/Login.antt =====
-- `login`, `logout` and `me` of src/admin/mod.rs.
pub mod Sessions
use hi_mqtt.Prelude.{ℕ, suc, Bool, true, false, Option, none, some, Text, if◌then◌else◌}
use hi_mqtt.Prelude.Exec.{Result, ok, err, Exec, pure, raise, ok_or, ◌>>=◌, ◌>>◌}
use hi_mqtt.Db.Schema.{AdminUserRow}
use hi_mqtt.Db.Admins.{get_admin_user}
use hi_mqtt.Acl.Service.{AclService, verifies}
use hi_mqtt.Admin.Server.{
  AppState, Handler, Status, Env, unauthorized, internal_server_error, no_content, query,
}
use hi_mqtt.Admin.Auth.{Head, bearer_token, create_session, validate, revoke}

pub record LoginRequest : Type 0 where
  pub username : Text
  pub password : Text

pub record LoginResponse : Type 0 where
  pub token : Text
  pub username : Text

-- `state.auth.create_session(username)`
unfoldable pub open_session : Env → Text → Handler Text
unfolding create_session
open_session env username s =
    let token = env.new_v4 s.acl.draws in
    (
      ok token,
      record s {
        acl = record s.acl { draws = suc s.acl.draws };
        sessions = create_session token username s.sessions;
      },
    )

-- After the account is found.
unfoldable pub admit : Env → Text → AdminUserRow → Handler LoginResponse
unfolding verifies open_session
admit env password user =
    if verifies env.link env.bcrypt password user.password_hash
    then (do
      token ← open_session env user.username
      pure (record { token = token; username = user.username }))
    else raise unauthorized

unfoldable pub login : Env → LoginRequest → Handler LoginResponse
unfolding query get_admin_user admit
login env body = do
  found ← query internal_server_error (get_admin_user env.link body.username)
  user ← ok_or found unauthorized
  admit env body.password user

revoke_all : Option Text → AppState → AppState
unfolding revoke
revoke_all none s = s
revoke_all (some token) s = record s { sessions = revoke token s.sessions }

unfoldable pub logout : Head → Handler Status
unfolding bearer_token revoke_all
logout head s = (ok no_content, revoke_all (bearer_token head) s)

unfoldable pub me : Head → Handler LoginResponse
unfolding bearer_token validate
me head s =
    (do
      token ← ok_or (bearer_token head) unauthorized
      username ← ok_or (validate token s.sessions) unauthorized
      pure (record { token = token; username = username }))
      s
