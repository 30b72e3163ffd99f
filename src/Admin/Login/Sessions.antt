-- ===== src/Admin/Login/Sessions.antt =====
-- The life of a session through the handlers of src/admin/mod.rs.
use hi_mqtt.Prelude.{
  ◌≡◌, refl, ap, ◌∙◌, true, Option, none, some, [], ◌∷◌, ◌++◌, Text, codes, find, text_eq,
  text_eq_refl, lookup-insert, lookup-remove, strip_prefix, arith, if◌then◌else◌, Bool-cases, inl,
  inr,
}
use hi_mqtt.Prelude.Exec.{Result, ok, err, ok_or, bind-ok, ◌>>=◌}
use hi_mqtt.Db.Schema.{AdminUserRow}
use hi_mqtt.Db.Admins.{select_admin, get_admin_user}
use hi_mqtt.Acl.Service.{verifies}
use hi_mqtt.Admin.Server.{
  AppState, Handler, Status, Env, unauthorized, internal_server_error, query,
}
use hi_mqtt.Admin.Server.Laws.{tables_of, query-ok}
use hi_mqtt.Admin.Auth.{Head, bearer_token, create_session, validate, require_auth}
use hi_mqtt.Admin.Login.{LoginRequest, LoginResponse, open_session, admit, login, logout, me}

-- A request that carries the token in its header.
abbrev pub bearing : Text → Head
bearing token = record { authorization = some (codes "Bearer " ++ token); uri_query = none }

strip_prefix-append : (p s : Text) → strip_prefix (p ++ s) p ≡ some s
unfolding strip_prefix
strip_prefix-append [] s = refl
strip_prefix-append (c ∷ p) s = ground (arith, strip_prefix-append p s)

pub bearer_token-bearing : (token : Text) → bearer_token (bearing token) ≡ some token
unfolding bearer_token
bearer_token-bearing token = strip_prefix-append (codes "Bearer ") token

admit-ok :
    (env : Env) (password : Text) (user : AdminUserRow) (s : AppState) (r : LoginResponse)
    → (admit env password user s).0 ≡ ok r
    → (verifies env.link env.bcrypt password user.password_hash ≡ true)
      × (r.username ≡ user.username)
      × (tables_of (admit env password user s).1 ≡ tables_of s)
      × ((j : Text)
          → validate j (admit env password user s).1.sessions
            ≡ (if text_eq r.token j then some r.username else validate j s.sessions))
unfolding admit open_session validate create_session
admit-ok env password user s r h =
    elim (Bool-cases (verifies env.link env.bcrypt password user.password_hash)) [
      | inl e ↦ (
        e,
        ground arith,
        ground arith,
        λ j. ground (arith, lookup-insert r.token j r.username s.sessions),
      )
      | inr e ↦ cc e
    ]

found-ok :
    (env : Env) (password : Text) (found : Option AdminUserRow) (s : AppState) (r : LoginResponse)
    → ((ok_or found unauthorized >>= admit env password) s).0 ≡ ok r
    → (user : AdminUserRow) × (found ≡ some user)
      × (verifies env.link env.bcrypt password user.password_hash ≡ true)
      × (r.username ≡ user.username)
      × ((j : Text)
          → validate j ((ok_or found unauthorized >>= admit env password) s).1.sessions
            ≡ (if text_eq r.token j then some r.username else validate j s.sessions))
found-ok env password none s r h = cc
found-ok env password (some user) s r h =
    let (checked, named, _, sessions) = admit-ok env password user s r h in
    (user, refl, checked, named, sessions)

-- A login that succeeds was made with a password that verifies against the account of that name,
-- and it adds one session: the token is the user's, and every other token is what it was.
pub login_sound :
    (env : Env) (body : LoginRequest) (s : AppState) (r : LoginResponse)
    → (login env body s).0 ≡ ok r
    → (user : AdminUserRow) × (find
          (λ a. text_eq a.username body.username)
          (tables_of s).admin_users
        ≡ some user)
      × (verifies env.link env.bcrypt body.password user.password_hash ≡ true)
      × (r.username ≡ user.username)
      × ((j : Text)
          → validate j (login env body s).1.sessions
            ≡ (if text_eq r.token j then some r.username else validate j s.sessions))
unfolding login query get_admin_user select_admin
login_sound env body s r h =
    let ask = query internal_server_error (get_admin_user env.link body.username) in
    let rest =
      λ (found : Option AdminUserRow). ok_or found unauthorized >>= admit env body.password in
    let (found, asked, same, run) = bind-ok ask rest s r h in
    let (answered, _) =
      query-ok env (codes "查询 admin 用户失败") (select_admin body.username) internal_server_error s
        found asked in
    let (user, there, checked, named, sessions) =
      found-ok env body.password found (ask s).1 r run in
    (
      user,
      ground (arith, answered, there),
      checked,
      named,
      λ j.
          ap (λ (x : Result Status LoginResponse × AppState). validate j x.1.sessions) same
          ∙ sessions j,
    )

-- The token that a login gave names its user to `me` in the state that the login left.
pub me-login :
    (env : Env) (body : LoginRequest) (s : AppState) (r : LoginResponse)
    → (login env body s).0 ≡ ok r
    → (me (bearing r.token) (login env body s).1).0 ≡ ok r
unfolding me
me-login env body s r h =
    let (user, _, _, _, sessions) = login_sound env body s r h in
    ground (arith, bearer_token-bearing r.token, sessions r.token, text_eq_refl r.token)

-- A logout ends the session of the token in the request's header: no protected handler runs on
-- that head any more, and the state stays as it is.
pub require_auth-logout :
    {A : Type 0} (head : Head) (token : Text) (next : Handler A) (s : AppState)
    → bearer_token head ≡ some token
    → require_auth head next (logout head s).1 ≡ (err unauthorized, (logout head s).1)
unfolding logout require_auth
require_auth-logout head token next s h =
    ground (arith, lookup-remove token token s.sessions, text_eq_refl token)

-- A login that fails leaves the sessions as they are.
pub sessions-login_fails :
    (env : Env) (body : LoginRequest) (s : AppState) {e : Status}
    → (login env body s).0 ≡ err e
    → (login env body s).1.sessions ≡ s.sessions
unfolding login query admit open_session
sessions-login_fails env body s h = ground arith
