-- ===== src/Admin/Router/Sessions.antt =====
-- Who can open a session, and what a request without one can do: the routes of src/admin/mod.rs.
use hi_mqtt.Prelude.{
  ℕ, ◌≡◌, refl, ◌∙◌, arith, Bool, true, false, none, some, if◌then◌else◌, text_eq_refl, is_some,
  Text, text_eq, text_eq_iff, ◌⊎◌, inl, inr, Bool-cases, Option-cases, lookup-remove,
}
use hi_mqtt.Prelude.Exec.{Result, ok, err}
use hi_mqtt.Admin.Server.{AppState, Env, Handler, Status, unauthorized, no_content, query, refresh}
use hi_mqtt.Admin.Auth.{Head, request_token, is_valid, require_auth, validate, revoke, bearer_token}
use hi_mqtt.Admin.Login.{LoginRequest, LoginResponse, login, logout, me}
use hi_mqtt.Admin.Login.Sessions.{login_sound, sessions-login_fails}
use hi_mqtt.Admin.Users.{
  hash_password, give_defaults, new_hash, create_mqtt_user, update_mqtt_user, delete_mqtt_user,
  get_user_resources, list_mqtt_users, after_delete,
}
use hi_mqtt.Admin.Batch.{batch_create_mqtt_users}
use hi_mqtt.Admin.Batch.Sessions.{sessions-batch}
use hi_mqtt.Admin.Categories.{
  list_categories, create_category, update_category, delete_category, get_settings, update_settings,
}
use hi_mqtt.Admin.Topics.{list_topics, create_topic, update_topic, delete_topic}
use hi_mqtt.Admin.Acls.{list_acls, create_acl, update_acl, delete_acl, reload_acl}
use hi_mqtt.Admin.Router.{
  Request, post_login, post_logout, post_batch, Reply, static_files, dispatch, protect, serve,
  replying, the_monitor, monitor_stats, monitor_messages, monitor_connections,
  monitor_subscriptions,
}

abbrev pub is_login : Request → Bool
is_login (post_login body) = true
is_login _ = false

-- A login and a logout are the requests that touch the sessions.
abbrev pub touches_sessions : Request → Bool
touches_sessions (post_login body) = true
touches_sessions post_logout = true
touches_sessions _ = false

module _ {S : Type 0} (shown : S) (env : Env) (now : ℕ) where
  sessions-replying :
      {A : Type 0} (f : A → Reply S) (m : Handler A) (s : AppState)
      → (replying shown env now f m s).1.sessions ≡ (m s).1.sessions
  unfolding replying
  sessions-replying f m s = ground arith

  sessions-dispatch :
      (head : Head) (request : Request) (s : AppState)
      → touches_sessions request ≡ false
      → (dispatch shown env now head request s).1.sessions ≡ s.sessions
  unfolding dispatch replying me list_mqtt_users create_mqtt_user update_mqtt_user delete_mqtt_user
      get_user_resources list_categories create_category update_category delete_category
      get_settings update_settings list_topics create_topic update_topic delete_topic list_acls
      create_acl update_acl delete_acl reload_acl monitor_stats monitor_messages monitor_connections
      monitor_subscriptions the_monitor query refresh hash_password new_hash give_defaults
      after_delete
  sessions-dispatch head (post_login body) s l = cc
  sessions-dispatch head post_logout s l = cc
  sessions-dispatch head (post_batch body) s l =
      sessions-replying Reply.batch (batch_create_mqtt_users env body) s ∙ sessions-batch env body s
  sessions-dispatch head request s l = ground arith

  -- Without a valid token nothing but a login has an effect: the state stays as it is, and the
  -- reply is 401 or, for a route that is not there, the fallback's.
  pub serve-unauthorized :
      (head : Head) (request : Request) (s : AppState)
      → is_login request ≡ false
      → is_valid (request_token head) s.sessions ≡ false
      → ((serve shown env now head request s).1 ≡ s)
        × (((serve shown env now head request s).0 ≡ err unauthorized)
            ⊎ (((serve shown env now head request s).0 ≡ ok static_files) × (s.monitor ≡ none)))
  unfolding serve protect require_auth
  serve-unauthorized head (post_login body) s l h = cc
  serve-unauthorized head request s l h = ground arith

  sessions-logout :
      (head : Head) (s : AppState) (j : Text)
      → is_some (validate j (logout head s).1.sessions) ≡ true
      → is_some (validate j s.sessions) ≡ true
  unfolding logout validate revoke
  sessions-logout head s j h = elim (Option-cases (bearer_token head)) [
    | inl e ↦ ground (arith, e)
    | inr (t, e) ↦ ground (arith, e, lookup-remove t j s.sessions)
  ]

  -- What a valid token after a request comes from: it was valid before, or the request was a login
  -- that gave it out.
  abbrev pub IsAccounted : Head → Request → AppState → Text → Type 0
  IsAccounted head request s j =
      (is_some (validate j s.sessions) ≡ true)
      ⊎ ((body : LoginRequest) × (r : LoginResponse) × (request ≡ post_login body)
          × ((login env body s).0 ≡ ok r)
          × (r.token ≡ j))

  IsAccounted-login :
      (head : Head) (body : LoginRequest) (s : AppState) (j : Text)
      (outcome : Result Status LoginResponse)
      → (login env body s).0 ≡ outcome
      → is_some (validate j (login env body s).1.sessions) ≡ true
      → IsAccounted head (post_login body) s j
  IsAccounted-login head body s j (err e) o h = inl (rw (sessions-login_fails env body s o) at h)
  IsAccounted-login head body s j (ok r) o h =
      let (_, _, _, _, sessions) = login_sound env body s r o in
      elim (Bool-cases (text_eq r.token j)) [
        | inl given ↦ inr (body, r, refl, o, (text_eq_iff r.token j).0 given)
        | inr other ↦ inl (ground (arith, sessions j, other, h))
      ]

  -- What each request does to the sessions.
  pub sessions-serve :
      (head : Head) (request : Request) (s : AppState)
      → touches_sessions request ≡ false
      → (serve shown env now head request s).1.sessions ≡ s.sessions
  unfolding serve protect require_auth
  sessions-serve head (post_login body) s l = cc
  sessions-serve head request s l = ground (arith, sessions-dispatch head request s)

  pub sessions-serve-login :
      (head : Head) (body : LoginRequest) (s : AppState)
      → (serve shown env now head (post_login body) s).1.sessions ≡ (login env body s).1.sessions
  unfolding serve dispatch
  sessions-serve-login head body s = sessions-replying Reply.session (login env body) s

  pub sessions-serve-logout_valid :
      (head : Head) (s : AppState)
      → is_valid (request_token head) s.sessions ≡ true
      → (serve shown env now head post_logout s).1.sessions ≡ (logout head s).1.sessions
  unfolding serve protect require_auth dispatch
  sessions-serve-logout_valid head s valid =
      ground (arith, valid, sessions-replying Reply.done (logout head) s)

  -- A logout with a valid token, in its header or in its query, is answered with 204. It ends the
  -- session of the token if the header carries one; a token in the query alone stays valid.
  pub serve-logout :
      (head : Head) (token name : Text) (s : AppState)
      → request_token head ≡ some token
      → validate token s.sessions ≡ some name
      → ((serve shown env now head post_logout s).0 ≡ ok (Reply.done no_content))
        × (validate token (serve shown env now head post_logout s).1.sessions
            ≡ (if is_some (bearer_token head) then none else some name))
  unfolding serve protect require_auth dispatch replying logout validate revoke request_token
  serve-logout head token name s carried valid = elim (Option-cases (bearer_token head)) [
    | inl e ↦ (ground (arith, e, carried, valid), ground (arith, e, carried, valid))
    | inr (t, e) ↦ (
      ground (arith, e, carried, valid),
      ground (arith, e, carried, valid, lookup-remove t token s.sessions, text_eq_refl token),
    )
  ]

  pub sessions-serve-logout :
      (head : Head) (s : AppState)
      → ((serve shown env now head post_logout s).1.sessions ≡ s.sessions)
        ⊎ ((serve shown env now head post_logout s).1.sessions ≡ (logout head s).1.sessions)
  unfolding serve protect require_auth
  sessions-serve-logout head s = elim (Bool-cases (is_valid (request_token head) s.sessions)) [
    | inl valid ↦ inr (sessions-serve-logout_valid head s valid)
    | inr other ↦ inl (ground (arith, other))
  ]

  validate-serve :
      (head : Head) (request : Request) (s : AppState) (j : Text)
      → touches_sessions request ≡ false
      → is_some (validate j (serve shown env now head request s).1.sessions) ≡ true
      → is_some (validate j s.sessions) ≡ true
  validate-serve head request s j l h = rw (sessions-serve head request s l) at h

  -- A token that is valid after a request was valid before it, or the request was a login that
  -- succeeded and gave this token out: there is no other way to a session.
  pub serve-IsAccounted :
      (head : Head) (request : Request) (s : AppState) (j : Text)
      → is_some (validate j (serve shown env now head request s).1.sessions) ≡ true
      → IsAccounted head request s j
  unfolding serve protect require_auth dispatch
  serve-IsAccounted head (post_login body) s j h =
      IsAccounted-login head body s j (login env body s).0 refl
        (rw (sessions-replying Reply.session (login env body) s) at h)
  serve-IsAccounted head post_logout s j h =
      inl
        (ground (arith, sessions-logout head s j, sessions-replying Reply.done (logout head) s, h))
  serve-IsAccounted head request s j h = inl (validate-serve head request s j refl h)
