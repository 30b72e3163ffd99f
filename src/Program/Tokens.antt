-- ===== src/Program/Tokens.antt =====
-- The tokens in every state that the program reaches: each came from the generator.
pub mod Final
use hi_mqtt.Prelude.{
  ◌≡◌, ◌⊎◌, ◌<◌, ◌≤◌, ◌∙◌, refl, sym, ℕ, suc, true, false, Option, none, some, [], Text, text_eq,
  text_eq_iff, text_eq_refl, lookup, lookup-remove, arith, Bool-cases, Option-cases, inl, inr,
}
use hi_mqtt.Prelude.Exec.{Result, ok, err}
use hi_mqtt.Prelude.Keeps.{Keeps}
use hi_mqtt.Db.Admins.{get_admin_user}
use hi_mqtt.Db.Query.{Link}
use hi_mqtt.Acl.Service.{
  AclService, Bcrypt, on_pool, reload, verify_mqtt_password, record_last_login,
}
use hi_mqtt.Startup.{authenticate}
use hi_mqtt.Admin.Server.{AppState, Env, Status, query}
use hi_mqtt.Admin.Auth.{Head, validate, revoke, bearer_token, request_token, require_auth}
use hi_mqtt.Admin.Login.{LoginRequest, LoginResponse, login, logout, admit, open_session}
use hi_mqtt.Admin.Login.Sessions.{login_sound, sessions-login_fails}
use hi_mqtt.Admin.Router.{Request, post_login, post_logout, serve}
use hi_mqtt.Admin.Router.Draws.{serve-HasDrawn, draws-serve-login}
use hi_mqtt.Admin.Router.Sessions.{
  touches_sessions, sessions-serve, sessions-serve-login, sessions-serve-logout,
}
use hi_mqtt.Program.{
  Step, request, client, store_cache, statement, tick, observe, Reach, here, next,
}

-- A login that succeeds gives out the generator's next value.
pub login-draws :
    (env : Env) (body : LoginRequest) (s : AppState) (r : LoginResponse)
    → (login env body s).0 ≡ ok r
    → (r.token ≡ env.new_v4 s.acl.draws) × ((login env body s).1.acl.draws ≡ suc s.acl.draws)
unfolding login query on_pool admit open_session
login-draws env body s r h = (ground (arith, h), ground (arith, h))

draws-verify_mqtt_password :
    (link : Link) (bcrypt : Bcrypt) (username password : Text) (s : AclService)
    → (verify_mqtt_password link bcrypt username password s).1.draws ≡ s.draws
unfolding verify_mqtt_password on_pool
draws-verify_mqtt_password link bcrypt username password s = ground arith

draws-authenticate :
    (env : Env) (parse : Text → Option Text) (username password peer : Text) (s : AclService)
    → (authenticate env.link env.bcrypt parse username password peer s).1.draws ≡ s.draws
unfolding authenticate record_last_login on_pool
draws-authenticate env parse username password peer s =
    ground (arith, draws-verify_mqtt_password env.link env.bcrypt username password s)

module _ (env : Env) where
  -- The token was not valid before only if it is the generator's next value, which is now drawn.
  abbrev pub IsOldOrNew : Text → Text → AppState → AppState → Type 0
  IsOldOrNew j name s u =
      (validate j s.sessions ≡ some name)
      ⊎ ((env.new_v4 s.acl.draws ≡ j) × (s.acl.draws < u.acl.draws))

  login-IsOldOrNew :
      (body : LoginRequest) (s : AppState) (outcome : Result Status LoginResponse) (j name : Text)
      → (login env body s).0 ≡ outcome
      → validate j (login env body s).1.sessions ≡ some name
      → IsOldOrNew j name s (login env body s).1
  login-IsOldOrNew body s (err e) j name o h = inl (rw (sessions-login_fails env body s o) at h)
  login-IsOldOrNew body s (ok r) j name o h =
      let (_, _, _, _, sessions) = login_sound env body s r o in
      let (drawn, on) = login-draws env body s r o in
      elim (Bool-cases (text_eq r.token j)) [
        | inl given ↦ inr (sym drawn ∙ (text_eq_iff r.token j).0 given, omega (arith, on))
        | inr other ↦ inl (ground (arith, sessions j, other, h))
      ]

  logout-IsOldOrNew :
      (head : Head) (s : AppState) (j name : Text)
      → validate j (logout head s).1.sessions ≡ some name
      → validate j s.sessions ≡ some name
  unfolding logout validate revoke
  logout-IsOldOrNew head s j name h = elim (Option-cases (bearer_token head)) [
    | inl e ↦ ground (arith, e)
    | inr (t, e) ↦ ground (arith, e, lookup-remove t j s.sessions)
  ]

  serve-IsOldOrNew :
      {S : Type 0} (shown : S) (now : ℕ) (head : Head) (r : Request) (s : AppState) (j name : Text)
      → validate j (serve shown env now head r s).1.sessions ≡ some name
      → IsOldOrNew j name s (serve shown env now head r s).1
  serve-IsOldOrNew shown now head (post_login body) s j name h =
      rw (draws-serve-login shown env now head body s) (
        login-IsOldOrNew body s (login env body s).0 j name refl
          (rw (sessions-serve-login shown env now head body s) at h))
  serve-IsOldOrNew shown now head post_logout s j name h =
      elim (sessions-serve-logout shown env now head s) [
        | inl same ↦ inl (rw same at h)
        | inr out ↦ inl (logout-IsOldOrNew head s j name (rw out at h))
      ]
  serve-IsOldOrNew shown now head r s j name h =
      inl (rw (sessions-serve shown env now head r s refl) at h)

  module _ (parse : Text → Option Text) where
    pub Step-IsOldOrNew :
        (j name : Text) {s t : AppState}
        → Step env parse s t
        → validate j t.sessions ≡ some name
        → IsOldOrNew j name s t
    Step-IsOldOrNew j name (request s shown now head r) h =
        serve-IsOldOrNew shown now head r s j name h
    Step-IsOldOrNew j name (client s username password peer) h = inl h
    Step-IsOldOrNew j name (store_cache s cache) h = inl h
    Step-IsOldOrNew j name (statement s w) h = inl h
    Step-IsOldOrNew j name (tick s) h = inl h
    Step-IsOldOrNew j name (observe s monitor there) h = inl h

    pub Step-draws :
        (n : ℕ) {s t : AppState} → Step env parse s t → n ≤ s.acl.draws → n ≤ t.acl.draws
    unfolding reload on_pool
    Step-draws n (request s shown now head r) h = (serve-HasDrawn n env shown now head r).at s h
    Step-draws n (client s username password peer) h =
        rw (draws-authenticate env parse username password peer s.acl) h
    Step-draws n (store_cache s cache) h = h
    Step-draws n (statement s w) h = h
    Step-draws n (tick s) h = ground (arith, h)
    Step-draws n (observe s monitor there) h = h

    -- Each valid token was drawn.
    abbrev pub IsDrawn : Text → AppState → Type 0
    IsDrawn j s = (n : ℕ) × (n < s.acl.draws) × (env.new_v4 n ≡ j)

    pub Reach-IsDrawn :
        {s t : AppState} (j name : Text)
        → s.sessions ≡ []
        → Reach env parse s t
        → validate j t.sessions ≡ some name
        → IsDrawn j t
    unfolding validate lookup
    Reach-IsDrawn j name e here v = ground (arith, e, v)
    Reach-IsDrawn j name e (next r st) v = elim (Step-IsOldOrNew j name st v) [
      | inl old ↦
          let (n, less, drawn) = Reach-IsDrawn j name e r old in
          (n, Step-draws (suc n) st less, drawn)
      | inr (new, less) ↦ (_, less, new)
    ]
