-- ===== src/Program/Sessions.antt =====
-- The sessions in every state that the program reaches: who can hold a token.
use hi_mqtt.Prelude.{
  ◌≡◌, ◌⊎◌, text_eq_refl, lookup, refl, ◌∙◌, ℕ, true, false, Option, some, List, [], ◌∷◌, ◌++◌,
  Text, any, any-append, text_eq, find, arith, Bool-cases, Option-cases, inl, inr, lookup-remove,
}
use hi_mqtt.Prelude.Exec.{Result, ok, err}
use hi_mqtt.Db.Schema.{AdminUserRow, Tables}
use hi_mqtt.Db.Categories.{insert_category, set_category, remove_category}
use hi_mqtt.Db.Users.{insert_user, set_user, remove_user, note_login}
use hi_mqtt.Db.Topics.{insert_topic, set_topic, remove_topic}
use hi_mqtt.Db.Acls.{insert_acl, set_acl, remove_acl}
use hi_mqtt.Db.Admins.{insert_admin}
use hi_mqtt.Db.Defaults.{upsert_topic, upsert_acl, upsert_defaults}
use hi_mqtt.Db.Invariants.{IsInvariant}
use hi_mqtt.Admin.Server.{AppState, Env, Status}
use hi_mqtt.Admin.Server.Laws.{tables_of}
use hi_mqtt.Admin.Auth.{Head, validate, revoke, bearer_token}
use hi_mqtt.Admin.Login.{LoginRequest, LoginResponse, login, logout}
use hi_mqtt.Admin.Login.Sessions.{login_sound, sessions-login_fails}
use hi_mqtt.Admin.Router.{Request, post_login, post_logout, serve}
use hi_mqtt.Admin.Router.Sessions.{
  touches_sessions, sessions-serve, sessions-serve-login, sessions-serve-logout,
}
use hi_mqtt.Program.{
  Step, request, client, store_cache, statement, tick, observe, Reach, here, next,
}
use hi_mqtt.Program.Tables.{Step-Keeps}

abbrev pub HasAdmin : Text → Tables → Type 0
HasAdmin name t = any (λ a. text_eq a.username name) t.admin_users ≡ true

HasAdmin-append :
    (admins : List AdminUserRow) (row : AdminUserRow) (name : Text)
    → any (λ a. text_eq a.username name) admins ≡ true
    → any (λ a. text_eq a.username name) (admins ++ row ∷ []) ≡ true
HasAdmin-append admins row name h =
    any-append (λ (a : AdminUserRow). text_eq a.username name) admins (row ∷ []) ∙ ground (arith, h)

-- No statement removes an account of the administration.
HasAdmin-IsInvariant : (name : Text) → IsInvariant (HasAdmin name)
unfolding insert_category set_category remove_category insert_user set_user remove_user note_login
    insert_topic set_topic remove_topic insert_acl set_acl remove_acl insert_admin upsert_topic
    upsert_acl upsert_defaults
HasAdmin-IsInvariant name = record {
  insert_category = λ n d now. record { at = λ t h. ground arith };
  set_category = λ id n d now. record { at = λ t h. ground arith };
  remove_category = λ id now. record { at = λ t h. h };
  insert_user = λ u p e c now. record { at = λ t h. ground arith };
  set_user = λ id p e c now. record { at = λ t h. ground arith };
  remove_user = λ id now. record { at = λ t h. h };
  note_login = λ u ip now. record { at = λ t h. h };
  insert_topic = λ a d o now. record { at = λ t h. ground arith };
  set_topic = λ id a d o now. record { at = λ t h. ground arith };
  remove_topic = λ id now. record { at = λ t h. h };
  insert_acl = λ u p a b now. record { at = λ t h. ground arith };
  set_acl = λ id p a b now. record { at = λ t h. ground arith };
  remove_acl = λ id now. record { at = λ t h. h };
  insert_admin = λ u p now. record {
    at = λ t h. elim (Bool-cases (any (λ (a : AdminUserRow). text_eq a.username u) t.admin_users)) [
      | inl taken ↦ rw taken h
      | inr free ↦ rw free (HasAdmin-append t.admin_users _ name h)
    ];
  };
  upsert_topic = λ a d u now. record { at = λ t h. ground arith };
  upsert_acl = λ u p a b now. record { at = λ t h. ground arith };
  upsert_defaults = λ v now. record { at = λ t h. ground arith };
}

-- Each valid token names an account of the administration.
abbrev AreOfAdmins : AppState → Type 0
AreOfAdmins s = (j name : Text) → validate j s.sessions ≡ some name → HasAdmin name (tables_of s)

-- What the sessions of a later state may hold.
abbrev AreOld : AppState → AppState → Type 0
AreOld s u = (j name : Text) → validate j u.sessions ≡ some name → validate j s.sessions ≡ some name

found_admin :
    (name : Text) (admins : List AdminUserRow) (user : AdminUserRow)
    → find (λ a. text_eq a.username name) admins ≡ some user
    → any (λ a. text_eq a.username user.username) admins ≡ true
unfolding find
found_admin name [] user e = cc
found_admin name (a ∷ admins) user e =
    ground (arith, found_admin name admins user, e, text_eq_refl user.username)

module _ {S : Type 0} (shown : S) (env : Env) (now : ℕ) where
  logout-AreOld : (head : Head) (s : AppState) → AreOld s (logout head s).1
  unfolding logout validate revoke
  logout-AreOld head s j name h = elim (Option-cases (bearer_token head)) [
    | inl e ↦ ground (arith, e)
    | inr (t, e) ↦ ground (arith, e, lookup-remove t j s.sessions)
  ]

  serve-AreOld :
      (head : Head) (r : Request) (s : AppState)
      → touches_sessions r ≡ false
      → AreOld s (serve shown env now head r s).1
  serve-AreOld head r s l j name h = rw (sessions-serve shown env now head r s l) at h

  -- Each session after a request is one from before it, or it is of the account that logged in.
  abbrev IsOldOrAdmin : AppState → AppState → Type 0
  IsOldOrAdmin s u =
      (j name : Text)
      → validate j u.sessions ≡ some name
      → (validate j s.sessions ≡ some name) ⊎ HasAdmin name (tables_of s)

  login-IsOldOrAdmin :
      (body : LoginRequest) (s : AppState) (outcome : Result Status LoginResponse)
      → (login env body s).0 ≡ outcome
      → IsOldOrAdmin s (login env body s).1
  login-IsOldOrAdmin body s (err e) o j name h = inl (rw (sessions-login_fails env body s o) at h)
  login-IsOldOrAdmin body s (ok r) o j name h =
      let (user, found, _, named, sessions) = login_sound env body s r o in
      elim (Bool-cases (text_eq r.token j)) [
        | inl given ↦
            let same : user.username ≡ name = ground (arith, sessions j, given, h, named) in
            inr (rw same at (found_admin body.username (tables_of s).admin_users user found))
        | inr other ↦ inl (ground (arith, sessions j, other, h))
      ]

  serve-IsOldOrAdmin :
      (head : Head) (r : Request) (s : AppState) → IsOldOrAdmin s (serve shown env now head r s).1
  serve-IsOldOrAdmin head (post_login body) s j name h =
      login-IsOldOrAdmin body s (login env body s).0 refl j name
        (rw (sessions-serve-login shown env now head body s) at h)
  serve-IsOldOrAdmin head post_logout s j name h =
      elim (sessions-serve-logout shown env now head s) [
        | inl same ↦ inl (rw same at h)
        | inr out ↦ inl (logout-AreOld head s j name (rw out at h))
      ]
  serve-IsOldOrAdmin head r s j name h = inl (serve-AreOld head r s refl j name h)

Step-AreOfAdmins :
    (env : Env) (parse : Text → Option Text) {s t : AppState}
    → Step env parse s t
    → AreOfAdmins s
    → AreOfAdmins t
Step-AreOfAdmins env parse (request s shown now head r) h j name v =
    let before : HasAdmin name (tables_of s) =
      elim (serve-IsOldOrAdmin shown env now head r s j name v) [
        | inl old ↦ h j name old
        | inr admin ↦ admin
      ] in
    Step-Keeps (HasAdmin-IsInvariant name) env parse (request s shown now head r) before
Step-AreOfAdmins env parse (client s username password peer) h j name v =
    Step-Keeps (HasAdmin-IsInvariant name) env parse (client s username password peer) (h j name v)
Step-AreOfAdmins env parse (store_cache s cache) h j name v = h j name v
Step-AreOfAdmins env parse (statement s w) h j name v =
    Step-Keeps (HasAdmin-IsInvariant name) env parse (statement s w) (h j name v)
Step-AreOfAdmins env parse (tick s) h j name v =
    Step-Keeps (HasAdmin-IsInvariant name) env parse (tick s) (h j name v)
Step-AreOfAdmins env parse (observe s monitor there) h j name v = h j name v

Reach-AreOfAdmins :
    (env : Env) (parse : Text → Option Text) {s t : AppState}
    → AreOfAdmins s
    → Reach env parse s t
    → AreOfAdmins t
Reach-AreOfAdmins env parse h here = h
Reach-AreOfAdmins env parse h (next r st) =
    Step-AreOfAdmins env parse st (Reach-AreOfAdmins env parse h r)

-- In every state that the program reaches from one without sessions, a token that is valid names
-- an account of the administration which is in the tables.
pub Reach-HasAdmin :
    (env : Env) (parse : Text → Option Text) {s t : AppState} (token name : Text)
    → s.sessions ≡ []
    → Reach env parse s t
    → validate token t.sessions ≡ some name
    → HasAdmin name (tables_of t)
unfolding validate lookup
Reach-HasAdmin env parse token name e r v =
    Reach-AreOfAdmins env parse (λ j n w. ground (arith, e, w)) r token name v
