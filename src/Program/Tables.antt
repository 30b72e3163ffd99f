-- ===== src/Program/Tables.antt =====
-- The tables in every state that the program reaches.
use hi_mqtt.Prelude.{
  ◌≡◌, ◌≢◌, refl, ℕ, true, false, not, ◌&&◌, Option, List, [], ◌∷◌, Text, any, text_eq, text_eq_iff,
  All, arith, Bool-cases, inl, inr,
}
use hi_mqtt.Prelude.Exec.{ok}
use hi_mqtt.Db.Schema.{MqttUserRow, StoredUser, Tables}
use hi_mqtt.Db.Users.{named, numbered, belongs_to}
use hi_mqtt.Db.Invariants.{IsInvariant}
use hi_mqtt.Db.Writes.{Write-Keeps}
use hi_mqtt.Db.Table.{Differ}
use hi_mqtt.Db.Constraints.{IsSound}
use hi_mqtt.Db.Constraints.Categories.{all_IsSound}
use hi_mqtt.Acl.Service.{AclService, verify_mqtt_password}
use hi_mqtt.Acl.Service.Reload.{tables-reload}
use hi_mqtt.Admin.Server.{AppState, Env, no_content}
use hi_mqtt.Admin.Server.Laws.{tables_of}
use hi_mqtt.Admin.Invariants.{InState}
use hi_mqtt.Admin.Users.{UpdateMqttUserRequest, delete_mqtt_user, update_mqtt_user}
use hi_mqtt.Admin.Disabling.{update_mqtt_user-refuses}
use hi_mqtt.Admin.Revocation.{delete_mqtt_user-refuses}
use hi_mqtt.Admin.Router.Keeps.{serve-Keeps}
use hi_mqtt.Startup.{authenticate}
use hi_mqtt.Startup.Logins.{authenticate_cases}
use hi_mqtt.Program.{
  Step, request, client, store_cache, statement, tick, observe, Reach, here, next,
}

module _ {P : Tables → Type 0} (inv : IsInvariant P) (env : Env) (parse : Text → Option Text) where
  authenticate-Keeps :
      (username password peer : Text) (s : AclService)
      → P s.database.tables
      → P (authenticate env.link env.bcrypt parse username password peer s).1.database.tables
  authenticate-Keeps username password peer s h =
      elim (authenticate_cases env.link env.bcrypt parse username password peer s).1 [
        | inl same ↦ rw same h
        | inr (passed, now, noted) ↦
            rw noted ((inv.note_login username _ now).at s.database.tables h)
      ]

  pub Step-Keeps : {s t : AppState} → Step env parse s t → InState P s → InState P t
  Step-Keeps (request s shown now head r) h = (serve-Keeps inv shown env now head r).at s h
  Step-Keeps (client s username password peer) h = authenticate-Keeps username password peer s.acl h
  Step-Keeps (store_cache s cache) h = h
  Step-Keeps (statement s w) h = Write-Keeps inv w h
  Step-Keeps (tick s) h = rw (tables-reload env.link s.acl) h
  Step-Keeps (observe s monitor there) h = h

  -- What all statements keep holds in every state that is reached.
  pub Reach-Keeps : {s t : AppState} → InState P s → Reach env parse s t → InState P t
  Reach-Keeps h here = h
  Reach-Keeps h (next r st) = Step-Keeps st (Reach-Keeps h r)

-- In every state that the program reaches from tables that meet the constraints, whatever requests,
-- logins and refreshes came in whatever order and whatever the link to the server did, the tables
-- meet them: no two rows with one key or one unique name, and no reference to a row that is gone.
pub Reach-IsSound :
    (env : Env) (parse : Text → Option Text) {s t : AppState}
    → IsSound (tables_of s)
    → Reach env parse s t
    → IsSound (tables_of t)
Reach-IsSound env parse h r = Reach-Keeps all_IsSound env parse h r

not_named :
    (u : StoredUser) (name : Text) (users : List StoredUser)
    → All (λ v. (u.id ≢ v.id) × (text_eq u.username v.username ≡ false)) users
    → text_eq u.username name ≡ true
    → any (named name) users ≡ false
not_named u name [] h e = refl
not_named u name (v ∷ users) (d, h) e = ground (
  arith,
  d,
  not_named u name users h,
  text_eq_iff u.username name,
  text_eq_iff v.username name,
  text_eq_iff u.username v.username,
  e,
)

not-belongs_to :
    (id : ℕ) (name : Text) (users : List StoredUser)
    → any (named name) users ≡ false
    → (belongs_to id users name ≡ false)
      × (any (λ u. not (numbered id u) && named name u) users ≡ false)
unfolding belongs_to
not-belongs_to id name [] h = (refl, refl)
not-belongs_to id name (u ∷ users) h =
    let later = not-belongs_to id name users (ground arith) in
    (ground (arith, h, later), ground (arith, h, later))

alone :
    (id : ℕ) (name : Text) (users : List StoredUser)
    → Differ (λ u. u.id) (λ u v. text_eq u.username v.username ≡ false) users
    → belongs_to id users name ≡ true
    → any (λ u. not (numbered id u) && named name u) users ≡ false
unfolding belongs_to
alone id name [] d b = refl
alone id name (u ∷ users) (p, d) b = elim (Bool-cases (text_eq u.username name)) [
  | inl e ↦
      let later = not-belongs_to id name users (not_named u name users p e) in
      ground (arith, e, later, b)
  | inr e ↦ ground (arith, e, alone id name users d, b)
]

-- In every state that the program reaches from tables that meet the constraints, a user whose
-- deletion was answered with 204 is refused, whatever password comes with the name.
pub Reach-delete_refuses :
    (env : Env) (parse : Text → Option Text) {s t : AppState} (id : ℕ) (username password : Text)
    → IsSound (tables_of s)
    → Reach env parse s t
    → belongs_to id (tables_of t).users username ≡ true
    → (delete_mqtt_user env id t).0 ≡ ok no_content
    → (verify_mqtt_password env.link env.bcrypt username password
        (delete_mqtt_user env id t).1.acl).0
      ≡ false
Reach-delete_refuses env parse {s} {t} id username password h r owned done =
    let sound = Reach-IsSound env parse h r in
    delete_mqtt_user-refuses env id t username password
      (alone id username (tables_of t).users sound.users.differ owned) done

-- In every state that the program reaches from tables that meet the constraints, a user that an
-- update disabled, and was answered with 200, is refused, whatever password comes with the name.
pub Reach-update_refuses :
    (env : Env) (parse : Text → Option Text) {s t : AppState} (id : ℕ)
    (body : UpdateMqttUserRequest) (user : MqttUserRow) (username password : Text)
    → IsSound (tables_of s)
    → Reach env parse s t
    → belongs_to id (tables_of t).users username ≡ true
    → body.enabled ≡ false
    → (update_mqtt_user env id body t).0 ≡ ok user
    → (verify_mqtt_password env.link env.bcrypt username password
        (update_mqtt_user env id body t).1.acl).0
      ≡ false
Reach-update_refuses env parse {s} {t} id body user username password h r owned disabled done =
    let sound = Reach-IsSound env parse h r in
    update_mqtt_user-refuses env id body t user username password disabled
      (alone id username (tables_of t).users sound.users.differ owned) done
