-- ===== src/Hooks/Login.antt =====
-- `handle_auth` of crates/rumqttd/src/link/remote.rs, which gives the handler of a listener the
-- address of the peer.
use hi_mqtt.Prelude.{
  ◌≡◌, refl, Bool, true, false, Option, none, some, List, [], ◌∷◌, Text, Map, lookup, text_eq, All,
  arith, if◌then◌else◌,
}
use hi_mqtt.Prelude.Exec.{Result, ok, err}
use hi_mqtt.Db.Query.{Database, DbError, Link}
use hi_mqtt.Acl.Matcher.{Matches}
use hi_mqtt.Acl.Service.{AclService, Bcrypt, verify_mqtt_password}
use hi_mqtt.Startup.{AppSettings, AuthHandler, Server, Config, authenticate, start_acl}
use hi_mqtt.Startup.Guard.{listed, start_acl-InForce}
use hi_mqtt.Startup.Logins.{authenticate_cases}
use hi_mqtt.Hooks.Access.{is_ok}

-- `protocol::Login`
pub record Login : Type 0 where
  pub username : Text
  pub password : Text

pub data AuthError : Type 0 where
  invalid_auth : AuthError

abbrev pub Answer : Type 0
Answer = Result AuthError (Unit {0}) × AclService

-- The pairs of the configuration are asked where there is no handler. `ct_eq` compares the texts.
abbrev by_pairs : Option (Map Text) → Login → Result AuthError (Unit {0})
by_pairs none login = err invalid_auth
by_pairs (some pairs) login = elim (lookup login.username pairs) [
  | none ↦ err invalid_auth
  | some stored ↦ if text_eq stored login.password then ok tt else err invalid_auth
]

abbrev answered : Bool × AclService → Answer
answered (true, s) = (ok tt, s)
answered (false, s) = (err invalid_auth, s)

abbrev with_login : Option (Map Text) → Option AuthHandler → Login → Text → AclService → Answer
with_login auth none login peer s = (by_pairs auth login, s)
with_login auth (some handler) login peer s =
    answered (handler login.username login.password peer s)

abbrev is_open : Option (Map Text) → Option AuthHandler → Bool
is_open none none = true
is_open (some pairs) external = false
is_open none (some handler) = false

unfoldable pub handle_auth :
    Option (Map Text) → Option AuthHandler → Option Login → Text → AclService → Answer
unfolding lookup
handle_auth auth external login peer s =
    if is_open auth external
    then (ok tt, s)
    else elim login [ none ↦ (err invalid_auth, s) | some l ↦ with_login auth external l peer s ]

-- The login that a client sent, if any, is a name with a password that is accepted.
abbrev pub is_verified : Link → Bcrypt → Option Login → AclService → Bool
is_verified link bcrypt none s = false
is_verified link bcrypt (some l) s = (verify_mqtt_password link bcrypt l.username l.password s).0

module _ (link : Link) (bcrypt : Bcrypt) (parse : Text → Option Text) where
  guarded :
      (auth : Option (Map Text)) (login : Option Login) (peer : Text) (s : AclService)
      → is_ok (handle_auth auth (some (authenticate link bcrypt parse)) login peer s).0
        ≡ is_verified link bcrypt login s
  unfolding handle_auth
  guarded none none peer s = refl
  guarded (some pairs) none peer s = refl
  guarded none (some l) peer s =
      ground (arith, (authenticate_cases link bcrypt parse l.username l.password peer s).0)
  guarded (some pairs) (some l) peer s =
      ground (arith, (authenticate_cases link bcrypt parse l.username l.password peer s).0)

  -- A listener lets exactly those in that show a password which the service accepts.
  abbrev pub LetsIn : Text × Server → Type 0
  LetsIn (name, server) =
      (auth : Option (Map Text)) (login : Option Login) (peer : Text) (s : AclService)
      → is_ok (handle_auth auth server.auth_handler login peer s).0
        ≡ is_verified link bcrypt login s

  All-guarded :
      (servers : List (Text × Server))
      → All
          (λ (x : Text × Server). x.1.auth_handler ≡ some (authenticate link bcrypt parse))
          servers
      → All LetsIn servers
  All-guarded [] h = tt
  All-guarded (x ∷ servers) (p, h) =
      (λ auth login peer s. rw p (guarded auth login peer s), All-guarded servers h)

  -- After a start with access control that succeeds every listener, of whatever kind, lets exactly
  -- those clients in that show a name and a password which the service accepts at that moment: a
  -- client without a login is let in nowhere, and the passwords of the configuration count for
  -- nothing.
  pub start_acl-LetsIn :
      (matches : Matches) (settings : AppSettings) (configs : Config)
      (reached : Result DbError Database) (r : Option AclService × Config)
      → settings.acl.enabled ≡ true
      → start_acl link bcrypt parse matches settings configs reached ≡ ok r
      → All LetsIn (listed r.1.v4) × All LetsIn (listed r.1.v5) × All LetsIn (listed r.1.ws)
  start_acl-LetsIn matches settings configs reached r e h =
      let force = start_acl-InForce link bcrypt parse matches settings configs reached r e h in
      let (v4, v5, ws) = force.is_guarded in
      (
        All-guarded (listed r.1.v4) v4,
        All-guarded (listed r.1.v5) v5,
        All-guarded (listed r.1.ws) ws,
      )
