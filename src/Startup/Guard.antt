-- ===== src/Startup/Guard.antt =====
-- What the start in src/main.rs leaves: each listener asks the access control, whose cache shows
-- the tables, and there is an account for the administration.
use mathlib.Core.Path.{subst}
use hi_mqtt.Prelude.{
  ◌≡◌, ◌≤◌, refl, true, Option, none, some, List, [], ◌∷◌, map, Text, All, length, arith,
  Option-cases, inl, inr,
}
use hi_mqtt.Prelude.Exec.{Result, ok, err, bind-ok}
use hi_mqtt.Db.Query.{DbError, Database, Link}
use hi_mqtt.Acl.Matcher.{Matches}
use hi_mqtt.Acl.Cache.{check_acl}
use hi_mqtt.Acl.Service.{AclService, Bcrypt, reload, ensure_seed_data}
use hi_mqtt.Acl.Service.Reload.{IsFresh, reload-IsFresh}
use hi_mqtt.Acl.Service.Seed.{tables-ensure_seed_data, ensure_seed_data-one}
use hi_mqtt.Startup.{
  AppSettings, AuthHandler, Server, Servers, Config, authenticate, set_auth_handler,
  set_auth_handlers, install_auth_handlers, prepare, prepared, connected, new_service, start_acl,
  StartError, from_settings,
}

abbrev pub listed : Servers → List (Text × Server)
listed none = []
listed (some servers) = servers

-- Each listener has this handler.
abbrev pub IsGuardedBy : AuthHandler → Config → Type 0
IsGuardedBy handler configs =
    All (λ (server : Text × Server). server.1.auth_handler ≡ some handler) (listed configs.v4)
    × All (λ (server : Text × Server). server.1.auth_handler ≡ some handler) (listed configs.v5)
    × All (λ (server : Text × Server). server.1.auth_handler ≡ some handler) (listed configs.ws)

module _ (link : Link) (bcrypt : Bcrypt) (parse : Text → Option Text) where
  All-set_auth_handler :
      (servers : List (Text × Server))
      → All
          (λ (server : Text × Server).
            server.1.auth_handler ≡ some (authenticate link bcrypt parse))
          (map (set_auth_handler link bcrypt parse) servers)
  unfolding set_auth_handler
  All-set_auth_handler [] = tt
  All-set_auth_handler (server ∷ servers) = (refl, All-set_auth_handler servers)

  All-set_auth_handlers :
      (servers : Servers)
      → All
          (λ (server : Text × Server).
            server.1.auth_handler ≡ some (authenticate link bcrypt parse))
          (listed (set_auth_handlers link bcrypt parse servers))
  unfolding set_auth_handlers
  All-set_auth_handlers none = tt
  All-set_auth_handlers (some servers) = All-set_auth_handler servers

  install_auth_handlers-IsGuardedBy :
      (configs : Config)
      → IsGuardedBy
          (authenticate link bcrypt parse)
          (install_auth_handlers link bcrypt parse configs)
  unfolding install_auth_handlers
  install_auth_handlers-IsGuardedBy configs = (
    All-set_auth_handlers configs.v4,
    All-set_auth_handlers configs.v5,
    All-set_auth_handlers configs.ws,
  )

  -- A service that was prepared shows the tables, and somebody can log in to the administration.
  prepare-ok :
      (password : Text) (s : AclService)
      → (prepare link bcrypt parse password s).0 ≡ ok tt
      → IsFresh (prepare link bcrypt parse password s).1
        × (1 ≤ length (prepare link bcrypt parse password s).1.database.tables.admin_users)
  unfolding prepare
  prepare-ok password s h =
      let (u, loaded, same, seeded) =
        bind-ok (reload link) (λ _. ensure_seed_data link bcrypt password) s tt h in
      let after = (reload link s).1 in
      let fresh = reload-IsFresh link s (ground (arith, loaded)) in
      let (cache, users, categories, topics, acls) =
        tables-ensure_seed_data link bcrypt password after in
      (
        rw same (record {
          instant = fresh.instant;
          cached = rw (cache, users, categories, topics, acls) fresh.cached;
        }),
        rw same (ensure_seed_data-one link bcrypt password after seeded),
      )

  ok_inj : {E A : Type 0} (a b : A) → ◌≡◌ {A = Result E A} (ok a) (ok b) → a ≡ b
  ok_inj a b h = cc

  -- The access control is in force: the service shows the tables, the administration has an
  -- account, each listener asks the service, and so does the broker for each topic.
  pub record InForce (matches : Matches) (settings : AppSettings)
      (started : Option AclService × Config) : Type 0 where
    pub service : AclService
    pub is_kept : started.0 ≡ some service
    pub is_fresh : IsFresh service
    pub has_admin : 1 ≤ length service.database.tables.admin_users
    pub is_guarded : IsGuardedBy (authenticate link bcrypt parse) started.1
    pub decides :
        started.1.acl_handler ≡ some (λ s. check_acl matches (from_settings settings.acl) s.cache)

  prepared-InForce :
      (matches : Matches) (settings : AppSettings) (configs : Config) (d : Database)
      (outcome : Result DbError (Unit {0})) (r : Option AclService × Config)
      → (prepare link bcrypt parse settings.default_password (new_service d)).0 ≡ outcome
      → prepared link bcrypt parse matches settings configs
          (outcome, (prepare link bcrypt parse settings.default_password (new_service d)).1)
        ≡ ok r
      → InForce matches settings r
  unfolding prepared
  prepared-InForce matches settings configs d (err e) r o h = cc
  prepared-InForce matches settings configs d (ok _) r o h =
      let s = (prepare link bcrypt parse settings.default_password (new_service d)).1 in
      let (fresh, one) = prepare-ok settings.default_password (new_service d) o in
      let decide =
        some (λ (s : AclService). check_acl matches (from_settings settings.acl) s.cache) in
      subst (InForce matches settings)
        (ok_inj {E = StartError}
          (
            some s,
            record (install_auth_handlers link bcrypt parse configs) { acl_handler = decide },
          )
          r h)
        (record {
          service = s;
          is_kept = refl;
          is_fresh = fresh;
          has_admin = one;
          is_guarded = install_auth_handlers-IsGuardedBy configs;
          decides = refl;
        })

  connected-InForce :
      (matches : Matches) (settings : AppSettings) (configs : Config)
      (reached : Result DbError Database) (r : Option AclService × Config)
      → connected link bcrypt parse matches settings configs reached ≡ ok r
      → InForce matches settings r
  unfolding connected
  connected-InForce matches settings configs (err e) r h = cc
  connected-InForce matches settings configs (ok d) r h =
      prepared-InForce matches settings configs d
        (prepare link bcrypt parse settings.default_password (new_service d)).0 r refl h

  -- A start with access control that succeeds puts it in force: the cache shows the tables, the
  -- administration has an account, and no listener is left without the handler.
  pub start_acl-InForce :
      (matches : Matches) (settings : AppSettings) (configs : Config)
      (reached : Result DbError Database) (r : Option AclService × Config)
      → settings.acl.enabled ≡ true
      → start_acl link bcrypt parse matches settings configs reached ≡ ok r
      → InForce matches settings r
  unfolding start_acl
  start_acl-InForce matches settings configs reached r e h = elim (Option-cases settings.database) [
    | inl missing ↦ ground (arith, e, missing, h)
    | inr (db, found) ↦
        connected-InForce matches settings configs reached r (ground (arith, e, found, h))
  ]
