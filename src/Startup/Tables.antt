-- ===== src/Startup/Tables.antt =====
-- What the statements keep, the start in src/main.rs keeps.
use mathlib.Core.Path.{subst}
use hi_mqtt.Prelude.{◌≡◌, ap, true, Option, none, some, Text, arith, Option-cases, inl, inr}
use hi_mqtt.Prelude.Exec.{Result, ok, err, bind-keeps}
use hi_mqtt.Db.Schema.{Tables}
use hi_mqtt.Db.Query.{DbError, Database, Link}
use hi_mqtt.Db.Invariants.{IsInvariant}
use hi_mqtt.Acl.Matcher.{Matches}
use hi_mqtt.Acl.Service.{AclService, Bcrypt, reload, ensure_seed_data}
use hi_mqtt.Acl.Service.Reload.{tables-reload}
use hi_mqtt.Acl.Service.Seed.{ensure_seed_data-Keeps}
use hi_mqtt.Startup.{
  AppSettings, Config, StartError, prepare, prepared, connected, new_service, start_acl,
}

-- A value that stands for the service where there is none.
abbrev service_or : AclService → Result StartError (Option AclService × Config) → AclService
service_or s (err e) = s
service_or s (ok (none, configs)) = s
service_or s (ok (some t, configs)) = t

module _ {P : Tables → Type 0} (inv : IsInvariant P) (link : Link) (bcrypt : Bcrypt)
    (parse : Text → Option Text) where
  prepare-Keeps :
      (password : Text) (s : AclService)
      → P s.database.tables
      → P (prepare link bcrypt parse password s).1.database.tables
  unfolding prepare
  prepare-Keeps password s h =
      let loaded : P (reload link s).1.database.tables = rw (tables-reload link s) h in
      bind-keeps (λ (x : AclService). P x.database.tables) (reload link)
        (λ _. ensure_seed_data link bcrypt password) s loaded
        (λ _. (ensure_seed_data-Keeps link bcrypt inv password).at (reload link s).1 loaded)

  prepared-Keeps :
      (matches : Matches) (settings : AppSettings) (configs : Config)
      (outcome : Result DbError (Unit {0}) × AclService) (s : AclService) (c : Config)
      → prepared link bcrypt parse matches settings configs outcome ≡ ok (some s, c)
      → P outcome.1.database.tables
      → P s.database.tables
  unfolding prepared
  prepared-Keeps matches settings configs (err e, s') s c h k = cc
  prepared-Keeps matches settings configs (ok _, s') s c h k =
      subst (λ (x : AclService). P x.database.tables) (ap (service_or s') h) k

  pub start_acl-Keeps :
      (matches : Matches) (settings : AppSettings) (configs : Config) (d : Database)
      (s : AclService) (c : Config)
      → settings.acl.enabled ≡ true
      → start_acl link bcrypt parse matches settings configs (ok d) ≡ ok (some s, c)
      → P d.tables
      → P s.database.tables
  unfolding start_acl connected
  start_acl-Keeps matches settings configs d s c e h k = elim (Option-cases settings.database) [
    | inl missing ↦ ground (arith, e, missing, h)
    | inr (db, found) ↦
        prepared-Keeps matches settings configs
          (prepare link bcrypt parse settings.default_password (new_service d)) s c
          (ground (arith, e, found, h)) (prepare-Keeps settings.default_password (new_service d) k)
  ]
