-- ===== src/Startup.antt =====
-- src/main.rs: the settings with their defaults, the handlers that the listeners of the broker get,
-- and the start of the access control. The configuration's text is parsed by a library, so a table
-- of it stands here as its fields, each there or not.
pub mod Guard
pub mod Logins
pub mod Main
pub mod Settings
pub mod Tables
use hi_mqtt.Prelude.{
  ℕ, Bool, true, false, Option, none, some, List, [], ◌∷◌, ◌++◌, map, Text, codes, if◌then◌else◌,
}
use hi_mqtt.Prelude.Exec.{Result, ok, err, map_err, ◌>>=◌, ◌>>◌}
use hi_mqtt.Db.Query.{DbError, Database, Link}
use hi_mqtt.Acl.Matcher.{Matches}
use hi_mqtt.Acl.Cache.{AclOperation, AclConfig, empty_cache, check_acl}
use hi_mqtt.Acl.Service.{
  AclService, Acting, Bcrypt, reload, verify_mqtt_password, record_last_login, ensure_seed_data,
}

pub record DatabaseSettings : Type 0 where
  pub url : Text
  pub max_connections : ℕ

pub record AclSettings : Type 0 where
  pub enabled : Bool
  pub enforce_registered_topics : Bool
  pub cache_refresh_secs : ℕ

-- The table `[acl]`.
pub record AclTable : Type 0 where
  pub enabled : Option Bool
  pub enforce_registered_topics : Option Bool
  pub cache_refresh_secs : Option ℕ

abbrev pub or_else_default {ℓ} : {A : Type ℓ} → A → Option A → A
or_else_default d none = d
or_else_default d (some a) = a

abbrev pub default_cache_refresh : ℕ
default_cache_refresh = 10

-- Without the table the derived `Default` stands in, not the defaults of the fields.
unfoldable pub acl_settings : Option AclTable → AclSettings
acl_settings none = record {
  enabled = false;
  enforce_registered_topics = false;
  cache_refresh_secs = 0;
}
acl_settings (some table) = record {
  enabled = or_else_default true table.enabled;
  enforce_registered_topics = or_else_default true table.enforce_registered_topics;
  cache_refresh_secs = or_else_default default_cache_refresh table.cache_refresh_secs;
}

unfoldable pub from_settings : AclSettings → AclConfig
from_settings settings = record {
  enforce_registered_topics = settings.enforce_registered_topics;
  cache_refresh_secs = settings.cache_refresh_secs;
}

-- What the start reads of `AppSettings`.
pub record AppSettings : Type 0 where
  pub database : Option DatabaseSettings
  pub acl : AclSettings
  pub default_password : Text
  pub max_messages : ℕ

-- The answer to a client's user name, password and peer address.
abbrev pub AuthHandler : Type 0
AuthHandler = Text → Text → Text → AclService → Bool × AclService

-- A listener of the broker: what `validate_paths` says of its TLS settings, if it has any, and its
-- handler.
pub record Server : Type 0 where
  pub tls : Option Bool
  pub auth_handler : Option AuthHandler

abbrev pub Servers : Type 0
Servers = Option (List (Text × Server))

-- `rumqttd::Config`, as far as this code looks into it.
pub record Config : Type 0 where
  pub v4 : Servers
  pub v5 : Servers
  pub ws : Servers
  pub acl_handler : Option (AclService → Text → Text → AclOperation → Bool)

-- `if !tls_config.validate_paths() { panic!(…) }`, for the servers of one table.
unfoldable pub validate_servers : Text → List (Text × Server) → Result Text (Unit {0})
validate_servers kind [] = ok tt
validate_servers kind ((name, server) ∷ servers) =
    let rest = validate_servers kind servers in
    elim server.tls [ none ↦ rest | some valid ↦ if valid then rest else err (kind ++ name) ]

abbrev pub validate_table : Text → Servers → Result Text (Unit {0})
validate_table kind none = ok tt
validate_table kind (some servers) = validate_servers kind servers

abbrev pub and_then : Result Text (Unit {0}) → Result Text (Unit {0}) → Result Text (Unit {0})
and_then (ok _) r = r
and_then (err name) r = err name

-- An error is a panic at the start.
unfoldable pub validate_config : Config → Result Text (Unit {0})
unfolding validate_servers
validate_config configs =
    and_then (validate_table (codes "v4.") configs.v4)
      (and_then (validate_table (codes "v5.") configs.v5) (validate_table (codes "ws.") configs.ws))

-- `peer.parse::<SocketAddr>()` gives the text of the address's IP where it parses.
unfoldable pub peer_ip_only : (Text → Option Text) → Text → Text
peer_ip_only parse peer = or_else_default peer (parse peer)

-- Why a start fails.
pub data StartError : Type 0 where
  no_database : StartError
  failed : DbError → StartError

-- `AclService::new`
abbrev pub new_service : Database → AclService
new_service d = record { database = d; cache = empty_cache; draws = 0 }

module _ (link : Link) (bcrypt : Bcrypt) (parse : Text → Option Text) where
  -- The closure that `install_auth_handlers` sets.
  unfoldable pub authenticate : AuthHandler
  unfolding verify_mqtt_password record_last_login peer_ip_only
  authenticate username password peer s =
      let checked = verify_mqtt_password link bcrypt username password s in
      if checked.0
      then (true, (record_last_login link username (peer_ip_only parse peer) checked.1).1)
      else (false, checked.1)

  set_auth_handler : Text × Server → Text × Server
  unfolding authenticate
  set_auth_handler (name, server) = (name, record server { auth_handler = some authenticate })

  set_auth_handlers : Servers → Servers
  unfolding set_auth_handler
  set_auth_handlers none = none
  set_auth_handlers (some servers) = some (map set_auth_handler servers)

  unfoldable pub install_auth_handlers : Config → Config
  unfolding set_auth_handlers
  install_auth_handlers configs = record configs {
    v4 = set_auth_handlers configs.v4;
    v5 = set_auth_handlers configs.v5;
    ws = set_auth_handlers configs.ws;
  }

  -- `acl.init()` and `acl.ensure_seed_data(…)`
  unfoldable pub prepare : Text → Acting (Unit {0})
  unfolding reload ensure_seed_data
  prepare default_password = do reload link; ensure_seed_data link bcrypt default_password

  prepared :
      Matches
      → AppSettings
      → Config
      → Result DbError (Unit {0}) × AclService
      → Result StartError (Option AclService × Config)
  unfolding install_auth_handlers check_acl from_settings
  prepared matches settings configs (err e, s) = err (failed e)
  prepared matches settings configs (ok _, s) = ok (
    some s,
    record (install_auth_handlers configs) {
      acl_handler = some (λ s. check_acl matches (from_settings settings.acl) s.cache);
    },
  )

  connected :
      Matches
      → AppSettings
      → Config
      → Result DbError Database
      → Result StartError (Option AclService × Config)
  unfolding prepared prepare
  connected matches settings configs (err e) = err (failed e)
  connected matches settings configs (ok d) =
      prepared matches settings configs (prepare settings.default_password (new_service d))

  -- The start of the access control in `main`, at what connecting and migrating gave.
  unfoldable pub start_acl :
      Matches
      → AppSettings
      → Config
      → Result DbError Database
      → Result StartError (Option AclService × Config)
  unfolding connected
  start_acl matches settings configs reached =
      if settings.acl.enabled
      then elim settings.database [
        | none ↦ err no_database
        | some _ ↦ connected matches settings configs reached
      ]
      else ok (none, configs)
