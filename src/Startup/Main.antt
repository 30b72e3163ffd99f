-- ===== src/Startup/Main.antt =====
-- `main` of src/main.rs with `load_config`: which parts of the program it starts, and where it
-- stops. The banner, the logs and the waiting for the tasks are left out.
pub mod Guard
pub mod Missing
use hi_mqtt.Prelude.{
  ℕ, zero, suc, Bool, true, false, not, ◌&&◌, Option, none, some, [], Text, codes, is_empty,
  is_some, if◌then◌else◌,
}
use hi_mqtt.Prelude.Exec.{Result, ok, err, map_err}
use hi_mqtt.Db.Query.{DbError, Database, Link}
use hi_mqtt.Acl.Matcher.{Matches}
use hi_mqtt.Acl.Service.{AclService, Bcrypt}
use hi_mqtt.Monitor.State.{MonitorState, new_monitor}
use hi_mqtt.Startup.Settings.{AppTables, app_settings}
use hi_mqtt.Startup.{AppSettings, Config, StartError, start_acl, validate_config}

pub record Cli : Type 0 where
  pub config : Text
  pub verbose : ℕ
  pub no_monitor : Bool
  pub no_admin : Bool
  pub generate_config : Bool

-- The filter for the logs.
unfoldable pub log_level : ℕ → Text
log_level zero = codes "rumqttd=warn,himqtt=warn"
log_level (suc zero) = codes "rumqttd=info,himqtt=info"
log_level (suc (suc zero)) = codes "rumqttd=debug,himqtt=debug"
log_level _ = codes "rumqttd=trace,himqtt=trace"

-- `DEFAULT_CONFIG`, which is part of the program, or a file.
pub data Source : Type 0 where
  default_config : Source
  with_name : Text → Source

-- What the libraries and the machine answer in the course of the start. The source is read twice,
-- and a file may change in between; what is built from it is `Raw`.
pub record World (Raw : Type 0) : Type 0 where
  pub exists : Text → Bool
  pub is_utf8 : Text → Bool
  pub build_settings : Source → Option Raw
  pub build_configs : Source → Option Raw
  pub tables_of : Raw → Option AppTables
  pub configs_of : Raw → Option Config
  pub runtime : Bool
  -- What `db::connect` and `db::migrate` give.
  pub reached : Result DbError Database
  pub meters : Bool
  pub link : Bool
  pub subscribe : Bool
  pub broker_thread : Bool

-- How `main` ends before it runs.
pub data Halt : Type 0 where
  config_printed : Halt
  panicked : Text → Halt
  settings_unread settings_unparsed configs_unread configs_unparsed : Halt
  no_runtime no_meters no_link no_subscription no_thread : Halt
  no_access_control : StartError → Halt

-- What runs in the end.
pub record Running : Type 0 where
  pub level : Text
  pub service : Option AclService
  -- What the broker was made from.
  pub configs : Config
  pub monitor : Option MonitorState
  -- Whether `spawn_refresh_task` and `admin::serve` run.
  pub refreshes : Bool
  pub serves : Bool

-- `?`
abbrev pub and_then : {A B : Type 0} → Result Halt A → (A → Result Halt B) → Result Halt B
and_then (ok a) f = f a
and_then (err h) f = err h

-- `.context(…)?`
abbrev pub or_halt : {A : Type 0} → Halt → Option A → Result Halt A
or_halt h none = err h
or_halt h (some a) = ok a

abbrev pub check : Halt → Bool → Result Halt (Unit {0})
check h passed = if passed then ok tt else err h

module _ {Raw : Type 0} (world : World Raw) where
  -- The path is empty where there is no such file.
  unfoldable pub config_path : Text → Result Halt Text
  config_path path =
      if world.exists path
      then (if world.is_utf8 path then ok path else err (panicked (codes "to_str")))
      else ok []

  abbrev pub source_of : Text → Source
  source_of path = if is_empty path then default_config else with_name path

  unfoldable pub load_config : Text → Result Halt (Config × AppSettings)
  unfolding app_settings
  load_config path =
      and_then (or_halt settings_unread (world.build_settings (source_of path))) (λ tree.
        and_then (or_halt settings_unparsed (world.tables_of tree)) (λ tables.
          and_then (or_halt configs_unread (world.build_configs (source_of path))) (λ broker.
            and_then (or_halt configs_unparsed (world.configs_of broker))
              (λ configs. ok (configs, app_settings tables)))))

  -- The monitor has its link, and the link its subscription, before the collector starts.
  unfoldable pub start_monitor : Cli → AppSettings → Result Halt (Option MonitorState)
  unfolding new_monitor
  start_monitor cli settings =
      if cli.no_monitor
      then ok none
      else and_then (check no_meters world.meters) (λ _. and_then (check no_link world.link) (λ _.
        and_then (check no_subscription world.subscribe)
          (λ _. ok (some (new_monitor settings.max_messages)))))

  -- `main` from where the access control is there.
  unfoldable pub launch : Cli → AppSettings → Option AclService × Config → Result Halt Running
  unfolding log_level start_monitor
  launch cli settings (service, configs) = and_then (start_monitor cli settings) (λ monitor.
      and_then (check no_thread world.broker_thread) (λ _. ok (record {
        level = log_level cli.verbose;
        service = service;
        configs = configs;
        monitor = monitor;
        refreshes = is_some service;
        serves = not cli.no_admin && is_some service;
      })))

  module _ (link : Link) (bcrypt : Bcrypt) (parse : Text → Option Text) (matches : Matches) where
    -- `main` from where the configuration is loaded.
    unfoldable pub start : Cli → Config × AppSettings → Result Halt Running
    unfolding validate_config start_acl launch
    start cli (configs, settings) = and_then (map_err panicked (validate_config configs)) (λ _.
        and_then (check no_runtime world.runtime) (λ _.
          and_then
            (map_err no_access_control
              (start_acl link bcrypt parse matches settings configs world.reached))
            (λ guarded. launch cli settings guarded)))

    unfoldable pub main : Cli → Result Halt Running
    unfolding config_path load_config start
    main cli =
        if cli.generate_config
        then err config_printed
        else and_then (config_path cli.config) (λ path. and_then (load_config path) (start cli))
