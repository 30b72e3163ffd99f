-- ===== src/Tests/Launching.antt =====
-- `main` of src/main.rs on the sample server.
use hi_mqtt.Prelude.{
  ◌≡◌, refl, ap, sym, Option, true, false, not, none, some, is_some, Text, [], ◌∷◌, codes,
}
use hi_mqtt.Prelude.Exec.{ok}
use hi_mqtt.Db.Query.{run, deliver}
use hi_mqtt.Db.Users.{list_mqtt_users, select_users}
use hi_mqtt.Db.Topics.{list_mqtt_topics, select_topics}
use hi_mqtt.Db.Acls.{list_topic_acls, select_acls}
use hi_mqtt.Db.Admins.{count_admins, count_rows}
use hi_mqtt.Acl.Levels.{level_match}
use hi_mqtt.Acl.Cache.{check_acl}
use hi_mqtt.Acl.Service.{on_pool, reload, ensure_seed_data}
use hi_mqtt.Startup.{
  AclTable, AppSettings, Config, acl_settings, from_settings, install_auth_handlers, prepare,
  start_acl, validate_config, validate_servers,
}
use hi_mqtt.Startup.Main.{
  Cli, World, Running, log_level, config_path, load_config, start_monitor, launch, start, main,
}
use hi_mqtt.Startup.Main.Missing.{main-without_acl_table}
use hi_mqtt.Startup.Main.Guard.{IsAsAsked, main-IsAsAsked}
use hi_mqtt.Acl.Interleaving.{Shared, proceed, users_read, unshared}
use hi_mqtt.Acl.Service.Reload.{user_rows}
use hi_mqtt.Db.Users.{remove_user}
use hi_mqtt.Acl.Service.{AclService}
use hi_mqtt.Admin.Server.{AppState}
use hi_mqtt.Admin.Server.Laws.{tables_of}
use hi_mqtt.Program.Start.{started}
use hi_mqtt.Tests.Sample.{link, bcrypt, service, database}
use hi_mqtt.Tests.Starting.{parse, empty_table}
use hi_mqtt.Startup.Settings.{AppTables, app_settings, admin_config, monitor_config}

abbrev tables : AppTables
tables = record {
  monitor = none;
  database = some (record { url = []; max_connections = none });
  acl = some empty_table;
  admin = none;
}

abbrev settings : AppSettings
settings = app_settings tables

abbrev configs : Config
configs = record {
  v4 = some ((codes "1", record { tls = some true; auth_handler = none }) ∷ []);
  v5 = none;
  ws = none;
  acl_handler = none;
}

-- A machine without a file of settings, on which everything else is there.
abbrev machine : World (Unit {0})
machine = record {
  exists = λ path. false;
  is_utf8 = λ path. true;
  build_settings = λ source. some tt;
  build_configs = λ source. some tt;
  tables_of = λ raw. some tables;
  configs_of = λ raw. some configs;
  runtime = true;
  reached = ok database;
  meters = true;
  link = true;
  subscribe = true;
  broker_thread = true;
}

abbrev cli : Cli
cli = record {
  config = codes "config/himqtt.toml";
  verbose = 0;
  no_monitor = true;
  no_admin = false;
  generate_config = false;
}

abbrev program : Running
program = record {
  level = log_level 0;
  service = some (prepare link bcrypt parse (codes "admin123") service).1;
  configs = record (install_auth_handlers link bcrypt parse configs) {
    acl_handler = some (λ s. check_acl level_match (from_settings settings.acl) s.cache);
  };
  monitor = none;
  refreshes = true;
  serves = true;
}

main-IsAsAsked_example :
    (path : Text) × (c : Config) × (st : AppSettings) × (config_path machine cli.config ≡ ok path)
    × (load_config machine path ≡ ok (c, st))
    × (validate_config c ≡ ok tt)
    × (is_some program.monitor ≡ not cli.no_monitor)
    × IsAsAsked machine link bcrypt parse level_match cli st c program
unfolding main log_level app_settings admin_config monitor_config config_path load_config start
    start_monitor launch validate_config validate_servers start_acl acl_settings prepare reload
    ensure_seed_data on_pool run deliver list_mqtt_users list_mqtt_topics list_topic_acls
    select_users select_topics select_acls count_admins count_rows
main-IsAsAsked_example = main-IsAsAsked machine link bcrypt parse level_match cli program refl

-- The same machine with a configuration that does not name the access control.
abbrev bare_machine : World (Unit {0})
bare_machine = record machine { tables_of = λ raw. some (record tables { acl = none }) }

abbrev bare_program : Running
bare_program = record {
  level = log_level 0;
  service = none;
  configs = configs;
  monitor = none;
  refreshes = false;
  serves = false;
}

abbrev acl_of : Option AppTables → Option AclTable
acl_of none = none
acl_of (some t) = t.acl

bare_program_is_open :
    (path : Text) × (st : AppSettings) × (load_config bare_machine path
      ≡ ok (bare_program.configs, st))
    × (bare_program.service ≡ none)
    × (bare_program.refreshes ≡ false)
    × (bare_program.serves ≡ false)
unfolding main log_level app_settings admin_config monitor_config config_path load_config start
    start_monitor launch validate_config validate_servers start_acl acl_settings
bare_program_is_open =
    main-without_acl_table bare_machine link bcrypt parse level_match cli bare_program
      (λ raw t e. ap acl_of (sym e)) refl

-- The service of that program, and the state after a round of its refresh task.
abbrev begun : AclService
begun = (prepare link bcrypt parse (codes "admin123") service).1

abbrev refreshed : AppState
refreshed = record (started begun none) { acl = (reload link begun).1 }

-- A reload has read the users when another task deletes one.
abbrev users_known : Shared
users_known = proceed (unshared begun) 1 (users_read (user_rows begun.database.tables))

abbrev reading : Shared
reading = record users_known { tables = (remove_user 1 9 begun.database.tables).1 }
