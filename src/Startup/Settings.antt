-- ===== src/Startup/Settings.antt =====
-- `AppSettings` of src/main.rs with the defaults of its fields, also those of src/monitor/mod.rs and
-- src/admin/mod.rs, from the tables of the configuration, each there or not.
use hi_mqtt.Prelude.{ℕ, Option, none, some, Text, codes}
use hi_mqtt.Startup.{DatabaseSettings, AclTable, AppSettings, acl_settings, or_else_default}

pub record DatabaseTable : Type 0 where
  pub url : Text
  pub max_connections : Option ℕ

abbrev pub default_db_max_connections : ℕ
default_db_max_connections = 5

abbrev pub database_settings : Option DatabaseTable → Option DatabaseSettings
database_settings none = none
database_settings (some table) = some (record {
  url = table.url;
  max_connections = or_else_default default_db_max_connections table.max_connections;
})

pub record MonitorTable : Type 0 where
  pub listen : Option Text
  pub max_messages : Option ℕ

pub record MonitorConfig : Type 0 where
  pub listen : Text
  pub max_messages : ℕ

abbrev pub default_max_messages : ℕ
default_max_messages = 500

-- `Default` and the defaults of the fields say the same.
unfoldable pub monitor_config : Option MonitorTable → MonitorConfig
monitor_config none = record {
  listen = codes "127.0.0.1:8090";
  max_messages = default_max_messages;
}
monitor_config (some table) = record {
  listen = or_else_default (codes "127.0.0.1:8090") table.listen;
  max_messages = or_else_default default_max_messages table.max_messages;
}

pub record AdminTable : Type 0 where
  pub listen : Option Text
  pub default_password : Option Text
  pub static_dir : Option Text

pub record AdminConfig : Type 0 where
  pub listen : Text
  pub default_password : Text
  pub static_dir : Text

unfoldable pub admin_config : Option AdminTable → AdminConfig
admin_config none = record {
  listen = codes "127.0.0.1:8091";
  default_password = codes "admin123";
  static_dir = codes "admin-web/dist";
}
admin_config (some table) = record {
  listen = or_else_default (codes "127.0.0.1:8091") table.listen;
  default_password = or_else_default (codes "admin123") table.default_password;
  static_dir = or_else_default (codes "admin-web/dist") table.static_dir;
}

-- The tables of the configuration that the program's own settings come from.
pub record AppTables : Type 0 where
  pub monitor : Option MonitorTable
  pub database : Option DatabaseTable
  pub acl : Option AclTable
  pub admin : Option AdminTable

unfoldable pub app_settings : AppTables → AppSettings
unfolding acl_settings monitor_config admin_config
app_settings tables = record {
  database = database_settings tables.database;
  acl = acl_settings tables.acl;
  default_password = (admin_config tables.admin).default_password;
  max_messages = (monitor_config tables.monitor).max_messages;
}
