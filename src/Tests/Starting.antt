-- ===== src/Tests/Starting.antt =====
-- The start of src/main.rs on the sample server.
use hi_mqtt.Prelude.{◌≡◌, refl, true, false, none, some, Option, Text, [], ◌∷◌, codes}
use hi_mqtt.Prelude.Exec.{ok}
use hi_mqtt.Db.Query.{run, deliver}
use hi_mqtt.Db.Users.{list_mqtt_users, select_users}
use hi_mqtt.Db.Topics.{list_mqtt_topics, select_topics}
use hi_mqtt.Db.Acls.{list_topic_acls, select_acls}
use hi_mqtt.Db.Admins.{count_admins, count_rows}
use hi_mqtt.Acl.Levels.{level_match}
use hi_mqtt.Acl.Cache.{check_acl}
use hi_mqtt.Acl.Service.{AclService, on_pool, reload, ensure_seed_data}
use hi_mqtt.Startup.{
  AppSettings, AclTable, Config, acl_settings, from_settings, install_auth_handlers, prepare,
  start_acl,
}
use hi_mqtt.Hooks.Login.{LetsIn, start_acl-LetsIn}
use hi_mqtt.Prelude.{All}
use hi_mqtt.Startup.Guard.{listed}
use hi_mqtt.Tests.Sample.{link, bcrypt, service, database}

abbrev pub parse : Text → Option Text
parse peer = none

abbrev pub empty_table : AclTable
empty_table = record { enabled = none; enforce_registered_topics = none; cache_refresh_secs = none }

missing_table_disables : (acl_settings none).enabled ≡ false
unfolding acl_settings
missing_table_disables = refl

empty_table_enables : (acl_settings (some empty_table)).enabled ≡ true
unfolding acl_settings
empty_table_enables = refl

abbrev pub settings : AppSettings
settings = record {
  database = some (record { url = []; max_connections = 5 });
  acl = acl_settings (some empty_table);
  default_password = codes "pw";
  max_messages = 100;
}

abbrev listeners : Config
listeners = record {
  v4 = some ((codes "1", record { tls = none; auth_handler = none }) ∷ []);
  v5 = none;
  ws = some ((codes "2", record { tls = some false; auth_handler = none }) ∷ []);
  acl_handler = none;
}

abbrev running : Option AclService × Config
running = (
  some (prepare link bcrypt parse (codes "pw") service).1,
  record (install_auth_handlers link bcrypt parse listeners) {
    acl_handler = some (λ s. check_acl level_match (from_settings settings.acl) s.cache);
  },
)

listeners_ask_the_service :
    All (LetsIn link bcrypt parse) (listed running.1.v4)
    × All (LetsIn link bcrypt parse) (listed running.1.v5)
    × All (LetsIn link bcrypt parse) (listed running.1.ws)
unfolding start_acl acl_settings prepare reload ensure_seed_data on_pool run deliver list_mqtt_users
    list_mqtt_topics list_topic_acls select_users select_topics select_acls count_admins count_rows
listeners_ask_the_service =
    start_acl-LetsIn link bcrypt parse level_match settings listeners (ok database) running refl
      refl
