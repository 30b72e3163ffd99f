-- ===== src/Tests/Installing.antt =====
-- The first user of a new installation.
use hi_mqtt.Prelude.{
  ◌≡◌, refl, true, none, some, [], ◌∷◌, codes, text_eq, find, update_where, replace, starts_with,
  strip_suffix, All, split_on,
}
use hi_mqtt.Prelude.Exec.{ok}
use hi_mqtt.Acl.Matcher.{publish_allowed, registered_covers}
use hi_mqtt.Db.Schema.{
  AdminUserRow, DefaultAclTemplate, DefaultTopicTemplate, MqttUserRow, has_user, has_category,
}
use hi_mqtt.Db.Query.{run, deliver}
use hi_mqtt.Db.Users as Store
use hi_mqtt.Db.Users.{insert_user, join_category, new_user, select_users}
use hi_mqtt.Db.Topics.{select_topics, list_mqtt_topics}
use hi_mqtt.Db.Acls.{select_acls, list_topic_acls}
use hi_mqtt.Db.Defaults.{
  apply_user_defaults, apply_topics, apply_acls, upsert_topic, upsert_acl, get_user_defaults,
  select_defaults, render_template,
}
use hi_mqtt.Db.Migrations.{created_tables, first_defaults, insert_first_defaults, migrated}
use hi_mqtt.Acl.Levels.{level_match, fits}
use hi_mqtt.Acl.Cache.{publish, empty_cache, check_acl, rule_allows, allowed_topic}
use hi_mqtt.Acl.Service.{reload, on_pool}
use hi_mqtt.Admin.Server.{AppState, Env, created, query, on_acl, refresh}
use hi_mqtt.Admin.Users.{CreateMqttUserRequest, create_mqtt_user, hash_password, give_defaults}
use hi_mqtt.Admin.Provisioning.Effect.{create_mqtt_user-provisions}
use hi_mqtt.Admin.Provisioning.First.{first_user_may}
use hi_mqtt.Tests.Sample.{env, enforcing}

abbrev reading : Env
reading = record env {
  serde = record { to_value = λ d. none; from_value = λ value. some first_defaults };
}

-- The account that the start sees to.
abbrev root : AdminUserRow
root = record { id = 1; username = codes "root"; password_hash = codes "$2b$pw"; created_at = 0 }

abbrev installed : AppState
installed = record {
  acl = record {
    database = record {
      tables = record (migrated [] 0) { admin_users = root ∷ [] };
      statements = 0;
    };
    cache = empty_cache;
    draws = 0;
  };
  sessions = [];
  monitor = none;
}

abbrev eve : CreateMqttUserRequest
eve = record {
  username = codes "eve";
  password = codes "s3";
  enabled = true;
  category_id = none;
  apply_defaults = true;
}

abbrev eve_stored : MqttUserRow
eve_stored = join_category [] (new_user 1 (codes "eve") (codes "$2b$s3") true none 0)

eve_is_created : (create_mqtt_user reading eve installed).0 ≡ ok (created, eve_stored)
unfolding create_mqtt_user Store.create_mqtt_user hash_password give_defaults query on_acl on_pool
    run deliver insert_user refresh reload Store.list_mqtt_users list_mqtt_topics list_topic_acls
    select_users select_topics select_acls text_eq has_category has_user get_user_defaults
    select_defaults apply_user_defaults apply_topics apply_acls upsert_topic upsert_acl find
    update_where migrated created_tables insert_first_defaults first_defaults render_template
    replace starts_with join_category
eve_is_created = refl

eve_may :
    All
      (λ (t : DefaultTopicTemplate).
        check_acl level_match enforcing
          (create_mqtt_user reading eve installed).1.acl.cache
          (codes "eve")
          (render_template t.topic (codes "eve"))
          publish
        ≡ true)
      first_defaults.default_topics
unfolding first_defaults render_template replace starts_with split_on fits level_match text_eq
eve_may =
    first_user_may reading eve installed eve_stored level_match enforcing publish [] 0 refl refl
      eve_is_created refl refl (refl, (refl, tt))

abbrev own_devices : DefaultAclTemplate
own_devices = record {
  topic_pattern = codes "devices/{username}/#";
  can_subscribe = true;
  can_publish = true;
}

eve_is_provided :
    check_acl level_match enforcing
      (create_mqtt_user reading eve installed).1.acl.cache
      (codes "eve")
      (codes "devices/eve/cmd")
      publish
    ≡ true
unfolding migrated created_tables insert_first_defaults first_defaults render_template replace
    starts_with split_on fits level_match text_eq find rule_allows publish_allowed allowed_topic
    registered_covers strip_suffix
eve_is_provided =
    create_mqtt_user-provisions reading eve installed eve_stored level_match enforcing
      (codes "devices/eve/cmd") publish first_defaults (codes "devices/eve/#") own_devices
      eve_is_created refl refl refl refl refl refl
