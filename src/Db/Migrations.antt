-- ===== src/Db/Migrations.antt =====
-- migrations/001 and 002 on a server where they have not run: there is no row then but the
-- templates that the second one stores. sqlx runs a migration once.
use hi_mqtt.Prelude.{ℕ, true, [], ◌∷◌, ◌++◌, Text, codes, text_eq, any, if◌then◌else◌}
use hi_mqtt.Prelude.Exec.{ok}
use hi_mqtt.Db.Schema.{UserDefaultsSettings, SettingRow, Tables}
use hi_mqtt.Db.Query.{Statement}
use hi_mqtt.Db.Defaults.{defaults_key}
use hi_mqtt.Db.Constraints.{IsSound}

-- The tables as they are created.
unfoldable pub created_tables : Tables
created_tables = record {
  admin_users = [];
  categories = [];
  users = [];
  topics = [];
  acls = [];
  settings = [];
  admin_seq = 0;
  category_seq = 0;
  user_seq = 0;
  topic_seq = 0;
  acl_seq = 0;
}

-- What the JSON of the second migration says.
unfoldable pub first_defaults : UserDefaultsSettings
first_defaults = record {
  default_topics =
      record { topic = codes "devices/{username}/data"; description = codes "设备上行数据" }
      ∷ record { topic = codes "devices/{username}/cmd"; description = codes "设备下行指令" }
      ∷ [];
  default_acls =
      record {
        topic_pattern = codes "devices/{username}/#";
        can_subscribe = true;
        can_publish = true;
      }
      ∷ [];
}

-- `INSERT INTO system_settings … ON CONFLICT (key) DO NOTHING`, at the text of this JSON.
unfoldable pub insert_first_defaults : Text → Statement (Unit {0})
insert_first_defaults value now t =
    let row : SettingRow = record { key = defaults_key; value = value; updated_at = now } in
    if any (λ (r : SettingRow). text_eq r.key defaults_key) t.settings
    then (ok tt, t)
    else (ok tt, record t { settings = t.settings ++ row ∷ [] })

-- The tables after both migrations.
unfoldable pub migrated : Text → ℕ → Tables
unfolding created_tables insert_first_defaults
migrated value now = (insert_first_defaults value now created_tables).1

pub migrated-IsSound : (value : Text) (now : ℕ) → IsSound (migrated value now)
unfolding migrated created_tables insert_first_defaults
migrated-IsSound value now = record {
  admins = record { differ = tt; bound = tt };
  categories = record { differ = tt; bound = tt };
  users = record { differ = tt; bound = tt };
  topics = record { differ = tt; bound = tt };
  acls = record { differ = tt; bound = tt };
  user_categories = tt;
  topic_owners = tt;
  rule_users = tt;
}
