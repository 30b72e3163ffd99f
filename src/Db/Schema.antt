-- ===== src/Db/Schema.antt =====
-- The rows of src/db/mod.rs and the tables of migrations/001 and 002. A time is a number, an `i32`
-- id a natural number, and a JSON value stands as its text.
use hi_mqtt.Prelude.{ℕ, Bool, Option, List, Text, [], text_eq, any, ◌==◌, true}

pub record AdminUserRow : Type 0 where
  pub id : ℕ
  pub username : Text
  pub password_hash : Text
  pub created_at : ℕ

pub record MqttUserCategoryRow : Type 0 where
  pub id : ℕ
  pub name : Text
  pub description : Text
  pub created_at : ℕ

-- The columns of the table `mqtt_users`.
pub record StoredUser : Type 0 where
  pub id : ℕ
  pub username : Text
  pub password_hash : Text
  pub enabled : Bool
  pub category_id : Option ℕ
  pub last_login_at : Option ℕ
  pub last_login_ip : Option Text
  pub created_at : ℕ
  pub updated_at : ℕ

pub record MqttUserRow : Type 0 where
  pub id : ℕ
  pub username : Text
  pub password_hash : Text
  pub enabled : Bool
  pub category_id : Option ℕ
  pub category_name : Option Text
  pub last_login_at : Option ℕ
  pub last_login_ip : Option Text
  pub created_at : ℕ
  pub updated_at : ℕ

pub record MqttTopicRow : Type 0 where
  pub id : ℕ
  pub topic : Text
  pub description : Text
  pub owner_username : Option Text
  pub created_at : ℕ

pub record AclRuleRow : Type 0 where
  pub id : ℕ
  pub username : Text
  pub topic_pattern : Text
  pub can_subscribe : Bool
  pub can_publish : Bool
  pub created_at : ℕ

pub record DefaultTopicTemplate : Type 0 where
  pub topic : Text
  pub description : Text

pub record DefaultAclTemplate : Type 0 where
  pub topic_pattern : Text
  pub can_subscribe : Bool
  pub can_publish : Bool

pub record UserDefaultsSettings : Type 0 where
  pub default_topics : List DefaultTopicTemplate
  pub default_acls : List DefaultAclTemplate

-- `UserDefaultsSettings::default()`
abbrev pub no_defaults : UserDefaultsSettings
no_defaults = record { default_topics = []; default_acls = [] }

pub record SettingRow : Type 0 where
  pub key : Text
  pub value : Text
  pub updated_at : ℕ

-- The tables, and the last id that the sequence of each SERIAL column gave.
pub record Tables : Type 0 where
  pub admin_users : List AdminUserRow
  pub categories : List MqttUserCategoryRow
  pub users : List StoredUser
  pub topics : List MqttTopicRow
  pub acls : List AclRuleRow
  pub settings : List SettingRow
  pub admin_seq : ℕ
  pub category_seq : ℕ
  pub user_seq : ℕ
  pub topic_seq : ℕ
  pub acl_seq : ℕ

-- `REFERENCES mqtt_users(username)`
unfoldable pub has_user : List StoredUser → Text → Bool
has_user users username = any (λ u. text_eq u.username username) users

-- The same for a column that may be NULL.
abbrev pub has_owner : List StoredUser → Option Text → Bool
has_owner users Option.none = true
has_owner users (Option.some username) = has_user users username

-- `REFERENCES mqtt_user_categories(id)`, for a column that may be NULL
unfoldable pub has_category : List MqttUserCategoryRow → Option ℕ → Bool
has_category categories Option.none = true
has_category categories (Option.some id) = any (λ c. c.id == id) categories
