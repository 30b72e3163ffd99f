-- ===== src/Tests/Sample.antt =====
-- A server with two users, one topic and one rule, and libraries that behave as
-- documented.
use hi_mqtt.Prelude.{
  ◌≡◌, List, Option, if◌then◌else◌, ◌==◌, ℕ, true, none, some, [], ◌∷◌, ◌++◌, Text, codes, text_eq,
  text_eq_refl, arith,
}
use hi_mqtt.Db.Schema.{
  AdminUserRow, StoredUser, MqttTopicRow, AclRuleRow, Tables, no_defaults, DefaultTopicTemplate,
  DefaultAclTemplate, UserDefaultsSettings,
}
use hi_mqtt.Prelude.{refl}
use hi_mqtt.Db.Schema.{has_user, has_category}
use hi_mqtt.Db.Constraints.{IsSound}
use hi_mqtt.Db.Query.{Link, Database, answered, lost}
use hi_mqtt.Db.Defaults.{Serde, IsRoundTrip}
use hi_mqtt.Acl.Cache.{AclConfig, empty_cache}
use hi_mqtt.Acl.Service.{AclService, Bcrypt, IsBcrypt}
use hi_mqtt.Admin.Server.{Env, AppState}

abbrev pub link : Link
link = record { now = λ n. n; delivery = λ n. answered }

-- Every answer is lost.
abbrev pub lossy_link : Link
lossy_link = record { now = λ n. n; delivery = λ n. lost }

abbrev pub bcrypt : Bcrypt
bcrypt = record {
  hash = λ salt password cost. some (codes "$2b$" ++ password);
  verify = λ password hashed. some (text_eq (codes "$2b$" ++ password) hashed);
}

pub bcrypt-IsBcrypt : IsBcrypt bcrypt
bcrypt-IsBcrypt = record {
  verify-hash = λ salt password cost h e. ground (arith, text_eq_refl (codes "$2b$" ++ password));
}

-- A format for no template, or for one topic without a description.
abbrev encode_topic : Text → Text → Option Text
encode_topic topic [] = some (b't' ∷ topic)
encode_topic topic (c ∷ description) = none

abbrev encode : List DefaultTopicTemplate → List DefaultAclTemplate → Option Text
encode [] [] = some (codes "{}")
encode (t ∷ []) [] = encode_topic t.topic t.description
encode (t ∷ u ∷ topics) acls = none
encode topics (a ∷ acls) = none

abbrev decode : Text → Option UserDefaultsSettings
decode [] = none
decode (c ∷ topic) =
    if c == b't'
    then some (record {
      default_topics = record { topic = topic; description = [] } ∷ [];
      default_acls = [];
    })
    else some no_defaults

abbrev pub serde : Serde
serde = record { to_value = λ d. encode d.default_topics d.default_acls; from_value = decode }

decode-encode_topic :
    (topic description v : Text)
    → encode_topic topic description ≡ some v
    → decode v
      ≡ some (record {
        default_topics = record { topic = topic; description = description } ∷ [];
        default_acls = [];
      })
decode-encode_topic topic [] v h = ground arith
decode-encode_topic topic (c ∷ description) v h = cc

decode-encode :
    (topics : List DefaultTopicTemplate) (acls : List DefaultAclTemplate) (v : Text)
    → encode topics acls ≡ some v
    → decode v ≡ some (record { default_topics = topics; default_acls = acls })
decode-encode [] [] v h = ground arith
decode-encode (t ∷ []) [] v h = decode-encode_topic t.topic t.description v h
decode-encode (t ∷ u ∷ topics) acls v h = cc
decode-encode [] (a ∷ acls) v h = cc
decode-encode (t ∷ []) (a ∷ acls) v h = cc

pub serde-IsRoundTrip : IsRoundTrip serde
serde-IsRoundTrip = record {
  reads_back = λ d v h. decode-encode d.default_topics d.default_acls v h;
}

abbrev pub env : Env
env = record { link = link; bcrypt = bcrypt; serde = serde; new_v4 = λ n. codes "t1" }

abbrev pub user : ℕ → Text → StoredUser
user id username = record {
  id = id;
  username = username;
  password_hash = codes "$2b$pw";
  enabled = true;
  category_id = none;
  last_login_at = none;
  last_login_ip = none;
  created_at = 0;
  updated_at = 0;
}

abbrev pub topic : MqttTopicRow
topic = record {
  id = 1;
  topic = codes "home/#";
  description = [];
  owner_username = some (codes "ann");
  created_at = 0;
}

abbrev pub rule : AclRuleRow
rule = record {
  id = 1;
  username = codes "ann";
  topic_pattern = codes "home/#";
  can_subscribe = true;
  can_publish = true;
  created_at = 0;
}

abbrev pub root : AdminUserRow
root = record { id = 1; username = codes "root"; password_hash = codes "$2b$pw"; created_at = 0 }

abbrev pub tables : Tables
tables = record {
  admin_users = root ∷ [];
  categories = [];
  users = user 1 (codes "ann") ∷ user 2 (codes "bob") ∷ [];
  topics = topic ∷ [];
  acls = rule ∷ [];
  settings = [];
  admin_seq = 1;
  category_seq = 0;
  user_seq = 2;
  topic_seq = 1;
  acl_seq = 1;
}

abbrev pub database : Database
database = record { tables = tables; statements = 0 }

abbrev pub service : AclService
service = record { database = database; cache = empty_cache; draws = 0 }

abbrev pub server : AppState
server = record { acl = service; sessions = []; monitor = none }

abbrev pub enforcing : AclConfig
enforcing = record { enforce_registered_topics = true; cache_refresh_secs = 10 }

pub tables-IsSound : IsSound tables
unfolding has_user has_category text_eq
tables-IsSound = record {
  admins = record { differ = (tt, tt); bound = (omega arith, tt) };
  categories = record { differ = tt; bound = tt };
  users = record {
    differ = (((λ e. omega (arith, e), refl), tt), (tt, tt));
    bound = (omega arith, (omega arith, tt));
  };
  topics = record { differ = (tt, tt); bound = (omega arith, tt) };
  acls = record { differ = (tt, tt); bound = (omega arith, tt) };
  user_categories = (refl, (refl, tt));
  topic_owners = (refl, tt);
  rule_users = (refl, tt);
}
