-- ===== src/Acl/Cache.antt =====
-- The cache of src/acl/mod.rs and the decision that is taken from it.
use hi_mqtt.Prelude.{
  ℕ, Bool, false, not, ◌&&◌, ◌||◌, Option, none, some, List, [], ◌∷◌, map, Text, any, is_empty, Map,
  lookup, insert, push_entry, if◌then◌else◌,
}
use hi_mqtt.Db.Schema.{MqttUserRow, MqttTopicRow, AclRuleRow}
use hi_mqtt.Acl.Matcher.{Matches, subscribe_allowed, publish_allowed, registered_covers}

-- `rumqttd::AclOperation`
pub data AclOperation : Type 0 where
  subscribe publish : AclOperation

pub record AclConfig : Type 0 where
  pub enforce_registered_topics : Bool
  pub cache_refresh_secs : ℕ

pub record AclCache : Type 0 where
  pub mqtt_users : Map MqttUserRow
  pub registered_topics : List Text
  pub rules_by_user : Map (List AclRuleRow)
  pub loaded_at : Option ℕ

-- `AclCache::default()`
abbrev pub empty_cache : AclCache
empty_cache = record {
  mqtt_users = [];
  registered_topics = [];
  rules_by_user = [];
  loaded_at = none;
}

-- The loops of `reload`, which go through the rows in order.
unfoldable pub index_users : Map MqttUserRow → List MqttUserRow → Map MqttUserRow
index_users m [] = m
index_users m (user ∷ users) = index_users (insert user.username user m) users

unfoldable pub index_rules : Map (List AclRuleRow) → List AclRuleRow → Map (List AclRuleRow)
index_rules m [] = m
index_rules m (rule ∷ rules) = index_rules (push_entry rule.username rule m) rules

unfoldable pub build_cache : List MqttUserRow → List MqttTopicRow → List AclRuleRow → ℕ → AclCache
unfolding index_users index_rules
build_cache users topics rules now = record {
  mqtt_users = index_users [] users;
  registered_topics = map (λ (t : MqttTopicRow). t.topic) topics;
  rules_by_user = index_rules [] rules;
  loaded_at = some now;
}

-- The closure over the registered topics.
unfoldable pub allowed_topic : AclOperation → Text → Text → Bool
allowed_topic subscribe target registered =
    registered_covers registered target || subscribe_allowed registered target
allowed_topic publish target registered = registered_covers registered target

-- The closure over the rules of the user.
unfoldable pub rule_allows : Matches → AclOperation → Text → AclRuleRow → Bool
rule_allows matches subscribe target rule =
    rule.can_subscribe && subscribe_allowed rule.topic_pattern target
rule_allows matches publish target rule =
    rule.can_publish && publish_allowed matches rule.topic_pattern target

abbrev pub any_rule : Matches → AclOperation → Text → Option (List AclRuleRow) → Bool
any_rule matches op target none = false
any_rule matches op target (some rules) = any (rule_allows matches op target) rules

unfoldable pub check_acl : Matches → AclConfig → AclCache → Text → Text → AclOperation → Bool
unfolding allowed_topic rule_allows
check_acl matches config cache username topic_or_filter op =
    if is_empty username
    then false
    else if config.enforce_registered_topics
        && not (any (allowed_topic op topic_or_filter) cache.registered_topics)
    then false
    else any_rule matches op topic_or_filter (lookup username cache.rules_by_user)
