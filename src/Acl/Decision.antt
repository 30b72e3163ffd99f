-- ===== src/Acl/Decision.antt =====
-- What `check_acl` of src/acl/mod.rs decides, stated on the rows that the cache was built from.
use hi_mqtt.Prelude.{
  ℕ, ◌≡◌, Bool, not, ◌&&◌, ◌||◌, List, [], ◌∷◌, Text, any, is_empty, text_eq, Map, lookup,
  or_default, push_entry, lookup-push_entry, any-map, any-append, arith,
}
use hi_mqtt.Db.Schema.{MqttUserRow, MqttTopicRow, AclRuleRow}
use hi_mqtt.Acl.Matcher.{Matches}
use hi_mqtt.Acl.Cache.{
  AclOperation, AclConfig, index_rules, build_cache, allowed_topic, rule_allows, any_rule,
  check_acl,
}

module _ (matches : Matches) (op : AclOperation) (target : Text) where
  -- The rule is one of this user, and it allows the operation.
  abbrev pub grants : Text → AclRuleRow → Bool
  grants username rule = text_eq rule.username username && rule_allows matches op target rule

  any_rule-push_entry :
      (username : Text) (rule : AclRuleRow) (m : Map (List AclRuleRow))
      → any_rule matches op target (lookup username (push_entry rule.username rule m))
        ≡ (any_rule matches op target (lookup username m) || grants username rule)
  any_rule-push_entry username rule m = ground (
    arith,
    lookup-push_entry rule.username username rule m,
    any-append (rule_allows matches op target) (or_default (lookup username m)) (rule ∷ []),
  )

  any_rule-index_rules :
      (username : Text) (m : Map (List AclRuleRow)) (rules : List AclRuleRow)
      → any_rule matches op target (lookup username (index_rules m rules))
        ≡ (any_rule matches op target (lookup username m) || any (grants username) rules)
  unfolding index_rules
  any_rule-index_rules username m [] = ground arith
  any_rule-index_rules username m (rule ∷ rules) = ground (
    arith,
    any_rule-push_entry username rule m,
    any_rule-index_rules username (push_entry rule.username rule m) rules,
  )

  -- The independent description of the decision.
  abbrev pub is_allowed : AclConfig → List MqttTopicRow → List AclRuleRow → Text → Bool
  is_allowed config topics rules username =
      not (is_empty username)
      && ((not config.enforce_registered_topics
            || any (λ t. allowed_topic op target t.topic) topics)
          && any (grants username) rules)

  -- From a cache that was built from these rows, the decision is yes exactly if the user has a name,
  -- some registered topic covers the target or registration is not enforced, and some rule of this
  -- user allows the operation.
  pub check_acl-build_cache :
      (config : AclConfig) (users : List MqttUserRow) (topics : List MqttTopicRow)
      (rules : List AclRuleRow) (now : ℕ) (username : Text)
      → check_acl matches config (build_cache users topics rules now) username target op
        ≡ is_allowed config topics rules username
  unfolding check_acl build_cache lookup
  check_acl-build_cache config users topics rules now username = ground (
    arith,
    any-map (allowed_topic op target) (λ (t : MqttTopicRow). t.topic) topics,
    any_rule-index_rules username [] rules,
  )
