-- ===== src/Acl/Service/Rows.antt =====
-- The decision of src/acl/mod.rs from a cache that shows the tables, stated on the tables.
use hi_mqtt.Prelude.{
  ℕ, ◌≡◌, ap, ◌∙◌, true, false, not, Text, any, text_eq_iff, any-order_by, any-select, any-none,
  arith,
}
use hi_mqtt.Db.Schema.{AclRuleRow, MqttTopicRow, Tables}
use hi_mqtt.Db.Users.{belongs_to, remove_user}
use hi_mqtt.Acl.Matcher.{Matches}
use hi_mqtt.Acl.Cache.{AclOperation, AclConfig, AclCache, allowed_topic, check_acl, build_cache}
use hi_mqtt.Acl.Decision.{grants, is_allowed, check_acl-build_cache}
use hi_mqtt.Acl.Service.{AclService}
use hi_mqtt.Acl.Service.Reload.{IsFresh, user_rows, topic_rows, acl_rows}

module _ (matches : Matches) (config : AclConfig) where
  pub check_acl-rows :
      (t : Tables) (now : ℕ) (username target : Text) (op : AclOperation)
      → check_acl matches config
          (build_cache (user_rows t) (topic_rows t) (acl_rows t) now)
          username
          target
          op
        ≡ is_allowed matches op target config t.topics t.acls username
  check_acl-rows t now username target op =
      check_acl-build_cache matches op target config (user_rows t) (topic_rows t) (acl_rows t) now
        username
      ∙ ground (
        arith,
        any-order_by (λ (r : AclRuleRow). r.id) (grants matches op target username) t.acls,
        any-order_by (λ (r : MqttTopicRow). r.id)
            (λ (r : MqttTopicRow). allowed_topic op target r.topic) t.topics,
      )

  pub check_acl-IsFresh :
      (s : AclService) (username target : Text) (op : AclOperation)
      → IsFresh s
      → check_acl matches config s.cache username target op
        ≡ is_allowed matches op target config s.database.tables.topics s.database.tables.acls
            username
  check_acl-IsFresh s username target op fresh =
      ap (λ (c : AclCache). check_acl matches config c username target op) fresh.cached
      ∙ check_acl-rows s.database.tables fresh.instant username target op

-- No rule in the tables grants this user anything.
abbrev pub HasNoGrants : Tables → Text → Type 0
HasNoGrants t username =
    (matches : Matches) (op : AclOperation) (target : Text)
    → any (grants matches op target username) t.acls ≡ false

pub check_acl-HasNoGrants :
    (s : AclService) (username : Text)
    → IsFresh s
    → HasNoGrants s.database.tables username
    → (matches : Matches) (config : AclConfig) (target : Text) (op : AclOperation)
    → check_acl matches config s.cache username target op ≡ false
check_acl-HasNoGrants s username fresh h matches config target op =
    ground (arith, h matches op target, check_acl-IsFresh matches config s username target op)

pub remove_user-HasNoGrants :
    (id now : ℕ) (t : Tables) (username : Text)
    → belongs_to id t.users username ≡ true
    → HasNoGrants (remove_user id now t).1 username
unfolding remove_user
remove_user-HasNoGrants id now t username h matches op target =
    any-select (grants matches op target username) (λ r. not (belongs_to id t.users r.username))
      t.acls
    ∙ any-none _ t.acls (λ r. ground (arith, text_eq_iff r.username username))
