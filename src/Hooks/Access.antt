-- ===== src/Hooks/Access.antt =====
-- What the hooks in crates/rumqttd and the access control of src/acl give together: who may publish
-- and subscribe, and what a subscriber can see.
use hi_mqtt.Prelude.{
  ◌≡◌, Bool, true, false, refl, none, ◌⊎◌, ◌&&◌, ◌||◌, Option, some, List, [], ◌∷◌, Text, any,
  text_eq, arith, Bool-cases, inl, inr, All,
}
use hi_mqtt.Prelude.Exec.{Result, ok, err}
use hi_mqtt.Db.Schema.{AclRuleRow, Tables}
use hi_mqtt.Acl.Matcher.{Matches, subscribe_allowed, publish_allowed}
use hi_mqtt.Acl.Levels.{IsTopicMatch}
use hi_mqtt.Acl.Coverage.{IsFilter, subscribe_allowed-publish_allowed}
use hi_mqtt.Acl.Cache as Cache
use hi_mqtt.Acl.Cache.{AclOperation, subscribe, publish, AclConfig, rule_allows, allowed_topic}
use hi_mqtt.Acl.Decision.{grants, is_allowed}
use hi_mqtt.Acl.Service.{AclService}
use hi_mqtt.Acl.Service.Reload.{IsFresh}
use hi_mqtt.Acl.Service.Rows
use hi_mqtt.Hooks.{
  Connection, AclHandler, RouterError, name_of, check_acl, validate_subscription, Publish, Datalog,
  append_to_commitlog, at_topic, after_check, after_prepare,
}

-- The handler that the start installs, at a state of the service.
abbrev pub handler_of : Matches → AclConfig → AclService → Option AclHandler
handler_of matches config s = some (Cache.check_acl matches config s.cache)

abbrev pub is_ok : {E : Type 0} → Result E (Unit {0}) → Bool
is_ok (ok _) = true
is_ok (err e) = false

module _ (matches : Matches) (config : AclConfig) (s : AclService) (fresh : IsFresh s) where
  abbrev t : Tables
  t = s.database.tables

  -- The hook lets a connection through exactly if it is a link of the program, or the tables allow
  -- its user what it asks for; a connection without a user name is let through nothing.
  pub check_acl-IsFresh :
      (connection : Connection) (target : Text) (op : AclOperation)
      → is_ok (check_acl connection target op (handler_of matches config s)) ≡ (
          connection.bypass_acl
          || is_allowed matches op target config t.topics t.acls (name_of connection.username))
  unfolding check_acl
  check_acl-IsFresh connection target op =
      ground (
        arith,
        Rows.check_acl-IsFresh matches config s (name_of connection.username) target op fresh,
      )

module _ {matches : Matches} (match : IsTopicMatch matches) (sub_filter topic username : Text) where
  -- Some rule of the user lets it subscribe, and its pattern matches the topic.
  abbrev pub IsShown : List AclRuleRow → Type 0
  IsShown rules =
      any (λ r. text_eq r.username username && (r.can_subscribe && matches topic r.topic_pattern))
        rules
      ≡ true

  shown :
      (rules : List AclRuleRow)
      → All (λ r. IsFilter r.topic_pattern) rules
      → any (grants matches subscribe sub_filter username) rules ≡ true
      → matches topic sub_filter ≡ true
      → IsShown rules
  unfolding rule_allows publish_allowed
  shown [] w h m = h
  shown (r ∷ rules) (p, w) h m =
      elim (Bool-cases (grants matches subscribe sub_filter username r)) [
        | inl here ↦
            let covers : matches topic r.topic_pattern ≡ true = covered r p (ground arith) in
            ground (arith, covers)
        | inr later ↦ ground (arith, shown rules w)
      ]
    where
      covered :
          (r : AclRuleRow)
          → IsFilter r.topic_pattern
          → subscribe_allowed r.topic_pattern sub_filter ≡ true
          → matches topic r.topic_pattern ≡ true
      covered r p h = subscribe_allowed-publish_allowed match r.topic_pattern sub_filter topic p h m

-- A client that was let through with a subscription sees no more than the tables allow its user:
-- each topic that its filter matches is matched by the pattern of a rule that lets this user
-- subscribe, if `#` stands only as a last level in the patterns. The filters of shared
-- subscriptions are asked for, but not delivered by, as they stand, and so are not meant here.
pub validate_subscription-IsShown :
    {matches : Matches} (match : IsTopicMatch matches) (config : AclConfig) (s : AclService)
    (connection : Connection) (sub_filter topic : Text)
    → IsFresh s
    → connection.bypass_acl ≡ false
    → All (λ r. IsFilter r.topic_pattern) s.database.tables.acls
    → is_ok (validate_subscription connection sub_filter (handler_of matches config s)) ≡ true
    → matches topic sub_filter ≡ true
    → IsShown match sub_filter topic (name_of connection.username) s.database.tables.acls
unfolding validate_subscription
validate_subscription-IsShown {matches} match config s connection sub_filter topic fresh client w h
      m =
    let username = name_of connection.username in
    let allowed = check_acl-IsFresh matches config s fresh connection sub_filter subscribe in
    shown match sub_filter topic username s.database.tables.acls w (ground (arith, allowed)) m

module _ {L : Type 0} (library : Datalog L) (matches : Matches) (config : AclConfig)
    (s : AclService) (fresh : IsFresh s) (connection : Connection) (message : Publish)
    (log : L) where
  -- What a publish is to come to: it leaves the log as it is, with an error, or its topic was allowed
  -- and the library goes on with it.
  abbrev pub IsGuarded : Result RouterError (Unit {0}) × L → Type 0
  IsGuarded r =
      ((is_ok r.0 ≡ false) × (r.1 ≡ log))
      ⊎ ((p : Publish) × (topic : Text) × (library.prepare message ≡ ok p)
          × (library.from_utf8 p.topic ≡ some topic)
          × ((connection.bypass_acl
                || is_allowed matches publish topic config s.database.tables.topics
                    s.database.tables.acls (name_of connection.username))
              ≡ true)
          × (r ≡ library.append connection topic p log))

  topic-IsGuarded :
      (p : Publish) (topic : Option Text)
      → library.prepare message ≡ ok p
      → library.from_utf8 p.topic ≡ topic
      → IsGuarded (
          at_topic library topic
            (λ t.
              after_check library connection
                (check_acl connection t publish (handler_of matches config s))
                p
                t)
            log)
  unfolding check_acl
  topic-IsGuarded p none prepared read = inl (refl, refl)
  topic-IsGuarded p (some topic) prepared read =
      let decided = check_acl-IsFresh matches config s fresh connection topic publish in
      elim (Bool-cases connection.bypass_acl) [
        | inl bypass ↦
            inr (p, topic, prepared, read, ground (arith, bypass), ground (arith, bypass))
        | inr client ↦
            elim (Bool-cases (
              Cache.check_acl matches config s.cache (name_of connection.username) topic publish)) [
                | inl granted ↦ inr (
                  p,
                  topic,
                  prepared,
                  read,
                  ground (arith, decided, client, granted),
                  ground (arith, client, granted),
                )
                | inr refused ↦
                    inl (ground (arith, client, refused), ground (arith, client, refused))
              ]
      ]

  prepared-IsGuarded :
      (prepared : Result RouterError Publish)
      → library.prepare message ≡ prepared
      → IsGuarded (after_prepare library connection (handler_of matches config s) prepared log)
  prepared-IsGuarded (err e) h = inl (refl, refl)
  prepared-IsGuarded (ok p) h = topic-IsGuarded p (library.from_utf8 p.topic) h refl

  -- Where the cache shows the tables, a publish either fails and leaves the log as it is, or it
  -- passed the library's own checks, the tables allow its user the topic or it comes from a link of
  -- the program, and the library then goes on with it.
  pub append_to_commitlog-IsGuarded :
      IsGuarded (append_to_commitlog library connection (handler_of matches config s) message log)
  unfolding append_to_commitlog
  append_to_commitlog-IsGuarded = prepared-IsGuarded (library.prepare message) refl
