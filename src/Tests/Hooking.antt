-- ===== src/Tests/Hooking.antt =====
-- The hooks in crates/rumqttd on a client of the sample server.
use hi_mqtt.Prelude.{
  ◌≡◌, refl, true, false, ◌||◌, inr, some, List, [], ◌∷◌, Text, Bool, codes, text_eq, starts_with,
  order_by, lookup, push_entry, trim_end_matches, strip_suffix, split_on,
}
use hi_mqtt.Prelude.Exec.{ok}
use hi_mqtt.Db.Query.{run, deliver}
use hi_mqtt.Db.Users.{list_mqtt_users, select_users}
use hi_mqtt.Db.Topics.{list_mqtt_topics, select_topics}
use hi_mqtt.Db.Acls.{list_topic_acls, select_acls}
use hi_mqtt.Acl.Matcher.{registered_covers, subscribe_allowed}
use hi_mqtt.Acl.Levels.{fits, level_match, level_match-IsTopicMatch}
use hi_mqtt.Acl.Cache.{publish, build_cache}
use hi_mqtt.Acl.Cache as Cache
use hi_mqtt.Acl.Decision.{is_allowed}
use hi_mqtt.Acl.Service.{AclService, reload, on_pool}
use hi_mqtt.Acl.Service.Reload.{IsFresh, reload-IsFresh}
use hi_mqtt.Hooks.{
  Connection, AclHandler, check_acl, validate_subscription, Publish, Datalog, append_to_commitlog,
  append_will_message,
}
use hi_mqtt.Hooks.Access.{
  handler_of, is_ok, check_acl-IsFresh, IsShown, validate_subscription-IsShown,
  append_to_commitlog-IsGuarded, IsGuarded,
}
use hi_mqtt.Tests.Sample.{link, service, enforcing}

abbrev loaded : AclService
loaded = (reload link service).1

loaded-IsFresh : IsFresh loaded
unfolding reload on_pool run deliver list_mqtt_users list_mqtt_topics list_topic_acls select_users
    select_topics select_acls
loaded-IsFresh = reload-IsFresh link service refl

abbrev connection : Text → Bool → Connection
connection username bypass_acl = record {
  client_id = username;
  clean = true;
  username = some username;
  bypass_acl = bypass_acl;
  subscriptions = codes "home/#" ∷ [];
}

ann_is_let_through :
    is_ok (
      check_acl
        (connection (codes "ann") false)
        (codes "home/x")
        publish
        (handler_of level_match enforcing loaded))
    ≡ (false
        || is_allowed level_match publish
            (codes "home/x")
            enforcing
            loaded.database.tables.topics
            loaded.database.tables.acls
            (codes "ann"))
ann_is_let_through =
    check_acl-IsFresh level_match enforcing loaded loaded-IsFresh (connection (codes "ann") false)
      (codes "home/x") publish

room_is_shown :
    IsShown level_match-IsTopicMatch
      (codes "home/+/b")
      (codes "home/a/b")
      (codes "ann")
      loaded.database.tables.acls
unfolding reload on_pool run deliver list_mqtt_users list_mqtt_topics list_topic_acls select_users
    select_topics select_acls validate_subscription check_acl Cache.check_acl level_match fits
    split_on starts_with text_eq build_cache order_by registered_covers strip_suffix
    trim_end_matches lookup push_entry subscribe_allowed
room_is_shown =
    validate_subscription-IsShown level_match-IsTopicMatch enforcing loaded
      (connection (codes "ann") false) (codes "home/+/b") (codes "home/a/b") loaded-IsFresh refl
      (inr (inr (codes "home", refl)), tt) refl refl

abbrev logs : Datalog (List Text)
logs = record {
  prepare = λ p. ok p;
  prepare_will = λ p. ok p;
  from_utf8 = λ t. some t;
  append = λ connection topic p log. (ok tt, topic ∷ log);
  append_will = λ topic p log. (ok tt, topic ∷ log);
}

abbrev last_will : Publish
last_will = record { topic = codes "home/x"; payload = codes "gone"; retain = false }

abbrev nobody : AclHandler
nobody username target op = false

will_is_unchecked :
    ((append_to_commitlog logs (connection (codes "bob") false) (some nobody) last_will []).1 ≡ [])
    × ((append_will_message logs last_will []).1 ≡ codes "home/x" ∷ [])
unfolding append_to_commitlog append_will_message check_acl
will_is_unchecked = (refl, refl)

will_as_a_publish_IsGuarded :
    IsGuarded logs level_match enforcing loaded loaded-IsFresh
      (connection (codes "ann") false)
      last_will
      []
      (append_to_commitlog logs
        (connection (codes "ann") false)
        (handler_of level_match enforcing loaded)
        last_will
        [])
will_as_a_publish_IsGuarded =
    append_to_commitlog-IsGuarded logs level_match enforcing loaded loaded-IsFresh
      (connection (codes "ann") false) last_will []
