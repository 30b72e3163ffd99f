-- ===== src/Tests/Access.antt =====
-- The matchers, the cache and the service of src/acl on the sample server.
use hi_mqtt.Prelude.{
  ◌≡◌, refl, true, false, inr, [], ◌∷◌, codes, text_eq, starts_with, strip_suffix, split_on,
}
use hi_mqtt.Db.Schema.{UserDefaultsSettings}
use hi_mqtt.Db.Query.{run, deliver}
use hi_mqtt.Db.Users.{list_mqtt_users, select_users}
use hi_mqtt.Db.Topics.{list_mqtt_topics, select_topics}
use hi_mqtt.Db.Acls.{list_topic_acls, select_acls}
use hi_mqtt.Acl.Matcher.{subscribe_allowed, publish_allowed, registered_covers}
use hi_mqtt.Acl.Levels.{fits, level_match, level_match-IsTopicMatch}
use hi_mqtt.Acl.Coverage.{subscribe_allowed-publish_allowed}
use hi_mqtt.Acl.Registered.{registered_covers_parent}
use hi_mqtt.Acl.Cache.{publish, check_acl, build_cache}
use hi_mqtt.Acl.Decision.{is_allowed, check_acl-build_cache}
use hi_mqtt.Acl.Service.{reload, on_pool}
use hi_mqtt.Acl.Service.Reload.{IsFresh, reload-IsFresh, tables-reload}
use hi_mqtt.Db.Defaults.{get_user_defaults, set_user_defaults, upsert_defaults}
use hi_mqtt.Db.Defaults.Settings.{get_user_defaults-set_user_defaults}
use hi_mqtt.Prelude.Exec.{ok}
use hi_mqtt.Prelude.{text_eq}
use hi_mqtt.Tests.Sample.{serde, serde-IsRoundTrip}
use hi_mqtt.Tests.Sample.{link, tables, topic, rule, service, database, enforcing}

subscribe_prefix_wildcard :
    (subscribe_allowed (codes "home/#") (codes "home/room/temp") ≡ true)
    × (subscribe_allowed (codes "home/#") (codes "office/room") ≡ false)
unfolding subscribe_allowed strip_suffix starts_with text_eq
subscribe_prefix_wildcard = (refl, refl)

home_covers_room : publish_allowed level_match (codes "home/#") (codes "home/a/b") ≡ true
unfolding subscribe_allowed level_match fits split_on strip_suffix starts_with text_eq
home_covers_room =
    subscribe_allowed-publish_allowed level_match-IsTopicMatch (codes "home/#") (codes "home/+/b")
      (codes "home/a/b") (inr (inr (codes "home", refl))) refl refl

ann_may_publish :
    check_acl level_match enforcing
      (build_cache [] (topic ∷ []) (rule ∷ []) 7)
      (codes "ann")
      (codes "home/x")
      publish
    ≡ is_allowed level_match publish
        (codes "home/x")
        enforcing
        (topic ∷ [])
        (rule ∷ [])
        (codes "ann")
ann_may_publish =
    check_acl-build_cache level_match publish (codes "home/x") enforcing [] (topic ∷ []) (rule ∷ [])
      7 (codes "ann")

home_is_not_covered :
    (registered_covers (codes "home/#") (codes "home") ≡ false)
    × (subscribe_allowed (codes "home/#") (codes "home") ≡ true)
home_is_not_covered = registered_covers_parent (codes "home")

reload-IsFresh_example : IsFresh (reload link service).1
unfolding reload on_pool run deliver list_mqtt_users list_mqtt_topics list_topic_acls select_users
    select_topics select_acls
reload-IsFresh_example = reload-IsFresh link service refl

reload_keeps_tables : (reload link service).1.database.tables ≡ tables
reload_keeps_tables = tables-reload link service

abbrev own_topic : UserDefaultsSettings
own_topic = record {
  default_topics = (record { topic = codes "home/{username}/#"; description = [] }) ∷ [];
  default_acls = [];
}

stored_topic_is_read :
    (get_user_defaults link serde (set_user_defaults link serde own_topic database).1).0
    ≡ ok own_topic
unfolding set_user_defaults upsert_defaults run deliver
stored_topic_is_read =
    get_user_defaults-set_user_defaults link serde own_topic database {r = own_topic}
      serde-IsRoundTrip refl refl
