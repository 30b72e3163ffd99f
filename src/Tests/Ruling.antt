-- ===== src/Tests/Ruling.antt =====
-- Deleting and changing the rule of the sample server.
use hi_mqtt.Prelude.{◌≡◌, refl, true, false, not, [], ◌∷◌, codes, select, ◌==◌}
use hi_mqtt.Db.Query.{run, deliver}
use hi_mqtt.Db.Users.{list_mqtt_users, select_users}
use hi_mqtt.Db.Topics.{list_mqtt_topics, select_topics}
use hi_mqtt.Db.Acls.{list_topic_acls, select_acls, delete_topic_acl, remove_acl}
use hi_mqtt.Acl.Levels.{level_match}
use hi_mqtt.Acl.Cache.{publish, check_acl}
use hi_mqtt.Acl.Decision.{is_allowed}
use hi_mqtt.Acl.Service.{reload, on_pool}
use hi_mqtt.Admin.Server.{query, refresh}
use hi_mqtt.Admin.Users.{after_delete}
use hi_mqtt.Admin.Acls.{UpdateAclRequest, delete_acl}
use hi_mqtt.Admin.Rules.{delete_acl-decides}
use hi_mqtt.Tests.Sample.{env, server, topic, rule, enforcing}

decides_without_the_rule :
    check_acl level_match enforcing
      (delete_acl env 1 server).1.acl.cache
      (codes "ann")
      (codes "home/x")
      publish
    ≡ is_allowed level_match publish
        (codes "home/x")
        enforcing
        (topic ∷ [])
        (select (λ r. not (r.id == 1)) (rule ∷ []))
        (codes "ann")
unfolding delete_acl delete_topic_acl remove_acl after_delete refresh query on_pool run deliver
    reload list_mqtt_users list_mqtt_topics list_topic_acls select_users select_topics select_acls
decides_without_the_rule =
    delete_acl-decides env 1 server level_match enforcing (codes "ann") (codes "home/x") publish
      refl

abbrev reading : UpdateAclRequest
reading = record { topic_pattern = codes "office/#"; can_subscribe = true; can_publish = false }
