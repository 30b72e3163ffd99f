-- ===== src/Tests/Running.antt =====
-- Runs of the whole program on the sample server.
use hi_mqtt.Prelude.{◌≡◌, ◌⊎◌, refl, false, none, Option, Text, codes, text_eq}
use hi_mqtt.Db.Query.{run, deliver}
use hi_mqtt.Db.Users as Store
use hi_mqtt.Db.Users.{list_mqtt_users, select_users, remove_user, belongs_to}
use hi_mqtt.Db.Topics.{list_mqtt_topics, select_topics}
use hi_mqtt.Db.Acls.{list_topic_acls, select_acls}
use hi_mqtt.Db.Constraints.{IsSound}
use hi_mqtt.Acl.Service.{reload, on_pool, verify_mqtt_password}
use hi_mqtt.Acl.Service.Reload.{IsFresh}
use hi_mqtt.Admin.Server.{AppState, query, refresh}
use hi_mqtt.Admin.Server.Laws.{tables_of}
use hi_mqtt.Admin.Auth.{Head}
use hi_mqtt.Admin.Users.{delete_mqtt_user, after_delete}
use hi_mqtt.Admin.Router.{Request, serve, post_login}
use hi_mqtt.Admin.Router.Cache.{cache-serve}
use hi_mqtt.Program.{request, tick, Reach, here, next}
use hi_mqtt.Program.Tables.{Reach-IsSound, Reach-delete_refuses}
use hi_mqtt.Tests.Sample.{tables-IsSound, link, env, service, server}

abbrev no_parse : Text → Option Text
no_parse peer = none

abbrev nobody : Head
nobody = record { authorization = none; uri_query = none }

abbrev body : Request
body = post_login (record { username = codes "root"; password = codes "pw" })

-- The refresh, a client's login, and a login to the administration.
abbrev refreshed : AppState
refreshed = record server { acl = (reload link service).1 }

run_from_server : Reach env no_parse server (serve tt env 9 nobody body server).1
run_from_server = next here (request server tt 9 nobody body)

tables_stay-IsSound : IsSound (tables_of (serve tt env 9 nobody body server).1)
tables_stay-IsSound = Reach-IsSound env no_parse tables-IsSound run_from_server

request_leaves_no_mixture :
    ((serve tt env 9 nobody body server).1.acl.cache ≡ server.acl.cache)
    ⊎ IsFresh (serve tt env 9 nobody body server).1.acl
request_leaves_no_mixture = cache-serve tt env 9 nobody body server

ann_is_refused_for_good :
    (verify_mqtt_password env.link env.bcrypt
      (codes "ann")
      (codes "pw")
      (delete_mqtt_user env 1 refreshed).1.acl).0
    ≡ false
unfolding belongs_to text_eq delete_mqtt_user after_delete refresh query on_pool run deliver
    Store.delete_mqtt_user remove_user reload list_mqtt_users list_mqtt_topics list_topic_acls
    select_users select_topics select_acls
ann_is_refused_for_good =
    Reach-delete_refuses env no_parse {s = server} 1 (codes "ann") (codes "pw") tables-IsSound
      (next here (tick server)) refl refl
