-- ===== src/Tests/Handlers.antt =====
-- The handlers of src/admin/mod.rs on the sample server.
use hi_mqtt.Prelude.{
  ◌≡◌, refl, true, false, none, [], ◌∷◌, codes, text_eq, starts_with, strip_suffix,
}
use hi_mqtt.Prelude.Exec.{ok}
use hi_mqtt.Db.Query.{run, deliver}
use hi_mqtt.Db.Users.{select_users, remove_user, belongs_to}
use hi_mqtt.Db.Users as Store
use hi_mqtt.Db.Topics.{select_topics, list_mqtt_topics}
use hi_mqtt.Db.Acls.{select_acls, list_topic_acls}
use hi_mqtt.Acl.Levels.{level_match}
use hi_mqtt.Acl.Cache.{publish, check_acl}
use hi_mqtt.Acl.Service.{reload, on_pool, verify_mqtt_password}
use hi_mqtt.Admin.Server.{no_content, query, on_acl, refresh}
use hi_mqtt.Admin.Users.{delete_mqtt_user, after_delete}
use hi_mqtt.Admin.Revocation.{delete_mqtt_user-revokes}
use hi_mqtt.Db.Schema.{MqttUserRow, AclRuleRow, has_user, has_category}
use hi_mqtt.Db.Users.{join_category, new_user, insert_user}
use hi_mqtt.Db.Acls.{insert_acl, create_topic_acl}
use hi_mqtt.Acl.Matcher.{publish_allowed, registered_covers}
use hi_mqtt.Acl.Levels.{fits}
use hi_mqtt.Acl.Cache.{rule_allows, allowed_topic}
use hi_mqtt.Admin.Server.{created}
use hi_mqtt.Admin.Users.{CreateMqttUserRequest, create_mqtt_user, hash_password, give_defaults}
use hi_mqtt.Admin.Accounts.{create_mqtt_user-verifies}
use hi_mqtt.Admin.Acls.{CreateAclRequest, create_acl}
use hi_mqtt.Admin.Grants.{create_acl-grants}
use hi_mqtt.Admin.Batch.{
  bad_line, BatchMqttUsersRequest, BatchMqttUsersResponse, batch_create_mqtt_users, rounds, round,
  parse_line, parse_parts,
}
use hi_mqtt.Admin.Batch.Accounting.{count_failed, count_entries, batch_create_mqtt_users_accounts}
use hi_mqtt.Prelude.{
  ◌++◌, ends_with, trim_end_matches, split_on, lines, trim, split_whitespace, length, ◌+◌,
}
use hi_mqtt.Prelude.{find, update_where}
use hi_mqtt.Db.Users.{set_user, change_user}
use hi_mqtt.Admin.Users.{UpdateMqttUserRequest, update_mqtt_user, new_hash}
use hi_mqtt.Program.{here}
use hi_mqtt.Program.Tables.{Reach-update_refuses}
use hi_mqtt.Tests.Sample.{tables-IsSound, user}
use hi_mqtt.Tests.Sample.{bcrypt-IsBcrypt}
use hi_mqtt.Tests.Sample.{env, server, enforcing}

ann_is_deleted : (delete_mqtt_user env 1 server).0 ≡ ok no_content
unfolding delete_mqtt_user Store.delete_mqtt_user query on_acl on_pool run deliver remove_user
    after_delete refresh reload Store.list_mqtt_users list_mqtt_topics list_topic_acls select_users
    select_topics select_acls
ann_is_deleted = refl

delete_revokes_ann :
    check_acl level_match enforcing
      (delete_mqtt_user env 1 server).1.acl.cache
      (codes "ann")
      (codes "home/x")
      publish
    ≡ false
unfolding belongs_to text_eq
delete_revokes_ann =
    delete_mqtt_user-revokes env 1 server (codes "ann") refl ann_is_deleted level_match enforcing
      (codes "home/x") publish

abbrev eve : CreateMqttUserRequest
eve = record {
  username = codes "eve";
  password = codes "s3";
  enabled = true;
  category_id = none;
  apply_defaults = false;
}

abbrev eve_stored : MqttUserRow
eve_stored = join_category [] (new_user 3 (codes "eve") (codes "$2b$s3") true none 0)

eve_is_created : (create_mqtt_user env eve server).0 ≡ ok (created, eve_stored)
unfolding create_mqtt_user Store.create_mqtt_user hash_password give_defaults query on_acl on_pool
    run deliver insert_user refresh reload Store.list_mqtt_users list_mqtt_topics list_topic_acls
    select_users select_topics select_acls text_eq has_category
eve_is_created = refl

create_verifies_eve :
    (verify_mqtt_password env.link env.bcrypt
      (codes "eve")
      (codes "s3")
      (create_mqtt_user env eve server).1.acl).0
    ≡ true
create_verifies_eve =
    create_mqtt_user-verifies env eve server eve_stored bcrypt-IsBcrypt eve_is_created

abbrev new_rule : CreateAclRequest
new_rule = record {
  username = codes "bob";
  topic_pattern = codes "home/+";
  can_subscribe = false;
  can_publish = true;
}

abbrev new_rule_stored : AclRuleRow
new_rule_stored = record {
  id = 2;
  username = codes "bob";
  topic_pattern = codes "home/+";
  can_subscribe = false;
  can_publish = true;
  created_at = 0;
}

rule_is_created : (create_acl env new_rule server).0 ≡ ok (created, new_rule_stored)
unfolding create_acl create_topic_acl insert_acl has_user query on_acl on_pool run deliver refresh
    reload Store.list_mqtt_users list_mqtt_topics list_topic_acls select_users select_topics
    select_acls text_eq
rule_is_created = refl

create_grants_bob :
    check_acl level_match enforcing
      (create_acl env new_rule server).1.acl.cache
      (codes "bob")
      (codes "home/x")
      publish
    ≡ true
unfolding rule_allows publish_allowed level_match fits split_on allowed_topic registered_covers
    starts_with ends_with trim_end_matches text_eq strip_suffix
create_grants_bob =
    create_acl-grants env new_rule server new_rule_stored level_match enforcing (codes "home/x")
      publish rule_is_created refl refl refl

abbrev batch : BatchMqttUsersRequest
batch = record {
  text = codes "eve s3" ++ 10 ∷ codes "broken";
  category_id = none;
  enabled = true;
  apply_defaults = false;
}

abbrev batch_reply : BatchMqttUsersResponse
batch_reply = record { created = 1; skipped = []; errors = bad_line 2 (codes "broken") ∷ [] }

batch_is_answered : (batch_create_mqtt_users env batch server).0 ≡ ok batch_reply
unfolding batch_create_mqtt_users rounds round parse_line parse_parts lines trim split_whitespace
    hash_password Store.create_mqtt_user query on_acl on_pool run deliver insert_user refresh reload
    Store.list_mqtt_users list_mqtt_topics list_topic_acls select_users select_topics select_acls
    text_eq starts_with split_on has_category strip_suffix
batch_is_answered = refl

batch_accounts_for_eve :
    batch_reply.created + length batch_reply.skipped + count_failed batch_reply.errors
    ≡ count_entries (lines batch.text)
batch_accounts_for_eve =
    batch_create_mqtt_users_accounts env batch server batch_reply batch_is_answered

abbrev disabling : UpdateMqttUserRequest
disabling = record { password = none; enabled = false; category_id = none }

abbrev ann_disabled : MqttUserRow
ann_disabled = join_category [] (record (user 1 (codes "ann")) { enabled = false })

ann_is_disabled : (update_mqtt_user env 1 disabling server).0 ≡ ok ann_disabled
unfolding update_mqtt_user Store.update_mqtt_user new_hash set_user change_user has_category query
    on_acl on_pool run deliver refresh reload Store.list_mqtt_users list_mqtt_topics list_topic_acls
    select_users select_topics select_acls find update_where join_category
ann_is_disabled = refl

disabled_ann_is_refused :
    (verify_mqtt_password env.link env.bcrypt
      (codes "ann")
      (codes "pw")
      (update_mqtt_user env 1 disabling server).1.acl).0
    ≡ false
unfolding text_eq belongs_to
disabled_ann_is_refused =
    Reach-update_refuses env (λ peer. none) {s = server} 1 disabling ann_disabled (codes "ann")
      (codes "pw") tables-IsSound here refl refl ann_is_disabled
