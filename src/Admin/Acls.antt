-- ===== src/Admin/Acls.antt =====
-- The handlers for access rules in src/admin/mod.rs.
use hi_mqtt.Prelude.{ℕ, Bool, List, Text}
use hi_mqtt.Prelude.Exec.{pure, ok_or, ◌>>=◌, ◌>>◌}
use hi_mqtt.Db.Schema.{AclRuleRow}
use hi_mqtt.Db.Acls as Store
use hi_mqtt.Admin.Server.{
  Handler, Status, Env, created, no_content, bad_request, not_found, internal_server_error, query,
  refresh,
}
use hi_mqtt.Admin.Users.{after_delete}

pub record CreateAclRequest : Type 0 where
  pub username : Text
  pub topic_pattern : Text
  pub can_subscribe : Bool
  pub can_publish : Bool

pub record UpdateAclRequest : Type 0 where
  pub topic_pattern : Text
  pub can_subscribe : Bool
  pub can_publish : Bool

module _ (env : Env) where
  unfoldable pub list_acls : Handler (List AclRuleRow)
  unfolding query Store.list_topic_acls
  list_acls = query internal_server_error (Store.list_topic_acls env.link)

  unfoldable pub create_acl : CreateAclRequest → Handler (Status × AclRuleRow)
  unfolding query Store.create_topic_acl refresh
  create_acl body = do
    rule ← query bad_request (
        Store.create_topic_acl env.link body.username body.topic_pattern body.can_subscribe
          body.can_publish)
    refresh env
    pure (created, rule)

  unfoldable pub update_acl : ℕ → UpdateAclRequest → Handler AclRuleRow
  unfolding query Store.update_topic_acl refresh
  update_acl id body = do
    found ←
        query internal_server_error (
          Store.update_topic_acl env.link id body.topic_pattern body.can_subscribe body.can_publish)
    rule ← ok_or found not_found
    refresh env
    pure rule

  unfoldable pub delete_acl : ℕ → Handler Status
  unfolding query Store.delete_topic_acl after_delete
  delete_acl id = do
    deleted ← query internal_server_error (Store.delete_topic_acl env.link id)
    after_delete env deleted

  unfoldable pub reload_acl : Handler Status
  unfolding refresh
  reload_acl = do refresh env; pure no_content
