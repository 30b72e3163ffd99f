-- ===== src/Admin/Rules.antt =====
-- What deleting and changing an access rule through the handlers of src/admin/mod.rs means for the
-- broker.
use hi_mqtt.Prelude.{
  ℕ, ◌≡◌, ap, ◌∙◌, refl, not, Option, Text, codes, select, update_where, arith, ◌==◌, Bool-cases,
  inl, inr,
}
use hi_mqtt.Prelude.Exec.{ok}
use hi_mqtt.Db.Schema.{AclRuleRow, Tables}
use hi_mqtt.Db.Acls.{remove_acl, set_acl, clashes}
use hi_mqtt.Db.Acls as Store
use hi_mqtt.Acl.Matcher.{Matches}
use hi_mqtt.Acl.Cache.{AclOperation, AclConfig, check_acl}
use hi_mqtt.Acl.Decision.{is_allowed}
use hi_mqtt.Acl.Service.Rows.{check_acl-IsFresh}
use hi_mqtt.Admin.Server.{AppState, Env, no_content}
use hi_mqtt.Admin.Server.Laws.{tables_of}
use hi_mqtt.Admin.Acls.{UpdateAclRequest, update_acl, delete_acl}
use hi_mqtt.Admin.Users.Deletion.{delete-ok}
use hi_mqtt.Admin.Users.Updating.{update-ok}

-- After a delete of a rule that was answered with 204 the broker decides by the other rules: a user
-- is allowed something exactly if it was before by a rule with another id.
pub delete_acl-decides :
    (env : Env) (id : ℕ) (s : AppState) (matches : Matches) (config : AclConfig)
    (username target : Text) (op : AclOperation)
    → (delete_acl env id s).0 ≡ ok no_content
    → check_acl matches config (delete_acl env id s).1.acl.cache username target op
      ≡ is_allowed matches op target config
          (tables_of s).topics
          (select (λ r. not (r.id == id)) (tables_of s).acls)
          username
unfolding delete_acl Store.delete_topic_acl remove_acl
delete_acl-decides env id s matches config username target op h =
    let (answered, tables, fresh) = delete-ok env (codes "删除 topic_acl 失败") (remove_acl id) s h in
    check_acl-IsFresh matches config (delete_acl env id s).1.acl username target op fresh
    ∙ ap (λ (t : Tables). is_allowed matches op target config t.topics t.acls username) tables

-- The row after an update.
abbrev pub changed_to : UpdateAclRequest → AclRuleRow → AclRuleRow
changed_to body r = record r {
  topic_pattern = body.topic_pattern;
  can_subscribe = body.can_subscribe;
  can_publish = body.can_publish;
}

set_acl-ok :
    (id : ℕ) (body : UpdateAclRequest) (now : ℕ) (t : Tables) (found : Option AclRuleRow)
    → (set_acl id body.topic_pattern body.can_subscribe body.can_publish now t).0 ≡ ok found
    → (set_acl id body.topic_pattern body.can_subscribe body.can_publish now t).1
      ≡ record t { acls = update_where (λ r. r.id == id) (changed_to body) t.acls }
unfolding set_acl
set_acl-ok id body now t found h = elim (Bool-cases (clashes id body.topic_pattern t.acls)) [
  | inl taken ↦ ground (arith, taken, h)
  | inr free ↦ rw free refl
]

-- After an update of a rule that was answered with 200 the broker decides by the rules with this
-- one changed as the request says, and by the topics as they were.
pub update_acl-decides :
    (env : Env) (id : ℕ) (body : UpdateAclRequest) (s : AppState) (rule : AclRuleRow)
    (matches : Matches) (config : AclConfig) (username target : Text) (op : AclOperation)
    → (update_acl env id body s).0 ≡ ok rule
    → check_acl matches config (update_acl env id body s).1.acl.cache username target op
      ≡ is_allowed matches op target config
          (tables_of s).topics
          (update_where (λ r. r.id == id) (changed_to body) (tables_of s).acls)
          username
unfolding update_acl Store.update_topic_acl
update_acl-decides env id body s rule matches config username target op h =
    let statement = set_acl id body.topic_pattern body.can_subscribe body.can_publish in
    let (found, answered, tables, fresh) =
      update-ok env (codes "更新 topic_acl 失败") statement s rule h in
    check_acl-IsFresh matches config (update_acl env id body s).1.acl username target op fresh
    ∙ ap (λ (t : Tables). is_allowed matches op target config t.topics t.acls username)
        (tables
          ∙ set_acl-ok id body (env.link.now s.acl.database.statements) (tables_of s) found
              answered)
