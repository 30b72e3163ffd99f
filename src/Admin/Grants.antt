-- ===== src/Admin/Grants.antt =====
-- What creating an access rule through the handlers of src/admin/mod.rs means for the broker.
use hi_mqtt.Prelude.{
  ℕ, suc, ◌≡◌, ap, ◌∙◌, Bool, true, false, not, ◌||◌, [], ◌∷◌, ◌++◌, Text, codes, any, any-append,
  is_empty, text_eq_refl, arith,
}
use hi_mqtt.Prelude.Exec.{Result, ok, pure, bind-ok, ◌>>=◌}
use hi_mqtt.Db.Schema.{AclRuleRow, MqttTopicRow, Tables}
use hi_mqtt.Db.Query.{run}
use hi_mqtt.Db.Acls.{insert_acl, create_topic_acl}
use hi_mqtt.Acl.Matcher.{Matches}
use hi_mqtt.Acl.Cache.{AclOperation, AclConfig, check_acl, rule_allows, allowed_topic}
use hi_mqtt.Acl.Decision.{grants}
use hi_mqtt.Acl.Service.Rows.{check_acl-IsFresh}
use hi_mqtt.Acl.Service.Reload.{IsFresh}
use hi_mqtt.Admin.Server.{AppState, Status, Env, created, bad_request, query, refresh}
use hi_mqtt.Admin.Server.Laws.{tables_of, query-ok, reply_after_refresh}
use hi_mqtt.Admin.Acls.{CreateAclRequest, create_acl}

insert_acl-ok :
    (username topic_pattern : Text) (can_subscribe can_publish : Bool) (now : ℕ) (t : Tables)
    (rule : AclRuleRow)
    → (insert_acl username topic_pattern can_subscribe can_publish now t).0 ≡ ok rule
    → (rule.username ≡ username)
      × ((insert_acl username topic_pattern can_subscribe can_publish now t).1
          ≡ record t { acls = t.acls ++ rule ∷ []; acl_seq = suc t.acl_seq })
unfolding insert_acl
insert_acl-ok username topic_pattern can_subscribe can_publish now t rule h =
    (ground arith, ground arith)

create_acl-ok :
    (env : Env) (body : CreateAclRequest) (s : AppState) (rule : AclRuleRow)
    → (create_acl env body s).0 ≡ ok (created, rule)
    → (rule.username ≡ body.username)
      × (tables_of (create_acl env body s).1 ≡ record (tables_of s) {
        acls = (tables_of s).acls ++ rule ∷ [];
        acl_seq = suc (tables_of s).acl_seq;
      })
      × IsFresh (create_acl env body s).1.acl
unfolding create_acl create_topic_acl
create_acl-ok env body s rule h =
    let insert = insert_acl body.username body.topic_pattern body.can_subscribe body.can_publish in
    let send = query bad_request (run env.link (codes "创建 topic_acl 失败") insert) in
    let finish = λ (r : AclRuleRow). refresh env >>= λ _. pure (created, r) in
    let (r, sent, same, rest) = bind-ok send finish s (created, rule) h in
    let (answered, tables) = query-ok env (codes "创建 topic_acl 失败") insert bad_request s r sent in
    let (replied, kept, fresh) =
      reply_after_refresh env (send s).1 (created, r) (created, rule) rest in
    let is_rule : r ≡ rule = ap (λ (x : Status × AclRuleRow). x.1) replied in
    let (named, inserted) =
      insert_acl-ok body.username body.topic_pattern body.can_subscribe body.can_publish _
        (tables_of s) rule (rw is_rule at answered) in
    (
      named,
      ap (λ (x : Result Status (Status × AclRuleRow) × AppState). tables_of x.1) same
          ∙ kept
          ∙ tables
          ∙ inserted,
      rw same fresh,
    )

-- From the moment that the creation of a rule was answered with 201 the broker allows the user of
-- the rule what the rule allows, if the user has a name and, where registration is enforced, some
-- registered topic covers the target.
pub create_acl-grants :
    (env : Env) (body : CreateAclRequest) (s : AppState) (rule : AclRuleRow) (matches : Matches)
    (config : AclConfig) (target : Text) (op : AclOperation)
    → (create_acl env body s).0 ≡ ok (created, rule)
    → is_empty body.username ≡ false
    → rule_allows matches op target rule ≡ true
    → (not config.enforce_registered_topics
        || any (λ (t : MqttTopicRow). allowed_topic op target t.topic) (tables_of s).topics)
      ≡ true
    → check_acl matches config (create_acl env body s).1.acl.cache body.username target op ≡ true
create_acl-grants env body s rule matches config target op h named allows registered =
    let (of_user, tables, fresh) = create_acl-ok env body s rule h in
    let t = tables_of (create_acl env body s).1 in
    let grant = grants matches op target body.username in
    let cover = λ (r : MqttTopicRow). allowed_topic op target r.topic in
    let granted : any grant t.acls ≡ true = rw tables (
      any-append grant (tables_of s).acls (rule ∷ [])
      ∙ ground (arith, allows, of_user, text_eq_refl body.username)) in
    let covered : (not config.enforce_registered_topics || any cover t.topics) ≡ true =
      rw tables registered in
    ground (
      arith,
      granted,
      covered,
      named,
      check_acl-IsFresh matches config (create_acl env body s).1.acl body.username target op fresh,
    )
