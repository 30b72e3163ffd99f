-- ===== src/Db/Acls.antt =====
-- The access rules, src/db/mod.rs.
use hi_mqtt.Prelude.{
  ℕ, suc, Bool, not, ◌&&◌, Option, List, [], ◌∷◌, ◌++◌, Text, codes, text_eq, find, select,
  update_where, order_by, any, ◌==◌, if◌then◌else◌,
}
use hi_mqtt.Prelude.Exec.{ok, err}
use hi_mqtt.Db.Schema.{AclRuleRow, has_user}
use hi_mqtt.Db.Query.{Db, Link, Statement, run, unique_violation, foreign_key_violation}

unfoldable pub select_acls : Statement (List AclRuleRow)
select_acls now t = (ok (order_by (λ r. r.id) t.acls), t)

unfoldable pub select_acls_of : Text → Statement (List AclRuleRow)
select_acls_of username now t =
    (ok (order_by (λ r. r.id) (select (λ r. text_eq r.username username) t.acls)), t)

-- The key of `UNIQUE(username, topic_pattern)`.
abbrev pub keyed : Text → Text → AclRuleRow → Bool
keyed username topic_pattern r =
    text_eq r.username username && text_eq r.topic_pattern topic_pattern

-- `INSERT INTO topic_acl`; `username` is a reference.
unfoldable pub insert_acl : Text → Text → Bool → Bool → Statement AclRuleRow
insert_acl username topic_pattern can_subscribe can_publish now t =
    let row : AclRuleRow = record {
      id = suc t.acl_seq;
      username = username;
      topic_pattern = topic_pattern;
      can_subscribe = can_subscribe;
      can_publish = can_publish;
      created_at = now;
    } in
    if any (keyed username topic_pattern) t.acls
    then (err unique_violation, record t { acl_seq = suc t.acl_seq })
    else if has_user t.users username
    then (ok row, record t { acls = t.acls ++ row ∷ []; acl_seq = suc t.acl_seq })
    else (err foreign_key_violation, record t { acl_seq = suc t.acl_seq })

-- The row with this id has the user of another row that holds the pattern.
abbrev pub clashes : ℕ → Text → List AclRuleRow → Bool
clashes id topic_pattern acls =
    any (λ r. r.id == id && any (λ s. keyed r.username topic_pattern s && not (s.id == id)) acls)
      acls

unfoldable pub set_acl : ℕ → Text → Bool → Bool → Statement (Option AclRuleRow)
set_acl id topic_pattern can_subscribe can_publish now t =
    let set = λ (r : AclRuleRow). record r {
      topic_pattern = topic_pattern;
      can_subscribe = can_subscribe;
      can_publish = can_publish;
    } in
    let after = update_where (λ r. r.id == id) set t.acls in
    if clashes id topic_pattern t.acls
    then (err unique_violation, t)
    else (ok (find (λ r. r.id == id) after), record t { acls = after })

unfoldable pub remove_acl : ℕ → Statement Bool
remove_acl id now t =
    (ok (any (λ r. r.id == id) t.acls), record t { acls = select (λ r. not (r.id == id)) t.acls })

module _ (link : Link) where
  unfoldable pub list_topic_acls : Db (List AclRuleRow)
  unfolding run select_acls
  list_topic_acls = run link (codes "查询 topic_acl 失败") select_acls

  unfoldable pub list_topic_acls_for_user : Text → Db (List AclRuleRow)
  unfolding run select_acls_of
  list_topic_acls_for_user username = run link (codes "查询用户 ACL 失败") (select_acls_of username)

  unfoldable pub create_topic_acl : Text → Text → Bool → Bool → Db AclRuleRow
  unfolding run insert_acl
  create_topic_acl username topic_pattern can_subscribe can_publish =
      run link (codes "创建 topic_acl 失败")
        (insert_acl username topic_pattern can_subscribe can_publish)

  unfoldable pub update_topic_acl : ℕ → Text → Bool → Bool → Db (Option AclRuleRow)
  unfolding run set_acl
  update_topic_acl id topic_pattern can_subscribe can_publish =
      run link (codes "更新 topic_acl 失败") (set_acl id topic_pattern can_subscribe can_publish)

  unfoldable pub delete_topic_acl : ℕ → Db Bool
  unfolding run remove_acl
  delete_topic_acl id = run link (codes "删除 topic_acl 失败") (remove_acl id)
