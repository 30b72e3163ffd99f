-- ===== src/Db/Admins.antt =====
-- The accounts of the administration, src/db/mod.rs, and the count of `AclService::ensure_seed_data`
-- in src/acl/mod.rs.
use hi_mqtt.Prelude.{
  ℕ, suc, Option, [], ◌∷◌, ◌++◌, Text, codes, text_eq, find, any, length, if◌then◌else◌,
}
use hi_mqtt.Prelude.Exec.{ok, err}
use hi_mqtt.Db.Schema.{AdminUserRow}
use hi_mqtt.Db.Query.{Db, Link, Statement, run, unique_violation}

unfoldable pub select_admin : Text → Statement (Option AdminUserRow)
select_admin username now t = (ok (find (λ a. text_eq a.username username) t.admin_users), t)

-- `INSERT INTO admin_users`; `username` is UNIQUE.
unfoldable pub insert_admin : Text → Text → Statement (Unit {0})
insert_admin username password_hash now t =
    let row : AdminUserRow = record {
      id = suc t.admin_seq;
      username = username;
      password_hash = password_hash;
      created_at = now;
    } in
    if any (λ a. text_eq a.username username) t.admin_users
    then (err unique_violation, record t { admin_seq = suc t.admin_seq })
    else (ok tt, record t { admin_users = t.admin_users ++ row ∷ []; admin_seq = suc t.admin_seq })

unfoldable pub count_rows : Statement ℕ
count_rows now t = (ok (length t.admin_users), t)

module _ (link : Link) where
  unfoldable pub get_admin_user : Text → Db (Option AdminUserRow)
  unfolding run select_admin
  get_admin_user username = run link (codes "查询 admin 用户失败") (select_admin username)

  unfoldable pub create_admin_user : Text → Text → Db (Unit {0})
  unfolding run insert_admin
  create_admin_user username password_hash =
      run link (codes "创建 admin 用户失败") (insert_admin username password_hash)

  unfoldable pub count_admins : Db ℕ
  unfolding run count_rows
  count_admins = run link (codes "查询 admin_users 失败") count_rows
