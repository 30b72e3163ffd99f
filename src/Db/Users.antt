-- ===== src/Db/Users.antt =====
-- The MQTT users, src/db/mod.rs.
use hi_mqtt.Prelude.{
  ℕ, suc, Bool, true, false, not, ◌&&◌, Option, none, some, List, [], ◌∷◌, ◌++◌, map, Text, codes,
  text_eq, find, select, update_where, order_by, any, ◌==◌, if◌then◌else◌,
}
use mathlib.Core.Option
use hi_mqtt.Prelude.Exec.{ok, err}
use hi_mqtt.Db.Schema.{MqttUserCategoryRow, StoredUser, MqttUserRow, has_category}
use hi_mqtt.Db.Query.{Db, Link, Statement, run, unique_violation, foreign_key_violation}

category_name : List MqttUserCategoryRow → Option ℕ → Option Text
category_name categories none = none
category_name categories (some id) = Option.map (λ c. c.name) (find (λ c. c.id == id) categories)

-- `MQTT_USER_SELECT`, the left join with the categories, at one user.
unfoldable pub join_category : List MqttUserCategoryRow → StoredUser → MqttUserRow
unfolding category_name
join_category categories u = record {
  id = u.id;
  username = u.username;
  password_hash = u.password_hash;
  enabled = u.enabled;
  category_id = u.category_id;
  category_name = category_name categories u.category_id;
  last_login_at = u.last_login_at;
  last_login_ip = u.last_login_ip;
  created_at = u.created_at;
  updated_at = u.updated_at;
}

unfoldable pub select_users : Statement (List MqttUserRow)
select_users now t = (ok (order_by (λ u. u.id) (map (join_category t.categories) t.users)), t)

unfoldable pub select_user : (StoredUser → Bool) → Statement (Option MqttUserRow)
select_user p now t = (ok (Option.map (join_category t.categories) (find p t.users)), t)

abbrev pub named : Text → StoredUser → Bool
named username u = text_eq u.username username

abbrev pub numbered : ℕ → StoredUser → Bool
numbered id u = u.id == id

abbrev pub new_user : ℕ → Text → Text → Bool → Option ℕ → ℕ → StoredUser
new_user id username password_hash enabled category_id now = record {
  id = id;
  username = username;
  password_hash = password_hash;
  enabled = enabled;
  category_id = category_id;
  last_login_at = none;
  last_login_ip = none;
  created_at = now;
  updated_at = now;
}

-- `INSERT INTO mqtt_users … RETURNING *`; `username` is UNIQUE and `category_id` a reference.
unfoldable pub insert_user : Text → Text → Bool → Option ℕ → Statement MqttUserRow
insert_user username password_hash enabled category_id now t =
    let row = new_user (suc t.user_seq) username password_hash enabled category_id now in
    if any (named username) t.users
    then (err unique_violation, record t { user_seq = suc t.user_seq })
    else if has_category t.categories category_id
    then (
      ok (join_category t.categories row),
      record t { users = t.users ++ row ∷ []; user_seq = suc t.user_seq },
    )
    else (err foreign_key_violation, record t { user_seq = suc t.user_seq })

-- The SET lists of the four statements of `update_mqtt_user`.
unfoldable pub change_user : Option Text → Bool → Option (Option ℕ) → ℕ → StoredUser → StoredUser
change_user (some hash) enabled (some category) now u = record u {
  password_hash = hash;
  enabled = enabled;
  category_id = category;
  updated_at = now;
}
change_user (some hash) enabled none now u = record u {
  password_hash = hash;
  enabled = enabled;
  updated_at = now;
}
change_user none enabled (some category) now u = record u {
  enabled = enabled;
  category_id = category;
  updated_at = now;
}
change_user none enabled none now u = record u { enabled = enabled; updated_at = now }

-- The reference that a statement of `update_mqtt_user` writes is to a category that is there.
abbrev pub refers_to_category : List MqttUserCategoryRow → Option (Option ℕ) → Bool
refers_to_category categories none = true
refers_to_category categories (some category) = has_category categories category

unfoldable pub set_user :
    ℕ → Option Text → Bool → Option (Option ℕ) → Statement (Option MqttUserRow)
unfolding change_user
set_user id password_hash enabled category_id now t =
    let after =
      update_where (numbered id) (change_user password_hash enabled category_id now) t.users in
    if any (numbered id) t.users && not (refers_to_category t.categories category_id)
    then (err foreign_key_violation, t)
    else (
      ok (Option.map (join_category t.categories) (find (numbered id) after)),
      record t { users = after },
    )

-- The user that a row refers to is the one with this id.
unfoldable pub belongs_to : ℕ → List StoredUser → Text → Bool
belongs_to id users username = any (λ u. numbered id u && named username u) users

abbrev pub owner_belongs_to : ℕ → List StoredUser → Option Text → Bool
owner_belongs_to id users none = false
owner_belongs_to id users (some username) = belongs_to id users username

-- `DELETE FROM mqtt_users`, which deletes the user's rules and topics too: `ON DELETE CASCADE`.
unfoldable pub remove_user : ℕ → Statement Bool
remove_user id now t = (
  ok (any (numbered id) t.users),
  record t {
    users = select (λ u. not (numbered id u)) t.users;
    topics = select (λ r. not (owner_belongs_to id t.users r.owner_username)) t.topics;
    acls = select (λ r. not (belongs_to id t.users r.username)) t.acls;
  },
)

unfoldable pub note_login : Text → Text → Statement (Unit {0})
note_login username ip now t = (
  ok tt,
  record t {
    users =
        update_where (named username)
          (λ u. record u { last_login_at = some now; last_login_ip = some ip; updated_at = now })
          t.users;
  },
)

module _ (link : Link) where
  unfoldable pub list_mqtt_users : Db (List MqttUserRow)
  unfolding run select_users
  list_mqtt_users = run link (codes "查询 mqtt_users 失败") select_users

  unfoldable pub get_mqtt_user : Text → Db (Option MqttUserRow)
  unfolding run select_user
  get_mqtt_user username = run link (codes "查询 mqtt_user 失败") (select_user (named username))

  unfoldable pub get_mqtt_user_by_id : ℕ → Db (Option MqttUserRow)
  unfolding run select_user
  get_mqtt_user_by_id id = run link (codes "按 id 查询 mqtt_user 失败") (select_user (numbered id))

  unfoldable pub create_mqtt_user : Text → Text → Bool → Option ℕ → Db MqttUserRow
  unfolding run insert_user
  create_mqtt_user username password_hash enabled category_id =
      run link (codes "创建 mqtt_user 失败") (insert_user username password_hash enabled category_id)

  unfoldable pub update_mqtt_user :
      ℕ → Option Text → Bool → Option (Option ℕ) → Db (Option MqttUserRow)
  unfolding run set_user
  update_mqtt_user id password_hash enabled category_id =
      run link (codes "更新 mqtt_user 失败") (set_user id password_hash enabled category_id)

  unfoldable pub delete_mqtt_user : ℕ → Db Bool
  unfolding run remove_user
  delete_mqtt_user id = run link (codes "删除 mqtt_user 失败") (remove_user id)

  unfoldable pub record_mqtt_user_login : Text → Text → Db (Unit {0})
  unfolding run note_login
  record_mqtt_user_login username ip = run link (codes "更新最后登录信息失败") (note_login username ip)
