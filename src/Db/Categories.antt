-- ===== src/Db/Categories.antt =====
-- The categories of users, src/db/mod.rs.
use hi_mqtt.Prelude.{
  ℕ, suc, Bool, not, ◌&&◌, Option, none, some, List, [], ◌∷◌, ◌++◌, Text, codes, text_eq, find,
  select, update_where, order_by, any, map, ◌==◌, if◌then◌else◌,
}
use hi_mqtt.Prelude.Exec.{ok, err}
use hi_mqtt.Db.Schema.{MqttUserCategoryRow, StoredUser}
use hi_mqtt.Db.Query.{Db, Link, Statement, run, unique_violation}

unfoldable pub select_categories : Statement (List MqttUserCategoryRow)
select_categories now t = (ok (order_by (λ c. c.id) t.categories), t)

-- `INSERT INTO mqtt_user_categories … RETURNING`; the column `name` is UNIQUE.
unfoldable pub insert_category : Text → Text → Statement MqttUserCategoryRow
insert_category name description now t =
    let row : MqttUserCategoryRow = record {
      id = suc t.category_seq;
      name = name;
      description = description;
      created_at = now;
    } in
    if any (λ c. text_eq c.name name) t.categories
    then (err unique_violation, record t { category_seq = suc t.category_seq })
    else (
      ok row,
      record t { categories = t.categories ++ row ∷ []; category_seq = suc t.category_seq },
    )

unfoldable pub set_category : ℕ → Text → Text → Statement (Option MqttUserCategoryRow)
set_category id name description now t =
    let set = λ (c : MqttUserCategoryRow). record c { name = name; description = description } in
    let after = update_where (λ c. c.id == id) set t.categories in
    if any (λ c. c.id == id) t.categories
      && any (λ c. text_eq c.name name && not (c.id == id)) t.categories
    then (err unique_violation, t)
    else (ok (find (λ c. c.id == id) after), record t { categories = after })

-- `ON DELETE SET NULL` of `mqtt_users.category_id`
abbrev pub leave_category : ℕ → StoredUser → StoredUser
leave_category id u = record u {
  category_id = elim u.category_id [ none ↦ none | some c ↦ if c == id then none else some c ];
}

unfoldable pub remove_category : ℕ → Statement Bool
remove_category id now t = (
  ok (any (λ c. c.id == id) t.categories),
  record t {
    categories = select (λ c. not (c.id == id)) t.categories;
    users = map (leave_category id) t.users;
  },
)

module _ (link : Link) where
  unfoldable pub list_categories : Db (List MqttUserCategoryRow)
  unfolding run select_categories
  list_categories = run link (codes "查询用户分类失败") select_categories

  unfoldable pub create_category : Text → Text → Db MqttUserCategoryRow
  unfolding run insert_category
  create_category name description = run link (codes "创建用户分类失败") (insert_category name description)

  unfoldable pub update_category : ℕ → Text → Text → Db (Option MqttUserCategoryRow)
  unfolding run set_category
  update_category id name description =
      run link (codes "更新用户分类失败") (set_category id name description)

  -- `rows_affected() > 0`
  unfoldable pub delete_category : ℕ → Db Bool
  unfolding run remove_category
  delete_category id = run link (codes "删除用户分类失败") (remove_category id)
