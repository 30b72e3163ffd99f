-- ===== src/Db/Topics.antt =====
-- The registered topics, src/db/mod.rs.
use hi_mqtt.Prelude.{
  ℕ, suc, Bool, false, not, ◌&&◌, Option, none, some, List, [], ◌∷◌, ◌++◌, Text, codes, text_eq,
  find, select, update_where, order_by, any, ◌==◌, if◌then◌else◌,
}
use hi_mqtt.Prelude.Exec.{ok, err}
use hi_mqtt.Db.Schema.{MqttTopicRow, has_owner}
use hi_mqtt.Db.Query.{Db, Link, Statement, run, unique_violation, foreign_key_violation}

unfoldable pub select_topics : Statement (List MqttTopicRow)
select_topics now t = (ok (order_by (λ r. r.id) t.topics), t)

-- `owner_username = $1`, which NULL never meets
abbrev pub owned_by : Text → Option Text → Bool
owned_by username none = false
owned_by username (some owner) = text_eq owner username

unfoldable pub select_topics_of : Text → Statement (List MqttTopicRow)
select_topics_of username now t =
    (ok (order_by (λ r. r.id) (select (λ r. owned_by username r.owner_username) t.topics)), t)

-- `INSERT INTO mqtt_topics`; `topic` is UNIQUE and `owner_username` a reference.
unfoldable pub insert_topic : Text → Text → Option Text → Statement MqttTopicRow
insert_topic topic description owner_username now t =
    let row : MqttTopicRow = record {
      id = suc t.topic_seq;
      topic = topic;
      description = description;
      owner_username = owner_username;
      created_at = now;
    } in
    if any (λ r. text_eq r.topic topic) t.topics
    then (err unique_violation, record t { topic_seq = suc t.topic_seq })
    else if has_owner t.users owner_username
    then (ok row, record t { topics = t.topics ++ row ∷ []; topic_seq = suc t.topic_seq })
    else (err foreign_key_violation, record t { topic_seq = suc t.topic_seq })

unfoldable pub set_topic : ℕ → Text → Text → Option Text → Statement (Option MqttTopicRow)
set_topic id topic description owner_username now t =
    let set = λ (r : MqttTopicRow). record r {
      topic = topic;
      description = description;
      owner_username = owner_username;
    } in
    let after = update_where (λ r. r.id == id) set t.topics in
    let found = any (λ r. r.id == id) t.topics in
    if found && any (λ r. text_eq r.topic topic && not (r.id == id)) t.topics
    then (err unique_violation, t)
    else if found && not (has_owner t.users owner_username)
    then (err foreign_key_violation, t)
    else (ok (find (λ r. r.id == id) after), record t { topics = after })

unfoldable pub remove_topic : ℕ → Statement Bool
remove_topic id now t = (
  ok (any (λ r. r.id == id) t.topics),
  record t { topics = select (λ r. not (r.id == id)) t.topics },
)

module _ (link : Link) where
  unfoldable pub list_mqtt_topics : Db (List MqttTopicRow)
  unfolding run select_topics
  list_mqtt_topics = run link (codes "查询 mqtt_topics 失败") select_topics

  unfoldable pub list_mqtt_topics_for_user : Text → Db (List MqttTopicRow)
  unfolding run select_topics_of
  list_mqtt_topics_for_user username = run link (codes "查询用户 Topic 失败") (select_topics_of username)

  unfoldable pub create_mqtt_topic : Text → Text → Option Text → Db MqttTopicRow
  unfolding run insert_topic
  create_mqtt_topic topic description owner_username =
      run link (codes "创建 mqtt_topic 失败") (insert_topic topic description owner_username)

  unfoldable pub update_mqtt_topic : ℕ → Text → Text → Option Text → Db (Option MqttTopicRow)
  unfolding run set_topic
  update_mqtt_topic id topic description owner_username =
      run link (codes "更新 mqtt_topic 失败") (set_topic id topic description owner_username)

  unfoldable pub delete_mqtt_topic : ℕ → Db Bool
  unfolding run remove_topic
  delete_mqtt_topic id = run link (codes "删除 mqtt_topic 失败") (remove_topic id)
