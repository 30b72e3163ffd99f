-- ===== src/Admin/Provisioning.antt =====
-- How `create_mqtt_user` of src/admin/mod.rs gives a new user the templates.
pub mod Effect
pub mod First
use hi_mqtt.Prelude.{
  ℕ, suc, ◌≡◌, refl, sym, ap, ◌∙◌, Bool, true, false, not, ◌&&◌, ◌||◌, Option, some, List, [], ◌∷◌,
  Text, codes, any, any_mono, is_empty, text_eq, text_eq_iff, text_eq_refl, arith,
}
use hi_mqtt.Prelude.Exec.{Result, ok, pure, bind-ok, ◌>>=◌}
use hi_mqtt.Db.Schema.{
  MqttUserRow, MqttTopicRow, AclRuleRow, DefaultTopicTemplate, DefaultAclTemplate,
  UserDefaultsSettings, SettingRow, Tables,
}
use hi_mqtt.Db.Query.{Db, Database, run}
use hi_mqtt.Db.Users.{insert_user, join_category}
use hi_mqtt.Db.Users as Store
use hi_mqtt.Db.Defaults.{apply_user_defaults, get_user_defaults, render_template}
use hi_mqtt.Db.Defaults.Laws.{tables-get_user_defaults}
use hi_mqtt.Db.Defaults.Settings.{stored, defaults_in, get_user_defaults-ok}
use hi_mqtt.Db.Defaults.Applied.{standing}
use hi_mqtt.Db.Defaults.Applied.Loops.{last_for, apply_user_defaults-provides}
use hi_mqtt.Acl.Matcher.{Matches}
use hi_mqtt.Acl.Cache.{AclOperation, AclConfig, check_acl, rule_allows, allowed_topic}
use hi_mqtt.Acl.Decision.{grants}
use hi_mqtt.Acl.Service.{on_pool}
use hi_mqtt.Acl.Service.Rows.{check_acl-IsFresh}
use hi_mqtt.Acl.Service.Reload.{IsFresh}
use hi_mqtt.Admin.Server.{
  AppState, Status, Env, created, bad_request, internal_server_error, query, refresh,
}
use hi_mqtt.Admin.Server.Laws.{tables_of, map_err-ok, query-ok, reply_after_refresh}
use hi_mqtt.Admin.Users.{CreateMqttUserRequest, give_defaults, create_mqtt_user}
use hi_mqtt.Admin.Users.Creation.{create_mqtt_user-Ran}

query-done :
    {A : Type 0} (status : Status) (m : Db A) (s : AppState) (a : A)
    → (query status m s).0 ≡ ok a
    → ((m s.acl.database).0 ≡ ok a) × ((query status m s).1.acl.database ≡ (m s.acl.database).1)
unfolding query on_pool
query-done status m s a h = (map_err-ok (λ _. status) _ a h, refl)

insert_user-leaves :
    (username password_hash : Text) (enabled : Bool) (category_id : Option ℕ) (now : ℕ) (t : Tables)
    (user : MqttUserRow)
    → (insert_user username password_hash enabled category_id now t).0 ≡ ok user
    → (user.username ≡ username)
      × ((insert_user username password_hash enabled category_id now t).1.settings ≡ t.settings)
      × ((insert_user username password_hash enabled category_id now t).1.topics ≡ t.topics)
unfolding insert_user join_category
insert_user-leaves username password_hash enabled category_id now t user h =
    (ground (arith, h), ground (arith, h), ground (arith, h))

-- Giving the templates: they were read from the tables, and applied with success.
give_defaults-ok :
    (env : Env) (username : Text) (s : AppState)
    → (give_defaults env true username s).0 ≡ ok tt
    → (defaults : UserDefaultsSettings) × (d : Database) × (defaults_in env.link env.serde
          (stored (tables_of s).settings)
        ≡ some defaults)
      × (d.tables ≡ tables_of s)
      × ((apply_user_defaults env.link username defaults d).0 ≡ ok tt)
      × (tables_of (give_defaults env true username s).1
          ≡ (apply_user_defaults env.link username defaults d).1.tables)
unfolding give_defaults
give_defaults-ok env username s h =
    let ask = query internal_server_error (get_user_defaults env.link env.serde) in
    let send = λ (d : UserDefaultsSettings).
      query internal_server_error (apply_user_defaults env.link username d) in
    let (defaults, asked, same, rest) = bind-ok ask send s tt h in
    let (read, after) =
      query-done internal_server_error (get_user_defaults env.link env.serde) s defaults asked in
    let (applied, left) =
      query-done internal_server_error (apply_user_defaults env.link username defaults) (ask s).1 tt
        rest in
    (
      defaults,
      (ask s).1.acl.database,
      get_user_defaults-ok env.link env.serde s.acl.database defaults read,
      ap (λ (d : Database). d.tables) after
          ∙ tables-get_user_defaults env.link env.serde s.acl.database,
      applied,
      ap (λ (x : Result Status (Unit {0}) × AppState). tables_of x.1) same
          ∙ ap (λ (d : Database). d.tables) left,
    )

-- A user that was created with the templates and a reply of 201.
pub create_mqtt_user-provided :
    (env : Env) (body : CreateMqttUserRequest) (s : AppState) (user : MqttUserRow)
    → (create_mqtt_user env body s).0 ≡ ok (created, user)
    → body.apply_defaults ≡ true
    → (defaults : UserDefaultsSettings) × (d : Database) × (defaults_in env.link env.serde
          (stored (tables_of s).settings)
        ≡ some defaults)
      × (d.tables.topics ≡ (tables_of s).topics)
      × ((apply_user_defaults env.link body.username defaults d).0 ≡ ok tt)
      × (tables_of (create_mqtt_user env body s).1
          ≡ (apply_user_defaults env.link body.username defaults d).1.tables)
      × IsFresh (create_mqtt_user env body s).1.acl
create_mqtt_user-provided env body s user h e =
    let ran = create_mqtt_user-Ran env body s user h in
    let (name, settings, topics) =
      insert_user-leaves body.username ran.hash body.enabled body.category_id ran.now (tables_of s)
        ran.user ran.inserted in
    let given : (give_defaults env true body.username ran.before).0 ≡ ok tt =
      rw (← e, ← name) ran.given in
    let (defaults, d, read, at, applied, left) =
      give_defaults-ok env body.username ran.before given in
    let tables = ran.is_before in
    (
      defaults,
      d,
      ap (λ (rows : List SettingRow). defaults_in env.link env.serde (stored rows))
            (sym (ap (λ (t : Tables). t.settings) tables ∙ settings))
          ∙ read,
      ap (λ (t : Tables). t.topics) (at ∙ tables) ∙ topics,
      applied,
      ran.left
          ∙ ap (λ (b : Bool). tables_of (give_defaults env b ran.user.username ran.before).1) e
          ∙ ap (λ (n : Text). tables_of (give_defaults env true n ran.before).1) name
          ∙ left,
      ran.is_fresh,
    )
