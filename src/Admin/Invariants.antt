-- ===== src/Admin/Invariants.antt =====
-- What every statement keeps, every request keeps: the handlers of src/admin/mod.rs write to the
-- tables by the statements only.
use hi_mqtt.Prelude.{ℕ, Bool, true, false, Option, none, some, Text}
use hi_mqtt.Prelude.Keeps.{Keeps, Keeps-ok_or, keeps_rules}
use hi_mqtt.Db.Schema.{Tables, UserDefaultsSettings}
use hi_mqtt.Db.Query.{Db}
use hi_mqtt.Db.Invariants.{
  IsInvariant, InDatabase, run-Keeps, reads-Keeps, apply_user_defaults-Keeps,
  get_user_defaults-Keeps, set_user_defaults-Keeps,
}
use hi_mqtt.Db.Categories as Categories
use hi_mqtt.Db.Users as Users
use hi_mqtt.Db.Topics as Topics
use hi_mqtt.Db.Acls as Acls
use hi_mqtt.Admin.Server.{AppState, Status, Env, query, refresh, internal_server_error}
use hi_mqtt.Acl.Service.{AclService}
use hi_mqtt.Admin.Server.Laws.{tables-refresh}
use hi_mqtt.Admin.Users.{
  CreateMqttUserRequest, UpdateMqttUserRequest, hash_password, give_defaults, new_hash,
  create_mqtt_user, update_mqtt_user, delete_mqtt_user, get_user_resources, list_mqtt_users,
  after_delete,
}
use hi_mqtt.Admin.Categories.{
  CategoryRequest, list_categories, create_category, update_category, delete_category,
  deleted_status, get_settings, update_settings,
}
use hi_mqtt.Admin.Topics.{TopicRequest, list_topics, create_topic, update_topic, delete_topic}
use hi_mqtt.Admin.Acls.{
  CreateAclRequest, UpdateAclRequest, list_acls, create_acl, update_acl, delete_acl, reload_acl,
}

abbrev pub InState : (Tables → Type 0) → AppState → Type 0
InState P s = P s.acl.database.tables

module _ (P : Tables → Type 0) where
  pub query-Keeps :
      {A : Type 0} (status : Status) (m : Db A)
      → Keeps (InDatabase P) m
      → Keeps (InState P) (query status m)
  unfolding query
  query-Keeps status m k = record { at = λ s h. k.at s.acl.database h }

  pub refresh-Keeps : (env : Env) → Keeps (InState P) (refresh env)
  refresh-Keeps env = record { at = λ s h. rw (tables-refresh env s) h }

  pub hash_password-Keeps :
      (env : Env) (password : Text) → Keeps (InState P) (hash_password env password)
  unfolding hash_password
  hash_password-Keeps env password = record {
    at = λ s h.
        (Keeps-ok_or {P = λ (a : AclService). P a.database.tables} _ internal_server_error).at _ h;
  }

module _ {P : Tables → Type 0} (inv : IsInvariant P) (env : Env) where
  pub after_delete-Keeps : (deleted : Bool) → Keeps (InState P) (after_delete env deleted)
  unfolding after_delete
  after_delete-Keeps true = search (keeps_rules, refresh-Keeps P)
  after_delete-Keeps false = search keeps_rules

  pub give_defaults-Keeps :
      (apply : Bool) (username : Text) → Keeps (InState P) (give_defaults env apply username)
  unfolding give_defaults
  give_defaults-Keeps true username =
      search
        (keeps_rules, query-Keeps P, get_user_defaults-Keeps inv, apply_user_defaults-Keeps inv)
  give_defaults-Keeps false username = search keeps_rules

  pub create_mqtt_user-Keeps :
      (body : CreateMqttUserRequest) → Keeps (InState P) (create_mqtt_user env body)
  unfolding create_mqtt_user Users.create_mqtt_user
  create_mqtt_user-Keeps body = search (
    keeps_rules,
    query-Keeps P,
    run-Keeps P,
    refresh-Keeps P,
    inv.insert_user,
    hash_password-Keeps P,
    give_defaults-Keeps,
  )

  pub new_hash-Keeps : (password : Option Text) → Keeps (InState P) (new_hash env password)
  unfolding new_hash
  new_hash-Keeps none = search keeps_rules
  new_hash-Keeps (some p) = search (keeps_rules, hash_password-Keeps P)

  pub update_mqtt_user-Keeps :
      (id : ℕ) (body : UpdateMqttUserRequest) → Keeps (InState P) (update_mqtt_user env id body)
  unfolding update_mqtt_user Users.update_mqtt_user
  update_mqtt_user-Keeps id body =
      search
        (keeps_rules, query-Keeps P, run-Keeps P, refresh-Keeps P, inv.set_user, new_hash-Keeps)

  pub delete_mqtt_user-Keeps : (id : ℕ) → Keeps (InState P) (delete_mqtt_user env id)
  unfolding delete_mqtt_user Users.delete_mqtt_user
  delete_mqtt_user-Keeps id = search (
    keeps_rules,
    query-Keeps P,
    run-Keeps P,
    refresh-Keeps P,
    inv.remove_user,
    after_delete-Keeps,
  )

  pub list_mqtt_users-Keeps : Keeps (InState P) (list_mqtt_users env)
  unfolding list_mqtt_users Users.list_mqtt_users Users.select_users
  list_mqtt_users-Keeps = search (keeps_rules, query-Keeps P, reads-Keeps P)

  pub get_user_resources-Keeps : (id : ℕ) → Keeps (InState P) (get_user_resources env id)
  unfolding get_user_resources Users.get_mqtt_user_by_id Users.select_user
      Topics.list_mqtt_topics_for_user Topics.select_topics_of Acls.list_topic_acls_for_user
      Acls.select_acls_of
  get_user_resources-Keeps id = search (keeps_rules, query-Keeps P, reads-Keeps P) depth 9

  pub list_categories-Keeps : Keeps (InState P) (list_categories env)
  unfolding list_categories Categories.list_categories Categories.select_categories
  list_categories-Keeps = search (keeps_rules, query-Keeps P, reads-Keeps P)

  pub create_category-Keeps :
      (body : CategoryRequest) → Keeps (InState P) (create_category env body)
  unfolding create_category Categories.create_category
  create_category-Keeps body =
      search (keeps_rules, query-Keeps P, run-Keeps P, refresh-Keeps P, inv.insert_category)

  pub update_category-Keeps :
      (id : ℕ) (body : CategoryRequest) → Keeps (InState P) (update_category env id body)
  unfolding update_category Categories.update_category
  update_category-Keeps id body =
      search (keeps_rules, query-Keeps P, run-Keeps P, refresh-Keeps P, inv.set_category)

  pub deleted_status-Keeps : (b : Bool) → Keeps (InState P) (deleted_status env b)
  deleted_status-Keeps true = search keeps_rules
  deleted_status-Keeps false = search keeps_rules

  pub delete_category-Keeps : (id : ℕ) → Keeps (InState P) (delete_category env id)
  unfolding delete_category Categories.delete_category
  delete_category-Keeps id = search (
    keeps_rules,
    query-Keeps P,
    run-Keeps P,
    refresh-Keeps P,
    inv.remove_category,
    deleted_status-Keeps,
  )

  pub get_settings-Keeps : Keeps (InState P) (get_settings env)
  unfolding get_settings
  get_settings-Keeps = search (query-Keeps P, get_user_defaults-Keeps inv)

  pub update_settings-Keeps :
      (body : UserDefaultsSettings) → Keeps (InState P) (update_settings env body)
  unfolding update_settings
  update_settings-Keeps body = search (query-Keeps P, set_user_defaults-Keeps inv)

  pub list_topics-Keeps : Keeps (InState P) (list_topics env)
  unfolding list_topics Topics.list_mqtt_topics Topics.select_topics
  list_topics-Keeps = search (keeps_rules, query-Keeps P, reads-Keeps P)

  pub create_topic-Keeps : (body : TopicRequest) → Keeps (InState P) (create_topic env body)
  unfolding create_topic Topics.create_mqtt_topic
  create_topic-Keeps body =
      search (keeps_rules, query-Keeps P, run-Keeps P, refresh-Keeps P, inv.insert_topic)

  pub update_topic-Keeps :
      (id : ℕ) (body : TopicRequest) → Keeps (InState P) (update_topic env id body)
  unfolding update_topic Topics.update_mqtt_topic
  update_topic-Keeps id body =
      search (keeps_rules, query-Keeps P, run-Keeps P, refresh-Keeps P, inv.set_topic)

  pub delete_topic-Keeps : (id : ℕ) → Keeps (InState P) (delete_topic env id)
  unfolding delete_topic Topics.delete_mqtt_topic
  delete_topic-Keeps id = search (
    keeps_rules,
    query-Keeps P,
    run-Keeps P,
    refresh-Keeps P,
    inv.remove_topic,
    after_delete-Keeps,
  )

  pub list_acls-Keeps : Keeps (InState P) (list_acls env)
  unfolding list_acls Acls.list_topic_acls Acls.select_acls
  list_acls-Keeps = search (keeps_rules, query-Keeps P, reads-Keeps P)

  pub create_acl-Keeps : (body : CreateAclRequest) → Keeps (InState P) (create_acl env body)
  unfolding create_acl Acls.create_topic_acl
  create_acl-Keeps body =
      search (keeps_rules, query-Keeps P, run-Keeps P, refresh-Keeps P, inv.insert_acl)

  pub update_acl-Keeps :
      (id : ℕ) (body : UpdateAclRequest) → Keeps (InState P) (update_acl env id body)
  unfolding update_acl Acls.update_topic_acl
  update_acl-Keeps id body =
      search (keeps_rules, query-Keeps P, run-Keeps P, refresh-Keeps P, inv.set_acl)

  pub delete_acl-Keeps : (id : ℕ) → Keeps (InState P) (delete_acl env id)
  unfolding delete_acl Acls.delete_topic_acl
  delete_acl-Keeps id =
      search (
        keeps_rules,
        query-Keeps P,
        run-Keeps P,
        refresh-Keeps P,
        inv.remove_acl,
        after_delete-Keeps,
      )

  pub reload_acl-Keeps : Keeps (InState P) (reload_acl env)
  unfolding reload_acl
  reload_acl-Keeps = search (keeps_rules, refresh-Keeps P)
