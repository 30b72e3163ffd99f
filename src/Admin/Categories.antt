-- ===== src/Admin/Categories.antt =====
-- The handlers for categories and for the default templates in src/admin/mod.rs. They do not
-- reload the access control.
use hi_mqtt.Prelude.{ℕ, Bool, true, false, List, Text}
use hi_mqtt.Prelude.Exec.{pure, raise, ok_or, ◌>>=◌}
use hi_mqtt.Db.Schema.{MqttUserCategoryRow, UserDefaultsSettings}
use hi_mqtt.Db.Categories as Store
use hi_mqtt.Db.Defaults.{get_user_defaults, set_user_defaults}
use hi_mqtt.Admin.Server.{
  Handler, Status, Env, created, no_content, bad_request, not_found, internal_server_error, query,
}

-- `CreateCategoryRequest` and `UpdateCategoryRequest`
pub record CategoryRequest : Type 0 where
  pub name : Text
  pub description : Text

module _ (env : Env) where
  unfoldable pub list_categories : Handler (List MqttUserCategoryRow)
  unfolding query Store.list_categories
  list_categories = query internal_server_error (Store.list_categories env.link)

  unfoldable pub create_category : CategoryRequest → Handler (Status × MqttUserCategoryRow)
  unfolding query Store.create_category
  create_category body = do
    row ← query bad_request (Store.create_category env.link body.name body.description)
    pure (created, row)

  unfoldable pub update_category : ℕ → CategoryRequest → Handler MqttUserCategoryRow
  unfolding query Store.update_category
  update_category id body = do
    found ←
        query internal_server_error (Store.update_category env.link id body.name body.description)
    ok_or found not_found

  abbrev pub deleted_status : Bool → Handler Status
  deleted_status true = pure no_content
  deleted_status false = raise not_found

  unfoldable pub delete_category : ℕ → Handler Status
  unfolding query Store.delete_category deleted_status
  delete_category id = do
    deleted ← query internal_server_error (Store.delete_category env.link id)
    deleted_status deleted

  unfoldable pub get_settings : Handler UserDefaultsSettings
  unfolding query get_user_defaults
  get_settings = query internal_server_error (get_user_defaults env.link env.serde)

  unfoldable pub update_settings : UserDefaultsSettings → Handler UserDefaultsSettings
  unfolding query set_user_defaults
  update_settings body = query internal_server_error (set_user_defaults env.link env.serde body)
