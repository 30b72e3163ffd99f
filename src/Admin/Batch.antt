-- ===== src/Admin/Batch.antt =====
-- `batch_create_mqtt_users` of src/admin/mod.rs. An entry of `errors` is the value that its message
-- formats.
pub mod Accounting
pub mod Keeps
pub mod Sessions
use hi_mqtt.Prelude.{
  ℕ, suc, ◌+◌, Bool, true, false, ◌||◌, Option, none, some, List, [], ◌∷◌, ◌++◌, Text, codes,
  is_empty, starts_with, trim, lines, split_whitespace, if◌then◌else◌,
}
use hi_mqtt.Prelude.Exec.{Result, ok, err, Exec, map_err, pure, raise, ◌>>=◌, ◌>>◌}
use hi_mqtt.Db.Schema.{MqttUserRow, UserDefaultsSettings}
use hi_mqtt.Db.Query.{DbError}
use hi_mqtt.Db.Users as Store
use hi_mqtt.Db.Defaults.{get_user_defaults, apply_user_defaults}
use hi_mqtt.Acl.Service.{AclService, Acting, on_pool}
use hi_mqtt.Admin.Server.{AppState, Handler, Status, Env, internal_server_error, query, refresh}
use hi_mqtt.Admin.Users.{hash_password}

pub record BatchMqttUsersRequest : Type 0 where
  pub text : Text
  pub category_id : Option ℕ
  pub enabled : Bool
  pub apply_defaults : Bool

pub data BatchError : Type 0 where
  -- 第 {} 行格式错误
  bad_line : (number : ℕ) (line : Text) → BatchError
  -- 第 {} 行密码为空
  empty_password : (number : ℕ) (username : Text) → BatchError
  -- 用户 {} 密码哈希失败
  hash_failed : (username : Text) → BatchError
  -- 用户 {} 应用默认规则失败
  defaults_failed : (username : Text) (cause : DbError) → BatchError

pub record BatchMqttUsersResponse : Type 0 where
  pub created : ℕ
  pub skipped : List Text
  pub errors : List BatchError

abbrev pub no_response : BatchMqttUsersResponse
no_response = record { created = 0; skipped = []; errors = [] }

abbrev pub fail : BatchError → BatchMqttUsersResponse → BatchMqttUsersResponse
fail e r = record r { errors = r.errors ++ e ∷ [] }

abbrev pub count_created : BatchMqttUsersResponse → BatchMqttUsersResponse
count_created r = record r { created = r.created + 1 }

abbrev pub skip : Text → BatchMqttUsersResponse → BatchMqttUsersResponse
skip username r = record r { skipped = r.skipped ++ username ∷ [] }

-- A line of the text: what it asks for, if anything.
pub data Line : Type 0 where
  ignored : Line
  malformed : Line
  no_password : Text → Line
  entry : (username password : Text) → Line

unfoldable pub parse_parts : List Text → Line
parse_parts (username ∷ password ∷ rest) =
    if is_empty password then no_password username else entry username password
parse_parts (username ∷ []) = malformed
parse_parts [] = malformed

unfoldable pub parse_line : Text → Line
unfolding parse_parts
parse_line line =
    if is_empty line || starts_with line (codes "#")
    then ignored
    else parse_parts (split_whitespace line)

module _ (env : Env) (body : BatchMqttUsersRequest) (defaults : Option UserDefaultsSettings) where
  -- The loop's variables beside the state.
  abbrev pub Round : Type 0
  Round = BatchMqttUsersResponse → AppState → BatchMqttUsersResponse × AppState

  abbrev report : Text → Result DbError (Unit {0}) → BatchMqttUsersResponse → BatchMqttUsersResponse
  report username (ok _) r = count_created r
  report username (err e) r = count_created (fail (defaults_failed username e) r)

  abbrev on_state : {A : Type 0} → Acting A → AppState → Result DbError A × AppState
  on_state m s = ((m s.acl).0, record s { acl = (m s.acl).1 })

  default_rules : Option UserDefaultsSettings → Text → Text → Round
  unfolding on_pool apply_user_defaults
  default_rules none username stored r s = (count_created r, s)
  default_rules (some d) username stored r s =
      let applied = on_state (on_pool (apply_user_defaults env.link stored d)) s in
      (report username applied.0 r, applied.1)

  after_insert : Text → Result DbError MqttUserRow → Round
  unfolding default_rules
  after_insert username (ok user) r s = default_rules defaults username user.username r s
  after_insert username (err e) r s = (skip username r, s)

  after_hash : Text → Result Status Text → Round
  unfolding after_insert on_pool Store.create_mqtt_user
  after_hash username (err e) r s = (fail (hash_failed username) r, s)
  after_hash username (ok password_hash) r s =
      let inserted =
        on_state
          (on_pool
            (Store.create_mqtt_user env.link username password_hash body.enabled body.category_id))
          s in
      after_insert username inserted.0 r inserted.1

  -- One round of the loop, at the line with this number.
  unfoldable pub round : ℕ → Text → Line → Round
  unfolding after_hash hash_password
  round number line ignored r s = (r, s)
  round number line malformed r s = (fail (bad_line number line) r, s)
  round number line (no_password username) r s = (fail (empty_password number username) r, s)
  round number line (entry username password) r s =
      let hashed = hash_password env password s in after_hash username hashed.0 r hashed.1

  unfoldable pub rounds : ℕ → List Text → Round
  unfolding round parse_line
  rounds idx [] r s = (r, s)
  rounds idx (raw_line ∷ raw_lines) r s =
      let line = trim raw_line in
      let after = round (idx + 1) line (parse_line line) r s in
      rounds (idx + 1) raw_lines after.0 after.1

-- `if body.apply_defaults { Some(…) } else { None }`
unfoldable pub batch_defaults : Env → Bool → Handler (Option UserDefaultsSettings)
unfolding query get_user_defaults
batch_defaults env false = pure none
batch_defaults env true = do
  d ← query internal_server_error (get_user_defaults env.link env.serde)
  pure (some d)

pub run_rounds :
    Env → BatchMqttUsersRequest → Option UserDefaultsSettings → Handler BatchMqttUsersResponse
unfolding rounds lines
run_rounds env body defaults s =
    let done = rounds env body defaults 0 (lines body.text) no_response s in (ok done.0, done.1)

unfoldable pub batch_create_mqtt_users :
    Env → BatchMqttUsersRequest → Handler BatchMqttUsersResponse
unfolding batch_defaults run_rounds refresh
batch_create_mqtt_users env body = do
  defaults ← batch_defaults env body.apply_defaults
  response ← run_rounds env body defaults
  refresh env
  pure response
