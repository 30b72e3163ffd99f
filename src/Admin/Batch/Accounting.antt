-- ===== src/Admin/Batch/Accounting.antt =====
-- The reply of `batch_create_mqtt_users` in src/admin/mod.rs accounts for each line of the text.
use hi_mqtt.Prelude.{
  ℕ, suc, ◌+◌, ◌≡◌, Option, none, some, List, [], ◌∷◌, ◌++◌, Text, length, length-append, lines,
  trim, arith,
}
use hi_mqtt.Prelude.Exec.{Result, ok, err, pure, bind-ok, ◌>>=◌}
use hi_mqtt.Db.Schema.{MqttUserRow, UserDefaultsSettings}
use hi_mqtt.Db.Query.{DbError}
use hi_mqtt.Db.Defaults.{apply_user_defaults}
use hi_mqtt.Acl.Service.{on_pool}
use hi_mqtt.Admin.Server.{AppState, Status, Env, refresh}
use hi_mqtt.Admin.Batch.{
  BatchMqttUsersRequest, BatchMqttUsersResponse, BatchError, bad_line, empty_password, hash_failed,
  defaults_failed, Line, ignored, malformed, no_password, entry, parse_line, no_response, report,
  default_rules, after_insert, after_hash, round, rounds, batch_defaults, run_rounds,
  batch_create_mqtt_users,
}

-- The errors that stand for a line from which no user was created.
abbrev pub count_failed : List BatchError → ℕ
count_failed [] = 0
count_failed (defaults_failed username cause ∷ errors) = count_failed errors
count_failed (bad_line number line ∷ errors) = suc (count_failed errors)
count_failed (empty_password number username ∷ errors) = suc (count_failed errors)
count_failed (hash_failed username ∷ errors) = suc (count_failed errors)

count_failed-append :
    (xs ys : List BatchError) → count_failed (xs ++ ys) ≡ count_failed xs + count_failed ys
count_failed-append [] ys = omega arith
count_failed-append (defaults_failed u c ∷ xs) ys = count_failed-append xs ys
count_failed-append (bad_line n l ∷ xs) ys = omega (arith, count_failed-append xs ys)
count_failed-append (empty_password n u ∷ xs) ys = omega (arith, count_failed-append xs ys)
count_failed-append (hash_failed u ∷ xs) ys = omega (arith, count_failed-append xs ys)

abbrev pub accounted : BatchMqttUsersResponse → ℕ
accounted r = r.created + length r.skipped + count_failed r.errors

abbrev pub weight : Line → ℕ
weight ignored = 0
weight malformed = 1
weight (no_password username) = 1
weight (entry username password) = 1

-- The lines that are neither blank nor comments.
abbrev pub count_entries : List Text → ℕ
count_entries [] = 0
count_entries (raw_line ∷ raw_lines) = weight (parse_line (trim raw_line)) + count_entries raw_lines

module _ (env : Env) (body : BatchMqttUsersRequest) (defaults : Option UserDefaultsSettings) where
  accounted-default_rules :
      (d : Option UserDefaultsSettings) (u stored : Text) (r : BatchMqttUsersResponse)
      (s : AppState)
      → accounted (default_rules env body defaults d u stored r s).0 ≡ accounted r + 1
  unfolding default_rules
  accounted-default_rules none u stored r s = omega arith
  accounted-default_rules (some d) u stored r s =
      accounted-report (on_pool (apply_user_defaults env.link stored d) s.acl).0
    where
      accounted-report :
          (answer : Result DbError (Unit {0}))
          → accounted (report env body defaults u answer r) ≡ accounted r + 1
      accounted-report (ok _) = omega arith
      accounted-report (err e) =
          omega (arith, count_failed-append r.errors (defaults_failed u e ∷ []))

  accounted-after_insert :
      (u : Text) (inserted : Result DbError MqttUserRow) (r : BatchMqttUsersResponse) (s : AppState)
      → accounted (after_insert env body defaults u inserted r s).0 ≡ accounted r + 1
  unfolding after_insert
  accounted-after_insert u (ok user) r s = accounted-default_rules defaults u user.username r s
  accounted-after_insert u (err e) r s = omega (arith, length-append r.skipped (u ∷ []))

  accounted-after_hash :
      (u : Text) (hashed : Result Status Text) (r : BatchMqttUsersResponse) (s : AppState)
      → accounted (after_hash env body defaults u hashed r s).0 ≡ accounted r + 1
  unfolding after_hash
  accounted-after_hash u (err e) r s =
      omega (arith, count_failed-append r.errors (hash_failed u ∷ []))
  accounted-after_hash u (ok h) r s = accounted-after_insert u _ r _

  accounted-round :
      (number : ℕ) (text : Text) (line : Line) (r : BatchMqttUsersResponse) (s : AppState)
      → accounted (round env body defaults number text line r s).0 ≡ accounted r + weight line
  unfolding round
  accounted-round number text ignored r s = omega arith
  accounted-round number text malformed r s =
      omega (arith, count_failed-append r.errors (bad_line number text ∷ []))
  accounted-round number text (no_password u) r s =
      omega (arith, count_failed-append r.errors (empty_password number u ∷ []))
  accounted-round number text (entry u p) r s = accounted-after_hash u _ r _

  accounted-rounds :
      (idx : ℕ) (raw_lines : List Text) (r : BatchMqttUsersResponse) (s : AppState)
      → accounted (rounds env body defaults idx raw_lines r s).0
        ≡ accounted r + count_entries raw_lines
  unfolding rounds
  accounted-rounds idx [] r s = omega arith
  accounted-rounds idx (raw_line ∷ raw_lines) r s =
      let line = trim raw_line in
      let after = round env body defaults (idx + 1) line (parse_line line) r s in
      omega (
        arith,
        accounted-rounds (idx + 1) raw_lines after.0 after.1,
        accounted-round (idx + 1) line (parse_line line) r s,
      )

-- A batch that was answered accounts for the text: the users created, the names skipped and the
-- errors that stand for a line are together as many as the lines that are neither blank nor
-- comments. An error of the default rules stands beside a created user.
pub batch_create_mqtt_users_accounts :
    (env : Env) (body : BatchMqttUsersRequest) (s : AppState) (r : BatchMqttUsersResponse)
    → (batch_create_mqtt_users env body s).0 ≡ ok r
    → r.created + length r.skipped + count_failed r.errors ≡ count_entries (lines body.text)
unfolding batch_create_mqtt_users run_rounds
batch_create_mqtt_users_accounts env body s r h =
    let finish = λ (response : BatchMqttUsersResponse). refresh env >>= λ _. pure response in
    let (defaults, _, _, run) =
      bind-ok (batch_defaults env body.apply_defaults) (λ d. run_rounds env body d >>= finish) s r
        h in
    let start = (batch_defaults env body.apply_defaults s).1 in
    let (response, done, _, replied) = bind-ok (run_rounds env body defaults) finish start r run in
    let (_, _, _, same) = bind-ok (refresh env) (λ _. pure response) _ r replied in
    ground
      (arith, done, same, accounted-rounds env body defaults 0 (lines body.text) no_response start)
