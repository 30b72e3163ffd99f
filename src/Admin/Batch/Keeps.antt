-- ===== src/Admin/Batch/Keeps.antt =====
-- What the calls in the loop of the batch of src/admin/mod.rs keep, the loop keeps.
use hi_mqtt.Prelude.{
  ℕ, ◌+◌, Bool, true, false, Option, none, some, List, [], ◌∷◌, Text, trim, lines,
}
use hi_mqtt.Prelude.Exec.{Result, ok, err}
use hi_mqtt.Prelude.Keeps.{Keeps, keeps_rules}
use hi_mqtt.Db.Schema.{Tables, MqttUserRow, UserDefaultsSettings}
use hi_mqtt.Db.Query.{Db, DbError}
use hi_mqtt.Db.Invariants.{
  IsInvariant, run-Keeps, apply_user_defaults-Keeps, get_user_defaults-Keeps,
}
use hi_mqtt.Db.Users as Users
use hi_mqtt.Db.Defaults.{apply_user_defaults}
use hi_mqtt.Acl.Service.{on_pool}
use hi_mqtt.Admin.Server.{AppState, Env, Status}
use hi_mqtt.Admin.Users.{hash_password}
use hi_mqtt.Admin.Batch.{
  BatchMqttUsersRequest, BatchMqttUsersResponse, Line, ignored, malformed, no_password, entry,
  parse_line, no_response, default_rules, after_insert, after_hash, round, rounds, batch_defaults,
  run_rounds, batch_create_mqtt_users,
}
use hi_mqtt.Admin.Invariants.{InState, query-Keeps, refresh-Keeps, hash_password-Keeps}

-- A call of the database in the loop.
abbrev pub called : {A : Type 0} → Db A → AppState → AppState
called m s = record s { acl = (on_pool m s.acl).1 }

-- What the three calls of a round keep.
pub record IsRoundInvariant (Q : AppState → Type 0) (env : Env) : Type 0 where
  pub hashed : (password : Text) → Keeps Q (hash_password env password)
  pub inserted :
      (username hash : Text) (enabled : Bool) (category_id : Option ℕ) (s : AppState)
      → Q s
      → Q (called (Users.create_mqtt_user env.link username hash enabled category_id) s)
  pub applied :
      (username : Text) (d : UserDefaultsSettings) (s : AppState)
      → Q s
      → Q (called (apply_user_defaults env.link username d) s)

module _ {Q : AppState → Type 0} {env : Env} (inv : IsRoundInvariant Q env)
    (body : BatchMqttUsersRequest) (defaults : Option UserDefaultsSettings) where
  default_rules-Keeps :
      (d : Option UserDefaultsSettings) (username stored : Text) (r : BatchMqttUsersResponse)
      (s : AppState)
      → Q s
      → Q (default_rules env body defaults d username stored r s).1
  unfolding default_rules
  default_rules-Keeps none username stored r s h = h
  default_rules-Keeps (some d) username stored r s h = inv.applied stored d s h

  after_insert-Keeps :
      (username : Text) (inserted : Result DbError MqttUserRow) (r : BatchMqttUsersResponse)
      (s : AppState)
      → Q s
      → Q (after_insert env body defaults username inserted r s).1
  unfolding after_insert
  after_insert-Keeps username (ok user) r s h =
      default_rules-Keeps defaults username user.username r s h
  after_insert-Keeps username (err e) r s h = h

  after_hash-Keeps :
      (username : Text) (hashed : Result Status Text) (r : BatchMqttUsersResponse) (s : AppState)
      → Q s
      → Q (after_hash env body defaults username hashed r s).1
  unfolding after_hash
  after_hash-Keeps username (err e) r s h = h
  after_hash-Keeps username (ok hash) r s h =
      after_insert-Keeps username _ r _
        (inv.inserted username hash body.enabled body.category_id s h)

  round-Keeps :
      (number : ℕ) (text : Text) (line : Line) (r : BatchMqttUsersResponse) (s : AppState)
      → Q s
      → Q (round env body defaults number text line r s).1
  unfolding round
  round-Keeps number text ignored r s h = h
  round-Keeps number text malformed r s h = h
  round-Keeps number text (no_password u) r s h = h
  round-Keeps number text (entry u p) r s h = after_hash-Keeps u _ r _ ((inv.hashed p).at s h)

  rounds-Keeps :
      (idx : ℕ) (raw_lines : List Text) (r : BatchMqttUsersResponse) (s : AppState)
      → Q s
      → Q (rounds env body defaults idx raw_lines r s).1
  unfolding rounds
  rounds-Keeps idx [] r s h = h
  rounds-Keeps idx (raw_line ∷ raw_lines) r s h =
      rounds-Keeps (idx + 1) raw_lines _ _
        (round-Keeps (idx + 1) (trim raw_line) (parse_line (trim raw_line)) r s h)

  pub run_rounds-Keeps : Keeps Q (run_rounds env body defaults)
  unfolding run_rounds
  run_rounds-Keeps = record { at = rounds-Keeps 0 (lines body.text) no_response }

module _ {P : Tables → Type 0} (inv : IsInvariant P) (env : Env) where
  InState-IsRoundInvariant : IsRoundInvariant (InState P) env
  unfolding on_pool Users.create_mqtt_user
  InState-IsRoundInvariant = record {
    hashed = hash_password-Keeps P env;
    inserted = λ username hash enabled category_id s h.
        (run-Keeps P env.link _ _ (inv.insert_user username hash enabled category_id)).at
          s.acl.database h;
    applied =
        λ username d s h. (apply_user_defaults-Keeps inv env.link username d).at s.acl.database h;
  }

  batch_defaults-Keeps : (apply : Bool) → Keeps (InState P) (batch_defaults env apply)
  unfolding batch_defaults
  batch_defaults-Keeps true = search (keeps_rules, query-Keeps P, get_user_defaults-Keeps inv)
  batch_defaults-Keeps false = search keeps_rules

  pub batch_create_mqtt_users-Keeps :
      (body : BatchMqttUsersRequest) → Keeps (InState P) (batch_create_mqtt_users env body)
  unfolding batch_create_mqtt_users
  batch_create_mqtt_users-Keeps body = search (
    keeps_rules,
    batch_defaults-Keeps,
    run_rounds-Keeps InState-IsRoundInvariant,
    refresh-Keeps P,
  )
