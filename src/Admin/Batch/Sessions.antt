-- ===== src/Admin/Batch/Sessions.antt =====
-- The batch of src/admin/mod.rs leaves the sessions alone.
use hi_mqtt.Prelude.{◌≡◌, refl, arith, Bool, Map, Text}
use hi_mqtt.Prelude.Keeps.{Keeps, keeps_rules}
use hi_mqtt.Admin.Server.{AppState, Env, query, refresh}
use hi_mqtt.Admin.Users.{hash_password}
use hi_mqtt.Admin.Batch.{BatchMqttUsersRequest, batch_defaults, batch_create_mqtt_users}
use hi_mqtt.Admin.Batch.Keeps.{IsRoundInvariant, run_rounds-Keeps}

module _ (sessions : Map Text) (env : Env) where
  abbrev Same : AppState → Type 0
  Same s = s.sessions ≡ sessions

  Same-IsRoundInvariant : IsRoundInvariant Same env
  unfolding hash_password
  Same-IsRoundInvariant = record {
    hashed = λ p. record { at = λ s h. h };
    inserted = λ u p e c s h. h;
    applied = λ u d s h. h;
  }

  batch_defaults-Same : (apply : Bool) → Keeps Same (batch_defaults env apply)
  unfolding batch_defaults query
  batch_defaults-Same apply = record { at = λ s h. ground (arith, h) }

  refresh-Same : Keeps Same (refresh env)
  unfolding refresh
  refresh-Same = record { at = λ s h. h }

  batch-Same : (body : BatchMqttUsersRequest) → Keeps Same (batch_create_mqtt_users env body)
  unfolding batch_create_mqtt_users
  batch-Same body =
      search
        (keeps_rules, batch_defaults-Same, run_rounds-Keeps Same-IsRoundInvariant, refresh-Same)

pub sessions-batch :
    (env : Env) (body : BatchMqttUsersRequest) (s : AppState)
    → (batch_create_mqtt_users env body s).1.sessions ≡ s.sessions
sessions-batch env body s = (batch-Same s.sessions env body).at s refl
