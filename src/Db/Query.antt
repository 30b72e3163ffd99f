-- ===== src/Db/Query.antt =====
-- A statement of src/db/mod.rs sent to PostgreSQL, which is one step of `Database`. The link to the
-- server is a parameter: it says for the n-th statement what time it is there, and whether the
-- statement was answered, did not get there, or was executed and its answer lost.
pub mod Laws
use hi_mqtt.Prelude.{ℕ, suc, Option, Text, ◌≡◌, refl}
use hi_mqtt.Prelude.Exec.{Result, ok, err, map_err, Exec}
use hi_mqtt.Db.Schema.{Tables}

pub data Cause : Type 0 where
  unreachable unique_violation foreign_key_violation bad_json hash_failed : Cause

-- An `anyhow::Error` with the context that the program gives it.
pub record DbError : Type 0 where
  pub context : Text
  pub cause : Cause

pub data Delivery : Type 0 where
  answered refused lost : Delivery

pub record Link : Type 0 where
  pub now : ℕ → ℕ
  pub delivery : ℕ → Delivery

-- The state of the server, and how many statements have been sent.
pub record Database : Type 0 where
  pub tables : Tables
  pub statements : ℕ

abbrev pub Db : Type 0 → Type 0
Db A = Exec Database DbError A

-- A statement at the server's time.
abbrev pub Statement : Type 0 → Type 0
Statement A = ℕ → Tables → Result Cause A × Tables

abbrev pub because : Text → Cause → DbError
because context cause = record { context = context; cause = cause }

unfoldable pub deliver : {A : Type 0} → Delivery → Text → Result Cause A × Tables → Db A
deliver answered context (r, after) s =
    (map_err (because context) r, record { tables = after; statements = suc s.statements })
deliver refused context (r, after) s =
    (err (because context unreachable), record s { statements = suc s.statements })
deliver lost context (r, after) s =
    (err (because context unreachable), record { tables = after; statements = suc s.statements })

unfoldable pub run : {A : Type 0} → Link → Text → Statement A → Db A
unfolding deliver
run link context statement s =
    deliver (link.delivery s.statements) context (statement (link.now s.statements) s.tables) s
