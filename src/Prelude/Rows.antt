-- ===== src/Prelude/Rows.antt =====
-- What the SQL statements of the program ask of a table, a list of rows.
pub mod Laws
use Prim.Native.Nat.{ℕ}
use mathlib.Core.Bool.{Bool}
use mathlib.Core.Option.{Option, none, some}
use mathlib.Core.List.{List, [], ◌∷◌}
use hi_mqtt.Prelude.Tests.{leb, if◌then◌else◌}

module _ {ℓ} {A : Type ℓ} where
  -- `WHERE p`, at most one row
  unfoldable pub find : (A → Bool) → List A → Option A
  find p [] = none
  find p (r ∷ rs) = if p r then some r else find p rs

  -- `WHERE p`
  unfoldable pub select : (A → Bool) → List A → List A
  select p [] = []
  select p (r ∷ rs) = let rest = select p rs in if p r then r ∷ rest else rest

  -- `UPDATE … SET … WHERE p`
  unfoldable pub update_where : (A → Bool) → (A → A) → List A → List A
  update_where p set [] = []
  update_where p set (r ∷ rs) = (if p r then set r else r) ∷ update_where p set rs

  insert_by : (A → ℕ) → A → List A → List A
  insert_by key r [] = r ∷ []
  insert_by key r (x ∷ xs) =
      let later = x ∷ insert_by key r xs in if leb (key r) (key x) then r ∷ x ∷ xs else later

  -- `ORDER BY key`
  unfoldable pub order_by : (A → ℕ) → List A → List A
  unfolding insert_by
  order_by key [] = []
  order_by key (r ∷ rs) = insert_by key r (order_by key rs)
