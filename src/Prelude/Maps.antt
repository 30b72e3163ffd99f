-- ===== src/Prelude/Maps.antt =====
-- A `HashMap` with text keys as an association list: the program never depends on the order of
-- its entries but where it iterates, and there the order is the list's.
use mathlib.Core.Path.{◌≡◌, refl}
use mathlib.Core.Option.{Option, none, some}
use mathlib.Core.List.{List, [], ◌∷◌, ◌++◌}
use native.Mathlib.Omega.{arith}
use hi_mqtt.Prelude.Tests.{if◌then◌else◌}
use hi_mqtt.Prelude.Texts.{Text, text_eq, text_eq_iff}

abbrev pub Map {ℓ} : Type ℓ → Type ℓ
Map V = List (Text × V)

module _ {ℓ} {V : Type ℓ} where
  unfoldable pub lookup : Text → Map V → Option V
  lookup k [] = none
  lookup k ((j, v) ∷ m) = if text_eq j k then some v else lookup k m

  unfoldable pub insert : Text → V → Map V → Map V
  insert k v [] = (k, v) ∷ []
  insert k v ((j, w) ∷ m) = if text_eq j k then (j, v) ∷ m else (j, w) ∷ insert k v m

  unfoldable pub remove : Text → Map V → Map V
  remove k [] = []
  remove k ((j, w) ∷ m) = let rest = remove k m in if text_eq j k then rest else (j, w) ∷ rest

  pub lookup-insert :
      (k j : Text) (v : V) (m : Map V)
      → lookup j (insert k v m) ≡ (if text_eq k j then some v else lookup j m)
  unfolding lookup insert
  lookup-insert k j v [] = refl
  lookup-insert k j v ((i, w) ∷ m) =
      ground (arith, text_eq_iff k j, text_eq_iff i k, text_eq_iff i j, lookup-insert k j v m)

  pub lookup-remove :
      (k j : Text) (m : Map V) → lookup j (remove k m) ≡ (if text_eq k j then none else lookup j m)
  unfolding lookup remove
  lookup-remove k j [] = ground arith
  lookup-remove k j ((i, w) ∷ m) =
      ground (arith, text_eq_iff k j, text_eq_iff i k, text_eq_iff i j, lookup-remove k j m)

module _ {ℓ} {A : Type ℓ} where
  abbrev pub or_default : Option (List A) → List A
  or_default none = []
  or_default (some xs) = xs

  -- `map.entry(k).or_default().push(a)`
  unfoldable pub push_entry : Text → A → Map (List A) → Map (List A)
  unfolding insert lookup
  push_entry k a m = insert k (or_default (lookup k m) ++ a ∷ []) m

  pub lookup-push_entry :
      (k j : Text) (a : A) (m : Map (List A))
      → lookup j (push_entry k a m)
        ≡ (if text_eq k j then some (or_default (lookup j m) ++ a ∷ []) else lookup j m)
  unfolding push_entry
  lookup-push_entry k j a m =
      ground (arith, text_eq_iff k j, lookup-insert k j (or_default (lookup k m) ++ a ∷ []) m)
