-- ===== src/Prelude/Rows/Laws.antt =====
-- How the tests over a table read what the statements make of it.
use mathlib.Core.Path.{◌≡◌, refl}
use mathlib.Core.Logic.{inl, inr}
use mathlib.Core.Bool.{Bool, true, false, not, ◌&&◌, ◌||◌}
use mathlib.Core.Option.{none, some}
use mathlib.Core.List.{List, [], ◌∷◌, ◌++◌, map}
use Prim.Native.Nat.{ℕ}
use native.Mathlib.Omega.{arith}
use hi_mqtt.Prelude.Tests.{Bool-cases, is_some}
use hi_mqtt.Prelude.Lists.{any}
use hi_mqtt.Prelude.Rows.{find, select, insert_by, order_by}

module _ {ℓ} {A : Type ℓ} where
  pub any-append : (p : A → Bool) (xs ys : List A) → any p (xs ++ ys) ≡ (any p xs || any p ys)
  any-append p [] ys = refl
  any-append p (x ∷ xs) ys = ground (arith, any-append p xs ys)

  any-insert_by :
      (key : A → ℕ) (p : A → Bool) (r : A) (xs : List A)
      → any p (insert_by key r xs) ≡ (p r || any p xs)
  unfolding insert_by
  any-insert_by key p r [] = refl
  any-insert_by key p r (x ∷ xs) = ground (arith, any-insert_by key p r xs)

  pub any-order_by : (key : A → ℕ) (p : A → Bool) (xs : List A) → any p (order_by key xs) ≡ any p xs
  unfolding order_by
  any-order_by key p [] = refl
  any-order_by key p (x ∷ xs) =
      ground (arith, any-insert_by key p x (order_by key xs), any-order_by key p xs)

  pub any-select : (p q : A → Bool) (xs : List A) → any p (select q xs) ≡ any (λ x. q x && p x) xs
  unfolding select
  any-select p q [] = refl
  any-select p q (x ∷ xs) = ground (arith, any-select p q xs)

  pub any-none : (p : A → Bool) (xs : List A) → ((x : A) → p x ≡ false) → any p xs ≡ false
  any-none p [] h = refl
  any-none p (x ∷ xs) h = ground (arith, h x, any-none p xs h)

  pub any_mono :
      (p q : A → Bool) (xs : List A)
      → ((x : A) → p x ≡ true → q x ≡ true)
      → any p xs ≡ true
      → any q xs ≡ true
  any_mono p q [] h e = e
  any_mono p q (x ∷ xs) h e = ground (arith, h x, any_mono p q xs h)

  pub any-and_left :
      (p q : A → Bool) (xs : List A) → any p xs ≡ false → any (λ x. p x && q x) xs ≡ false
  any-and_left p q [] h = h
  any-and_left p q (x ∷ xs) h = ground (arith, any-and_left p q xs)

  pub find-some : (p : A → Bool) (xs : List A) (r : A) → find p xs ≡ some r → p r ≡ true
  unfolding find
  find-some p [] r h = cc
  find-some p (x ∷ xs) r h = ground (arith, find-some p xs r)

  pub find_of_none : (p : A → Bool) (xs : List A) → any p xs ≡ false → find p xs ≡ none
  unfolding find
  find_of_none p [] h = refl
  find_of_none p (x ∷ xs) h = ground (arith, find_of_none p xs)

  -- Where all that `p` selects passes a test and there is one, `find` gives one that passes.
  pub find-passes :
      (p test : A → Bool) (xs : List A)
      → any (λ x. p x && not (test x)) xs ≡ false
      → any p xs ≡ true
      → (x : A) × (find p xs ≡ some x) × (test x ≡ true)
  unfolding find
  find-passes p test [] h k = cc
  find-passes p test (x ∷ xs) h k = elim (Bool-cases (p x)) [
    | inl e ↦ (x, ground (arith, e), ground (arith, e))
    | inr e ↦
        let (y, found, passed) = find-passes p test xs (ground (arith, e)) (ground (arith, e)) in
        (y, ground (arith, e, found), passed)
  ]

  pub find-is_some : (p : A → Bool) (xs : List A) → is_some (find p xs) ≡ any p xs
  unfolding find
  find-is_some p [] = refl
  find-is_some p (x ∷ xs) = ground (arith, find-is_some p xs)

pub any-map {ℓ κ} :
    {A : Type ℓ} {B : Type κ} (p : B → Bool) (f : A → B) (xs : List A)
    → any p (map f xs) ≡ any (λ x. p (f x)) xs
any-map p f [] = refl
any-map p f (x ∷ xs) = ground (arith, any-map p f xs)
