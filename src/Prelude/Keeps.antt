-- ===== src/Prelude/Keeps.antt =====
-- Which properties of the state an action keeps, whether it succeeds or fails.
use mathlib.Core.Bool.{Bool, true, false}
use mathlib.Core.Option.{Option, none, some}
use hi_mqtt.Prelude.Tests.{if◌then◌else◌}
use hi_mqtt.Prelude.Exec.{Result, ok, err, Exec, pure, raise, ok_or, continue, ◌>>=◌}

pub record Keeps {ℓ} {S E A : Type ℓ} (P : S → Type ℓ) (m : Exec S E A) : Type ℓ where
  pub at : (s : S) → P s → P (m s).1

module _ {ℓ} {S E A : Type ℓ} {P : S → Type ℓ} where
  pub Keeps-pure : (a : A) → Keeps {E = E} P (pure a)
  Keeps-pure a = record { at = λ s h. h }

  pub Keeps-raise : (e : E) → Keeps {A = A} P (raise e)
  Keeps-raise e = record { at = λ s h. h }

  pub Keeps-ok_or : (o : Option A) (e : E) → Keeps P (ok_or o e)
  Keeps-ok_or none e = record { at = λ s h. h }
  Keeps-ok_or (some a) e = record { at = λ s h. h }

  pub Keeps-if :
      (b : Bool) (m n : Exec S E A) → Keeps P m → Keeps P n → Keeps P (if b then m else n)
  Keeps-if true m n km kn = km
  Keeps-if false m n km kn = kn

module _ {ℓ} {S E A B : Type ℓ} {P : S → Type ℓ} where
  Keeps-continue :
      (r : Result E A) (f : A → Exec S E B) → ((a : A) → Keeps P (f a)) → Keeps P (continue r f)
  Keeps-continue (ok a) f kf = record { at = λ s h. (kf a).at s h }
  Keeps-continue (err e) f kf = record { at = λ s h. h }

  pub Keeps-bind :
      (m : Exec S E A) (f : A → Exec S E B)
      → Keeps P m
      → ((a : A) → Keeps P (f a))
      → Keeps P (m >>= f)
  Keeps-bind m f km kf = record { at = λ s h. (Keeps-continue (m s).0 f kf).at (m s).1 (km.at s h) }

pub ruleset keeps_rules = (Keeps-pure, Keeps-raise, Keeps-ok_or, Keeps-if, Keeps-bind)
