-- ===== src/Prelude/Exec.antt =====
-- Actions that change a state and may fail. What was written before a failure stays written, so
-- the state comes back beside the error too.
use mathlib.Core.Path.{◌≡◌, refl}
use mathlib.Core.Option.{Option, none, some}

pub data Result {ℓ} (E A : Type ℓ) : Type ℓ where
  ok : A → Result E A
  err : E → Result E A

abbrev pub map_err {ℓ} : {E F A : Type ℓ} → (E → F) → Result E A → Result F A
map_err f (ok a) = ok a
map_err f (err e) = err (f e)

abbrev pub Exec {ℓ} : Type ℓ → Type ℓ → Type ℓ → Type ℓ
Exec S E A = S → Result E A × S

module _ {ℓ} {S E A : Type ℓ} where
  abbrev pub pure : A → Exec S E A
  pure a s = (ok a, s)

  abbrev pub raise : E → Exec S E A
  raise e s = (err e, s)

  -- `o.ok_or(e)?`
  abbrev pub ok_or : Option A → E → Exec S E A
  ok_or none e s = (err e, s)
  ok_or (some a) e s = (ok a, s)

module _ {ℓ} {S E A B : Type ℓ} where
  abbrev pub continue : Result E A → (A → Exec S E B) → Exec S E B
  continue (ok a) f s = f a s
  continue (err e) f s = (err e, s)

  infixl 5 ◌>>=◌ ◌>>◌
  abbrev pub ◌>>=◌ : Exec S E A → (A → Exec S E B) → Exec S E B
  ◌>>=◌ m f s = continue (m s).0 f (m s).1

  abbrev pub ◌>>◌ : Exec S E A → Exec S E B → Exec S E B
  m >> n = m >>= λ _. n

split-continue {ℓ} :
    {S E A B : Type ℓ} (r : Result E A) (f : A → Exec S E B) (s : S) (b : B)
    → (continue r f s).0 ≡ ok b
    → (a : A) × (r ≡ ok a) × (continue r f s ≡ f a s) × ((f a s).0 ≡ ok b)
split-continue (ok a) f s b h = (a, refl, refl, h)
split-continue (err e) f s b h = cc

-- Inversion of a successful chain: the first action succeeded, and the rest ran from its state.
pub bind-ok {ℓ} :
    {S E A B : Type ℓ} (m : Exec S E A) (f : A → Exec S E B) (s : S) (b : B)
    → ((m >>= f) s).0 ≡ ok b
    → (a : A) × ((m s).0 ≡ ok a) × ((m >>= f) s ≡ f a (m s).1) × ((f a (m s).1).0 ≡ ok b)
bind-ok m f s b h = split-continue (m s).0 f (m s).1 b h

continue-keeps {ℓ κ} :
    {S E A B : Type ℓ} (P : S → Type κ) (r : Result E A) (f : A → Exec S E B) (s : S)
    → P s
    → ((a : A) → P (f a s).1)
    → P (continue r f s).1
continue-keeps P (ok a) f s h k = k a
continue-keeps P (err e) f s h k = h

-- What holds after the first action, and after the rest from there, holds after the chain.
pub bind-keeps {ℓ κ} :
    {S E A B : Type ℓ} (P : S → Type κ) (m : Exec S E A) (f : A → Exec S E B) (s : S)
    → P (m s).1
    → ((a : A) → P (f a (m s).1).1)
    → P ((m >>= f) s).1
bind-keeps P m f s h k = continue-keeps P (m s).0 f (m s).1 h k
