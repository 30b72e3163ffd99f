-- ===== src/Prelude/Texts.antt =====
-- Texts as lists of code points: a `String` of the program, and the operations of Rust's `str`
-- that the program calls. On well-formed UTF-8 a prefix or a suffix in bytes is one in code
-- points.
use Prim.Native.Nat.{ℕ, zero, suc, ◌-◌}
use Prim.Native.Char.{code}
use Prim.Native.String.{String}
use mathlib.Core.Path.{◌≡◌, refl, ap}
use mathlib.Core.Logic.{◌↔◌, inl, inr}
use mathlib.Core.Bool.{Bool, true, false, ◌&&◌}
use mathlib.Core.Option
use mathlib.Core.Option.{Option, none, some}
use mathlib.Core.List.{List, [], ◌∷◌, ◌++◌}
use native.Mathlib.Omega.{arith}
use hi_mqtt.Prelude.Tests.{◌==◌, if◌then◌else◌, is_some, Bool-cases, Option-cases}
use hi_mqtt.Prelude.Lists.{length, is_empty, length-append}

abbrev pub Text : Type 0
Text = List ℕ

-- The code points of a literal.
abbrev pub codes : String → Text
codes String.[] = []
codes (String.◌∷◌ c s) = code c ∷ codes s

-- `a == b`
unfoldable pub text_eq : Text → Text → Bool
text_eq [] [] = true
text_eq (a ∷ s) (b ∷ t) = a == b && text_eq s t
text_eq [] (b ∷ t) = false
text_eq (a ∷ s) [] = false

pub text_eq_refl : (s : Text) → text_eq s s ≡ true
unfolding text_eq
text_eq_refl [] = refl
text_eq_refl (a ∷ s) = ground (arith, text_eq_refl s)

pub text_eq_iff : (s t : Text) → (text_eq s t ≡ true) ↔ (s ≡ t)
unfolding text_eq
text_eq_iff [] [] = ground arith
text_eq_iff (a ∷ s) (b ∷ t) = ground (arith, text_eq_iff s t)
text_eq_iff [] (b ∷ t) = ground arith
text_eq_iff (a ∷ s) [] = ground arith

-- `s.starts_with(prefix)`
unfoldable pub starts_with : Text → Text → Bool
starts_with s [] = true
starts_with [] (p ∷ ps) = false
starts_with (c ∷ s) (p ∷ ps) = c == p && starts_with s ps

-- `s.strip_suffix(suffix)`
unfoldable pub strip_suffix : Text → Text → Option Text
strip_suffix [] suffix = if is_empty suffix then some [] else none
strip_suffix (c ∷ s) suffix =
    if text_eq (c ∷ s) suffix then some [] else Option.map (λ p. c ∷ p) (strip_suffix s suffix)

-- `s.ends_with(suffix)`
abbrev pub ends_with : Text → Text → Bool
ends_with s suffix = is_some (strip_suffix s suffix)

-- `s.trim_end_matches(c)`
unfoldable pub trim_end_matches : Text → ℕ → Text
trim_end_matches [] c = []
trim_end_matches (x ∷ s) c =
    let rest = trim_end_matches s c in if x == c && is_empty rest then [] else x ∷ rest

-- `s.replace(pattern, new)` for a pattern that is not empty, by the number of code points that
-- are still covered by the last occurrence.
replace_from : ℕ → Text → Text → Text → Text
replace_from (suc covered) pattern new (c ∷ s) = replace_from covered pattern new s
replace_from zero pattern new (c ∷ s) =
    let found = new ++ replace_from (length pattern - 1) pattern new s in
    let other = c ∷ replace_from zero pattern new s in
    if starts_with (c ∷ s) pattern then found else other
replace_from covered pattern new [] = []

unfoldable pub replace : Text → Text → Text → Text
unfolding replace_from
replace s pattern new = replace_from 0 pattern new s

pub starts_with_iff : (s p : Text) → (starts_with s p ≡ true) ↔ ((r : Text) × (s ≡ p ++ r))
unfolding starts_with
starts_with_iff s p = (there s p, λ (r, e). rw e (back p r))
  where
    there : (s p : Text) → starts_with s p ≡ true → (r : Text) × (s ≡ p ++ r)
    there s [] h = (s, refl)
    there [] (p ∷ ps) h = cc
    there (c ∷ s) (p ∷ ps) h = let (r, e) = there s ps (ground arith) in (r, ground arith)

    back : (p r : Text) → starts_with (p ++ r) p ≡ true
    back [] [] = refl
    back [] (c ∷ r) = refl
    back (c ∷ p) r = ground (arith, back p r)

pub strip_suffix_sound : (s suffix p : Text) → strip_suffix s suffix ≡ some p → s ≡ p ++ suffix
unfolding strip_suffix
strip_suffix_sound [] [] p h = ground arith
strip_suffix_sound [] (x ∷ xs) p h = cc
strip_suffix_sound (c ∷ s) suffix p h = elim (Option-cases (strip_suffix s suffix)) [
  | inl e ↦ ground (arith, text_eq_iff (c ∷ s) suffix)
  | inr (q, e) ↦ ground (arith, text_eq_iff (c ∷ s) suffix, strip_suffix_sound s suffix q e)
]

text_eq-longer : (c : ℕ) (p suffix : Text) → text_eq (c ∷ p ++ suffix) suffix ≡ false
text_eq-longer c p suffix = elim (Bool-cases (text_eq (c ∷ p ++ suffix) suffix)) [
  | inl e ↦ absurd (omega (arith, ap length ((text_eq_iff _ _).0 e), length-append p suffix))
  | inr e ↦ e
]

pub strip_suffix-append : (p suffix : Text) → strip_suffix (p ++ suffix) suffix ≡ some p
unfolding strip_suffix
strip_suffix-append [] [] = refl
strip_suffix-append [] (x ∷ suffix) = rw (text_eq_refl (x ∷ suffix))
strip_suffix-append (c ∷ p) suffix = rw (text_eq-longer c p suffix, strip_suffix-append p suffix)

pub strip_suffix_iff : (s suffix p : Text) → (strip_suffix s suffix ≡ some p) ↔ (s ≡ p ++ suffix)
strip_suffix_iff s suffix p =
    (strip_suffix_sound s suffix p, λ e. rw e (strip_suffix-append p suffix))

pub not-starts_with_longer : (p r : Text) (c : ℕ) → starts_with p (p ++ c ∷ r) ≡ false
unfolding starts_with
not-starts_with_longer [] r c = refl
not-starts_with_longer (x ∷ p) r c = ground (arith, not-starts_with_longer p r c)

test_replace :
    replace (codes "a/{username}/b{username}") (codes "{username}") (codes "é") ≡ codes "a/é/bé"
unfolding replace starts_with
test_replace = refl
