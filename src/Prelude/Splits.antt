-- ===== src/Prelude/Splits.antt =====
-- The splitting operations of Rust's `str` that the program calls.
use Prim.Native.Nat.{ℕ}
use mathlib.Core.Path.{◌≡◌, refl}
use mathlib.Core.Logic.{inl, inr}
use mathlib.Core.Bool.{Bool, ◌&&◌, ◌||◌}
use mathlib.Core.Option.{Option, none, some}
use mathlib.Core.List.{List, [], ◌∷◌, ◌++◌}
use native.Mathlib.Omega.{arith}
use hi_mqtt.Prelude.Tests.{leb, ◌==◌, if◌then◌else◌, Bool-cases}
use hi_mqtt.Prelude.Lists.{is_empty}
use hi_mqtt.Prelude.Texts.{Text, codes, strip_suffix, text_eq}

extend : ℕ → List Text → List Text
extend c [] = (c ∷ []) ∷ []
extend c (part ∷ parts) = (c ∷ part) ∷ parts

-- `s.split(separator)`
unfoldable pub split_on : ℕ → Text → List Text
unfolding extend
split_on separator [] = [] ∷ []
split_on separator (c ∷ s) =
    let rest = split_on separator s in if c == separator then [] ∷ rest else extend c rest

pub split_on-cons :
    (d : ℕ) (s : Text) → (part : Text) × (parts : List Text) × (split_on d s ≡ part ∷ parts)
unfolding split_on
split_on-cons d [] = ([], [], refl)
split_on-cons d (c ∷ s) =
    let (part, parts, e) = split_on-cons d s in
    elim (Bool-cases (c == d)) [
      | inl h ↦ ([], split_on d s, rw h)
      | inr h ↦ (c ∷ part, parts, rw (h, e))
    ]

pub split_on-append : (d : ℕ) (p r : Text) → split_on d (p ++ d ∷ r) ≡ split_on d p ++ split_on d r
unfolding split_on
split_on-append d [] r = ground arith
split_on-append d (c ∷ p) r =
    let (part, parts, e) = split_on-cons d p in
    elim (Bool-cases (c == d)) [
      | inl h ↦ rw (h, split_on-append d p r)
      | inr h ↦ rw (h, split_on-append d p r, e)
    ]

-- `s.split_once(separator)`
unfoldable pub split_once : ℕ → Text → Option (Text × Text)
split_once separator [] = none
split_once separator (c ∷ s) =
    let rest : Option (Text × Text) = elim (split_once separator s) [
      | none ↦ none
      | some (before, after) ↦ some (c ∷ before, after)
    ] in
    if c == separator then some ([], s) else rest

-- `s.strip_prefix(prefix)`
unfoldable pub strip_prefix : Text → Text → Option Text
strip_prefix s [] = some s
strip_prefix [] (p ∷ ps) = none
strip_prefix (c ∷ s) (p ∷ ps) = if c == p then strip_prefix s ps else none

-- `char::is_whitespace`
abbrev pub is_whitespace : ℕ → Bool
is_whitespace c =
    (leb 9 c && leb c 13)
    || c == 32
    || c == 133
    || c == 160
    || c == 5760
    || (leb 8192 c && leb c 8202)
    || c == 8232
    || c == 8233
    || c == 8239
    || c == 8287
    || c == 12288

trim_start : Text → Text
trim_start [] = []
trim_start (c ∷ s) = if is_whitespace c then trim_start s else c ∷ s

trim_end : Text → Text
trim_end [] = []
trim_end (c ∷ s) =
    let rest = trim_end s in if is_whitespace c && is_empty rest then [] else c ∷ rest

-- `s.trim()`
unfoldable pub trim : Text → Text
unfolding trim_start trim_end
trim s = trim_end (trim_start s)

without_cr : Option Text → Text → Text
without_cr none line = line
without_cr (some shorter) line = shorter

line_parts : List Text → List Text
line_parts [] = []
line_parts (last ∷ []) = if is_empty last then [] else last ∷ []
line_parts (line ∷ next ∷ lines) =
    without_cr (strip_suffix line (13 ∷ [])) line ∷ line_parts (next ∷ lines)

-- `s.lines()`
unfoldable pub lines : Text → List Text
unfolding line_parts without_cr
lines s = line_parts (split_on 10 s)

flush : Text → List Text → List Text
flush [] words = words
flush (c ∷ word) words = (c ∷ word) ∷ words

-- The word that a text begins with, which may be empty, and the words after it.
word_and_rest : Text → Text × List Text
unfolding flush
word_and_rest [] = ([], [])
word_and_rest (c ∷ s) =
    let (word, words) = word_and_rest s in
    if is_whitespace c then ([], flush word words) else (c ∷ word, words)

-- `s.split_whitespace()`
unfoldable pub split_whitespace : Text → List Text
unfolding word_and_rest
split_whitespace s = flush (word_and_rest s).0 (word_and_rest s).1

test_words : split_whitespace (codes " ab  c d ") ≡ codes "ab" ∷ codes "c" ∷ codes "d" ∷ []
unfolding split_whitespace
test_words = refl

test_lines :
    lines (97 ∷ 13 ∷ 10 ∷ 98 ∷ 10 ∷ 10 ∷ 99 ∷ 10 ∷ []) ≡ codes "a" ∷ codes "b" ∷ [] ∷ codes "c" ∷ []
unfolding lines split_on strip_suffix text_eq
test_lines = refl
