-- ===== src/Acl/Registered.antt =====
-- What `registered_covers` of src/acl/matcher.rs covers, and how it differs from the subscription
-- test.
use hi_mqtt.Prelude.{
  ◌≡◌, refl, ap, true, false, ◌&&◌, ◌||◌, ◌∷◌, ◌++◌, [], Text, codes, text_eq, starts_with, some,
  arith, Bool-cases, Option-cases, inl, inr, strip_suffix, ends_with, trim_end_matches, text_eq_iff,
  strip_suffix_iff, strip_suffix-append, not-starts_with_longer, text_eq_refl, length-append,
  length,
}
use mathlib.Core.List.{append_assoc}
use hi_mqtt.Acl.Matcher.{subscribe_allowed, registered_covers}

strip_suffix-tree : (q : Text) → strip_suffix (q ++ codes "/#") (codes "#") ≡ some (q ++ codes "/")
strip_suffix-tree q =
    rw (← append_assoc q (codes "/") (codes "#")) (strip_suffix-append (q ++ codes "/") (codes "#"))

not-text_eq-tree : (q : Text) → text_eq (q ++ codes "/#") q ≡ false
not-text_eq-tree q = elim (Bool-cases (text_eq (q ++ codes "/#") q)) [
  | inl e ↦ absurd (omega (arith, ap length ((text_eq_iff _ _).0 e), length-append q (codes "/#")))
  | inr e ↦ e
]

trim_end_matches-tree : (q : Text) → trim_end_matches (q ++ codes "/#") b'#' ≡ q ++ codes "/"
unfolding trim_end_matches
trim_end_matches-tree [] = refl
trim_end_matches-tree (c ∷ []) = ground arith
trim_end_matches-tree (c ∷ d ∷ q) = ground (arith, trim_end_matches-tree (d ∷ q))

-- A registered `q/#` does not cover `q` itself, whatever `q` is, while the subscription test under
-- the same pattern accepts it.
pub registered_covers_parent :
    (q : Text)
    → (registered_covers (q ++ codes "/#") q ≡ false)
      × (subscribe_allowed (q ++ codes "/#") q ≡ true)
unfolding registered_covers subscribe_allowed
registered_covers_parent q = (
  rw (not-text_eq-tree q, strip_suffix-tree q, trim_end_matches-tree q)
      (not-starts_with_longer q [] b'/'),
  rw (
    not-text_eq-tree q,
    strip_suffix-append q (codes "/#"),
    text_eq_refl q,
    not-starts_with_longer q [] b'/',
  ),
)

-- A registered entry covers a target exactly if they are the same, or the entry ends in `#` and the
-- target begins with the entry without its last `#`s: the branch for `/#` is never reached.
pub registered_covers_iff_prefix :
    (registered target : Text)
    → registered_covers registered target ≡ (
        text_eq registered target
        || (ends_with registered (codes "#")
            && starts_with target (trim_end_matches registered b'#')))
unfolding registered_covers
registered_covers_iff_prefix registered target =
    elim (Option-cases (strip_suffix registered (codes "/#"))) [
      | inl e ↦ ground (arith, e)
      | inr (q, e) ↦
          let tree = (strip_suffix_iff registered (codes "/#") q).0 e in
          let hash : strip_suffix registered (codes "#") ≡ some (q ++ codes "/") =
            rw tree (strip_suffix-tree q) in
          ground (arith, hash)
    ]
