-- ===== src/Acl/Coverage.antt =====
-- What the subscription test of src/acl/matcher.rs promises about the messages that a subscriber
-- then receives, and how its tests relate.
use hi_mqtt.Prelude.{
  ◌≡◌, ◌∙◌, refl, sym, ap, true, List, [], ◌∷◌, ◌++◌, Text, codes, text_eq, starts_with, arith,
  Bool-cases, Option-cases, inl, inr, ◌⊎◌, none, strip_suffix, text_eq_iff, starts_with_iff,
  split_on, split_on-append, strip_suffix_iff, strip_suffix-append,
}
use mathlib.Core.List.{append-nil, append_assoc}
use hi_mqtt.Acl.Matcher.{Matches, subscribe_allowed, publish_allowed, below}
use hi_mqtt.Acl.Levels.{IsTopicMatch, split, fits, fits-wildcard}

-- A `#` at the end of the pattern is a level of its own.
abbrev pub IsFilter : Text → Type 0
IsFilter pattern =
    (strip_suffix pattern (codes "#") ≡ none)
    ⊎ (pattern ≡ codes "#")
    ⊎ ((q : Text) × (pattern ≡ q ++ codes "/#"))

-- What `subscribe_allowed` has found when it says yes.
subscribe_allowed_cases :
    (pattern sub_filter : Text)
    → IsFilter pattern
    → subscribe_allowed pattern sub_filter ≡ true
    → (pattern ≡ sub_filter)
      ⊎ (pattern ≡ codes "#")
      ⊎ ((q : Text) × (pattern ≡ q ++ codes "/#")
          × ((sub_filter ≡ q) ⊎ ((r : Text) × (sub_filter ≡ q ++ b'/' ∷ r))))
unfolding subscribe_allowed
subscribe_allowed_cases pattern sub_filter k h =
    elim (Option-cases (strip_suffix pattern (codes "/#"))) [
      | inr (q, e) ↦
          let tree = (strip_suffix_iff pattern (codes "/#") q).0 e in
          let under = starts_with_iff sub_filter (q ++ codes "/") in
          elim (Bool-cases (starts_with sub_filter (q ++ codes "/"))) [
            | inl s ↦
                let (r, e') = under.0 s in
                inr (inr (q, tree, inr (r, e' ∙ append_assoc q (codes "/") r)))
            | inr s ↦ elim (Bool-cases (text_eq pattern sub_filter)) [
              | inl same ↦ inl ((text_eq_iff pattern sub_filter).0 same)
              | inr other ↦ inr (inr (q, tree, inl ((text_eq_iff sub_filter q).0 (ground arith))))
            ]
          ]
      | inl e ↦ elim k [
        | inl none_left ↦ ground (arith, text_eq_iff pattern sub_filter)
        | inr (inl all) ↦ inr (inl all)
        | inr (inr (q, tree)) ↦
            cc (ap (λ t. strip_suffix t (codes "/#")) tree, strip_suffix-append q (codes "/#"))
      ]
    ]

fits-hash : (ts : List Text) → fits ts (codes "#" ∷ []) ≡ true
unfolding fits text_eq
fits-hash [] = refl
fits-hash (t ∷ ts) = refl

module _ {matches : Matches} (match : IsTopicMatch matches) where
  matches_wildcard :
      (t q filter : Text) (gs : List Text)
      → split filter ≡ split q ++ gs
      → matches t filter ≡ true
      → matches t (q ++ codes "/#") ≡ true
  unfolding split_on
  matches_wildcard t q filter gs e h =
      rw (match.by_levels, split_on-append b'/' q (codes "#"))
        (ground (
          arith,
          match.by_levels t filter,
          ap (fits (split t)) e,
          fits-wildcard (split t) (split q) gs,
        ))

  matches_all : (t filter : Text) → matches t filter ≡ true → matches t (codes "#") ≡ true
  unfolding split_on fits text_eq
  matches_all t filter h =
      ground (arith, match.by_levels t filter, match.by_levels t (codes "#"), fits-hash (split t))

  -- Under a pattern in which `#` stands only as a last level, a filter that passes the subscription
  -- test receives only topics that the pattern matches, so that a rule to subscribe never shows
  -- more than the same rule to publish reaches.
  pub subscribe_allowed-publish_allowed :
      (pattern sub_filter topic : Text)
      → IsFilter pattern
      → subscribe_allowed pattern sub_filter ≡ true
      → matches topic sub_filter ≡ true
      → publish_allowed matches pattern topic ≡ true
  unfolding publish_allowed
  subscribe_allowed-publish_allowed pattern sub_filter topic k h m =
      elim (subscribe_allowed_cases pattern sub_filter k h) [
        | inl same ↦ rw same m
        | inr (inl all) ↦ rw all (matches_all topic sub_filter m)
        | inr (inr (q, tree, inl same)) ↦
            rw tree (matches_wildcard topic q sub_filter [] (ap split same ∙ sym (append-nil _)) m)
        | inr (inr (q, tree, inr (r, below))) ↦ rw tree (
            matches_wildcard topic q sub_filter (split r)
              (ap split below ∙ split_on-append b'/' q r) m)
      ]
