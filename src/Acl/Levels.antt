-- ===== src/Acl/Levels.antt =====
-- How the broker library documents its match of a topic against a filter (MQTT 4.7): by levels,
-- the parts between slashes. `IsTopicMatch` is what the access control relies on.
use hi_mqtt.Prelude.{
  ◌≡◌, refl, Bool, true, false, not, ◌&&◌, ◌||◌, List, [], ◌∷◌, ◌++◌, Text, codes, text_eq,
  split_on, starts_with, arith,
}
use hi_mqtt.Acl.Matcher.{Matches}

-- `s.split('/')`
abbrev pub split : Text → List Text
split s = split_on b'/' s

-- A filter's levels match a topic's: `+` stands for one level and `#` for all that are left.
unfoldable pub fits : List Text → List Text → Bool
fits [] [] = true
fits (t ∷ ts) [] = false
fits [] (f ∷ fs) = text_eq f (codes "#")
fits (t ∷ ts) (f ∷ fs) =
    text_eq f (codes "#")
    || (not (text_eq t (codes "#")) && ((text_eq f (codes "+") || text_eq f t) && fits ts fs))

-- No wildcard matches a topic that begins with `$`.
pub record IsTopicMatch (matches : Matches) : Type 0 where
  pub by_levels :
      (topic filter : Text)
      → matches topic filter
        ≡ not (starts_with topic (codes "$")) && fits (split topic) (split filter)

-- A function that has the documented behaviour.
unfoldable pub level_match : Matches
unfolding split_on fits
level_match topic filter = not (starts_with topic (codes "$")) && fits (split topic) (split filter)

pub level_match-IsTopicMatch : IsTopicMatch level_match
unfolding level_match
level_match-IsTopicMatch = record { by_levels = λ topic filter. refl }

pub fits-wildcard :
    (ts fs gs : List Text) → fits ts (fs ++ gs) ≡ true → fits ts (fs ++ codes "#" ∷ []) ≡ true
unfolding fits text_eq
fits-wildcard [] [] gs h = refl
fits-wildcard (t ∷ ts) [] gs h = refl
fits-wildcard [] (f ∷ fs) gs h = h
fits-wildcard (t ∷ ts) (f ∷ fs) gs h = ground (arith, fits-wildcard ts fs gs)
