-- ===== src/Acl/Matcher.antt =====
-- The comparison of topics and filters with patterns, src/acl/matcher.rs. `matches` of the broker
-- library stands as a parameter.
use hi_mqtt.Prelude.{
  Bool, true, false, ◌||◌, Option, none, some, ◌++◌, Text, codes, text_eq, starts_with,
  strip_suffix, ends_with, trim_end_matches, if◌then◌else◌,
}

-- The test behind `strip_suffix("/#")`.
unfoldable pub below : Option Text → Text → Bool → Bool
below none target otherwise = otherwise
below (some prefix) target otherwise =
    starts_with target (prefix ++ codes "/") || text_eq target prefix

unfoldable pub under_prefix : Option Text → Text → Bool
under_prefix none sub_filter = false
under_prefix (some prefix) sub_filter = starts_with sub_filter prefix

unfoldable pub subscribe_allowed : Text → Text → Bool
unfolding below under_prefix
subscribe_allowed acl_pattern sub_filter =
    if text_eq acl_pattern sub_filter
    then true
    else below (strip_suffix acl_pattern (codes "/#")) sub_filter
        (under_prefix (strip_suffix acl_pattern (codes "#")) sub_filter)

-- `protocol::matches(topic, filter)`
abbrev pub Matches : Type 0
Matches = Text → Text → Bool

unfoldable pub publish_allowed : Matches → Text → Text → Bool
publish_allowed matches acl_pattern topic = matches topic acl_pattern

unfoldable pub registered_covers : Text → Text → Bool
unfolding below
registered_covers registered target =
    if text_eq registered target
    then true
    else if ends_with registered (codes "#")
    then starts_with target (trim_end_matches registered b'#')
    else below (strip_suffix registered (codes "/#")) target false
