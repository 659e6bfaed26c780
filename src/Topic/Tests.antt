-- ===== src/Topic/Tests.antt =====
-- Runs of the functions of oximqtt/src/topic.rs, and the theorems at concrete texts.
use oximqtt.Base.{false, ◌≡◌, refl, ◌↔◌, true, [], ◌∷◌, ok, err}
use oximqtt.Base.Bytes.{codes, bytes_eq, has_byte, starts_with_byte}
use oximqtt.Topic.{
  Topic, normal, single_wildcard, multi_wildcard, invalid_level, invalid_topic, has_wildcard,
  is_metadata_str, level_is_valid, position, is_valid, level_from_str, split, collect_levels,
  from_str, level_to_string, write_rest, to_string, join, map_to_string, to_string_skip,
}
use oximqtt.Topic.Validity.{IsWellFormed, is_valid_iff}
use oximqtt.Topic.Print.{to_string-from_str, from_str-to_string}
use oximqtt.Topic.Match.{match_level_str, match_level, at_end, matches_with, matches, matches_str}
use oximqtt.Topic.Match.Rules.{Covers, matches_str_iff, matches_str-single_leaks}

parser : Unit {0}
unfolding bytes_eq has_byte starts_with_byte has_wildcard is_metadata_str level_is_valid position
    is_valid level_from_str split collect_levels from_str level_to_string write_rest to_string join
    map_to_string to_string_skip match_level_str match_level at_end matches_with matches matches_str
parser = tt

-- sport/+/player1/#
abbrev sport : Topic
sport = normal (codes "sport") ∷ single_wildcard ∷ normal (codes "player1") ∷ multi_wildcard ∷ []

parse_sport : from_str (codes "sport/+/player1/#") ≡ ok sport
unfolding parser
parse_sport = refl

parse_inner_hash : from_str (codes "a/#/b") ≡ err (invalid_topic (codes "a/#/b"))
unfolding parser
parse_inner_hash = refl

parse_bad_level : from_str (codes "a/b+") ≡ err (invalid_level (codes "b+"))
unfolding parser
parse_bad_level = refl

skip_two : to_string_skip 2 sport ≡ codes "player1/#"
unfolding parser
skip_two = refl

match_sport : matches_str sport (codes "sport/tennis/player1/stats") ≡ true
unfolding parser
match_sport = refl

match_parent : matches_str sport (codes "sport/tennis/player1") ≡ true
unfolding parser
match_parent = refl

-- By the rules of MQTT `a/#` covers `a/$x`, and `matches_str` does not match it.
deep_metadata :
    (matches_str (normal (codes "a") ∷ multi_wildcard ∷ []) (codes "a/$x") ≡ false)
    × Covers (normal (codes "a") ∷ multi_wildcard ∷ []) (split (codes "a/$x"))
unfolding parser
deep_metadata = (refl, (tt, (refl, tt)))

sport-is_valid : is_valid sport ≡ true
unfolding parser
sport-is_valid = refl

is_valid_iff_example : (is_valid sport ≡ true) ↔ IsWellFormed sport
is_valid_iff_example = is_valid_iff sport

to_string-from_str_example : to_string sport ≡ codes "sport/+/player1/#"
to_string-from_str_example = to_string-from_str (codes "sport/+/player1/#") sport parse_sport

from_str-to_string_example : from_str (to_string sport) ≡ ok sport
unfolding parser
from_str-to_string_example =
    from_str-to_string sport (λ e. cc)
      (((refl, refl, refl), refl), ((tt, refl), (((refl, refl, refl), refl), ((tt, refl), tt))))
      sport-is_valid

matches_str_iff_example :
    (matches_str sport (codes "sport/x") ≡ true) ↔ Covers sport (split (codes "sport/x"))
unfolding parser
matches_str_iff_example = matches_str_iff sport (codes "sport/x") sport-is_valid (refl, tt)

matches_str-single_leaks_example :
    (matches_str (single_wildcard ∷ []) (codes "$SYS/brokers") ≡ true)
    × (¬ Covers (single_wildcard ∷ []) (split (codes "$SYS/brokers")))
unfolding parser
matches_str-single_leaks_example = matches_str-single_leaks (codes "$SYS/brokers") refl
