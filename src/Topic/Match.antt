-- ===== src/Topic/Match.antt =====
-- The `matches!` macro of oximqtt/src/topic.rs, `Topic::matches` and `Topic::matches_str`,
-- against the matching rules of MQTT, section 4.7.
pub mod Rules
pub mod Texts
use oximqtt.Base.{
  ◌≡◌, refl, sym, All, ok, ◌↔◌, Bool, true, false, not, ◌&&◌, List, [], ◌∷◌, arith, if◌then◌else◌,
}
use oximqtt.Base.Bytes.{Bytes, bytes_eq, bytes_eq_iff, bytes_eq_self, starts_with_byte}
use oximqtt.Topic.Print.{IsParsed, split-cons, from_str_parts}
use oximqtt.Topic.Validity.{IsTail, IsWellFormed, is_valid_iff}
use oximqtt.Topic.{
  Level, Topic, normal, metadata, blank, single_wildcard, multi_wildcard, is_metadata,
  is_metadata_str, split, is_valid, map_to_string, level_to_string, from_str,
}

-- `MatchLevel for T: AsRef<str>`
unfoldable pub match_level_str : Bytes → Level → Bool
match_level_str r (normal s) = not (is_metadata_str r) && bytes_eq s r
match_level_str r (metadata s) = is_metadata_str r && bytes_eq s r
match_level_str r blank = bytes_eq r []
match_level_str r single_wildcard = not (is_metadata_str r)
match_level_str r multi_wildcard = not (is_metadata_str r)

-- `MatchLevel for Level`: a blank level of the filter accepts every level.
unfoldable pub match_level : Level → Level → Bool
match_level (normal r) (normal s) = bytes_eq s r
match_level r (normal s) = false
match_level (metadata r) (metadata s) = bytes_eq s r
match_level r (metadata s) = false
match_level r blank = true
match_level r single_wildcard = not (is_metadata r)
match_level r multi_wildcard = not (is_metadata r)

-- The macro's last `match`, on what the loop left of the filter.
unfoldable pub at_end : List Level → Bool
at_end [] = true
at_end (multi_wildcard ∷ ls) = true
at_end (l ∷ ls) = false

module _ {R : Type 0} (fits : R → Level → Bool) where
  -- The macro's loop over the levels of the topic; a `break` goes on to the last `match`.
  unfoldable pub matches_with : List Level → List R → Bool
  matches_with ls [] = at_end ls
  matches_with [] (r ∷ rs) = false
  matches_with (single_wildcard ∷ ls) (r ∷ rs) =
      let rest = matches_with ls rs in if fits r single_wildcard then rest else at_end ls
  matches_with (multi_wildcard ∷ ls) (r ∷ rs) = fits r multi_wildcard
  matches_with (l ∷ ls) (r ∷ rs) = let rest = matches_with ls rs in if fits r l then rest else false

-- `Topic::matches`
unfoldable pub matches : Topic → Topic → Bool
matches f t = matches_with match_level f t

-- `Topic::matches_str`
unfoldable pub matches_str : Topic → Bytes → Bool
matches_str f s = matches_with match_level_str f (split s)
