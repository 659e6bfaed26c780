-- ===== src/Topic/Match/Rules.antt =====
-- `Topic::matches_str` of oximqtt/src/topic.rs against the matching rules of MQTT, section 4.7.
use oximqtt.Base.{◌≡◌, refl, ◌↔◌, true, false, List, [], ◌∷◌, arith}
use oximqtt.Base.Bytes.{Bytes, bytes_eq_iff, starts_with_byte}
use oximqtt.Topic.Print.{split-cons}
use oximqtt.Topic.Validity.{IsTail, IsWellFormed, is_valid_iff}
use oximqtt.Topic.{
  Level, Topic, normal, metadata, blank, single_wildcard, multi_wildcard, is_metadata_str, split,
  is_valid,
}
use oximqtt.Topic.Match.{match_level_str, at_end, matches_with, matches_str}

-- What a filter level requires of the text of one topic level.
abbrev pub Accepts : Level → Bytes → Type 0
Accepts (normal s) r = s ≡ r
Accepts (metadata s) r = s ≡ r
Accepts blank r = r ≡ []
Accepts _ r = Unit

-- Section 4.7.1 of MQTT: `+` takes one level, a last `#` takes the parent level and whatever follows
-- it.
abbrev pub CoversLevels : Topic → List Bytes → Type 0
CoversLevels [] [] = Unit
CoversLevels [] (r ∷ rs) = ⊥
CoversLevels (multi_wildcard ∷ ls) [] = Unit
CoversLevels (l ∷ ls) [] = ⊥
CoversLevels (multi_wildcard ∷ ls) (r ∷ rs) = Unit
CoversLevels (l ∷ ls) (r ∷ rs) = Accepts l r × CoversLevels ls rs

-- Section 4.7.2 of MQTT: a filter that begins with a wildcard takes no topic that begins with `$`.
abbrev pub IsShown : Topic → List Bytes → Type 0
IsShown (single_wildcard ∷ ls) (r ∷ rs) = is_metadata_str r ≡ false
IsShown (multi_wildcard ∷ ls) (r ∷ rs) = is_metadata_str r ≡ false
IsShown _ _ = Unit

-- The rules of MQTT, section 4.7.
abbrev pub Covers : Topic → List Bytes → Type 0
Covers f rs = IsShown f rs × CoversLevels f rs

-- No wildcard of the filter meets a level that begins with `$`.
abbrev pub ShieldedTail : Topic → List Bytes → Type 0
ShieldedTail (single_wildcard ∷ ls) (r ∷ rs) = (is_metadata_str r ≡ false) × ShieldedTail ls rs
ShieldedTail (multi_wildcard ∷ ls) (r ∷ rs) = is_metadata_str r ≡ false
ShieldedTail (l ∷ ls) (r ∷ rs) = ShieldedTail ls rs
ShieldedTail _ _ = Unit

-- So it is, but for a filter that is `#` alone, which may meet any level.
abbrev pub Shielded : Topic → List Bytes → Type 0
Shielded (multi_wildcard ∷ ls) rs = Unit
Shielded f rs = ShieldedTail f rs

matches_with_complete :
    (f : Topic) (rs : List Bytes)
    → IsTail f
    → ShieldedTail f rs
    → CoversLevels f rs
    → matches_with match_level_str f rs ≡ true
unfolding matches_with at_end match_level_str
matches_with_complete [] [] w d h = refl
matches_with_complete [] (r ∷ rs) w d h = absurd h
matches_with_complete (normal s ∷ ls) [] w d h = absurd h
matches_with_complete (normal s ∷ ls) (r ∷ rs) w d h =
    ground (arith, matches_with_complete ls rs, bytes_eq_iff s r)
matches_with_complete (metadata s ∷ ls) rs w d h = absurd w
matches_with_complete (blank ∷ ls) [] w d h = absurd h
matches_with_complete (blank ∷ ls) (r ∷ rs) w d h =
    ground (arith, matches_with_complete ls rs, bytes_eq_iff r [])
matches_with_complete (single_wildcard ∷ ls) [] w d h = absurd h
matches_with_complete (single_wildcard ∷ ls) (r ∷ rs) w d h =
    ground (arith, matches_with_complete ls rs)
matches_with_complete (multi_wildcard ∷ ls) [] w d h = refl
matches_with_complete (multi_wildcard ∷ ls) (r ∷ rs) w d h = ground arith

matches_with_sound :
    (f : Topic) (rs : List Bytes)
    → IsTail f
    → ShieldedTail f rs
    → matches_with match_level_str f rs ≡ true
    → CoversLevels f rs
unfolding matches_with at_end match_level_str
matches_with_sound [] [] w d h = tt
matches_with_sound [] (r ∷ rs) w d h = cc
matches_with_sound (normal s ∷ ls) [] w d h = cc
matches_with_sound (normal s ∷ ls) (r ∷ rs) w d h =
    ground (arith, matches_with_sound ls rs, bytes_eq_iff s r)
matches_with_sound (metadata s ∷ ls) rs w d h = absurd w
matches_with_sound (blank ∷ ls) [] w d h = cc
matches_with_sound (blank ∷ ls) (r ∷ rs) w d h =
    ground (arith, matches_with_sound ls rs, bytes_eq_iff r [])
matches_with_sound (single_wildcard ∷ ls) [] w d h = cc
matches_with_sound (single_wildcard ∷ ls) (r ∷ rs) w d h = ground (arith, matches_with_sound ls rs)
matches_with_sound (multi_wildcard ∷ ls) [] w d h = tt
matches_with_sound (multi_wildcard ∷ ls) (r ∷ rs) w d h = ground arith

complete_of_IsWellFormed :
    (f : Topic) (rs : List Bytes)
    → IsWellFormed f
    → Shielded f rs
    → Covers f rs
    → matches_with match_level_str f rs ≡ true
unfolding matches_with match_level_str at_end
complete_of_IsWellFormed (metadata s ∷ ls) [] w d h = absurd h.1
complete_of_IsWellFormed (metadata s ∷ ls) (r ∷ rs) w d h =
    ground (arith, matches_with_complete ls rs, bytes_eq_iff s r)
complete_of_IsWellFormed [] rs w d h = matches_with_complete [] rs w tt h.1
complete_of_IsWellFormed (normal s ∷ ls) rs w d h = matches_with_complete (normal s ∷ ls) rs w d h.1
complete_of_IsWellFormed (blank ∷ ls) rs w d h = matches_with_complete (blank ∷ ls) rs w d h.1
complete_of_IsWellFormed (single_wildcard ∷ ls) rs w d h =
    matches_with_complete (single_wildcard ∷ ls) rs w d h.1
complete_of_IsWellFormed (multi_wildcard ∷ ls) [] w d h = refl
complete_of_IsWellFormed (multi_wildcard ∷ ls) (r ∷ rs) w d h = ground arith

sound_of_IsWellFormed :
    (f : Topic) (rs : List Bytes)
    → IsWellFormed f
    → Shielded f rs
    → matches_with match_level_str f rs ≡ true
    → Covers f rs
unfolding matches_with match_level_str at_end
sound_of_IsWellFormed (metadata s ∷ ls) [] w d h = cc
sound_of_IsWellFormed (metadata s ∷ ls) (r ∷ rs) w d h =
    ground (arith, matches_with_sound ls rs, bytes_eq_iff s r)
sound_of_IsWellFormed [] rs w d h = (tt, matches_with_sound [] rs w tt h)
sound_of_IsWellFormed (normal s ∷ ls) rs w d h = (tt, matches_with_sound (normal s ∷ ls) rs w d h)
sound_of_IsWellFormed (blank ∷ ls) rs w d h = (tt, matches_with_sound (blank ∷ ls) rs w d h)
sound_of_IsWellFormed (single_wildcard ∷ ls) [] w d h = cc
sound_of_IsWellFormed (single_wildcard ∷ ls) (r ∷ rs) w d h =
    (d.0, matches_with_sound (single_wildcard ∷ ls) (r ∷ rs) w d h)
sound_of_IsWellFormed (multi_wildcard ∷ ls) [] w d h = (tt, tt)
sound_of_IsWellFormed (multi_wildcard ∷ ls) (r ∷ rs) w d h = (ground arith, tt)

-- Where no wildcard of a valid filter meets a level that begins with `$`, or the filter is `#` alone,
-- the filter matches exactly the topics that it covers by the rules of MQTT, section 4.7, by which
-- only a topic that itself begins with `$` is hidden, and from a leading wildcard.
pub matches_str_iff :
    (f : Topic) (s : Bytes)
    → is_valid f ≡ true
    → Shielded f (split s)
    → (matches_str f s ≡ true) ↔ Covers f (split s)
unfolding matches_str
matches_str_iff f s v d = (
  sound_of_IsWellFormed f (split s) ((is_valid_iff f).0 v) d,
  complete_of_IsWellFormed f (split s) ((is_valid_iff f).0 v) d,
)

-- The `break` leaks: the filter `+` matches every topic that begins with `$`, whatever its depth,
-- and by the rules it covers none of them.
pub matches_str-single_leaks :
    (s : Bytes)
    → is_metadata_str s ≡ true
    → (matches_str (single_wildcard ∷ []) s ≡ true) × (¬ Covers (single_wildcard ∷ []) (split s))
unfolding matches_str matches_with at_end match_level_str is_metadata_str starts_with_byte
matches_str-single_leaks [] h = cc
matches_str-single_leaks (c ∷ s) h =
    let (r, rs, e) = split-cons c s (ground arith) in rw e (ground arith, λ k. ground arith)
