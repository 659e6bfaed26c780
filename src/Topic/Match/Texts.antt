-- ===== src/Topic/Match/Texts.antt =====
-- `Topic::matches` of oximqtt/src/topic.rs on parsed topics against `matches_str` on their text.
use oximqtt.Base.{◌≡◌, refl, sym, All, ok, true, [], ◌∷◌, arith}
use oximqtt.Base.Bytes.{Bytes, bytes_eq_iff, bytes_eq_self, starts_with_byte}
use oximqtt.Topic.Print.{IsParsed, from_str_parts}
use oximqtt.Topic.{
  Level, Topic, normal, metadata, blank, single_wildcard, multi_wildcard, is_metadata_str,
  map_to_string, level_to_string, from_str,
}
use oximqtt.Topic.Match.{match_level_str, match_level, at_end, matches_with, matches, matches_str}

-- A blank level of the filter accepts every level of a parsed topic, so `/a` matches `x/a`.
pub matches-blank_leaks :
    (x : Level) (s : Bytes) → matches (blank ∷ normal s ∷ []) (x ∷ normal s ∷ []) ≡ true
unfolding matches matches_with match_level at_end
matches-blank_leaks (normal r) s = ground (arith, bytes_eq_self s)
matches-blank_leaks _ s = ground (arith, bytes_eq_self s)

abbrev pub HasNoBlank : Topic → Type 0
HasNoBlank [] = Unit
HasNoBlank (blank ∷ ls) = ⊥
HasNoBlank (l ∷ ls) = HasNoBlank ls

abbrev pub HasNoWildcard : Topic → Type 0
HasNoWildcard [] = Unit
HasNoWildcard (single_wildcard ∷ ls) = ⊥
HasNoWildcard (multi_wildcard ∷ ls) = ⊥
HasNoWildcard (l ∷ ls) = HasNoWildcard ls

-- One level, by its parsed form and by its text.
match_level-text :
    (l r : Level)
    → IsParsed l
    → IsParsed r
    → HasNoBlank (l ∷ [])
    → HasNoWildcard (r ∷ [])
    → match_level_str (level_to_string r) l ≡ match_level r l
unfolding match_level match_level_str level_to_string is_metadata_str starts_with_byte
match_level-text (normal s) (normal r) hl hr b w = ground arith
match_level-text (normal s) (metadata r) hl hr b w = ground arith
match_level-text (normal s) blank hl hr b w = ground (arith, bytes_eq_iff s [])
match_level-text (metadata s) (normal r) hl hr b w = ground arith
match_level-text (metadata s) (metadata r) hl hr b w = ground arith
match_level-text (metadata s) blank hl hr b w = refl
match_level-text single_wildcard (normal r) hl hr b w = ground arith
match_level-text single_wildcard (metadata r) hl hr b w = ground arith
match_level-text single_wildcard blank hl hr b w = refl
match_level-text multi_wildcard (normal r) hl hr b w = ground arith
match_level-text multi_wildcard (metadata r) hl hr b w = ground arith
match_level-text multi_wildcard blank hl hr b w = refl
match_level-text blank r hl hr b w = absurd b
match_level-text l single_wildcard hl hr b w = absurd w
match_level-text l multi_wildcard hl hr b w = absurd w

at_end-texts : (f : Topic) → matches_with match_level f [] ≡ matches_with match_level_str f []
unfolding matches_with
at_end-texts [] = refl
at_end-texts (l ∷ f) = refl

HasNoBlank-parts : (l : Level) (f : Topic) → HasNoBlank (l ∷ f) → HasNoBlank (l ∷ []) × HasNoBlank f
HasNoBlank-parts blank f h = absurd h
HasNoBlank-parts _ f h = (tt, h)

HasNoWildcard-parts :
    (l : Level) (t : Topic) → HasNoWildcard (l ∷ t) → HasNoWildcard (l ∷ []) × HasNoWildcard t
HasNoWildcard-parts single_wildcard t h = absurd h
HasNoWildcard-parts multi_wildcard t h = absurd h
HasNoWildcard-parts _ t h = (tt, h)

matches_with-cons :
    (l r : Level) (f t : Topic)
    → match_level_str (level_to_string r) l ≡ match_level r l
    → matches_with match_level_str f (map_to_string t) ≡ matches_with match_level f t
    → matches_with match_level_str (l ∷ f) (map_to_string (r ∷ t))
      ≡ matches_with match_level (l ∷ f) (r ∷ t)
unfolding matches_with map_to_string
matches_with-cons single_wildcard r f t e ih = rw (e, ih) refl
matches_with-cons multi_wildcard r f t e ih = e
matches_with-cons _ r f t e ih = rw (e, ih) refl

matches_with-texts :
    (f t : Topic)
    → All IsParsed f
    → All IsParsed t
    → HasNoBlank f
    → HasNoWildcard t
    → matches_with match_level_str f (map_to_string t) ≡ matches_with match_level f t
matches_with-texts f [] pf pt b w = unfold map_to_string in sym (at_end-texts f)
matches_with-texts [] (r ∷ t) pf pt b w = unfold matches_with map_to_string in refl
matches_with-texts (l ∷ f) (r ∷ t) pf pt b w =
    let (b1, b2) = HasNoBlank-parts l f b in
    let (w1, w2) = HasNoWildcard-parts r t w in
    matches_with-cons l r f t (match_level-text l r pf.0 pt.0 b1 w1)
      (matches_with-texts f t pf.1 pt.1 b2 w2)

-- `matches` on a parsed topic name and `matches_str` on its text agree, for a parsed filter that
-- has no blank level.
pub matches-matches_str :
    (a s : Bytes) (f t : Topic)
    → from_str a ≡ ok f
    → from_str s ≡ ok t
    → HasNoBlank f
    → HasNoWildcard t
    → matches f t ≡ matches_str f s
unfolding matches matches_str
matches-matches_str a s f t hf ht b w =
    let (e, pt, _) = from_str_parts s t ht in
    let (_, pf, _) = from_str_parts a f hf in rw (← e) (sym (matches_with-texts f t pf pt b w))
