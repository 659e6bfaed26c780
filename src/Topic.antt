-- ===== src/Topic.antt =====
-- oximqtt/src/topic.rs: topic levels, topics, their parsing, printing and validity.
-- A `String` or `&str` is its bytes. The errors keep the text that their message quotes.
pub mod Validity
pub mod Print
pub mod Match
mod Tests
use oximqtt.Base.{
  ℕ, suc, ◌-◌, ◌==◌, if◌then◌else◌, Bool, true, false, not, ◌&&◌, Option, none, some, List, [], ◌∷◌,
  ◌++◌, length, Result, ok, err, ◌>>=◌, drop, ◌≡◌, ◌↔◌, arith,
}
use oximqtt.Base.Bytes.{Bytes, bytes_eq, bytes_eq_iff, has_byte, starts_with_byte}
use mathlib.Core.Bool.{◌||◌}

pub data TopicError : Type 0 where
  invalid_topic : Bytes → TopicError
  invalid_level : Bytes → TopicError

pub data Level : Type 0 where
  normal : Bytes → Level
  metadata : Bytes → Level
  blank single_wildcard multi_wildcard : Level

abbrev pub Topic : Type 0
Topic = List Level

-- `s.contains(['+', '#'])`
unfoldable pub has_wildcard : Bytes → Bool
has_wildcard s = has_byte b'+' s || has_byte b'#' s

-- `is_metadata`, of a text
unfoldable pub is_metadata_str : Bytes → Bool
is_metadata_str s = starts_with_byte b'$' s

unfoldable pub new_normal : Bytes → Result TopicError Level
new_normal s =
    if has_wildcard s
    then err (invalid_level s)
    else if is_metadata_str s
    then err (invalid_level s)
    else ok (normal s)

unfoldable pub new_metadata : Bytes → Result TopicError Level
new_metadata s =
    if has_wildcard s
    then err (invalid_level s)
    else if not (is_metadata_str s)
    then err (invalid_level s)
    else ok (metadata s)

unfoldable pub value : Level → Option Bytes
value (normal s) = some s
value (metadata s) = some s
value _ = none

abbrev pub is_metadata : Level → Bool
is_metadata (metadata s) = true
is_metadata _ = false

-- `Level::is_valid`
unfoldable pub level_is_valid : Level → Bool
level_is_valid (normal s) = not (is_metadata_str s) && not (has_wildcard s)
level_is_valid (metadata s) = is_metadata_str s && not (has_wildcard s)
level_is_valid _ = true

-- `Iterator::position`, after `enumerate`: the predicate sees the index.
unfoldable pub position : (ℕ → Level → Bool) → ℕ → List Level → Option ℕ
position p pos [] = none
position p pos (l ∷ ls) = if p pos l then some pos else position p (suc pos) ls

-- The closure of the second search in `Topic::is_valid`; `len` is `self.0.len()`.
abbrev pub misplaced : ℕ → ℕ → Level → Bool
misplaced len pos multi_wildcard = not (pos == len - 1)
misplaced len pos (metadata s) = not (pos == 0)
misplaced len pos _ = false

abbrev pub or_else {ℓ} : {A : Type ℓ} → Option A → Option A → Option A
or_else (some a) o = some a
or_else none o = o

abbrev pub is_none {ℓ} : {A : Type ℓ} → Option A → Bool
is_none none = true
is_none (some a) = false

-- `Topic::is_valid`
unfoldable pub is_valid : Topic → Bool
is_valid t =
    is_none
      (or_else (position (λ _ l. not (level_is_valid l)) 0 t) (position (misplaced (length t)) 0 t))

-- `Level::from_str`
unfoldable pub level_from_str : Bytes → Result TopicError Level
level_from_str s =
    if bytes_eq s (b'+' ∷ [])
    then ok single_wildcard
    else if bytes_eq s (b'#' ∷ [])
    then ok multi_wildcard
    else if bytes_eq s []
    then ok blank
    else if has_wildcard s
    then err (invalid_level s)
    else if is_metadata_str s
    then ok (metadata s)
    else ok (normal s)

abbrev pub cons_head : ℕ → List Bytes → List Bytes
cons_head c [] = (c ∷ []) ∷ []
cons_head c (s ∷ ss) = (c ∷ s) ∷ ss

-- `str::split('/')`: one piece more than there are separators.
unfoldable pub split : Bytes → List Bytes
split [] = [] ∷ []
split (c ∷ s) = let rest = split s in if c == b'/' then [] ∷ rest else cons_head c rest

-- `.map(Level::from_str).collect::<Result<Vec<_>, _>>()`
unfoldable pub collect_levels : List Bytes → Result TopicError (List Level)
collect_levels [] = ok []
collect_levels (s ∷ ss) = do l ← level_from_str s; ls ← collect_levels ss; ok (l ∷ ls)

-- `Topic::from_str`
unfoldable pub from_str : Bytes → Result TopicError Topic
from_str s = do t ← collect_levels (split s); if is_valid t then ok t else err (invalid_topic s)

-- `Display for Level`
unfoldable pub level_to_string : Level → Bytes
level_to_string (normal s) = s
level_to_string (metadata s) = s
level_to_string blank = []
level_to_string single_wildcard = b'+' ∷ []
level_to_string multi_wildcard = b'#' ∷ []

-- The loop of `Display for Topic` after the first level, each level behind its separator.
unfoldable pub write_rest : List Level → Bytes
write_rest [] = []
write_rest (l ∷ ls) = b'/' ∷ (level_to_string l ++ write_rest ls)

-- `Display for Topic`
unfoldable pub to_string : Topic → Bytes
to_string [] = []
to_string (l ∷ ls) = level_to_string l ++ write_rest ls

-- `slice::join("/")`
unfoldable pub join : List Bytes → Bytes
join [] = []
join (s ∷ []) = s
join (s ∷ r ∷ ss) = s ++ (b'/' ∷ join (r ∷ ss))

unfoldable pub map_to_string : List Level → List Bytes
map_to_string [] = []
map_to_string (l ∷ ls) = level_to_string l ∷ map_to_string ls

-- `Topic::to_string_skip`
unfoldable pub to_string_skip : ℕ → Topic → Bytes
to_string_skip skip t = join (map_to_string (drop skip t))

-- `PartialEq for Level`
unfoldable pub level_eq : Level → Level → Bool
level_eq (normal s) (normal t) = bytes_eq s t
level_eq (metadata s) (metadata t) = bytes_eq s t
level_eq blank blank = true
level_eq single_wildcard single_wildcard = true
level_eq multi_wildcard multi_wildcard = true
level_eq _ _ = false

pub level_eq_iff : (a b : Level) → (level_eq a b ≡ true) ↔ (a ≡ b)
unfolding level_eq
level_eq_iff (normal s) (normal t) = ground (arith, bytes_eq_iff s t)
level_eq_iff (metadata s) (metadata t) = ground (arith, bytes_eq_iff s t)
level_eq_iff (normal s) _ = ground arith
level_eq_iff (metadata s) _ = ground arith
level_eq_iff blank _ = ground arith
level_eq_iff single_wildcard _ = ground arith
level_eq_iff multi_wildcard _ = ground arith
