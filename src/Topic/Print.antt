-- ===== src/Topic/Print.antt =====
-- Parsing and printing of oximqtt/src/topic.rs, one after the other.
use oximqtt.Base.{
  ◌≡◌, refl, sym, ap, ◌∙◌, true, false, List, [], ◌∷◌, ◌++◌, arith, if◌then◌else◌, ◌==◌, ℕ, ok, All,
  Bool-cases, inl, inr, ◌≢◌, drop, append-nil, Result-cases, ==_iff, ap₂,
}
use oximqtt.Base.Bytes.{Bytes, bytes_eq, bytes_eq_iff, has_byte, starts_with_byte}
use oximqtt.Topic.{
  Level, Topic, normal, metadata, blank, single_wildcard, multi_wildcard, has_wildcard,
  is_metadata_str, level_from_str, cons_head, split, collect_levels, from_str, level_to_string,
  write_rest, to_string, join, map_to_string, to_string_skip, is_valid,
}

-- The levels that `Level::from_str` builds.
abbrev pub IsParsed : Level → Type 0
IsParsed (normal s) =
    (is_metadata_str s ≡ false) × (has_wildcard s ≡ false) × (bytes_eq s [] ≡ false)
IsParsed (metadata s) = (is_metadata_str s ≡ true) × (has_wildcard s ≡ false)
IsParsed _ = Unit

-- A piece between separators begins with the byte that begins the text.
pub split-cons :
    (c : ℕ) (s : Bytes)
    → (c == b'/') ≡ false
    → (r : Bytes) × (rs : List Bytes) × (split (c ∷ s) ≡ (c ∷ r) ∷ rs)
unfolding split
split-cons c s h =
    elim (split s)
      as (λ x.
        (r : Bytes) × (rs : List Bytes) × ((if c == b'/' then [] ∷ x else cons_head c x)
          ≡ (c ∷ r) ∷ rs)) [ [] ↦ ([], [], rw h) | p ∷ ps ↦ (p, ps, rw h) ]

split-head : (s : Bytes) → (r : Bytes) × (rs : List Bytes) × (split s ≡ r ∷ rs)
unfolding split
split-head [] = ([], [], refl)
split-head (c ∷ s) = elim (Bool-cases (c == b'/')) [
  | inl h ↦ ([], split s, rw h)
  | inr h ↦ let (r, rs, q) = split-cons c s h in (c ∷ r, rs, q)
]

join-cons_head : (c : ℕ) (ss : List Bytes) → join (cons_head c ss) ≡ c ∷ join ss
unfolding join
join-cons_head c [] = refl
join-cons_head c (s ∷ []) = refl
join-cons_head c (s ∷ r ∷ ss) = refl

join-split : (s : Bytes) → join (split s) ≡ s
unfolding join split
join-split [] = refl
join-split (c ∷ s) = elim (Bool-cases (c == b'/')) [
  | inl h ↦
      let (r, rs, q) = split-head s in
      rw (h, q) (ap₂ ◌∷◌ (sym ((==_iff c b'/').0 h)) (rw q at (join-split s)))
  | inr h ↦ rw (h, join-cons_head) (ap (◌∷◌ c) (join-split s))
]

level_from_str_lem :
    (s : Bytes) (l : Level) → level_from_str s ≡ ok l → (level_to_string l ≡ s) × IsParsed l
unfolding level_from_str level_to_string
level_from_str_lem s l h =
    ground (arith, bytes_eq_iff s (b'+' ∷ []), bytes_eq_iff s (b'#' ∷ []), bytes_eq_iff s [])

collect_levels_lem :
    (ss : List Bytes) (t : Topic)
    → collect_levels ss ≡ ok t
    → (map_to_string t ≡ ss) × All IsParsed t
unfolding collect_levels map_to_string
collect_levels_lem [] t h = ground arith
collect_levels_lem (s ∷ ss) t h = elim (Result-cases (level_from_str s)) [
  | inr (e, q) ↦ cc (q, h)
  | inl (l, q) ↦ elim (Result-cases (collect_levels ss)) [
    | inr (e, r) ↦ ground (arith, q, r)
    | inl (ls, r) ↦ ground (arith, level_from_str_lem s l q, collect_levels_lem ss ls r)
  ]
]

join-map_to_string :
    (l : Level) (ls : List Level)
    → join (map_to_string (l ∷ ls)) ≡ level_to_string l ++ write_rest ls
unfolding join map_to_string write_rest
join-map_to_string l [] = sym (append-nil _)
join-map_to_string l (r ∷ ls) = rw (← join-map_to_string r ls) refl

to_string-join : (t : Topic) → to_string t ≡ join (map_to_string t)
unfolding to_string
to_string-join [] = unfold join map_to_string in refl
to_string-join (l ∷ ls) = sym (join-map_to_string l ls)

-- What `from_str` builds: the levels carry the pieces of the text, and the topic is valid.
pub from_str_parts :
    (s : Bytes) (t : Topic)
    → from_str s ≡ ok t
    → (map_to_string t ≡ split s) × All IsParsed t × (is_valid t ≡ true)
unfolding from_str
from_str_parts s t h = elim (Result-cases (collect_levels (split s))) [
  | inr (e, q) ↦ ground (arith, q)
  | inl (u, q) ↦ ground (arith, collect_levels_lem (split s) u q)
]

-- Printing a parsed topic gives back the text that was parsed.
pub to_string-from_str : (s : Bytes) (t : Topic) → from_str s ≡ ok t → to_string t ≡ s
to_string-from_str s t h = to_string-join t ∙ ap join (from_str_parts s t h).0 ∙ join-split s

-- `to_string_skip` prints what `Display` prints of the levels that are left.
pub to_string_skip-to_string : (n : ℕ) (t : Topic) → to_string_skip n t ≡ to_string (drop n t)
unfolding to_string_skip
to_string_skip-to_string n t = sym (to_string-join (drop n t))

-- A level that a parsed topic can hold: its text has no separator.
abbrev pub IsWritable : Level → Type 0
IsWritable l = IsParsed l × (has_byte b'/' (level_to_string l) ≡ false)

split_one : (a : Bytes) → has_byte b'/' a ≡ false → split a ≡ a ∷ []
unfolding split has_byte
split_one [] h = refl
split_one (c ∷ a) h = ground (arith, split_one a)

split-append_sep : (a b : Bytes) → has_byte b'/' a ≡ false → split (a ++ (b'/' ∷ b)) ≡ a ∷ split b
unfolding split has_byte
split-append_sep [] b h = refl
split-append_sep (c ∷ a) b h = ground (arith, split-append_sep a b)

level_from_str-to_string : (l : Level) → IsParsed l → level_from_str (level_to_string l) ≡ ok l
unfolding level_from_str level_to_string has_wildcard has_byte is_metadata_str starts_with_byte
level_from_str-to_string (normal s) h =
    ground (arith, bytes_eq_iff s (b'+' ∷ []), bytes_eq_iff s (b'#' ∷ []), bytes_eq_iff s [])
level_from_str-to_string (metadata s) h =
    ground (arith, bytes_eq_iff s (b'+' ∷ []), bytes_eq_iff s (b'#' ∷ []), bytes_eq_iff s [])
level_from_str-to_string blank h = unfold bytes_eq in refl
level_from_str-to_string single_wildcard h = unfold bytes_eq in refl
level_from_str-to_string multi_wildcard h = unfold bytes_eq in refl

collect_levels-write :
    (l : Level) (ls : List Level)
    → All IsWritable (l ∷ ls)
    → collect_levels (split (level_to_string l ++ write_rest ls)) ≡ ok (l ∷ ls)
unfolding write_rest collect_levels
collect_levels-write l [] ((p, h), t) =
    rw (append-nil, split_one (level_to_string l) h, level_from_str-to_string l p) refl
collect_levels-write l (r ∷ ls) ((p, h), t) =
    rw
      (
        split-append_sep (level_to_string l) (level_to_string r ++ write_rest ls) h,
        level_from_str-to_string l p,
        collect_levels-write r ls t,
      )
      refl

-- Parsing the text of a valid topic gives back the topic, where the topic has a level and its
-- levels are ones that a text can spell.
pub from_str-to_string :
    (t : Topic) → t ≢ [] → All IsWritable t → is_valid t ≡ true → from_str (to_string t) ≡ ok t
unfolding from_str to_string
from_str-to_string [] n w v = absurd (n refl)
from_str-to_string (l ∷ ls) n w v = rw (collect_levels-write l ls w, v) refl
