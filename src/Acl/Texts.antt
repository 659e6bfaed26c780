-- ===== src/Acl/Texts.antt =====
-- What the access rules use of `str`: whether a text contains another, and its replacement.
use oximqtt.Base.{
  ℕ, zero, suc, ◌-◌, ◌==◌, Bool, true, false, ◌||◌, Option, none, some, [], ◌∷◌, ◌++◌, length,
  if◌then◌else◌,
}
use oximqtt.Base.Bytes.{Bytes}

-- `strip_prefix`
unfoldable pub strip_prefix : Bytes → Bytes → Option Bytes
strip_prefix [] s = some s
strip_prefix (c ∷ p) [] = none
strip_prefix (c ∷ p) (d ∷ s) = if c == d then strip_prefix p s else none

abbrev pub starts_with : Bytes → Bytes → Bool
starts_with p s = elim (strip_prefix p s) [ none ↦ false | some t ↦ true ]

-- `contains`, of a pattern that is not empty.
unfoldable pub has_text : Bytes → Bytes → Bool
has_text p [] = false
has_text p (c ∷ s) = starts_with p (c ∷ s) || has_text p s

-- `replace`, of a pattern that is not empty; the number counts the bytes of a match that are left.
unfoldable pub replace_loop : Bytes → Bytes → ℕ → Bytes → Bytes
replace_loop p to n [] = []
replace_loop p to (suc n) (c ∷ s) = replace_loop p to n s
replace_loop p to zero (c ∷ s) =
    let rest = replace_loop p to zero s in
    let past = replace_loop p to (length p - 1) s in
    if starts_with p (c ∷ s) then to ++ past else c ∷ rest

-- `replace`
abbrev pub replace : Bytes → Bytes → Bytes → Bytes
replace p to s = replace_loop p to zero s
