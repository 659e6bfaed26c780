-- ===== src/Topic/Validity.antt =====
-- `Topic::is_valid` of oximqtt/src/topic.rs against the shape that it stands for.
use oximqtt.Base.{
  ℕ, suc, ◌+◌, ◌<◌, ◌≡◌, refl, ◌↔◌, Bool, true, false, not, List, [], ◌∷◌, length, arith,
}
use oximqtt.Topic.{
  Level, Topic, normal, metadata, blank, single_wildcard, multi_wildcard, has_wildcard,
  is_metadata_str, level_is_valid, position, misplaced, is_none, is_valid,
}

-- The levels after the first: `#` ends the topic, and no level begins with `$`.
abbrev pub IsTail : List Level → Type 0
IsTail [] = Unit
IsTail (normal s ∷ ls) = (is_metadata_str s ≡ false) × (has_wildcard s ≡ false) × IsTail ls
IsTail (metadata s ∷ ls) = ⊥
IsTail (blank ∷ ls) = IsTail ls
IsTail (single_wildcard ∷ ls) = IsTail ls
IsTail (multi_wildcard ∷ ls) = ls ≡ []

-- A topic of the MQTT specification, sections 4.7.1 and 4.7.2.
abbrev pub IsWellFormed : Topic → Type 0
IsWellFormed [] = Unit
IsWellFormed (metadata s ∷ ls) = (is_metadata_str s ≡ true) × (has_wildcard s ≡ false) × IsTail ls
IsWellFormed (l ∷ ls) = IsTail (l ∷ ls)

abbrev passes_levels : ℕ → List Level → Bool
passes_levels pos ls = is_none (position (λ _ l. not (level_is_valid l)) pos ls)

abbrev passes_places : ℕ → ℕ → List Level → Bool
passes_places len pos ls = is_none (position (misplaced len) pos ls)

IsTail-of_passes :
    (pos len : ℕ) (ls : List Level)
    → 0 < pos
    → len ≡ pos + length ls
    → passes_levels pos ls ≡ true
    → passes_places len pos ls ≡ true
    → IsTail ls
unfolding position level_is_valid
IsTail-of_passes pos len [] hp hl a b = tt
IsTail-of_passes pos len (normal s ∷ ls) hp hl a b =
    ground (arith, IsTail-of_passes (suc pos) len ls)
IsTail-of_passes pos len (metadata s ∷ ls) hp hl a b = ground arith
IsTail-of_passes pos len (blank ∷ ls) hp hl a b =
    IsTail-of_passes (suc pos) len ls (omega arith) (omega arith) a b
IsTail-of_passes pos len (single_wildcard ∷ ls) hp hl a b =
    IsTail-of_passes (suc pos) len ls (omega arith) (omega arith) a b
IsTail-of_passes pos len (multi_wildcard ∷ []) hp hl a b = refl
IsTail-of_passes pos len (multi_wildcard ∷ (l ∷ ls)) hp hl a b = absurd (ground arith)

passes_of_IsTail :
    (pos len : ℕ) (ls : List Level)
    → 0 < pos
    → len ≡ pos + length ls
    → IsTail ls
    → (passes_levels pos ls ≡ true) × (passes_places len pos ls ≡ true)
unfolding position level_is_valid
passes_of_IsTail pos len [] hp hl h = (refl, refl)
passes_of_IsTail pos len (normal s ∷ ls) hp hl h = ground (arith, passes_of_IsTail (suc pos) len ls)
passes_of_IsTail pos len (metadata s ∷ ls) hp hl h = absurd h
passes_of_IsTail pos len (blank ∷ ls) hp hl h =
    passes_of_IsTail (suc pos) len ls (omega arith) (omega arith) h
passes_of_IsTail pos len (single_wildcard ∷ ls) hp hl h =
    passes_of_IsTail (suc pos) len ls (omega arith) (omega arith) h
passes_of_IsTail pos len (multi_wildcard ∷ []) hp hl h = ground arith
passes_of_IsTail pos len (multi_wildcard ∷ (l ∷ ls)) hp hl h = cc

is_valid-passes :
    (t : Topic)
    → (is_valid t ≡ true) ↔ ((passes_levels 0 t ≡ true) × (passes_places (length t) 0 t ≡ true))
unfolding is_valid
is_valid-passes t = ground arith

IsWellFormed-of_passes :
    (t : Topic) → passes_levels 0 t ≡ true → passes_places (length t) 0 t ≡ true → IsWellFormed t
unfolding position level_is_valid
IsWellFormed-of_passes [] a b = tt
IsWellFormed-of_passes (normal s ∷ ls) a b = ground (arith, IsTail-of_passes 1 (suc (length ls)) ls)
IsWellFormed-of_passes (metadata s ∷ ls) a b =
    ground (arith, IsTail-of_passes 1 (suc (length ls)) ls)
IsWellFormed-of_passes (blank ∷ ls) a b =
    IsTail-of_passes 1 (suc (length ls)) ls (omega arith) (omega arith) a b
IsWellFormed-of_passes (single_wildcard ∷ ls) a b =
    IsTail-of_passes 1 (suc (length ls)) ls (omega arith) (omega arith) a b
IsWellFormed-of_passes (multi_wildcard ∷ []) a b = refl
IsWellFormed-of_passes (multi_wildcard ∷ (l ∷ ls)) a b = absurd (ground arith)

passes_of_IsWellFormed :
    (t : Topic)
    → IsWellFormed t
    → (passes_levels 0 t ≡ true) × (passes_places (length t) 0 t ≡ true)
unfolding position level_is_valid
passes_of_IsWellFormed [] h = (refl, refl)
passes_of_IsWellFormed (normal s ∷ ls) h = ground (arith, passes_of_IsTail 1 (suc (length ls)) ls)
passes_of_IsWellFormed (metadata s ∷ ls) h = ground (arith, passes_of_IsTail 1 (suc (length ls)) ls)
passes_of_IsWellFormed (blank ∷ ls) h =
    passes_of_IsTail 1 (suc (length ls)) ls (omega arith) (omega arith) h
passes_of_IsWellFormed (single_wildcard ∷ ls) h =
    passes_of_IsTail 1 (suc (length ls)) ls (omega arith) (omega arith) h
passes_of_IsWellFormed (multi_wildcard ∷ []) h = ground arith
passes_of_IsWellFormed (multi_wildcard ∷ (l ∷ ls)) h = cc

-- The two searches of `is_valid` find nothing exactly when the topic is well formed: `#` stands
-- last, a level that begins with `$` stands first, and no literal level holds a wildcard.
pub is_valid_iff : (t : Topic) → (is_valid t ≡ true) ↔ IsWellFormed t
is_valid_iff t = (
  λ h. let (a, b) = (is_valid-passes t).0 h in IsWellFormed-of_passes t a b,
  λ w. (is_valid-passes t).1 (passes_of_IsWellFormed t w),
)
