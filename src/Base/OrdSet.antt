-- ===== src/Base/OrdSet.antt =====
-- Rust's `BTreeSet` as the ascending list of its elements.
use oximqtt.Base.Tests.{if◌then◌else◌}
use mathlib.Core.Path.{◌≡◌, refl}
use mathlib.Core.Logic.{◌↔◌}
use mathlib.Core.Bool.{Bool, true, false, ◌||◌, ◌&&◌, not}
use mathlib.Core.List.{List, [], ◌∷◌}
use native.Mathlib.Omega.{arith}

-- `Ord`: the order of the elements and their equality.
pub record Ord {ℓ} (A : Type ℓ) : Type ℓ where
  pub lt : A → A → Bool
  pub beq : A → A → Bool
  pub beq_iff : (a b : A) → (beq a b ≡ true) ↔ (a ≡ b)

module _ {ℓ} {A : Type ℓ} ⦃o : Ord A⦄ where
  unfoldable pub contains : A → List A → Bool
  contains a [] = false
  contains a (x ∷ xs) = o.beq a x || contains a xs

  unfoldable pub insert_sorted : A → List A → List A
  insert_sorted a [] = a ∷ []
  insert_sorted a (x ∷ xs) = if o.lt a x then a ∷ (x ∷ xs) else x ∷ insert_sorted a xs

  -- `BTreeSet::insert`: the set, and whether the element is new.
  unfoldable pub insert : A → List A → List A × Bool
  insert a xs = if contains a xs then (xs, false) else (insert_sorted a xs, true)

  unfoldable pub erase : A → List A → List A
  erase a [] = []
  erase a (x ∷ xs) = if o.beq a x then erase a xs else x ∷ erase a xs

  -- `BTreeSet::remove`: the set, and whether the element was there.
  unfoldable pub remove : A → List A → List A × Bool
  remove a xs = if contains a xs then (erase a xs, true) else (xs, false)

  pub contains-insert_sorted :
      (a b : A) (xs : List A) → contains b (insert_sorted a xs) ≡ (o.beq b a || contains b xs)
  unfolding contains insert_sorted
  contains-insert_sorted a b [] = refl
  contains-insert_sorted a b (x ∷ xs) = ground (arith, contains-insert_sorted a b xs)

  pub contains-insert :
      (a b : A) (xs : List A) → contains b (insert a xs).0 ≡ (o.beq b a || contains b xs)
  unfolding insert
  contains-insert a b xs = ground (arith, contains-insert_sorted a b xs, o.beq_iff b a)

  pub contains-erase :
      (a b : A) (xs : List A) → contains b (erase a xs) ≡ (not (o.beq b a) && contains b xs)
  unfolding contains erase
  contains-erase a b [] = ground arith
  contains-erase a b (x ∷ xs) =
      ground (arith, contains-erase a b xs, o.beq_iff a x, o.beq_iff b a, o.beq_iff b x)

  pub contains-remove :
      (a b : A) (xs : List A) → contains b (remove a xs).0 ≡ (not (o.beq b a) && contains b xs)
  unfolding remove
  contains-remove a b xs = ground (arith, contains-erase a b xs, o.beq_iff b a)

  pub remove-nil : (a : A) → remove a [] ≡ ([], false)
  unfolding remove contains
  remove-nil a = refl
