-- ===== src/Inflight/Window.antt =====
-- The window `InInflight` of oximqtt/src/inflight.rs: its bound and its counter.
use oximqtt.Base.{
  ℕ, suc, ◌+◌, ◌≤◌, ◌<◌, ◌≡◌, refl, true, false, List, [], ◌∷◌, length, arith, ◌==◌, ==_iff, ltb,
  leb, Bool-cases, inl, inr,
}
use oximqtt.Base.OrdSet
use oximqtt.Base.OrdSet.{Ord, contains-insert_sorted, contains-erase, insert_sorted, erase}
use oximqtt.Codec.Qos.{QoS, at_most_once, at_least_once, exactly_once}
use oximqtt.Inflight.{number_order, InInflight, add, added, remove}

-- No identifier stands twice.
unfoldable pub IsUnique : List ℕ → Type 0
IsUnique [] = Unit
IsUnique (x ∷ xs) = (OrdSet.contains x xs ≡ false) × IsUnique xs

-- The window is within its size, and the counter is its length.
pub record IsValid (w : InInflight) : Type 0 where
  pub within : length w.cached ≤ w.max_inflight
  pub counted : w.in_inflights ≡ length w.cached
  pub unique : IsUnique w.cached

length-insert_sorted : (a : ℕ) (xs : List ℕ) → length (insert_sorted a xs) ≡ suc (length xs)
unfolding insert_sorted
length-insert_sorted a [] = refl
length-insert_sorted a (x ∷ xs) = ground (arith, length-insert_sorted a xs)

IsUnique-insert_sorted :
    (a : ℕ) (xs : List ℕ)
    → IsUnique xs
    → OrdSet.contains a xs ≡ false
    → IsUnique (insert_sorted a xs)
unfolding IsUnique insert_sorted OrdSet.contains
IsUnique-insert_sorted a [] h k = (refl, tt)
IsUnique-insert_sorted a (x ∷ xs) h k = elim (Bool-cases (ltb a x)) [
  | inl l ↦ rw (insert_sorted, l) (k, h)
  | inr l ↦
      let i : OrdSet.contains a xs ≡ false = ground arith in
      let e = contains-insert_sorted a x xs in
      rw (insert_sorted, l)
        (ground (arith, ==_iff a x, ==_iff x a), IsUnique-insert_sorted a xs h.1 i)
]

pub erase-absent : (a : ℕ) (xs : List ℕ) → OrdSet.contains a xs ≡ false → erase a xs ≡ xs
unfolding erase OrdSet.contains
erase-absent a [] k = refl
erase-absent a (x ∷ xs) k = ground (arith, erase-absent a xs)

length-erase :
    (a : ℕ) (xs : List ℕ)
    → IsUnique xs
    → OrdSet.contains a xs ≡ true
    → suc (length (erase a xs)) ≡ length xs
unfolding IsUnique erase OrdSet.contains
length-erase a [] h k = ground arith
length-erase a (x ∷ xs) h k = elim (Bool-cases (a == x)) [
  | inl l ↦
      let e : a ≡ x = (==_iff a x).0 l in
      let f : OrdSet.contains a xs ≡ false = rw e h.0 in let g = erase-absent a xs f in ground arith
  | inr l ↦ let g = length-erase a xs h.1 in ground arith
]

IsUnique-erase : (a : ℕ) (xs : List ℕ) → IsUnique xs → IsUnique (erase a xs)
unfolding IsUnique erase
IsUnique-erase a [] h = tt
IsUnique-erase a (x ∷ xs) h = elim (Bool-cases (a == x)) [
  | inl l ↦ rw (erase, l) (IsUnique-erase a xs h.1)
  | inr l ↦ let e = contains-erase a x xs in rw (erase, l) (ground arith, IsUnique-erase a xs h.1)
]

refused-IsValid :
    (pid : ℕ) (qos : QoS) (w : InInflight)
    → IsValid w
    → IsValid (added pid qos w (w.cached, false)).1
refused-IsValid pid at_most_once w h = h
refused-IsValid pid at_least_once w h = h
refused-IsValid pid exactly_once w h = h

inserted-IsValid :
    (pid : ℕ) (w : InInflight)
    → IsValid w
    → length w.cached < w.max_inflight
    → OrdSet.contains pid w.cached ≡ false
    → IsValid (record {
      cached = insert_sorted pid w.cached;
      in_inflights = w.in_inflights + 1;
      max_inflight = w.max_inflight;
    })
inserted-IsValid pid w h l c =
    let e = length-insert_sorted pid w.cached in
    record {
      within = omega arith;
      counted = let k = h.counted in omega arith;
      unique = IsUnique-insert_sorted pid w.cached h.unique c;
    }

-- `add` keeps a valid window valid: within its size, its identifiers distinct, and the counter at
-- their number.
pub add-IsValid : (pid : ℕ) (qos : QoS) (w : InInflight) → IsValid w → IsValid (add pid qos w).1
unfolding add OrdSet.insert
add-IsValid pid qos w h = elim (Bool-cases (leb w.max_inflight (length w.cached))) [
  | inl l ↦ rw (add, l) h
  | inr l ↦ elim (Bool-cases (OrdSet.contains pid w.cached)) [
    | inl c ↦ rw (add, l, OrdSet.insert, c) (refused-IsValid pid qos w h)
    | inr c ↦ rw (add, l, OrdSet.insert, c) (inserted-IsValid pid w h (ground arith) c)
  ]
]

-- `remove` keeps a valid window valid: within its size, its identifiers distinct, and the counter at
-- their number.
pub remove-IsValid : (pid : ℕ) (w : InInflight) → IsValid w → IsValid (remove pid w).1
unfolding remove OrdSet.remove
remove-IsValid pid w h = elim (Bool-cases (OrdSet.contains pid w.cached)) [
  | inl c ↦
      let e = length-erase pid w.cached h.unique c in
      rw (remove, OrdSet.remove, c)
        (record {
          within = let k = h.within in omega arith;
          counted = let k = h.counted in omega arith;
          unique = IsUnique-erase pid w.cached h.unique;
        })
  | inr c ↦ rw (remove, OrdSet.remove, c) h
]
