-- ===== src/Retain/Storage/Sizes.antt =====
-- `values_size` of oximqtt/src/retain.rs under `insert` and `remove`.
use oximqtt.Base.{
  ℕ, ◌+◌, ◌≡◌, refl, ap, true, Option, none, some, [], ◌∷◌, arith, if◌then◌else◌, inl, inr,
  Option-cases, Bool-cases,
}
use oximqtt.Topic.{Level, Topic, level_eq, level_eq_iff}
use oximqtt.Retain.{
  Node, Branches, node, nil, entry, default, get, put, drop_key, get_or_default, is_none, is_bare,
  insert, remove, values_size, values_size_branches,
}
use oximqtt.Retain.Paths.{value_at, value_at-default}
use oximqtt.Retain.Trees.{IsTree, AreTrees, IsTree-get}

-- 1 for a value.
abbrev pub weight {ℓ} : {V : Type ℓ} → Option V → ℕ
weight v = if is_none v then 0 else 1

module _ {ℓ} {V : Type ℓ} where
  size_at : Option (Node V) → ℕ
  size_at none = 0
  size_at (some n) = values_size n

  values_size-put :
      (l : Level) (n : Node V) (bs : Branches V)
      → values_size_branches (put l n bs) + size_at (get l bs)
        ≡ values_size_branches bs + values_size n
  unfolding put get values_size_branches size_at
  values_size-put l n nil = omega arith
  values_size-put l n (entry k m bs) = elim (Bool-cases (level_eq k l)) [
    | inl b ↦ ground (arith, b)
    | inr b ↦ ground (arith, b, values_size-put l n bs)
  ]

  drop_missing : (l : Level) (bs : Branches V) → get l bs ≡ none → drop_key l bs ≡ bs
  unfolding drop_key get
  drop_missing l nil h = refl
  drop_missing l (entry k m bs) h = elim (Bool-cases (level_eq k l)) [
    | inl b ↦ absurd (ground arith)
    | inr b ↦ rw (drop_key, b) (ap (entry k m) (drop_missing l bs (ground arith)))
  ]

  values_size-drop_key :
      (l : Level) (bs : Branches V)
      → AreTrees bs
      → values_size_branches (drop_key l bs) + size_at (get l bs) ≡ values_size_branches bs
  unfolding drop_key get values_size_branches size_at AreTrees
  values_size-drop_key l nil h = omega arith
  values_size-drop_key l (entry k m bs) (p, d, t, r) = elim (Bool-cases (level_eq k l)) [
    | inl b ↦
        let q : get l bs ≡ none = ground (arith, d, level_eq_iff k l) in
        ground (arith, b, drop_missing l bs q)
    | inr b ↦ ground (arith, b, values_size-drop_key l bs r)
  ]

  -- `insert` adds one value where there was none.
  pub values_size-insert :
      (path : Topic) (v : V) (n : Node V)
      → values_size (insert path v n) + weight (value_at path n) ≡ values_size n + 1
  unfolding insert values_size value_at size_at values_size_branches
  values_size-insert [] v (node w bs) = ground arith
  values_size-insert (l ∷ path) v (node w bs) = elim (Option-cases (get l bs)) [
    | inl e ↦
        let n = insert path v default in
        let q = rw (value_at-default path) at (values_size-insert path v default) in
        let p = rw e at (values_size-put l n bs) in
        rw (insert, get_or_default, value_at, e) (omega (arith, p, q))
    | inr (x, e) ↦
        let p = rw e at (values_size-put l (insert path v x) bs) in
        rw (insert, get_or_default, value_at, e) (omega (arith, p, values_size-insert path v x))
  ]

  pub size_of_bare : (n : Node V) → is_bare n ≡ true → values_size n ≡ 0
  unfolding values_size values_size_branches
  size_of_bare (node none nil) h = omega arith
  size_of_bare (node none (entry k m bs)) h = cc
  size_of_bare (node (some v) bs) h = cc

  -- `remove` takes away the value that it gives.
  pub values_size-remove :
      (path : Topic) (n : Node V)
      → IsTree n
      → values_size (remove path n).0 + weight (remove path n).1 ≡ values_size n
  unfolding remove values_size IsTree size_at
  values_size-remove [] (node w bs) t = ground arith
  values_size-remove (l ∷ path) (node w bs) t = elim (Option-cases (get l bs)) [
    | inl e ↦ rw (remove, e) (omega arith)
    | inr (x, e) ↦
        let ih = values_size-remove path x (IsTree-get l x bs t e) in
        let x' = (remove path x).0 in
        let p = rw e at (values_size-put l x' bs) in
        let d = rw e at (values_size-drop_key l bs t) in
        elim (Bool-cases (is_bare x')) [
          | inl b ↦ rw (remove, e, b) (omega (arith, ih, d, size_of_bare x' b))
          | inr b ↦ rw (remove, e, b) (omega (arith, ih, p))
        ]
  ]
