-- ===== src/Retain/Paths.antt =====
-- `insert` and `remove` of oximqtt/src/retain.rs by what they leave at each path of the tree.
use oximqtt.Base.{
  ◌≡◌, refl, true, Option, none, some, List, [], ◌∷◌, arith, if◌then◌else◌, inl, inr, Option-cases,
}
use oximqtt.Topic.{Level, level_eq, level_eq_iff}
use oximqtt.Trie.Paths.{path_eq}
use oximqtt.Retain.{
  Node, Branches, node, nil, entry, value, default, get, put, drop_key, get_or_default, is_bare,
  insert, remove,
}

module _ {ℓ} {V : Type ℓ} where
  pub get-put :
      (l k : Level) (n : Node V) (bs : Branches V)
      → get k (put l n bs) ≡ (if level_eq l k then some n else get k bs)
  unfolding get put
  get-put l k n nil = refl
  get-put l k n (entry j m bs) =
      ground (arith, get-put l k n bs, level_eq_iff j l, level_eq_iff j k, level_eq_iff l k)

  pub get-drop_key :
      (l k : Level) (bs : Branches V)
      → get k (drop_key l bs) ≡ (if level_eq l k then none else get k bs)
  unfolding get drop_key
  get-drop_key l k nil = ground arith
  get-drop_key l k (entry j m bs) =
      ground (arith, get-drop_key l k bs, level_eq_iff j l, level_eq_iff j k, level_eq_iff l k)

  -- The message retained for a topic.
  unfoldable pub value_at : List Level → Node V → Option V
  value_at [] n = value n
  value_at (l ∷ path) (node v bs) = elim (get l bs) [ none ↦ none | some n ↦ value_at path n ]

  pub value_at-default : (path : List Level) → value_at path (default {V = V}) ≡ none
  unfolding value_at get
  value_at-default [] = refl
  value_at-default (l ∷ path) = refl

  -- `insert` sets the value at its path and leaves every other path as it was.
  pub value_at-insert :
      (q p : List Level) (v : V) (n : Node V)
      → value_at p (insert q v n) ≡ (if path_eq q p then some v else value_at p n)
  unfolding value_at insert
  value_at-insert [] [] v (node w bs) = refl
  value_at-insert [] (k ∷ p) v (node w bs) = refl
  value_at-insert (l ∷ q) [] v (node w bs) = refl
  value_at-insert (l ∷ q) (k ∷ p) v (node w bs) = ground (
    arith,
    get-put l k (insert q v (get_or_default l bs)) bs,
    level_eq_iff l k,
    value_at-insert q p v (get_or_default l bs),
    value_at-default p,
  )

  pub is_bare-default : (n : Node V) → is_bare n ≡ true → n ≡ default
  is_bare-default (node none nil) h = refl
  is_bare-default (node none (entry k m bs)) h = cc
  is_bare-default (node (some v) bs) h = cc

  -- `remove` clears its path, gives what was there, and leaves every other path as it was: the
  -- nodes that it prunes held nothing.
  pub value_at-remove :
      (q p : List Level) (n : Node V)
      → (value_at p (remove q n).0 ≡ (if path_eq q p then none else value_at p n))
        × ((remove q n).1 ≡ value_at q n)
  unfolding value_at remove
  value_at-remove [] [] (node w bs) = (refl, refl)
  value_at-remove [] (k ∷ p) (node w bs) = (refl, refl)
  value_at-remove (l ∷ q) [] (node w bs) = elim (Option-cases (get l bs)) [
    | inl e ↦ ground arith
    | inr (x, e) ↦ ground (arith, value_at-remove q [] x)
  ]
  value_at-remove (l ∷ q) (k ∷ p) (node w bs) = elim (Option-cases (get l bs)) [
    | inl e ↦ ground (arith, level_eq_iff l k)
    | inr (x, e) ↦ ground (
      arith,
      level_eq_iff l k,
      get-put l k (remove q x).0 bs,
      get-drop_key l k bs,
      value_at-remove q p x,
      is_bare-default (remove q x).0,
      value_at-default p,
    )
  ]
