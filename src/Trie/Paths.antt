-- ===== src/Trie/Paths.antt =====
-- `insert` and `remove` of oximqtt/src/trie.rs by what they leave at each path of the tree.
use oximqtt.Base.{
  ◌≡◌, refl, Bool, true, false, ◌&&◌, none, some, List, [], ◌∷◌, arith, if◌then◌else◌, inl, inr,
  Option-cases,
}
use oximqtt.Base.OrdSet
use oximqtt.Base.OrdSet.{Ord}
use oximqtt.Topic.{Level, level_eq, level_eq_iff}
use oximqtt.Trie.{
  Node, Branches, node, nil, entry, values, default, get, put, drop_key, get_or_default, is_bare,
  insert, remove,
}

module _ {ℓ} {V : Type ℓ} where
  pub get-put :
      (l k : Level) (n : Node V) (bs : Branches V)
      → get k (put l n bs) ≡ (if level_eq l k then some n else get k bs)
  unfolding get put
  get-put l k n nil = refl
  get-put l k n (entry j m bs) =
      ground (arith, get-put l k n bs, level_eq_iff j l, level_eq_iff j k, level_eq_iff l k)

  pub get-drop_key :
      (l k : Level) (bs : Branches V)
      → get k (drop_key l bs) ≡ (if level_eq l k then none else get k bs)
  unfolding get drop_key
  get-drop_key l k nil = ground arith
  get-drop_key l k (entry j m bs) =
      ground (arith, get-drop_key l k bs, level_eq_iff j l, level_eq_iff j k, level_eq_iff l k)

  -- The values stored at a path: those of a filter's subscribers.
  unfoldable pub values_at : List Level → Node V → List V
  values_at [] n = values n
  values_at (l ∷ path) (node vs bs) = elim (get l bs) [ none ↦ [] | some n ↦ values_at path n ]

  values_at-default : (path : List Level) → values_at path (default {V = V}) ≡ []
  unfolding values_at get
  values_at-default [] = refl
  values_at-default (l ∷ path) = refl

abbrev pub path_eq : List Level → List Level → Bool
path_eq [] [] = true
path_eq (l ∷ ls) (k ∷ ks) = level_eq l k && path_eq ls ks
path_eq _ _ = false

module _ {ℓ} {V : Type ℓ} ⦃o : Ord V⦄ where
  -- `insert` adds the value to the set at its path and leaves every other path as it was.
  pub values_at-insert :
      (q p : List Level) (v : V) (n : Node V)
      → values_at p (insert q v n).0
        ≡ (if path_eq q p then (OrdSet.insert v (values_at p n)).0 else values_at p n)
  unfolding values_at insert
  values_at-insert [] [] v (node vs bs) = refl
  values_at-insert [] (k ∷ p) v (node vs bs) = refl
  values_at-insert (l ∷ q) [] v (node vs bs) = refl
  values_at-insert (l ∷ q) (k ∷ p) v (node vs bs) = ground (
    arith,
    get-put l k (insert q v (get_or_default l bs)).0 bs,
    level_eq_iff l k,
    values_at-insert q p v (get_or_default l bs),
    values_at-default {V = V} p,
  )

  is_bare-default : (n : Node V) → is_bare n ≡ true → n ≡ default
  is_bare-default (node [] nil) h = refl
  is_bare-default (node [] (entry k m bs)) h = cc
  is_bare-default (node (v ∷ vs) bs) h = cc

  -- `remove` takes the value from the set at its path and leaves every other path as it was: the
  -- nodes that it prunes held nothing.
  pub values_at-remove :
      (q p : List Level) (v : V) (n : Node V)
      → values_at p (remove q v n).0
        ≡ (if path_eq q p then (OrdSet.remove v (values_at p n)).0 else values_at p n)
  unfolding values_at remove
  values_at-remove [] [] v (node vs bs) = refl
  values_at-remove [] (k ∷ p) v (node vs bs) = refl
  values_at-remove (l ∷ q) [] v (node vs bs) = ground arith
  values_at-remove (l ∷ q) (k ∷ p) v (node vs bs) = elim (Option-cases (get l bs)) [
    | inl e ↦ ground (arith, level_eq_iff l k, OrdSet.remove-nil v)
    | inr (x, e) ↦ ground (
      arith,
      level_eq_iff l k,
      get-put l k (remove q v x).0 bs,
      get-drop_key l k bs,
      values_at-remove q p v x,
      is_bare-default (remove q v x).0,
      values_at-default {V = V} p,
    )
  ]
