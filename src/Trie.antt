-- ===== src/Trie.antt =====
-- oximqtt/src/trie.rs: the topic tree, a node with its set of values and its branches.
-- A `HashMap<Level, Node>` is the list of its entries, of which only the keys' equality is used.
pub mod Iter
pub mod Items
pub mod Matching
pub mod Complete
mod Tests
pub mod Paths
use oximqtt.Base.{
  ℕ, ◌+◌, Bool, true, false, ◌&&◌, not, Option, none, some, List, [], ◌∷◌, length, if◌then◌else◌,
}
use oximqtt.Base.OrdSet.{Ord}
use oximqtt.Base.OrdSet
use oximqtt.Topic.{Level, Topic, level_eq}

mutual
  pub data Node {ℓ} (V : Type ℓ) : Type ℓ where
    node : List V → Branches V → Node V

  pub data Branches {ℓ} (V : Type ℓ) : Type ℓ where
    nil : Branches V
    entry : Level → Node V → Branches V → Branches V

module _ {ℓ} {V : Type ℓ} where
  abbrev pub values : Node V → List V
  values (node vs bs) = vs

  abbrev pub branches : Node V → Branches V
  branches (node vs bs) = bs

  -- `Node::default`
  abbrev pub default : Node V
  default = node [] nil

  -- `HashMap::get`
  unfoldable pub get : Level → Branches V → Option (Node V)
  get l nil = none
  get l (entry k n bs) = if level_eq k l then some n else get l bs

  -- A write to the entry of a key, which is made where it is missing.
  unfoldable pub put : Level → Node V → Branches V → Branches V
  put l m nil = entry l m nil
  put l m (entry k n bs) = if level_eq k l then entry k m bs else entry k n (put l m bs)

  -- `HashMap::remove`
  unfoldable pub drop_key : Level → Branches V → Branches V
  drop_key l nil = nil
  drop_key l (entry k n bs) = if level_eq k l then drop_key l bs else entry k n (drop_key l bs)

  -- `entry(l).or_default()`
  abbrev pub get_or_default : Level → Branches V → Node V
  get_or_default l bs = elim (get l bs) [ none ↦ default | some n ↦ n ]

  abbrev pub has_no_branches : Branches V → Bool
  has_no_branches nil = true
  has_no_branches (entry k n bs) = false

  abbrev pub is_empty_list : List V → Bool
  is_empty_list [] = true
  is_empty_list (v ∷ vs) = false

  -- `x.values.is_empty() && x.branches.is_empty()`
  abbrev pub is_bare : Node V → Bool
  is_bare (node vs bs) = is_empty_list vs && has_no_branches bs

module _ {ℓ} {V : Type ℓ} ⦃o : Ord V⦄ where
  -- `Node::insert` and `_insert`: the tree, and whether the value is new. The source walks a
  -- reversed copy of the levels from its end, which is the levels in order.
  unfoldable pub insert : List Level → V → Node V → Node V × Bool
  insert [] v (node vs bs) = let (vs', fresh) = OrdSet.insert v vs in (node vs' bs, fresh)
  insert (l ∷ path) v (node vs bs) =
      let (child, fresh) = insert path v (get_or_default l bs) in (node vs (put l child bs), fresh)

  -- `Node::remove` and `_remove`: a child that is left bare is dropped.
  unfoldable pub remove : List Level → V → Node V → Node V × Bool
  remove [] v (node vs bs) = let (vs', found) = OrdSet.remove v vs in (node vs' bs, found)
  remove (l ∷ path) v (node vs bs) = elim (get l bs) [
    | none ↦ (node vs bs, false)
    | some x ↦
        let (x', found) = remove path v x in
        (node vs (if is_bare x' then drop_key l bs else put l x' bs), found)
  ]

unfoldable mutual
  -- `Node::values_size`
  pub values_size {ℓ} : {V : Type ℓ} → Node V → ℕ
  values_size (node vs bs) = length vs + values_size_branches bs

  pub values_size_branches {ℓ} : {V : Type ℓ} → Branches V → ℕ
  values_size_branches nil = 0
  values_size_branches (entry k n bs) = values_size n + values_size_branches bs

abbrev pub count_branches {ℓ} : {V : Type ℓ} → Branches V → ℕ
count_branches nil = 0
count_branches (entry k n bs) = 1 + count_branches bs

unfoldable mutual
  -- `Node::nodes_size`
  pub nodes_size {ℓ} : {V : Type ℓ} → Node V → ℕ
  nodes_size (node vs bs) = count_branches bs + nodes_size_branches bs

  pub nodes_size_branches {ℓ} : {V : Type ℓ} → Branches V → ℕ
  nodes_size_branches nil = 0
  nodes_size_branches (entry k n bs) = nodes_size n + nodes_size_branches bs
