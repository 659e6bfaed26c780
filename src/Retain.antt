-- ===== src/Retain.antt =====
-- oximqtt/src/retain.rs: the tree of the retained messages, a node with its value and its branches.
-- A `HashMap<Level, Node>` is the list of its entries, of which only the keys' equality is used.
pub mod Paths
pub mod Trees
pub mod Loops
pub mod Yields
pub mod Covers
pub mod Filters
pub mod Storage
mod Tests
use oximqtt.Base.{
  ℕ, ◌+◌, Bool, true, false, ◌&&◌, not, leb, Option, none, some, List, [], ◌∷◌, ◌++◌, if◌then◌else◌,
}
use oximqtt.Topic.{Level, Topic, level_eq, single_wildcard, multi_wildcard, is_metadata}
use oximqtt.Trie.Iter.{is_blank, is_root_path}

mutual
  pub data Node {ℓ} (V : Type ℓ) : Type ℓ where
    node : Option V → Branches V → Node V

  pub data Branches {ℓ} (V : Type ℓ) : Type ℓ where
    nil : Branches V
    entry : Level → Node V → Branches V → Branches V

abbrev pub is_none {ℓ} : {A : Type ℓ} → Option A → Bool
is_none none = true
is_none (some a) = false

-- A level that begins with `$`, which no wildcard takes at the root.
abbrev pub is_isolated : List Level → Level → Bool
is_isolated sub_path k = is_root_path sub_path && (not (is_blank k) && is_metadata k)

abbrev pub is_single : Level → Bool
is_single single_wildcard = true
is_single _ = false

abbrev pub is_multi : Level → Bool
is_multi multi_wildcard = true
is_multi _ = false

module _ {ℓ} {V : Type ℓ} where
  -- `Node::value`
  abbrev pub value : Node V → Option V
  value (node v bs) = v

  -- `Node::children`
  abbrev pub branches : Node V → Branches V
  branches (node v bs) = bs

  -- `Node::default`
  abbrev pub default : Node V
  default = node none nil

  -- `Node::child`
  unfoldable pub get : Level → Branches V → Option (Node V)
  get l nil = none
  get l (entry k n bs) = if level_eq k l then some n else get l bs

  unfoldable pub put : Level → Node V → Branches V → Branches V
  put l m nil = entry l m nil
  put l m (entry k n bs) = if level_eq k l then entry k m bs else entry k n (put l m bs)

  unfoldable pub drop_key : Level → Branches V → Branches V
  drop_key l nil = nil
  drop_key l (entry k n bs) = if level_eq k l then drop_key l bs else entry k n (drop_key l bs)

  abbrev pub get_or_default : Level → Branches V → Node V
  get_or_default l bs = elim (get l bs) [ none ↦ default | some n ↦ n ]

  abbrev pub has_no_branches : Branches V → Bool
  has_no_branches nil = true
  has_no_branches (entry k n bs) = false

  -- `x.value.is_none() && x.branches.is_empty()`
  abbrev pub is_bare : Node V → Bool
  is_bare (node v bs) = is_none v && has_no_branches bs

  -- `Node::insert` and `_insert`
  unfoldable pub insert : List Level → V → Node V → Node V
  insert [] v (node w bs) = node (some v) bs
  insert (l ∷ path) v (node w bs) = node w (put l (insert path v (get_or_default l bs)) bs)

  -- `Node::remove` and `_remove`: the tree, and the value that was there.
  unfoldable pub remove : List Level → Node V → Node V × Option V
  remove [] (node w bs) = (node none bs, w)
  remove (l ∷ path) (node w bs) = elim (get l bs) [
    | none ↦ (node w bs, none)
    | some x ↦
        let (x', res) = remove path x in
        (node w (if is_bare x' then drop_key l bs else put l x' bs), res)
  ]

  -- `add_to_out`
  abbrev pub add_to_out : List Level → Option V → List (Topic × V)
  add_to_out levels none = []
  add_to_out levels (some v) = (levels, v) ∷ []

  -- The value of a node whose topic is the parent of a last `#`.
  abbrev pub parent_value : List Level → List Level → Node V → List (Topic × V)
  parent_value (multi_wildcard ∷ rest) sub_path n = add_to_out sub_path (value n)
  parent_value _ sub_path n = []

  unfoldable mutual
    -- `Node::_matches`
    pub matches_from : List Level → List Level → Node V → List (Topic × V)
    matches_from [] sub_path (node v bs) = add_to_out sub_path v
    matches_from (l ∷ path) sub_path (node v bs) = elim (is_none (get l bs)) [
      | false ↦ exact l path sub_path bs
      | true ↦ elim (is_single l) [
        | true ↦ single_layer path sub_path bs
        | false ↦ elim (is_multi l) [ true ↦ multilayer path sub_path bs | false ↦ [] ]
      ]
    ]

    -- The branch of `_matches` for the level itself.
    pub exact : Level → List Level → List Level → Branches V → List (Topic × V)
    exact l path sub_path nil = []
    exact l path sub_path (entry k n bs) = elim (level_eq k l) [
      | true ↦
          parent_value path (sub_path ++ (l ∷ [])) n ++ matches_from path (sub_path ++ (l ∷ [])) n
      | false ↦ exact l path sub_path bs
    ]

    -- The loop of `_matches` for `+`.
    pub single_layer : List Level → List Level → Branches V → List (Topic × V)
    single_layer path sub_path nil = []
    single_layer path sub_path (entry k n bs) = elim (is_isolated sub_path k) [
      | true ↦ single_layer path sub_path bs
      | false ↦
          (parent_value path (sub_path ++ (k ∷ [])) n ++ matches_from path (sub_path ++ (k ∷ [])) n)
          ++ single_layer path sub_path bs
    ]

    -- The loop of `_matches` for `#`, whose path stays.
    pub multilayer : List Level → List Level → Branches V → List (Topic × V)
    multilayer path sub_path nil = []
    multilayer path sub_path (entry k n bs) = elim (is_isolated sub_path k) [
      | true ↦ multilayer path sub_path bs
      | false ↦
          (elim (has_no_branches (branches n)) [
            | true ↦ add_to_out (sub_path ++ (k ∷ [])) (value n)
            | false ↦
                add_to_out (sub_path ++ (k ∷ [])) (value n)
                ++ matches_from (multi_wildcard ∷ path) (sub_path ++ (k ∷ [])) n
          ])
          ++ multilayer path sub_path bs
    ]

  -- `Node::matches`
  abbrev pub matches : Topic → Node V → List (Topic × V)
  matches filter n = matches_from filter [] n

unfoldable mutual
  -- `Node::values_size`
  pub values_size {ℓ} : {V : Type ℓ} → Node V → ℕ
  values_size (node v bs) = values_size_branches bs + (if is_none v then 0 else 1)

  pub values_size_branches {ℓ} : {V : Type ℓ} → Branches V → ℕ
  values_size_branches nil = 0
  values_size_branches (entry k n bs) = values_size n + values_size_branches bs

abbrev pub count_branches {ℓ} : {V : Type ℓ} → Branches V → ℕ
count_branches nil = 0
count_branches (entry k n bs) = 1 + count_branches bs

unfoldable mutual
  -- `Node::nodes_size`
  pub nodes_size {ℓ} : {V : Type ℓ} → Node V → ℕ
  nodes_size (node v bs) = count_branches bs + nodes_size_branches bs

  pub nodes_size_branches {ℓ} : {V : Type ℓ} → Branches V → ℕ
  nodes_size_branches nil = 0
  nodes_size_branches (entry k n bs) = nodes_size n + nodes_size_branches bs

-- What `_retain` threads: the state of the closure and the number of the values removed.
module _ {ℓ κ} {V : Type ℓ} {S : Type κ} (f : V → S → Bool × S) (max_limit : ℕ) where
  -- What is done to the value of a child.
  abbrev pub retain_value : Option V → S × ℕ → Option V × (S × ℕ)
  retain_value none (s, removeds) = (none, (s, removeds))
  retain_value (some v) (s, removeds) =
      let (keep, s') = f v s in
      if keep then (some v, (s', removeds)) else (none, (s', removeds + 1))

  unfoldable mutual
    -- `Node::_retain`: it returns at once where the limit is reached.
    pub retain_from : Node V → S × ℕ → Node V × (S × ℕ)
    retain_from (node v bs) (s, removeds) = elim (leb max_limit removeds) [
      | true ↦ (node v bs, (s, removeds))
      | false ↦ let (bs', st) = retain_branches bs (s, removeds) in (node v bs', st)
    ]

    -- `HashMap::retain` with the closure of `_retain`.
    pub retain_branches : Branches V → S × ℕ → Branches V × (S × ℕ)
    retain_branches nil st = (nil, st)
    retain_branches (entry k n bs) st =
        let (n', st₁) = retain_from n st in
        let (v', st₂) = retain_value (value n') st₁ in
        let child = node v' (branches n') in
        let (bs', st₃) = retain_branches bs st₂ in
        (if is_bare child then bs' else entry k child bs', st₃)

  -- `Node::retain`: the tree, the state of the closure and how many values were removed.
  abbrev pub retain : Node V → S → Node V × (S × ℕ)
  retain n s = retain_from n (s, 0)
