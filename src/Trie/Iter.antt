-- ===== src/Trie/Iter.antt =====
-- `Matcher` and `MatchedIter` of oximqtt/src/trie.rs: the lazy walk that yields, for a topic, the
-- filters stored in the tree that match it, each with its values.
-- The vector `curr_items` is used as a stack: the list begins with the vector's last element.
use oximqtt.Base.{
  ℕ, zero, suc, Bool, true, false, ◌&&◌, ◌||◌, not, Option, none, some, List, [], ◌∷◌, ◌++◌,
  if◌then◌else◌,
}
use oximqtt.Topic.{Level, Topic, single_wildcard, multi_wildcard, is_metadata, blank}
use oximqtt.Trie.{Node, values, branches, get}

-- The type `Item`: the levels of a filter and the values stored at it.
abbrev pub Item {ℓ} : Type ℓ → Type ℓ
Item V = List Level × List V

mutual
  pub data MatchedIter {ℓ} (V : Type ℓ) : Type ℓ where
    iter : Node V → List Level → Option (List Level) → List (Item V) → SubIters V → MatchedIter V

  pub data SubIters {ℓ} (V : Type ℓ) : Type ℓ where
    done : SubIters V
    sub : MatchedIter V → SubIters V → SubIters V

-- `contains_key(#) || contains_key(+)` decides nothing that the two lookups under it do not.
abbrev pub is_root_path : List Level → Bool
is_root_path [] = true
is_root_path (l ∷ ls) = false

abbrev pub is_blank : Level → Bool
is_blank blank = true
is_blank l = false

module _ {ℓ} {V : Type ℓ} where
  -- `MatchedIter::new`
  abbrev pub new : Node V → List Level → List Level → MatchedIter V
  new n path sub_path = iter n path (some sub_path) [] done

  -- `add_to_items`
  abbrev pub add_to_items : List Level → List V → List (Item V) → List (Item V)
  add_to_items levels [] items = items
  add_to_items levels (v ∷ vs) items = (levels, v ∷ vs) ∷ items

  abbrev pub contains_key : Level → Node V → Bool
  contains_key l n = elim (get l (branches n)) [ none ↦ false | some x ↦ true ]

  -- The `#` branch of `prepare`, which stands in both of its cases.
  abbrev pub add_multi : Node V → List Level → List (Item V) → List (Item V)
  add_multi n sub_path items = elim (get multi_wildcard (branches n)) [
    | none ↦ items
    | some b ↦ add_to_items (sub_path ++ (multi_wildcard ∷ [])) (values b) items
  ]

  -- A sub-iterator on a branch, if there is one.
  abbrev pub push_sub : Node V → Level → List Level → List Level → SubIters V → SubIters V
  push_sub n l path sub_path rest = elim (get l (branches n)) [
    | none ↦ rest
    | some b ↦ sub (new b path (sub_path ++ (l ∷ []))) rest
  ]

  -- The test under which `prepare` leaves the wildcard branches out.
  abbrev pub is_isolated : Node V → List Level → Level → Bool
  is_isolated n sub_path l =
      is_root_path sub_path
      && not (is_blank l)
      && is_metadata l
      && (contains_key multi_wildcard n || contains_key single_wildcard n)

  -- `prepare`, on an iterator whose `sub_path` is still there; it takes it.
  unfoldable pub prepare : Node V → List Level → List Level → MatchedIter V
  prepare n [] sub_path =
      iter n [] none (add_to_items sub_path (values n) (add_multi n sub_path [])) done
  prepare n (l ∷ path) sub_path =
      let exact = push_sub n l path sub_path done in
      if is_isolated n sub_path l
      then iter n (l ∷ path) none [] exact
      else iter n (l ∷ path) none (add_multi n sub_path [])
          (push_sub n single_wildcard path sub_path exact)

  -- The `while` loop of `next_item`: an exhausted sub-iterator is removed from the front.
  unfoldable pub poll :
      (MatchedIter V → Option (Item V) × MatchedIter V) → SubIters V → Option (Item V) × SubIters V
  poll next done = (none, done)
  poll next (sub s ss) =
      let (o, s') = next s in elim o [ none ↦ poll next ss | some item ↦ (some item, sub s' ss) ]

  -- `next_item`
  unfoldable pub next_item :
      (MatchedIter V → Option (Item V) × MatchedIter V)
      → MatchedIter V
      → Option (Item V) × MatchedIter V
  next_item next (iter n path sp (item ∷ items) ss) = (some item, iter n path sp items ss)
  next_item next (iter n path sp [] ss) = let (o, ss') = poll next ss in (o, iter n path sp [] ss')

  -- The rest of `Iterator::next`, after a first `next_item` that yields nothing.
  unfoldable pub refill :
      (MatchedIter V → Option (Item V) × MatchedIter V)
      → MatchedIter V
      → Option (Item V) × MatchedIter V
  refill next (iter n path none items ss) = (none, iter n path none items ss)
  refill next (iter n path (some sub_path) items ss) = next_item next (prepare n path sub_path)

  -- `Iterator::next`. The fuel bounds how deep the sub-iterators nest.
  unfoldable pub next : ℕ → MatchedIter V → Option (Item V) × MatchedIter V
  next zero it = (none, it)
  next (suc fuel) it =
      let (o, it') = next_item (next fuel) it in
      elim o [ none ↦ refill (next fuel) it' | some item ↦ (some item, it') ]

  -- `Node::matches` and `Matcher::iter`
  abbrev pub matches : Node V → Topic → MatchedIter V
  matches n topic = new n topic []
