-- ===== src/Trie/Items.antt =====
-- The iterator of oximqtt/src/trie.rs against the list of the items that it stands for.
use oximqtt.Base.{
  ℕ, zero, suc, ap, sym, ◌∙◌, ◌<◌, ◌≤◌, max, ◌≡◌, refl, Option, none, some, List, [], ◌∷◌, ◌++◌,
  append-nil, length, arith, if◌then◌else◌, Bool-cases, Option-cases, inl, inr,
}
use oximqtt.Topic.{Level, Topic, single_wildcard}
use oximqtt.Trie.{Node, values, branches, get}
use oximqtt.Trie.Iter.{
  Item, MatchedIter, SubIters, iter, done, sub, add_to_items, add_multi, push_sub, is_isolated,
  prepare, poll, next_item, refill, next, matches,
}

module _ {ℓ} {V : Type ℓ} where
  -- What a new iterator on a node yields, in order.
  unfoldable pub items : List Level → Node V → List Level → List (Item V)
  items [] n sp = add_to_items sp (values n) (add_multi n sp [])
  items (l ∷ path) n sp =
      let exact : List (Item V) = elim (get l (branches n)) [
        | none ↦ []
        | some b ↦ items path b (sp ++ (l ∷ []))
      ] in
      let single : List (Item V) = elim (get single_wildcard (branches n)) [
        | none ↦ []
        | some b ↦ items path b (sp ++ (single_wildcard ∷ []))
      ] in
      if is_isolated n sp l then exact else add_multi n sp [] ++ (single ++ exact)

-- What an iterator has still to yield.
unfoldable mutual
  pub left {ℓ} : {V : Type ℓ} → MatchedIter V → List (Item V)
  left (iter n path sp cur ss) =
      cur ++ (left_subs ss ++ (elim sp [ none ↦ [] | some s ↦ items path n s ]))

  pub left_subs {ℓ} : {V : Type ℓ} → SubIters V → List (Item V)
  left_subs done = []
  left_subs (sub s ss) = left s ++ left_subs ss

-- How deep the calls of `next` go.
unfoldable mutual
  pub depth {ℓ} : {V : Type ℓ} → MatchedIter V → ℕ
  depth (iter n path sp cur ss) = suc (max (length path) (depth_subs ss))

  pub depth_subs {ℓ} : {V : Type ℓ} → SubIters V → ℕ
  depth_subs done = 0
  depth_subs (sub s ss) = max (depth s) (depth_subs ss)

module _ {ℓ} {V : Type ℓ} where
  -- A call yields the first item that is left, or there is none.
  abbrev Yields : ℕ → List (Item V) → Option (Item V) × MatchedIter V → Type ℓ
  Yields d xs (none, it) = (xs ≡ []) × (left it ≡ [])
  Yields d xs (some x, it) = (xs ≡ x ∷ left it) × (depth it ≤ d)

  abbrev Polls : ℕ → List (Item V) → Option (Item V) × SubIters V → Type ℓ
  Polls d xs (none, ss) = (xs ≡ []) × (ss ≡ done)
  Polls d xs (some x, ss) = (xs ≡ x ∷ left_subs ss) × (depth_subs ss ≤ d)

  left_subs-push_sub :
      (n : Node V) (l : Level) (path sp : List Level) (ss : SubIters V)
      → left_subs (push_sub n l path sp ss)
        ≡ (elim (get l (branches n)) [ none ↦ [] | some b ↦ items path b (sp ++ (l ∷ [])) ])
          ++ left_subs ss
  unfolding left
  left_subs-push_sub n l path sp ss = elim (Option-cases (get l (branches n))) [
    | inl e ↦ rw (e, push_sub) refl
    | inr (b, e) ↦ rw (e, push_sub) refl
  ]

  left-prepare : (n : Node V) (path sp : List Level) → left (prepare n path sp) ≡ items path n sp
  unfolding left prepare items
  left-prepare n [] sp = append-nil _
  left-prepare n (l ∷ path) sp = elim (Bool-cases (is_isolated n sp l)) [
    | inl h ↦ rw h (simp (left_subs-push_sub, append-nil))
    | inr h ↦ rw h (simp (left_subs-push_sub, append-nil))
  ]

  depth_subs-push_sub :
      (n : Node V) (l : Level) (path sp : List Level) (ss : SubIters V)
      → depth_subs ss ≤ suc (length path)
      → depth_subs (push_sub n l path sp ss) ≤ suc (length path)
  unfolding depth
  depth_subs-push_sub n l path sp ss h = elim (Option-cases (get l (branches n))) [
    | inl e ↦ rw (e, push_sub) h
    | inr (b, e) ↦ rw (e, push_sub) (omega arith)
  ]

  depth-prepare :
      (n : Node V) (path sp : List Level) → depth (prepare n path sp) ≤ suc (length path)
  unfolding depth prepare
  depth-prepare n [] sp = omega arith
  depth-prepare n (l ∷ path) sp = elim (Bool-cases (is_isolated n sp l)) [
    | inl h ↦ rw h (omega (arith, depth_subs-push_sub n l path sp done (omega arith)))
    | inr h ↦ rw h (
        omega (
          arith,
          depth_subs-push_sub n single_wildcard path sp (push_sub n l path sp done)
              (depth_subs-push_sub n l path sp done (omega arith)),
        ))
  ]

  poll_step-Polls :
      (d : ℕ) (ss : SubIters V) (xs : List (Item V)) (others : Option (Item V) × SubIters V)
      (r : Option (Item V) × MatchedIter V)
      → Yields d xs r
      → depth_subs ss ≤ d
      → Polls d (left_subs ss) others
      → Polls d
          (xs ++ left_subs ss)
          (elim r.0 [ none ↦ others | some item ↦ (some item, sub r.1 ss) ])
  unfolding left depth
  poll_step-Polls d ss xs others (none, s') y b p = rw y.0 p
  poll_step-Polls d ss xs others (some x, s') y b p = (rw y.0 refl, omega arith)

  poll-Polls :
      (d : ℕ) (nx : MatchedIter V → Option (Item V) × MatchedIter V)
      → ((it : MatchedIter V) → depth it ≤ d → Yields d (left it) (nx it))
      → (ss : SubIters V) → depth_subs ss ≤ d
      → Polls d (left_subs ss) (poll nx ss)
  unfolding left depth poll
  poll-Polls d nx h done b = (refl, refl)
  poll-Polls d nx h (sub s ss) b =
      poll_step-Polls d ss (left s) (poll nx ss) (nx s) (h s (omega arith)) (omega arith)
        (poll-Polls d nx h ss (omega arith))

  -- What is left when the items at hand and the sub-iterators are used up.
  abbrev drained : MatchedIter V → MatchedIter V
  drained (iter n path sp cur ss) = iter n path sp [] done

  -- `next_item` yields from the items at hand, then from the sub-iterators; if it yields nothing,
  -- both are used up.
  abbrev Nexts : ℕ → MatchedIter V → Option (Item V) × MatchedIter V → Type ℓ
  Nexts d it (none, it') = (it' ≡ drained it) × (left it ≡ left (drained it))
  Nexts d it (some x, it') = (left it ≡ x ∷ left it') × (depth it' ≤ suc d)

  next_item-Nexts :
      (d : ℕ) (nx : MatchedIter V → Option (Item V) × MatchedIter V)
      → ((it : MatchedIter V) → depth it ≤ d → Yields d (left it) (nx it))
      → (it : MatchedIter V) → depth it ≤ suc d
      → Nexts d it (next_item nx it)
  unfolding left depth next_item
  next_item-Nexts d nx h (iter n path sp (x ∷ cur) ss) b = (refl, b)
  next_item-Nexts d nx h (iter n path sp [] ss) b =
      go (poll nx ss) (poll-Polls d nx h ss (omega arith))
    where
      go :
          (r : Option (Item V) × SubIters V)
          → Polls d (left_subs ss) r
          → Nexts d (iter n path sp [] ss) (r.0, iter n path sp [] r.1)
      go (none, ss') p = (rw p.1, rw p.0)
      go (some x, ss') p = (rw p.0, omega arith)

  left-drained-prepare :
      (n : Node V) (path sp : List Level) → left (drained (prepare n path sp)) ≡ []
  unfolding prepare left
  left-drained-prepare n [] sp = refl
  left-drained-prepare n (l ∷ path) sp = elim (Bool-cases (is_isolated n sp l)) [
    | inl h ↦ rw h
    | inr h ↦ rw h
  ]

  refill-Yields :
      (d : ℕ) (nx : MatchedIter V → Option (Item V) × MatchedIter V)
      → ((it : MatchedIter V) → depth it ≤ d → Yields d (left it) (nx it))
      → (n : Node V) (path : List Level) (sp : Option (List Level)) → length path ≤ d
      → Yields (suc d) (left (iter n path sp [] done)) (refill nx (iter n path sp [] done))
  unfolding refill
  refill-Yields d nx h n path none b = unfold left in (refl, refl)
  refill-Yields d nx h n path (some sp) b =
      go (next_item nx (prepare n path sp))
        (next_item-Nexts d nx h (prepare n path sp) (omega (arith, depth-prepare n path sp)))
    where
      start : left (iter n path (some sp) [] done) ≡ left (prepare n path sp)
      start = unfold left in sym (left-prepare n path sp)

      go :
          (r : Option (Item V) × MatchedIter V)
          → Nexts d (prepare n path sp) r
          → Yields (suc d) (left (iter n path (some sp) [] done)) r
      go (none, it) p = (
        start ∙ p.1 ∙ left-drained-prepare n path sp,
        ap left p.0 ∙ left-drained-prepare n path sp,
      )
      go (some x, it) p = (start ∙ p.0, p.1)

  -- A call of `next` with enough fuel yields the first item that is left, and nothing only if no
  -- item is left.
  pub next-Yields :
      (fuel : ℕ) (it : MatchedIter V) → depth it ≤ fuel → Yields fuel (left it) (next fuel it)
  unfolding next
  next-Yields zero (iter n path sp cur ss) b = absurd (unfold depth in omega arith)
  next-Yields (suc fuel) (iter n path sp cur ss) b =
      go (next-Yields fuel) (next_item (next fuel) (iter n path sp cur ss))
        (next_item-Nexts fuel (next fuel) (next-Yields fuel) (iter n path sp cur ss) b)
    where
      short : length path ≤ fuel
      short = unfold depth in omega arith

      go :
          ((t : MatchedIter V) → depth t ≤ fuel → Yields fuel (left t) (next fuel t))
          → (r : Option (Item V) × MatchedIter V) → Nexts fuel (iter n path sp cur ss) r
          → Yields
              (suc fuel)
              (left (iter n path sp cur ss))
              (elim r.0 [ none ↦ refill (next fuel) r.1 | some x ↦ (some x, r.1) ])
      go ih (none, it) p = rw (p.0, p.1) (refill-Yields fuel (next fuel) ih n path sp short)
      go ih (some x, it) p = p

  -- The items of the first `k` calls, until a call yields nothing.
  unfoldable pub collect : ℕ → ℕ → MatchedIter V → List (Item V)
  collect zero fuel it = []
  collect (suc k) fuel it =
      let (o, it') = next fuel it in elim o [ none ↦ [] | some x ↦ x ∷ collect k fuel it' ]

  collect-left :
      (k fuel : ℕ) (it : MatchedIter V)
      → depth it ≤ fuel
      → length (left it) < k
      → collect k fuel it ≡ left it
  unfolding collect
  collect-left zero fuel it b h = absurd (omega arith)
  collect-left (suc k) fuel it b h = go (collect-left k fuel) (next fuel it) (next-Yields fuel it b)
    where
      go :
          ((t : MatchedIter V) → depth t ≤ fuel → length (left t) < k → collect k fuel t ≡ left t)
          → (r : Option (Item V) × MatchedIter V) → Yields fuel (left it) r
          → (elim r.0 [ none ↦ [] | some x ↦ x ∷ collect k fuel r.1 ]) ≡ left it
      go ih (none, it') y = sym y.0
      go ih (some x, it') y = ap (◌∷◌ x) (ih it' y.1 (omega (arith, ap length y.0))) ∙ sym y.0

  -- The walk over the matches of a topic ends, and yields the listed items in their order.
  pub collect-matches :
      (n : Node V) (topic : Topic)
      → collect (suc (length (items topic n []))) (suc (length topic)) (matches n topic)
        ≡ items topic n []
  unfolding items left
  collect-matches n topic =
      collect-left _ (suc (length topic)) (matches n topic) (unfold depth in omega arith)
        (omega arith)
