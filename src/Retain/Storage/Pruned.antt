-- ===== src/Retain/Storage/Pruned.antt =====
-- `_retain` of oximqtt/src/retain.rs with the closure of `remove_expired_messages`: one entry.
use oximqtt.Base.{
  ℕ, ◌+◌, ◌-◌, ◌^◌, ◌≡◌, refl, sym, ap, ◌∙◌, ◌||◌, true, false, Option, none, some, [], ◌∷◌, arith,
  if◌then◌else◌, inl, inr, Bool-cases, subst,
}
use oximqtt.Counter.{Counter}
use oximqtt.Counter.Bounds.{Shows, Shows-dec}
use oximqtt.Topic.{Level, Topic, level_eq, level_eq_iff}
use oximqtt.Retain.{
  Node, Branches, node, entry, get, is_none, is_bare, is_single, is_multi, values_size,
  values_size_branches, retain_value,
}
use oximqtt.Retain.Paths.{value_at, value_at-default, is_bare-default}
use oximqtt.Retain.Trees.{IsTree, AreTrees}
use oximqtt.Retain.Storage.{Retain, TimedValue, is_expired, keeps}
use oximqtt.Retain.Storage.Sizes.{weight, size_of_bare}

abbrev pub Message : Type 0
Message = TimedValue Retain

-- What is left of a value.
abbrev pub kept : ℕ → Option Message → Option Message
kept now none = none
kept now (some tv) = if is_expired now tv then none else some tv

abbrev pub under : Level → Topic → Branches Message → Option Message
under k t bs = elim (get k bs) [ none ↦ none | some n ↦ value_at t n ]

abbrev pub limit : ℕ
limit = 2 ^ 64 - 1

-- What holds of branches before and after.
pub record Pruned (now : ℕ) (bs : Branches Message) (s : Counter) (r : ℕ) (bs' : Branches Message)
    (s' : Counter) (r' : ℕ) : Type 0 where
  pub trees : AreTrees bs'
  pub count : r' + values_size_branches bs' ≡ r + values_size_branches bs
  pub below : (k : Level) (t : Topic) → under k t bs' ≡ kept now (under k t bs)
  pub gone : (k : Level) → get k bs ≡ none → get k bs' ≡ none
  pub shows :
      (m : ℕ) → Shows s (m + values_size_branches bs) → Shows s' (m + values_size_branches bs')

-- What is done to the value of a child.
pub value_lem :
    (now : ℕ) (v : Option Message) (s : Counter) (r : ℕ)
    → ((retain_value (keeps now) limit v (s, r)).0 ≡ kept now v)
      × ((retain_value (keeps now) limit v (s, r)).1.1 + weight (kept now v) ≡ r + weight v)
value_lem now none s r = (refl, refl)
value_lem now (some tv) s r = elim (Bool-cases (is_expired now tv)) [
  | inl b ↦ (rw (keeps, b) refl, rw (keeps, b) (omega arith))
  | inr b ↦ (rw (keeps, b) refl, rw (keeps, b) refl)
]

pub value-Shows :
    (now : ℕ) (v : Option Message) (s : Counter) (r m : ℕ)
    → Shows s (m + weight v)
    → Shows (retain_value (keeps now) limit v (s, r)).1.0 (m + weight (kept now v))
value-Shows now none s r m h = h
value-Shows now (some tv) s r m h = elim (Bool-cases (is_expired now tv)) [
  | inl b ↦ rw (keeps, b) (Shows-dec s (m + 1) (m + 0) h (omega arith))
  | inr b ↦ rw (keeps, b) h
]

under_here :
    (k j : Level) (t : Topic) (n : Node Message) (bs : Branches Message)
    → level_eq k j ≡ true
    → under j t (entry k n bs) ≡ value_at t n
unfolding get
under_here k j t n bs b = rw (under, get, b) refl

under_there :
    (k j : Level) (t : Topic) (n : Node Message) (bs : Branches Message)
    → level_eq k j ≡ false
    → under j t (entry k n bs) ≡ under j t bs
unfolding get
under_there k j t n bs b = ground (arith, b)

under_of :
    (bs bs' : Branches Message) (j : Level) (t : Topic)
    → get j bs ≡ get j bs'
    → under j t bs ≡ under j t bs'
under_of bs bs' j t e =
    ap (λ (o : Option (Node Message)). elim o [ none ↦ none | some n ↦ value_at t n ]) e

-- An entry, from what holds of its child, of the value of the child, and of the other entries.
module _ (now : ℕ) (k : Level) (v : Option Message) (bn bn' bs bs' : Branches Message)
    (s s₁ s₂ s₃ : Counter) (r r₁ r₂ r₃ : ℕ) (below_child : Pruned now bn s r bn' s₁ r₁)
    (counted : r₂ + weight (kept now v) ≡ r₁ + weight v)
    (shown : (m : ℕ) → Shows s₁ (m + weight v) → Shows s₂ (m + weight (kept now v)))
    (others : Pruned now bs s₂ r₂ bs' s₃ r₃) (fresh : is_none (get k bs) ≡ true)
    (plain : is_single k || is_multi k ≡ false) where
  unfoldable pub child : Node Message
  child = node (kept now v) bn'

  child_lem : (t : Topic) → value_at t child ≡ kept now (value_at t (node v bn))
  unfolding value_at child
  child_lem [] = refl
  child_lem (l ∷ t) = below_child.below l t

  size_child : values_size child ≡ values_size_branches bn' + weight (kept now v)
  unfolding values_size child
  size_child = refl

  unfoldable pub left : Branches Message
  left = if is_bare child then bs' else entry k child bs'

  size_left : values_size_branches left ≡ values_size child + values_size_branches bs'
  unfolding left values_size_branches
  size_left = elim (Bool-cases (is_bare child)) [
    | inl b ↦ rw b (let z = size_of_bare child b in omega (arith, z))
    | inr b ↦ rw b refl
  ]

  absent : get k bs' ≡ none
  absent = others.gone k (ground (arith, fresh))

  get-left : (j : Level) → level_eq k j ≡ false → get j left ≡ get j bs'
  unfolding left get
  get-left j e = elim (Bool-cases (is_bare child)) [
    | inl b ↦ rw b refl
    | inr b ↦ rw (b, get, e) refl
  ]

  under-left : (t : Topic) → under k t left ≡ value_at t child
  unfolding left get
  under-left t = elim (Bool-cases (is_bare child)) [
    | inl b ↦
        rw (b, under, absent) (sym (ap (value_at t) (is_bare-default child b) ∙ value_at-default t))
    | inr b ↦ rw b (ground (arith, level_eq_iff k k))
  ]

  AreTrees-left : AreTrees left
  unfolding left AreTrees IsTree child
  AreTrees-left = elim (Bool-cases (is_bare child)) [
    | inl b ↦ rw b others.trees
    | inr b ↦ rw b (plain, rw absent refl, below_child.trees, others.trees)
  ]

  pub entry-Pruned : Pruned now (entry k (node v bn) bs) s r left s₃ r₃
  unfolding values_size values_size_branches get
  entry-Pruned = record {
    trees = AreTrees-left;
    count = omega (arith, size_left, size_child, below_child.count, counted, others.count);
    below = λ j t. elim (Bool-cases (level_eq k j)) [
      | inl b ↦
          let q : k ≡ j = (level_eq_iff k j).0 b in
          subst (λ x. under x t left ≡ kept now (value_at t (node v bn))) q
            (under-left t ∙ child_lem t)
          ∙ ap (kept now) (sym (under_here k j t (node v bn) bs b))
      | inr b ↦
          under_of left bs' j t (get-left j b)
          ∙ others.below j t
          ∙ ap (kept now) (sym (under_there k j t (node v bn) bs b))
    ];
    gone = λ j h. elim (Bool-cases (level_eq k j)) [
      | inl b ↦ absurd (ground arith)
      | inr b ↦ get-left j b ∙ others.gone j (ground arith)
    ];
    shows = λ m h.
        let a =
          below_child.shows (m + weight v + values_size_branches bs)
            (subst (Shows s) (omega arith) h) in
        let b =
          shown (m + values_size_branches bs + values_size_branches bn')
            (subst (Shows s₁) (omega arith) a) in
        let c =
          others.shows (m + values_size child) (subst (Shows s₂) (omega (arith, size_child)) b) in
        subst (Shows s₃) (omega (arith, size_left)) c;
  }
