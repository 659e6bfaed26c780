-- ===== src/Trie/Matching.antt =====
-- Which filters the walk of oximqtt/src/trie.rs yields for a topic.
use oximqtt.Base.{
  ◌≡◌, refl, ap, sym, ◌∙◌, ◌≢◌, ◌⊎◌, inl, inr, Bool, true, false, ◌&&◌, not, Option, none, some,
  List, [], ◌∷◌, ◌++◌, append-nil, append_assoc, arith, Bool-cases,
}
use mathlib.Core.List.{Memᴰ}
use mathlib.Core.List.Memᴰ
use oximqtt.Topic.{Level, Topic, single_wildcard, multi_wildcard, is_metadata}
use oximqtt.Trie.{Node, node, values, branches, get}
use oximqtt.Trie.Paths.{values_at}
use oximqtt.Trie.Iter.{
  Item, add_to_items, add_multi, is_isolated, is_root_path, is_blank, contains_key,
}
use oximqtt.Trie.Items.{items}

-- A level that a wildcard at the root of the tree does not take.
abbrev pub is_blocked : Bool → Level → Bool
is_blocked root r = root && (not (is_blank r) && is_metadata r)

-- The filters that match the levels of a topic: each level by itself or by `+`, the rest or the
-- parent by a last `#`. At the root no wildcard takes a level that begins with `$`.
abbrev pub Reaches : Bool → Topic → Topic → Type 0
Reaches root [] [] = Unit
Reaches root (multi_wildcard ∷ []) [] = Unit
Reaches root (k ∷ f) [] = ⊥
Reaches root [] (r ∷ path) = ⊥
Reaches root (k ∷ f) (r ∷ path) =
    ((k ≡ r) × Reaches false f path)
    ⊎ ((is_blocked root r ≡ false)
        × (((k ≡ multi_wildcard) × (f ≡ [])) ⊎ ((k ≡ single_wildcard) × Reaches false f path)))

pub is_root_path-snoc : (sp : List Level) (k : Level) → is_root_path (sp ++ (k ∷ [])) ≡ false
is_root_path-snoc [] k = refl
is_root_path-snoc (l ∷ sp) k = refl

module _ {ℓ} {V : Type ℓ} where
  pub values_at-cons :
      (k : Level) (f : Topic) (n : Node V) {b : Node V}
      → get k (branches n) ≡ some b
      → values_at (k ∷ f) n ≡ values_at f b
  unfolding values_at
  values_at-cons k f (node vs bs) e = rw (e, values_at) refl

  pub values_at-missing :
      (k : Level) (f : Topic) (n : Node V) → get k (branches n) ≡ none → values_at (k ∷ f) n ≡ []
  unfolding values_at
  values_at-missing k f (node vs bs) e = rw (e, values_at) refl

  add_to_items_sound :
      (sp : List Level) (ws : List V) (rest : List (Item V)) (it : Item V)
      → Memᴰ it (add_to_items sp ws rest)
      → ((it.0 ≡ sp) × (it.1 ≡ ws) × (it.1 ≢ [])) ⊎ Memᴰ it rest
  add_to_items_sound sp [] rest it m = inr m
  add_to_items_sound sp (v ∷ vs) rest it (Memᴰ.head e) =
      inl (ap (λ x. x.0) e, ap (λ x. x.1) e, λ q. cc (q, ap (λ x. x.1) e))
  add_to_items_sound sp (v ∷ vs) rest it (Memᴰ.tail m) = inr m

  pub add_to_items-here :
      (sp : List Level) (ws : List V) (rest : List (Item V))
      → ws ≢ []
      → Memᴰ (sp, ws) (add_to_items sp ws rest)
  add_to_items-here sp [] rest h = absurd (h refl)
  add_to_items-here sp (v ∷ vs) rest h = Memᴰ.head refl

  pub add_to_items-there :
      (sp : List Level) (ws : List V) (rest : List (Item V)) (it : Item V)
      → Memᴰ it rest
      → Memᴰ it (add_to_items sp ws rest)
  add_to_items-there sp [] rest it m = m
  add_to_items-there sp (v ∷ vs) rest it m = Memᴰ.tail m

  -- An item of the walk below a node: a filter that goes on from the path walked so far.
  abbrev pub Found : Node V → List Level → List Level → Item V → Type ℓ
  Found n path sp it =
      (f : Topic) × (it.0 ≡ sp ++ f)
      × (it.1 ≡ values_at f n)
      × (it.1 ≢ [])
      × Reaches (is_root_path sp) f path

  pub values_at-nil : (n : Node V) → values_at [] n ≡ values n
  unfolding values_at
  values_at-nil n = refl

  add_multi_sound :
      (n : Node V) (sp : List Level) (it : Item V)
      → Memᴰ it (add_multi n sp [])
      → (it.0 ≡ sp ++ (multi_wildcard ∷ []))
        × (it.1 ≡ values_at (multi_wildcard ∷ []) n)
        × (it.1 ≢ [])
        × (contains_key multi_wildcard n ≡ true)
  add_multi_sound n sp it m = go (get multi_wildcard (branches n)) refl m
    where
      go :
          (o : Option (Node V))
          → get multi_wildcard (branches n) ≡ o
          → Memᴰ it (elim o [
            | none ↦ []
            | some b ↦ add_to_items (sp ++ (multi_wildcard ∷ [])) (values b) []
          ])
          → (it.0 ≡ sp ++ (multi_wildcard ∷ []))
            × (it.1 ≡ values_at (multi_wildcard ∷ []) n)
            × (it.1 ≢ [])
            × (contains_key multi_wildcard n ≡ true)
      go none e m' = absurd (Memᴰ.not-nil m')
      go (some b) e m' = elim (add_to_items_sound _ (values b) [] it m') [
        | inl (p, q, r) ↦ (
          p,
          q ∙ sym (values_at-nil b) ∙ sym (values_at-cons multi_wildcard [] n e),
          r,
          rw (e, contains_key),
        )
        | inr h ↦ absurd (Memᴰ.not-nil h)
      ]

  branch_sound :
      (n : Node V) (k : Level) (path sp : List Level) (it : Item V)
      → Memᴰ it (elim (get k (branches n)) [ none ↦ [] | some b ↦ items path b (sp ++ (k ∷ [])) ])
      → (b : Node V) × (get k (branches n) ≡ some b) × Memᴰ it (items path b (sp ++ (k ∷ [])))
  branch_sound n k path sp it m = go (get k (branches n)) refl m
    where
      go :
          (o : Option (Node V))
          → get k (branches n) ≡ o
          → Memᴰ it (elim o [ none ↦ [] | some b ↦ items path b (sp ++ (k ∷ [])) ])
          → (b : Node V) × (get k (branches n) ≡ some b) × Memᴰ it (items path b (sp ++ (k ∷ [])))
      go none e m' = absurd (Memᴰ.not-nil m')
      go (some b) e m' = (b, e, m')

  -- Below a branch the walk is past the root.
  Found-cons :
      (n b : Node V) (k : Level) (path sp : List Level) (it : Item V)
      → get k (branches n) ≡ some b
      → Found b path (sp ++ (k ∷ [])) it
      → (f : Topic) × (it.0 ≡ sp ++ (k ∷ f))
        × (it.1 ≡ values_at (k ∷ f) n)
        × (it.1 ≢ [])
        × Reaches false f path
  Found-cons n b k path sp it e (f, p, q, r, c) = (
    f,
    p ∙ append_assoc sp (k ∷ []) f,
    q ∙ sym (values_at-cons k f n e),
    r,
    rw is_root_path-snoc at c,
  )

  unblocked :
      (n : Node V) (sp : List Level) (l : Level)
      → is_isolated n sp l ≡ false
      → (contains_key multi_wildcard n ≡ true) ⊎ (contains_key single_wildcard n ≡ true)
      → is_blocked (is_root_path sp) l ≡ false
  unblocked n sp l h c = ground arith

  contains_key_of_get :
      (k : Level) (n b : Node V) → get k (branches n) ≡ some b → contains_key k n ≡ true
  contains_key_of_get k n b e = rw (e, contains_key)

  module _ (n : Node V) (l : Level) (path sp : List Level) (it : Item V) where
    exact_sound :
        ((b : Node V) (sp' : List Level) → Memᴰ it (items path b sp') → Found b path sp' it)
        → Memᴰ it (elim (get l (branches n)) [ none ↦ [] | some b ↦ items path b (sp ++ (l ∷ [])) ])
        → Found n (l ∷ path) sp it
    exact_sound ih m =
        let (b, e, m') = branch_sound n l path sp it m in
        let (f, p, q, r, c) = Found-cons n b l path sp it e (ih b (sp ++ (l ∷ [])) m') in
        (l ∷ f, p, q, r, inl (refl, c))

    single_sound :
        is_isolated n sp l ≡ false
        → ((b : Node V) (sp' : List Level) → Memᴰ it (items path b sp') → Found b path sp' it)
        → Memᴰ it (elim (get single_wildcard (branches n)) [
          | none ↦ []
          | some b ↦ items path b (sp ++ (single_wildcard ∷ []))
        ])
        → Found n (l ∷ path) sp it
    single_sound h ih m =
        let (b, e, m') = branch_sound n single_wildcard path sp it m in
        let (f, p, q, r, c) =
          Found-cons n b single_wildcard path sp it e (ih b (sp ++ (single_wildcard ∷ [])) m') in
        let free = unblocked n sp l h (inr (contains_key_of_get single_wildcard n b e)) in
        (single_wildcard ∷ f, p, q, r, inr (free, inr (refl, c)))

    multi_sound :
        is_isolated n sp l ≡ false → Memᴰ it (add_multi n sp []) → Found n (l ∷ path) sp it
    multi_sound h m =
        let (p, q, r, c) = add_multi_sound n sp it m in
        (multi_wildcard ∷ [], p, q, r, inr (unblocked n sp l h (inl c), inl (refl, refl)))

  pub items_sound :
      (path : List Level) (n : Node V) (sp : List Level) (it : Item V)
      → Memᴰ it (items path n sp)
      → Found n path sp it
  unfolding items
  items_sound [] n sp it m = elim (add_to_items_sound sp (values n) (add_multi n sp []) it m) [
    | inl (p, q, r) ↦ ([], p ∙ sym (append-nil sp), q ∙ sym (values_at-nil n), r, tt)
    | inr h ↦ let (p, q, r, _) = add_multi_sound n sp it h in (multi_wildcard ∷ [], p, q, r, tt)
  ]
  items_sound (l ∷ path) n sp it m = elim (Bool-cases (is_isolated n sp l)) [
    | inl h ↦ exact_sound n l path sp it (λ b sp' m'. items_sound path b sp' it m') (rw h at m)
    | inr h ↦ elim (Memᴰ.append_cases _ (rw h at m)) [
      | inl m' ↦ multi_sound n l path sp it h m'
      | inr m' ↦ elim (Memᴰ.append_cases _ m') [
        | inl m'' ↦ single_sound n l path sp it h (λ b sp' k. items_sound path b sp' it k) m''
        | inr m'' ↦ exact_sound n l path sp it (λ b sp' k. items_sound path b sp' it k) m''
      ]
    ]
  ]
