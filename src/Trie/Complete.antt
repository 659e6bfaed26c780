-- ===== src/Trie/Complete.antt =====
-- Every filter that matches a topic is yielded by the walk of oximqtt/src/trie.rs, and no other.
use oximqtt.Base.{
  suc, length, ◌≡◌, refl, ◌≢◌, ◌↔◌, inl, inr, true, false, Option, none, some, List, [], ◌∷◌, ◌++◌,
  append-nil, append_assoc, arith, Bool-cases, ◌∙◌,
}
use mathlib.Core.List.{Memᴰ}
use mathlib.Core.List.Memᴰ
use oximqtt.Topic.{Level, Topic, single_wildcard, multi_wildcard}
use oximqtt.Trie.{Node, values, branches, get}
use oximqtt.Trie.Paths.{values_at}
use oximqtt.Trie.Iter.{Item, add_multi, is_isolated, is_root_path, matches}
use oximqtt.Trie.Items.{items, collect, collect-matches}
use oximqtt.Trie.Matching.{
  is_blocked, Reaches, is_root_path-snoc, values_at-cons, values_at-missing, values_at-nil,
  add_to_items-here, add_to_items-there, items_sound,
}

module _ {ℓ} {V : Type ℓ} where
  -- The item of a filter that goes on from the path walked so far.
  abbrev found : List Level → Topic → Node V → Item V
  found sp f n = (sp ++ f, values_at f n)

  branch-complete :
      (n : Node V) (k : Level) (path sp : List Level) (f : Topic)
      → values_at (k ∷ f) n ≢ []
      → ((b : Node V)
          → values_at f b ≢ []
          → Memᴰ (found (sp ++ (k ∷ [])) f b) (items path b (sp ++ (k ∷ []))))
      → Memᴰ
          (found sp (k ∷ f) n)
          (elim (get k (branches n)) [ none ↦ [] | some b ↦ items path b (sp ++ (k ∷ [])) ])
  branch-complete n k path sp f h ih = go (get k (branches n)) refl
    where
      go :
          (o : Option (Node V))
          → get k (branches n) ≡ o
          → Memᴰ
              (found sp (k ∷ f) n)
              (elim o [ none ↦ [] | some b ↦ items path b (sp ++ (k ∷ [])) ])
      go none e = absurd (h (values_at-missing k f n e))
      go (some b) e =
          let q = values_at-cons k f n e in
          rw (q, ← append_assoc sp (k ∷ []) f) (ih b (λ z. h (q ∙ z)))

  add_multi-complete :
      (n : Node V) (sp : List Level)
      → values_at (multi_wildcard ∷ []) n ≢ []
      → Memᴰ (found sp (multi_wildcard ∷ []) n) (add_multi n sp [])
  add_multi-complete n sp h = go (get multi_wildcard (branches n)) refl
    where
      go :
          (o : Option (Node V))
          → get multi_wildcard (branches n) ≡ o
          → Memᴰ (found sp (multi_wildcard ∷ []) n) (add_multi n sp [])
      go none e = absurd (h (values_at-missing multi_wildcard [] n e))
      go (some b) e =
          let q = values_at-cons multi_wildcard [] n e ∙ values_at-nil b in
          rw (q, e, add_multi) (add_to_items-here _ (values b) [] (λ z. h (q ∙ z)))

  not_isolated :
      (n : Node V) (sp : List Level) (r : Level)
      → is_blocked (is_root_path sp) r ≡ false
      → is_isolated n sp r ≡ false
  not_isolated n sp r h = ground arith

  -- An item below the exact branch is among the items, whether or not the level is isolated.
  exact-complete :
      (n : Node V) (r : Level) (path sp : List Level) (it : Item V)
      → Memᴰ it (elim (get r (branches n)) [ none ↦ [] | some b ↦ items path b (sp ++ (r ∷ [])) ])
      → Memᴰ it (items (r ∷ path) n sp)
  unfolding items
  exact-complete n r path sp it m = elim (Bool-cases (is_isolated n sp r)) [
    | inl h ↦ rw h m
    | inr h ↦ rw h (Memᴰ.append_right _ (Memᴰ.append_right _ m))
  ]

  single-complete :
      (n : Node V) (r : Level) (path sp : List Level) (it : Item V)
      → is_isolated n sp r ≡ false
      → Memᴰ it (elim (get single_wildcard (branches n)) [
        | none ↦ []
        | some b ↦ items path b (sp ++ (single_wildcard ∷ []))
      ])
      → Memᴰ it (items (r ∷ path) n sp)
  unfolding items
  single-complete n r path sp it h m = rw h (Memᴰ.append_right _ (Memᴰ.append_left _ m))

  multi-complete :
      (n : Node V) (r : Level) (path sp : List Level) (it : Item V)
      → is_isolated n sp r ≡ false
      → Memᴰ it (add_multi n sp [])
      → Memᴰ it (items (r ∷ path) n sp)
  unfolding items
  multi-complete n r path sp it h m = rw h (Memᴰ.append_left _ m)

  items-complete :
      (path : List Level) (n : Node V) (sp : List Level) (f : Topic)
      → Reaches (is_root_path sp) f path
      → values_at f n ≢ []
      → Memᴰ (found sp f n) (items path n sp)
  items-complete [] n sp [] c h =
      rw (append-nil sp, values_at-nil n)
        (unfold items in
          add_to_items-here sp (values n) (add_multi n sp []) (λ z. h (values_at-nil n ∙ z)))
  items-complete [] n sp (multi_wildcard ∷ []) c h =
      unfold items in
      add_to_items-there sp (values n) (add_multi n sp []) _ (add_multi-complete n sp h)
  items-complete [] n sp (k ∷ f) c h = absurd c
  items-complete (r ∷ path) n sp [] c h = absurd c
  items-complete (r ∷ path) n sp (k ∷ f) (inl (e, c)) h = rw e (
      exact-complete n r path sp (found sp (r ∷ f) n) (
        branch-complete n r path sp f (rw e at h)
          (λ b z. items-complete path b (sp ++ (r ∷ [])) f (rw is_root_path-snoc c) z)))
  items-complete (r ∷ path) n sp (k ∷ f) (inr (free, inl (e, z))) h =
      rw (e, z)
        (multi-complete n r path sp (found sp (multi_wildcard ∷ []) n) (not_isolated n sp r free)
          (add_multi-complete n sp (rw (e, z) at h)))
  items-complete (r ∷ path) n sp (k ∷ f) (inr (free, inr (e, c))) h = rw e (
      single-complete n r path sp (found sp (single_wildcard ∷ f) n) (not_isolated n sp r free) (
        branch-complete n single_wildcard path sp f (rw e at h) (λ b z.
          items-complete path b (sp ++ (single_wildcard ∷ [])) f (rw is_root_path-snoc c) z)))

  -- The walk for a topic yields exactly the filters that hold a value and match the topic, each
  -- with the values stored at it.
  items_iff :
      (n : Node V) (topic f : Topic) (vs : List V)
      → Memᴰ (f, vs) (items topic n []) ↔ ((vs ≡ values_at f n) × (vs ≢ []) × Reaches true f topic)
  items_iff n topic f vs = (
    λ m. let (g, p, q, r, c) = items_sound topic n [] (f, vs) m in rw p (q, r, c),
    λ (q, r, c). rw q (items-complete topic n [] f c (λ z. r (q ∙ z))),
  )

  -- Collecting the walk for a topic gives exactly the filters that hold a value and match the
  -- topic, each with the values stored at it; `length topic + 1` bounds the depth of the walk.
  pub matches_iff :
      (n : Node V) (topic f : Topic) (vs : List V)
      → Memᴰ
          (f, vs)
          (collect (suc (length (items topic n []))) (suc (length topic)) (matches n topic))
        ↔ ((vs ≡ values_at f n) × (vs ≢ []) × Reaches true f topic)
  matches_iff n topic f vs = rw (collect-matches n topic) (items_iff n topic f vs)
