-- ===== src/Retain/Yields.antt =====
-- What the walk of oximqtt/src/retain.rs yields for a filter: topics that the filter matches.
use oximqtt.Base.{
  ◌≡◌, refl, sym, ap, ◌∙◌, ◌↔◌, true, false, Option, none, some, List, [], ◌∷◌, ◌++◌, append-nil,
  append_assoc, arith, inl, inr, Option-cases, Bool-cases, subst,
}
use mathlib.Core.List.{Memᴰ}
use mathlib.Core.List.Memᴰ
use oximqtt.Topic.{Level, Topic, normal, metadata, blank, single_wildcard, multi_wildcard}
use oximqtt.Trie.Iter.{is_root_path}
use oximqtt.Trie.Matching.{Reaches, is_root_path-snoc}
use oximqtt.Retain.{
  Node, Branches, node, get, add_to_out, parent_value, is_single, is_multi, matches_from,
  multilayer,
}
use oximqtt.Retain.Paths.{value_at}
use oximqtt.Retain.Trees.{AreTrees}
use oximqtt.Retain.Loops.{all_from, exact_lem, single_layer-each, multilayer-each, each_sound}

-- `#` stands last only.
abbrev pub EndsInMulti : Topic → Type 0
EndsInMulti [] = Unit
EndsInMulti (l ∷ []) = Unit
EndsInMulti (l ∷ r ∷ f) = (is_multi l ≡ false) × EndsInMulti (r ∷ f)

pub EndsInMulti-tail : (l : Level) (f : Topic) → EndsInMulti (l ∷ f) → EndsInMulti f
EndsInMulti-tail l [] h = tt
EndsInMulti-tail l (r ∷ f) h = h.1

pub nothing_after : (l : Level) (f : Topic) → EndsInMulti (l ∷ f) → is_multi l ≡ true → f ≡ []
nothing_after l [] h e = refl
nothing_after l (r ∷ f) h e = absurd (ground (arith, h.0))

single_of : (l : Level) → is_single l ≡ true → l ≡ single_wildcard
single_of single_wildcard h = refl
single_of (normal s) h = cc
single_of (metadata s) h = cc
single_of blank h = cc
single_of multi_wildcard h = cc

multi_of : (l : Level) → is_multi l ≡ true → l ≡ multi_wildcard
multi_of multi_wildcard h = refl
multi_of (normal s) h = cc
multi_of (metadata s) h = cc
multi_of blank h = cc
multi_of single_wildcard h = cc

-- What is under `#` matches it.
pub Reaches-multi : (t : Topic) → Reaches false (multi_wildcard ∷ []) t
Reaches-multi [] = tt
Reaches-multi (r ∷ t) = inr (refl, inl (refl, refl))

module _ {ℓ} {V : Type ℓ} where
  -- What the walk may yield below a node: the topic goes on from the path walked so far.
  abbrev pub Hit : List Level → List Level → Node V → Topic × V → Type ℓ
  Hit path sp n it =
      (t : Topic) × (it.0 ≡ sp ++ t) × (value_at t n ≡ some it.1) × Reaches (is_root_path sp) path t

  Hit-cons :
      (path sp : List Level) (k : Level) (v : Option V) (n : Node V) (bs : Branches V)
      (it : Topic × V)
      → get k bs ≡ some n
      → Hit path (sp ++ (k ∷ [])) n it
      → (t : Topic) × (it.0 ≡ sp ++ (k ∷ t))
        × (value_at (k ∷ t) (node v bs) ≡ some it.1)
        × Reaches false path t
  unfolding value_at
  Hit-cons path sp k v n bs it e (t, p, q, c) =
      (t, p ∙ append_assoc sp (k ∷ []) t, rw (value_at, e) q, rw is_root_path-snoc at c)

  module _ (v : Option V) (bs : Branches V) (trees : AreTrees bs)
      (hyp : (k : Level) (n : Node V)
        → get k bs ≡ some n
        → (path sp : List Level) (it : Topic × V) → EndsInMulti path
        → Memᴰ it (all_from path sp n) ↔ Hit path sp n it) where
    in_value :
        (sp : List Level) (w : Option V) (it : Topic × V)
        → Memᴰ it (add_to_out sp w)
        → (it.0 ≡ sp) × (w ≡ some it.1)
    in_value sp none it m = absurd (Memᴰ.not-nil m)
    in_value sp (some x) it m =
        let q = Memᴰ.eq_of_singleton m in (ap (λ y. y.0) q, ap (λ y. some y.1) (sym q))

    walk_sound :
        (l : Level) (path sp : List Level) (it : Topic × V)
        → EndsInMulti (l ∷ path)
        → Memᴰ it (matches_from (l ∷ path) sp (node v bs))
        → Hit (l ∷ path) sp (node v bs) it
    unfolding matches_from
    walk_sound l path sp it w m = elim (Option-cases (get l bs)) [
      | inr (n, e) ↦
          let z = rw (exact_lem l path sp n bs e) at (rw (matches_from, e) at m) in
          let h = (hyp l n e path (sp ++ (l ∷ [])) it (EndsInMulti-tail l path w)).0 z in
          let (t, p, q, c) = Hit-cons path sp l v n bs it e h in (l ∷ t, p, q, inl (refl, c))
      | inl e ↦ elim (Bool-cases (is_single l)) [
        | inl b ↦
            let z = rw (single_layer-each path sp bs) at (rw (matches_from, e, b) at m) in
            let (k, n, g, i, y) =
              each_sound (λ k n. all_from path (sp ++ (k ∷ [])) n) sp bs it trees z in
            let h = (hyp k n g path (sp ++ (k ∷ [])) it (EndsInMulti-tail l path w)).0 y in
            let (t, p, q, c) = Hit-cons path sp k v n bs it g h in
            (k ∷ t, p, q, inr (i, inr (single_of l b, c)))
        | inr b ↦ elim (Bool-cases (is_multi l)) [
          | inr d ↦ absurd (Memᴰ.not-nil (rw (matches_from, e, b, d) at m))
          | inl d ↦
              let r = nothing_after l path w d in
              let m' : Memᴰ it (multilayer [] sp bs) =
                subst (λ u. Memᴰ it (multilayer u sp bs)) r (rw (matches_from, e, b, d) at m) in
              let body =
                λ (k : Level) (n : Node V). all_from (multi_wildcard ∷ []) (sp ++ (k ∷ [])) n in
              let (k, n, g, i, y) =
                each_sound body sp bs it trees (rw (multilayer-each [] sp bs) at m') in
              let h = (hyp k n g (multi_wildcard ∷ []) (sp ++ (k ∷ [])) it tt).0 y in
              let (t, p, q, c) = Hit-cons (multi_wildcard ∷ []) sp k v n bs it g h in
              (k ∷ t, p, q, inr (i, inl (multi_of l d, r)))
        ]
      ]
    ]

    parent_sound :
        (l : Level) (path sp : List Level) (it : Topic × V)
        → EndsInMulti (l ∷ path)
        → Memᴰ it (parent_value (l ∷ path) sp (node v bs))
        → Hit (l ∷ path) sp (node v bs) it
    unfolding value_at
    parent_sound multi_wildcard path sp it w m =
        let (p, q) = in_value sp v it m in
        ([], p ∙ sym (append-nil sp), q, rw (nothing_after multi_wildcard path w refl) tt)
    parent_sound (normal s) path sp it w m = absurd (Memᴰ.not-nil m)
    parent_sound (metadata s) path sp it w m = absurd (Memᴰ.not-nil m)
    parent_sound blank path sp it w m = absurd (Memᴰ.not-nil m)
    parent_sound single_wildcard path sp it w m = absurd (Memᴰ.not-nil m)

    pub all_sound :
        (path sp : List Level) (it : Topic × V)
        → EndsInMulti path
        → Memᴰ it (all_from path sp (node v bs))
        → Hit path sp (node v bs) it
    unfolding matches_from value_at
    all_sound [] sp it w m = let (p, q) = in_value sp v it m in ([], p ∙ sym (append-nil sp), q, tt)
    all_sound (l ∷ path) sp it w m =
        elim (Memᴰ.append_cases (parent_value (l ∷ path) sp (node v bs)) m) [
          | inl z ↦ parent_sound l path sp it w z
          | inr z ↦ walk_sound l path sp it w z
        ]
