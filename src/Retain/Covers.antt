-- ===== src/Retain/Covers.antt =====
-- What the walk of oximqtt/src/retain.rs yields for a filter: all topics that the filter matches.
use oximqtt.Base.{
  ◌≡◌, refl, sym, ◌↔◌, true, ◌||◌, Option, none, some, List, [], ◌∷◌, ◌++◌, append-nil,
  append_assoc, arith, inl, inr, Option-cases,
}
use mathlib.Core.List.{Memᴰ}
use mathlib.Core.List.Memᴰ
use oximqtt.Topic.{Level, Topic, single_wildcard, multi_wildcard}
use oximqtt.Trie.Iter.{is_root_path}
use oximqtt.Trie.Matching.{Reaches, is_root_path-snoc}
use oximqtt.Retain.{
  Node, Branches, node, get, add_to_out, parent_value, is_single, is_multi, matches_from,
}
use oximqtt.Retain.Paths.{value_at}
use oximqtt.Retain.Trees.{AreTrees}
use oximqtt.Retain.Loops.{
  all_from, exact_lem, single_layer-each, multilayer-each, each_complete, IsPlain-of_get,
}
use oximqtt.Retain.Yields.{EndsInMulti, EndsInMulti-tail, Reaches-multi, Hit}

module _ {ℓ} {V : Type ℓ} where
  module _ (v : Option V) (bs : Branches V) (trees : AreTrees bs)
      (hyp : (k : Level) (n : Node V)
        → get k bs ≡ some n
        → (path sp : List Level) (it : Topic × V) → EndsInMulti path
        → Memᴰ it (all_from path sp n) ↔ Hit path sp n it) where
    value_in :
        (sp : List Level) (w : Option V) (x : V) → w ≡ some x → Memᴰ (sp, x) (add_to_out sp w)
    value_in sp w x e = rw e (Memᴰ.head refl)

    no_wildcard_key : (l : Level) → is_single l || is_multi l ≡ true → get l bs ≡ none
    no_wildcard_key l b = elim (Option-cases (get l bs)) [
      | inl e ↦ e
      | inr (n, e) ↦ let p = IsPlain-of_get l n bs trees e in absurd (ground (arith, p, b))
    ]

    -- A topic found through its first level.
    through :
        (l r : Level) (path sp t : List Level) (x : V) (n : Node V)
        → EndsInMulti (l ∷ path)
        → get r bs ≡ some n
        → value_at t n ≡ some x
        → Reaches (is_root_path sp) (l ∷ path) (r ∷ t)
        → Memᴰ (sp ++ (r ∷ t), x) (matches_from (l ∷ path) sp (node v bs))
    unfolding matches_from
    through l r path sp t x n w e q (inl (p, c)) =
        let e' : get l bs ≡ some n = rw p e in
        let z =
          (hyp l n e' path (sp ++ (l ∷ [])) (sp ++ (r ∷ t), x) (EndsInMulti-tail l path w)).1
            (t, rw p (sym (append_assoc sp (r ∷ []) t)), q, rw is_root_path-snoc c) in
        rw (matches_from, e') (rw (exact_lem l path sp n bs e') z)
    through l r path sp t x n w e q (inr (i, inl (p, f))) =
        let g : get multi_wildcard bs ≡ none = no_wildcard_key multi_wildcard refl in
        let body = λ (k : Level) (n : Node V). all_from (multi_wildcard ∷ []) (sp ++ (k ∷ [])) n in
        let z =
          (hyp r n e (multi_wildcard ∷ []) (sp ++ (r ∷ [])) (sp ++ (r ∷ t), x) tt).1
            (t, sym (append_assoc sp (r ∷ []) t), q, rw is_root_path-snoc (Reaches-multi t)) in
        rw (p, f)
          (rw (matches_from, g)
            (rw (multilayer-each [] sp bs) (each_complete body sp bs (sp ++ (r ∷ t), x) r n e i z)))
    through l r path sp t x n w e q (inr (i, inr (p, c))) =
        let g : get single_wildcard bs ≡ none = no_wildcard_key single_wildcard refl in
        let body = λ (k : Level) (n : Node V). all_from path (sp ++ (k ∷ [])) n in
        let z =
          (hyp r n e path (sp ++ (r ∷ [])) (sp ++ (r ∷ t), x) (EndsInMulti-tail l path w)).1
            (t, sym (append_assoc sp (r ∷ []) t), q, rw is_root_path-snoc c) in
        rw p (
          rw (matches_from, g)
            (rw (single_layer-each path sp bs)
              (each_complete body sp bs (sp ++ (r ∷ t), x) r n e i z)))

    pub all_complete :
        (path sp t : List Level) (x : V)
        → EndsInMulti path
        → value_at t (node v bs) ≡ some x
        → Reaches (is_root_path sp) path t
        → Memᴰ (sp ++ t, x) (all_from path sp (node v bs))
    unfolding matches_from value_at
    all_complete [] sp [] x w q c = rw (append-nil sp) (value_in sp v x q)
    all_complete [] sp (r ∷ t) x w q c = absurd c
    all_complete (multi_wildcard ∷ []) sp [] x w q c =
        rw (append-nil sp)
          (Memᴰ.append_left (matches_from (multi_wildcard ∷ []) sp (node v bs)) (value_in sp v x q))
    all_complete (l ∷ path) sp [] x w q c = absurd c
    all_complete (l ∷ path) sp (r ∷ t) x w q c = elim (Option-cases (get r bs)) [
      | inl e ↦ absurd (ground (arith, e))
      | inr (n, e) ↦
          let q' : value_at t n ≡ some x = rw (value_at, e) at q in
          Memᴰ.append_right (parent_value (l ∷ path) sp (node v bs))
            (through l r path sp t x n w e q' c)
    ]
