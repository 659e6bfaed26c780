-- ===== src/Retain/Filters.antt =====
-- Which retained messages a filter finds in the tree of oximqtt/src/retain.rs: those of the topics
-- that the router's tree would deliver to it.
use oximqtt.Base.{
  ◌≡◌, refl, sym, ap, ◌↔◌, true, false, Option, none, some, List, [], ◌∷◌, arith, inl, inr,
  Bool-cases, subst,
}
use mathlib.Core.List.{Memᴰ}
use mathlib.Core.List.Memᴰ
use oximqtt.Topic.{
  is_valid, Level, Topic, level_eq, normal, metadata, blank, single_wildcard, multi_wildcard,
}
use oximqtt.Trie.Matching.{Reaches}
use oximqtt.Retain.{Node, node, value, get, add_to_out, parent_value, is_multi, matches}
use oximqtt.Retain.Paths.{value_at}
use oximqtt.Retain.Trees.{IsTree, AreTrees, node_induction}
use oximqtt.Topic.Validity.{IsTail, IsWellFormed, is_valid_iff}
use oximqtt.Retain.Loops.{all_from}
use oximqtt.Retain.Yields.{EndsInMulti, Hit, all_sound}
use oximqtt.Retain.Covers.{all_complete}

module _ {ℓ} {V : Type ℓ} where
  all_iff :
      (n : Node V)
      → IsTree n
      → (path sp : List Level) (it : Topic × V) → EndsInMulti path
      → Memᴰ it (all_from path sp n) ↔ Hit path sp n it
  unfolding IsTree AreTrees get
  all_iff =
      node_induction
        (λ n.
          IsTree n
          → (path sp : List Level) (it : Topic × V) → EndsInMulti path
          → Memᴰ it (all_from path sp n) ↔ Hit path sp n it)
        (λ bs.
          AreTrees bs
          → (k : Level) (n : Node V) → get k bs ≡ some n
          → (path sp : List Level) (it : Topic × V) → EndsInMulti path
          → Memᴰ it (all_from path sp n) ↔ Hit path sp n it)
        (λ v bs ih h path sp it w. (
          all_sound v bs h (ih h) path sp it w,
          λ (t, p, q, c).
              subst (λ u. Memᴰ (u, it.1) (all_from path sp (node v bs))) (sym p)
                (all_complete v bs h (ih h) path sp t it.1 w q c),
        ))
        (λ h k n e. absurd (ground arith))
        (λ j m bs ih₁ ih₂ (p, d, t, r) k n e. elim (Bool-cases (level_eq j k)) [
          | inl b ↦ let q : m ≡ n = ground arith in rw (← q) (ih₁ t)
          | inr b ↦ ih₂ r k n (ground arith)
        ])

EndsInMulti-cons :
    (l : Level) (f : Topic) → is_multi l ≡ false → EndsInMulti f → EndsInMulti (l ∷ f)
EndsInMulti-cons l [] h w = tt
EndsInMulti-cons l (r ∷ f) h w = (h, w)

EndsInMulti-of_tail : (f : Topic) → IsTail f → EndsInMulti f
EndsInMulti-of_tail [] h = tt
EndsInMulti-of_tail (normal s ∷ f) h =
    EndsInMulti-cons (normal s) f refl (EndsInMulti-of_tail f h.2)
EndsInMulti-of_tail (metadata s ∷ f) h = absurd h
EndsInMulti-of_tail (blank ∷ f) h = EndsInMulti-cons blank f refl (EndsInMulti-of_tail f h)
EndsInMulti-of_tail (single_wildcard ∷ f) h =
    EndsInMulti-cons single_wildcard f refl (EndsInMulti-of_tail f h)
EndsInMulti-of_tail (multi_wildcard ∷ f) h = rw h tt

EndsInMulti-of_valid : (f : Topic) → IsWellFormed f → EndsInMulti f
EndsInMulti-of_valid [] h = tt
EndsInMulti-of_valid (normal s ∷ f) h = EndsInMulti-of_tail (normal s ∷ f) h
EndsInMulti-of_valid (metadata s ∷ f) h =
    EndsInMulti-cons (metadata s) f refl (EndsInMulti-of_tail f h.2)
EndsInMulti-of_valid (blank ∷ f) h = EndsInMulti-of_tail (blank ∷ f) h
EndsInMulti-of_valid (single_wildcard ∷ f) h = EndsInMulti-of_tail (single_wildcard ∷ f) h
EndsInMulti-of_valid (multi_wildcard ∷ f) h = EndsInMulti-of_tail (multi_wildcard ∷ f) h

no_root_value {ℓ} :
    {V : Type ℓ} (w : Option V) (l : Level) (t : Topic) (x : V)
    → Memᴰ (l ∷ t, x) (add_to_out [] w)
    → ⊥
no_root_value none l t x m = Memᴰ.not-nil m
no_root_value (some y) l t x m = cc (ap (λ z. z.0) (Memᴰ.eq_of_singleton m))

no_root_topic {ℓ} :
    {V : Type ℓ} (f : Topic) (n : Node V) (l : Level) (t : Topic) (x : V)
    → Memᴰ (l ∷ t, x) (parent_value f [] n)
    → ⊥
no_root_topic [] n l t x m = Memᴰ.not-nil m
no_root_topic (multi_wildcard ∷ f) n l t x m = no_root_value (value n) l t x m
no_root_topic (normal s ∷ f) n l t x m = Memᴰ.not-nil m
no_root_topic (metadata s ∷ f) n l t x m = Memᴰ.not-nil m
no_root_topic (blank ∷ f) n l t x m = Memᴰ.not-nil m
no_root_topic (single_wildcard ∷ f) n l t x m = Memᴰ.not-nil m

pub matches_sound {ℓ} :
    {V : Type ℓ} (n : Node V) (f t : Topic) (x : V)
    → IsTree n
    → is_valid f ≡ true
    → Memᴰ (t, x) (matches f n)
    → (value_at t n ≡ some x) × Reaches true f t
matches_sound n f t x h v m =
    let w = EndsInMulti-of_valid f ((is_valid_iff f).0 v) in
    let (u, p, q, r) = (all_iff n h f [] (t, x) w).0 (Memᴰ.append_right (parent_value f [] n) m) in
    subst (λ y. (value_at y n ≡ some x) × Reaches true f y) (sym p) (q, r)

-- A filter finds exactly the retained messages of the topics that it matches by the rules of the
-- router's tree, whatever the tree of the retained messages, if no topic in it has a wildcard.
pub matches_iff_Reaches {ℓ} :
    {V : Type ℓ} (n : Node V) (f : Topic) (l : Level) (t : Topic) (x : V)
    → IsTree n
    → is_valid f ≡ true
    → Memᴰ (l ∷ t, x) (matches f n) ↔ ((value_at (l ∷ t) n ≡ some x) × Reaches true f (l ∷ t))
matches_iff_Reaches n f l t x h v =
    let w = EndsInMulti-of_valid f ((is_valid_iff f).0 v) in
    let c = (all_iff n h f [] (l ∷ t, x) w).1 in
    (
      λ m. matches_sound n f (l ∷ t) x h v m,
      λ (q, r). elim (Memᴰ.append_cases (parent_value f [] n) (c (l ∷ t, refl, q, r))) [
        | inr m ↦ m
        | inl m ↦ absurd (no_root_topic f n l t x m)
      ],
    )
