-- ===== src/Retain/Trees.antt =====
-- The trees that oximqtt/src/retain.rs builds, and induction over them.
use oximqtt.Base.{
  ◌≡◌, refl, true, false, ◌||◌, Option, some, [], ◌∷◌, All, arith, inl, inr, Option-cases,
  Bool-cases,
}
use oximqtt.Topic.{Level, Topic, level_eq, level_eq_iff}
use oximqtt.Retain.{
  Node, Branches, node, nil, entry, get, put, drop_key, get_or_default, is_none, is_bare, insert,
  remove, is_single, is_multi,
}
use oximqtt.Retain.Paths.{get-put, get-drop_key}

unfoldable mutual
  -- No key is a wildcard, and no key has two branches.
  pub IsTree {ℓ} : {V : Type ℓ} → Node V → Type 0
  IsTree (node v bs) = AreTrees bs

  pub AreTrees {ℓ} : {V : Type ℓ} → Branches V → Type 0
  AreTrees nil = Unit
  AreTrees (entry k n bs) =
      (is_single k || is_multi k ≡ false) × (is_none (get k bs) ≡ true) × IsTree n × AreTrees bs

mutual
  pub node_induction {ℓ κ} :
      {V : Type ℓ} (P : Node V → Type κ) (Q : Branches V → Type κ)
      → ((v : Option V) (bs : Branches V) → Q bs → P (node v bs))
      → Q nil
      → ((k : Level) (n : Node V) (bs : Branches V) → P n → Q bs → Q (entry k n bs))
      → (n : Node V) → P n
  node_induction P Q pn qn qe (node v bs) = pn v bs (branches_induction P Q pn qn qe bs)

  pub branches_induction {ℓ κ} :
      {V : Type ℓ} (P : Node V → Type κ) (Q : Branches V → Type κ)
      → ((v : Option V) (bs : Branches V) → Q bs → P (node v bs))
      → Q nil
      → ((k : Level) (n : Node V) (bs : Branches V) → P n → Q bs → Q (entry k n bs))
      → (bs : Branches V) → Q bs
  branches_induction P Q pn qn qe nil = qn
  branches_induction P Q pn qn qe (entry k n bs) =
      qe k n bs (node_induction P Q pn qn qe n) (branches_induction P Q pn qn qe bs)

-- A level that a topic of a message can have.
abbrev pub IsPlain : Level → Type 0
IsPlain l = is_single l || is_multi l ≡ false

module _ {ℓ} {V : Type ℓ} where
  AreTrees-put :
      (l : Level) (n : Node V) (bs : Branches V)
      → IsPlain l
      → IsTree n
      → AreTrees bs
      → AreTrees (put l n bs)
  unfolding put AreTrees get IsTree
  AreTrees-put l n nil p t h = (p, refl, t, tt)
  AreTrees-put l n (entry k m bs) p t (w, u, s, r) = elim (Bool-cases (level_eq k l)) [
    | inl b ↦ rw (put, b) (w, u, t, r)
    | inr b ↦
        rw (put, b)
          (
            w,
            ground (arith, get-put l k n bs, level_eq_iff k l, level_eq_iff l k),
            s,
            AreTrees-put l n bs p t r,
          )
  ]

  AreTrees-drop_key : (l : Level) (bs : Branches V) → AreTrees bs → AreTrees (drop_key l bs)
  unfolding drop_key AreTrees
  AreTrees-drop_key l nil h = tt
  AreTrees-drop_key l (entry k m bs) (w, u, s, r) = elim (Bool-cases (level_eq k l)) [
    | inl b ↦ rw (drop_key, b) (AreTrees-drop_key l bs r)
    | inr b ↦ rw (drop_key, b) (w, ground (arith, get-drop_key l k bs), s, AreTrees-drop_key l bs r)
  ]

  pub IsTree-get :
      (l : Level) (n : Node V) (bs : Branches V) → AreTrees bs → get l bs ≡ some n → IsTree n
  unfolding get AreTrees
  IsTree-get l n nil h e = absurd (ground arith)
  IsTree-get l n (entry k m bs) (w, u, s, r) e = elim (Bool-cases (level_eq k l)) [
    | inl b ↦ let q : m ≡ n = ground arith in rw (← q) s
    | inr b ↦ IsTree-get l n bs r (ground arith)
  ]

  -- `insert` for a topic without wildcards keeps the tree well formed.
  pub insert-IsTree :
      (path : Topic) (v : V) (n : Node V) → All IsPlain path → IsTree n → IsTree (insert path v n)
  unfolding insert IsTree
  insert-IsTree [] v (node w bs) p t = t
  insert-IsTree (l ∷ path) v (node w bs) p t =
      AreTrees-put l (insert path v (get_or_default l bs)) bs p.0
        (insert-IsTree path v (get_or_default l bs) p.1 (elim (Option-cases (get l bs)) [
          | inl e ↦ rw (get_or_default, e) (unfold IsTree AreTrees in tt)
          | inr (x, e) ↦ rw (get_or_default, e) (IsTree-get l x bs t e)
        ]))
        t

  -- `remove` keeps the tree well formed.
  pub remove-IsTree :
      (path : Topic) (n : Node V) → All IsPlain path → IsTree n → IsTree (remove path n).0
  unfolding remove IsTree
  remove-IsTree [] (node w bs) p t = t
  remove-IsTree (l ∷ path) (node w bs) p t = elim (Option-cases (get l bs)) [
    | inl e ↦ rw (remove, e) t
    | inr (x, e) ↦ elim (Bool-cases (is_bare (remove path x).0)) [
      | inl b ↦ rw (remove, e, b) (AreTrees-drop_key l bs t)
      | inr b ↦
          rw (remove, e, b)
            (AreTrees-put l (remove path x).0 bs p.0
              (remove-IsTree path x p.1 (IsTree-get l x bs t e)) t)
    ]
  ]
