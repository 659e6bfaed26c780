-- ===== src/Retain/Loops.antt =====
-- The loops of the walk of oximqtt/src/retain.rs: the branches they come by.
use oximqtt.Base.{
  ◌≡◌, refl, sym, true, false, some, List, [], ◌∷◌, ◌++◌, append-nil, arith, inl, inr, Bool-cases,
}
use mathlib.Core.List.{Memᴰ}
use mathlib.Core.List.Memᴰ
use oximqtt.Topic.{Level, Topic, level_eq, level_eq_iff, multi_wildcard}
use oximqtt.Retain.{
  Node, Branches, node, nil, entry, value, branches, get, has_no_branches, add_to_out, parent_value,
  is_isolated, matches_from, exact, single_layer, multilayer,
}
use oximqtt.Retain.Trees.{AreTrees, IsPlain}

module _ {ℓ} {V : Type ℓ} where
  -- What the walk yields below a node, with the value of the node itself for a last `#`.
  abbrev pub all_from : List Level → List Level → Node V → List (Topic × V)
  all_from path sp n = parent_value path sp n ++ matches_from path sp n

  -- The loops of the walk.
  unfoldable pub each :
      (Level → Node V → List (Topic × V)) → List Level → Branches V → List (Topic × V)
  each body sp nil = []
  each body sp (entry k n bs) = elim (is_isolated sp k) [
    | true ↦ each body sp bs
    | false ↦ body k n ++ each body sp bs
  ]

  pub exact_lem :
      (l : Level) (path sp : List Level) (n : Node V) (bs : Branches V)
      → get l bs ≡ some n
      → exact l path sp bs ≡ all_from path (sp ++ (l ∷ [])) n
  unfolding exact get
  exact_lem l path sp n nil e = absurd (ground arith)
  exact_lem l path sp n (entry k m bs) e = elim (Bool-cases (level_eq k l)) [
    | inl b ↦ let q : m ≡ n = ground arith in rw (exact, b, ← q) refl
    | inr b ↦ rw (exact, b) (exact_lem l path sp n bs (ground arith))
  ]

  pub single_layer-each :
      (path sp : List Level) (bs : Branches V)
      → single_layer path sp bs ≡ each (λ k n. all_from path (sp ++ (k ∷ [])) n) sp bs
  unfolding single_layer each
  single_layer-each path sp nil = refl
  single_layer-each path sp (entry k n bs) = elim (Bool-cases (is_isolated sp k)) [
    | inl b ↦ rw (single_layer, each, b) (single_layer-each path sp bs)
    | inr b ↦ rw (single_layer, each, b) (rw (single_layer-each path sp bs) refl)
  ]

  multilayer_body :
      (path sp : List Level) (n : Node V)
      → (elim (has_no_branches (branches n)) [
        | true ↦ add_to_out sp (value n)
        | false ↦ add_to_out sp (value n) ++ matches_from (multi_wildcard ∷ path) sp n
      ])
        ≡ all_from (multi_wildcard ∷ path) sp n
  unfolding matches_from multilayer get
  multilayer_body path sp (node v nil) = sym (append-nil _)
  multilayer_body path sp (node v (entry k n bs)) = refl

  pub multilayer-each :
      (path sp : List Level) (bs : Branches V)
      → multilayer path sp bs
        ≡ each (λ k n. all_from (multi_wildcard ∷ path) (sp ++ (k ∷ [])) n) sp bs
  unfolding multilayer each
  multilayer-each path sp nil = refl
  multilayer-each path sp (entry k n bs) = elim (Bool-cases (is_isolated sp k)) [
    | inl b ↦ rw (multilayer, each, b) (multilayer-each path sp bs)
    | inr b ↦
        rw (multilayer, each, b)
          (rw (multilayer_body path (sp ++ (k ∷ [])) n, multilayer-each path sp bs) refl)
  ]

  pub each_sound :
      (body : Level → Node V → List (Topic × V)) (sp : List Level) (bs : Branches V)
      (it : Topic × V)
      → AreTrees bs
      → Memᴰ it (each body sp bs)
      → (k : Level) × (n : Node V) × (get k bs ≡ some n)
        × (is_isolated sp k ≡ false)
        × Memᴰ it (body k n)
  unfolding each AreTrees get
  each_sound body sp nil it h m = absurd (Memᴰ.not-nil m)
  each_sound body sp (entry j n bs) it (p, d, t, r) m = elim (Bool-cases (is_isolated sp j)) [
    | inl b ↦
        let (k, x, e, i, z) = each_sound body sp bs it r (rw (each, b) at m) in
        (k, x, ground (arith, level_eq_iff j k), i, z)
    | inr b ↦ elim (Memᴰ.append_cases (body j n) (rw (each, b) at m)) [
      | inl z ↦ (j, n, ground (arith, level_eq_iff j j), b, z)
      | inr u ↦
          let (k, x, e, i, z) = each_sound body sp bs it r u in
          (k, x, ground (arith, level_eq_iff j k), i, z)
    ]
  ]

  pub each_complete :
      (body : Level → Node V → List (Topic × V)) (sp : List Level) (bs : Branches V)
      (it : Topic × V) (k : Level) (n : Node V)
      → get k bs ≡ some n
      → is_isolated sp k ≡ false
      → Memᴰ it (body k n)
      → Memᴰ it (each body sp bs)
  unfolding each get
  each_complete body sp nil it k n e i z = absurd (ground arith)
  each_complete body sp (entry j x bs) it k n e i z = elim (Bool-cases (level_eq j k)) [
    | inl b ↦
        let q : x ≡ n = ground arith in
        let w : j ≡ k = (level_eq_iff j k).0 b in rw (w, q) (rw (each, i) (Memᴰ.append_left _ z))
    | inr b ↦
        let rest = each_complete body sp bs it k n (ground arith) i z in
        elim (Bool-cases (is_isolated sp j)) [
          | inl c ↦ rw (each, c) rest
          | inr c ↦ rw (each, c) (Memᴰ.append_right (body j x) rest)
        ]
  ]

  pub IsPlain-of_get :
      (k : Level) (n : Node V) (bs : Branches V) → AreTrees bs → get k bs ≡ some n → IsPlain k
  unfolding AreTrees get
  IsPlain-of_get k n nil h e = absurd (ground arith)
  IsPlain-of_get k n (entry j m bs) (p, d, t, r) e = elim (Bool-cases (level_eq j k)) [
    | inl b ↦ rw (← (level_eq_iff j k).0 b) p
    | inr b ↦ IsPlain-of_get k n bs r (ground arith)
  ]
