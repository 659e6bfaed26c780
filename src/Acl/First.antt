-- ===== src/Acl/First.antt =====
-- The first entry of a list that passes a test, for the loops over access rules.
use oximqtt.Base.{
  ◌≡◌, refl, Bool, true, false, ◌⊎◌, inl, inr, List, [], ◌∷◌, ◌++◌, All, if◌then◌else◌, ap, ◌↔◌,
  arith, subst, sym,
}

module _ {ℓ} {A : Type ℓ} (hits : A → Bool) where
  -- An entry passes, and none before it does.
  abbrev pub IsFirst : List A → A → Type ℓ
  IsFirst xs x =
      (before : List A) × (after : List A) × (xs ≡ before ++ (x ∷ after))
      × All (λ y. hits y ≡ false) before
      × (hits x ≡ true)

  module _ {κ} {B : Type κ} (answer : A → B) (default : B) where
    -- The answer is by the first entry that passes, and the default if no entry does.
    abbrev pub Decides : List A → B → Type (ℓ ⊔ κ)
    Decides xs o =
        ((x : A) × IsFirst xs x × (o ≡ answer x)) ⊎ (All (λ y. hits y ≡ false) xs × (o ≡ default))

    Decides-cons :
        (x : A) (xs : List A) (o : B) → hits x ≡ false → Decides xs o → Decides (x ∷ xs) o
    Decides-cons x xs o h (inl (y, (before, after, e, a, b), q)) =
        inl (y, (x ∷ before, after, ap (◌∷◌ x) e, (h, a), b), q)
    Decides-cons x xs o h (inr (a, q)) = inr ((h, a), q)

    -- The step of such a loop.
    pub Decides-step :
        (x : A) (xs : List A) (o : B)
        → Decides xs o
        → Decides (x ∷ xs) (if hits x then answer x else o)
    Decides-step x xs o d = go (hits x) refl
      where
        go : (b : Bool) → hits x ≡ b → Decides (x ∷ xs) (if b then answer x else o)
        go true h = inl (x, ([], xs, refl, tt, h), refl)
        go false h = Decides-cons x xs o h d

module _ {ℓ κ μ} {A : Type ℓ} {B : Type μ} (P : A → Type κ) (IsAnswer : A → B → Type κ)
    (IsDefault : B → Type κ) where
  -- What is answered is by the first entry of which `P` holds, and the default if it holds of none.
  abbrev pub DecidedBy : List A → B → Type (ℓ ⊔ κ)
  DecidedBy xs o =
      ((x : A) × (before : List A) × (after : List A) × (xs ≡ before ++ (x ∷ after))
        × All (λ y. ¬ P y) before
        × P x
        × IsAnswer x o)
      ⊎ (All (λ y. ¬ P y) xs × IsDefault o)

  -- A test that says whether `P` holds.
  module _ (hits : A → Bool) (hits_iff : (x : A) → (hits x ≡ true) ↔ P x) (answer : A → B)
      (answers : (x : A) → IsAnswer x (answer x)) (default : B) (defaults : IsDefault default) where
    none_of : (xs : List A) → All (λ y. hits y ≡ false) xs → All (λ y. ¬ P y) xs
    none_of [] h = tt
    none_of (x ∷ xs) h = (λ p. absurd (let e = (hits_iff x).1 p in ground arith), none_of xs h.1)

    pub by_test : (xs : List A) (o : B) → Decides hits answer default xs o → DecidedBy xs o
    by_test xs o (inl (x, (before, after, e, a, b), q)) = inl (
      x,
      before,
      after,
      e,
      none_of before a,
      (hits_iff x).0 b,
      subst (λ z. IsAnswer x z) (sym q) (answers x),
    )
    by_test xs o (inr (a, q)) = inr (none_of xs a, subst (λ z. IsDefault z) (sym q) defaults)
