-- ===== src/Base/Maps.antt =====
-- A `HashMap` or `DashMap` as the list of its entries, with one entry for each key at most.
use Prim.Native.Nat.{ℕ, suc}
use oximqtt.Base.Tests.{if◌then◌else◌, ◌==◌, ==_iff, Bool-cases}
use oximqtt.Base.Lists.{length}
use oximqtt.Base.Bytes.{Bytes, bytes_eq, bytes_eq_iff}
use mathlib.Core.Path.{◌≡◌, refl, sym, ap, ap₂}
use mathlib.Core.Logic.{◌↔◌, inl, inr}
use mathlib.Core.Bool.{Bool, true, false, ◌||◌, ◌&&◌, not}
use mathlib.Core.Option.{Option, none, some}
use mathlib.Core.List.{List, [], ◌∷◌, Memᴰ}
use mathlib.Core.List.Memᴰ
use native.Mathlib.Omega.{arith}

-- `Eq`, of a key.
pub record Eq {ℓ} (A : Type ℓ) : Type ℓ where
  pub beq : A → A → Bool
  pub beq_iff : (a b : A) → (beq a b ≡ true) ↔ (a ≡ b)

instance abbrev pub bytes_key : Eq Bytes
bytes_key = record { beq = bytes_eq; beq_iff = bytes_eq_iff }

instance abbrev pub number_key : Eq ℕ
number_key = record { beq = ◌==◌; beq_iff = ==_iff }

abbrev pub Map {ℓ κ} : Type ℓ → Type κ → Type (ℓ ⊔ κ)
Map K V = List (K × V)

module _ {ℓ κ} {K : Type ℓ} {V : Type κ} ⦃e : Eq K⦄ where
  -- `HashMap::get`
  unfoldable pub lookup : K → Map K V → Option V
  lookup k [] = none
  lookup k ((j, v) ∷ m) = if e.beq j k then some v else lookup k m

  unfoldable pub has_key : K → Map K V → Bool
  has_key k [] = false
  has_key k ((j, v) ∷ m) = e.beq j k || has_key k m

  -- `HashMap::insert`
  unfoldable pub set : K → V → Map K V → Map K V
  set k v [] = (k, v) ∷ []
  set k v ((j, w) ∷ m) = if e.beq j k then (j, v) ∷ m else (j, w) ∷ set k v m

  -- `HashMap::remove`
  unfoldable pub unset : K → Map K V → Map K V
  unset k [] = []
  unset k ((j, w) ∷ m) = if e.beq j k then m else (j, w) ∷ unset k m

  -- No key has two entries.
  unfoldable pub IsMap : Map K V → Type 0
  IsMap [] = Unit
  IsMap ((k, v) ∷ m) = (has_key k m ≡ false) × IsMap m

  pub lookup-missing : (k : K) (m : Map K V) → has_key k m ≡ false → lookup k m ≡ none
  unfolding lookup has_key
  lookup-missing k [] h = refl
  lookup-missing k ((j, v) ∷ m) h = ground (arith, lookup-missing k m)

  pub lookup-set :
      (k j : K) (v : V) (m : Map K V)
      → lookup j (set k v m) ≡ (if e.beq k j then some v else lookup j m)
  unfolding lookup set
  lookup-set k j v [] = refl
  lookup-set k j v ((i, w) ∷ m) =
      ground (arith, lookup-set k j v m, e.beq_iff i k, e.beq_iff i j, e.beq_iff k j)

  pub has_key-set :
      (k j : K) (v : V) (m : Map K V) → has_key j (set k v m) ≡ (e.beq k j || has_key j m)
  unfolding has_key set
  has_key-set k j v [] = ground arith
  has_key-set k j v ((i, w) ∷ m) =
      ground (arith, has_key-set k j v m, e.beq_iff i k, e.beq_iff i j, e.beq_iff k j)

  pub IsMap-set : (k : K) (v : V) (m : Map K V) → IsMap m → IsMap (set k v m)
  unfolding IsMap set has_key
  IsMap-set k v [] h = (refl, tt)
  IsMap-set k v ((j, w) ∷ m) h = elim (Bool-cases (e.beq j k)) [
    | inl b ↦ rw (set, b) h
    | inr b ↦
        rw (set, b)
          (ground (arith, has_key-set k j v m, e.beq_iff j k, e.beq_iff k j), IsMap-set k v m h.1)
  ]

  pub length-set :
      (k : K) (v : V) (m : Map K V)
      → length (set k v m) ≡ (if has_key k m then length m else suc (length m))
  unfolding set has_key
  length-set k v [] = refl
  length-set k v ((j, w) ∷ m) = ground (arith, length-set k v m)

  pub lookup-unset :
      (k j : K) (m : Map K V)
      → IsMap m
      → lookup j (unset k m) ≡ (if e.beq k j then none else lookup j m)
  unfolding lookup unset IsMap
  lookup-unset k j [] h = ground arith
  lookup-unset k j ((i, w) ∷ m) h =
      ground
        (arith, lookup-unset k j m, lookup-missing i m, e.beq_iff i k, e.beq_iff i j, e.beq_iff k j)

  pub has_key-unset :
      (k j : K) (m : Map K V) → IsMap m → has_key j (unset k m) ≡ (not (e.beq k j) && has_key j m)
  unfolding has_key unset IsMap
  has_key-unset k j [] h = ground arith
  has_key-unset k j ((i, w) ∷ m) h =
      ground (arith, has_key-unset k j m, e.beq_iff i k, e.beq_iff i j, e.beq_iff k j)

  pub IsMap-unset : (k : K) (m : Map K V) → IsMap m → IsMap (unset k m)
  unfolding IsMap unset
  IsMap-unset k [] h = tt
  IsMap-unset k ((j, w) ∷ m) h = elim (Bool-cases (e.beq j k)) [
    | inl b ↦ rw (unset, b) h.1
    | inr b ↦ rw (unset, b) (ground (arith, has_key-unset k j m h.1), IsMap-unset k m h.1)
  ]

  pub length-unset :
      (k : K) (m : Map K V) → has_key k m ≡ true → suc (length (unset k m)) ≡ length m
  unfolding unset has_key
  length-unset k [] h = ground arith
  length-unset k ((j, w) ∷ m) h = ground (arith, length-unset k m)

  has_key_of_entry : (k : K) (v : V) (m : Map K V) → Memᴰ (k, v) m → has_key k m ≡ true
  unfolding has_key
  has_key_of_entry k v [] t = absurd (Memᴰ.not-nil t)
  has_key_of_entry k v ((j, w) ∷ m) (Memᴰ.head p) =
      let q = ap (λ (x : K × V). x.0) p in ground (arith, e.beq_iff j k)
  has_key_of_entry k v ((j, w) ∷ m) (Memᴰ.tail h) = ground (arith, has_key_of_entry k v m h)

  entry_sound : (k : K) (v : V) (m : Map K V) → IsMap m → Memᴰ (k, v) m → lookup k m ≡ some v
  unfolding lookup IsMap
  entry_sound k v [] h t = absurd (Memᴰ.not-nil t)
  entry_sound k v ((j, w) ∷ m) h (Memᴰ.head p) =
      let q = ap (λ (x : K × V). x.0) p in
      let r = ap (λ (x : K × V). x.1) p in ground (arith, e.beq_iff j k)
  entry_sound k v ((j, w) ∷ m) h (Memᴰ.tail t) =
      ground (arith, e.beq_iff j k, has_key_of_entry k v m t, entry_sound k v m h.1 t)

  entry_complete : (k : K) (v : V) (m : Map K V) → lookup k m ≡ some v → Memᴰ (k, v) m
  unfolding lookup
  entry_complete k v [] h = ground arith
  entry_complete k v ((j, w) ∷ m) h = elim (Bool-cases (e.beq j k)) [
    | inl b ↦
        let q : j ≡ k = (e.beq_iff j k).0 b in
        let r : w ≡ v = ground arith in Memᴰ.head (ap₂ (λ (x : K) (y : V). (x, y)) (sym q) (sym r))
    | inr b ↦ Memᴰ.tail (entry_complete k v m (ground arith))
  ]

  -- The entries of a map are what its keys look up.
  pub entry_iff : (k : K) (v : V) (m : Map K V) → IsMap m → Memᴰ (k, v) m ↔ (lookup k m ≡ some v)
  entry_iff k v m h = (entry_sound k v m h, entry_complete k v m)
