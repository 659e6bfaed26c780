-- ===== src/Subscription/Calls.antt =====
-- What the calls of `add` leave in the collectors of oximqtt/src/types.rs.
use oximqtt.Base.{
  ℕ, ◌≡◌, refl, sym, ap, ◌==◌, ==_iff, some, [], ◌∷◌, ◌++◌, arith, if◌then◌else◌, Bool-cases,
  Option-cases, inl, inr, ◌⊎◌,
}
use mathlib.Core.List.{Memᴰ}
use mathlib.Core.List.Memᴰ
use oximqtt.Base.Bytes.{Bytes}
use oximqtt.Base.Maps.{Map, lookup, set, bytes_key, number_key, lookup-set}
use oximqtt.Subscription.{
  SubscriptionOptions, SubRelation, Collector, merged, Call, relation_v3, relation_v5, add, entries,
  relations_of, CollectorMap, collector, collect, is_v3,
}

pub collector-collect :
    (n : ℕ) (c : Call) (m : CollectorMap)
    → collector n (collect c m) ≡ (if c.node_id == n then add c (collector n m) else collector n m)
unfolding collect
collector-collect n c m =
    ground (arith, lookup-set c.node_id n (add c (collector c.node_id m)) m, ==_iff c.node_id n)

-- Two relations with the same filter, client and options.
abbrev pub SameSource : SubRelation → SubRelation → Type 0
SameSource x y = (x.topic_filter ≡ y.topic_filter) × (x.client_id ≡ y.client_id) × (x.opts ≡ y.opts)

entries-set :
    (k : Bytes) (v x : SubRelation) (m : Map Bytes SubRelation)
    → Memᴰ x (entries (set k v m))
    → (x ≡ v) ⊎ Memᴰ x (entries m)
unfolding set
entries-set k v x [] (Memᴰ.head p) = inl p
entries-set k v x [] (Memᴰ.tail z) = inr z
entries-set k v x ((j, w) ∷ m) z = elim (Bool-cases (bytes_key.beq j k)) [
  | inl b ↦ elim (rw (set, b) at z) [ Memᴰ.head p ↦ inl p | Memᴰ.tail t ↦ inr (Memᴰ.tail t) ]
  | inr b ↦ elim (rw (set, b) at z) [
    | Memᴰ.head p ↦ inr (Memᴰ.head p)
    | Memᴰ.tail t ↦ elim (entries-set k v x m t) [ inl p ↦ inl p | inr y ↦ inr (Memᴰ.tail y) ]
  ]
]

entry_of_lookup :
    (k : Bytes) (x : SubRelation) (m : Map Bytes SubRelation)
    → lookup k m ≡ some x
    → Memᴰ x (entries m)
unfolding lookup
entry_of_lookup k x [] h = absurd (ground arith)
entry_of_lookup k x ((j, w) ∷ m) h = elim (Bool-cases (bytes_key.beq j k)) [
  | inl b ↦ let q : w ≡ x = ground arith in Memᴰ.head (sym q)
  | inr b ↦ Memᴰ.tail (entry_of_lookup k x m (ground arith))
]

relations_of-add :
    (c : Call) (r : Collector) (x : SubRelation)
    → Memᴰ x (relations_of (add c r))
    → SameSource x (relation_v3 c) ⊎ ((y : SubRelation) × Memᴰ y (relations_of r) × SameSource x y)
unfolding add relations_of
relations_of-add c r x z = elim (Bool-cases (is_v3 c.opts)) [
  | inl b ↦ elim (Memᴰ.append_cases (r.v3_rels ++ (relation_v3 c ∷ [])) (rw (add, b) at z)) [
    | inl u ↦ elim (Memᴰ.append_cases r.v3_rels u) [
      | inl w ↦ inr (x, Memᴰ.append_left (entries r.v5_rels) w, (refl, refl, refl))
      | inr w ↦
          let q = Memᴰ.eq_of_singleton w in
          inl (ap (λ y. y.topic_filter) q, ap (λ y. y.client_id) q, ap (λ y. y.opts) q)
    ]
    | inr u ↦ inr (x, Memᴰ.append_right r.v3_rels u, (refl, refl, refl))
  ]
  | inr b ↦ elim (Memᴰ.append_cases r.v3_rels (rw (add, b) at z)) [
    | inl u ↦ inr (x, Memᴰ.append_left (entries r.v5_rels) u, (refl, refl, refl))
    | inr u ↦
        elim (entries-set c.client_id (merged (relation_v5 c) (lookup c.client_id r.v5_rels)) x
          r.v5_rels u) [
            | inr w ↦ inr (x, Memᴰ.append_right r.v3_rels w, (refl, refl, refl))
            | inl q ↦ elim (Option-cases (lookup c.client_id r.v5_rels)) [
              | inl e ↦
                  let q' = rw e at q in
                  inl (ap (λ y. y.topic_filter) q', ap (λ y. y.client_id) q', ap (λ y. y.opts) q')
              | inr (old, e) ↦
                  let q' = rw e at q in
                  inr (
                    old,
                    Memᴰ.append_right r.v3_rels (entry_of_lookup c.client_id old r.v5_rels e),
                    (ap (λ y. y.topic_filter) q', ap (λ y. y.client_id) q', ap (λ y. y.opts) q'),
                  )
            ]
          ]
  ]
]

module _ (P : ℕ → Bytes → Bytes → SubscriptionOptions → Type 0) where
  -- What is said of the node, the filter, the client and the options of every relation.
  abbrev pub IsSound : CollectorMap → Type 0
  IsSound m =
      (n : ℕ) (x : SubRelation)
      → Memᴰ x (relations_of (collector n m))
      → P n x.topic_filter x.client_id x.opts

  pub collect-IsSound :
      (c : Call) (m : CollectorMap)
      → P c.node_id c.topic_filter c.client_id c.opts
      → IsSound m
      → IsSound (collect c m)
  collect-IsSound c m p s n x z = elim (Bool-cases (c.node_id == n)) [
    | inr b ↦ s n x (rw (collector-collect n c m, b) at z)
    | inl b ↦ elim (relations_of-add c (collector n m) x (rw (collector-collect n c m, b) at z)) [
      | inl (f, k, o) ↦ rw (f, k, o, ← (==_iff c.node_id n).0 b) p
      | inr (y, u, (f, k, o)) ↦ rw (f, k, o) (s n y u)
    ]
  ]
