-- ===== src/Subscription/Keyed.antt =====
-- The collectors of oximqtt/src/types.rs: how often a client of each version is in them.
use oximqtt.Base.{
  ℕ, ◌+◌, ◌≡◌, refl, ◌∙◌, true, false, not, ◌&&◌, ◌==◌, ==_self, some, List, [], ◌∷◌, ◌++◌, arith,
  if◌then◌else◌, Bool-cases, Option-cases, inl, inr,
}
use mathlib.Core.List.{Memᴰ}
use mathlib.Core.List.Memᴰ
use oximqtt.Base.Bytes.{Bytes, bytes_eq, bytes_eq_iff}
use oximqtt.Base.Maps.{
  Map, lookup, has_key, IsMap, bytes_key, number_key, lookup-set, lookup-missing, has_key-set,
  IsMap-set,
}
use oximqtt.Subscription.{
  SubRelation, Collector, no_relations, merged, Call, relation_v3, relation_v5, add, entries,
  relations_of, CollectorMap, collector, collect, is_v3,
}
use oximqtt.Subscription.Calls.{collector-collect}

-- A collector has the relations of MQTT 3 and 5 apart, and those of 5 by their client.
pub record IsKeyed (r : Collector) : Type 0 where
  pub unique : IsMap r.v5_rels
  pub client :
      (k : Bytes) (x : SubRelation)
      → lookup k r.v5_rels ≡ some x
      → (x.client_id ≡ k) × (is_v3 x.opts ≡ false)
  pub older : (x : SubRelation) → Memᴰ x r.v3_rels → is_v3 x.opts ≡ true

add-IsKeyed : (c : Call) (r : Collector) → IsKeyed r → IsKeyed (add c r)
unfolding add
add-IsKeyed c r v = elim (Bool-cases (is_v3 c.opts)) [
  | inl b ↦
      rw (add, b)
        record {
          unique = v.unique;
          client = v.client;
          older = λ x z. elim (Memᴰ.append_cases r.v3_rels z) [
            | inl u ↦ v.older x u
            | inr u ↦ rw (Memᴰ.eq_of_singleton u) b
          ];
        }
  | inr b ↦
      let new = merged (relation_v5 c) (lookup c.client_id r.v5_rels) in
      let k : (new.client_id ≡ c.client_id) × (is_v3 new.opts ≡ false) =
        elim (Option-cases (lookup c.client_id r.v5_rels)) [
          | inl e ↦ rw e (refl, b)
          | inr (old, e) ↦ rw e (v.client c.client_id old e)
        ] in
      rw (add, b)
        record {
          unique = IsMap-set c.client_id new r.v5_rels v.unique;
          client = λ j x h. elim (Bool-cases (bytes_eq c.client_id j)) [
            | inl q ↦
                let w : new ≡ x = ground (arith, lookup-set c.client_id j new r.v5_rels) in
                rw (← w, ← (bytes_eq_iff c.client_id j).0 q) k
            | inr q ↦ v.client j x (ground (arith, lookup-set c.client_id j new r.v5_rels))
          ];
          older = v.older;
        }
]

abbrev pub AreKeyed : CollectorMap → Type 0
AreKeyed m = (n : ℕ) → IsKeyed (collector n m)

pub no_relations-IsKeyed : IsKeyed no_relations
unfolding IsMap lookup
no_relations-IsKeyed = record {
  unique = tt;
  client = λ k x h. absurd (ground arith);
  older = λ x z. absurd (Memᴰ.not-nil z);
}

pub collect-AreKeyed : (c : Call) (m : CollectorMap) → AreKeyed m → AreKeyed (collect c m)
collect-AreKeyed c m v n = elim (Bool-cases (c.node_id == n)) [
  | inr b ↦ rw (collector-collect n c m, b) (v n)
  | inl b ↦ rw (collector-collect n c m, b) (add-IsKeyed c (collector n m) (v n))
]

-- How many relations of MQTT 5 a client has.
unfoldable pub times : Bytes → List SubRelation → ℕ
times c [] = 0
times c (x ∷ xs) = (if not (is_v3 x.opts) && bytes_eq x.client_id c then 1 else 0) + times c xs

times-append : (c : Bytes) (xs ys : List SubRelation) → times c (xs ++ ys) ≡ times c xs + times c ys
unfolding times
times-append c [] ys = omega arith
times-append c (x ∷ xs) ys = omega (arith, times-append c xs ys)

times-older :
    (c : Bytes) (xs : List SubRelation)
    → ((x : SubRelation) → Memᴰ x xs → is_v3 x.opts ≡ true)
    → times c xs ≡ 0
unfolding times
times-older c [] h = refl
times-older c (x ∷ xs) h =
    let q = h x (Memᴰ.head refl) in
    let r = times-older c xs (λ y z. h y (Memᴰ.tail z)) in ground (arith, q, r)

times-entries :
    (c : Bytes) (m : Map Bytes SubRelation)
    → IsMap m
    → ((k : Bytes) (x : SubRelation)
        → lookup k m ≡ some x
        → (x.client_id ≡ k) × (is_v3 x.opts ≡ false))
    → times c (entries m) ≡ (if has_key c m then 1 else 0)
unfolding times has_key IsMap lookup
times-entries c [] h k = refl
times-entries c ((j, x) ∷ m) h k =
    let (p, q) = k j x (ground (arith, bytes_eq_iff j j)) in
    let r =
      times-entries c m h.1
        (λ i y e. k i y (ground (arith, lookup-missing j m h.0, bytes_eq_iff j i))) in
    ground (arith, p, q, r, bytes_eq_iff j c)

-- A client of MQTT 5 has one relation at most with a node, and one if it has a key.
pub times-relations_of :
    (c : Bytes) (r : Collector)
    → IsKeyed r
    → times c (relations_of r) ≡ (if has_key c r.v5_rels then 1 else 0)
unfolding relations_of
times-relations_of c r v =
    times-append c r.v3_rels (entries r.v5_rels)
    ∙ omega (arith, times-older c r.v3_rels v.older, times-entries c r.v5_rels v.unique v.client)

-- What calls keep: a relation of MQTT 3, and the key of a client of MQTT 5.
pub older-collect :
    (n : ℕ) (x : SubRelation) (c : Call) (m : CollectorMap)
    → Memᴰ x (collector n m).v3_rels
    → Memᴰ x (collector n (collect c m)).v3_rels
unfolding add
older-collect n x c m z = elim (Bool-cases (c.node_id == n)) [
  | inr b ↦ rw (collector-collect n c m, b) z
  | inl b ↦ elim (Bool-cases (is_v3 c.opts)) [
    | inl h ↦ rw (collector-collect n c m, b, add, h) (Memᴰ.append_left (relation_v3 c ∷ []) z)
    | inr h ↦ rw (collector-collect n c m, b, add, h) z
  ]
]

pub has_key-collect :
    (n : ℕ) (k : Bytes) (c : Call) (m : CollectorMap)
    → has_key k (collector n m).v5_rels ≡ true
    → has_key k (collector n (collect c m)).v5_rels ≡ true
unfolding add
has_key-collect n k c m z = elim (Bool-cases (c.node_id == n)) [
  | inr b ↦ rw (collector-collect n c m, b) z
  | inl b ↦ elim (Bool-cases (is_v3 c.opts)) [
    | inl h ↦ rw (collector-collect n c m, b, add, h) z
    | inr h ↦
        let r = collector n m in
        let new = merged (relation_v5 c) (lookup c.client_id r.v5_rels) in
        rw (collector-collect n c m, b, add, h)
          (ground (arith, has_key-set c.client_id k new r.v5_rels))
  ]
]

-- What a call makes true.
pub collect-older :
    (c : Call) (m : CollectorMap)
    → is_v3 c.opts ≡ true
    → Memᴰ (relation_v3 c) (collector c.node_id (collect c m)).v3_rels
unfolding add
collect-older c m h =
    rw (collector-collect c.node_id c m, ==_self c.node_id, add, h)
      (Memᴰ.append_right (collector c.node_id m).v3_rels (Memᴰ.head refl))

pub collect-has_key :
    (c : Call) (m : CollectorMap)
    → is_v3 c.opts ≡ false
    → has_key c.client_id (collector c.node_id (collect c m)).v5_rels ≡ true
unfolding add
collect-has_key c m h =
    let r = collector c.node_id m in
    let new = merged (relation_v5 c) (lookup c.client_id r.v5_rels) in
    rw (collector-collect c.node_id c m, ==_self c.node_id, add, h)
      (ground (
        arith,
        has_key-set c.client_id c.client_id new r.v5_rels,
        bytes_eq_iff c.client_id c.client_id,
      ))
