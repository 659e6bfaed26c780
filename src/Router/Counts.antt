-- ===== src/Router/Counts.antt =====
-- The counters of oximqtt/src/router.rs against its relations.
use oximqtt.Base.{
  ℕ, ◌+◌, ◌≤◌, ◌<◌, ◌^◌, ◌≡◌, refl, ap, ◌∙◌, true, some, [], ◌∷◌, ok, arith, length, Result-cases,
  inl, inr,
}
use oximqtt.Base.Bytes.{Bytes, bytes_eq_iff}
use oximqtt.Base.Maps.{
  lookup, has_key, set, unset, bytes_key, length-set, length-unset, has_key-set,
}
use oximqtt.Topic.{from_str}
use oximqtt.Subscription.{IdData, SubscriptionOptions}
use oximqtt.Counter.Bounds.{Shows, Shows-inc_if, Shows-dec}
use oximqtt.Router.{
  DefaultRouter, Relations, AllRelationsMap, or_empty, is_none, is_empty, add, add_parsed, remove,
}
use oximqtt.Router.Keys.{IsValid, has_key-lookup}
use oximqtt.Router.Updates.{owns, removed, refused, one_less, last_one}

-- How many relations there are.
unfoldable pub size : AllRelationsMap → ℕ
size [] = 0
size ((f, m) ∷ all) = length m + size all

size-set :
    (f : Bytes) (m : Relations) (all : AllRelationsMap)
    → size (set f m all) + length (or_empty (lookup f all)) ≡ size all + length m
unfolding size set lookup
size-set f m [] = omega arith
size-set f m ((g, l) ∷ all) = ground (arith, size-set f m all)

size-unset :
    (f : Bytes) (m : Relations) (all : AllRelationsMap)
    → lookup f all ≡ some m
    → size (unset f all) + length m ≡ size all
unfolding size unset lookup
size-unset f m [] h = ground arith
size-unset f m ((g, l) ∷ all) h = ground (arith, size-unset f m all)

-- The counters show how many filters and how many relations there are.
abbrev pub IsCounted : DefaultRouter → Type 0
IsCounted r = Shows r.topics_count (length r.relations) × Shows r.relations_count (size r.relations)

-- `add` keeps the counters right, as long as they have room.
pub add-IsCounted :
    (f : Bytes) (id : IdData) (opts : SubscriptionOptions) (r r' : DefaultRouter)
    → IsCounted r
    → length r.relations + 1 < 2 ^ 63
    → size r.relations + 1 < 2 ^ 63
    → add f id opts r ≡ ok r'
    → IsCounted r'
unfolding add add_parsed
add-IsCounted f id opts r r' (a, b) u v h = elim (Result-cases (from_str f)) [
  | inr (e, p) ↦ ground arith
  | inl (t, p) ↦
      let q : add_parsed f t id opts r ≡ r' = ground arith in
      let rels = or_empty (lookup f r.relations) in
      let new = set id.client_id (id, opts) rels in
      rw (← q) (
        Shows-inc_if (is_none (lookup f r.relations)) r.topics_count (length r.relations)
            (length (set f new r.relations)) a u
            (ground (arith, length-set f new r.relations, has_key-lookup f r.relations)),
        Shows-inc_if (is_none (lookup id.client_id rels)) r.relations_count (size r.relations)
            (size (set f new r.relations)) b v
            (ground (
              arith,
              size-set f new r.relations,
              length-set id.client_id (id, opts) rels,
              has_key-lookup id.client_id rels,
            )),
      )
]

size-without :
    (f c : Bytes) (rels : Relations) (r : DefaultRouter)
    → lookup f r.relations ≡ some rels
    → has_key c rels ≡ true
    → size (set f (unset c rels) r.relations) + 1 ≡ size r.relations
size-without f c rels r e h =
    let q : or_empty (lookup f r.relations) ≡ rels = rw e refl in
    omega (arith, rw q at (size-set f (unset c rels) r.relations), length-unset c rels h)

length-without :
    (f c : Bytes) (rels : Relations) (r : DefaultRouter)
    → lookup f r.relations ≡ some rels
    → length (set f (unset c rels) r.relations) ≡ length r.relations
length-without f c rels r e =
    ground (arith, length-set f (unset c rels) r.relations, has_key-lookup f r.relations)

owns-has_key :
    (f : Bytes) (id : IdData) (rels : Relations) (r : DefaultRouter)
    → lookup f r.relations ≡ some rels
    → owns f id r ≡ true
    → has_key id.client_id rels ≡ true
owns-has_key f id rels r e o =
    let q = has_key-lookup id.client_id rels in let o' = rw (owns, e) at o in ground (arith, q, o')

size-empty :
    (f : Bytes) (m : Relations) (all : AllRelationsMap)
    → is_empty m ≡ true
    → size (unset f (set f m all)) ≡ size (set f m all)
unfolding size set unset
size-empty f [] [] h = ground (arith, bytes_eq_iff f f)
size-empty f [] ((g, l) ∷ all) h = ground (arith, size-empty f [] all)
size-empty f (x ∷ m) all h = absurd (ground arith)

-- `remove` keeps the counters right in a valid router.
pub remove-IsCounted :
    (f : Bytes) (id : IdData) (r : DefaultRouter)
    → IsValid r
    → IsCounted r
    → IsCounted (remove f id r).1
remove-IsCounted f id r v (a, b) = elim (removed f id r v) [
  | refused o q ↦ rw q (a, b)
  | one_less rels e o h q ↦ rw q (
    rw (length-without f id.client_id rels r e) a,
    Shows-dec r.relations_count _ _ b
        (size-without f id.client_id rels r e (owns-has_key f id rels r e o)),
  )
  | last_one rels t e o h p q ↦
      let left = unset id.client_id rels in
      rw q (
        Shows-dec r.topics_count _ _ a (
            ground (
              arith,
              length-without f id.client_id rels r e,
              length-unset f (set f left r.relations),
              has_key-set f f left r.relations,
              bytes_eq_iff f f,
            )),
        Shows-dec r.relations_count _ _ b (
            ap (λ x. x + 1) (size-empty f left r.relations h)
            ∙ size-without f id.client_id rels r e (owns-has_key f id rels r e o)),
      )
]

-- No request adds more than one filter and one relation.
pub add-sizes :
    (f : Bytes) (id : IdData) (opts : SubscriptionOptions) (r r' : DefaultRouter)
    → add f id opts r ≡ ok r'
    → (length r'.relations ≤ length r.relations + 1) × (size r'.relations ≤ size r.relations + 1)
unfolding add add_parsed
add-sizes f id opts r r' h = elim (Result-cases (from_str f)) [
  | inr (e, p) ↦ ground arith
  | inl (t, p) ↦
      let q : add_parsed f t id opts r ≡ r' = ground arith in
      let rels = or_empty (lookup f r.relations) in
      let new = set id.client_id (id, opts) rels in
      rw (← q) (
        ground (arith, length-set f new r.relations),
        ground (arith, size-set f new r.relations, length-set id.client_id (id, opts) rels),
      )
]

pub remove-sizes :
    (f : Bytes) (id : IdData) (r : DefaultRouter)
    → IsValid r
    → (length (remove f id r).1.relations ≤ length r.relations)
      × (size (remove f id r).1.relations ≤ size r.relations)
remove-sizes f id r v = elim (removed f id r v) [
  | refused o q ↦ rw q (omega arith, omega arith)
  | one_less rels e o h q ↦
      let c = owns-has_key f id rels r e o in
      rw q (
        omega (arith, length-without f id.client_id rels r e),
        omega (arith, size-without f id.client_id rels r e c),
      )
  | last_one rels t e o h p q ↦
      let left = unset id.client_id rels in
      let c = owns-has_key f id rels r e o in
      rw q (
        ground (
          arith,
          length-without f id.client_id rels r e,
          length-unset f (set f left r.relations),
          has_key-set f f left r.relations,
          bytes_eq_iff f f,
        ),
        omega (arith, size-empty f left r.relations h, size-without f id.client_id rels r e c),
      )
]
