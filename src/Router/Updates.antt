-- ===== src/Router/Updates.antt =====
-- What `add` and `remove` of oximqtt/src/router.rs change: one relation, of a client to a filter.
use oximqtt.Base.{
  ◌≡◌, refl, ◌∙◌, Bool, true, false, ◌&&◌, Option, none, some, [], ◌∷◌, ok, arith, if◌then◌else◌,
  Bool-cases, Option-cases, Result-cases, inl, inr,
}
use oximqtt.Base.Bytes.{Bytes, bytes_eq, bytes_eq_iff}
use oximqtt.Base.Maps.{Map, lookup, set, unset, bytes_key, lookup-set, IsMap-set, lookup-unset}
use oximqtt.Topic.{Topic, from_str}
use oximqtt.Trie
use oximqtt.Counter
use oximqtt.Subscription.{IdData, id_eq, SubscriptionOptions}
use oximqtt.Router.{
  DefaultRouter, unit_ord, Relations, or_empty, is_none, is_empty, add, add_parsed, remove_enable,
  remove_filter, without, remove,
}
use oximqtt.Router.Keys.{IsValid, filter-parsed}

-- The abstract view of the router: who is subscribed to what.
abbrev pub relation : Bytes → Bytes → DefaultRouter → Option (IdData × SubscriptionOptions)
relation f c r = lookup c (or_empty (lookup f r.relations))

-- `add` sets the relation of its client to its filter and leaves every other as it was.
pub relation-add :
    (f g c : Bytes) (id : IdData) (opts : SubscriptionOptions) (r r' : DefaultRouter)
    → add f id opts r ≡ ok r'
    → relation g c r'
      ≡ (if bytes_eq f g && bytes_eq id.client_id c then some (id, opts) else relation g c r)
unfolding add add_parsed
relation-add f g c id opts r r' h = elim (Result-cases (from_str f)) [
  | inr (e, p) ↦ ground arith
  | inl (t, p) ↦
      let q : add_parsed f t id opts r ≡ r' = ground arith in
      let rels = or_empty (lookup f r.relations) in
      rw (← q) (
        ground (
          arith,
          lookup-set f g (set id.client_id (id, opts) rels) r.relations,
          lookup-set id.client_id c (id, opts) rels,
          bytes_eq_iff f g,
        ))
]

-- The session that asks is the one that made the relation.
abbrev pub owns : Bytes → IdData → DefaultRouter → Bool
owns f id r = elim (relation f id.client_id r) [ none ↦ false | some old ↦ id_eq old.0 id ]

-- What is left of the router where the last relation of a filter goes.
abbrev pub pruned : Bytes → Topic → Bytes → Relations → DefaultRouter → DefaultRouter
pruned f t c rels r = record {
  topics = (Trie.remove t tt r.topics).0;
  topics_count = Counter.dec r.topics_count;
  relations = unset f (set f (unset c rels) r.relations);
  relations_count = Counter.dec r.relations_count;
}

-- The branches of `remove` in a valid router.
pub data Removed (f : Bytes) (id : IdData) (r : DefaultRouter) : Type 0 where
  refused : owns f id r ≡ false → remove f id r ≡ (ok false, r) → Removed f id r
  one_less :
      (rels : Relations)
      → lookup f r.relations ≡ some rels
      → owns f id r ≡ true
      → is_empty (unset id.client_id rels) ≡ false
      → remove f id r ≡ (ok true, without f id.client_id rels r)
      → Removed f id r
  last_one :
      (rels : Relations) (t : Topic)
      → lookup f r.relations ≡ some rels
      → owns f id r ≡ true
      → is_empty (unset id.client_id rels) ≡ true
      → from_str f ≡ ok t
      → remove f id r ≡ (ok true, pruned f t id.client_id rels r)
      → Removed f id r

remove_filter_lem :
    (f c : Bytes) (rels : Relations) (r : DefaultRouter) (t : Topic)
    → from_str f ≡ ok t
    → remove_filter f (without f c rels r) ≡ (ok true, pruned f t c rels r)
unfolding remove_filter
remove_filter_lem f c rels r t p =
    let q : is_none (lookup f (set f (unset c rels) r.relations)) ≡ false =
      ground (arith, lookup-set f f (unset c rels) r.relations, bytes_eq_iff f f) in
    rw (remove_filter, p, q) refl

pub removed : (f : Bytes) (id : IdData) (r : DefaultRouter) → IsValid r → Removed f id r
unfolding remove lookup
removed f id r v = elim (Option-cases (lookup f r.relations)) [
  | inl e ↦ refused (rw (owns, e) refl) (rw (remove, e) refl)
  | inr (rels, e) ↦ elim (Bool-cases (remove_enable id rels)) [
    | inr b ↦ refused (rw (owns, e) b) (rw (remove, e, b) refl)
    | inl b ↦ elim (Bool-cases (is_empty (unset id.client_id rels))) [
      | inr h ↦ one_less rels e (rw (owns, e) b) h (rw (remove, e, b, h) refl)
      | inl h ↦
          let (t, p) = filter-parsed f rels r v e in
          last_one rels t e (rw (owns, e) b) h p
            (rw (remove, e, b, h) (remove_filter_lem f id.client_id rels r t p))
    ]
  ]
]

lookup-is_empty : {A : Type 0} (c : Bytes) (m : Map Bytes A) → is_empty m ≡ true → lookup c m ≡ none
unfolding lookup
lookup-is_empty c [] h = refl
lookup-is_empty c (x ∷ m) h = absurd (ground arith)

relation-without :
    (f g c d : Bytes) (rels : Relations) (r : DefaultRouter)
    → IsValid r
    → lookup f r.relations ≡ some rels
    → relation g c (without f d rels r)
      ≡ (if bytes_eq f g && bytes_eq d c then none else relation g c r)
relation-without f g c d rels r v e = ground (
  arith,
  lookup-unset d c rels (v.inner f rels e).0,
  lookup-set f g (unset d rels) r.relations,
  bytes_eq_iff f g,
)

relation-pruned :
    (f g c d : Bytes) (t : Topic) (rels : Relations) (r : DefaultRouter)
    → IsValid r
    → lookup f r.relations ≡ some rels
    → is_empty (unset d rels) ≡ true
    → relation g c (pruned f t d rels r)
      ≡ (if bytes_eq f g && bytes_eq d c then none else relation g c r)
relation-pruned f g c d t rels r v e h = ground (
  arith,
  lookup-unset d c rels (v.inner f rels e).0,
  lookup-is_empty c (unset d rels) h,
  lookup-set f g (unset d rels) r.relations,
  lookup-unset f g (set f (unset d rels) r.relations)
      (IsMap-set f (unset d rels) r.relations v.outer),
  bytes_eq_iff f g,
)

-- In a valid router `remove` answers whether the session owns the relation, and takes that relation
-- away if it does; it leaves every other as it was.
pub relation-remove :
    (f g c : Bytes) (id : IdData) (r : DefaultRouter)
    → IsValid r
    → ((remove f id r).0 ≡ ok (owns f id r))
      × (relation g c (remove f id r).1 ≡ (
          if bytes_eq f g && (bytes_eq id.client_id c && owns f id r)
          then none
          else relation g c r))
relation-remove f g c id r v = elim (removed f id r v) [
  | refused o q ↦ rw (q, o) (refl, ground arith)
  | one_less rels e o h q ↦
      rw (q, o) (refl, relation-without f g c id.client_id rels r v e ∙ ground arith)
  | last_one rels t e o h p q ↦
      rw (q, o) (refl, relation-pruned f g c id.client_id t rels r v e h ∙ ground arith)
]
