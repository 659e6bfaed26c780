-- ===== src/Router/Keys.antt =====
-- Which filters the router of oximqtt/src/router.rs keeps: the tree has those of the relations.
use oximqtt.Base.{
  ◌≡◌, refl, sym, ◌∙◌, ◌↔◌, Bool, true, false, not, ◌&&◌, ◌||◌, some, [], ◌∷◌, ok, arith,
  Bool-cases, Option-cases, Result-cases, inl, inr,
}
use oximqtt.Base.Bytes.{Bytes, bytes_eq, bytes_eq_iff}
use oximqtt.Base.OrdSet
use oximqtt.Base.Maps.{
  Map, lookup, has_key, set, unset, IsMap, bytes_key, lookup-set, has_key-set, IsMap-set,
  lookup-unset, has_key-unset, IsMap-unset,
}
use oximqtt.Topic.{Topic, from_str, to_string, level_eq_iff}
use oximqtt.Topic.Print.{to_string-from_str}
use oximqtt.Trie
use oximqtt.Trie.{Node}
use oximqtt.Trie.Paths.{path_eq, values_at, values_at-insert, values_at-remove}
use oximqtt.Subscription.{IdData, SubscriptionOptions}
use oximqtt.Router.{
  DefaultRouter, unit_ord, Relations, is_none, is_empty, or_empty, add, add_parsed, remove_enable,
  remove_filter, without, remove,
}

-- The filter is in the tree.
abbrev pub holds : Topic → Node (Unit {0}) → Bool
holds t n = OrdSet.contains tt (values_at t n)

pub path_eq_iff : (p q : Topic) → (path_eq p q ≡ true) ↔ (p ≡ q)
path_eq_iff [] [] = ground arith
path_eq_iff [] (k ∷ q) = ground arith
path_eq_iff (l ∷ p) [] = ground arith
path_eq_iff (l ∷ p) (k ∷ q) = ground (arith, path_eq_iff p q, level_eq_iff l k)

holds-insert :
    (q p : Topic) (n : Node (Unit {0}))
    → holds p (Trie.insert q tt n).0 ≡ (path_eq q p || holds p n)
holds-insert q p n =
    rw (values_at-insert q p tt n) (ground (arith, OrdSet.contains-insert tt tt (values_at p n)))

holds-remove :
    (q p : Topic) (n : Node (Unit {0}))
    → holds p (Trie.remove q tt n).0 ≡ (not (path_eq q p) && holds p n)
holds-remove q p n =
    rw (values_at-remove q p tt n) (ground (arith, OrdSet.contains-remove tt tt (values_at p n)))

-- A path of the tree is a filter that parses, and the filters of the tree are those with
-- relations, of which there is one for each client at least one in all.
pub record IsValid (r : DefaultRouter) : Type 0 where
  pub keys : (f : Bytes) (t : Topic) → from_str f ≡ ok t → has_key f r.relations ≡ holds t r.topics
  pub printed : (t : Topic) → holds t r.topics ≡ true → from_str (to_string t) ≡ ok t
  pub parsed : (f : Bytes) → has_key f r.relations ≡ true → (t : Topic) × (from_str f ≡ ok t)
  pub outer : IsMap r.relations
  pub inner :
      (f : Bytes) (m : Relations) → lookup f r.relations ≡ some m → IsMap m × (is_empty m ≡ false)

-- Two filters are the same text where they are the same path.
same_filter :
    (f g : Bytes) (t u : Topic) → from_str f ≡ ok t → from_str g ≡ ok u → bytes_eq f g ≡ path_eq t u
same_filter f g t u p q =
    ground
      (arith, bytes_eq_iff f g, path_eq_iff t u, to_string-from_str f t p, to_string-from_str g u q)

is_empty-set : {A : Type 0} (k : Bytes) (v : A) (m : Map Bytes A) → is_empty (set k v m) ≡ false
unfolding set
is_empty-set k v [] = refl
is_empty-set k v ((j, w) ∷ m) = ground arith

pub inner-or_empty :
    (r : DefaultRouter) (f : Bytes) → IsValid r → IsMap (or_empty (lookup f r.relations))
unfolding IsMap
inner-or_empty r f v = elim (Option-cases (lookup f r.relations)) [
  | inl e ↦ rw e tt
  | inr (m, e) ↦ rw e (v.inner f m e).0
]

pub has_key-lookup :
    {A : Type 0} (k : Bytes) (m : Map Bytes A) → has_key k m ≡ not (is_none (lookup k m))
unfolding lookup has_key
has_key-lookup k [] = refl
has_key-lookup k ((j, v) ∷ m) = ground (arith, has_key-lookup k m)

-- A new map of one filter, not empty, keeps the maps what they have to be.
inner-set :
    (r : DefaultRouter) (g f : Bytes) (m l : Relations)
    → IsValid r
    → IsMap l × (is_empty l ≡ false)
    → lookup f (set g l r.relations) ≡ some m
    → IsMap m × (is_empty m ≡ false)
inner-set r g f m l v h e =
    let q = lookup-set g f l r.relations in
    elim (Bool-cases (bytes_eq g f)) [
      | inl b ↦ let p : l ≡ m = ground arith in rw (← p) h
      | inr b ↦ v.inner f m (ground arith)
    ]

add_parsed-IsValid :
    (f : Bytes) (t : Topic) (id : IdData) (opts : SubscriptionOptions) (r : DefaultRouter)
    → from_str f ≡ ok t
    → IsValid r
    → IsValid (add_parsed f t id opts r)
unfolding add_parsed
add_parsed-IsValid f t id opts r p v =
    let rels = or_empty (lookup f r.relations) in
    let new = set id.client_id (id, opts) rels in
    record {
      keys = λ g u q.
          rw
            (
              has_key-set f g new r.relations,
              holds-insert t u r.topics,
              same_filter f g t u p q,
              v.keys g u q,
            )
            refl;
      printed = λ u h. ground (
        arith,
        holds-insert t u r.topics,
        path_eq_iff t u,
        v.printed u,
        to_string-from_str f t p,
      );
      parsed = λ g h. elim (Bool-cases (bytes_eq f g)) [
        | inl b ↦ (t, rw (← (bytes_eq_iff f g).0 b) p)
        | inr b ↦ v.parsed g (ground (arith, has_key-set f g new r.relations))
      ];
      outer = IsMap-set f new r.relations v.outer;
      inner = λ g m e.
          inner-set r f g m new v
            (
              IsMap-set id.client_id (id, opts) rels (inner-or_empty r f v),
              is_empty-set id.client_id (id, opts) rels,
            )
            e;
    }

-- `add` keeps the router valid.
pub add-IsValid :
    (f : Bytes) (id : IdData) (opts : SubscriptionOptions) (r r' : DefaultRouter)
    → IsValid r
    → add f id opts r ≡ ok r'
    → IsValid r'
unfolding add
add-IsValid f id opts r r' v h = elim (Result-cases (from_str f)) [
  | inl (t, p) ↦
      let q : add_parsed f t id opts r ≡ r' = ground arith in
      rw (← q) (add_parsed-IsValid f t id opts r p v)
  | inr (e, p) ↦ ground arith
]

-- A filter that had relations and still has some.
without-IsValid :
    (f c : Bytes) (rels : Relations) (r : DefaultRouter)
    → lookup f r.relations ≡ some rels
    → is_empty (unset c rels) ≡ false
    → IsValid r
    → IsValid (without f c rels r)
without-IsValid f c rels r e h v =
    let left = unset c rels in
    let k : (g : Bytes) → has_key g (set f left r.relations) ≡ has_key g r.relations = λ g.
      ground
        (arith, has_key-set f g left r.relations, bytes_eq_iff f g, has_key-lookup f r.relations) in
    record {
      keys = λ g u q. k g ∙ v.keys g u q;
      printed = v.printed;
      parsed = λ g q. v.parsed g (sym (k g) ∙ q);
      outer = IsMap-set f left r.relations v.outer;
      inner = λ g m q. inner-set r f g m left v (IsMap-unset c rels (v.inner f rels e).0, h) q;
    }

-- The filter whose last relation went.
remove_filter-IsValid :
    (f c : Bytes) (rels : Relations) (r : DefaultRouter) (t : Topic)
    → lookup f r.relations ≡ some rels
    → from_str f ≡ ok t
    → IsValid r
    → IsValid (remove_filter f (without f c rels r)).1
unfolding remove_filter
remove_filter-IsValid f c rels r t e p v =
    let left = unset c rels in
    let all = set f left r.relations in
    let m = IsMap-set f left r.relations v.outer in
    let k : (g : Bytes) → has_key g (unset f all) ≡ (not (bytes_eq f g) && has_key g r.relations) =
      λ g. ground (arith, has_key-unset f g all m, has_key-set f g left r.relations) in
    rw (remove_filter, p)
      record {
        keys = λ g u q.
            rw (k g, holds-remove t u r.topics, same_filter f g t u p q, v.keys g u q) refl;
        printed = λ u h. v.printed u (ground (arith, holds-remove t u r.topics));
        parsed = λ g h. v.parsed g (ground (arith, k g));
        outer = IsMap-unset f all m;
        inner = λ g n q. v.inner g n (
            ground
              (arith, lookup-unset f g all m, lookup-set f g left r.relations, bytes_eq_iff f g));
      }

-- The filter of a relation parses.
pub filter-parsed :
    (f : Bytes) (rels : Relations) (r : DefaultRouter)
    → IsValid r
    → lookup f r.relations ≡ some rels
    → (t : Topic) × (from_str f ≡ ok t)
filter-parsed f rels r v e = v.parsed f (ground (arith, has_key-lookup f r.relations))

-- `remove` keeps the router valid.
pub remove-IsValid :
    (f : Bytes) (id : IdData) (r : DefaultRouter) → IsValid r → IsValid (remove f id r).1
unfolding remove
remove-IsValid f id r v = elim (Option-cases (lookup f r.relations)) [
  | inl e ↦ rw (remove, e) v
  | inr (rels, e) ↦ elim (Bool-cases (remove_enable id rels)) [
    | inr b ↦ rw (remove, e, b) v
    | inl b ↦ elim (Bool-cases (is_empty (unset id.client_id rels))) [
      | inr h ↦ rw (remove, e, b, h) (without-IsValid f id.client_id rels r e h v)
      | inl h ↦
          let (t, p) = filter-parsed f rels r v e in
          rw (remove, e, b, h) (remove_filter-IsValid f id.client_id rels r t e p v)
    ]
  ]
]
