-- ===== src/Acl/Hooks/Removed.antt =====
-- `Rule::remove_topic` of oximqtt/src/builtins/acl.rs: what it leaves of the tree of filters.
use oximqtt.Base.{
  ◌≡◌, refl, ◌≢◌, inl, inr, Bool, true, false, not, ◌&&◌, ◌||◌, Option, none, some, List, [], ◌∷◌,
  ◌++◌, ok, err, arith, Bool-cases, Result, Result-cases, subst, ap,
}
use mathlib.Core.List.{Memᴰ}
use mathlib.Core.List.Memᴰ
use oximqtt.Base.OrdSet
use oximqtt.Base.OrdSet.{Ord, contains-remove}
use oximqtt.Base.Bytes.{Bytes, bytes_eq_iff}
use oximqtt.Topic.{Topic, TopicError, from_str, level_eq_iff}
use oximqtt.Trie
use oximqtt.Trie.{Node}
use oximqtt.Trie.Iter.{Item}
use oximqtt.Trie.Matching.{Reaches}
use oximqtt.Trie.Complete.{matches_iff}
use oximqtt.Trie.Paths.{values_at, values_at-remove, path_eq}
use oximqtt.Acl.{Topics, client_order, client_eq, client_eq_iff, matched}
use oximqtt.Acl.Hooks.{collect_values, collect_topics, remove_all, remove_topic, or_same}

-- Whether a filter of the tree has a value.
abbrev pub holds : Option Bytes → Topic → Node (Option Bytes) → Bool
holds v g tree = OrdSet.contains v (values_at g tree)

abbrev is_listed : Topic → List Topic → Bool
is_listed g [] = false
is_listed g (f ∷ fs) = path_eq f g || is_listed g fs

remove_all_lem :
    (client : Bytes) (fs : List Topic) (tree : Node (Option Bytes)) (v : Option Bytes) (g : Topic)
    → holds v g (remove_all client fs tree)
      ≡ (holds v g tree && not (client_eq v (some client) && is_listed g fs))
unfolding remove_all
remove_all_lem client [] tree v g = ground arith
remove_all_lem client (f ∷ fs) tree v g =
    let tree' = (Trie.remove f (some client) tree).0 in
    let e = values_at-remove f g (some client) tree in
    let i = remove_all_lem client fs tree' v g in
    let c = contains-remove (some client) v (values_at g tree) in
    ground (arith, client_eq_iff v (some client))

pub path_eq_self : (f : Topic) → path_eq f f ≡ true
path_eq_self [] = refl
path_eq_self (l ∷ f) = ground (arith, level_eq_iff l l, path_eq_self f)

is_listed-append :
    (g : Topic) (fs gs : List Topic) → is_listed g (fs ++ gs) ≡ (is_listed g fs || is_listed g gs)
is_listed-append g [] gs = refl
is_listed-append g (f ∷ fs) gs = ground (arith, is_listed-append g fs gs)

collect_values-listed :
    (client : Bytes) (f : Topic) (vs : List (Option Bytes))
    → OrdSet.contains (some client) vs ≡ true
    → is_listed f (collect_values client f vs) ≡ true
unfolding OrdSet.contains
collect_values-listed client f [] h = cc
collect_values-listed client f (none ∷ vs) h = collect_values-listed client f vs (ground arith)
collect_values-listed client f (some cid ∷ vs) h = ground (
  arith,
  bytes_eq_iff cid client,
  bytes_eq_iff client cid,
  path_eq_self f,
  collect_values-listed client f vs,
)

collect_topics-listed :
    (client : Bytes) (is : List (Item (Option Bytes))) (it : Item (Option Bytes))
    → Memᴰ it is
    → OrdSet.contains (some client) it.1 ≡ true
    → is_listed it.0 (collect_topics client is) ≡ true
unfolding collect_topics
collect_topics-listed client [] it m h = absurd (Memᴰ.not-nil m)
collect_topics-listed client ((f, vs) ∷ is) it (Memᴰ.head e) h =
    let k = collect_values-listed client it.0 it.1 h in
    let a = is_listed-append it.0 (collect_values client it.0 it.1) (collect_topics client is) in
    subst
      (λ (x : Item (Option Bytes)).
        is_listed it.0 (collect_values client x.0 x.1 ++ collect_topics client is) ≡ true)
      e (ground arith)
collect_topics-listed client ((f, vs) ∷ is) it (Memᴰ.tail m) h =
    let k = collect_topics-listed client is it m h in
    let a = is_listed-append it.0 (collect_values client f vs) (collect_topics client is) in
    ground arith

pub Reaches-self : (root : Bool) (f : Topic) → Reaches root f f
Reaches-self root [] = tt
Reaches-self root (k ∷ f) = inl (refl, Reaches-self false f)

-- Removing a filter takes the client, and no other value, from every filter of the tree that matches
-- the one to remove, read as a topic. A text that does not parse removes nothing.
module _ (client text : Bytes) (ts : Topics) where
  abbrev pub removed : Node (Option Bytes)
  removed = (or_same (remove_topic text client ts) ts).tree

  abbrev outcome : Result TopicError Topic → Node (Option Bytes)
  outcome r =
      (or_same
        (elim r [
          | err e ↦ err e
          | ok f ↦ ok record ts {
            tree = remove_all client (collect_topics client (matched ts.tree f)) ts.tree;
          }
        ])
        ts).tree

  removed-tree :
      (f : Topic)
      → from_str text ≡ ok f
      → removed ≡ remove_all client (collect_topics client (matched ts.tree f)) ts.tree
  unfolding remove_topic
  removed-tree f e = ap outcome e

  removed-same : (z : TopicError) → from_str text ≡ err z → removed ≡ ts.tree
  unfolding remove_topic
  removed-same z e = ap outcome e

  -- The values of others stay.
  pub remove_topic-others :
      (v : Option Bytes) (g : Topic) → v ≢ some client → holds v g removed ≡ holds v g ts.tree
  unfolding remove_topic
  remove_topic-others v g n = elim (Result-cases (from_str text)) [
    | inl (f, e) ↦
        let q = removed-tree f e in
        let fs = collect_topics client (matched ts.tree f) in
        let r = remove_all_lem client fs ts.tree v g in
        rw q (ground (arith, client_eq_iff v (some client)))
    | inr (z, e) ↦ rw (removed-same z e) refl
  ]

  -- No value of the client comes to be.
  pub remove_topic-none :
      (g : Topic) → holds (some client) g ts.tree ≡ false → holds (some client) g removed ≡ false
  unfolding remove_topic
  remove_topic-none g h = elim (Result-cases (from_str text)) [
    | inl (f, e) ↦
        let q = removed-tree f e in
        let fs = collect_topics client (matched ts.tree f) in
        let r = remove_all_lem client fs ts.tree (some client) g in rw q (ground arith)
    | inr (z, e) ↦ rw (removed-same z e) h
  ]

  -- The client is gone from the filters that match.
  pub remove_topic-takes :
      (f g : Topic)
      → from_str text ≡ ok f
      → Reaches true g f
      → holds (some client) g removed ≡ false
  unfolding matched OrdSet.contains
  remove_topic-takes f g e c = elim (Bool-cases (holds (some client) g ts.tree)) [
    | inr h ↦ remove_topic-none g h
    | inl h ↦
        let q = removed-tree f e in
        let vs = values_at g ts.tree in
        let m =
          (matches_iff ts.tree f g vs).1
            (refl, λ z. let y = ap (OrdSet.contains (some client)) z in cc (h, y), c) in
        let l = collect_topics-listed client (matched ts.tree f) (g, vs) m h in
        let fs = collect_topics client (matched ts.tree f) in
        let r = remove_all_lem client fs ts.tree (some client) g in
        rw q (ground (arith, client_eq_iff (some client) (some client)))
  ]
