-- ===== src/Router.antt =====
-- oximqtt/src/router.rs: the default router, its topic tree and its subscription relations.
pub mod Keys
pub mod Updates
pub mod Counts
pub mod Runs
pub mod Publish
pub mod Matches
pub mod Reached
pub mod Sound
pub mod Shared
pub mod Complete
mod Tests
use oximqtt.Base.{
  ℕ, zero, suc, Bool, true, false, ◌&&◌, Option, none, some, List, [], ◌∷◌, ◌++◌, map, length,
  if◌then◌else◌, Result, ok, err, ◌>>=◌, ◌==◌, ◌≡◌, refl, arith,
}
use oximqtt.Base.Bytes.{Bytes}
use oximqtt.Base.OrdSet.{Ord}
use oximqtt.Base.Maps.{Map, lookup, set, unset, bytes_key, number_key}
use oximqtt.Topic.{Topic, TopicError, from_str, to_string}
use oximqtt.Trie.{Node, default}
use oximqtt.Trie
use oximqtt.Trie.Iter.{Item}
use oximqtt.Trie.Iter
use oximqtt.Trie.Items.{items, collect}
use oximqtt.Counter.{Counter}
use oximqtt.Counter
use oximqtt.Subscription.{
  IdData, id_eq, SubscriptionOptions, SubRelation, CollectorMap, Call, no_local, shared_group,
  relations_of, SharedGroupType,
}
use oximqtt.Subscription

instance abbrev pub unit_ord : Ord (Unit {0})
unit_ord = record { lt = λ _ _. false; beq = λ _ _. true; beq_iff = λ _ _. (λ _. refl, λ _. refl) }

-- The relations of one topic filter, by the client.
abbrev pub Relations : Type 0
Relations = Map Bytes (IdData × SubscriptionOptions)

-- `AllRelationsMap`
abbrev pub AllRelationsMap : Type 0
AllRelationsMap = Map Bytes Relations

pub record DefaultRouter : Type 0 where
  pub topics : Node (Unit {0})
  pub topics_count : Counter
  pub relations : AllRelationsMap
  pub relations_count : Counter

-- `DefaultRouter::new`
abbrev pub new : DefaultRouter
new = record {
  topics = default;
  topics_count = Counter.new;
  relations = [];
  relations_count = Counter.new;
}

abbrev pub is_none {ℓ} : {A : Type ℓ} → Option A → Bool
is_none none = true
is_none (some a) = false

abbrev pub is_empty {ℓ} : {A : Type ℓ} → List A → Bool
is_empty [] = true
is_empty (x ∷ xs) = false

-- The relations of a filter, or the new map that `or_insert_with` makes.
abbrev pub or_empty : Option Relations → Relations
or_empty none = []
or_empty (some m) = m

-- `DefaultRouter::add`, from the parsed filter on.
unfoldable pub add_parsed :
    Bytes → Topic → IdData → SubscriptionOptions → DefaultRouter → DefaultRouter
add_parsed filter topic id opts r =
    let old = lookup filter r.relations in
    let rels = or_empty old in
    record {
      topics = (Trie.insert topic tt r.topics).0;
      topics_count = if is_none old then Counter.inc r.topics_count else r.topics_count;
      relations = set filter (set id.client_id (id, opts) rels) r.relations;
      relations_count =
          if is_none (lookup id.client_id rels)
          then Counter.inc r.relations_count
          else r.relations_count;
    }

-- `DefaultRouter::add`
unfoldable pub add :
    Bytes → IdData → SubscriptionOptions → DefaultRouter → Result TopicError DefaultRouter
unfolding add_parsed
add filter id opts r = do topic ← from_str filter; ok (add_parsed filter topic id opts r)

-- `remove_enable`: the client has a relation, made by the same session.
abbrev pub remove_enable : IdData → Relations → Bool
remove_enable id rels = elim (lookup id.client_id rels) [ none ↦ false | some old ↦ id_eq old.0 id ]

-- What `remove` does where the map of the filter is left empty.
unfoldable pub remove_filter : Bytes → DefaultRouter → Result TopicError Bool × DefaultRouter
remove_filter filter r =
    let topics_count =
      if is_none (lookup filter r.relations) then r.topics_count else Counter.dec r.topics_count in
    let relations = unset filter r.relations in
    elim (from_str filter) [
      | err e ↦ (
        err e,
        record {
          topics = r.topics;
          topics_count = topics_count;
          relations = relations;
          relations_count = r.relations_count;
        },
      )
      | ok topic ↦ (
        ok true,
        record {
          topics = (Trie.remove topic tt r.topics).0;
          topics_count = topics_count;
          relations = relations;
          relations_count = r.relations_count;
        },
      )
    ]

-- The relations with that of a client removed from those of a filter.
abbrev pub without : Bytes → Bytes → Relations → DefaultRouter → DefaultRouter
without filter client rels r = record {
  topics = r.topics;
  topics_count = r.topics_count;
  relations = set filter (unset client rels) r.relations;
  relations_count = Counter.dec r.relations_count;
}

-- `DefaultRouter::remove`: the answer and the router, which changes also where the filter does not
-- parse.
unfoldable pub remove : Bytes → IdData → DefaultRouter → Result TopicError Bool × DefaultRouter
unfolding remove_filter
remove filter id r = elim (lookup filter r.relations) [
  | none ↦ (ok false, r)
  | some rels ↦
      let r' = without filter id.client_id rels r in
      if remove_enable id rels
      then (if is_empty (unset id.client_id rels) then remove_filter filter r' else (ok true, r'))
      else (ok false, r)
]
