-- ===== src/Subscription.antt =====
-- The subscriptions of oximqtt/src/types.rs: who subscribed, the options, and the collector that puts
-- together what one node delivers for a message. A `NodeId` and a `SubscriptionIdentifier` are
-- numbers, a `ClientId`, a `SharedGroup` and a `TopicFilter` texts.
pub mod Choice
pub mod Calls
pub mod Keyed
mod Tests
use oximqtt.Base.{
  ℕ, Bool, true, false, ◌&&◌, ◌==◌, ==_iff, Option, none, some, List, [], ◌∷◌, ◌++◌, if◌then◌else◌,
  ◌≡◌, ◌↔◌, arith,
}
use oximqtt.Base.Bytes.{Bytes, bytes_eq, bytes_eq_iff}
use oximqtt.Base.Maps.{Eq, Map, lookup, set, bytes_key, number_key}
use oximqtt.Codec.Qos.{QoS}

-- The fields of `_Id`, which an `Id` shares: `identity` is the others as one number: listener, addresses, user name and time.
pub record IdData : Type 0 where
  pub node_id : ℕ
  pub client_id : Bytes
  pub identity : ℕ

-- `PartialEq<Id> for Id`
unfoldable pub id_eq : IdData → IdData → Bool
id_eq a b =
    (a.node_id == b.node_id) && bytes_eq a.client_id b.client_id && (a.identity == b.identity)

pub record SubOptionsV3 : Type 0 where
  pub qos : QoS
  pub shared_group : Option Bytes
  pub limit_subs : Option ℕ

-- `retain_handling` is the number of its variant.
pub record SubOptionsV5 : Type 0 where
  pub qos : QoS
  pub shared_group : Option Bytes
  pub limit_subs : Option ℕ
  pub no_local : Bool
  pub retain_as_published : Bool
  pub retain_handling : ℕ
  pub id : Option ℕ

pub data SubscriptionOptions : Type 0 where
  v3 : SubOptionsV3 → SubscriptionOptions
  v5 : SubOptionsV5 → SubscriptionOptions

-- `SubscriptionOptions::no_local`
abbrev pub no_local : SubscriptionOptions → Option Bool
no_local (v3 opts) = none
no_local (v5 opts) = some opts.no_local

-- `SubscriptionOptions::subscription_identifier`
abbrev pub subscription_identifier : SubscriptionOptions → Option ℕ
subscription_identifier (v3 opts) = none
subscription_identifier (v5 opts) = opts.id

-- `SubscriptionOptions::qos`
abbrev pub qos : SubscriptionOptions → QoS
qos (v3 opts) = opts.qos
qos (v5 opts) = opts.qos

-- `SubscriptionOptions::shared_group`
abbrev pub shared_group : SubscriptionOptions → Option Bytes
shared_group (v3 opts) = opts.shared_group
shared_group (v5 opts) = opts.shared_group

-- `SubscriptionOptions::is_v3`
abbrev pub is_v3 : SubscriptionOptions → Bool
is_v3 (v3 opts) = true
is_v3 (v5 opts) = false

-- The type `SharedGroupType`: the group, whether the chosen client is online, the group's clients.
abbrev pub SharedGroupType : Type 0
SharedGroupType = Bytes × Bool × List Bytes

-- The type `SubRelation`
pub record SubRelation : Type 0 where
  pub topic_filter : Bytes
  pub client_id : Bytes
  pub opts : SubscriptionOptions
  pub sub_ids : Option (List ℕ)
  pub group : Option SharedGroupType

-- What the collector keeps of a client of MQTT 5; its relation has the client of the key.
pub record Collector : Type 0 where
  pub v3_rels : List SubRelation
  pub v5_rels : Map Bytes SubRelation

-- `SubscriptioRelationsCollector::default`
abbrev pub no_relations : Collector
no_relations = record { v3_rels = []; v5_rels = [] }

abbrev pub one_id : Option ℕ → Option (List ℕ)
one_id none = none
one_id (some i) = some (i ∷ [])

-- `sub_ids.push(sub_id)`, or a new vector.
abbrev pub push_id : Option ℕ → Option (List ℕ) → Option (List ℕ)
push_id none ids = ids
push_id (some i) none = some (i ∷ [])
push_id (some i) (some ids) = some (ids ++ (i ∷ []))

-- `and_modify(..).or_insert_with(..)` of `SubscriptioRelationsCollector::add`.
abbrev pub merged : SubRelation → Option SubRelation → SubRelation
merged new none = new
merged new (some old) = record {
  topic_filter = old.topic_filter;
  client_id = old.client_id;
  opts = old.opts;
  sub_ids = push_id (subscription_identifier new.opts) old.sub_ids;
  group = old.group;
}

-- A call of `add`, with the node whose collector takes it.
pub record Call : Type 0 where
  pub node_id : ℕ
  pub topic_filter : Bytes
  pub client_id : Bytes
  pub opts : SubscriptionOptions
  pub group : Option SharedGroupType

abbrev pub relation_v3 : Call → SubRelation
relation_v3 c = record {
  topic_filter = c.topic_filter;
  client_id = c.client_id;
  opts = c.opts;
  sub_ids = none;
  group = c.group;
}

abbrev pub relation_v5 : Call → SubRelation
relation_v5 c = record {
  topic_filter = c.topic_filter;
  client_id = c.client_id;
  opts = c.opts;
  sub_ids = one_id (subscription_identifier c.opts);
  group = c.group;
}

-- `SubscriptioRelationsCollector::add`
unfoldable pub add : Call → Collector → Collector
add c r =
    if is_v3 c.opts
    then record { v3_rels = r.v3_rels ++ (relation_v3 c ∷ []); v5_rels = r.v5_rels }
    else record {
      v3_rels = r.v3_rels;
      v5_rels = set c.client_id (merged (relation_v5 c) (lookup c.client_id r.v5_rels)) r.v5_rels;
    }

abbrev pub entries : Map Bytes SubRelation → List SubRelation
entries [] = []
entries ((k, r) ∷ m) = r ∷ entries m

-- `SubRelations::from`
unfoldable pub relations_of : Collector → List SubRelation
relations_of r = r.v3_rels ++ entries r.v5_rels

-- The collector of each node, `SubscriptioRelationsCollectorMap`.
abbrev pub CollectorMap : Type 0
CollectorMap = Map ℕ Collector

abbrev pub collector : ℕ → CollectorMap → Collector
collector n m = elim (lookup n m) [ none ↦ no_relations | some r ↦ r ]

-- `collector_map.entry(node_id).or_default().add(..)`
unfoldable pub collect : Call → CollectorMap → CollectorMap
collect c m = set c.node_id (add c (collector c.node_id m)) m
