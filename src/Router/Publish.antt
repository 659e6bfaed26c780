-- ===== src/Router/Publish.antt =====
-- `_matches` of oximqtt/src/router.rs: what each node delivers for a publication.
use oximqtt.Base.{
  ℕ, zero, suc, Bool, true, false, ◌&&◌, Option, none, some, List, [], ◌∷◌, ◌++◌, length, Result,
  ok, err, ◌>>=◌,
}
use oximqtt.Base.Bytes.{Bytes}
use oximqtt.Base.Maps.{Map, lookup, set, bytes_key, number_key}
use oximqtt.Topic.{Topic, TopicError, from_str, to_string}
use oximqtt.Trie.Iter.{Item}
use oximqtt.Trie.Iter
use oximqtt.Trie.Items.{items, collect}
use oximqtt.Subscription.{
  IdData, id_eq, SubscriptionOptions, SubRelation, CollectorMap, Call, no_local, shared_group,
  relations_of, SharedGroupType,
}
use oximqtt.Subscription
use oximqtt.Router.{Relations, AllRelationsMap, DefaultRouter, or_empty, unit_ord}

-- A member of a shared group: its node, client, options and whether it is online.
pub record Candidate : Type 0 where
  pub node_id : ℕ
  pub client_id : Bytes
  pub opts : SubscriptionOptions
  pub online : Option Bool

-- What `_matches` calls: `Router::is_online`, and `SharedSubscription::choice` with its state.
pub record Context (S : Type 0) : Type 0 where
  pub is_online : ℕ → Bytes → Bool
  pub choice : Bytes → IdData → Bytes → List Candidate → S → Option (ℕ × Bool) × S

-- The candidates of each shared group of a filter.
abbrev pub Groups : Type 0
Groups = Map Bytes (List Candidate)

-- The loop's `continue`: a client does not get what it published itself, if it asked for that.
abbrev pub skips : IdData → IdData → SubscriptionOptions → Bool
skips this_id id opts = elim (no_local opts) [ none ↦ false | some n ↦ n && id_eq this_id id ]

abbrev pub candidates : Option (List Candidate) → List Candidate
candidates none = []
candidates (some cs) = cs

-- `groups.entry(group.clone()).or_default().push(..)`
unfoldable pub push_candidate : Bytes → Candidate → Groups → Groups
push_candidate group c gs = set group (candidates (lookup group gs) ++ (c ∷ [])) gs

abbrev pub direct_call : Bytes → Bytes → IdData → SubscriptionOptions → Call
direct_call filter client id opts = record {
  node_id = id.node_id;
  topic_filter = filter;
  client_id = client;
  opts = opts;
  group = none;
}

abbrev pub candidate : {S : Type 0} → Context S → Bytes → IdData → SubscriptionOptions → Candidate
candidate ctx client id opts = record {
  node_id = id.node_id;
  client_id = client;
  opts = opts;
  online = some (ctx.is_online id.node_id client);
}

-- The loop of `_matches` over the relations of a filter.
unfoldable pub visit_relations :
    {S : Type 0}
    → Context S
    → IdData
    → Bytes
    → Relations
    → Groups
    → CollectorMap
    → Groups × CollectorMap
visit_relations ctx this_id filter [] gs cm = (gs, cm)
visit_relations ctx this_id filter ((client, (id, opts)) ∷ rels) gs cm =
    elim (skips this_id id opts) [
      | true ↦ visit_relations ctx this_id filter rels gs cm
      | false ↦ elim (shared_group opts) [
        | some group ↦
            visit_relations ctx this_id filter rels
              (push_candidate group (candidate ctx client id opts) gs) cm
        | none ↦
            visit_relations ctx this_id filter rels gs
              (Subscription.collect (direct_call filter client id opts) cm)
      ]
    ]

-- `Vec::remove`, which panics out of range; what is left is dropped after it.
abbrev pub taken {ℓ} : {A : Type ℓ} → List A → ℕ → Option A
taken [] i = none
taken (x ∷ xs) zero = some x
taken (x ∷ xs) (suc i) = taken xs i

abbrev pub client_ids : List Candidate → List Bytes
client_ids [] = []
client_ids (c ∷ cs) = c.client_id ∷ client_ids cs

abbrev pub group_call : Bytes → Bytes → Bool → List Candidate → Candidate → Call
group_call filter group online cs c = record {
  node_id = c.node_id;
  topic_filter = filter;
  client_id = c.client_id;
  opts = c.opts;
  group = some (group, online, client_ids cs);
}

-- Why a publication is not routed: its topic does not parse, or the code panics.
pub data RouteError : Type 0 where
  topic_error : TopicError → RouteError
  panicked : RouteError

-- The body of the loop over the drained groups, after the choice.
abbrev pub deliver_chosen :
    Bytes
    → Bytes
    → List Candidate
    → Option (ℕ × Bool)
    → CollectorMap
    → Result RouteError CollectorMap
deliver_chosen filter group cs none cm = ok cm
deliver_chosen filter group cs (some (idx, online)) cm = elim (taken cs idx) [
  | none ↦ err panicked
  | some c ↦ ok (Subscription.collect (group_call filter group online cs c) cm)
]

-- The loop of `_matches` over the groups of a filter.
unfoldable pub select_groups :
    {S : Type 0}
    → Context S
    → IdData
    → Bytes
    → Bytes
    → Groups
    → CollectorMap
    → S
    → Result RouteError (CollectorMap × S)
select_groups ctx this_id name filter [] cm s = ok (cm, s)
select_groups ctx this_id name filter ((group, cs) ∷ gs) cm s = do
  let picked = ctx.choice group this_id name cs s
  cm' ← deliver_chosen filter group cs picked.0 cm
  select_groups ctx this_id name filter gs cm' picked.1

-- The loop of `_matches` over the filters that match.
unfoldable pub visit_filters :
    {S : Type 0}
    → Context S
    → IdData
    → Bytes
    → AllRelationsMap
    → List (Item (Unit {0}))
    → CollectorMap
    → S
    → Result RouteError (CollectorMap × S)
visit_filters ctx this_id name all [] cm s = ok (cm, s)
visit_filters ctx this_id name all ((levels, _) ∷ its) cm s = do
  let filter = to_string levels
  let visited = visit_relations ctx this_id filter (or_empty (lookup filter all)) [] cm
  (cm', s') ← select_groups ctx this_id name filter visited.0 visited.1 s
  visit_filters ctx this_id name all its cm' s'

-- `SubRelationsMap`, what each node delivers.
abbrev pub SubRelationsMap : Type 0
SubRelationsMap = Map ℕ (List SubRelation)

unfoldable pub relations_map : CollectorMap → SubRelationsMap
relations_map [] = []
relations_map ((n, c) ∷ cm) = (n, relations_of c) ∷ relations_map cm

-- The matching filters, `topics.matches(&topic).iter()`.
unfoldable pub matching : DefaultRouter → Topic → List (Item (Unit {0}))
matching r topic =
    collect (suc (length (items topic r.topics []))) (suc (length topic))
      (Iter.matches r.topics topic)

-- `DefaultRouter::_matches` and `matches`
unfoldable pub matches :
    {S : Type 0}
    → Context S
    → IdData
    → Bytes
    → DefaultRouter
    → S
    → Result RouteError (SubRelationsMap × S)
matches ctx this_id name r s = elim (from_str name) [
  | err e ↦ err (topic_error e)
  | ok topic ↦ do
    (cm, s') ← visit_filters ctx this_id name r.relations (matching r topic) [] s
    ok (relations_map cm, s')
]
