-- ===== src/Subscription/Tests.antt =====
-- Runs of the collector of oximqtt/src/types.rs and of the choice of oximqtt/src/subscribe.rs.
use oximqtt.Base.{ℕ, ◌≡◌, refl, Bool, true, false, Option, none, some, List, [], ◌∷◌, map, arith}
use oximqtt.Base.Bytes.{Bytes, codes, bytes_eq}
use oximqtt.Base.Maps.{lookup, set, bytes_key, number_key}
use oximqtt.Codec.Qos.{QoS, at_most_once, exactly_once}
use oximqtt.Subscription.{
  SubscriptionOptions, SubRelation, v3, v5, qos, Call, no_relations, add, relations_of, collect,
}
use oximqtt.Subscription.Choice.{choice, choice_loop, online_at, choice-online}

subscriptions : Unit {0}
unfolding bytes_eq lookup set add relations_of collect choice choice_loop
subscriptions = tt

abbrev call : Bytes → Bytes → SubscriptionOptions → Call
call filter client opts = record {
  node_id = 1;
  topic_filter = filter;
  client_id = client;
  opts = opts;
  group = none;
}

abbrev newer : QoS → Option ℕ → SubscriptionOptions
newer q id = v5 record {
  qos = q;
  shared_group = none;
  limit_subs = none;
  no_local = false;
  retain_as_published = false;
  retain_handling = 0;
  id = id;
}

abbrev older : SubscriptionOptions
older = v3 record { qos = at_most_once; shared_group = none; limit_subs = none }

abbrev summary : SubRelation → Bytes × (QoS × Option (List ℕ))
summary x = (x.topic_filter, (qos x.opts, x.sub_ids))

-- Of the subscriptions of a client of MQTT 5 that match, the first that comes gives the options.
first_options_win :
    map summary (
      relations_of (
        add
          (call (codes "a/b") (codes "bob") (newer exactly_once (some 4)))
          (add (call (codes "a/+") (codes "bob") (newer at_most_once none)) no_relations)))
    ≡ (codes "a/+", (at_most_once, some (4 ∷ []))) ∷ []
unfolding subscriptions
first_options_win = refl

twice_for_older :
    map summary (
      relations_of (
        add
          (call (codes "a/b") (codes "ann") older)
          (add (call (codes "a/+") (codes "ann") older) no_relations)))
    ≡ (codes "a/+", (at_most_once, none)) ∷ (codes "a/b", (at_most_once, none)) ∷ []
unfolding subscriptions
twice_for_older = refl

abbrev members : List (Option Bool)
members = none ∷ some false ∷ some true ∷ some true ∷ []

round_robin :
    (choice members 0 ≡ (some (2, true), 1))
    × (choice members 3 ≡ (some (3, true), 4))
    × (choice members 4 ≡ (some (2, true), 5))
unfolding subscriptions
round_robin = (refl, refl, refl)

none_online : choice (some false ∷ none ∷ []) 3 ≡ (some (1, false), 4)
unfolding subscriptions
none_online = refl

choice-online_example :
    (i : ℕ) × ((choice members 5).0 ≡ some (i, true)) × (online_at members i ≡ true)
choice-online_example = choice-online members 5 3 (omega arith) refl
