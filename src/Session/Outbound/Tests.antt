-- ===== src/Session/Outbound/Tests.antt =====
-- Runs of what oximqtt/src/session.rs delivers, and the theorems at concrete ones.
use oximqtt.Base.{
  ℕ, suc, ◌≤◌, ◌<◌, ◌≡◌, refl, true, false, Option, none, some, List, [], ◌∷◌, length, ok, arith,
  ◌==◌, ==_iff, ==_self, ap, sym, ◌∙◌, if◌then◌else◌, Bool-cases, inl, inr,
}
use oximqtt.Base.Bytes.{codes}
use oximqtt.Base.Maps.{
  Map, lookup, has_key, set, unset, IsMap, number_key, lookup-missing, lookup-set, IsMap-set,
  length-set, lookup-unset, IsMap-unset, length-unset,
}
use oximqtt.Codec.Qos.{QoS, at_least_once, exactly_once}
use oximqtt.Inflight
use oximqtt.Session.{Publish}
use oximqtt.Session.Outbound.{
  Env, State, Event, sent, deliver_packet, publish_received, publish_complete, deliver_timeout,
  rerelease, number, send_message, deliver, process_ack, process_received, reforward,
  reforward_loop, send_rerelease, process, run, with_id,
}
use oximqtt.Session.Outbound.Window
use oximqtt.Session.Outbound.Window.{
  OutInflightMessage, DequeMap, un_complete, front_timeout, pop_front, pop_front_timeout, push_back,
  remove, update_status, has_credit, next_id,
}
use oximqtt.Session.Outbound.Tracked.{is_waiting, IsTracked}
use oximqtt.Session.Outbound.Runs.{run-IsTracked}
use oximqtt.Session.Outbound.Fresh.{deliver-fresh}
use oximqtt.Session.Outbound.Bounds.{run-within}

-- A `DequeMap`: the list of its entries, in the order in which their keys came.
abbrev Entries : Type 0
Entries = (m : Map ℕ OutInflightMessage) × IsMap m

key_none : (k : ℕ) (m : Map ℕ OutInflightMessage) → lookup k m ≡ none → has_key k m ≡ false
unfolding lookup has_key
key_none k [] h = refl
key_none k ((j, v) ∷ m) h = ground (arith, key_none k m)

key_some :
    (k : ℕ) (v : OutInflightMessage) (m : Map ℕ OutInflightMessage)
    → lookup k m ≡ some v
    → has_key k m ≡ true
unfolding lookup has_key
key_some k v [] h = absurd (ground arith)
key_some k v ((j, w) ∷ m) h = ground (arith, key_some k v m)

empty-IsMap : IsMap {V = OutInflightMessage} ⦃e = number_key⦄ []
unfolding IsMap
empty-IsMap = tt

lookup-empty : (k : ℕ) → lookup {V = OutInflightMessage} k [] ≡ none
unfolding lookup
lookup-empty k = refl

tail-IsMap : (x : ℕ × OutInflightMessage) (m : Map ℕ OutInflightMessage) → IsMap (x ∷ m) → IsMap m
unfolding IsMap
tail-IsMap x m h = h.1

length-unset-none :
    (k : ℕ) (m : Map ℕ OutInflightMessage) → lookup k m ≡ none → length (unset k m) ≡ length m
unfolding lookup unset
length-unset-none k [] h = refl
length-unset-none k ((j, v) ∷ m) h = ground (arith, length-unset-none k m)

abbrev set_at :
    ℕ → Option OutInflightMessage → (OutInflightMessage → OutInflightMessage) → Entries → Entries
set_at k none f q = q
set_at k (some v) f q = (set k (f v) q.0, IsMap-set k (f v) q.0 q.1)

abbrev first : Entries → Option (ℕ × OutInflightMessage)
first ([], u) = none
first (e ∷ m, u) = some e

abbrev but_first : Entries → Option (ℕ × OutInflightMessage) × Entries
but_first ([], u) = (none, ([], u))
but_first (x ∷ m, u) = (some x, (m, tail-IsMap x m u))

lookup-set_at :
    (k j : ℕ) (f : OutInflightMessage → OutInflightMessage) (q : Entries)
    (o : Option OutInflightMessage)
    → lookup k q.0 ≡ o
    → lookup j (set_at k o f q).0
      ≡ (if k == j then elim (lookup j q.0) [ none ↦ none | some m ↦ some (f m) ] else lookup j q.0)
lookup-set_at k j f q none h = elim (Bool-cases (k == j)) [
  | inl b ↦
      let g : lookup j q.0 ≡ none = ap (λ i. lookup i q.0) (sym ((==_iff k j).0 b)) ∙ h in
      ground arith
  | inr b ↦ ground arith
]
lookup-set_at k j f q (some v) h =
    let c = lookup-set k j (f v) q.0 in
    elim (Bool-cases (k == j)) [
      | inl b ↦
          let g : lookup j q.0 ≡ some v = ap (λ i. lookup i q.0) (sym ((==_iff k j).0 b)) ∙ h in
          ground arith
      | inr b ↦ ground arith
    ]

length-set_at :
    (k : ℕ) (f : OutInflightMessage → OutInflightMessage) (q : Entries)
    (o : Option OutInflightMessage)
    → lookup k q.0 ≡ o
    → length (set_at k o f q).0 ≡ length q.0
length-set_at k f q none h = refl
length-set_at k f q (some v) h = rw (length-set k (f v) q.0, key_some k v q.0 h) refl

lookup-first :
    (k j : ℕ) (m : OutInflightMessage) (q : Entries)
    → first q ≡ some (k, m)
    → (lookup k q.0 ≡ some m)
      × (lookup j (but_first q).1.0 ≡ (if k == j then none else lookup j q.0))
      × (suc (length (but_first q).1.0) ≡ length q.0)
unfolding lookup IsMap
lookup-first k j m ([], u) h = absurd (ground arith)
lookup-first k j m ((i, v) ∷ xs, u) h =
    let a : i ≡ k = ap (λ o. elim o [ none ↦ i | some x ↦ x.0 ]) h in
    let b : v ≡ m = ap (λ o. elim o [ none ↦ v | some x ↦ x.1 ]) h in
    let c = lookup-missing i xs u.0 in
    (ground (arith, ==_self i, ==_iff i k), ground (arith, ==_iff i j, ==_iff i k), refl)

first-front : (q : Entries) → (but_first q).0 ≡ first q
first-front ([], u) = refl
first-front (x ∷ m, u) = refl

first-none : (q : Entries) → first q ≡ none → (but_first q).1 ≡ q
first-none ([], u) h = refl
first-none (x ∷ m, u) h = absurd (ground arith)

abbrev entries : DequeMap Entries
entries = record {
  empty = ([], empty-IsMap);
  len = λ q. length q.0;
  get = λ k q. lookup k q.0;
  insert = λ k m q. (lookup k q.0, (set k m q.0, IsMap-set k m q.0 q.1));
  remove = λ k q. (lookup k q.0, (unset k q.0, IsMap-unset k q.0 q.1));
  get_mut = λ k f q. set_at k (lookup k q.0) f q;
  front = first;
  pop_front = but_first;
  len-empty = refl;
  get-empty = λ k. lookup-empty k;
  insert-old = λ k m q. refl;
  get-insert = λ k j m q. lookup-set k j m q.0;
  len-insert_new = λ k m q n. rw (length-set k m q.0, key_none k q.0 n) refl;
  len-insert_old = λ k m o q n. rw (length-set k m q.0, key_some k o q.0 n) refl;
  remove-old = λ k q. refl;
  get-remove = λ k j q. lookup-unset k j q.0 q.1;
  len-remove_new = λ k q n. length-unset-none k q.0 n;
  len-remove_old = λ k o q n. length-unset k q.0 (key_some k o q.0 n);
  get-get_mut = λ k j f q. lookup-set_at k j f q (lookup k q.0) refl;
  len-get_mut = λ k f q. length-set_at k f q (lookup k q.0) refl;
  pop_front-front = first-front;
  pop_front-none = first-none;
  get-front = λ k m q h. (lookup-first k k m q h).0;
  get-pop_front = λ k j m q h. (lookup-first k j m q h).1;
  len-pop_front = λ k m q h. (lookup-first k k m q h).2;
}

outbound : Unit {0}
unfolding lookup has_key set unset Inflight.interval Inflight.timeout Inflight.front_timeout
    Inflight.next_id_loop Inflight.next_id front_timeout pop_front pop_front_timeout push_back
    remove update_status has_credit next_id number send_message deliver process_ack process_received
    reforward reforward_loop send_rerelease process run is_waiting
outbound = tt

-- No message expires, no hook changes one, and all is sent.
abbrev calm : Env
calm = record {
  is_expiry = λ t p. false;
  message_delivered = λ t p. none;
  publish = λ t p. ok tt;
  publish_release = λ t k. ok tt;
  requeue = λ t m. ok tt;
}

abbrev message : QoS → Publish
message qos = record {
  inner = record {
    dup = false;
    retain = false;
    qos = qos;
    topic = codes "a";
    packet_id = none;
    payload = codes "x";
  };
  topic_alias = none;
}

abbrev fresh : State Entries
fresh = record { out_inflight = Window.new entries 1 10 0; trace = [] }

-- A window of one: the second message waits for the acknowledgement of the first.
abbrev events : List Event
events =
    deliver_packet 0 (message exactly_once)
    ∷ deliver_packet 1 (message at_least_once)
    ∷ publish_received 2 1
    ∷ publish_complete 1
    ∷ deliver_packet 3 (message at_least_once)
    ∷ []

abbrev late : State Entries
late = (run calm entries events fresh).1

waiting_then : (is_waiting 1 late.trace ≡ false) × (is_waiting 2 late.trace ≡ true)
unfolding outbound
waiting_then = (refl, refl)

-- The message that is taken back for a release.
abbrev again : OutInflightMessage
again = record {
  publish = with_id (some 1) (message exactly_once);
  status = un_complete;
  update_time = 2;
}

-- A release that is sent again takes a place that was given away when its message timed out: a window
-- of one holds two messages, and has credit.
abbrev crowd : List Event
crowd =
    deliver_packet 0 (message exactly_once)
    ∷ publish_received 2 1
    ∷ deliver_timeout 20
    ∷ deliver_packet 21 (message at_least_once)
    ∷ rerelease 22 again
    ∷ []

crowded_then :
    (entries.len (run calm entries crowd fresh).1.out_inflight.queues ≡ 2)
    × (has_credit entries (run calm entries crowd fresh).1.out_inflight ≡ true)
unfolding outbound
crowded_then = (refl, refl)

run-IsTracked_example : IsTracked entries late.out_inflight late.trace
run-IsTracked_example = run-IsTracked calm entries events 1 10 0

deliver-fresh_example :
    (k : ℕ) × ((deliver calm entries 4 (message exactly_once) late).1.trace
      ≡ sent (with_id (some k) (message exactly_once)) ∷ late.trace)
    × (is_waiting k late.trace ≡ false)
    × (0 < k)
    × (k < 65_536)
unfolding outbound
deliver-fresh_example =
    deliver-fresh calm entries events 1 10 0 4 (message exactly_once) (λ es q. refl) refl refl refl

run-within_example : entries.len late.out_inflight.queues ≤ 1
run-within_example = run-within calm entries 1 10 0 events (omega arith) refl
