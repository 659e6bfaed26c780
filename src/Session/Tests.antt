-- ===== src/Session/Tests.antt =====
-- Runs of the handlers of oximqtt/src/session.rs, and the theorems at concrete ones.
use oximqtt.Base.{
  ℕ, ◌+◌, ◌≤◌, ◌≡◌, refl, true, false, Option, none, some, List, [], ◌∷◌, ◌++◌, map, ok, err, ◌⊎◌,
}
use oximqtt.Base.OrdSet
use oximqtt.Base.Bytes.{codes}
use oximqtt.Codec.Qos.{QoS, at_most_once, at_least_once, exactly_once}
use oximqtt.Inflight
use oximqtt.Types.{publish_success}
use oximqtt.Session.{
  Publish, window, Env, SessionState, resolve_alias, set_and_get, refuse, forward, publish_resolved,
  publish_inner, publish, send,
}
use oximqtt.Session.Inbound.{
  Packet, publish_packet, add_inflight, remove_inflight, admit, send_received, ack_qos2_inbound,
  drain, publish_at_least_once, process_at_least_once, process_exactly_once, process_publish,
  process_release, run,
}
use oximqtt.Session.Inbound.Published.{deliveries, releases, answered}
use oximqtt.Session.Inbound.Drained.{IsConsistent}
use oximqtt.Session.Inbound.Order.{process_release-in_order}
use oximqtt.Session.Inbound.Runs.{new, new-IsConsistent, run-IsConsistent, run-at_most_once}

session : Unit {0}
unfolding OrdSet.contains OrdSet.insert_sorted OrdSet.insert OrdSet.erase OrdSet.remove
    Inflight.is_full Inflight.add Inflight.contains Inflight.remove set_and_get resolve_alias refuse
    forward publish_resolved publish_inner publish send add_inflight remove_inflight admit
    send_received ack_qos2_inbound drain publish_at_least_once process_at_least_once
    process_exactly_once process_publish process_release run deliveries releases answered
session = tt

-- Every message is allowed and forwarded, and every answer is sent.
abbrev calm : Env
calm = record {
  delayed_publish = λ t p. ok p;
  message_publish = λ t p. none;
  message_publish_check_acl = λ t p. publish_success;
  forwards = λ t p. ok tt;
  send = λ t r. ok tt;
}

abbrev message : QoS → Option ℕ → Publish
message qos pid = record {
  inner = record {
    dup = false;
    retain = false;
    qos = qos;
    topic = codes "a";
    packet_id = pid;
    payload = codes "x";
  };
  topic_alias = none;
}

-- A window of one: the second and the third message of QoS 2 are deferred, the copies of the first
-- and the second are not delivered.
abbrev packets : List Packet
packets =
    publish_packet (message exactly_once (some 1))
    ∷ publish_packet (message exactly_once (some 2))
    ∷ publish_packet (message exactly_once (some 3))
    ∷ publish_packet (message exactly_once (some 1))
    ∷ publish_packet (message exactly_once (some 2))
    ∷ publish_packet (message at_most_once none)
    ∷ []

abbrev full : SessionState
full = (run calm packets (new none 1)).1

pending_then : map (λ x. x.0) full.qos2_pending ≡ 2 ∷ 3 ∷ []
unfolding session
pending_then = refl

forwarded_then : (deliveries 1 full.trace ≡ 1) × (deliveries 2 full.trace ≡ 0)
unfolding session
forwarded_then = (refl, refl)

-- QoS 1 is refused while the window is full.
at_least_once_then :
    (run calm (publish_packet (message at_least_once (some 9)) ∷ []) full).0
    ≡ err (window Inflight.inflight_window_full)
unfolding session
at_least_once_then = refl

run-IsConsistent_example : IsConsistent full
unfolding session
run-IsConsistent_example = run-IsConsistent calm packets (new none 1) (new-IsConsistent none 1) refl

full-IsConsistent : IsConsistent full
unfolding session
full-IsConsistent = run-IsConsistent calm packets (new none 1) (new-IsConsistent none 1) refl

run-at_most_once_example : deliveries 1 full.trace ≤ releases 1 full.trace + 1
run-at_most_once_example = run-at_most_once calm packets 1 1 none

process_release-in_order_example :
    let s' = (process_release calm 1 full).1 in
    ((done : List (ℕ × Publish)) × (full.qos2_pending ≡ done ++ s'.qos2_pending)
      × (answered s'.trace ≡ answered full.trace ++ map (λ x. x.0) done))
    × ((s'.qos2_pending ≡ []) ⊎ (Inflight.is_full s'.in_inflight ≡ true))
unfolding session
process_release-in_order_example = process_release-in_order calm 1 full full-IsConsistent refl
