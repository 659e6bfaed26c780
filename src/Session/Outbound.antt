-- ===== src/Session/Outbound.antt =====
-- oximqtt/src/session.rs: what a session delivers to its client, and what it does with the
-- acknowledgements of the client, with timeouts and with releases that are sent again.
pub mod Window
pub mod Tracked
pub mod Runs
pub mod Fresh
pub mod Sizes
pub mod Bounds
pub mod Timeouts
mod Tests
use oximqtt.Base.{
  ℕ, zero, suc, Bool, true, false, not, ◌&&◌, ◌||◌, Option, none, some, List, [], ◌∷◌, Result, ok,
  err, if◌then◌else◌, ◌==◌, ltb,
}
use oximqtt.Base.Bytes.{codes}
use oximqtt.Codec.Qos.{QoS, at_most_once, at_least_once, exactly_once}
use oximqtt.Session.{Publish, Reason, other, protocol_error, unwrap_or}
use oximqtt.Session.Outbound.Window.{
  MomentStatus, un_ack, un_received, un_complete, OutInflightMessage, DequeMap, OutInflight,
  push_back, remove, update_status, has_credit, next_id, pop_front_timeout, is_some,
}

-- What a session has done: the messages it gave to the connection and those that had expired, the
-- messages its client acknowledged, those that timed out, those that it gave to itself to forward
-- or to release again, the releases it gave to the connection, each with whether the identifier was
-- known, and the messages it took back for a release.
pub data Effect : Type 0 where
  sent expired : Publish → Effect
  acked : ℕ → OutInflightMessage → Effect
  timed_out : OutInflightMessage → Effect
  forwarded : Publish → Effect
  unfinished : OutInflightMessage → Effect
  requeued : OutInflightMessage → Effect
  rereleased : OutInflightMessage → Effect
  released : ℕ → Bool → Effect

-- What stands around a session: the hooks, its own channel and the connection.
pub record Env : Type 0 where
  pub is_expiry : List Effect → Publish → Bool
  pub message_delivered : List Effect → Publish → Option Publish
  pub publish : List Effect → Publish → Result Reason (Unit {0})
  pub publish_release : List Effect → ℕ → Result Reason (Unit {0})
  pub requeue : List Effect → OutInflightMessage → Result Reason (Unit {0})

pub record State (Q : Type 0) : Type 0 where
  pub out_inflight : OutInflight Q
  pub trace : List Effect

-- What comes to a session: a message of its delivery queue, the acknowledgements PUBACK, PUBREC and
-- PUBCOMP of its client, its timer, and a message it is to release again. Each comes at a time.
pub data Event : Type 0 where
  deliver_packet : ℕ → Publish → Event
  publish_ack : ℕ → Event
  publish_received : ℕ → ℕ → Event
  publish_complete : ℕ → Event
  deliver_timeout : ℕ → Event
  rerelease : ℕ → OutInflightMessage → Event

abbrev pub moment_status : QoS → Option MomentStatus
moment_status at_most_once = none
moment_status at_least_once = some un_ack
moment_status exactly_once = some un_received

abbrev pub with_id : Option ℕ → Publish → Publish
with_id id p = record { inner = record p.inner { packet_id = id }; topic_alias = p.topic_alias }

abbrev pub as_dup : Publish → Publish
as_dup p = record { inner = record p.inner { dup = true }; topic_alias = p.topic_alias }

-- Whether `deliver` gives the message a new identifier.
abbrev pub needs_id : Publish → Bool
needs_id p =
    is_some (moment_status p.inner.qos) && (not p.inner.dup || not (is_some p.inner.packet_id))

abbrev pub no_packet_id : Reason
no_packet_id = other (codes "no packet_id available, should unreachable!()")

abbrev pub Step : Type 0 → Type 0
Step Q = State Q → Result Reason (Unit {0}) × State Q

module _ {Q : Type 0} where
  abbrev pub log : Effect → State Q → State Q
  log e s = record { out_inflight = s.out_inflight; trace = e ∷ s.trace }

module _ (env : Env) {Q : Type 0} (d : DequeMap Q) where
  -- `deliver`, the identifier.
  unfoldable pub number : Publish → State Q → Result Reason Publish × State Q
  number p s =
      let (r, w) = next_id d s.out_inflight in
      if needs_id p
      then (
        elim r [ ok k ↦ ok (with_id (some k) p) | err _ ↦ err no_packet_id ],
        record { out_inflight = w; trace = s.trace },
      )
      else (ok p, s)

  abbrev pub held : ℕ → Publish → Option MomentStatus → OutInflight Q → OutInflight Q
  held now p none w = w
  held now p (some status) w =
      (push_back d (record { publish = p; status = status; update_time = now }) w).1

  -- `deliver`, from the hook on.
  unfoldable pub send_message : ℕ → Publish → Step Q
  send_message now p s =
      let q = unwrap_or (env.message_delivered s.trace p) p in
      elim (env.publish s.trace q) [
        | err e ↦ (err e, s)
        | ok _ ↦ (
          ok tt,
          log (sent q) record {
            out_inflight = held now q (moment_status q.inner.qos) s.out_inflight;
            trace = s.trace;
          },
        )
      ]

  -- `deliver`
  unfoldable pub deliver : ℕ → Publish → Step Q
  deliver now p s =
      if env.is_expiry s.trace p
      then (ok tt, log (expired p) s)
      else let (r, s') = number p s in elim r [ err e ↦ (err e, s') | ok q ↦ send_message now q s' ]

  -- `process_mqtt_message` for PUBACK and PUBCOMP.
  unfoldable pub process_ack : ℕ → Step Q
  process_ack k s =
      let (old, w) = remove d k s.out_inflight in
      let s' : State Q = record { out_inflight = w; trace = s.trace } in
      elim old [ none ↦ (ok tt, s') | some m ↦ (ok tt, log (acked k m) s') ]

  -- The sending of PUBREL.
  abbrev pub release : ℕ → Bool → Step Q
  release k known s = (env.publish_release s.trace k, log (released k known) s)

  -- `process_mqtt_message` for PUBREC.
  unfoldable pub process_received : ℕ → ℕ → Step Q
  process_received now k s =
      release k true
        record { out_inflight = update_status d now k un_complete s.out_inflight; trace = s.trace }

  -- `reforward`
  unfoldable pub reforward : OutInflightMessage → Step Q
  reforward m s = elim m.status [
    | un_ack ↦ (ok tt, log (forwarded (as_dup m.publish)) s)
    | un_received ↦ (ok tt, log (forwarded (as_dup m.publish)) s)
    | un_complete ↦
        if env.is_expiry s.trace m.publish
        then (ok tt, log (unfinished m) s)
        else (env.requeue s.trace m, log (requeued m) s)
  ]

  -- The loop at a timeout, with the rounds that are left.
  unfoldable pub reforward_loop : ℕ → ℕ → Step Q
  reforward_loop zero now s = (ok tt, s)
  reforward_loop (suc n) now s =
      let (front, w) = pop_front_timeout d now s.out_inflight in
      elim front [
        | none ↦ (ok tt, record { out_inflight = w; trace = s.trace })
        | some m ↦
            let (r, s') =
              reforward m (log (timed_out m) record { out_inflight = w; trace = s.trace }) in
            elim r [ ok _ ↦ reforward_loop n now s' | err e ↦ (err e, s') ]
      ]

  -- `send_rerelease`
  unfoldable pub send_rerelease : ℕ → OutInflightMessage → Step Q
  send_rerelease now m s = elim m.publish.inner.packet_id [
    | none ↦ (err protocol_error, s)
    | some k ↦
        let m' : OutInflightMessage = record {
          publish = m.publish;
          status = un_complete;
          update_time = now;
        } in
        let (old, w) = push_back d m' s.out_inflight in
        release k (is_some old) (log (rereleased m') record { out_inflight = w; trace = s.trace })
  ]

  -- What the loop of a session does with an event: a message stays in the delivery queue as long as
  -- the window has no credit.
  unfoldable pub process : Event → Step Q
  process (deliver_packet now p) s =
      if has_credit d s.out_inflight then deliver now p s else (ok tt, s)
  process (publish_ack k) s = process_ack k s
  process (publish_received now k) s = process_received now k s
  process (publish_complete k) s = process_ack k s
  process (deliver_timeout now) s = reforward_loop (suc (d.len s.out_inflight.queues)) now s
  process (rerelease now m) s = send_rerelease now m s

  -- The loop of a session, until an error ends it.
  unfoldable pub run : List Event → Step Q
  run [] s = (ok tt, s)
  run (x ∷ xs) s = let (r, s') = process x s in elim r [ ok _ ↦ run xs s' | err e ↦ (err e, s') ]
