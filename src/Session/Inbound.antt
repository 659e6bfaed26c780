-- ===== src/Session/Inbound.antt =====
-- oximqtt/src/session.rs: what a session does with the messages that its client publishes, at each
-- quality of service, and with the releases of QoS 2.
pub mod Published
pub mod Acked
pub mod Drained
pub mod Handled
pub mod AtLeastOnce
pub mod Order
pub mod Runs
use oximqtt.Base.{
  ℕ, ◌+◌, Bool, true, false, ◌&&◌, Option, none, some, List, [], ◌∷◌, ◌++◌, length, leb, ◌==◌,
  if◌then◌else◌, Result, ok, err,
}
use oximqtt.Codec.Qos.{QoS, at_most_once, at_least_once, exactly_once}
use oximqtt.Inflight
use oximqtt.Inflight.{InInflight}
use oximqtt.Types.{PublishResult, publish_success, is_success}
use oximqtt.Session.{
  Publish, Reason, window, protocol_error, Reply, publish_ack, publish_received, publish_complete,
  Effect, dropped, Env, SessionState, M, pure, raise, ◌>>=◌, ◌>>◌, log, publish, send,
}

-- `SESSION_QOS2_PENDING_CAP`
abbrev pub session_qos2_pending_cap : ℕ
session_qos2_pending_cap = 4_096

-- `SessionState::packet_id`
abbrev pub packet_id : Option ℕ → M ℕ
packet_id none = raise protocol_error
packet_id (some pid) = pure pid

abbrev pub in_window : Result Inflight.Reason Bool → Result Reason Bool
in_window (ok b) = ok b
in_window (err e) = err (window e)

-- `self.in_inflight.add`
unfoldable pub add_inflight : ℕ → QoS → M Bool
add_inflight pid qos s =
    let (r, w) = Inflight.add pid qos s.in_inflight in (in_window r, record s { in_inflight = w })

-- `self.in_inflight.remove`
unfoldable pub remove_inflight : ℕ → SessionState → SessionState
remove_inflight pid s = record s { in_inflight = (Inflight.remove pid s.in_inflight).1 }

-- `ack_qos2_inbound`, what is done with the window: a refused message takes no place in it.
unfoldable pub admit : ℕ → PublishResult → M Bool
admit pid res s = if is_success res then add_inflight pid exactly_once s else (ok false, s)

abbrev pub is_err {ℓ} : {A : Type ℓ} → Result Reason A → Bool
is_err (ok a) = false
is_err (err e) = true

abbrev pub is_pending : ℕ → List (ℕ × Publish) → Bool
is_pending pid [] = false
is_pending pid ((j, p) ∷ rest) = if j == pid then true else is_pending pid rest

module _ (env : Env) where
  -- `ack_qos2_inbound`, the PUBREC: a failure to send takes the identifier back.
  unfoldable pub send_received : ℕ → PublishResult → Bool → M (Unit {0})
  send_received pid res added s =
      let (r, s') = send env (publish_received pid res) s in
      if added && is_err r then (r, remove_inflight pid s') else (r, s')

  -- `ack_qos2_inbound`
  unfoldable pub ack_qos2_inbound : ℕ → Publish → M (Unit {0})
  ack_qos2_inbound pid p = do
    res ← publish env p
    added ← admit pid res
    send_received pid res added

  -- The loop of `drain_qos2_pending`, on the messages that are deferred.
  unfoldable pub drain : List (ℕ × Publish) → M (Unit {0})
  drain [] s = (ok tt, record s { qos2_pending = [] })
  drain ((pid, p) ∷ rest) s = elim (Inflight.is_full s.in_inflight) [
    | true ↦ (ok tt, record s { qos2_pending = (pid, p) ∷ rest })
    | false ↦
        let (r, s') = ack_qos2_inbound pid p record s { qos2_pending = rest } in
        elim r [ ok _ ↦ drain rest s' | err e ↦ (err e, s') ]
  ]

  -- `drain_qos2_pending`
  abbrev pub drain_qos2_pending : M (Unit {0})
  drain_qos2_pending s = drain s.qos2_pending s

  -- What `process_publish` does at QoS 1 once the identifier is in the window or was there before.
  unfoldable pub publish_at_least_once : ℕ → Publish → Bool → M (Unit {0})
  publish_at_least_once pid p added s =
      let (r, s') = publish env p s in
      elim r [
        | err e ↦ (err e, if added then remove_inflight pid s' else s')
        | ok res ↦
            let (r', s'') = send env (publish_ack pid res) s' in
            (r', if added then remove_inflight pid s'' else s'')
      ]

  -- `process_publish` at QoS 1
  unfoldable pub process_at_least_once : ℕ → Publish → M (Unit {0})
  process_at_least_once pid p s =
      let (r, s') = add_inflight pid at_least_once s in
      elim r [
        | err e ↦ (err e, log (dropped p e) s')
        | ok added ↦ publish_at_least_once pid p added s'
      ]

  -- `process_publish` at QoS 2
  unfoldable pub process_exactly_once : ℕ → Publish → M (Unit {0})
  process_exactly_once pid p s =
      if is_pending pid s.qos2_pending
      then (ok tt, s)
      else if Inflight.contains pid s.in_inflight
      then send env (publish_received pid publish_success) s
      else if Inflight.is_full s.in_inflight
      then if leb session_qos2_pending_cap (length s.qos2_pending)
        then (ok tt, record s { publish_errors = s.publish_errors + 1 })
        else (ok tt, record s { qos2_pending = s.qos2_pending ++ ((pid, p) ∷ []) })
      else ack_qos2_inbound pid p s

  abbrev pub process_at : QoS → Publish → M (Unit {0})
  process_at at_most_once p = publish env p >> pure tt
  process_at at_least_once p = do pid ← packet_id p.inner.packet_id; process_at_least_once pid p
  process_at exactly_once p = do pid ← packet_id p.inner.packet_id; process_exactly_once pid p

  -- `process_publish`
  unfoldable pub process_publish : Publish → M (Unit {0})
  process_publish p = process_at p.inner.qos p

  -- `process_mqtt_message` for PUBREL
  unfoldable pub process_release : ℕ → M (Unit {0})
  process_release pid s =
      let (r, s') = send env (publish_complete pid) (remove_inflight pid s) in
      elim r [ err e ↦ (err e, s') | ok _ ↦ drain s'.qos2_pending s' ]

-- The messages of a client that this model follows.
pub data Packet : Type 0 where
  publish_packet : Publish → Packet
  publish_release : ℕ → Packet

module _ (env : Env) where
  -- `process_mqtt_message`
  abbrev pub process : Packet → M (Unit {0})
  process (publish_packet p) = process_publish env p
  process (publish_release pid) = process_release env pid

  -- The loop of the session as far as it reads messages: an error ends it.
  unfoldable pub run : List Packet → M (Unit {0})
  run [] s = (ok tt, s)
  run (x ∷ xs) s = let (r, s') = process x s in elim r [ ok _ ↦ run xs s' | err e ↦ (err e, s') ]
