-- ===== src/Codec/V3.antt =====
-- The packets of oximqtt/src/codec/v3/packet.rs, and `Publish` of oximqtt/src/codec/types.rs.
-- A string is its bytes; a packet identifier is a `NonZeroU16`, kept as its number.
pub mod Decode
pub mod Encode
pub mod Wire
pub mod Framing
use oximqtt.Base.{ℕ, Bool, Option, List, Result, ok, err, if◌then◌else◌, ◌==◌}
use oximqtt.Base.Bytes.{Bytes}
use oximqtt.Codec.Buffer.{DecodeError}
use oximqtt.Codec.Qos.{
  QoS, type_connect, type_connack, type_publish_start, type_puback, type_pubrec, type_pubrel,
  type_pubcomp, type_subscribe, type_suback, type_unsubscribe, type_unsuback, type_pingreq,
  type_pingresp, type_disconnect,
}

pub data ConnectAckReason : Type 0 where
  connection_accepted unacceptable_protocol_version identifier_rejected : ConnectAckReason
  service_unavailable bad_user_name_or_password not_authorized reserved : ConnectAckReason

-- `u8::from`
abbrev pub reason_value : ConnectAckReason → ℕ
reason_value connection_accepted = 0
reason_value unacceptable_protocol_version = 1
reason_value identifier_rejected = 2
reason_value service_unavailable = 3
reason_value bad_user_name_or_password = 4
reason_value not_authorized = 5
reason_value reserved = 6

-- `ConnectAckReason::try_from`
abbrev pub reason_try_from : ℕ → Result DecodeError ConnectAckReason
reason_try_from v =
    if v == 0
    then ok connection_accepted
    else if v == 1
    then ok unacceptable_protocol_version
    else if v == 2
    then ok identifier_rejected
    else if v == 3
    then ok service_unavailable
    else if v == 4
    then ok bad_user_name_or_password
    else if v == 5
    then ok not_authorized
    else if v == 6
    then ok reserved
    else err DecodeError.malformed_packet

pub record LastWill : Type 0 where
  pub will_qos : QoS
  pub will_retain : Bool
  pub will_topic : Bytes
  pub will_message : Bytes

-- The client certificate, `cert`, is filled in by the listener and never on the wire: it is left
-- out. `protocol` is the level that the struct `Protocol` holds.
pub record Connect : Type 0 where
  pub protocol : ℕ
  pub clean_session : Bool
  pub keep_alive : ℕ
  pub last_will : Option LastWill
  pub client_id : Bytes
  pub username : Option Bytes
  pub password : Option Bytes

-- `properties` is `None` in this version of the protocol: it is left out.
pub record Publish : Type 0 where
  pub dup : Bool
  pub retain : Bool
  pub qos : QoS
  pub topic : Bytes
  pub packet_id : Option ℕ
  pub payload : Bytes

pub record ConnectAck : Type 0 where
  pub return_code : ConnectAckReason
  pub session_present : Bool

pub data SubscribeReturnCode : Type 0 where
  success : QoS → SubscribeReturnCode
  failure : SubscribeReturnCode

pub data Packet : Type 0 where
  connect : Connect → Packet
  connect_ack : ConnectAck → Packet
  publish : Publish → Packet
  publish_ack : ℕ → Packet
  publish_received : ℕ → Packet
  publish_release : ℕ → Packet
  publish_complete : ℕ → Packet
  subscribe : ℕ → List (Bytes × QoS) → Packet
  subscribe_ack : ℕ → List SubscribeReturnCode → Packet
  unsubscribe : ℕ → List Bytes → Packet
  unsubscribe_ack : ℕ → Packet
  ping_request ping_response disconnect : Packet

-- `Packet::packet_type`
unfoldable pub packet_type : Packet → ℕ
packet_type (connect c) = type_connect
packet_type (connect_ack a) = type_connack
packet_type (publish p) = type_publish_start
packet_type (publish_ack i) = type_puback
packet_type (publish_received i) = type_pubrec
packet_type (publish_release i) = type_pubrel
packet_type (publish_complete i) = type_pubcomp
packet_type (subscribe i fs) = type_subscribe
packet_type (subscribe_ack i ss) = type_suback
packet_type (unsubscribe i fs) = type_unsubscribe
packet_type (unsubscribe_ack i) = type_unsuback
packet_type ping_request = type_pingreq
packet_type ping_response = type_pingresp
packet_type disconnect = type_disconnect
