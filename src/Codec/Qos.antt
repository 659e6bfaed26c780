-- ===== src/Codec/Qos.antt =====
-- `QoS`, `Protocol`, the connect flags and the packet types of oximqtt/src/codec/types.rs.
use oximqtt.Base.{ℕ, Bool, true, false, Result, ok, err, ◌==◌, ltb, if◌then◌else◌}
use oximqtt.Base.Bytes.{Bytes, codes}
use oximqtt.Codec.Buffer.{DecodeError}

pub data QoS : Type 0 where
  at_most_once at_least_once exactly_once : QoS

-- `QoS::value`, and `u8::from`
abbrev pub qos_value : QoS → ℕ
qos_value at_most_once = 0
qos_value at_least_once = 1
qos_value exactly_once = 2

-- `QoS::try_from`
abbrev pub qos_try_from : ℕ → Result DecodeError QoS
qos_try_from v =
    if v == 0
    then ok at_most_once
    else if v == 1
    then ok at_least_once
    else if v == 2
    then ok exactly_once
    else err DecodeError.malformed_packet

-- `QoS::less_value`
unfoldable pub less_value : QoS → QoS → QoS
less_value q r = if ltb (qos_value q) (qos_value r) then q else r

abbrev pub is_at_most_once : QoS → Bool
is_at_most_once at_most_once = true
is_at_most_once _ = false

abbrev pub mqtt_level_31 : ℕ
mqtt_level_31 = 3

abbrev pub mqtt_level_311 : ℕ
mqtt_level_311 = 4

-- The protocol names `MQTT` and `MQIsdp`.
abbrev pub mqtt : Bytes
mqtt = codes "MQTT"

abbrev pub mqisdp : Bytes
mqisdp = codes "MQIsdp"

-- `Protocol::name`, of a protocol level
unfoldable pub protocol_name : ℕ → Bytes
protocol_name level = if level == mqtt_level_31 then mqisdp else mqtt

-- The packet types, as first bytes of a packet.
abbrev pub type_connect : ℕ
type_connect = 0x10

abbrev pub type_connack : ℕ
type_connack = 0x20

abbrev pub type_publish_start : ℕ
type_publish_start = 0x30

abbrev pub type_publish_end : ℕ
type_publish_end = 0x3f

abbrev pub type_puback : ℕ
type_puback = 0x40

abbrev pub type_pubrec : ℕ
type_pubrec = 0x50

abbrev pub type_pubrel : ℕ
type_pubrel = 0x62

abbrev pub type_pubcomp : ℕ
type_pubcomp = 0x70

abbrev pub type_subscribe : ℕ
type_subscribe = 0x82

abbrev pub type_suback : ℕ
type_suback = 0x90

abbrev pub type_unsubscribe : ℕ
type_unsubscribe = 0xa2

abbrev pub type_unsuback : ℕ
type_unsuback = 0xb0

abbrev pub type_pingreq : ℕ
type_pingreq = 0xc0

abbrev pub type_pingresp : ℕ
type_pingresp = 0xd0

abbrev pub type_disconnect : ℕ
type_disconnect = 0xe0
