-- ===== src/Codec/V3/Encode.antt =====
-- oximqtt/src/codec/v3/encode.rs: from a packet to its bytes, and their number.
use oximqtt.Base.{ℕ, ◌+◌, ◌*◌, Bool, true, false, Option, none, some, List, [], ◌∷◌, length, map}
use oximqtt.Base.Bytes.{Bytes}
use oximqtt.Codec.Buffer.{EncodeError}
use oximqtt.Codec.Qos.{
  QoS, at_most_once, qos_value, mqtt_level_311, protocol_name, type_connect, type_connack,
  type_publish_start, type_puback, type_pubrec, type_pubrel, type_pubcomp, type_subscribe,
  type_suback, type_unsubscribe, type_unsuback, type_pingreq, type_pingresp, type_disconnect,
}
use oximqtt.Codec.Utils.{encode_bytes, encode_u16}
use oximqtt.Codec.V3.{
  LastWill, Connect, Publish, SubscribeReturnCode, Packet, connect, connect_ack, publish,
  publish_ack, publish_received, publish_release, publish_complete, subscribe, subscribe_ack,
  unsubscribe, unsubscribe_ack, ping_request, ping_response, disconnect, success, failure,
  reason_value,
}
use oximqtt.Codec.Varlen.{write_variable_length}
use oximqtt.Codec.Writer.{Write, ◌>>◌, put, put_u8, put_u16, skip, refuse}

-- `u8::from`, of a Boolean
abbrev pub bit : Bool → ℕ
bit true = 1
bit false = 0

abbrev pub is_some {ℓ} : {A : Type ℓ} → Option A → Bool
is_some none = false
is_some (some a) = true

-- The flags of a last will. The flags of `encode_connect` are different bits, so `|=` adds them.
abbrev pub will_flags : Option LastWill → ℕ
will_flags none = 0
will_flags (some w) = 4 + bit w.will_retain * 32 + qos_value w.will_qos * 8

abbrev pub connect_flags : Connect → ℕ
connect_flags c =
    bit (is_some c.username) * 128
    + bit (is_some c.password) * 64
    + will_flags c.last_will
    + bit c.clean_session * 2

abbrev pub encode_will : Option LastWill → Write
encode_will none = skip
encode_will (some w) = encode_bytes w.will_topic >> encode_bytes w.will_message

abbrev pub encode_optional : Option Bytes → Write
encode_optional none = skip
encode_optional (some s) = encode_bytes s

-- `encode_connect`
unfoldable pub encode_connect : Connect → Write
encode_connect c = do
  encode_bytes (protocol_name c.protocol)
  put (mqtt_level_311 ∷ connect_flags c ∷ [])
  put_u16 c.keep_alive
  encode_bytes c.client_id
  encode_will c.last_will
  encode_optional c.username
  encode_optional c.password

-- The packet identifier of a `Publish`.
abbrev pub encode_packet_id : QoS → Option ℕ → Write
encode_packet_id at_most_once none = skip
encode_packet_id at_most_once (some i) = refuse EncodeError.malformed_packet
encode_packet_id q none = refuse EncodeError.packet_id_required
encode_packet_id q (some i) = encode_u16 i

-- The loop over the filters of a `Subscribe`.
unfoldable pub encode_filters : List (Bytes × QoS) → Write
encode_filters [] = skip
encode_filters ((filter, qos) ∷ fs) = do
  encode_bytes filter
  put_u8 (qos_value qos)
  encode_filters fs

-- The loop over the filters of an `Unsubscribe`.
unfoldable pub encode_names : List Bytes → Write
encode_names [] = skip
encode_names (filter ∷ fs) = do encode_bytes filter; encode_names fs

abbrev pub code_value : SubscribeReturnCode → ℕ
code_value (success qos) = qos_value qos
code_value failure = 0x80

-- The first byte of a `Publish`; the bits are different ones, so `|` adds them.
abbrev pub publish_first_byte : Publish → ℕ
publish_first_byte p = type_publish_start + qos_value p.qos * 2 + bit p.dup * 8 + bit p.retain

-- The first byte, the length and what follows them.
abbrev pub framed : ℕ → ℕ → Write → Write
framed first_byte content_size content = do
  put_u8 first_byte
  write_variable_length content_size
  content

-- `encode`
unfoldable pub encode : Packet → ℕ → Write
encode (connect c) n = framed type_connect n (encode_connect c)
encode (connect_ack a) n =
    framed type_connack n (put (bit a.session_present ∷ reason_value a.return_code ∷ []))
encode (publish p) n =
    framed (publish_first_byte p) n
      (encode_bytes p.topic >> encode_packet_id p.qos p.packet_id >> put p.payload)
encode (publish_ack i) n = framed type_puback n (encode_u16 i)
encode (publish_received i) n = framed type_pubrec n (encode_u16 i)
encode (publish_release i) n = framed type_pubrel n (encode_u16 i)
encode (publish_complete i) n = framed type_pubcomp n (encode_u16 i)
encode (subscribe i fs) n = framed type_subscribe n (encode_u16 i >> encode_filters fs)
encode (subscribe_ack i ss) n = framed type_suback n (encode_u16 i >> put (map code_value ss))
encode (unsubscribe i fs) n = framed type_unsubscribe n (encode_u16 i >> encode_names fs)
encode (unsubscribe_ack i) n = framed type_unsuback n (encode_u16 i)
encode ping_request n = put (type_pingreq ∷ 0 ∷ [])
encode ping_response n = put (type_pingresp ∷ 0 ∷ [])
encode disconnect n = put (type_disconnect ∷ 0 ∷ [])

-- `get_encoded_publish_size`
unfoldable pub get_encoded_publish_size : Publish → ℕ
get_encoded_publish_size p = elim p.qos [
  | at_most_once ↦ 2 + length p.topic + length p.payload
  | _ ↦ 4 + length p.topic + length p.payload
]

abbrev pub filters_size : ℕ → List (Bytes × QoS) → ℕ
filters_size acc [] = acc
filters_size acc ((filter, qos) ∷ fs) = filters_size (acc + 2 + length filter + 1) fs

-- `get_encoded_subscribe_size`
unfoldable pub get_encoded_subscribe_size : List (Bytes × QoS) → ℕ
get_encoded_subscribe_size fs = 2 + filters_size 0 fs

abbrev pub names_size : ℕ → List Bytes → ℕ
names_size acc [] = acc
names_size acc (filter ∷ fs) = names_size (acc + 2 + length filter) fs

-- `get_encoded_unsubscribe_size`
unfoldable pub get_encoded_unsubscribe_size : List Bytes → ℕ
get_encoded_unsubscribe_size fs = 2 + names_size 0 fs

abbrev pub will_size : Option LastWill → ℕ
will_size none = 0
will_size (some w) = 2 + length w.will_topic + 2 + length w.will_message

abbrev pub optional_size : Option Bytes → ℕ
optional_size none = 0
optional_size (some s) = 2 + length s

-- `get_encoded_size`, the arm of `Connect`
unfoldable pub connect_size : Connect → ℕ
connect_size c =
    4
    + (2 + length (protocol_name c.protocol))
    + (2 + length c.client_id)
    + will_size c.last_will
    + optional_size c.username
    + optional_size c.password

-- `get_encoded_size`
unfoldable pub get_encoded_size : Packet → ℕ
get_encoded_size (connect c) = connect_size c
get_encoded_size (publish p) = get_encoded_publish_size p
get_encoded_size (subscribe i fs) = get_encoded_subscribe_size fs
get_encoded_size (subscribe_ack i ss) = 2 + length ss
get_encoded_size (unsubscribe i fs) = get_encoded_unsubscribe_size fs
get_encoded_size ping_request = 0
get_encoded_size ping_response = 0
get_encoded_size disconnect = 0
get_encoded_size _ = 2
