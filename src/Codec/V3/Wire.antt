-- ===== src/Codec/V3/Wire.antt =====
-- What a packet of MQTT 3.1.1 looks like on the wire, against which the encoder and the decoder of
-- oximqtt/src/codec/v3 are proved.
pub mod Writes
pub mod Reads
pub mod ReadsConnect
pub mod Sizes
use oximqtt.Base.{
  ℕ, ◌+◌, ◌*◌, ◌<◌, ◌≤◌, ◌^◌, ◌≡◌, ◌⊎◌, Bool, true, false, Option, none, some, List, [], ◌∷◌, ◌++◌,
  length, map, All,
}
use oximqtt.Base.Bytes.{Bytes}
use oximqtt.Codec.Qos.{
  QoS, at_most_once, qos_value, mqtt, mqtt_level_311, type_connect, type_connack, type_puback,
  type_pubrec, type_pubrel, type_pubcomp, type_subscribe, type_suback, type_unsubscribe,
  type_unsuback, type_pingreq, type_pingresp, type_disconnect,
}
use oximqtt.Codec.Utils.Lemmas.{u16, prefixed}
use oximqtt.Codec.V3.{
  LastWill, Connect, Publish, Packet, connect, connect_ack, publish, publish_ack, publish_received,
  publish_release, publish_complete, subscribe, subscribe_ack, unsubscribe, unsubscribe_ack,
  ping_request, ping_response, disconnect, reason_value,
}
use oximqtt.Codec.V3.Encode.{bit, connect_flags, code_value, publish_first_byte, get_encoded_size}

abbrev pub optional_bytes : Option Bytes → Bytes
optional_bytes none = []
optional_bytes (some s) = prefixed s

abbrev pub will_bytes : Option LastWill → Bytes
will_bytes none = []
will_bytes (some w) = prefixed w.will_topic ++ prefixed w.will_message

abbrev pub id_bytes : Option ℕ → Bytes
id_bytes none = []
id_bytes (some i) = u16 i

unfoldable pub filter_bytes : List (Bytes × QoS) → Bytes
filter_bytes [] = []
filter_bytes ((filter, qos) ∷ fs) = prefixed filter ++ (qos_value qos ∷ filter_bytes fs)

unfoldable pub name_bytes : List Bytes → Bytes
name_bytes [] = []
name_bytes (filter ∷ fs) = prefixed filter ++ name_bytes fs

-- A `Connect` after its protocol name, level and flags.
abbrev pub connect_fields : Connect → Bytes
connect_fields c =
    u16 c.keep_alive
    ++ (prefixed c.client_id
        ++ (will_bytes c.last_will ++ (optional_bytes c.username ++ optional_bytes c.password)))

-- The content of a packet, after its first byte and its length.
abbrev pub content : Packet → Bytes
content (connect c) = prefixed mqtt ++ (mqtt_level_311 ∷ connect_flags c ∷ connect_fields c)
content (connect_ack a) = bit a.session_present ∷ reason_value a.return_code ∷ []
content (publish p) = prefixed p.topic ++ (id_bytes p.packet_id ++ p.payload)
content (publish_ack i) = u16 i
content (publish_received i) = u16 i
content (publish_release i) = u16 i
content (publish_complete i) = u16 i
content (subscribe i fs) = u16 i ++ filter_bytes fs
content (subscribe_ack i ss) = u16 i ++ map code_value ss
content (unsubscribe i fs) = u16 i ++ name_bytes fs
content (unsubscribe_ack i) = u16 i
content ping_request = []
content ping_response = []
content disconnect = []

-- The first byte of a packet.
abbrev pub first_byte : Packet → ℕ
first_byte (connect c) = type_connect
first_byte (connect_ack a) = type_connack
first_byte (publish p) = publish_first_byte p
first_byte (publish_ack i) = type_puback
first_byte (publish_received i) = type_pubrec
first_byte (publish_release i) = type_pubrel
first_byte (publish_complete i) = type_pubcomp
first_byte (subscribe i fs) = type_subscribe
first_byte (subscribe_ack i ss) = type_suback
first_byte (unsubscribe i fs) = type_unsubscribe
first_byte (unsubscribe_ack i) = type_unsuback
first_byte ping_request = type_pingreq
first_byte ping_response = type_pingresp
first_byte disconnect = type_disconnect

-- A packet identifier is not 0 and has 16 bits.
abbrev pub IsId : ℕ → Type 0
IsId i = (0 < i) × (i < 2 ^ 16)

abbrev pub IsShort : Bytes → Type 0
IsShort s = length s < 2 ^ 16

abbrev pub IsShortOption : Option Bytes → Type 0
IsShortOption none = Unit
IsShortOption (some s) = IsShort s

-- A `Publish` has a packet identifier exactly if its quality of service is not 0.
abbrev pub FitsQos : QoS → Option ℕ → Type 0
FitsQos at_most_once none = Unit
FitsQos at_most_once (some i) = ⊥
FitsQos q none = ⊥
FitsQos q (some i) = IsId i

module _ (is_utf8 : Bytes → Bool) where
  -- A string of the protocol.
  abbrev pub IsText : Bytes → Type 0
  IsText s = (is_utf8 s ≡ true) × IsShort s

  abbrev pub IsTextOption : Option Bytes → Type 0
  IsTextOption none = Unit
  IsTextOption (some s) = IsText s

  abbrev pub IsWill : Option LastWill → Type 0
  IsWill none = Unit
  IsWill (some w) = IsText w.will_topic × IsShort w.will_message

  -- A `Connect` of level 4, with a client identifier unless the session is clean.
  pub record IsConnect (c : Connect) : Type 0 where
    pub level : c.protocol ≡ mqtt_level_311
    pub keep_alive : c.keep_alive < 2 ^ 16
    pub client_id : IsText c.client_id
    pub named : (0 < length c.client_id) ⊎ (c.clean_session ≡ true)
    pub last_will : IsWill c.last_will
    pub username : IsTextOption c.username
    pub password : IsShortOption c.password

  -- The packets that the wire format can carry.
  abbrev pub IsEncodable : Packet → Type 0
  IsEncodable (connect c) = IsConnect c
  IsEncodable (connect_ack a) = Unit
  IsEncodable (publish p) = IsText p.topic × FitsQos p.qos p.packet_id
  IsEncodable (publish_ack i) = IsId i
  IsEncodable (publish_received i) = IsId i
  IsEncodable (publish_release i) = IsId i
  IsEncodable (publish_complete i) = IsId i
  IsEncodable (subscribe i fs) = IsId i × All (λ f. IsText f.0) fs
  IsEncodable (subscribe_ack i ss) = IsId i
  IsEncodable (unsubscribe i fs) = IsId i × All IsText fs
  IsEncodable (unsubscribe_ack i) = IsId i
  IsEncodable _ = Unit
