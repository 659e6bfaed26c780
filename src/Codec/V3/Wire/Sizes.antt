-- ===== src/Codec/V3/Wire/Sizes.antt =====
-- `get_encoded_size` of oximqtt/src/codec/v3/encode.rs is the number of bytes of the content.
use oximqtt.Base.{
  Bool, ℕ, suc, ◌+◌, ◌≡◌, refl, ap, Option, none, some, List, [], ◌∷◌, ◌++◌, length, map, arith,
  length-append,
}
use oximqtt.Base.Bytes.{Bytes}
use oximqtt.Codec.Qos.{QoS, at_most_once, at_least_once, exactly_once, qos_value, protocol_name}
use oximqtt.Codec.Utils.Lemmas.{u16, prefixed}
use oximqtt.Codec.V3.{
  LastWill, Connect, Packet, SubscribeReturnCode, connect, connect_ack, publish, publish_ack,
  publish_received, publish_release, publish_complete, subscribe, subscribe_ack, unsubscribe,
  unsubscribe_ack, ping_request, ping_response, disconnect,
}
use oximqtt.Codec.V3.Encode.{
  code_value, will_size, optional_size, filters_size, names_size, connect_size,
  get_encoded_publish_size, get_encoded_subscribe_size, get_encoded_unsubscribe_size,
  get_encoded_size,
}
use oximqtt.Codec.V3.Wire.{
  optional_bytes, will_bytes, id_bytes, filter_bytes, name_bytes, connect_fields, content, FitsQos,
  IsEncodable,
}

length-will_bytes : (w : Option LastWill) → length (will_bytes w) ≡ will_size w
length-will_bytes none = refl
length-will_bytes (some w) =
    omega (arith, length-append {0} (prefixed w.will_topic) (prefixed w.will_message))

length-optional_bytes : (o : Option Bytes) → length (optional_bytes o) ≡ optional_size o
length-optional_bytes none = refl
length-optional_bytes (some s) = omega arith

length-filter_bytes :
    (fs : List (Bytes × QoS)) (acc : ℕ) → acc + length (filter_bytes fs) ≡ filters_size acc fs
unfolding filter_bytes
length-filter_bytes [] acc = omega arith
length-filter_bytes ((filter, qos) ∷ fs) acc = omega (
  arith,
  length-append {0} filter (qos_value qos ∷ filter_bytes fs),
  length-filter_bytes fs (acc + 2 + length filter + 1),
)

length-name_bytes : (fs : List Bytes) (acc : ℕ) → acc + length (name_bytes fs) ≡ names_size acc fs
unfolding name_bytes
length-name_bytes [] acc = omega arith
length-name_bytes (filter ∷ fs) acc = omega (
  arith,
  length-append {0} filter (name_bytes fs),
  length-name_bytes fs (acc + 2 + length filter),
)

length-map_codes : (ss : List SubscribeReturnCode) → length (map code_value ss) ≡ length ss
length-map_codes [] = refl
length-map_codes (s ∷ ss) = ap suc (length-map_codes ss)

length-connect_fields :
    (c : Connect)
    → length (connect_fields c)
      ≡ 4
        + length c.client_id
        + will_size c.last_will
        + optional_size c.username
        + optional_size c.password
length-connect_fields c =
    let user = optional_bytes c.username in
    let pass = optional_bytes c.password in
    omega (
      arith,
      length-append {0} (prefixed c.client_id) (will_bytes c.last_will ++ (user ++ pass)),
      length-append {0} (will_bytes c.last_will) (user ++ pass),
      length-append {0} user pass,
      length-will_bytes c.last_will,
      length-optional_bytes c.username,
      length-optional_bytes c.password,
    )

length-publish :
    (q : QoS) (i : Option ℕ) (topic payload : Bytes)
    → FitsQos q i
    → length (prefixed topic ++ (id_bytes i ++ payload)) ≡ (elim q [
      | at_most_once ↦ 2 + length topic + length payload
      | _ ↦ 4 + length topic + length payload
    ])
length-publish at_most_once none topic payload h = omega (arith, length-append {0} topic payload)
length-publish at_most_once (some i) topic payload h = absurd h
length-publish at_least_once none topic payload h = absurd h
length-publish exactly_once none topic payload h = absurd h
length-publish at_least_once (some i) topic payload h =
    omega (arith, length-append {0} topic (u16 i ++ payload))
length-publish exactly_once (some i) topic payload h =
    omega (arith, length-append {0} topic (u16 i ++ payload))

module _ (is_utf8 : Bytes → Bool) where
  -- For every packet that the wire format can carry, `get_encoded_size` is the number of bytes of
  -- its content.
  pub length-content :
      (p : Packet) → IsEncodable is_utf8 p → length (content p) ≡ get_encoded_size p
  unfolding get_encoded_size connect_size protocol_name get_encoded_publish_size
      get_encoded_subscribe_size get_encoded_unsubscribe_size
  length-content (connect c) h = rw h.level (omega (arith, length-connect_fields c))
  length-content (connect_ack a) h = refl
  length-content (publish p) h = length-publish p.qos p.packet_id p.topic p.payload h.1
  length-content (publish_ack i) h = refl
  length-content (publish_received i) h = refl
  length-content (publish_release i) h = refl
  length-content (publish_complete i) h = refl
  length-content (subscribe i fs) h = omega (arith, length-filter_bytes fs 0)
  length-content (subscribe_ack i ss) h = omega (arith, length-map_codes ss)
  length-content (unsubscribe i fs) h = omega (arith, length-name_bytes fs 0)
  length-content (unsubscribe_ack i) h = refl
  length-content ping_request h = refl
  length-content ping_response h = refl
  length-content disconnect h = refl
