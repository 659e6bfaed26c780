-- ===== src/Codec/V3/Wire/Writes.antt =====
-- oximqtt/src/codec/v3/encode.rs writes what the wire format says.
use oximqtt.Base.{
  ℕ, ◌%◌, ◌<◌, ◌≤◌, ◌^◌, ◌≡◌, refl, Bool, Option, none, some, List, [], ◌∷◌, ◌++◌, length, All,
  arith, append_assoc, append-nil,
}
use oximqtt.Base.Bytes.{Bytes}
use oximqtt.Codec.Qos.{
  QoS, at_most_once, at_least_once, exactly_once, mqtt, protocol_name, type_connect, type_connack,
  type_puback, type_pubrec, type_pubrel, type_pubcomp, type_subscribe, type_suback,
  type_unsubscribe, type_unsuback,
}
use oximqtt.Codec.V3.{
  LastWill, Connect, Publish, Packet, connect, connect_ack, publish, publish_ack, publish_received,
  publish_release, publish_complete, subscribe, subscribe_ack, unsubscribe, unsubscribe_ack,
  ping_request, ping_response, disconnect,
}
use oximqtt.Codec.V3.Wire.{
  optional_bytes, will_bytes, id_bytes, filter_bytes, name_bytes, content, first_byte,
  IsShortOption, FitsQos, IsText, IsTextOption, IsWill, IsConnect, IsEncodable,
}
use oximqtt.Codec.Utils.Lemmas.{u16, encode_u16-Writes, encode_bytes-Writes}
use oximqtt.Codec.Varlen.RoundTrip.{varlen, write-varlen}
use oximqtt.Codec.Writer.{Write, Writes}
use oximqtt.Codec.V3.Encode.{
  publish_first_byte, encode_will, encode_optional, encode_connect, encode_packet_id,
  encode_filters, encode_names, framed, encode,
}

module _ (is_utf8 : Bytes → Bool) where
  encode_filters-Writes :
      (fs : List (Bytes × QoS))
      → All (λ f. IsText is_utf8 f.0) fs
      → Writes (encode_filters fs) (filter_bytes fs)
  unfolding encode_filters filter_bytes
  encode_filters-Writes [] h dst = rw append-nil
  encode_filters-Writes ((filter, at_most_once) ∷ fs) (h, t) dst =
      simp (encode_bytes-Writes filter h.1, encode_filters-Writes fs t, append_assoc)
  encode_filters-Writes ((filter, at_least_once) ∷ fs) (h, t) dst =
      simp (encode_bytes-Writes filter h.1, encode_filters-Writes fs t, append_assoc)
  encode_filters-Writes ((filter, exactly_once) ∷ fs) (h, t) dst =
      simp (encode_bytes-Writes filter h.1, encode_filters-Writes fs t, append_assoc)

  encode_names-Writes :
      (fs : List Bytes) → All (IsText is_utf8) fs → Writes (encode_names fs) (name_bytes fs)
  unfolding encode_names name_bytes
  encode_names-Writes [] h dst = rw append-nil
  encode_names-Writes (filter ∷ fs) (h, t) dst =
      simp (encode_bytes-Writes filter h.1, encode_names-Writes fs t, append_assoc)

  encode_packet_id-Writes :
      (q : QoS) (i : Option ℕ) → FitsQos q i → Writes (encode_packet_id q i) (id_bytes i)
  encode_packet_id-Writes at_most_once none h dst = rw append-nil
  encode_packet_id-Writes at_most_once (some i) h dst = absurd h
  encode_packet_id-Writes at_least_once none h dst = absurd h
  encode_packet_id-Writes exactly_once none h dst = absurd h
  encode_packet_id-Writes at_least_once (some i) h dst = encode_u16-Writes i dst
  encode_packet_id-Writes exactly_once (some i) h dst = encode_u16-Writes i dst

  encode_will-Writes :
      (w : Option LastWill) → IsWill is_utf8 w → Writes (encode_will w) (will_bytes w)
  encode_will-Writes none h dst = rw append-nil
  encode_will-Writes (some w) h dst =
      simp (
        encode_bytes-Writes w.will_topic h.0.1,
        encode_bytes-Writes w.will_message h.1,
        append_assoc,
      )

  encode_optional-Writes :
      (o : Option Bytes) → IsShortOption o → Writes (encode_optional o) (optional_bytes o)
  encode_optional-Writes none h dst = rw append-nil
  encode_optional-Writes (some s) h dst = encode_bytes-Writes s h dst

  IsShortOption-of_text : (o : Option Bytes) → IsTextOption is_utf8 o → IsShortOption o
  IsShortOption-of_text none h = tt
  IsShortOption-of_text (some s) h = h.1

  name-short : length mqtt < 2 ^ 16
  name-short = omega arith

  encode_connect-Writes :
      (c : Connect) → IsConnect is_utf8 c → Writes (encode_connect c) (content (connect c))
  unfolding encode_connect protocol_name
  encode_connect-Writes c h dst = rw h.level (
      simp (
        encode_bytes-Writes mqtt name-short,
        encode_bytes-Writes c.client_id h.client_id.1,
        encode_will-Writes c.last_will h.last_will,
        encode_optional-Writes c.username (IsShortOption-of_text c.username h.username),
        encode_optional-Writes c.password h.password,
        append_assoc,
      ))

framed-Writes :
    (b n : ℕ) (w : Write) (bs : Bytes)
    → b < 256
    → n ≤ 268_435_455
    → Writes w bs
    → Writes (framed b n w) (b ∷ (varlen 3 n ++ bs))
framed-Writes b n w bs hb hn h dst =
    let e : b % 256 ≡ b = omega arith in rw e (simp (write-varlen n hn, h, append_assoc))

-- The bytes of a packet: its first byte, the length of its content, its content.
abbrev pub packet_bytes : Packet → Bytes
packet_bytes p = first_byte p ∷ (varlen 3 (length (content p)) ++ content p)

first_byte_small : (p : Publish) → publish_first_byte p < 256
first_byte_small p = ground arith

module _ (is_utf8 : Bytes → Bool) where
  -- The encoder writes the bytes of the wire format, given the size of the content.
  pub encode-Writes :
      (p : Packet)
      → IsEncodable is_utf8 p
      → length (content p) ≤ 268_435_455
      → Writes (encode p (length (content p))) (packet_bytes p)
  unfolding encode varlen
  encode-Writes (connect c) h n =
      framed-Writes type_connect (length (content (connect c))) (encode_connect c)
        (content (connect c)) (omega arith) n (encode_connect-Writes is_utf8 c h)
  encode-Writes (connect_ack a) h n =
      framed-Writes type_connack 2 _ (content (connect_ack a)) (omega arith) (omega arith)
        (λ dst. refl)
  encode-Writes (publish p) h n =
      framed-Writes (publish_first_byte p) (length (content (publish p))) _ (content (publish p))
        (first_byte_small p) n
        (λ dst. simp (
          encode_bytes-Writes p.topic h.0.1,
          encode_packet_id-Writes is_utf8 p.qos p.packet_id h.1,
          append_assoc,
        ))
  encode-Writes (publish_ack i) h n =
      framed-Writes type_puback 2 _ (u16 i) (omega arith) (omega arith) (encode_u16-Writes i)
  encode-Writes (publish_received i) h n =
      framed-Writes type_pubrec 2 _ (u16 i) (omega arith) (omega arith) (encode_u16-Writes i)
  encode-Writes (publish_release i) h n =
      framed-Writes type_pubrel 2 _ (u16 i) (omega arith) (omega arith) (encode_u16-Writes i)
  encode-Writes (publish_complete i) h n =
      framed-Writes type_pubcomp 2 _ (u16 i) (omega arith) (omega arith) (encode_u16-Writes i)
  encode-Writes (subscribe i fs) h n =
      framed-Writes type_subscribe _ _ _ (omega arith) n
        (λ dst. simp (encode_u16-Writes i, encode_filters-Writes is_utf8 fs h.1, append_assoc))
  encode-Writes (subscribe_ack i ss) h n =
      framed-Writes type_suback _ _ _ (omega arith) n
        (λ dst. simp (encode_u16-Writes i, append_assoc))
  encode-Writes (unsubscribe i fs) h n =
      framed-Writes type_unsubscribe _ _ _ (omega arith) n
        (λ dst. simp (encode_u16-Writes i, encode_names-Writes is_utf8 fs h.1, append_assoc))
  encode-Writes (unsubscribe_ack i) h n =
      framed-Writes type_unsuback 2 _ (u16 i) (omega arith) (omega arith) (encode_u16-Writes i)
  encode-Writes ping_request h n = λ dst. refl
  encode-Writes ping_response h n = λ dst. refl
  encode-Writes disconnect h n = λ dst. refl
