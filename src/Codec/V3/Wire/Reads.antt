-- ===== src/Codec/V3/Wire/Reads.antt =====
-- oximqtt/src/codec/v3/decode.rs reads what the wire format says.
use oximqtt.Base.{
  ℕ, zero, suc, ◌+◌, ◌*◌, ◌/◌, ◌%◌, ◌≤◌, ◌≡◌, refl, Bool, true, false, not, ◌&&◌, Option, none,
  some, List, [], ◌∷◌, ◌++◌, length, map, All, ok, arith, leb, ◌==◌, length-append,
}
use oximqtt.Base.Bytes.{Bytes}
use oximqtt.Codec.Buffer.{
  DecodeError, ensure_remaining, ensure_remaining_enough, ensure_empty, ensure,
}
use oximqtt.Codec.Qos.{
  QoS, at_most_once, at_least_once, exactly_once, qos_value, qos_try_from, is_at_most_once,
}
use oximqtt.Codec.Utils.{decode_string, decode_non_zero_u16}
use oximqtt.Codec.Utils.Lemmas.{u16, prefixed, decode_non_zero_u16-u16, decode_string-prefixed}
use oximqtt.Codec.V3.{
  Publish, Packet, ConnectAck, SubscribeReturnCode, connect, connect_ack, publish, publish_ack,
  publish_received, publish_release, publish_complete, subscribe, subscribe_ack, unsubscribe,
  unsubscribe_ack, ping_request, ping_response, disconnect, success, failure, reason_value,
  ConnectAckReason, reason_try_from, connection_accepted, unacceptable_protocol_version,
  identifier_rejected, service_unavailable, bad_user_name_or_password, not_authorized, reserved,
}
use oximqtt.Codec.V3.Encode.{bit, code_value, publish_first_byte}
use oximqtt.Codec.V3.Decode.{
  decode_ack, has_flag, read_if, read_all, read_codes, decode_subscribe_ack_packet,
  decode_connect_ack_packet, decode_publish_packet, read_filter, decode_subscribe_packet,
  decode_unsubscribe_packet, decode_packet,
}
use oximqtt.Codec.V3.Wire.ReadsConnect.{connect_read}
use oximqtt.Codec.V3.Wire.{
  id_bytes, filter_bytes, name_bytes, content, first_byte, IsId, FitsQos, IsText, IsEncodable,
}

qos_try_from-wire : (q : QoS) → qos_try_from (qos_value q % 4) ≡ ok q
qos_try_from-wire at_most_once = refl
qos_try_from-wire at_least_once = refl
qos_try_from-wire exactly_once = refl

reason_try_from-value : (r : ConnectAckReason) → reason_try_from (reason_value r) ≡ ok r
reason_try_from-value connection_accepted = refl
reason_try_from-value unacceptable_protocol_version = refl
reason_try_from-value identifier_rejected = refl
reason_try_from-value service_unavailable = refl
reason_try_from-value bad_user_name_or_password = refl
reason_try_from-value not_authorized = refl
reason_try_from-value reserved = refl

ack_read : (f : ℕ → Packet) (i : ℕ) → IsId i → decode_ack f (u16 i) ≡ ok (f i, [])
unfolding decode_ack ensure_empty
ack_read f i h = rw (decode_non_zero_u16-u16 i [] h.0 h.1) refl

connect_ack_read :
    (a : ConnectAck) → decode_connect_ack_packet (content (connect_ack a)) ≡ ok (connect_ack a, [])
unfolding decode_connect_ack_packet ensure ensure_remaining
connect_ack_read a = go a.return_code a.session_present
  where
    go :
        (r : ConnectAckReason) (b : Bool)
        → decode_connect_ack_packet (bit b ∷ reason_value r ∷ [])
          ≡ ok (connect_ack (record { return_code = r; session_present = b }), [])
    go r true = rw (reason_try_from-value r) refl
    go r false = rw (reason_try_from-value r) refl

codes_read : (ss : List SubscribeReturnCode) → read_codes (map code_value ss) ≡ ok ss
unfolding read_codes
codes_read [] = refl
codes_read (failure ∷ ss) = rw (codes_read ss) refl
codes_read (success at_most_once ∷ ss) = rw (codes_read ss) refl
codes_read (success at_least_once ∷ ss) = rw (codes_read ss) refl
codes_read (success exactly_once ∷ ss) = rw (codes_read ss) refl

suback_read :
    (i : ℕ) (ss : List SubscribeReturnCode)
    → IsId i
    → decode_subscribe_ack_packet (u16 i ++ map code_value ss)
      ≡ ok (subscribe_ack i ss, map code_value ss)
unfolding decode_subscribe_ack_packet
suback_read i ss h = rw (decode_non_zero_u16-u16 i (map code_value ss) h.0 h.1, codes_read ss) refl

id_read :
    (q : QoS) (i : Option ℕ) (rest : Bytes)
    → FitsQos q i
    → read_if (not (is_at_most_once q)) decode_non_zero_u16 (id_bytes i ++ rest) ≡ ok (i, rest)
unfolding read_if
id_read at_most_once none rest h = refl
id_read at_most_once (some i) rest h = absurd h
id_read at_least_once none rest h = absurd h
id_read exactly_once none rest h = absurd h
id_read at_least_once (some i) rest h = rw (decode_non_zero_u16-u16 i rest h.0 h.1) refl
id_read exactly_once (some i) rest h = rw (decode_non_zero_u16-u16 i rest h.0 h.1) refl

-- The flags of a `Publish` are read back from its first byte.
abbrev PublishBits : QoS → Bool → Bool → ℕ → Type 0
PublishBits q dup retain b =
    (qos_try_from (b % 16 / 2 % 4) ≡ ok q)
    × (has_flag 8 (b % 16) ≡ dup)
    × (has_flag 1 (b % 16) ≡ retain)

bits_read :
    (q : QoS) (dup retain : Bool)
    → PublishBits q dup retain (0x30 + qos_value q * 2 + bit dup * 8 + bit retain)
bits_read at_most_once true true = (refl, refl, refl)
bits_read at_most_once true false = (refl, refl, refl)
bits_read at_most_once false true = (refl, refl, refl)
bits_read at_most_once false false = (refl, refl, refl)
bits_read at_least_once true true = (refl, refl, refl)
bits_read at_least_once true false = (refl, refl, refl)
bits_read at_least_once false true = (refl, refl, refl)
bits_read at_least_once false false = (refl, refl, refl)
bits_read exactly_once true true = (refl, refl, refl)
bits_read exactly_once true false = (refl, refl, refl)
bits_read exactly_once false true = (refl, refl, refl)
bits_read exactly_once false false = (refl, refl, refl)

publish_bits : (p : Publish) → PublishBits p.qos p.dup p.retain (publish_first_byte p)
publish_bits p = bits_read p.qos p.dup p.retain

module _ (is_utf8 : Bytes → Bool) where
  filter_read :
      (filter rest : Bytes) (q : QoS)
      → IsText is_utf8 filter
      → read_filter is_utf8 (prefixed filter ++ (qos_value q ∷ rest)) ≡ ok ((filter, q), rest)
  unfolding read_filter
  filter_read filter rest q h =
      rw
        (
          decode_string-prefixed is_utf8 filter (qos_value q ∷ rest) h.0 h.1,
          ensure_remaining_enough 1 DecodeError.invalid_length (qos_value q ∷ rest) (omega arith),
          qos_try_from-wire q,
        )
        refl

  publish_read :
      (p : Publish)
      → IsText is_utf8 p.topic
      → FitsQos p.qos p.packet_id
      → decode_publish_packet is_utf8 (publish_first_byte p % 16) (content (publish p))
        ≡ ok (publish p, [])
  unfolding decode_publish_packet
  publish_read p h g =
      let (q, d, r) = publish_bits p in
      rw
        (
          decode_string-prefixed is_utf8 p.topic (id_bytes p.packet_id ++ p.payload) h.0 h.1,
          q,
          d,
          r,
          id_read p.qos p.packet_id p.payload g,
        )
        refl

  filters_read :
      (fs : List (Bytes × QoS)) (fuel : ℕ)
      → All (λ f. IsText is_utf8 f.0) fs
      → length (filter_bytes fs) ≤ fuel
      → read_all fuel (read_filter is_utf8) (filter_bytes fs) ≡ ok (fs, [])
  unfolding read_all filter_bytes
  filters_read [] zero h n = refl
  filters_read [] (suc fuel) h n = refl
  filters_read ((filter, q) ∷ fs) zero h n = absurd (omega arith)
  filters_read ((filter, q) ∷ fs) (suc fuel) h n =
      rw
        (
          filter_read filter (filter_bytes fs) q h.0,
          filters_read fs fuel h.1
              (omega (arith, length-append {0} filter (qos_value q ∷ filter_bytes fs))),
        )
        refl

  names_read :
      (fs : List Bytes) (fuel : ℕ)
      → All (IsText is_utf8) fs
      → length (name_bytes fs) ≤ fuel
      → read_all fuel (decode_string is_utf8) (name_bytes fs) ≡ ok (fs, [])
  unfolding read_all name_bytes
  names_read [] zero h n = refl
  names_read [] (suc fuel) h n = refl
  names_read (filter ∷ fs) zero h n = absurd (omega arith)
  names_read (filter ∷ fs) (suc fuel) h n =
      rw
        (
          decode_string-prefixed is_utf8 filter (name_bytes fs) h.0.0 h.0.1,
          names_read fs fuel h.1 (omega (arith, length-append {0} filter (name_bytes fs))),
        )
        refl

  subscribe_read :
      (i : ℕ) (fs : List (Bytes × QoS))
      → IsId i
      → All (λ f. IsText is_utf8 f.0) fs
      → decode_subscribe_packet is_utf8 (u16 i ++ filter_bytes fs) ≡ ok (subscribe i fs, [])
  unfolding decode_subscribe_packet
  subscribe_read i fs h a =
      rw
        (
          decode_non_zero_u16-u16 i (filter_bytes fs) h.0 h.1,
          filters_read fs (length (filter_bytes fs)) a (omega arith),
        )
        refl

  unsubscribe_read :
      (i : ℕ) (fs : List Bytes)
      → IsId i
      → All (IsText is_utf8) fs
      → decode_unsubscribe_packet is_utf8 (u16 i ++ name_bytes fs) ≡ ok (unsubscribe i fs, [])
  unfolding decode_unsubscribe_packet
  unsubscribe_read i fs h a =
      rw
        (
          decode_non_zero_u16-u16 i (name_bytes fs) h.0 h.1,
          names_read fs (length (name_bytes fs)) a (omega arith),
        )
        refl

-- What the decoder leaves unread of a content, and the framing drops: the codes of a `SubscribeAck`.
abbrev pub unread : Packet → Bytes
unread (subscribe_ack i ss) = map code_value ss
unread _ = []

publish_in_range :
    (p : Publish)
    → (leb 0x30 (publish_first_byte p) && leb (publish_first_byte p) 0x3f ≡ true)
      × (publish_first_byte p == 0x10 ≡ false)
      × (publish_first_byte p == 0x20 ≡ false)
publish_in_range p = ground arith

module _ (is_utf8 : Bytes → Bool) where
  -- The decoder reads every packet that the wire format can carry back from its bytes.
  pub decode-content :
      (p : Packet)
      → IsEncodable is_utf8 p
      → decode_packet is_utf8 (first_byte p) (content p) ≡ ok (p, unread p)
  unfolding decode_packet
  decode-content (connect c) h = connect_read is_utf8 c h
  decode-content (connect_ack a) h = connect_ack_read a
  decode-content (publish p) h =
      rw ((publish_in_range p).1, (publish_in_range p).2, (publish_in_range p).0)
        (publish_read is_utf8 p h.0 h.1)
  decode-content (publish_ack i) h = ack_read publish_ack i h
  decode-content (publish_received i) h = ack_read publish_received i h
  decode-content (publish_release i) h = ack_read publish_release i h
  decode-content (publish_complete i) h = ack_read publish_complete i h
  decode-content (subscribe i fs) h = subscribe_read is_utf8 i fs h.0 h.1
  decode-content (subscribe_ack i ss) h = suback_read i ss h
  decode-content (unsubscribe i fs) h = unsubscribe_read is_utf8 i fs h.0 h.1
  decode-content (unsubscribe_ack i) h = ack_read unsubscribe_ack i h
  decode-content ping_request h = refl
  decode-content ping_response h = refl
  decode-content disconnect h = refl
