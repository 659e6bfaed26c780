-- ===== src/Codec/V3/Framing/RoundTrip.antt =====
-- `Codec::encode` and `Codec::decode` of oximqtt/src/codec/v3/codec.rs, one after the other.
use oximqtt.Base.{
  ℕ, zero, suc, ◌+◌, ◌%◌, ◌^◌, ◌≤◌, ◌≡◌, refl, ap, sym, ◌∙◌, Bool, false, not, ◌&&◌, Option, none,
  some, [], ◌∷◌, ◌++◌, length, ltb, ok, arith, length-append, append_assoc, take-length-append,
  drop-length-append, inl, inr, ◌⊎◌,
}
use oximqtt.Base.Bytes.{Bytes}
use oximqtt.Codec.Qos.{QoS, at_most_once, at_least_once, exactly_once, is_at_most_once}
use oximqtt.Codec.V3.{Publish, Packet}
use oximqtt.Codec.V3
use oximqtt.Codec.V3.Decode.{decode_packet}
use oximqtt.Codec.V3.Encode.{get_encoded_size, is_some}
use oximqtt.Codec.V3.Framing.{
  DecodeState, frame_header, frame, Codec, set_state, too_large, read_packet, read_frame,
  enter_frame, read_header, decode, encode, lacks_packet_id,
}
use oximqtt.Codec.V3.Framing.Reassembly.{decode_at_header}
use oximqtt.Codec.V3.Wire.{content, first_byte, IsEncodable, FitsQos}
use oximqtt.Codec.V3.Wire.Reads.{unread, decode-content}
use oximqtt.Codec.V3.Wire.Sizes.{length-content}
use oximqtt.Codec.V3.Wire.Writes.{packet_bytes, encode-Writes}
use oximqtt.Codec.Varlen.{varlen_loop, decode_variable_length, decode_variable_length_cursor}
use oximqtt.Codec.Varlen.RoundTrip.{varlen, cursor-varlen}

length-varlen : (k v : ℕ) → 1 ≤ length (varlen k v)
unfolding varlen
length-varlen zero v = omega arith
length-varlen (suc k) v = ground arith

length_read :
    (v : ℕ) (rest : Bytes)
    → v ≤ 268_435_455
    → decode_variable_length (varlen 3 v ++ rest) ≡ ok (some (v, length (varlen 3 v)))
unfolding decode_variable_length
length_read v rest h =
    rw (decode_variable_length, cursor-varlen v rest h)
      (ap (λ (k : ℕ). ok (some (v, k))) (omega (arith, length-append {0} (varlen 3 v) rest)))

within : (c : Codec) (n : ℕ) → (c.max_size ≡ 0) ⊎ (n ≤ c.max_size) → too_large c.max_size n ≡ false
within c n (inl e) = ground arith
within c n (inr h) = ground arith

publish_has_id :
    (q : QoS) (i : Option ℕ) → FitsQos q i → not (is_at_most_once q) && not (is_some i) ≡ false
publish_has_id at_most_once i h = refl
publish_has_id at_least_once none h = absurd h
publish_has_id exactly_once none h = absurd h
publish_has_id at_least_once (some i) h = refl
publish_has_id exactly_once (some i) h = refl

module _ (is_utf8 : Bytes → Bool) where
  no_lack : (p : Packet) → IsEncodable is_utf8 p → lacks_packet_id p ≡ false
  no_lack (V3.publish p) h = publish_has_id p.qos p.packet_id h.1
  no_lack (V3.connect c) h = refl
  no_lack (V3.connect_ack a) h = refl
  no_lack (V3.publish_ack i) h = refl
  no_lack (V3.publish_received i) h = refl
  no_lack (V3.publish_release i) h = refl
  no_lack (V3.publish_complete i) h = refl
  no_lack (V3.subscribe i fs) h = refl
  no_lack (V3.subscribe_ack i ss) h = refl
  no_lack (V3.unsubscribe i fs) h = refl
  no_lack (V3.unsubscribe_ack i) h = refl
  no_lack V3.ping_request h = refl
  no_lack V3.ping_response h = refl
  no_lack V3.disconnect h = refl

  -- For a packet that the wire format can carry, `encode` appends its first byte, the length of its
  -- content and its content to the buffer, if the size is within the limit of the protocol.
  pub encode-frame :
      (p : Packet) (dst : Bytes)
      → IsEncodable is_utf8 p
      → get_encoded_size p ≤ 268_435_455
      → encode p dst ≡ (ok tt, dst ++ packet_bytes p)
  unfolding encode
  encode-frame p dst h n =
      let e : get_encoded_size p % 2 ^ 32 ≡ get_encoded_size p = omega arith in
      rw (no_lack p h, e, sym (length-content is_utf8 p h))
        (encode-Writes is_utf8 p h (rw (length-content is_utf8 p h) n) dst)

  header_read :
      (c : Codec) (b n k : ℕ) (src : Bytes)
      → decode_variable_length src ≡ ok (some (n, k))
      → read_header is_utf8 c (b ∷ src) ≡ enter_frame is_utf8 c b n k (b ∷ src)
  unfolding read_header decode_variable_length decode_variable_length_cursor varlen_loop
  header_read c b n k [] e = ground arith
  header_read c b n k (d ∷ src) e = rw (read_header, e) refl

  frame_entered :
      (c : Codec) (b : ℕ) (vs bs rest : Bytes)
      → too_large c.max_size (length bs) ≡ false
      → enter_frame is_utf8 c b (length bs) (length vs) (b ∷ (vs ++ (bs ++ rest)))
        ≡ read_packet is_utf8 (set_state (frame b (length bs)) c) b (length bs) (bs ++ rest)
  unfolding enter_frame read_frame
  frame_entered c b vs bs rest l =
      let e : length vs + 1 ≡ suc (length vs) = omega arith in
      let f : ltb (length (bs ++ rest)) (length bs) ≡ false =
        ground (arith, length-append {0} bs rest) in
      rw (l, e, drop-length-append vs (bs ++ rest), f) refl

  packet_read :
      (c : Codec) (b : ℕ) (p : Packet) (left bs rest : Bytes)
      → decode_packet is_utf8 b bs ≡ ok (p, left)
      → read_packet is_utf8 c b (length bs) (bs ++ rest)
        ≡ (ok (some (p, length bs)), set_state frame_header c, rest)
  packet_read c b p left bs rest e =
      rw (read_packet, take-length-append bs rest, e, drop-length-append bs rest) refl

  frame_read :
      (c : Codec) (p : Packet) (rest : Bytes)
      → IsEncodable is_utf8 p
      → c.state ≡ frame_header
      → length (content p) ≤ 268_435_455
      → too_large c.max_size (length (content p)) ≡ false
      → decode is_utf8 c (packet_bytes p ++ rest)
        ≡ (ok (some (p, length (content p))), set_state frame_header c, rest)
  frame_read c p rest h s n l =
      let vs = varlen 3 (length (content p)) in
      rw (decode_at_header is_utf8 c (packet_bytes p ++ rest) s, append_assoc)
        (header_read c (first_byte p) (length (content p)) (length vs) (vs ++ (content p ++ rest))
            (length_read (length (content p)) (content p ++ rest) n)
          ∙ frame_entered c (first_byte p) vs (content p) rest l
          ∙ packet_read (set_state (frame (first_byte p) (length (content p))) c) (first_byte p) p
              (unread p) (content p) rest (decode-content is_utf8 p h))

  -- What the codec writes for a packet that the wire format can carry, a codec between two packets
  -- reads back, whatever follows it, if the size is within the limits of the protocol and of that
  -- codec. It gives the packet with the size of its content, and is between two packets again.
  pub decode-encode :
      (c : Codec) (p : Packet) (dst rest : Bytes)
      → IsEncodable is_utf8 p
      → c.state ≡ frame_header
      → get_encoded_size p ≤ 268_435_455
      → (c.max_size ≡ 0) ⊎ (get_encoded_size p ≤ c.max_size)
      → (bs : Bytes) × (encode p dst ≡ (ok tt, dst ++ bs))
        × (decode is_utf8 c (bs ++ rest) ≡ (ok (some (p, get_encoded_size p)), c, rest))
  decode-encode c p dst rest h s n m = (
    packet_bytes p,
    encode-frame p dst h n,
    let z = length-content is_utf8 p h in
        let l : too_large c.max_size (length (content p)) ≡ false =
          within c (length (content p)) (rw z m) in
        let back : set_state frame_header c ≡ c =
          ap (λ (st : DecodeState). set_state st c) (sym s) in
        frame_read c p rest h s (rw z n) l ∙ rw (z, back) refl,
  )
