-- ===== src/Codec/Tests.antt =====
-- Runs of oximqtt/src/codec on concrete bytes, and the theorems at concrete packets.
use oximqtt.Base.{
  ℕ, Bool, true, false, ◌&&◌, ◌≡◌, ◌≢◌, ◌↔◌, ◌≤◌, refl, none, some, [], ◌∷◌, ◌++◌, ok, err, ltb,
  arith, inl, inr, All, length,
}
use oximqtt.Base.Bytes.{Bytes, codes, bytes_eq}
use oximqtt.Codec.Buffer.{DecodeError, ensure, ensure_remaining, ensure_empty, split_to, peek}
use oximqtt.Codec.Qos.{at_least_once, exactly_once, protocol_name}
use oximqtt.Codec.Utils.{
  decode_u16, decode_non_zero_u16, decode_bytes, decode_string, encode_u16, encode_bytes,
}
use oximqtt.Codec.Varlen.{
  varlen_loop, decode_variable_length_cursor, decode_variable_length, write_variable_length,
}
use oximqtt.Codec.Varlen.RoundTrip.{varlen}
use oximqtt.Codec.Varlen.Range.{GoesOn, decode_variable_length-none_iff}
use oximqtt.Codec.V3.{Connect, Publish, connect, publish}
use oximqtt.Codec.V3.Decode.{
  decode_ack, expect_name, read_protocol_name, read_if, read_all, read_codes,
  decode_subscribe_ack_packet, decode_connect_ack_packet, read_last_will, read_connect_fields,
  read_level, decode_connect_packet, decode_publish_packet, read_filter, decode_subscribe_packet,
  decode_unsubscribe_packet, decode_packet,
}
use oximqtt.Codec.V3.Decode.NoPanic.{decode_packet-never_panics}
use oximqtt.Codec.V3.Encode
use oximqtt.Codec.V3.Encode.{
  encode_connect, encode_filters, encode_names, get_encoded_publish_size,
  get_encoded_subscribe_size, get_encoded_unsubscribe_size, connect_size, get_encoded_size,
}
use oximqtt.Codec.V3.Framing.{
  new, frame, read_frame, enter_frame, read_header, decode, encode, set_state,
}
use oximqtt.Codec.V3.Framing.Reassembly.{decode-reassembles}
use oximqtt.Codec.V3.Framing.RoundTrip.{decode-encode}
use oximqtt.Codec.V3.Wire.{filter_bytes, name_bytes, IsConnect, IsEncodable}

codec : Unit {0}
unfolding bytes_eq ensure ensure_remaining ensure_empty split_to peek protocol_name decode_u16
    decode_non_zero_u16 decode_bytes decode_string encode_u16 encode_bytes varlen_loop
    decode_variable_length_cursor decode_variable_length write_variable_length varlen decode_ack
    expect_name read_protocol_name read_if read_all read_codes decode_subscribe_ack_packet
    decode_connect_ack_packet read_last_will read_connect_fields read_level decode_connect_packet
    decode_publish_packet read_filter decode_subscribe_packet decode_unsubscribe_packet
    decode_packet encode_connect encode_filters encode_names get_encoded_publish_size
    get_encoded_subscribe_size get_encoded_unsubscribe_size connect_size get_encoded_size
    Encode.encode read_frame enter_frame read_header decode encode filter_bytes name_bytes
codec = tt

-- A test of UTF-8 that is right on ASCII.
abbrev ascii : Bytes → Bool
ascii [] = true
ascii (b ∷ bs) = ltb b 128 && ascii bs

abbrev reading : Publish
reading = record {
  dup = false;
  retain = true;
  qos = exactly_once;
  topic = codes "a/b";
  packet_id = some 258;
  payload = 9 ∷ [];
}

abbrev reading_bytes : Bytes
reading_bytes = 0x35 ∷ 8 ∷ 0 ∷ 3 ∷ 97 ∷ 47 ∷ 98 ∷ 1 ∷ 2 ∷ 9 ∷ []

encode-reading : encode (publish reading) [] ≡ (ok tt, reading_bytes)
unfolding codec
encode-reading = refl

decode-reading :
    decode ascii (new 0) (reading_bytes ++ (1 ∷ []))
    ≡ (ok (some (publish reading, 8)), new 0, 1 ∷ [])
unfolding codec
decode-reading = refl

reading-IsEncodable : IsEncodable ascii (publish reading)
reading-IsEncodable = ((refl, omega arith), (omega arith, omega arith))

abbrev greeting : Connect
greeting = record {
  protocol = 4;
  clean_session = true;
  keep_alive = 60;
  last_will = some (record {
    will_qos = at_least_once;
    will_retain = false;
    will_topic = codes "gone";
    will_message = [];
  });
  client_id = [];
  username = some (codes "me");
  password = none;
}

greeting-IsConnect : IsConnect ascii greeting
greeting-IsConnect = record {
  level = refl;
  keep_alive = omega arith;
  client_id = (refl, omega arith);
  named = inr refl;
  last_will = ((refl, omega arith), omega arith);
  username = (refl, omega arith);
  password = tt;
}

small_greeting : get_encoded_size (connect greeting) ≤ 268_435_455
unfolding codec
small_greeting = omega arith

small_reading : get_encoded_size (publish reading) ≤ 268_435_455
unfolding codec
small_reading = omega arith

-- The start of a frame: the header, and a part of the packet.
waiting :
    decode ascii (new 100) (0x35 ∷ 8 ∷ 0 ∷ [])
    ≡ (ok none, set_state (frame 0x35 8) (new 100), 0 ∷ [])
unfolding codec
waiting = refl

four_bytes : decode_variable_length_cursor (0xff ∷ 0xff ∷ 0xff ∷ 0x7f ∷ []) ≡ ok (268_435_455, [])
unfolding codec
four_bytes = refl

too_long : decode_variable_length (0xff ∷ 0xff ∷ 0xff ∷ 0xff ∷ []) ≡ err DecodeError.invalid_length
unfolding codec
too_long = refl

decode_variable_length-none_iff_example :
    (decode_variable_length (0x80 ∷ 0x81 ∷ []) ≡ ok none)
    ↔ (All GoesOn (0x80 ∷ 0x81 ∷ []) × (length {A = ℕ} (0x80 ∷ 0x81 ∷ []) ≤ 3))
decode_variable_length-none_iff_example = decode_variable_length-none_iff (0x80 ∷ 0x81 ∷ [])

decode-encode_example :
    (bs : Bytes) × (encode (connect greeting) (5 ∷ []) ≡ (ok tt, 5 ∷ bs))
    × (decode ascii (new 0) (bs ++ (1 ∷ []))
        ≡ (ok (some (connect greeting, get_encoded_size (connect greeting))), new 0, 1 ∷ []))
decode-encode_example =
    decode-encode ascii (new 0) (connect greeting) (5 ∷ []) (1 ∷ []) greeting-IsConnect refl
      small_greeting (inl refl)

decode-reassembles_example :
    decode ascii (set_state (frame 0x35 8) (new 100)) (0 ∷ 3 ∷ 97 ∷ 47 ∷ 98 ∷ 1 ∷ 2 ∷ 9 ∷ [])
    ≡ decode ascii (new 100) reading_bytes
decode-reassembles_example =
    decode-reassembles ascii (new 100) (set_state (frame 0x35 8) (new 100)) (0x35 ∷ 8 ∷ 0 ∷ [])
      (0 ∷ []) (3 ∷ 97 ∷ 47 ∷ 98 ∷ 1 ∷ 2 ∷ 9 ∷ []) waiting

decode_packet-never_panics_example :
    decode_packet ascii 0x10 (0 ∷ 6 ∷ codes "MQIsdp") ≢ err DecodeError.panic
decode_packet-never_panics_example = decode_packet-never_panics ascii 0x10 (0 ∷ 6 ∷ codes "MQIsdp")
