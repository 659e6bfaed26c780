-- ===== src/Codec/V3/Decode.antt =====
-- oximqtt/src/codec/v3/decode.rs: from the content of a packet and its first byte to the packet.
pub mod NoPanic
pub mod Safety
use oximqtt.Base.{
  ℕ, zero, suc, ◌/◌, ◌%◌, Bool, true, false, ◌&&◌, ◌||◌, not, Option, none, some, List, [], ◌∷◌,
  length, leb, ◌==◌, Result, ok, err, if◌then◌else◌,
}
use oximqtt.Base.Bytes.{Bytes, bytes_eq}
use oximqtt.Codec.Buffer.{
  DecodeError, Read, ◌>>=◌, ◌>>◌, pure, fail, lift, ensure, ensure_remaining, ensure_empty, get_u8,
  get_u16, split_to, peek, choose, continue,
}
use oximqtt.Codec.Qos.{
  QoS, qos_try_from, is_at_most_once, mqtt, mqisdp, mqtt_level_31, mqtt_level_311, type_connect,
  type_connack, type_publish_start, type_publish_end, type_puback, type_pubrec, type_pubrel,
  type_pubcomp, type_subscribe, type_suback, type_unsubscribe, type_unsuback, type_pingreq,
  type_pingresp, type_disconnect,
}
use oximqtt.Codec.Utils.{decode_u16, decode_non_zero_u16, decode_bytes, decode_string}
use oximqtt.Codec.V3.{
  LastWill, SubscribeReturnCode, Packet, connect, connect_ack, publish, publish_ack,
  publish_received, publish_release, publish_complete, subscribe, subscribe_ack, unsubscribe,
  unsubscribe_ack, ping_request, ping_response, disconnect, success, failure, reason_try_from,
}

-- `decode_ack`
unfoldable pub decode_ack : (ℕ → Packet) → Read Packet
decode_ack f = do
  packet_id ← decode_non_zero_u16
  ensure_empty DecodeError.invalid_length
  pure (f packet_id)

-- The test of a bit, `flags.contains(FLAG)`, for the flag of value `bit`.
abbrev pub has_flag : ℕ → ℕ → Bool
has_flag bit flags = flags / bit % 2 == 1

abbrev pub flag_username : ℕ
flag_username = 128

abbrev pub flag_password : ℕ
flag_password = 64

abbrev pub flag_will_retain : ℕ
flag_will_retain = 32

abbrev pub flag_will : ℕ
flag_will = 4

abbrev pub flag_clean_start : ℕ
flag_clean_start = 2

-- The next bytes must be the name, which is then passed over.
unfoldable pub expect_name : Bytes → Read (Unit {0})
expect_name name = do
  bs ← peek (length name)
  ensure (bytes_eq bs name) DecodeError.invalid_protocol
  _ ← split_to (length name)
  pure tt

-- The protocol name behind its length.
unfoldable pub read_protocol_name : Read (Unit {0})
read_protocol_name = do
  len ← get_u16
  choose (len == 4) (expect_name mqtt)
      (choose (len == 6) (expect_name mqisdp) (fail DecodeError.invalid_protocol))

-- A field that is read where its flag is set.
unfoldable pub read_if {ℓ} : {A : Type ℓ} → Bool → Read A → Read (Option A)
read_if true read = do v ← read; pure (some v)
read_if false read = pure none

-- One round of a loop `while src.has_remaining()` after another, with one round of fuel for each
-- byte of the buffer. `panic` marks that the fuel ran out.
unfoldable pub read_all {ℓ} : {A : Type ℓ} → ℕ → Read A → Read (List A)
read_all fuel read [] = ok ([], [])
read_all zero read (b ∷ src) = err DecodeError.panic
read_all (suc fuel) read (b ∷ src) =
    continue (read (b ∷ src)) λ v. do vs ← read_all fuel read; pure (v ∷ vs)

-- `while src.has_remaining() { push(read) }`
abbrev pub read_to_end {ℓ} : {A : Type ℓ} → Read A → Read (List A)
read_to_end read src = read_all (length src) read src

-- One code of `decode_subscribe_ack_packet`.
abbrev pub read_code : ℕ → Result DecodeError SubscribeReturnCode
read_code code =
    if code == 0x80
    then ok failure
    else elim (qos_try_from code) [ err e ↦ err e | ok q ↦ ok (success q) ]

-- The loop of `decode_subscribe_ack_packet`.
unfoldable pub read_codes : Bytes → Result DecodeError (List SubscribeReturnCode)
read_codes [] = ok []
read_codes (code ∷ codes) =
    let rest = read_codes codes in
    elim (read_code code) [
      | err e ↦ err e
      | ok s ↦ elim rest [ err e ↦ err e | ok ss ↦ ok (s ∷ ss) ]
    ]

-- `decode_subscribe_ack_packet`; the codes are read without taking them from the buffer.
unfoldable pub decode_subscribe_ack_packet : Read Packet
decode_subscribe_ack_packet = do
  packet_id ← decode_non_zero_u16
  λ src. continue (lift (read_codes src) src) λ status. pure (subscribe_ack packet_id status)

-- `decode_connect_ack_packet`: of the flags only bit 0 may be set.
unfoldable pub decode_connect_ack_packet : Read Packet
decode_connect_ack_packet = do
  ensure_remaining 2 DecodeError.invalid_length
  flags ← get_u8
  ensure (flags / 2 == 0) DecodeError.connack_reserved_flag_set
  code ← get_u8
  return_code ← lift (reason_try_from code)
  pure (connect_ack (record { return_code = return_code; session_present = has_flag 1 flags }))

module _ (is_utf8 : Bytes → Bool) where
  -- The last will: `(flags & WILL_QOS).bits() >> WILL_QOS_SHIFT` is `flags / 8 % 4`.
  unfoldable pub read_last_will : ℕ → Read LastWill
  read_last_will flags = do
    topic ← decode_string is_utf8
    message ← decode_bytes
    qos ← lift (qos_try_from (flags / 8 % 4))
    pure (record {
      will_qos = qos;
      will_retain = has_flag flag_will_retain flags;
      will_topic = topic;
      will_message = message;
    })

  -- `decode_connect_packet` from the flags on.
  unfoldable pub read_connect_fields : ℕ → ℕ → Read Packet
  read_connect_fields level flags = do
    keep_alive ← decode_u16
    client_id ← decode_string is_utf8
    ensure (leb 1 (length client_id) || has_flag flag_clean_start flags)
        DecodeError.invalid_client_id
    last_will ← read_if (has_flag flag_will flags) (read_last_will flags)
    username ← read_if (has_flag flag_username flags) (decode_string is_utf8)
    password ← read_if (has_flag flag_password flags) decode_bytes
    pure (
        connect (record {
          protocol = level;
          clean_session = has_flag flag_clean_start flags;
          keep_alive = keep_alive;
          last_will = last_will;
          client_id = client_id;
          username = username;
          password = password;
        }))

  -- `decode_connect_packet` from the level on; `ConnectFlags::from_bits` refuses bit 0, the one that
  -- is no flag.
  unfoldable pub read_level : Read Packet
  read_level = do
    level ← get_u8
    ensure (level == mqtt_level_311 || level == mqtt_level_31)
        DecodeError.unsupported_protocol_level
    flags ← get_u8
    ensure (not (has_flag 1 flags)) DecodeError.connect_reserved_flag_set
    read_connect_fields level flags

  -- `decode_connect_packet`
  unfoldable pub decode_connect_packet : Read Packet
  decode_connect_packet = do
    ensure_remaining 10 DecodeError.invalid_length
    read_protocol_name
    read_level

  -- `decode_publish_packet`; what is left of the buffer is the payload.
  unfoldable pub decode_publish_packet : ℕ → Read Packet
  decode_publish_packet packet_flags = do
    topic ← decode_string is_utf8
    qos ← lift (qos_try_from (packet_flags / 2 % 4))
    packet_id ← read_if (not (is_at_most_once qos)) decode_non_zero_u16
    λ payload. ok (
      publish (record {
        dup = has_flag 8 packet_flags;
        retain = has_flag 1 packet_flags;
        qos = qos;
        topic = topic;
        packet_id = packet_id;
        payload = payload;
      }),
      [],
    )

  -- One round of the loop of `decode_subscribe_packet`.
  unfoldable pub read_filter : Read (Bytes × QoS)
  read_filter = do
    topic ← decode_string is_utf8
    ensure_remaining 1 DecodeError.invalid_length
    byte ← get_u8
    qos ← lift (qos_try_from (byte % 4))
    pure (topic, qos)

  -- `decode_subscribe_packet`
  unfoldable pub decode_subscribe_packet : Read Packet
  decode_subscribe_packet = do
    packet_id ← decode_non_zero_u16
    topic_filters ← read_to_end read_filter
    pure (subscribe packet_id topic_filters)

  -- `decode_unsubscribe_packet`
  unfoldable pub decode_unsubscribe_packet : Read Packet
  decode_unsubscribe_packet = do
    packet_id ← decode_non_zero_u16
    topic_filters ← read_to_end (decode_string is_utf8)
    pure (unsubscribe packet_id topic_filters)

  -- The arms of `decode_packet` from `PUBACK` on.
  abbrev decode_other : ℕ → Read Packet
  decode_other first_byte = choose (first_byte == type_puback) (decode_ack publish_ack) (
      choose (first_byte == type_pubrec) (decode_ack publish_received) (
        choose (first_byte == type_pubrel) (decode_ack publish_release) (
          choose (first_byte == type_pubcomp) (decode_ack publish_complete) (
            choose (first_byte == type_subscribe) decode_subscribe_packet (
              choose (first_byte == type_suback) decode_subscribe_ack_packet (
                choose (first_byte == type_unsubscribe) decode_unsubscribe_packet (
                  choose (first_byte == type_unsuback) (decode_ack unsubscribe_ack) (
                    choose (first_byte == type_pingreq) (pure ping_request) (
                      choose (first_byte == type_pingresp) (pure ping_response) (
                        choose (first_byte == type_disconnect) (pure disconnect)
                          (fail DecodeError.unsupported_packet_type)))))))))))

  -- `decode_packet`
  unfoldable pub decode_packet : ℕ → Read Packet
  decode_packet first_byte = choose (first_byte == type_connect) decode_connect_packet (
      choose (first_byte == type_connack) decode_connect_ack_packet (
        choose (leb type_publish_start first_byte && leb first_byte type_publish_end)
          (decode_publish_packet (first_byte % 16)) (decode_other first_byte)))
