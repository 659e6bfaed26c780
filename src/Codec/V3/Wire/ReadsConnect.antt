-- ===== src/Codec/V3/Wire/ReadsConnect.antt =====
-- `decode_connect_packet` of oximqtt/src/codec/v3/decode.rs reads what the wire format says.
use oximqtt.Base.{
  ℕ, ◌/◌, ◌%◌, ◌≡◌, refl, sym, inl, inr, Bool, true, false, ◌||◌, Option, none, some, [], ◌∷◌, ◌++◌,
  length, ok, arith, append_assoc, append-nil, leb,
}
use oximqtt.Base.Bytes.{Bytes, bytes_eq_self}
use oximqtt.Codec.Buffer.{
  DecodeError, ensure_remaining_enough, ensure-true, split_to-append, peek-append,
}
use oximqtt.Codec.Qos.{qos_try_from, mqtt, mqtt_level_311}
use oximqtt.Codec.Utils.{decode_string, decode_bytes}
use oximqtt.Codec.Utils.Lemmas.{
  prefixed, decode_u16-u16, decode_bytes-prefixed, decode_string-prefixed,
}
use oximqtt.Codec.V3.{LastWill, Connect, connect}
use oximqtt.Codec.V3.Encode.{is_some, connect_flags}
use oximqtt.Codec.V3.Decode.{
  has_flag, flag_username, flag_password, flag_will, flag_will_retain, flag_clean_start,
  expect_name, read_protocol_name, read_if, read_last_will, read_connect_fields,
  decode_connect_packet, read_level,
}
use oximqtt.Codec.V3.Wire.{
  optional_bytes, will_bytes, connect_fields, content, IsShortOption, IsTextOption, IsWill,
  IsConnect,
}

-- The flags of a `Connect` are read back from their byte.
abbrev FlagBits : Connect → ℕ → Type 0
FlagBits c b =
    (has_flag 1 b ≡ false)
    × (has_flag flag_username b ≡ is_some c.username)
    × (has_flag flag_password b ≡ is_some c.password)
    × (has_flag flag_will b ≡ is_some c.last_will)
    × (has_flag flag_clean_start b ≡ c.clean_session)

flags_read : (c : Connect) → FlagBits c (connect_flags c)
flags_read c = ground arith

abbrev WillBits : Option LastWill → ℕ → Type 0
WillBits none b = Unit
WillBits (some w) b =
    (has_flag flag_will_retain b ≡ w.will_retain) × (qos_try_from (b / 8 % 4) ≡ ok w.will_qos)

will_bits : (c : Connect) → WillBits c.last_will (connect_flags c)
will_bits c = ground arith

name_read : (rest : Bytes) → read_protocol_name (prefixed mqtt ++ rest) ≡ ok (tt, rest)
unfolding read_protocol_name expect_name
name_read rest =
    rw (peek-append mqtt rest, bytes_eq_self mqtt, ensure-true, split_to-append mqtt rest) refl

module _ (is_utf8 : Bytes → Bool) where
  will_read :
      (w : Option LastWill) (b : ℕ) (rest : Bytes)
      → IsWill is_utf8 w
      → WillBits w b
      → read_if (is_some w) (read_last_will is_utf8 b) (will_bytes w ++ rest) ≡ ok (w, rest)
  unfolding read_if read_last_will
  will_read none b rest h k = refl
  will_read (some w) b rest h k =
      rw
        (
          append_assoc,
          decode_string-prefixed is_utf8 w.will_topic (prefixed w.will_message ++ rest) h.0.0 h.0.1,
          decode_bytes-prefixed w.will_message rest h.1,
          k.0,
          k.1,
        )
        refl

  text_read :
      (o : Option Bytes) (rest : Bytes)
      → IsTextOption is_utf8 o
      → read_if (is_some o) (decode_string is_utf8) (optional_bytes o ++ rest) ≡ ok (o, rest)
  unfolding read_if
  text_read none rest h = refl
  text_read (some s) rest h = rw (decode_string-prefixed is_utf8 s rest h.0 h.1) refl

  password_read :
      (o : Option Bytes)
      → IsShortOption o
      → read_if (is_some o) decode_bytes (optional_bytes o) ≡ ok (o, [])
  unfolding read_if
  password_read none h = refl
  password_read (some s) h = rw (sym (append-nil (prefixed s)), decode_bytes-prefixed s [] h) refl

  is_named :
      (c : Connect) → IsConnect is_utf8 c → leb 1 (length c.client_id) || c.clean_session ≡ true
  is_named c h = elim h.named [ inl n ↦ ground arith | inr e ↦ ground arith ]

  connect_fields_read :
      (c : Connect) (b : ℕ)
      → IsConnect is_utf8 c
      → FlagBits c b
      → WillBits c.last_will b
      → read_connect_fields is_utf8 mqtt_level_311 b (connect_fields c) ≡ ok (connect c, [])
  unfolding read_connect_fields
  connect_fields_read c b h (_, u, p, w, s) k =
      let user = optional_bytes c.username in
      let pass = optional_bytes c.password in
      rw
        (
          decode_u16-u16 c.keep_alive
              (prefixed c.client_id ++ (will_bytes c.last_will ++ (user ++ pass))) h.keep_alive,
          decode_string-prefixed is_utf8 c.client_id (will_bytes c.last_will ++ (user ++ pass))
              h.client_id.0 h.client_id.1,
          w,
          u,
          p,
          s,
          is_named c h,
          ensure-true,
          will_read c.last_will b (user ++ pass) h.last_will k,
          text_read c.username pass h.username,
          password_read c.password h.password,
          sym h.level,
        )
        refl

  pub connect_read :
      (c : Connect)
      → IsConnect is_utf8 c
      → decode_connect_packet is_utf8 (content (connect c)) ≡ ok (connect c, [])
  unfolding decode_connect_packet read_level
  connect_read c h =
      rw
        (
          ensure_remaining_enough 10 DecodeError.invalid_length (content (connect c)) (omega arith),
          name_read (mqtt_level_311 ∷ connect_flags c ∷ connect_fields c),
          ensure-true,
          (flags_read c).0,
          ensure-true,
          connect_fields_read c (connect_flags c) h (flags_read c) (will_bits c),
        )
        refl
