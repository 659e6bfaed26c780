-- ===== src/Codec/V3/Decode/NoPanic.antt =====
-- oximqtt/src/codec/v3/decode.rs never reads past the end of its buffer, and its loops end.
use oximqtt.Base.{
  le_or_lt, ℕ, ◌/◌, ◌%◌, ◌≤◌, ◌≢◌, Bool, ◌&&◌, ◌||◌, not, [], ◌∷◌, length, leb, ◌==◌, err, arith,
  inl, inr,
}
use oximqtt.Base.Bytes.{Bytes}
use oximqtt.Codec.Buffer.{
  DecodeError, lift, ensure, ensure_remaining, ensure_remaining_enough, ensure_remaining_short,
}
use oximqtt.Codec.Utils.{decode_u16, decode_non_zero_u16, decode_bytes, decode_string}
use oximqtt.Codec.Qos.{
  qos_try_from, is_at_most_once, type_connect, type_connack, type_publish_start, type_publish_end,
  type_puback, type_pubrec, type_pubrel, type_pubcomp, type_subscribe, type_suback,
  type_unsubscribe, type_unsuback, type_pingreq, type_pingresp, type_disconnect,
}
use oximqtt.Codec.V3.{
  publish_ack, publish_received, publish_release, publish_complete, unsubscribe_ack,
}
use oximqtt.Codec.V3.Decode.{
  read_protocol_name, read_if, has_flag, flag_clean_start, flag_will, flag_username, flag_password,
  read_to_end, read_last_will, read_connect_fields, decode_connect_packet, read_level,
  decode_publish_packet, read_filter, decode_subscribe_packet, decode_unsubscribe_packet,
  decode_packet,
}
use oximqtt.Codec.V3.Decode.Safety.{
  NeverPanics, continue_safe, bind-NeverPanics, u16-NeverPanics, id-NeverPanics, bytes-NeverPanics,
  ensure-NeverPanics, string-NeverPanics, qos-NeverPanics, read_if-NeverPanics, choose-NeverPanics,
  string-Shortens, filter-Shortens, read_all-safe, ack-NeverPanics, suback-NeverPanics,
  connack-NeverPanics, name_leaves,
}

module _ (is_utf8 : Bytes → Bool) where
  will-NeverPanics : (flags : ℕ) → NeverPanics (read_last_will is_utf8 flags)
  unfolding read_last_will
  will-NeverPanics flags =
      bind-NeverPanics (decode_string is_utf8) _ (string-NeverPanics is_utf8) λ topic.
        bind-NeverPanics decode_bytes _ bytes-NeverPanics λ message.
          bind-NeverPanics (lift (qos_try_from (flags / 8 % 4))) _ (qos-NeverPanics (flags / 8 % 4))
            λ q s. ground arith

  fields-NeverPanics : (level flags : ℕ) → NeverPanics (read_connect_fields is_utf8 level flags)
  unfolding read_connect_fields
  fields-NeverPanics level flags = bind-NeverPanics decode_u16 _ u16-NeverPanics λ keep_alive.
      bind-NeverPanics (decode_string is_utf8) _ (string-NeverPanics is_utf8) λ client_id.
        bind-NeverPanics _ _
          (ensure-NeverPanics (leb 1 (length client_id) || has_flag flag_clean_start flags)
            DecodeError.invalid_client_id (ground arith))
          λ _.
            bind-NeverPanics (read_if (has_flag flag_will flags) (read_last_will is_utf8 flags)) _
              (read_if-NeverPanics (has_flag flag_will flags) (read_last_will is_utf8 flags)
                (will-NeverPanics flags))
              λ w.
                bind-NeverPanics (read_if (has_flag flag_username flags) (decode_string is_utf8)) _
                  (read_if-NeverPanics (has_flag flag_username flags) (decode_string is_utf8)
                    (string-NeverPanics is_utf8))
                  λ u.
                    bind-NeverPanics (read_if (has_flag flag_password flags) decode_bytes) _
                      (read_if-NeverPanics (has_flag flag_password flags) decode_bytes
                        bytes-NeverPanics)
                      λ p s. ground arith

  level_safe : (s : Bytes) → 2 ≤ length s → read_level is_utf8 s ≢ err DecodeError.panic
  unfolding read_level ensure
  level_safe [] h = absurd (omega arith)
  level_safe (l ∷ []) h = absurd (omega arith)
  level_safe (l ∷ b ∷ s) h = ground (arith, fields-NeverPanics l b s)

  connect-NeverPanics : NeverPanics (decode_connect_packet is_utf8)
  unfolding decode_connect_packet
  connect-NeverPanics s = elim (le_or_lt 10 (length s)) [
    | inl h ↦ rw (ensure_remaining_enough 10 DecodeError.invalid_length s h) (
        continue_safe (read_protocol_name s) (λ _. read_level is_utf8) (name_leaves s h).0
          (λ u t e. level_safe t ((name_leaves s h).1 t u e)))
    | inr h ↦ rw (ensure_remaining_short 10 DecodeError.invalid_length s h) (ground arith)
  ]

  publish-NeverPanics : (flags : ℕ) → NeverPanics (decode_publish_packet is_utf8 flags)
  unfolding decode_publish_packet
  publish-NeverPanics flags =
      bind-NeverPanics (decode_string is_utf8) _ (string-NeverPanics is_utf8) λ topic.
        bind-NeverPanics (lift (qos_try_from (flags / 2 % 4))) _ (qos-NeverPanics (flags / 2 % 4))
          λ q.
            bind-NeverPanics (read_if (not (is_at_most_once q)) decode_non_zero_u16) _
              (read_if-NeverPanics (not (is_at_most_once q)) decode_non_zero_u16 id-NeverPanics)
              λ i s. ground arith

  filter-NeverPanics : NeverPanics (read_filter is_utf8)
  unfolding read_filter ensure_remaining
  filter-NeverPanics =
      bind-NeverPanics (decode_string is_utf8) _ (string-NeverPanics is_utf8)
        λ topic s. ground arith

  subscribe-NeverPanics : NeverPanics (decode_subscribe_packet is_utf8)
  unfolding decode_subscribe_packet
  subscribe-NeverPanics = bind-NeverPanics decode_non_zero_u16 _ id-NeverPanics λ i.
      bind-NeverPanics (read_to_end (read_filter is_utf8)) _
        (λ s.
          read_all-safe (read_filter is_utf8) (length s) s filter-NeverPanics
            (filter-Shortens is_utf8) (omega arith))
        λ fs s. ground arith

  unsubscribe-NeverPanics : NeverPanics (decode_unsubscribe_packet is_utf8)
  unfolding decode_unsubscribe_packet
  unsubscribe-NeverPanics = bind-NeverPanics decode_non_zero_u16 _ id-NeverPanics λ i.
      bind-NeverPanics (read_to_end (decode_string is_utf8)) _
        (λ s.
          read_all-safe (decode_string is_utf8) (length s) s (string-NeverPanics is_utf8)
            (string-Shortens is_utf8) (omega arith))
        λ fs s. ground arith

  -- The decoder answers every content, under every first byte, with a packet or one of its errors:
  -- no read goes past the end of the buffer, and the loops end.
  pub decode_packet-never_panics :
      (first_byte : ℕ) (src : Bytes) → decode_packet is_utf8 first_byte src ≢ err DecodeError.panic
  unfolding decode_packet
  decode_packet-never_panics b = choose-NeverPanics (b == type_connect) _ _ connect-NeverPanics (
      choose-NeverPanics (b == type_connack) _ _ connack-NeverPanics (
        choose-NeverPanics (leb type_publish_start b && leb b type_publish_end) _ _
          (publish-NeverPanics (b % 16))
          (choose-NeverPanics (b == type_puback) _ _ (ack-NeverPanics publish_ack) (
            choose-NeverPanics (b == type_pubrec) _ _ (ack-NeverPanics publish_received) (
              choose-NeverPanics (b == type_pubrel) _ _ (ack-NeverPanics publish_release) (
                choose-NeverPanics (b == type_pubcomp) _ _ (ack-NeverPanics publish_complete) (
                  choose-NeverPanics (b == type_subscribe) _ _ (subscribe-NeverPanics) (
                    choose-NeverPanics (b == type_suback) _ _ (suback-NeverPanics) (
                      choose-NeverPanics (b == type_unsubscribe) _ _ (unsubscribe-NeverPanics) (
                        choose-NeverPanics (b == type_unsuback) _ _
                          (ack-NeverPanics unsubscribe_ack)
                          (choose-NeverPanics (b == type_pingreq) _ _ (λ s. ground arith)
                            (choose-NeverPanics (b == type_pingresp) _ _ (λ s. ground arith)
                              (choose-NeverPanics (b == type_disconnect) _ _ (λ s. ground arith)
                                (λ s. ground arith))))))))))))))
