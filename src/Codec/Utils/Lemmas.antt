-- ===== src/Codec/Utils/Lemmas.antt =====
-- The primitive reads and writes of oximqtt/src/codec/utils.rs, one after the other.
use oximqtt.Base.{
  ℕ, ◌/◌, ◌%◌, ◌^◌, ◌≡◌, refl, ap, Bool, true, [], ◌∷◌, ◌++◌, length, ok, ◌<◌, arith, length-append,
  append_assoc, lt→ltb,
}
use oximqtt.Base.Bytes.{Bytes}
use oximqtt.Codec.Buffer.{DecodeError, ensure_remaining_enough, split_to-append, ensure-true}
use oximqtt.Codec.Writer.{Writes}
use oximqtt.Codec.Utils.{
  decode_u16, decode_non_zero_u16, decode_bytes, decode_string, encode_u16, encode_bytes,
}

-- A length on the wire.
abbrev pub u16 : ℕ → Bytes
u16 n = n / 256 % 256 ∷ n % 256 ∷ []

pub encode_u16-Writes : (n : ℕ) → Writes (encode_u16 n) (u16 n)
unfolding encode_u16
encode_u16-Writes n dst = refl

pub decode_u16-u16 : (n : ℕ) (rest : Bytes) → n < 2 ^ 16 → decode_u16 (u16 n ++ rest) ≡ ok (n, rest)
unfolding decode_u16
decode_u16-u16 n rest h =
    rw (ensure_remaining_enough 2 DecodeError.invalid_length (u16 n ++ rest) (omega arith))
      (ap (λ (k : ℕ). ok (k, rest)) (omega arith))

pub decode_non_zero_u16-u16 :
    (n : ℕ) (rest : Bytes) → 0 < n → n < 2 ^ 16 → decode_non_zero_u16 (u16 n ++ rest) ≡ ok (n, rest)
unfolding decode_non_zero_u16
decode_non_zero_u16-u16 n rest p h = rw (decode_u16-u16 n rest h) (ground arith)

-- A length and as many bytes.
abbrev pub prefixed : Bytes → Bytes
prefixed bs = u16 (length bs) ++ bs

pub encode_bytes-Writes : (bs : Bytes) → length bs < 2 ^ 16 → Writes (encode_bytes bs) (prefixed bs)
unfolding encode_bytes
encode_bytes-Writes bs h dst = rw (lt→ltb (length bs) (2 ^ 16) h) (rw append_assoc)

pub decode_bytes-prefixed :
    (bs rest : Bytes) → length bs < 2 ^ 16 → decode_bytes (prefixed bs ++ rest) ≡ ok (bs, rest)
unfolding decode_bytes
decode_bytes-prefixed bs rest h =
    rw
      (
        decode_u16-u16 (length bs) (bs ++ rest) h,
        ensure_remaining_enough (length bs) DecodeError.invalid_length (bs ++ rest)
            (omega (arith, length-append {0} bs rest)),
      )
      (split_to-append bs rest)

pub decode_string-prefixed :
    (is_utf8 : Bytes → Bool) (bs rest : Bytes)
    → is_utf8 bs ≡ true
    → length bs < 2 ^ 16
    → decode_string is_utf8 (prefixed bs ++ rest) ≡ ok (bs, rest)
unfolding decode_string
decode_string-prefixed is_utf8 bs rest u h =
    rw (decode_bytes-prefixed bs rest h, u, ensure-true) refl
