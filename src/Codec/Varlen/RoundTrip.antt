-- ===== src/Codec/Varlen/RoundTrip.antt =====
-- The variable-length integers of oximqtt/src/codec/utils.rs: the bytes that are written for a
-- number, and the reading of them.
use oximqtt.Base.{
  ℕ, zero, suc, ◌+◌, ◌*◌, ◌/◌, ◌%◌, ◌^◌, ◌≤◌, ◌<◌, ◌≡◌, [], ◌∷◌, ◌++◌, ltb, ok, if◌then◌else◌,
  arith,
}
use oximqtt.Base.Bytes.{Bytes}
use oximqtt.Codec.Writer.{Writes}
use oximqtt.Codec.Varlen.{varlen_loop, decode_variable_length_cursor, write_variable_length}

-- The encoding of section 2.2.3 of MQTT, with `k` bytes at most after the first.
unfoldable pub varlen : ℕ → ℕ → Bytes
varlen zero v = v ∷ []
varlen (suc k) v =
    let rest = varlen k (v / 128) in if ltb v 128 then v ∷ [] else (v % 128 + 128) ∷ rest

pub write-varlen : (len : ℕ) → len ≤ 268_435_455 → Writes (write_variable_length len) (varlen 3 len)
unfolding write_variable_length varlen
write-varlen len h dst = ground arith

last_byte :
    (v shift acc : ℕ) (rest : Bytes)
    → v < 128
    → varlen_loop shift acc (v ∷ rest) ≡ ok ((acc + v * 2 ^ shift % 2 ^ 32) % 2 ^ 32, rest)
unfolding varlen_loop
last_byte v shift acc rest h = ground arith

inner_byte :
    (v shift acc : ℕ) (rest : Bytes)
    → v < 128
    → shift < 21
    → varlen_loop shift acc ((v + 128) ∷ rest)
      ≡ varlen_loop (shift + 7) ((acc + v * 2 ^ shift % 2 ^ 32) % 2 ^ 32) rest
unfolding varlen_loop
inner_byte v shift acc rest h hs = ground arith

-- The four rounds, the last first: each has the groups above its shift still to read.
read_at_21 :
    (v acc : ℕ) (rest : Bytes)
    → v < 128
    → acc < 2_097_152
    → varlen_loop 21 acc (varlen 0 v ++ rest) ≡ ok (acc + v * 2_097_152, rest)
unfolding varlen
read_at_21 v acc rest h b = ground (arith, last_byte v 21 acc rest)

read_at_14 :
    (v acc : ℕ) (rest : Bytes)
    → v < 16_384
    → acc < 16_384
    → varlen_loop 14 acc (varlen 1 v ++ rest) ≡ ok (acc + v * 16_384, rest)
unfolding varlen
read_at_14 v acc rest h b = ground (
  arith,
  last_byte v 14 acc rest,
  inner_byte (v % 128) 14 acc (varlen 0 (v / 128) ++ rest),
  read_at_21 (v / 128) (acc + v % 128 * 16_384) rest,
)

read_at_7 :
    (v acc : ℕ) (rest : Bytes)
    → v < 2_097_152
    → acc < 128
    → varlen_loop 7 acc (varlen 2 v ++ rest) ≡ ok (acc + v * 128, rest)
unfolding varlen
read_at_7 v acc rest h b = ground (
  arith,
  last_byte v 7 acc rest,
  inner_byte (v % 128) 7 acc (varlen 1 (v / 128) ++ rest),
  read_at_14 (v / 128) (acc + v % 128 * 128) rest,
)

-- `decode_variable_length_cursor` reads back the encoding of a number.
pub cursor-varlen :
    (v : ℕ) (rest : Bytes)
    → v ≤ 268_435_455
    → decode_variable_length_cursor (varlen 3 v ++ rest) ≡ ok (v, rest)
unfolding varlen decode_variable_length_cursor
cursor-varlen v rest h = ground (
  arith,
  last_byte v 0 0 rest,
  inner_byte (v % 128) 0 0 (varlen 2 (v / 128) ++ rest),
  read_at_7 (v / 128) (v % 128) rest,
)
