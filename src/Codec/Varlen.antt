-- ===== src/Codec/Varlen.antt =====
-- The variable-length integers of oximqtt/src/codec/utils.rs: seven bits a byte, lowest first, with
-- the top bit set on every byte but the last, in at most four bytes.
pub mod RoundTrip
pub mod Range
use oximqtt.Base.{
  ℕ, zero, suc, ◌+◌, ◌-◌, ◌*◌, ◌/◌, ◌%◌, ◌^◌, ◌≤◌, ◌<◌, ◌≡◌, refl, ◌≢◌, Bool, true, false, Option,
  none, some, List, [], ◌∷◌, ◌++◌, length, ltb, leb, ◌==◌, Result, ok, err, if◌then◌else◌, arith,
  Bool-cases, inl, inr, ◌⊎◌,
}
use oximqtt.Base.Bytes.{Bytes}
use oximqtt.Codec.Buffer.{DecodeError, EncodeError, Read, ◌>>=◌}
use oximqtt.Codec.Writer.{Write, put, refuse, Writes}

-- The loop of `decode_variable_length_cursor`. `val & 0x7f` is `val % 128`, and `val & 0x80` is 0
-- where `val / 128` is even.
unfoldable pub varlen_loop : ℕ → ℕ → Read ℕ
varlen_loop shift len [] = err DecodeError.malformed_packet
varlen_loop shift len (val ∷ src) =
    let len' = (len + val % 128 * 2 ^ shift % 2 ^ 32) % 2 ^ 32 in
    let rest = varlen_loop (shift + 7) len' src in
    if val / 128 % 2 == 0
    then ok (len', src)
    else if ltb shift 21
    then rest
    else err DecodeError.invalid_length

-- `decode_variable_length_cursor`
unfoldable pub decode_variable_length_cursor : Read ℕ
decode_variable_length_cursor = varlen_loop 0 0

-- `decode_variable_length`: the value and the bytes consumed, or `none` where the input ends early.
unfoldable pub decode_variable_length : Bytes → Result DecodeError (Option (ℕ × ℕ))
decode_variable_length src = elim (decode_variable_length_cursor src) [
  | ok (len, rest) ↦ ok (some (len, length src - length rest))
  | err DecodeError.malformed_packet ↦ ok none
  | err e ↦ err e
]

-- `write_variable_length`. `(x & 0x7f) | 0x80` is `x % 128 + 128`.
unfoldable pub write_variable_length : ℕ → Write
write_variable_length len =
    if leb len 127
    then put (len % 256 ∷ [])
    else if leb len 16_383
    then put ((len % 128 + 128) ∷ len / 128 % 256 ∷ [])
    else if leb len 2_097_151
    then put ((len % 128 + 128) ∷ (len / 128 % 128 + 128) ∷ len / 16_384 % 256 ∷ [])
    else if leb len 268_435_455
    then put (
        (len % 128 + 128)
        ∷ (len / 128 % 128 + 128)
        ∷ (len / 16_384 % 128 + 128)
        ∷ len / 2_097_152 % 256
        ∷ [])
    else refuse EncodeError.panic
