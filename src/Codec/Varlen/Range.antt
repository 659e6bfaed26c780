-- ===== src/Codec/Varlen/Range.antt =====
-- The variable-length integers of oximqtt/src/codec/utils.rs on any input: which inputs count as
-- incomplete.
use oximqtt.Base.{
  ℕ, zero, suc, ◌+◌, ◌*◌, ◌/◌, ◌%◌, ◌^◌, ◌≤◌, ◌<◌, ◌≡◌, none, [], ◌∷◌, length, ok, err, arith, ◌↔◌,
  All,
}
use oximqtt.Base.Bytes.{Bytes}
use oximqtt.Codec.Buffer.{DecodeError}
use oximqtt.Codec.Varlen.{varlen_loop, decode_variable_length_cursor, decode_variable_length}

-- A number in range, read from `n` bytes at most.
abbrev pub InRange : ℕ → Bytes → ℕ → Bytes → Type 0
InRange n src v rest =
    (v ≤ 268_435_455) × (length rest < length src) × (length src ≤ length rest + n)

InRange-at_21 :
    (src : Bytes) (acc v : ℕ) (rest : Bytes)
    → acc < 2_097_152
    → varlen_loop 21 acc src ≡ ok (v, rest)
    → InRange 1 src v rest
unfolding varlen_loop
InRange-at_21 [] acc v rest b e = ground arith
InRange-at_21 (x ∷ src) acc v rest b e = ground arith

InRange-at_14 :
    (src : Bytes) (acc v : ℕ) (rest : Bytes)
    → acc < 16_384
    → varlen_loop 14 acc src ≡ ok (v, rest)
    → InRange 2 src v rest
unfolding varlen_loop
InRange-at_14 [] acc v rest b e = ground arith
InRange-at_14 (x ∷ src) acc v rest b e =
    ground (arith, InRange-at_21 src ((acc + x % 128 * 2 ^ 14 % 2 ^ 32) % 2 ^ 32) v rest)

InRange-at_7 :
    (src : Bytes) (acc v : ℕ) (rest : Bytes)
    → acc < 128
    → varlen_loop 7 acc src ≡ ok (v, rest)
    → InRange 3 src v rest
unfolding varlen_loop
InRange-at_7 [] acc v rest b e = ground arith
InRange-at_7 (x ∷ src) acc v rest b e =
    ground (arith, InRange-at_14 src ((acc + x % 128 * 2 ^ 7 % 2 ^ 32) % 2 ^ 32) v rest)

-- A byte with the continuation bit.
abbrev pub GoesOn : ℕ → Type 0
GoesOn b = b / 128 % 2 ≡ 1

loop-malformed_iff :
    (src : Bytes) (shift acc n : ℕ)
    → shift + 7 * n ≡ 21
    → (varlen_loop shift acc src ≡ err DecodeError.malformed_packet)
      ↔ (All GoesOn src × (length src ≤ n))
unfolding varlen_loop
loop-malformed_iff [] shift acc n s = ground arith
loop-malformed_iff (x ∷ src) shift acc zero s = ground arith
loop-malformed_iff (x ∷ src) shift acc (suc n) s =
    ground
      (arith, loop-malformed_iff src (shift + 7) ((acc + x % 128 * 2 ^ shift % 2 ^ 32) % 2 ^ 32) n)

none_iff_malformed :
    (src : Bytes)
    → (decode_variable_length src ≡ ok none)
      ↔ (decode_variable_length_cursor src ≡ err DecodeError.malformed_packet)
unfolding decode_variable_length
none_iff_malformed src = ground arith

-- `decode_variable_length` asks for more input exactly where at most three bytes have come and
-- each of them has the continuation bit.
pub decode_variable_length-none_iff :
    (src : Bytes) → (decode_variable_length src ≡ ok none) ↔ (All GoesOn src × (length src ≤ 3))
unfolding decode_variable_length_cursor
decode_variable_length-none_iff src =
    let (a, b) = none_iff_malformed src in
    let (c, d) = loop-malformed_iff src 0 0 3 (omega arith) in (λ h. c (a h), λ h. b (d h))
