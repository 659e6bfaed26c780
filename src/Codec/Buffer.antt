-- ===== src/Codec/Buffer.antt =====
-- The buffers that the codec reads and writes, as the sequence of bytes they hold, and the errors
-- of oximqtt/src/codec/error.rs. `panic` is none of those: it is a read past a buffer's end, or
-- the `panic!` of `write_variable_length`.
use oximqtt.Base.{
  ℕ, ◌≤◌, ◌<◌, arith, refl, length-append, take-length-append, drop-length-append, le→leb, ◌+◌, ◌*◌,
  ◌≡◌, Bool, true, false, [], ◌∷◌, ◌++◌, length, take, drop, leb, Result, ok, err, if◌then◌else◌,
}
use oximqtt.Base.Bytes.{Bytes}

pub data DecodeError : Type 0 where
  invalid_protocol invalid_length malformed_packet unsupported_protocol_level : DecodeError
  connect_reserved_flag_set connack_reserved_flag_set invalid_client_id : DecodeError
  unsupported_packet_type packet_id_required : DecodeError
  max_size_exceeded : ℕ → ℕ → DecodeError
  utf8_error : DecodeError
  io : Bytes → DecodeError
  panic : DecodeError

pub data EncodeError : Type 0 where
  over_max_packet_size : ℕ → ℕ → EncodeError
  invalid_length malformed_packet packet_id_required unsupported_version : EncodeError
  io : Bytes → EncodeError
  panic : EncodeError

-- A read takes the buffer, and returns a value with what is left of the buffer.
abbrev pub Read {ℓ} : Type ℓ → Type ℓ
Read A = Bytes → Result DecodeError (A × Bytes)

-- What follows a read is done only if it succeeds: `?`.
abbrev pub continue {ℓ κ} :
    {A : Type ℓ} {B : Type κ}
    → Result DecodeError (A × Bytes)
    → (A → Read B)
    → Result DecodeError (B × Bytes)
continue (ok (a, s)) f = f a s
continue (err e) f = err e

infixl 5 ◌>>=◌ ◌>>◌
abbrev pub ◌>>=◌ {ℓ κ} : {A : Type ℓ} {B : Type κ} → Read A → (A → Read B) → Read B
◌>>=◌ m f s = continue (m s) f

abbrev pub ◌>>◌ {ℓ} : {B : Type ℓ} → Read (Unit {0}) → Read B → Read B
m >> k = m >>= λ _. k

abbrev pub pure {ℓ} : {A : Type ℓ} → A → Read A
pure a s = ok (a, s)

abbrev pub fail {ℓ} : {A : Type ℓ} → DecodeError → Read A
fail e s = err e

-- The `ensure!` macro, of a value and of the number of bytes that are left.
unfoldable pub ensure : Bool → DecodeError → Read (Unit {0})
ensure b e s = if b then ok (tt, s) else err e

unfoldable pub ensure_remaining : ℕ → DecodeError → Read (Unit {0})
ensure_remaining n e s = if leb n (length s) then ok (tt, s) else err e

-- `!src.has_remaining()`
unfoldable pub ensure_empty : DecodeError → Read (Unit {0})
ensure_empty e s = if leb 1 (length s) then err e else ok (tt, s)

-- A result that no buffer takes part in, under `?`.
abbrev pub lift {ℓ} : {A : Type ℓ} → Result DecodeError A → Read A
lift r s = elim r [ err e ↦ err e | ok a ↦ ok (a, s) ]

abbrev pub get_u8 : Read ℕ
get_u8 [] = err panic
get_u8 (b ∷ s) = ok (b, s)

abbrev pub get_u16 : Read ℕ
get_u16 (a ∷ b ∷ s) = ok (a * 256 + b, s)
get_u16 _ = err panic

abbrev pub get_u32 : Read ℕ
get_u32 (a ∷ b ∷ c ∷ d ∷ s) = ok (((a * 256 + b) * 256 + c) * 256 + d, s)
get_u32 _ = err panic

-- `split_to`, and `advance` where the bytes are not used.
unfoldable pub split_to : ℕ → Read Bytes
split_to n s = if leb n (length s) then ok (take n s, drop n s) else err panic

-- `if` between two reads.
abbrev pub choose {ℓ} : {A : Type ℓ} → Bool → Read A → Read A → Read A
choose true m k = m
choose false m k = k

-- `&src.as_ref()[0..n]`: a look at the next bytes.
unfoldable pub peek : ℕ → Read Bytes
peek n s = if leb n (length s) then ok (take n s, s) else err panic

pub peek-append : (bs rest : Bytes) → peek (length bs) (bs ++ rest) ≡ ok (bs, bs ++ rest)
unfolding peek
peek-append bs rest =
    rw (le→leb (length bs) (length (bs ++ rest)) (omega (arith, length-append {0} bs rest)))
      (rw (take-length-append bs rest) refl)

pub ensure-true : (e : DecodeError) (s : Bytes) → ensure true e s ≡ ok (tt, s)
unfolding ensure
ensure-true e s = refl

pub ensure_remaining_enough :
    (n : ℕ) (e : DecodeError) (s : Bytes) → n ≤ length s → ensure_remaining n e s ≡ ok (tt, s)
unfolding ensure_remaining
ensure_remaining_enough n e s h = ground arith

pub ensure_remaining_short :
    (n : ℕ) (e : DecodeError) (s : Bytes) → length s < n → ensure_remaining n e s ≡ err e
unfolding ensure_remaining
ensure_remaining_short n e s h = ground arith

pub split_to-append : (bs rest : Bytes) → split_to (length bs) (bs ++ rest) ≡ ok (bs, rest)
unfolding split_to
split_to-append bs rest =
    rw (le→leb (length bs) (length (bs ++ rest)) (omega (arith, length-append {0} bs rest)))
      (rw (take-length-append bs rest, drop-length-append bs rest) refl)
