-- ===== src/Codec/Utils.antt =====
-- `Decode` and `Encode` of oximqtt/src/codec/utils.rs for the primitive types. Whether bytes are
-- UTF-8 is the standard library's test, a parameter of what reads a `ByteString`.
pub mod Lemmas
use oximqtt.Base.{
  ℕ, zero, suc, ◌≡◌, Bool, true, false, Option, none, some, List, [], ◌∷◌, ◌++◌, length, leb, ltb,
  ◌==◌, not, Result, ok, err, if◌then◌else◌, ◌+◌, ◌%◌, ◌^◌,
}
use oximqtt.Base.Bytes.{Bytes}
use oximqtt.Codec.Buffer.{
  DecodeError, EncodeError, Read, ◌>>=◌, ◌>>◌, pure, fail, ensure, ensure_remaining, get_u8,
  get_u16, get_u32, split_to,
}
use oximqtt.Codec.Varlen.{decode_variable_length_cursor}
use oximqtt.Codec.Writer.{Write, put, put_u8, put_u16, put_u32, refuse}
use oximqtt.Codec.Writer

-- `bool::decode`
unfoldable pub decode_bool : Read Bool
decode_bool = do
  ensure_remaining 1 DecodeError.invalid_length
  v ← get_u8
  ensure (leb v 1) DecodeError.malformed_packet
  pure (v == 1)

-- `u16::decode`
unfoldable pub decode_u16 : Read ℕ
decode_u16 = do ensure_remaining 2 DecodeError.invalid_length; get_u16

-- `u32::decode`
unfoldable pub decode_u32 : Read ℕ
decode_u32 = do ensure_remaining 4 DecodeError.invalid_length; get_u32

-- `NonZero::new(v).ok_or(MalformedPacket)`
abbrev pub non_zero : ℕ → Read ℕ
non_zero v s = if v == 0 then err DecodeError.malformed_packet else ok (v, s)

-- `NonZeroU16::decode`
unfoldable pub decode_non_zero_u16 : Read ℕ
unfolding decode_u16
decode_non_zero_u16 = do v ← decode_u16; non_zero v

-- `NonZeroU32::decode`
unfoldable pub decode_non_zero_u32 : Read ℕ
unfolding decode_u32
decode_non_zero_u32 = do v ← decode_u32; non_zero v

-- `Bytes::decode`
unfoldable pub decode_bytes : Read Bytes
unfolding decode_u16
decode_bytes = do len ← decode_u16; ensure_remaining len DecodeError.invalid_length; split_to len

-- `ByteString::decode`
unfoldable pub decode_string : (Bytes → Bool) → Read Bytes
unfolding decode_bytes
decode_string is_utf8 = do bs ← decode_bytes; ensure (is_utf8 bs) DecodeError.utf8_error; pure bs

-- `take_properties`
unfoldable pub take_properties : Read Bytes
take_properties = do
  prop_len ← decode_variable_length_cursor
  ensure_remaining prop_len DecodeError.invalid_length
  split_to prop_len

-- `Property for Option<T>`: a property may be read once.
unfoldable pub read_value {ℓ} : {A : Type ℓ} → Read A → Option A → Read (Option A)
read_value decode none = do v ← decode; pure (some v)
read_value decode (some old) = fail DecodeError.malformed_packet

-- `bool::encode`
unfoldable pub encode_bool : Bool → Write
encode_bool b = put_u8 (if b then 1 else 0)

-- `u16::encode` and `NonZeroU16::encode`
unfoldable pub encode_u16 : ℕ → Write
encode_u16 n = put_u16 n

-- `u32::encode` and `NonZeroU32::encode`
unfoldable pub encode_u32 : ℕ → Write
encode_u32 n = put_u32 n

-- `encode` of `Bytes`, `&[u8]` and `ByteString`
unfoldable pub encode_bytes : Bytes → Write
encode_bytes bs =
    if ltb (length bs) (2 ^ 16)
    then Writer.◌>>◌ (put_u16 (length bs)) (put bs)
    else refuse EncodeError.invalid_length

-- `encoded_size` of the same
unfoldable pub encoded_size : Bytes → ℕ
encoded_size bs = 2 + length bs

-- `Encode for Option<T>`
unfoldable pub encode_option {ℓ} : {A : Type ℓ} → (A → Write) → Option A → Write
encode_option encode none dst = (ok tt, dst)
encode_option encode (some v) dst = encode v dst
