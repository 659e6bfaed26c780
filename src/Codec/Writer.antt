-- ===== src/Codec/Writer.antt =====
-- Writes into a `BytesMut` of the codec. A write extends the buffer, also where it goes on to fail.
use oximqtt.Base.{ℕ, ◌/◌, ◌%◌, ◌≡◌, ◌∙◌, [], ◌∷◌, ◌++◌, append_assoc, Result, ok, err}
use oximqtt.Base.Bytes.{Bytes}
use oximqtt.Codec.Buffer.{EncodeError}

abbrev pub Write : Type 0
Write = Bytes → Result EncodeError (Unit {0}) × Bytes

-- What follows a write is done only if it succeeded.
abbrev pub continue :
    Write → Result EncodeError (Unit {0}) × Bytes → Result EncodeError (Unit {0}) × Bytes
continue k (ok _, dst) = k dst
continue k (err e, dst) = (err e, dst)

infixl 5 ◌>>◌
abbrev pub ◌>>◌ : Write → Write → Write
◌>>◌ m k dst = continue k (m dst)

abbrev pub put : Bytes → Write
put bs dst = (ok tt, dst ++ bs)

abbrev pub put_u8 : ℕ → Write
put_u8 b = put (b % 256 ∷ [])

abbrev pub put_u16 : ℕ → Write
put_u16 n = put (n / 256 % 256 ∷ n % 256 ∷ [])

abbrev pub put_u32 : ℕ → Write
put_u32 n = put (n / 16_777_216 % 256 ∷ n / 65_536 % 256 ∷ n / 256 % 256 ∷ n % 256 ∷ [])

abbrev pub refuse : EncodeError → Write
refuse e dst = (err e, dst)

-- `Ok(())`
abbrev pub skip : Write
skip dst = (ok tt, dst)

-- The write succeeds and appends these bytes, whatever the buffer holds.
abbrev pub Writes : Write → Bytes → Type 0
Writes w bs = (dst : Bytes) → w dst ≡ (ok tt, dst ++ bs)

pub Writes-seq : (m k : Write) (a b : Bytes) → Writes m a → Writes k b → Writes (m >> k) (a ++ b)
Writes-seq m k a b hm hk dst = rw (hm dst) (hk (dst ++ a) ∙ rw append_assoc)
