-- ===== src/Codec/V3/Decode/Safety.antt =====
-- The parts of oximqtt/src/codec/v3/decode.rs that do not depend on the test of UTF-8, its reads and
-- its loops: none reads past the end of the buffer.
use oximqtt.Base.{
  ℕ, zero, suc, ◌+◌, ◌*◌, ◌≤◌, ◌<◌, ◌≡◌, ◌≢◌, refl, Bool, true, false, List, [], ◌∷◌, length, drop,
  Result, ok, err, arith, inl, inr, Result-cases,
}
use oximqtt.Base.Bytes.{Bytes}
use oximqtt.Codec.Buffer.{
  DecodeError, Read, ◌>>=◌, pure, lift, ensure, ensure_remaining, ensure_empty, split_to, peek,
  choose, continue,
}
use oximqtt.Codec.Utils.{decode_u16, decode_non_zero_u16, decode_bytes, decode_string}
use oximqtt.Codec.Qos.{qos_try_from, mqtt, mqisdp}
use oximqtt.Codec.V3.{Packet}
use oximqtt.Codec.V3.Decode.{
  decode_ack, expect_name, read_protocol_name, read_if, read_all, read_codes,
  decode_subscribe_ack_packet, decode_connect_ack_packet, read_filter,
}

-- The read does not panic, whatever the buffer holds.
abbrev pub NeverPanics {ℓ} : {A : Type ℓ} → Read A → Type ℓ
NeverPanics {A = A} m = (s : Bytes) → m s ≢ err DecodeError.panic

pub continue_safe {ℓ κ} :
    {A : Type ℓ} {B : Type κ} (r : Result DecodeError (A × Bytes)) (f : A → Read B)
    → r ≢ err DecodeError.panic
    → ((a : A) (t : Bytes) → r ≡ ok (a, t) → f a t ≢ err DecodeError.panic)
    → continue r f ≢ err DecodeError.panic
continue_safe (ok (a, t)) f n k = k a t refl
continue_safe (err DecodeError.panic) f n k = absurd (n refl)
continue_safe (err e) f n k = ground arith

pub bind-NeverPanics {ℓ κ} :
    {A : Type ℓ} {B : Type κ} (m : Read A) (f : A → Read B)
    → NeverPanics m
    → ((a : A) → NeverPanics (f a))
    → NeverPanics (m >>= f)
bind-NeverPanics m f h k s = continue_safe (m s) f (h s) (λ a t e. k a t)

pub u16-NeverPanics : NeverPanics decode_u16
unfolding decode_u16 ensure_remaining
u16-NeverPanics s = ground arith

pub id-NeverPanics : NeverPanics decode_non_zero_u16
unfolding decode_non_zero_u16 decode_u16 ensure_remaining
id-NeverPanics s = ground arith

pub bytes-NeverPanics : NeverPanics decode_bytes
unfolding decode_bytes decode_u16 ensure_remaining split_to
bytes-NeverPanics s = ground arith

pub ensure-NeverPanics :
    (b : Bool) (e : DecodeError) → e ≢ DecodeError.panic → NeverPanics (ensure b e)
unfolding ensure
ensure-NeverPanics b e h s = ground arith

pub string-NeverPanics : (is_utf8 : Bytes → Bool) → NeverPanics (decode_string is_utf8)
unfolding decode_string
string-NeverPanics is_utf8 = bind-NeverPanics decode_bytes _ bytes-NeverPanics λ bs.
    bind-NeverPanics (ensure (is_utf8 bs) DecodeError.utf8_error) _
      (ensure-NeverPanics (is_utf8 bs) DecodeError.utf8_error (ground arith)) λ _ s. ground arith

pub qos-NeverPanics : (n : ℕ) → NeverPanics (lift (qos_try_from n))
qos-NeverPanics n s = ground arith

pub read_if-NeverPanics {ℓ} :
    {A : Type ℓ} (b : Bool) (m : Read A) → NeverPanics m → NeverPanics (read_if b m)
unfolding read_if
read_if-NeverPanics true m h = bind-NeverPanics m _ h (λ a s. ground arith)
read_if-NeverPanics false m h = λ s. ground arith

pub choose-NeverPanics {ℓ} :
    {A : Type ℓ} (b : Bool) (m k : Read A)
    → NeverPanics m
    → NeverPanics k
    → NeverPanics (choose b m k)
choose-NeverPanics true m k h i = h
choose-NeverPanics false m k h i = i

-- What a successful read leaves is shorter.
abbrev pub Shortens {ℓ} : {A : Type ℓ} → Read A → Type ℓ
Shortens {A = A} m = (s : Bytes) (a : A) (t : Bytes) → m s ≡ ok (a, t) → length t < length s

pub length-drop : (n : ℕ) (s : Bytes) → length (drop n s) ≤ length s
length-drop zero s = omega arith
length-drop (suc n) [] = omega arith
length-drop (suc n) (b ∷ s) = let h = length-drop n s in omega arith

pub bytes-Shortens : Shortens decode_bytes
unfolding decode_bytes decode_u16 ensure_remaining split_to
bytes-Shortens [] a t e = ground arith
bytes-Shortens (x ∷ []) a t e = ground arith
bytes-Shortens (x ∷ y ∷ s) a t e = ground (arith, length-drop (x * 256 + y) s)

pub string-Shortens : (is_utf8 : Bytes → Bool) → Shortens (decode_string is_utf8)
unfolding decode_string ensure
string-Shortens is_utf8 s a t e = ground (arith, bytes-Shortens s a t)

pub filter-Shortens : (is_utf8 : Bytes → Bool) → Shortens (read_filter is_utf8)
unfolding read_filter ensure_remaining
filter-Shortens is_utf8 s a t e = elim (Result-cases (decode_string is_utf8 s)) [
  | inl ((b, u), p) ↦ ground (arith, string-Shortens is_utf8 s b u)
  | inr (x, p) ↦ ground arith
]

-- One round of a loop, where the rest of the loop is safe on every shorter buffer.
pub round_safe {ℓ} :
    {A : Type ℓ} (k : Read (List A)) (r : Result DecodeError (A × Bytes)) (n : ℕ)
    → r ≢ err DecodeError.panic
    → ((a : A) (t : Bytes) → r ≡ ok (a, t) → length t < n)
    → ((t : Bytes) → length t < n → k t ≢ err DecodeError.panic)
    → continue r (λ v. do vs ← k; pure (v ∷ vs)) ≢ err DecodeError.panic
round_safe k (ok (a, t)) n h d i =
    continue_safe (k t) (λ vs. pure (a ∷ vs)) (i t (d a t refl)) (λ vs u e. ground arith)
round_safe k (err DecodeError.panic) n h d i = absurd (h refl)
round_safe k (err e) n h d i = ground arith

-- A loop over a read that shortens the buffer has enough fuel with the length of the buffer.
pub read_all-safe {ℓ} :
    {A : Type ℓ} (m : Read A) (fuel : ℕ) (s : Bytes)
    → NeverPanics m
    → Shortens m
    → length s ≤ fuel
    → read_all fuel m s ≢ err DecodeError.panic
unfolding read_all
read_all-safe m zero [] h k n = ground arith
read_all-safe m (suc fuel) [] h k n = ground arith
read_all-safe m zero (b ∷ s) h k n = absurd (omega arith)
read_all-safe m (suc fuel) (b ∷ s) h k n =
    round_safe (read_all fuel m) (m (b ∷ s)) (length (b ∷ s)) (h (b ∷ s)) (k (b ∷ s))
      (λ t l. read_all-safe m fuel t h k (omega arith))

pub codes-NeverPanics : (cs : Bytes) → read_codes cs ≢ err DecodeError.panic
unfolding read_codes
codes-NeverPanics [] = ground arith
codes-NeverPanics (c ∷ cs) = ground (arith, codes-NeverPanics cs)

pub ack-NeverPanics : (f : ℕ → Packet) → NeverPanics (decode_ack f)
unfolding decode_ack ensure_empty
ack-NeverPanics f = bind-NeverPanics decode_non_zero_u16 _ id-NeverPanics λ i s. ground arith

pub suback-NeverPanics : NeverPanics decode_subscribe_ack_packet
unfolding decode_subscribe_ack_packet
suback-NeverPanics =
    bind-NeverPanics decode_non_zero_u16 _ id-NeverPanics λ i s. ground (arith, codes-NeverPanics s)

pub connack-NeverPanics : NeverPanics decode_connect_ack_packet
unfolding decode_connect_ack_packet ensure_remaining ensure
connack-NeverPanics s = ground arith

pub length-drop_exact : (n : ℕ) (s : Bytes) → n ≤ length s → length (drop n s) + n ≡ length s
length-drop_exact zero s h = omega arith
length-drop_exact (suc n) [] h = omega arith
length-drop_exact (suc n) (b ∷ s) h = let e = length-drop_exact n s (omega arith) in omega arith

-- A name that may be there is looked for without a panic, and leaves the bytes behind it.
pub expect_leaves :
    (name s : Bytes)
    → length name ≤ length s
    → (expect_name name s ≢ err DecodeError.panic)
      × ((t : Bytes) (u : Unit {0})
          → expect_name name s ≡ ok (u, t)
          → length t + length name ≡ length s)
unfolding expect_name peek split_to ensure
expect_leaves name s h =
    let e = length-drop_exact (length name) s h in (ground arith, λ t u q. ground arith)

-- Behind ten bytes, the protocol name leaves at least the level and the flags.
pub name_leaves :
    (s : Bytes)
    → 10 ≤ length s
    → (read_protocol_name s ≢ err DecodeError.panic)
      × ((t : Bytes) (u : Unit {0}) → read_protocol_name s ≡ ok (u, t) → 2 ≤ length t)
unfolding read_protocol_name
name_leaves [] h = absurd (omega arith)
name_leaves (a ∷ []) h = absurd (omega arith)
name_leaves (a ∷ b ∷ s) h =
    let (p, q) = expect_leaves mqtt s (omega arith) in
    let (p', q') = expect_leaves mqisdp s (omega arith) in
    (ground arith, λ t u e. ground (arith, q t u, q' t u))
