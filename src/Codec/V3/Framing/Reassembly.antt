-- ===== src/Codec/V3/Framing/Reassembly.antt =====
-- `Codec::decode` of oximqtt/src/codec/v3/codec.rs on a packet that comes in pieces.
use oximqtt.Base.{
  ℕ, zero, suc, ◌+◌, ◌-◌, ◌*◌, ◌%◌, ◌^◌, ◌<◌, ◌≤◌, ◌≡◌, refl, ap, sym, ◌∙◌, Bool, false, none, some,
  [], ◌∷◌, ◌++◌, length, drop, ok, arith, length-append, Result-cases, inl, inr, ◌⊎◌,
}
use oximqtt.Base.Bytes.{Bytes}
use oximqtt.Codec.V3.Framing.{
  DecodeState, frame_header, frame, Codec, set_state, too_large, read_frame, enter_frame,
  read_header, decode,
}
use oximqtt.Codec.Varlen.{varlen_loop, decode_variable_length_cursor, decode_variable_length}

loop-append :
    (src more rest : Bytes) (shift acc v : ℕ)
    → varlen_loop shift acc src ≡ ok (v, rest)
    → varlen_loop shift acc (src ++ more) ≡ ok (v, rest ++ more)
unfolding varlen_loop
loop-append [] more rest shift acc v e = ground arith
loop-append (x ∷ src) more rest shift acc v e =
    ground (
      arith,
      loop-append src more rest (shift + 7) ((acc + x % 128 * 2 ^ shift % 2 ^ 32) % 2 ^ 32) v,
    )

drop-append : (n : ℕ) (xs ys : Bytes) → n ≤ length xs → drop n (xs ++ ys) ≡ drop n xs ++ ys
drop-append zero xs ys h = refl
drop-append (suc n) [] ys h = absurd (omega arith)
drop-append (suc n) (x ∷ xs) ys h = drop-append n xs ys (omega arith)

some-length :
    (src : Bytes) (v n : ℕ)
    → decode_variable_length src ≡ ok (some (v, n))
    → (rest : Bytes) × (decode_variable_length_cursor src ≡ ok (v, rest))
      × (n ≡ length src - length rest)
unfolding decode_variable_length
some-length src v n e = elim (Result-cases (decode_variable_length_cursor src)) [
  | inl ((w, rest), p) ↦ (rest, ground arith, ground arith)
  | inr (x, p) ↦ ground arith
]

-- More input does not change a length that has come.
length-append_more :
    (src more : Bytes) (v n : ℕ)
    → decode_variable_length src ≡ ok (some (v, n))
    → (decode_variable_length (src ++ more) ≡ ok (some (v, n))) × (n ≤ length src)
unfolding decode_variable_length decode_variable_length_cursor
length-append_more src more v n e =
    let (rest, p, q) = some-length src v n e in
    (
      rw (decode_variable_length, loop-append src more rest 0 0 v p)
          (ap (λ (k : ℕ). ok (some (v, k)))
            (omega (arith, length-append {0} src more, length-append {0} rest more))),
      omega arith,
    )

module _ (is_utf8 : Bytes → Bool) where
  read_frame-waits :
      (c c' : Codec) (b n : ℕ) (src src' : Bytes)
      → read_frame is_utf8 c b n src ≡ (ok none, c', src')
      → (length src < n) × (c ≡ c') × (src ≡ src')
  unfolding read_frame
  read_frame-waits c c' b n src src' e = ground arith

  enter_frame-waits :
      (c c' : Codec) (b n k : ℕ) (src src' : Bytes)
      → enter_frame is_utf8 c b n k src ≡ (ok none, c', src')
      → (too_large c.max_size n ≡ false)
        × (length (drop (k + 1) src) < n)
        × (set_state (frame b n) c ≡ c')
        × (drop (k + 1) src ≡ src')
  unfolding enter_frame
  enter_frame-waits c c' b n k src src' e =
      ground (arith, read_frame-waits (set_state (frame b n) c) c' b n (drop (k + 1) src) src')

  enter_frame-append :
      (c : Codec) (b n k : ℕ) (src more : Bytes)
      → too_large c.max_size n ≡ false
      → k + 1 ≤ length src
      → enter_frame is_utf8 c b n k (src ++ more)
        ≡ read_frame is_utf8 (set_state (frame b n) c) b n (drop (k + 1) src ++ more)
  unfolding enter_frame read_frame
  enter_frame-append c b n k src more l h = rw (l, drop-append (k + 1) src more h) (ground arith)

  read_header-enters :
      (c c' : Codec) (b n k : ℕ) (src src' more : Bytes)
      → decode_variable_length src ≡ ok (some (n, k))
      → enter_frame is_utf8 c b n k (b ∷ src) ≡ (ok none, c', src')
      → decode is_utf8 c' (src' ++ more) ≡ enter_frame is_utf8 c b n k (b ∷ (src ++ more))
  unfolding decode
  read_header-enters c c' b n k src src' more p e =
      let (l, _, q, r) = enter_frame-waits c c' b n k (b ∷ src) src' e in
      let (_, m) = length-append_more src more n k p in
      rw (sym q, sym r) (sym (enter_frame-append c b n k (b ∷ src) more l (omega arith)))

  -- A header that waits has left all as it was, or has gone on to its frame.
  read_header-waits :
      (c c' : Codec) (src src' more : Bytes)
      → read_header is_utf8 c src ≡ (ok none, c', src')
      → ((c ≡ c') × (src ≡ src'))
        ⊎ (decode is_utf8 c' (src' ++ more) ≡ read_header is_utf8 c (src ++ more))
  unfolding read_header
  read_header-waits c c' [] src' more e = inl (ground arith)
  read_header-waits c c' (b ∷ []) src' more e = inl (ground arith)
  read_header-waits c c' (b ∷ d ∷ src) src' more e =
      elim (Result-cases (decode_variable_length (d ∷ src))) [
        | inl (none, p) ↦ inl (ground arith)
        | inl (some (n, k), p) ↦ inr (
            rw (read_header, (length-append_more (d ∷ src) more n k p).0)
              (read_header-enters c c' b n k (d ∷ src) src' more p (ground arith)))
        | inr (x, p) ↦ ground arith
      ]

  pub decode_at_header :
      (c : Codec) (src : Bytes)
      → c.state ≡ frame_header
      → decode is_utf8 c src ≡ read_header is_utf8 c src
  unfolding decode
  decode_at_header c src e = rw e refl

  decode_at_frame :
      (c : Codec) (b n : ℕ) (src : Bytes)
      → c.state ≡ frame b n
      → decode is_utf8 c src ≡ read_frame is_utf8 c b n src
  unfolding decode
  decode_at_frame c b n src e = rw e refl

  -- Where `decode` asks for more input, going on from what it left with the input that has come
  -- since gives what it gives on all of the input at once.
  pub decode-reassembles :
      (c c' : Codec) (src src' more : Bytes)
      → decode is_utf8 c src ≡ (ok none, c', src')
      → decode is_utf8 c' (src' ++ more) ≡ decode is_utf8 c (src ++ more)
  decode-reassembles c c' src src' more e = go c.state refl
    where
      unchanged :
          c ≡ c' → src ≡ src' → decode is_utf8 c' (src' ++ more) ≡ decode is_utf8 c (src ++ more)
      unchanged p q = rw (p, q) refl

      go :
          (s : DecodeState)
          → c.state ≡ s
          → decode is_utf8 c' (src' ++ more) ≡ decode is_utf8 c (src ++ more)
      go frame_header q =
          elim (read_header-waits c c' src src' more (sym (decode_at_header c src q) ∙ e)) [
            | inl (p, r) ↦ unchanged p r
            | inr h ↦ h ∙ sym (decode_at_header c (src ++ more) q)
          ]
      go (frame b n) q =
          let (_, p, r) =
            read_frame-waits c c' b n src src' (sym (decode_at_frame c b n src q) ∙ e) in
          unchanged p r
