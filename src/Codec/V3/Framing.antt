-- ===== src/Codec/V3/Framing.antt =====
-- `Codec` of oximqtt/src/codec/v3/codec.rs: packets out of the bytes that have come so far, and into
-- the bytes that go out. `reserve` only makes room and is left out.
pub mod RoundTrip
pub mod Reassembly
use oximqtt.Base.{
  ℕ, ◌+◌, ◌%◌, ◌^◌, Bool, true, false, not, ◌&&◌, Option, none, some, List, [], ◌∷◌, length, take,
  drop, ltb, ◌==◌, Result, ok, err, if◌then◌else◌,
}
use oximqtt.Base.Bytes.{Bytes}
use oximqtt.Codec.Buffer.{DecodeError, EncodeError, max_size_exceeded}
use oximqtt.Codec.Qos.{QoS, is_at_most_once}
use oximqtt.Codec.V3.{Publish, Packet, publish}
use oximqtt.Codec.V3.Decode.{decode_packet}
use oximqtt.Codec.V3.Encode
use oximqtt.Codec.V3.Encode.{is_some, get_encoded_size}
use oximqtt.Codec.Varlen.{decode_variable_length}
use oximqtt.Codec.Writer.{Write, refuse}

pub data DecodeState : Type 0 where
  frame_header : DecodeState
  -- the first byte of the frame and its remaining length
  frame : ℕ → ℕ → DecodeState

pub record Codec : Type 0 where
  pub state : DecodeState
  pub max_size : ℕ

-- `Codec::new`
abbrev pub new : ℕ → Codec
new max_packet_size = record { state = frame_header; max_size = max_packet_size }

-- `Codec::set_max_size`
abbrev pub set_max_size : Codec → ℕ → Codec
set_max_size c size = record { state = c.state; max_size = size }

-- `self.state.set`
abbrev pub set_state : DecodeState → Codec → Codec
set_state s c = record { state = s; max_size = c.max_size }

-- What a call returns, the codec after it and the buffer after it.
abbrev pub Outcome : Type 0
Outcome = Result DecodeError (Option (Packet × ℕ)) × Codec × Bytes

-- The codec is within its limit of a size: `max_size` 0 is none.
abbrev pub too_large : ℕ → ℕ → Bool
too_large max size = not (max == 0) && ltb max size

module _ (is_utf8 : Bytes → Bool) where
  -- The arm `Frame` of `decode`, for a buffer that holds the frame: a packet that is refused is taken
  -- from the buffer, and the state stays.
  abbrev pub read_packet : Codec → ℕ → ℕ → Bytes → Outcome
  read_packet c first_byte remaining_length src =
      elim (decode_packet is_utf8 first_byte (take remaining_length src)) [
        | err e ↦ (err e, c, drop remaining_length src)
        | ok (packet, unread) ↦ (
          ok (some (packet, remaining_length)),
          set_state frame_header c,
          drop remaining_length src,
        )
      ]

  -- The arm `Frame` of `decode`
  unfoldable pub read_frame : Codec → ℕ → ℕ → Bytes → Outcome
  read_frame c first_byte remaining_length src =
      if ltb (length src) remaining_length
      then (ok none, c, src)
      else read_packet c first_byte remaining_length src

  -- The arm `FrameHeader` of `decode`, from the check of the size on. Where the frame is there, the
  -- loop goes on to the arm `Frame`.
  unfoldable pub enter_frame : Codec → ℕ → ℕ → ℕ → Bytes → Outcome
  enter_frame c first_byte remaining_length consumed src =
      let c' = set_state (frame first_byte remaining_length) c in
      let src' = drop (consumed + 1) src in
      if too_large c.max_size remaining_length
      then (err (max_size_exceeded remaining_length c.max_size), c, src)
      else if ltb (length src') remaining_length
      then (ok none, c', src')
      else read_frame c' first_byte remaining_length src'

  -- The arm `FrameHeader` of `decode`
  unfoldable pub read_header : Codec → Bytes → Outcome
  read_header c (first_byte ∷ b ∷ bs) = elim (decode_variable_length (b ∷ bs)) [
    | err e ↦ (err e, c, first_byte ∷ b ∷ bs)
    | ok none ↦ (ok none, c, first_byte ∷ b ∷ bs)
    | ok (some (remaining_length, consumed)) ↦
        enter_frame c first_byte remaining_length consumed (first_byte ∷ b ∷ bs)
  ]
  read_header c src = (ok none, c, src)

  -- `Decoder::decode`
  unfoldable pub decode : Codec → Bytes → Outcome
  decode c src = elim c.state [
    | frame_header ↦ read_header c src
    | frame first_byte remaining_length ↦ read_frame c first_byte remaining_length src
  ]

-- The packet is a `Publish` that must have a packet identifier and has none.
abbrev pub lacks_packet_id : Packet → Bool
lacks_packet_id (publish p) = not (is_at_most_once p.qos) && not (is_some p.packet_id)
lacks_packet_id _ = false

-- `Encoder::encode`
unfoldable pub encode : Packet → Write
encode item =
    if lacks_packet_id item
    then refuse EncodeError.packet_id_required
    else Encode.encode item (get_encoded_size item % 2 ^ 32)
