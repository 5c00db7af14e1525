-- ===== src/Transport.antt =====
-- Frames on the wire (internal/transport/frame.go, codec.go and stream.go), with the constants of
-- internal/protocol/messages.go. Bytes are numbers; a message type is a uint16, a delivery and the
-- flags are uint8, a sequence is a uint32 and a tick a uint64. The codec of the payloads is a
-- parameter.
pub mod Bytes
pub mod RoundTrip
pub mod Streams
pub mod Envelope
pub mod Appending
use astrahold_server.Common.{
  ℕ, suc, ◌+◌, ◌-◌, Bool, true, false, not, ◌&&◌, ◌||◌, Option, none, some, List, [], ◌∷◌, ltb, leb,
  ◌==◌, if◌then◌else◌, length,
}
use astrahold_server.Transport.Bytes.{put, number, slice, skip, ◌+++◌}

abbrev pub magic : ℕ
magic = 1095980114

abbrev pub version : ℕ
version = 29

abbrev pub header_size : ℕ
header_size = 28

abbrev pub max_payload_size : ℕ
max_payload_size = 4194304

abbrev pub message_unknown : ℕ
message_unknown = 0

abbrev pub delivery_reliable_ordered : ℕ
delivery_reliable_ordered = 1

abbrev pub delivery_realtime_sequenced : ℕ
delivery_realtime_sequenced = 2

pub data Error : Type 0 where
  frame_too_short bad_magic unsupported_version bad_header_size payload_too_large : Error
  payload_length invalid_delivery invalid_message_type nil_message end_of_stream : Error
  -- what the codec answers
  codec_error : ℕ → Error

pub data Result {ℓ} (A : Type ℓ) : Type ℓ where
  ok : A → Result A
  err : Error → Result A

pub record Frame : Type 0 where
  pub message_type : ℕ
  pub delivery : ℕ
  pub flags : ℕ
  pub sequence : ℕ
  pub server_tick : ℕ
  pub payload : List ℕ

abbrev pub valid_delivery : ℕ → Bool
valid_delivery d = d == delivery_reliable_ordered || d == delivery_realtime_sequenced

-- The 28 bytes of the header, before the payload.
unfoldable pub header : Frame → ℕ → List ℕ
unfolding put ◌+++◌
header f size =
    put 4 magic
    +++ put 2 version
    +++ put 2 header_size
    +++ put 2 f.message_type
    +++ put 1 f.delivery
    +++ put 1 f.flags
    +++ put 4 f.sequence
    +++ put 8 f.server_tick
    +++ put 4 size

unfoldable pub encode_frame : Frame → Result (List ℕ)
unfolding header ◌+++◌
encode_frame f =
    if f.message_type == message_unknown
    then err invalid_message_type
    else if not (valid_delivery f.delivery)
    then err invalid_delivery
    else if ltb max_payload_size (length f.payload)
    then err payload_too_large
    else ok (header f (length f.payload) +++ f.payload)

-- The numbers that DecodeFrame reads out of the header.
pub record Fields : Type 0 where
  pub magic : ℕ
  pub version : ℕ
  pub header_size : ℕ
  pub message_type : ℕ
  pub delivery : ℕ
  pub flags : ℕ
  pub sequence : ℕ
  pub server_tick : ℕ
  pub payload_length : ℕ

unfoldable pub fields : List ℕ → Fields
unfolding slice number
fields bytes = record {
  magic = number 0 (slice 0 4 bytes);
  version = number 0 (slice 4 2 bytes);
  header_size = number 0 (slice 6 2 bytes);
  message_type = number 0 (slice 8 2 bytes);
  delivery = number 0 (slice 10 1 bytes);
  flags = number 0 (slice 11 1 bytes);
  sequence = number 0 (slice 12 4 bytes);
  server_tick = number 0 (slice 16 8 bytes);
  payload_length = number 0 (slice 24 4 bytes);
}

-- The checks of DecodeFrame in their order, for the fields, the size and the payload.
unfoldable pub decode_fields : Fields → ℕ → List ℕ → Result Frame
decode_fields h size payload =
    if not (h.magic == magic)
    then err bad_magic
    else if not (h.version == version)
    then err unsupported_version
    else if not (h.header_size == header_size)
    then err bad_header_size
    else if h.message_type == message_unknown
    then err invalid_message_type
    else if not (valid_delivery h.delivery)
    then err invalid_delivery
    else if ltb max_payload_size h.payload_length
    then err payload_too_large
    else if not (size == h.header_size + h.payload_length)
    then err payload_length
    else ok (record {
      message_type = h.message_type;
      delivery = h.delivery;
      flags = h.flags;
      sequence = h.sequence;
      server_tick = h.server_tick;
      payload = payload;
    })

unfoldable pub decode_frame : List ℕ → Result Frame
unfolding decode_fields fields skip
decode_frame bytes =
    if ltb (length bytes) header_size
    then err frame_too_short
    else decode_fields (fields bytes) (length bytes) (skip header_size bytes)

-- ReadEnvelope up to the codec: the header, then as many bytes as it names. What it reads of the
-- stream is a frame; the rest stays.
unfoldable pub read_payload : List ℕ → ℕ → List ℕ → Result (List ℕ × List ℕ)
unfolding slice skip ◌+++◌
read_payload head size rest =
    if ltb max_payload_size size
    then err payload_too_large
    else if ltb (length rest) size
    then err end_of_stream
    else ok (head +++ slice 0 size rest, skip size rest)

unfoldable pub read_data : List ℕ → Result (List ℕ × List ℕ)
unfolding read_payload slice skip number
read_data stream =
    if ltb (length stream) header_size
    then err end_of_stream
    else read_payload (slice 0 header_size stream) (number 0 (slice 24 4 stream))
        (skip header_size stream)
