-- ===== src/Transport/RoundTrip.antt =====
-- Encoding and decoding one frame.
use astrahold_server.Common.{
  ℕ, ◌+◌, ◌≤◌, ◌≡◌, ◌≢◌, refl, true, List, arith, length, max_u32, max_u64, ltb, Bool-cases, inl,
  inr,
}
use astrahold_server.Transport.Bytes.{put, slice, skip, take, ◌+++◌, number-put, length-append}
use astrahold_server.Transport.{
  Frame, Fields, ok, header, fields, encode_frame, decode_fields, decode_frame, magic, version,
  header_size, max_payload_size, valid_delivery,
}

-- The fields of a frame are values of their types.
abbrev pub IsTyped : Frame → Type 0
IsTyped f =
    (f.message_type ≤ 65535)
    × (f.delivery ≤ 255)
    × (f.flags ≤ 255)
    × (f.sequence ≤ max_u32)
    × (f.server_tick ≤ max_u64)

abbrev pub fields_of : Frame → ℕ → Fields
fields_of f size = record {
  magic = magic;
  version = version;
  header_size = header_size;
  message_type = f.message_type;
  delivery = f.delivery;
  flags = f.flags;
  sequence = f.sequence;
  server_tick = f.server_tick;
  payload_length = size;
}

pub fields-header :
    (f : Frame) (size : ℕ) (rest : List ℕ)
    → IsTyped f
    → size ≤ max_u32
    → fields (header f size +++ rest) ≡ fields_of f size
unfolding fields header put slice skip take ◌+++◌
fields-header f size rest t l = ground (
  arith,
  number-put 4 magic refl,
  number-put 2 version refl,
  number-put 2 header_size refl,
  number-put 2 f.message_type (omega arith),
  number-put 1 f.delivery (omega arith),
  number-put 1 f.flags (omega arith),
  number-put 4 f.sequence (omega arith),
  number-put 8 f.server_tick (omega arith),
  number-put 4 size (omega arith),
)

pub length-header : (f : Frame) (size : ℕ) → length (header f size) ≡ 28
unfolding header put ◌+++◌
length-header f size = refl

-- What EncodeFrame writes when it succeeds.
pub encode_frame_lem :
    (f : Frame) (bytes : List ℕ)
    → encode_frame f ≡ ok bytes
    → (bytes ≡ header f (length f.payload) +++ f.payload)
      × (f.message_type ≢ 0)
      × (valid_delivery f.delivery ≡ true)
      × (length f.payload ≤ max_payload_size)
unfolding encode_frame
encode_frame_lem f bytes e = ground arith

skip-header : (f : Frame) (size : ℕ) (rest : List ℕ) → skip 28 (header f size +++ rest) ≡ rest
unfolding header put skip ◌+++◌
skip-header f size rest = refl

decode_fields_lem :
    (f : Frame)
    → f.message_type ≢ 0
    → valid_delivery f.delivery ≡ true
    → length f.payload ≤ max_payload_size
    → decode_fields (fields_of f (length f.payload)) (28 + length f.payload) f.payload ≡ ok f
unfolding decode_fields
decode_fields_lem f m d l = ground arith

-- What EncodeFrame writes, DecodeFrame reads back as the same frame.
pub decode_frame-encode_frame :
    (f : Frame) (bytes : List ℕ) → IsTyped f → encode_frame f ≡ ok bytes → decode_frame bytes ≡ ok f
unfolding decode_frame
decode_frame-encode_frame f bytes t e =
    let size = length f.payload in
    let (wrote, known, delivered, small) = encode_frame_lem f bytes e in
    ground (
      arith,
      fields-header f size f.payload t (omega arith),
      skip-header f size f.payload,
      length-append (header f size) f.payload,
      length-header f size,
      decode_fields_lem f known delivered small,
    )

-- EncodeFrame writes every frame with a known message type, a known delivery and a payload of at
-- most 4 MiB, and no other, and it writes the 28 bytes of the header and the payload.
pub encode_frame-writes :
    (f : Frame)
    → ((f.message_type ≢ 0)
          × (valid_delivery f.delivery ≡ true)
          × (length f.payload ≤ max_payload_size)
        → (bytes : List ℕ) × (encode_frame f ≡ ok bytes) × (length bytes ≡ 28 + length f.payload))
      × ((bytes : List ℕ)
          → encode_frame f ≡ ok bytes
          → (f.message_type ≢ 0)
            × (valid_delivery f.delivery ≡ true)
            × (length f.payload ≤ max_payload_size))
unfolding encode_frame
encode_frame-writes f = (
  λ (known, delivered, small). (
    header f (length f.payload) +++ f.payload,
    ground arith,
    omega (
      arith,
      length-append (header f (length f.payload)) f.payload,
      length-header f (length f.payload),
    ),
  ),
  λ bytes e.
      let (wrote, known, delivered, small) = encode_frame_lem f bytes e in
      (known, delivered, small),
)

decode_fields_sound :
    (h : Fields) (size : ℕ) (payload : List ℕ) (f : Frame)
    → decode_fields h size payload ≡ ok f
    → (f.message_type ≢ 0)
      × (valid_delivery f.delivery ≡ true)
      × (f.payload ≡ payload)
      × (size ≡ 28 + h.payload_length)
      × (h.payload_length ≤ max_payload_size)
unfolding decode_fields
decode_fields_sound h size payload f e = ground arith

-- DecodeFrame accepts only bytes whose length is that of the header and of the payload that it
-- announces, at most 4 MiB, with a known message type and a known delivery, and the payload is
-- what follows the header.
pub decode_frame_sound :
    (bytes : List ℕ) (f : Frame)
    → decode_frame bytes ≡ ok f
    → (28 ≤ length bytes)
      × (f.message_type ≢ 0)
      × (valid_delivery f.delivery ≡ true)
      × (f.payload ≡ skip 28 bytes)
      × (length bytes ≡ 28 + (fields bytes).payload_length)
      × ((fields bytes).payload_length ≤ max_payload_size)
unfolding decode_frame
decode_frame_sound bytes f e = elim (Bool-cases (ltb (length bytes) 28)) [
  | inl short ↦ ground arith
  | inr long ↦
      let sound = decode_fields_sound (fields bytes) (length bytes) (skip 28 bytes) f in
      ground (arith, sound)
]
