-- ===== src/Transport/Streams.antt =====
-- Frames one after another on a stream.
use astrahold_server.Common.{
  ℕ, zero, suc, ◌⊎◌, inl, inr, ◌≤◌, ◌≡◌, refl, List, [], ◌∷◌, arith, length, max_u32,
}
use astrahold_server.Transport.Bytes.{
  put, number, slice, skip, take, ◌+++◌, number-put, length-append, take-append, skip-append,
  append_assoc,
}
use astrahold_server.Transport.{
  Frame, Result, ok, err, Error, header, encode_frame, decode_frame, max_payload_size, read_data,
  read_payload,
}
use astrahold_server.Transport.RoundTrip.{
  IsTyped, encode_frame_lem, length-header, decode_frame-encode_frame,
}

read_payload-split :
    (head payload rest : List ℕ)
    → length payload ≤ max_payload_size
    → read_payload head (length payload) (payload +++ rest) ≡ ok (head +++ payload, rest)
unfolding read_payload slice
read_payload-split head payload rest small =
    ground (arith, take-append payload rest, skip-append payload rest, length-append payload rest)

header-slices :
    (f : Frame) (size : ℕ) (rest : List ℕ)
    → size ≤ max_u32
    → (slice 0 28 (header f size +++ rest) ≡ header f size)
      × (number 0 (slice 24 4 (header f size +++ rest)) ≡ size)
      × (skip 28 (header f size +++ rest) ≡ rest)
unfolding header put slice skip take ◌+++◌
header-slices f size rest small = (refl, number-put 4 size (omega arith), refl)

-- A reader takes from a stream that begins with a frame the bytes of that frame, and leaves what
-- follows it.
pub read_data-encode_frame :
    (f : Frame) (bytes rest : List ℕ)
    → encode_frame f ≡ ok bytes
    → read_data (bytes +++ rest) ≡ ok (bytes, rest)
unfolding read_data
read_data-encode_frame f bytes rest e =
    let size = length f.payload in
    let (wrote, known, delivered, small) = encode_frame_lem f bytes e in
    ground (
      arith,
      append_assoc (header f size) f.payload rest,
      header-slices f size (f.payload +++ rest) (omega arith),
      length-append (header f size) (f.payload +++ rest),
      length-header f size,
      read_payload-split (header f size) f.payload rest small,
    )

-- Frames written one after another.
unfoldable pub write_frames : List Frame → Result (List ℕ)
write_frames [] = ok []
write_frames (f ∷ fs) = elim (encode_frame f) [
  | err e ↦ err e
  | ok bytes ↦ elim (write_frames fs) [ err e ↦ err e | ok more ↦ ok (bytes +++ more) ]
]

-- A number of frames read off a stream, and what is left of it.
unfoldable pub read_frames : ℕ → List ℕ → Result (List Frame × List ℕ)
read_frames zero stream = ok ([], stream)
read_frames (suc count) stream = elim (read_data stream) [
  | err e ↦ err e
  | ok (bytes, rest) ↦ elim (decode_frame bytes) [
    | err e ↦ err e
    | ok f ↦ elim (read_frames count rest) [ err e ↦ err e | ok (fs, left) ↦ ok (f ∷ fs, left) ]
  ]
]

abbrev pub AllTyped : List Frame → Type 0
AllTyped [] = Unit
AllTyped (f ∷ fs) = IsTyped f × AllTyped fs

Result-cases : {A : Type 0} (r : Result A) → ((a : A) × (r ≡ ok a)) ⊎ ((e : Error) × (r ≡ err e))
Result-cases (ok a) = inl (a, refl)
Result-cases (err e) = inr (e, refl)

-- A reader of a stream gets the frames that were written, in their order, with nothing lost
-- between them and what follows them left on the stream.
pub read_frames-write_frames :
    (fs : List Frame) (stream rest : List ℕ)
    → AllTyped fs
    → write_frames fs ≡ ok stream
    → read_frames (length fs) (stream +++ rest) ≡ ok (fs, rest)
unfolding write_frames read_frames ◌+++◌
read_frames-write_frames [] stream rest t e = ground arith
read_frames-write_frames (f ∷ fs) stream rest t e = elim (Result-cases (encode_frame f)) [
  | inr (bad, h) ↦ ground arith
  | inl (bytes, h) ↦ elim (Result-cases (write_frames fs)) [
    | inr (bad, k) ↦ ground arith
    | inl (more, k) ↦ ground (
      arith,
      append_assoc bytes more rest,
      read_data-encode_frame f bytes (more +++ rest) h,
      decode_frame-encode_frame f bytes t.0 h,
      read_frames-write_frames fs more rest t.1 k,
    )
  ]
]
