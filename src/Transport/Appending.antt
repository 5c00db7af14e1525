-- ===== src/Transport/Appending.antt =====
-- The two encoders of an envelope agree, and decoding undoes them.
use astrahold_server.Common.{
  ℕ, ◌≤◌, ◌≡◌, refl, ◌⊎◌, inl, inr, Option, none, some, List, [], length, arith, max_u32, max_u64,
  Option-cases, subst, ap, ◌∙◌,
}
use astrahold_server.Transport.Bytes.{◌+++◌, take-append, skip-append, length-append, append_assoc}
use astrahold_server.Transport.{Error, Result, ok, err, max_payload_size, header, encode_frame}
use astrahold_server.Transport.RoundTrip.{encode_frame_lem, decode_frame-encode_frame}
use astrahold_server.Transport.Envelope.{
  Codec, Envelope, frame_of, encode_marshalled, encode_message, encode_envelope, zeros,
  marshal_onto, append_payload, finish, append_message, append_encode_envelope, decode_unmarshalled,
  decode_framed, decode_envelope,
}

Result-cases : {A : Type 0} (r : Result A) → ((a : A) × (r ≡ ok a)) ⊎ ((e : Error) × (r ≡ err e))
Result-cases (ok a) = inl (a, refl)
Result-cases (err e) = inr (e, refl)

module _ {Message : Type 0} (codec : Codec Message) where
  -- Where the codec can append, it appends what it marshals, and it fails where Marshal does.
  abbrev pub Appends : Type 0
  Appends =
      (append : List ℕ → Message → List ℕ × Option Error)
      → codec.append_marshal ≡ some append
      → (dst : List ℕ) (m : Message)
      → ((payload : List ℕ) → codec.marshal m ≡ ok payload → append dst m ≡ (dst +++ payload, none))
        × ((error : Error)
            → codec.marshal m ≡ err error
            → (extra : List ℕ) × (append dst m ≡ (dst +++ extra, some error)))

  -- An envelope that is encoded has a message that is marshalled and framed.
  encode_envelope_lem :
      (e : Envelope Message) (bytes : List ℕ)
      → encode_envelope codec e ≡ ok bytes
      → (m : Message) × (payload : List ℕ) × (e.message ≡ some m)
        × (codec.marshal m ≡ ok payload)
        × (encode_frame (frame_of codec e m payload) ≡ ok bytes)
  unfolding encode_envelope encode_message encode_marshalled
  encode_envelope_lem e bytes h = elim (Option-cases e.message) [
    | inl nothing ↦ ground arith
    | inr (m, here) ↦ elim (Result-cases (codec.marshal m)) [
      | inr (bad, failed) ↦ ground arith
      | inl (payload, done) ↦ (m, payload, here, done, ground arith)
    ]
  ]

  append_payload_lem :
      (dst : List ℕ) (m : Message) (payload : List ℕ)
      → Appends
      → codec.marshal m ≡ ok payload
      → append_payload codec dst m codec.append_marshal ≡ (dst +++ payload, none)
  unfolding append_payload marshal_onto
  append_payload_lem dst m payload h e = elim (Option-cases codec.append_marshal) [
    | inl none_such ↦ rw (none_such, e, append_payload) refl
    | inr (append, here) ↦ rw (here, append_payload) ((h append here dst m).0 payload e)
  ]

  length-zeros : length (zeros codec 28) ≡ 28
  unfolding zeros
  length-zeros = refl

  header_payload :
      (e : Envelope Message) (m : Message) (payload : List ℕ) (size : ℕ)
      → header (frame_of codec e m []) size ≡ header (frame_of codec e m payload) size
  unfolding header
  header_payload e m payload size = refl

  finish_lem :
      (e : Envelope Message) (m : Message) (dst payload : List ℕ)
      → length payload ≤ max_payload_size
      → finish codec e m (length dst) ((dst +++ zeros codec 28) +++ payload, none)
        ≡ (dst +++ (header (frame_of codec e m payload) (length payload) +++ payload), none)
  unfolding finish
  finish_lem e m dst payload small =
      let reserved = dst +++ zeros codec 28 in
      ground (
        arith,
        length-zeros,
        length-append dst (zeros codec 28),
        length-append reserved payload,
        append_assoc dst (zeros codec 28) payload,
        take-append dst (zeros codec 28 +++ payload),
        skip-append reserved payload,
        header_payload e m payload (length payload),
      )

  -- What EncodeEnvelope encodes, AppendEncodeEnvelope appends to any slice, whether or not the
  -- codec can append, where an appending codec appends what it marshals.
  pub append_encode_envelope-encode_envelope :
      (e : Envelope Message) (bytes dst : List ℕ)
      → Appends
      → encode_envelope codec e ≡ ok bytes
      → append_encode_envelope codec dst e ≡ (dst +++ bytes, none)
  unfolding append_encode_envelope append_message
  append_encode_envelope-encode_envelope e bytes dst h encodes =
      let (m, payload, here, done, framed) = encode_envelope_lem e bytes encodes in
      let (wrote, known, delivered, small) =
        encode_frame_lem (frame_of codec e m payload) bytes framed in
      ground (
        arith,
        append_payload_lem (dst +++ zeros codec 28) m payload h done,
        finish_lem e m dst payload small,
      )

  -- The envelope with the message that a codec read, or the codec's error.
  abbrev pub with_message : Envelope Message → Result Message → Result (Envelope Message)
  with_message e (ok n) = ok (record e { message = some n })
  with_message e (err error) = err error

  decode_framed_lem :
      (e : Envelope Message) (m : Message) (payload : List ℕ)
      → decode_framed codec (ok (frame_of codec e m payload))
        ≡ with_message e (codec.unmarshal (codec.message_type m) payload)
  unfolding decode_framed decode_unmarshalled
  decode_framed_lem e m payload =
      elim (Result-cases (codec.unmarshal (codec.message_type m) payload)) [
        | inl (n, reads) ↦ rw (reads, decode_framed, decode_unmarshalled) refl
        | inr (error, fails) ↦ rw (fails, decode_framed, decode_unmarshalled) refl
      ]

  -- Of every envelope that EncodeEnvelope writes, the numbers being of their types,
  -- DecodeEnvelope reads back the delivery, the sequence and the tick, with what the codec reads
  -- from the payload that it wrote, under the type of the message; where the codec fails on that
  -- payload, DecodeEnvelope fails with its error.
  pub decode_envelope-encode_envelope :
      (e : Envelope Message) (m : Message) (bytes : List ℕ)
      → e.message ≡ some m
      → (codec.message_type m ≤ 65535)
        × (e.delivery ≤ 255)
        × (e.sequence ≤ max_u32)
        × (e.server_tick ≤ max_u64)
      → encode_envelope codec e ≡ ok bytes
      → (payload : List ℕ) × (codec.marshal m ≡ ok payload)
        × (decode_envelope codec bytes
            ≡ with_message e (codec.unmarshal (codec.message_type m) payload))
  unfolding decode_envelope decode_framed decode_unmarshalled
  decode_envelope-encode_envelope e m bytes here typed encodes =
      let (n, payload, there, done, framed) = encode_envelope_lem e bytes encodes in
      let same : n ≡ m = ground (arith, here, there) in
      let f = frame_of codec e m payload in
      let marshalled = subst (λ k. codec.marshal k ≡ ok payload) same done in
      let encoded = subst (λ k. encode_frame (frame_of codec e k payload) ≡ ok bytes) same framed in
      let decoded =
        decode_frame-encode_frame f bytes (ground (arith, typed, encode_frame_lem f bytes encoded))
          encoded in
      (payload, marshalled, ap (decode_framed codec) decoded ∙ decode_framed_lem e m payload)
