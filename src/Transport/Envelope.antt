-- ===== src/Transport/Envelope.antt =====
-- Envelopes: a message with its delivery, sequence and tick (internal/transport/codec.go). The
-- message type and the codec are parameters.
use astrahold_server.Common.{
  ℕ, zero, suc, ◌+◌, ◌-◌, not, Option, none, some, List, [], ◌∷◌, ltb, ◌==◌, if◌then◌else◌, length,
}
use astrahold_server.Transport.Bytes.{◌+++◌, take, skip}
use astrahold_server.Transport.{
  Frame, Error, Result, ok, err, nil_message, invalid_message_type, invalid_delivery,
  payload_too_large, valid_delivery, message_unknown, max_payload_size, header_size, header,
  encode_frame, decode_frame,
}

-- AppendMarshal returns the slice, also with an error; a codec need not have it.
pub record Codec (Message : Type 0) : Type 0 where
  pub message_type : Message → ℕ
  pub marshal : Message → Result (List ℕ)
  pub append_marshal : Option (List ℕ → Message → List ℕ × Option Error)
  pub unmarshal : ℕ → List ℕ → Result Message

-- A nil message is `none`.
pub record Envelope (Message : Type 0) : Type 0 where
  pub delivery : ℕ
  pub sequence : ℕ
  pub server_tick : ℕ
  pub message : Option Message

module _ {Message : Type 0} (codec : Codec Message) where
  abbrev pub frame_of : Envelope Message → Message → List ℕ → Frame
  frame_of e m payload = record {
    message_type = codec.message_type m;
    delivery = e.delivery;
    flags = 0;
    sequence = e.sequence;
    server_tick = e.server_tick;
    payload = payload;
  }

  unfoldable pub encode_marshalled : Envelope Message → Message → Result (List ℕ) → Result (List ℕ)
  encode_marshalled e m (err error) = err error
  encode_marshalled e m (ok payload) = encode_frame (frame_of e m payload)

  unfoldable pub encode_message : Envelope Message → Option Message → Result (List ℕ)
  unfolding encode_marshalled
  encode_message e none = err nil_message
  encode_message e (some m) = encode_marshalled e m (codec.marshal m)

  unfoldable pub encode_envelope : Envelope Message → Result (List ℕ)
  unfolding encode_message
  encode_envelope e = encode_message e e.message

  unfoldable pub zeros : ℕ → List ℕ
  zeros zero = []
  zeros (suc n) = 0 ∷ zeros n

  -- The payload after the reserved header: the slice and the error.
  unfoldable pub marshal_onto : List ℕ → Result (List ℕ) → List ℕ × Option Error
  marshal_onto dst (err error) = (dst, some error)
  marshal_onto dst (ok payload) = (dst +++ payload, none)

  unfoldable pub append_payload :
      List ℕ → Message → Option (List ℕ → Message → List ℕ × Option Error) → List ℕ × Option Error
  unfolding marshal_onto
  append_payload dst m none = marshal_onto dst (codec.marshal m)
  append_payload dst m (some append) = append dst m

  -- The last part of AppendEncodeEnvelope: what stands before the frame, the slice after the
  -- payload, and the header written over its reserved bytes.
  unfoldable pub finish :
      Envelope Message → Message → ℕ → List ℕ × Option Error → List ℕ × Option Error
  finish e m start (dst, some error) = (take start dst, some error)
  finish e m start (dst, none) =
      let size = length dst - (start + header_size) in
      if ltb max_payload_size size then (take start dst, some payload_too_large) else (
        take start dst +++ (header (frame_of e m []) size +++ skip (start + header_size) dst),
        none,
      )

  unfoldable pub append_message : List ℕ → Envelope Message → Option Message → List ℕ × Option Error
  unfolding zeros append_payload finish
  append_message dst e none = (dst, some nil_message)
  append_message dst e (some m) =
      if codec.message_type m == message_unknown
      then (dst, some invalid_message_type)
      else if not (valid_delivery e.delivery)
      then (dst, some invalid_delivery)
      else finish e m (length dst)
          (append_payload (dst +++ zeros header_size) m codec.append_marshal)

  unfoldable pub append_encode_envelope : List ℕ → Envelope Message → List ℕ × Option Error
  unfolding append_message
  append_encode_envelope dst e = append_message dst e e.message

  unfoldable pub decode_unmarshalled : Frame → Result Message → Result (Envelope Message)
  decode_unmarshalled f (err error) = err error
  decode_unmarshalled f (ok m) = ok (record {
    delivery = f.delivery;
    sequence = f.sequence;
    server_tick = f.server_tick;
    message = some m;
  })

  unfoldable pub decode_framed : Result Frame → Result (Envelope Message)
  unfolding decode_unmarshalled
  decode_framed (err error) = err error
  decode_framed (ok f) = decode_unmarshalled f (codec.unmarshal f.message_type f.payload)

  unfoldable pub decode_envelope : List ℕ → Result (Envelope Message)
  unfolding decode_framed
  decode_envelope bytes = decode_framed (decode_frame bytes)
