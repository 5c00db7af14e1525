-- ===== src/Examples/Envelopes.antt =====
-- Runs of the envelopes (internal/transport/codec.go).
use astrahold_server.Common.{ℕ, ◌≡◌, refl, ap, Option, none, some, List, [], ◌∷◌, arith}
use astrahold_server.Transport.Bytes.{◌+++◌}
use astrahold_server.Transport.{Error, Result, ok, err, nil_message, header, encode_frame}
use astrahold_server.Transport.Envelope.{
  Codec, Envelope, frame_of, encode_envelope, append_encode_envelope, decode_envelope,
}
use astrahold_server.Transport.Appending.{
  Appends, with_message, append_encode_envelope-encode_envelope, decode_envelope-encode_envelope,
}

abbrev first_byte : List ℕ → Result ℕ
first_byte [] = err nil_message
first_byte (b ∷ _) = ok b

-- Messages of one byte.
abbrev byte_codec : Codec ℕ
byte_codec = record {
  message_type = λ m. 10;
  marshal = λ m. ok (m ∷ []);
  append_marshal = some (λ dst m. (dst +++ (m ∷ []), none));
  unmarshal = λ kind bytes. first_byte bytes;
}

abbrev greeting : Envelope ℕ
greeting = record { delivery = 1; sequence = 7; server_tick = 300; message = some 42 }

abbrev greeting_bytes : List ℕ
greeting_bytes = header (frame_of byte_codec greeting 42 (42 ∷ [])) 1 +++ (42 ∷ [])

greeting_encodes : encode_envelope byte_codec greeting ≡ ok greeting_bytes
unfolding encode_envelope encode_frame
greeting_encodes = refl

abbrev appended : Option (List ℕ → ℕ → List ℕ × Option Error) → List ℕ → ℕ → List ℕ × Option Error
appended none dst m = (dst, none)
appended (some append) dst m = append dst m

byte_codec-Appends : Appends byte_codec
byte_codec-Appends append here dst m =
    let same = ap (λ o. appended o dst m) here in
    (λ payload e. ground (arith, same), λ error e. ground arith)

append_encode_envelope-encode_envelope_example :
    append_encode_envelope byte_codec (1 ∷ 2 ∷ []) greeting
    ≡ ((1 ∷ 2 ∷ []) +++ greeting_bytes, none)
append_encode_envelope-encode_envelope_example =
    append_encode_envelope-encode_envelope byte_codec greeting greeting_bytes (1 ∷ 2 ∷ [])
      byte_codec-Appends greeting_encodes

decode_envelope-encode_envelope_example :
    (payload : List ℕ) × (byte_codec.marshal 42 ≡ ok payload)
    × (decode_envelope byte_codec greeting_bytes
        ≡ with_message byte_codec greeting (byte_codec.unmarshal 10 payload))
decode_envelope-encode_envelope_example =
    decode_envelope-encode_envelope byte_codec greeting 42 greeting_bytes refl
      (omega arith, omega arith, omega arith, omega arith) greeting_encodes
