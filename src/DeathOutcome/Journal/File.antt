-- ===== src/DeathOutcome/Journal/File.antt =====
-- The journal's file, its frames, and the reading of one record.
use astrahold_server.Common.{
  ℕ, ◌+◌, ◌-◌, ◌/◌, ◌%◌, ◌⊎◌, inl, inr, Bool, ◌||◌, Option, none, some, List, [], ◌∷◌, ltb, leb,
  ◌==◌, if◌then◌else◌, Text, text_key, nat_key, codes, length,
}
use astrahold_server.Transport.Bytes.{◌+++◌, put, number, slice}
use astrahold_server.DeathOutcome.{Event}
use astrahold_server.DeathOutcome.Journal.Crc.{checksum}
use astrahold_server.DeathOutcome.Journal.Wire.{
  JsonCodec, decode_journal_record, Error, max_payload, corrupt_journal, io,
}

abbrev pub magic : List ℕ
magic = codes "ASTRAHOLD-DEATH-OUTCOME-JOURNAL-V1\n"

abbrev pub id_size : ℕ
id_size = 16

-- journalHeaderSize()
abbrev pub header_size : ℕ
header_size = 51

pub record JournalRecord : Type 0 where
  pub record_id : ℕ
  pub event : Event
  pub end_offset : ℕ

pub record Checkpoint : Type 0 where
  pub journal_id : Text
  pub record_id : ℕ
  pub offset : ℕ

-- The file stands for its bytes.
pub record Journal : Type 0 where
  pub file : List ℕ
  pub journal_id : List ℕ
  pub last_record_id : ℕ
  pub end_offset : ℕ
  pub record_ends : List ℕ
  pub repaired_tail : Bool
  pub closed : Bool

abbrev hex_digit : ℕ → ℕ
hex_digit n = if ltb n 10 then b'0' + n else b'a' + (n - 10)

-- hex.EncodeToString
unfoldable pub hex : List ℕ → Text
hex [] = []
hex (b ∷ bs) = hex_digit (b / 16) ∷ hex_digit (b % 16) ∷ hex bs

-- ReadAt of a whole buffer: an error at the end of the file.
unfoldable pub read_at : List ℕ → ℕ → ℕ → Option (List ℕ)
unfolding slice
read_at file offset count =
    if leb (offset + count) (length file) then some (slice offset count file) else none

unfoldable pub make_frame : List ℕ → List ℕ
unfolding ◌+++◌ put
make_frame payload = put 4 (length payload) +++ (payload +++ put 4 (checksum payload))

unfoldable pub read_record : JsonCodec → List ℕ → ℕ → List ℕ → List ℕ → Error ⊎ JournalRecord
read_record json file next payload crc_bytes =
    if number 0 crc_bytes == checksum payload
    then elim (decode_journal_record json payload) [
      | inl e ↦ inl e
      | inr (id, event) ↦ inr (record { record_id = id; event = event; end_offset = next })
    ]
    else inl corrupt_journal

-- The payload and the checksum behind a length.
unfoldable pub read_body : JsonCodec → List ℕ → ℕ → ℕ → Error ⊎ JournalRecord
unfolding read_at read_record
read_body json file offset count =
    if count == 0 || ltb max_payload count
    then inl corrupt_journal
    else elim (read_at file (offset + 4) count) [
      | none ↦ inl io
      | some payload ↦ elim (read_at file (offset + 4 + count) 4) [
        | none ↦ inl io
        | some crc_bytes ↦ read_record json file (offset + 4 + count + 4) payload crc_bytes
      ]
    ]

-- readRecordAtLocked; the offset behind the record is its end_offset.
unfoldable pub read_record_at : JsonCodec → List ℕ → ℕ → Error ⊎ JournalRecord
unfolding read_at number
read_record_at json file offset = elim (read_at file offset 4) [
  | none ↦ inl io
  | some length_bytes ↦ read_body json file offset (number 0 length_bytes)
]
