-- ===== src/DeathOutcome/Journal/Write.antt =====
-- Append, RecordsAfter, Close and the checkpoints.
use astrahold_server.Common.{
  entry, ℕ, zero, suc, ◌+◌, ◌-◌, ◌⊎◌, inl, inr, Bool, true, not, ◌&&◌, ◌||◌, Option, none, some,
  List, [], ◌∷◌, ◌++◌, ltb, leb, ◌==◌, ◌=?◌, if◌then◌else◌, ℤ, pos, negsuc, text_key, nat_key,
  length, max_u64, add_u64,
}
use astrahold_server.Transport.Bytes.{◌+++◌, take, skip}
use astrahold_server.DeathOutcome.{Event, validate_journal_event}
use astrahold_server.DeathOutcome.Journal.Wire.{
  JsonCodec, encode_journal_record, Error, corrupt_journal, journal_closed, record_overflow,
  invalid_event, io, short_write, checkpoint_journal_mismatch, checkpoint_ahead,
  checkpoint_offset_mismatch,
}
use astrahold_server.DeathOutcome.Journal.File.{
  Journal, JournalRecord, Checkpoint, header_size, hex, make_frame, read_record_at,
}

-- How WriteAt ends: whole, with an error behind some bytes, or short without an error.
pub data Written : Type 0 where
  whole : Written
  failed short : ℕ → Written

-- How the calls of the file end in Append: Stat, Truncate, WriteAt and Sync.
pub record Disk : Type 0 where
  pub stats : Bool
  pub truncates : Bool
  pub writes : Written
  pub syncs : Bool

unfoldable pub write_at : List ℕ → ℕ → List ℕ → List ℕ
unfolding ◌+++◌ take skip
write_at file offset bytes = take offset file +++ (bytes +++ skip (offset + length bytes) file)

-- The journal whose file was written behind the durable end.
unfoldable pub with_tail : Journal → List ℕ → Journal
unfolding write_at
with_tail j bytes = record j { file = write_at j.file j.end_offset bytes }

unfoldable pub advance : Journal → Event → ℕ → Journal × (Error ⊎ JournalRecord)
advance j e size =
    let end = j.end_offset + size in
    let id = add_u64 j.last_record_id 1 in
    (
      record j { last_record_id = id; end_offset = end; record_ends = j.record_ends ++ (end ∷ []) },
      inr (record { record_id = id; event = e; end_offset = end }),
    )

-- Append from WriteAt on.
unfoldable pub write_frame : Disk → Journal → Event → List ℕ → Journal × (Error ⊎ JournalRecord)
unfolding advance take with_tail
write_frame disk j e frame = elim disk.writes [
  | failed n ↦ (with_tail j (take n frame), inl io)
  | short n ↦ (with_tail j (take n frame), inl short_write)
  | whole ↦
      if disk.syncs
      then advance (with_tail j frame) e (length frame)
      else (with_tail j frame, inl io)
]

unfoldable pub append_encoded :
    JsonCodec → Disk → Journal → Event → Journal × (Error ⊎ JournalRecord)
unfolding write_frame
append_encoded json disk j e = elim (encode_journal_record json (add_u64 j.last_record_id 1) e) [
  | inl failure ↦ (j, inl failure)
  | inr payload ↦ write_frame disk j e (make_frame payload)
]

-- The file without the bytes behind the durable end.
unfoldable pub cut : Journal → Journal
unfolding take
cut j = record j { file = take j.end_offset j.file }

-- Append of a valid event to an open journal.
unfoldable pub append_open : JsonCodec → Disk → Journal → Event → Journal × (Error ⊎ JournalRecord)
unfolding append_encoded cut
append_open json disk j e =
    if j.last_record_id == max_u64
    then (j, inl record_overflow)
    else if not disk.stats
    then (j, inl io)
    else if ltb (length j.file) j.end_offset
    then (j, inl corrupt_journal)
    else if leb (length j.file) j.end_offset
    then append_encoded json disk j e
    else if disk.truncates
    then append_encoded json disk (cut j) e
    else (j, inl io)

unfoldable pub append_journal :
    JsonCodec → Disk → Journal → Event → Journal × (Error ⊎ JournalRecord)
unfolding append_open
append_journal json disk j e =
    if not (validate_journal_event e)
    then (j, inl invalid_event)
    else if j.closed
    then (j, inl journal_closed)
    else append_open json disk j e

-- recordEnds[RecordID-1] of a record id that is not 0.
abbrev pub end_of : Journal → ℕ → ℕ
end_of j id = entry 0 (id - 1) j.record_ends

unfoldable pub validate_checkpoint : Journal → Checkpoint → Option Error
validate_checkpoint j c =
    if not (c.journal_id =? hex j.journal_id)
    then some checkpoint_journal_mismatch
    else if ltb j.last_record_id c.record_id
    then some checkpoint_ahead
    else if c.offset == (if c.record_id == 0 then header_size else end_of j c.record_id)
    then none
    else some checkpoint_offset_mismatch

unfoldable pub checkpoint_for_record : Journal → JournalRecord → Error ⊎ Checkpoint
checkpoint_for_record j r =
    if j.closed
    then inl journal_closed
    else if r.record_id == 0 || ltb j.last_record_id r.record_id
    then inl checkpoint_ahead
    else if r.end_offset == end_of j r.record_id
    then inr (record {
      journal_id = hex j.journal_id;
      record_id = r.record_id;
      offset = end_of j r.record_id;
    })
    else inl checkpoint_offset_mismatch

unfoldable pub initial_checkpoint : Journal → Checkpoint
initial_checkpoint j = record { journal_id = hex j.journal_id; record_id = 0; offset = header_size }

-- The loop of RecordsAfter: so many records from an offset on.
unfoldable pub read_records : JsonCodec → Journal → ℕ → ℕ → ℕ → Error ⊎ List JournalRecord
read_records json j zero offset expected = inr []
read_records json j (suc count) offset expected = elim (read_record_at json j.file offset) [
  | inl failure ↦ inl failure
  | inr r ↦
      if not (r.record_id == expected)
      then inl corrupt_journal
      else elim (read_records json j count r.end_offset (add_u64 expected 1)) [
        | inl failure ↦ inl failure
        | inr rest ↦ inr (r ∷ rest)
      ]
]

-- The number of records that a limit leaves; a limit of 0 or less is none.
abbrev pub limited : ℤ → ℕ → ℕ
limited (negsuc _) count = count
limited (pos limit) count = if ltb 0 limit && ltb limit count then limit else count

unfoldable pub records_after : JsonCodec → Journal → Checkpoint → ℤ → Error ⊎ List JournalRecord
unfolding validate_checkpoint read_records
records_after json j c limit =
    if j.closed then inl journal_closed else elim (validate_checkpoint j c) [
      | some failure ↦ inl failure
      | none ↦
          if c.record_id == j.last_record_id
          then inr []
          else read_records json j (limited limit (j.last_record_id - c.record_id)) c.offset
              (add_u64 c.record_id 1)
    ]

unfoldable pub close : Journal → Journal
close j = record j { closed = true }
