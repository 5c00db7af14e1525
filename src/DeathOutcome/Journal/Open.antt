-- ===== src/DeathOutcome/Journal/Open.antt =====
-- OpenJournal: a new file, or the scan of an existing one with the repair of a torn tail.
use astrahold_server.Common.{
  ℕ, zero, suc, ◌+◌, ◌-◌, ◌⊎◌, inl, inr, Bool, true, false, not, ◌&&◌, ◌||◌, Option, none, some,
  List, [], ◌∷◌, ◌++◌, ltb, ◌==◌, ◌=?◌, if◌then◌else◌, text_key, nat_key, is_empty, length, add_u64,
}
use astrahold_server.Transport.Bytes.{◌+++◌, number, take, slice}
use astrahold_server.DeathOutcome.Journal.Wire.{JsonCodec, Error, max_payload, corrupt_journal, io}
use astrahold_server.DeathOutcome.Journal.File.{
  Journal, magic, id_size, header_size, read_at, read_record_at,
}

-- The loop of scanExisting leaves the loop, or goes on behind one more record.
pub data Pass : Type 0 where
  stop : Error ⊎ Journal → Pass
  more : Journal → ℕ → Pass

-- The truncation and the sync of a torn tail may fail.
unfoldable pub repair_torn_tail : Bool → Journal → ℕ → Error ⊎ Journal
unfolding take
repair_torn_tail writable j offset =
    if writable
    then inr (record j { file = take offset j.file; end_offset = offset; repaired_tail = true })
    else inl io

unfoldable pub scan_record : JsonCodec → Journal → ℕ → ℕ → ℕ → Pass
scan_record json j offset expected frame_end = elim (read_record_at json j.file offset) [
  | inl e ↦ stop (inl e)
  | inr r ↦
      if r.end_offset == frame_end && r.record_id == expected
      then more
          (record j {
            record_ends = j.record_ends ++ (r.end_offset ∷ []);
            last_record_id = r.record_id;
            end_offset = r.end_offset;
          })
          r.end_offset
      else stop (inl corrupt_journal)
]

unfoldable pub scan_frame : JsonCodec → Bool → Journal → ℕ → ℕ → ℕ → Pass
scan_frame json writable j offset expected count =
    if count == 0 || ltb max_payload count
    then stop (inl corrupt_journal)
    else if ltb (length j.file) (offset + 4 + count + 4)
    then stop (repair_torn_tail writable j offset)
    else scan_record json j offset expected (offset + 4 + count + 4)

-- One pass of the loop, at an offset in front of the end of the file.
unfoldable pub scan_step : JsonCodec → Bool → Journal → ℕ → ℕ → Pass
unfolding read_at number
scan_step json writable j offset expected =
    if ltb (length j.file - offset) 4
    then stop (repair_torn_tail writable j offset)
    else elim (read_at j.file offset 4) [
      | none ↦ stop (inl io)
      | some length_bytes ↦ scan_frame json writable j offset expected (number 0 length_bytes)
    ]

-- Behind the loop of a journal that had nothing to read.
abbrev pub ended : Journal → Journal
ended j = if j.end_offset == 0 then record j { end_offset = header_size } else j

-- The loop, which may run `fuel` times; none if that is not enough.
unfoldable pub scan_loop : ℕ → JsonCodec → Bool → Journal → ℕ → ℕ → Option (Error ⊎ Journal)
scan_loop zero json writable j offset expected =
    if ltb offset (length j.file) then none else some (inr (ended j))
scan_loop (suc fuel) json writable j offset expected =
    if ltb offset (length j.file)
    then elim (scan_step json writable j offset expected) [
      | stop r ↦ some r
      | more j' next ↦ scan_loop fuel json writable j' next (add_u64 expected 1)
    ]
    else some (inr (ended j))

-- The loop runs at most once for each byte of the file.
unfoldable pub scan_existing : JsonCodec → Bool → Journal → Option (Error ⊎ Journal)
unfolding scan_loop
scan_existing json writable j = scan_loop (length j.file) json writable j header_size 1

abbrev pub opened : List ℕ → List ℕ → Journal
opened file id = record {
  file = file;
  journal_id = id;
  last_record_id = 0;
  end_offset = 0;
  record_ends = [];
  repaired_tail = false;
  closed = false;
}

abbrev pub all_zero : List ℕ → Bool
all_zero [] = true
all_zero (b ∷ bs) = b == 0 && all_zero bs

abbrev pub id_of : List ℕ → List ℕ
id_of file = slice 35 id_size file

-- openOrInitialize of a file that holds `file`: the random id, and whether writes succeed.
unfoldable pub open_or_initialize : JsonCodec → Bool → List ℕ → List ℕ → Option (Error ⊎ Journal)
unfolding take ◌+++◌
open_or_initialize json writable random file =
    if is_empty file
    then if writable
      then some (inr (record (opened (magic +++ random) random) { end_offset = header_size }))
      else some (inl io)
    else if ltb (length file) header_size
    then some (inl corrupt_journal)
    else if not (take 35 file =? magic) || all_zero (id_of file)
    then some (inl corrupt_journal)
    else scan_existing json writable (opened file (id_of file))
