-- ===== src/Examples/Journals.antt =====
-- Runs of the journal of death outcomes (internal/deathoutcome/journal.go), with codecs that know
-- one event.
use astrahold_server.Common.{
  ℕ, ◌≡◌, refl, ◌⊎◌, inr, true, false, Option, none, some, List, [], ◌∷◌, ◌++◌, arith, subst, pos,
  ℕ_discrete, Text-discrete,
}
use astrahold_server.Identity.{valid}
use astrahold_server.DeathOutcome.{
  Event, validate_event_body, valid_context, validate_journal_event, numbered,
}
use astrahold_server.DeathOutcome.Journal.Wire.{
  Error, JsonCodec, WireRecord, wire_record, encode_journal_record,
}
use astrahold_server.DeathOutcome.Journal.File.{Journal}
use astrahold_server.DeathOutcome.Journal.Open.{open_or_initialize, scan_existing}
use astrahold_server.DeathOutcome.Journal.Write.{
  append_open, append_encoded, write_frame, advance, with_tail, cut, append_journal, records_after,
  failed, Disk,
}
use astrahold_server.DeathOutcome.Journal.Reading.{Entry}
use astrahold_server.DeathOutcome.Journal.Recovery.{behind_all}
use astrahold_server.DeathOutcome.Journal.Opening.{Holds}
use astrahold_server.DeathOutcome.Journal.Termination.{scan_existing-ends}
use astrahold_server.DeathOutcome.Journal.Appending.{Appended}
use astrahold_server.DeathOutcome.Journal.Crash.{
  Attempt, append_all, Recovered, append_all-Recovered,
}
use astrahold_server.DeathOutcome.Journal.Following.{
  numbered as numbered_records, checkpoint_behind, records_after-numbered,
}
use astrahold_server.DeathOutcome.Journal.Fresh.{
  fresh, good_disk, open_or_initialize-fresh, append_journal-succeeds,
}
use astrahold_server.DeathOutcome.Journal.Clean.{with_record}
use astrahold_server.DeathOutcome.Journal.Checkpoints.{
  CheckpointCodec, SaveEnds, not_synced, save_checkpoint, wire_of_checkpoint, ReadsBackCheckpoint,
  load_checkpoint-save_checkpoint,
}
use astrahold_server.Examples.Deaths.{defeat}

abbrev death : Event
death = numbered defeat 1

-- A codec of records of that event.
abbrev decoded_record : List ℕ → Option WireRecord
decoded_record [] = none
decoded_record (id ∷ _) = some (wire_record id death)

abbrev death_codec : JsonCodec
death_codec = record { marshal = λ w. some (w.record_id ∷ []); unmarshal = decoded_record }

abbrev journal_id : List ℕ
journal_id = 7 ∷ 0 ∷ 0 ∷ 0 ∷ 0 ∷ 0 ∷ 0 ∷ 0 ∷ 0 ∷ 0 ∷ 0 ∷ 0 ∷ 0 ∷ 0 ∷ 0 ∷ 1 ∷ []

death-reads_back :
    (id : ℕ) (payload : List ℕ)
    → death_codec.marshal (wire_record id death) ≡ some payload
    → death_codec.unmarshal payload ≡ some (wire_record id death)
unfolding wire_record
death-reads_back id payload h =
    let e : id ∷ [] ≡ payload = ground (arith, h) in
    subst (λ p. decoded_record p ≡ some (wire_record id death)) e refl

death-valid : validate_journal_event death ≡ true
unfolding validate_journal_event validate_event_body valid_context valid Text-discrete ℕ_discrete
death-valid = refl

abbrev new_journal : Journal
new_journal = fresh journal_id

new_journal-Holds : Holds death_codec [] new_journal
new_journal-Holds = (open_or_initialize-fresh death_codec journal_id refl refl).1

-- An Append whose write fails in the middle of the frame, and one that succeeds.
abbrev torn_disk : Disk
torn_disk = record good_disk { writes = failed 3 }

abbrev attempts : List Attempt
attempts =
    record { event = death; disk = good_disk } ∷ record { event = death; disk = torn_disk } ∷ []

append_all-Recovered_example :
    Recovered death_codec [] (append_all death_codec new_journal attempts).1 (
      open_or_initialize death_codec true journal_id
        (append_all death_codec new_journal attempts).0.file)
append_all-Recovered_example =
    append_all-Recovered death_codec [] new_journal attempts journal_id new_journal-Holds
      (omega arith) (death-reads_back, (death-reads_back, tt))

encode-death : encode_journal_record death_codec 1 death ≡ inr (1 ∷ [])
unfolding encode_journal_record wire_record
encode-death = refl

Appended-one :
    Appended death_codec [] death (append_journal death_codec good_disk new_journal death)
Appended-one =
    append_journal-succeeds death_codec [] new_journal death (1 ∷ []) new_journal-Holds
      (death-reads_back 1) death-valid refl (omega arith) encode-death

append_journal-succeeds_example :
    Appended death_codec [] death (append_journal death_codec good_disk new_journal death)
append_journal-succeeds_example =
    append_journal-succeeds death_codec [] new_journal death (1 ∷ []) new_journal-Holds
      (death-reads_back 1) death-valid refl (omega arith) encode-death

abbrev one_journal : Journal
one_journal = (append_journal death_codec good_disk new_journal death).0

abbrev one_record : List Entry
one_record = with_record [] death Appended-one.payload

one_journal-Holds : Holds death_codec ([] ++ one_record) one_journal
one_journal-Holds = Appended-one.holds

one_journal-open : one_journal.closed ≡ false
unfolding append_journal append_open append_encoded encode_journal_record write_frame advance
    with_tail cut wire_record validate_journal_event validate_event_body valid_context valid
    Text-discrete ℕ_discrete
one_journal-open = refl

records_after-numbered_example :
    records_after death_codec one_journal (checkpoint_behind one_journal []) (pos 5)
    ≡ inr (numbered_records 1 1 51 one_record)
unfolding behind_all
records_after-numbered_example =
    records_after-numbered death_codec one_journal [] one_record one_journal-Holds (pos 5)
      one_journal-open (omega arith)

-- A codec of one checkpoint.
abbrev one_codec : CheckpointCodec
one_codec = record {
  marshal = λ w. some (1 ∷ []);
  unmarshal = λ bytes. some (wire_of_checkpoint (checkpoint_behind one_journal one_record));
}

one_codec-reads_back : ReadsBackCheckpoint one_codec (checkpoint_behind one_journal one_record)
one_codec-reads_back bytes m = refl

load_checkpoint-save_checkpoint_example :
    let next = checkpoint_behind one_journal one_record in
    SaveEnds one_codec none one_journal next (
      save_checkpoint one_codec not_synced none one_journal
        (record { record_id = 1; event = death; end_offset = next.offset }))
load_checkpoint-save_checkpoint_example =
    load_checkpoint-save_checkpoint death_codec one_codec not_synced none one_journal []
      (record { event = death; payload = Appended-one.payload }) [] one_journal-Holds
      one_journal-open one_codec-reads_back

scan_existing-ends_example :
    (r : Error ⊎ Journal) × (scan_existing death_codec false one_journal ≡ some r)
scan_existing-ends_example = scan_existing-ends death_codec false one_journal
