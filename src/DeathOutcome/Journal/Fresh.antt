-- ===== src/DeathOutcome/Journal/Fresh.antt =====
-- A new journal, and an Append whose calls of the file succeed.
use astrahold_server.Common.{
  ℕ, ◌+◌, ◌<◌, ◌≡◌, refl, ◌⊎◌, inl, inr, Bool, true, false, some, List, [], ◌==◌, leb,
  if◌then◌else◌, length, max_u64, add_u64, arith, sym, subst, Bool-cases,
}
use astrahold_server.Transport.Bytes.{◌+++◌}
use astrahold_server.DeathOutcome.{Event, validate_journal_event}
use astrahold_server.DeathOutcome.Journal.Wire.{
  JsonCodec, Error, ReadsBack, journal_closed, encode_journal_record,
}
use astrahold_server.DeathOutcome.Journal.File.{Journal, JournalRecord, header_size, id_size, magic}
use astrahold_server.DeathOutcome.Journal.Open.{open_or_initialize, opened, all_zero}
use astrahold_server.DeathOutcome.Journal.Write.{
  Disk, whole, append_encoded, append_open, append_journal, write_frame, advance, cut,
}
use astrahold_server.DeathOutcome.Journal.Reading.{Entry, frames}
use astrahold_server.DeathOutcome.Journal.Recovery.{behind_all}
use astrahold_server.DeathOutcome.Journal.Opening.{Holds, ends}
use astrahold_server.DeathOutcome.Journal.Reopening.{append_nothing}
use astrahold_server.DeathOutcome.Journal.Clean.{long_enough}
use astrahold_server.DeathOutcome.Journal.Appending.{Appended, append_journal-outcome}

abbrev pub fresh : List ℕ → Journal
fresh random = record (opened (magic +++ random) random) { end_offset = header_size }

-- OpenJournal of an empty file makes a journal that holds no record.
pub open_or_initialize-fresh :
    (json : JsonCodec) (random : List ℕ)
    → length random ≡ id_size
    → all_zero random ≡ false
    → (open_or_initialize json true random [] ≡ some (inr (fresh random)))
      × Holds json [] (fresh random)
unfolding open_or_initialize frames behind_all ends ◌+++◌
open_or_initialize-fresh json random sized nonzero = (
  refl,
  record {
    tail = [];
    in_flight = inl refl;
    identified = sized;
    nonzero = nonzero;
    contents = sym (append_nothing (magic +++ random));
    coded = tt;
    counted = refl;
    ended_at = refl;
    ended_each = refl;
  },
)

abbrev pub good_disk : Disk
good_disk = record { stats = true; truncates = true; writes = whole; syncs = true }

abbrev Answers : Journal × (Error ⊎ JournalRecord) → Type 0
Answers r = (a : JournalRecord) × (r.1 ≡ inr a)

append_encoded-Answers :
    (json : JsonCodec) (j : Journal) (e : Event) (payload : List ℕ)
    → encode_journal_record json (add_u64 j.last_record_id 1) e ≡ inr payload
    → Answers (append_encoded json good_disk j e)
unfolding append_encoded write_frame advance
append_encoded-Answers json j e payload h = rw (h, append_encoded) (_, refl)

append_open-Answers :
    (json : JsonCodec) (es : List Entry) (j : Journal) (e : Event) (payload : List ℕ)
    → Holds json es j
    → j.last_record_id < max_u64
    → encode_journal_record json (add_u64 j.last_record_id 1) e ≡ inr payload
    → Answers (append_open json good_disk j e)
unfolding append_open cut
append_open-Answers json es j e payload h n c =
    let room : (j.last_record_id == max_u64) ≡ false = ground (arith, n) in
    elim (Bool-cases (leb (length j.file) j.end_offset)) [
      | inl fits ↦
          rw (append_open, room, long_enough json es j h, fits)
            (append_encoded-Answers json j e payload c)
      | inr longer ↦
          rw (append_open, room, long_enough json es j h, longer)
            (append_encoded-Answers json (cut j) e payload c)
    ]

open-Answers :
    (r s : Journal × (Error ⊎ JournalRecord)) (closed : Bool)
    → closed ≡ false
    → Answers r
    → Answers (if closed then s else r)
open-Answers r s false o a = a
open-Answers r s true o a = ground (arith, o)

append_journal-Answers :
    (json : JsonCodec) (es : List Entry) (j : Journal) (e : Event) (payload : List ℕ)
    → Holds json es j
    → validate_journal_event e ≡ true
    → j.closed ≡ false
    → j.last_record_id < max_u64
    → encode_journal_record json (add_u64 j.last_record_id 1) e ≡ inr payload
    → Answers (append_journal json good_disk j e)
unfolding append_journal
append_journal-Answers json es j e payload h v o n c =
    rw (v, append_journal)
      (open-Answers (append_open json good_disk j e) (j, inl journal_closed) j.closed o
        (append_open-Answers json es j e payload h n c))

never_both :
    (r : Error ⊎ JournalRecord) (a : JournalRecord) (f : Error) {A : Type 0}
    → r ≡ inr a
    → r ≡ inl f
    → A
never_both r a f h k = ground (arith, h, k)

-- Append of a valid event to an open journal that has a record id left, where the codec writes the
-- event and the calls of the file succeed: it returns the next record, and the journal holds it.
pub append_journal-succeeds :
    (json : JsonCodec) (es : List Entry) (j : Journal) (e : Event) (payload : List ℕ)
    → Holds json es j
    → ReadsBack json (length es + 1) e
    → validate_journal_event e ≡ true
    → j.closed ≡ false
    → j.last_record_id < max_u64
    → encode_journal_record json (length es + 1) e ≡ inr payload
    → Appended json es e (append_journal json good_disk j e)
append_journal-succeeds json es j e payload h reads v o n c =
    let next : length es + 1 ≡ add_u64 j.last_record_id 1 = ground (arith, h.counted, n) in
    let a =
      append_journal-Answers json es j e payload h v o n
        (subst (λ k. encode_journal_record json k e ≡ inr payload) next c) in
    elim (append_journal-outcome json es good_disk j e h (omega (arith, n)) reads) [
      | inl appended ↦ appended
      | inr r ↦ never_both _ a.0 r.failure a.1 r.said
    ]
