-- ===== src/DeathOutcome/Journal/Appending.antt =====
-- Append on a journal that holds records, however the calls of its file end.
use astrahold_server.Common.{
  ℕ, ◌+◌, ◌≤◌, ◌<◌, ◌≡◌, refl, ◌⊎◌, inl, inr, Bool, true, false, List, [], ◌∷◌, ◌++◌, arith, length,
  max_u64, add_u64, subst, sym, ◌∙◌, ap, Bool-cases, Sum-cases, leb, ◌==◌, if◌then◌else◌,
}
use astrahold_server.Common.{length-append as size-append}
use astrahold_server.Transport.Bytes.{◌+++◌, take, append_assoc}
use astrahold_server.DeathOutcome.{Event, validate_journal_event}
use astrahold_server.DeathOutcome.Journal.Wire.{
  JsonCodec, Error, ReadsBack, encode_journal_record, decode_journal_record-encode_journal_record,
  io, short_write, journal_closed, record_overflow, invalid_event,
}
use astrahold_server.DeathOutcome.Journal.File.{
  Journal, JournalRecord, header_size, magic, make_frame,
}
use astrahold_server.DeathOutcome.Journal.Write.{
  Disk, Written, whole, failed, short, write_at, with_tail, advance, write_frame, append_encoded,
  cut, append_open, append_journal,
}
use astrahold_server.DeathOutcome.Journal.Reading.{
  Entry, IsCoded, frames, behind, length-make_frame,
}
use astrahold_server.DeathOutcome.Journal.Recovery.{behind_all}
use astrahold_server.DeathOutcome.Journal.Opening.{Holds}
use astrahold_server.DeathOutcome.Journal.Reopening.{append_nothing}
use astrahold_server.DeathOutcome.Journal.Clean.{
  with_record, frames-append, behind_all-append, ends-append, append-AreCoded, write_at-end,
  take_all, IsClean, cut-IsClean, short-IsClean, long_enough, end-length,
}

-- Append returned the record, which the journal now holds behind the others.
pub record Appended (json : JsonCodec) (es : List Entry) (e : Event)
    (r : Journal × (Error ⊎ JournalRecord)) : Type 0 where
  pub payload : List ℕ
  pub holds : Holds json (with_record es e payload) r.0
  pub said :
      r.1 ≡ inr (record { record_id = length es + 1; event = e; end_offset = r.0.end_offset })

-- Append returned an error, and the journal holds what it held.
pub record Refused (json : JsonCodec) (es : List Entry) (r : Journal × (Error ⊎ JournalRecord))
    : Type 0 where
  pub holds : Holds json es r.0
  pub failure : Error
  pub said : r.1 ≡ inl failure

Written-cases : (w : Written) → (w ≡ whole) ⊎ ((n : ℕ) × (w ≡ failed n)) ⊎ ((n : ℕ) × (w ≡ short n))
Written-cases whole = inl refl
Written-cases (failed n) = inr (inl (n, refl))
Written-cases (short n) = inr (inr (n, refl))

cut-room : (j : Journal) → j.last_record_id < max_u64 → (cut j).last_record_id < max_u64
unfolding cut
cut-room j h = h

pub one_more : (es : List Entry) → length es + 1 ≡ 1 + length es
one_more es = omega arith

pub length-with_record : (es : List Entry) (x : Entry) → length (es ++ (x ∷ [])) ≡ length es + 1
length-with_record es x = size-append es (x ∷ [])

module _ (json : JsonCodec) (es : List Entry) (j : Journal) (c : IsClean json es j) (e : Event)
    (payload : List ℕ)
    (coded : IsCoded json (length es + 1) (record { event = e; payload = payload })) where
  abbrev frame : List ℕ
  frame = make_frame payload

  with_tail-file :
      (bytes : List ℕ)
      → (with_tail j bytes).file ≡ (magic +++ j.journal_id) +++ (frames es +++ bytes)
  unfolding with_tail
  with_tail-file bytes =
      ap (λ n. write_at j.file n bytes) (end-length json es j c.holds ∙ ap length (sym c.clean))
      ∙ (write_at-end j.file bytes
          ∙ (ap (λ f. f +++ bytes) c.clean
              ∙ append_assoc (magic +++ j.journal_id) (frames es) bytes))

  -- Some bytes of the frame were written.
  with_tail-Holds :
      (n : ℕ) (bytes : List ℕ) → bytes ≡ take n frame → Holds json es (with_tail j bytes)
  unfolding with_tail
  with_tail-Holds n bytes b = record {
    tail = bytes;
    in_flight = inr (record { event = e; payload = payload }, n, coded, b);
    identified = c.holds.identified;
    nonzero = c.holds.nonzero;
    contents = with_tail-file bytes;
    coded = c.holds.coded;
    counted = c.holds.counted;
    ended_at = c.holds.ended_at;
    ended_each = c.holds.ended_each;
  }

  abbrev x : Entry
  x = record { event = e; payload = payload }

  with_frame : frames es +++ frame ≡ frames (with_record es e payload) +++ []
  with_frame = sym (append_nothing (frames (with_record es e payload)) ∙ frames-append es x)

  next_end : j.end_offset + length frame ≡ behind (behind_all header_size es) x
  next_end = ground (arith, length-make_frame payload, c.holds.ended_at)

  next_count : j.last_record_id < max_u64 → add_u64 j.last_record_id 1 ≡ length es + 1
  next_count room = ground (arith, room, c.holds.counted)

  advance-Appended :
      j.last_record_id < max_u64 → Appended json es e (advance (with_tail j frame) e (length frame))
  unfolding advance with_tail
  advance-Appended room = record {
    payload = payload;
    holds = record {
      tail = [];
      in_flight = inl refl;
      identified = c.holds.identified;
      nonzero = c.holds.nonzero;
      contents = with_tail-file frame ∙ ap (λ b. (magic +++ j.journal_id) +++ b) with_frame;
      coded =
          append-AreCoded json 1 es x c.holds.coded
            (subst (λ n. IsCoded json n x) (one_more es) coded);
      counted = next_count room ∙ sym (length-with_record es x);
      ended_at = next_end ∙ sym (behind_all-append header_size es x);
      ended_each = rw (c.holds.ended_each, next_end) (sym (ends-append header_size es x));
    };
    said = rw (next_count room) refl;
  }

  write_frame-outcome :
      (disk : Disk)
      → j.last_record_id < max_u64
      → Appended json es e (write_frame disk j e frame)
        ⊎ Refused json es (write_frame disk j e frame)
  unfolding write_frame
  write_frame-outcome disk room = elim (Written-cases disk.writes) [
    | inl w ↦ elim (Bool-cases disk.syncs) [
      | inl synced ↦ inl (rw (w, write_frame, synced) (advance-Appended room))
      | inr lost ↦ inr (
          rw (w, write_frame, lost)
            (record {
              holds = with_tail-Holds (length frame) frame (sym (take_all frame));
              failure = io;
              said = refl;
            }))
    ]
    | inr (inl (n, w)) ↦ inr (
        rw (w, write_frame)
          (record { holds = with_tail-Holds n (take n frame) refl; failure = io; said = refl }))
    | inr (inr (n, w)) ↦ inr (
        rw (w, write_frame)
          (record {
            holds = with_tail-Holds n (take n frame) refl;
            failure = short_write;
            said = refl;
          }))
  ]

-- The file and the codec, and then every early return.
module _ (json : JsonCodec) (es : List Entry) (e : Event) (valid : validate_journal_event e ≡ true)
    (reads : ReadsBack json (length es + 1) e) where
  coded :
      (j : Journal)
      → IsClean json es j
      → j.last_record_id < max_u64
      → (payload : List ℕ) → encode_journal_record json (add_u64 j.last_record_id 1) e ≡ inr payload
      → IsCoded json (length es + 1) (record { event = e; payload = payload })
  coded j c room payload good =
      let d =
        decode_journal_record-encode_journal_record json (length es + 1) e payload reads
          (ground arith) valid
          (subst (λ n. encode_journal_record json n e ≡ inr payload)
            (ground (arith, room, c.holds.counted)) good) in
      record { valid = valid; filled = d.0; fits = d.1; decodes = d.2 }

  append_encoded-outcome :
      (disk : Disk) (j : Journal)
      → IsClean json es j
      → j.last_record_id < max_u64
      → Appended json es e (append_encoded json disk j e)
        ⊎ Refused json es (append_encoded json disk j e)
  unfolding append_encoded
  append_encoded-outcome disk j c room =
      elim (Sum-cases (encode_journal_record json (add_u64 j.last_record_id 1) e)) [
        | inl (f, bad) ↦
            inr (rw (bad, append_encoded) (record { holds = c.holds; failure = f; said = refl }))
        | inr (payload, good) ↦
            rw (good, append_encoded)
              (write_frame-outcome json es j c e payload (coded j c room payload good) disk room)
      ]

  -- An Append that does not write.
  refused : (j : Journal) (f : Error) → Holds json es j → Refused json es (j, inl f)
  refused j f h = record { holds = h; failure = f; said = refl }

  append_open-outcome :
      (disk : Disk) (j : Journal)
      → Holds json es j
      → j.last_record_id ≤ max_u64
      → Appended json es e (append_open json disk j e) ⊎ Refused json es (append_open json disk j e)
  unfolding append_open
  append_open-outcome disk j h bound = elim (Bool-cases (j.last_record_id == max_u64)) [
    | inl over ↦ inr (rw (append_open, over) (refused j record_overflow h))
    | inr room ↦ elim (Bool-cases disk.stats) [
      | inr unknown ↦ inr (rw (append_open, room, unknown) (refused j io h))
      | inl known ↦ elim (Bool-cases (leb (length j.file) j.end_offset)) [
        | inl fits ↦
            rw (append_open, room, known, long_enough json es j h, fits)
              (append_encoded-outcome disk j (short-IsClean json es j h (ground (arith, fits)))
                (ground (arith, room, bound)))
        | inr longer ↦ elim (Bool-cases disk.truncates) [
          | inr kept ↦ inr (
              rw (append_open, room, known, long_enough json es j h, longer, kept) (refused j io h))
          | inl shortened ↦
              rw (append_open, room, known, long_enough json es j h, longer, shortened)
                (append_encoded-outcome disk (cut j) (cut-IsClean json es j h)
                  (cut-room j (ground (arith, room, bound))))
        ]
      ]
    ]
  ]

  -- An open journal, or a closed one.
  closed-outcome :
      (r : Journal × (Error ⊎ JournalRecord)) (closed : Bool) (j : Journal)
      → Holds json es j
      → Appended json es e r ⊎ Refused json es r
      → let s = if closed then (j, inl journal_closed) else r in
        Appended json es e s ⊎ Refused json es s
  closed-outcome r true j h o = inr (refused j journal_closed h)
  closed-outcome r false j h o = o

-- Append on a journal that holds records: it returns the next record, which the journal then holds
-- behind the others, or an error, and the journal holds what it held.
pub append_journal-outcome :
    (json : JsonCodec) (es : List Entry) (disk : Disk) (j : Journal) (e : Event)
    → Holds json es j
    → j.last_record_id ≤ max_u64
    → ReadsBack json (length es + 1) e
    → Appended json es e (append_journal json disk j e)
      ⊎ Refused json es (append_journal json disk j e)
unfolding append_journal
append_journal-outcome json es disk j e h bound reads =
    elim (Bool-cases (validate_journal_event e)) [
      | inl valid ↦
          rw (valid, append_journal)
            (closed-outcome json es e valid reads (append_open json disk j e) j.closed j h
              (append_open-outcome json es e valid reads disk j h bound))
      | inr bad ↦
          inr
            (rw (bad, append_journal) (record { holds = h; failure = invalid_event; said = refl }))
    ]
