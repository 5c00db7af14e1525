-- ===== src/DeathOutcome/Journal/Checkpoints.antt =====
-- CheckpointStore: the progress of the journal's consumer, in a file that Save replaces as a whole
-- (internal/deathoutcome/journal.go). encoding/json is a parameter.
use astrahold_server.Common.{
  ℕ, ◌+◌, ◌≡◌, refl, ◌⊎◌, inl, inr, false, Option, none, some, List, [], ◌∷◌, ◌++◌, ◌==◌, ◌||◌, not,
  if◌then◌else◌, ℤ, pos, negsuc, Text, is_empty, length, arith, Option-cases,
}
use astrahold_server.DeathOutcome.Journal.Wire.{JsonCodec, Error, io, corrupt_checkpoint}
use astrahold_server.DeathOutcome.Journal.File.{
  Journal, JournalRecord, Checkpoint, hex, header_size, id_size,
}
use astrahold_server.DeathOutcome.Journal.Write.{
  validate_checkpoint, checkpoint_for_record, initial_checkpoint,
}
use astrahold_server.DeathOutcome.Journal.Reading.{Entry}
use astrahold_server.DeathOutcome.Journal.Recovery.{behind_all}
use astrahold_server.DeathOutcome.Journal.Opening.{Holds, behind_all-grows}
use astrahold_server.DeathOutcome.Journal.Following.{
  checkpoint_behind, checkpoint_for_record-behind, validate_checkpoint-behind,
}

pub record CheckpointWire : Type 0 where
  pub schema_version : ℕ
  pub journal_id : Text
  pub record_id : ℕ
  pub offset : ℤ

-- json.Marshal, and a json.Decoder that disallows unknown fields and data after the value.
pub record CheckpointCodec : Type 0 where
  pub marshal : CheckpointWire → Option (List ℕ)
  pub unmarshal : List ℕ → Option CheckpointWire

abbrev pub wire_of_checkpoint : Checkpoint → CheckpointWire
wire_of_checkpoint c = record {
  schema_version = 1;
  journal_id = c.journal_id;
  record_id = c.record_id;
  offset = pos c.offset;
}

-- How Save ends: an error in front of the rename, an error behind it, or no error.
pub data Saving : Type 0 where
  not_renamed not_synced saved : Saving

-- The file of the store, none if it does not exist, and the answer.
unfoldable pub save_checkpoint :
    CheckpointCodec
    → Saving
    → Option (List ℕ)
    → Journal
    → JournalRecord
    → Option (List ℕ) × (Error ⊎ Checkpoint)
save_checkpoint json saving file j r = elim (checkpoint_for_record j r) [
  | inl failure ↦ (file, inl failure)
  | inr c ↦ elim (json.marshal (wire_of_checkpoint c)) [
    | none ↦ (file, inl io)
    | some data_bytes ↦ elim saving [
      | not_renamed ↦ (file, inl io)
      | not_synced ↦ (some (data_bytes ++ (10 ∷ [])), inl io)
      | saved ↦ (some (data_bytes ++ (10 ∷ [])), inr c)
    ]
  ]
]

-- Load past the decoder.
unfoldable pub accept_checkpoint : Journal → CheckpointWire → ℕ → Error ⊎ Checkpoint
accept_checkpoint j w offset =
    if not (w.schema_version == 1) || is_empty w.journal_id || offset == 0
    then inl corrupt_checkpoint
    else let c : Checkpoint = record {
      journal_id = w.journal_id;
      record_id = w.record_id;
      offset = offset;
    } in
      elim (validate_checkpoint j c) [ some failure ↦ inl failure | none ↦ inr c ]

abbrev positive_part : ℤ → ℕ
positive_part (pos n) = n
positive_part (negsuc _) = 0

unfoldable pub load_checkpoint : CheckpointCodec → Option (List ℕ) → Journal → Error ⊎ Checkpoint
unfolding accept_checkpoint
load_checkpoint json none j = inr (initial_checkpoint j)
load_checkpoint json (some bytes) j = elim (json.unmarshal bytes) [
  | none ↦ inl corrupt_checkpoint
  | some w ↦ accept_checkpoint j w (positive_part w.offset)
]

-- The codec reads back what it writes for this checkpoint, with the newline behind it.
abbrev pub ReadsBackCheckpoint : CheckpointCodec → Checkpoint → Type 0
ReadsBackCheckpoint json c =
    (bytes : List ℕ)
    → json.marshal (wire_of_checkpoint c) ≡ some bytes
    → json.unmarshal (bytes ++ (10 ∷ [])) ≡ some (wire_of_checkpoint c)

hex_filled : (id : List ℕ) → length id ≡ id_size → is_empty (hex id) ≡ false
unfolding hex
hex_filled [] e = ground (arith, e)
hex_filled (b ∷ id) e = refl

accept_checkpoint-behind :
    (json : JsonCodec) (j : Journal) (done rest : List Entry)
    → Holds json (done ++ rest) j
    → accept_checkpoint j
        (wire_of_checkpoint (checkpoint_behind j done))
        (behind_all header_size done)
      ≡ inr (checkpoint_behind j done)
unfolding accept_checkpoint
accept_checkpoint-behind json j done rest h =
    let positive : (behind_all header_size done == 0) ≡ false =
      ground (arith, behind_all-grows header_size done) in
    rw
      (
        hex_filled j.journal_id h.identified,
        accept_checkpoint,
        positive,
        validate_checkpoint-behind json j done rest h,
      )
      refl

-- How Save ends: it answers the checkpoint, which then loads; or it answers an error, and the file
-- loads as that checkpoint or is the one that it was.
abbrev pub SaveEnds :
    CheckpointCodec
    → Option (List ℕ)
    → Journal
    → Checkpoint
    → Option (List ℕ) × (Error ⊎ Checkpoint)
    → Type 0
SaveEnds codec file j next r =
    ((load_checkpoint codec r.0 j ≡ inr next) × (r.1 ≡ inr next))
    ⊎ ((f : Error) × (r.1 ≡ inl f) × ((load_checkpoint codec r.0 j ≡ inr next) ⊎ (r.0 ≡ file)))

load_written :
    (json : JsonCodec) (codec : CheckpointCodec) (j : Journal) (done rest : List Entry)
    (bytes : List ℕ)
    → Holds json (done ++ rest) j
    → codec.unmarshal bytes ≡ some (wire_of_checkpoint (checkpoint_behind j done))
    → load_checkpoint codec (some bytes) j ≡ inr (checkpoint_behind j done)
unfolding load_checkpoint
load_written json codec j done rest bytes h reads =
    rw (reads, load_checkpoint) (accept_checkpoint-behind json j done rest h)

save_checkpoint-ends :
    (codec : CheckpointCodec) (saving : Saving) (file : Option (List ℕ)) (j : Journal)
    (r : JournalRecord) (next : Checkpoint)
    → checkpoint_for_record j r ≡ inr next
    → ((bytes : List ℕ)
        → codec.marshal (wire_of_checkpoint next) ≡ some bytes
        → load_checkpoint codec (some (bytes ++ (10 ∷ []))) j ≡ inr next)
    → SaveEnds codec file j next (save_checkpoint codec saving file j r)
unfolding save_checkpoint
save_checkpoint-ends codec saving file j r next c loads =
    elim (Option-cases (codec.marshal (wire_of_checkpoint next))) [
      | inl failed ↦ rw (c, save_checkpoint, failed) (inr (io, refl, inr refl))
      | inr (bytes, m) ↦ rw (c, save_checkpoint, m) (by_saving saving bytes m)
    ]
  where
    by_saving :
        (s : Saving) (bytes : List ℕ)
        → codec.marshal (wire_of_checkpoint next) ≡ some bytes
        → SaveEnds codec file j next (elim s [
          | not_renamed ↦ (file, inl io)
          | not_synced ↦ (some (bytes ++ (10 ∷ [])), inl io)
          | saved ↦ (some (bytes ++ (10 ∷ [])), inr next)
        ])
    by_saving not_renamed bytes m = inr (io, refl, inr refl)
    by_saving not_synced bytes m = inr (io, refl, inl (loads bytes m))
    by_saving saved bytes m = inl (loads bytes m, refl)

-- Save of a record that RecordsAfter returned: if it answers a checkpoint, then the file loads as
-- the one behind that record; if it answers an error, then the file loads as that one too or is
-- the file that it was.
pub load_checkpoint-save_checkpoint :
    (json : JsonCodec) (codec : CheckpointCodec) (saving : Saving) (file : Option (List ℕ))
    (j : Journal) (done : List Entry) (x : Entry) (rest : List Entry)
    → Holds json ((done ++ (x ∷ [])) ++ rest) j
    → j.closed ≡ false
    → ReadsBackCheckpoint codec (checkpoint_behind j (done ++ (x ∷ [])))
    → let next = checkpoint_behind j (done ++ (x ∷ [])) in
      SaveEnds codec file j next (
        save_checkpoint codec saving file j
          (record { record_id = length done + 1; event = x.event; end_offset = next.offset }))
load_checkpoint-save_checkpoint json codec saving file j done x rest h opened reads =
    save_checkpoint-ends codec saving file j _ (checkpoint_behind j (done ++ (x ∷ [])))
      (checkpoint_for_record-behind json j done x rest h opened)
      (λ bytes m.
        load_written json codec j (done ++ (x ∷ [])) rest (bytes ++ (10 ∷ [])) h (reads bytes m))
