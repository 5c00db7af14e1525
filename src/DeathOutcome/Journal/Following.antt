-- ===== src/DeathOutcome/Journal/Following.antt =====
-- A consumer that follows the journal from its checkpoints.
use astrahold_server.Common.{
  ℕ, zero, suc, ◌+◌, ◌-◌, ◌≤◌, ◌<◌, ◌≡◌, refl, inl, inr, true, false, none, List, [], ◌∷◌, ◌++◌,
  arith, length, max_u64, add_u64, subst, sym, ◌∙◌, ap, ltb, ◌==◌, =?-refl, text_key, if◌then◌else◌,
  entry, List-cases, ℤ, pos, negsuc,
}
use astrahold_server.Common.{length-append as size-append}
use astrahold_server.Transport.Bytes.{◌+++◌, length-append, append_assoc}
use astrahold_server.DeathOutcome.Journal.Wire.{JsonCodec}
use astrahold_server.DeathOutcome.Journal.File.{
  Journal, JournalRecord, Checkpoint, hex, read_record_at, header_size, magic, make_frame,
}
use astrahold_server.DeathOutcome.Journal.Write.{
  end_of, validate_checkpoint, checkpoint_for_record, read_records, limited, records_after,
}
use astrahold_server.DeathOutcome.Journal.Reading.{
  Entry, AreCoded, frames, behind, read_record_at-entry, equals_itself,
}
use astrahold_server.DeathOutcome.Journal.Recovery.{behind_all, frames_first, behind-length}
use astrahold_server.DeathOutcome.Journal.Opening.{Holds, ends, behind_all-length}

-- At most `count` of the records, numbered from an id on and standing from an offset on.
unfoldable pub numbered : ℕ → ℕ → ℕ → List Entry → List JournalRecord
numbered zero id offset xs = []
numbered (suc count) id offset [] = []
numbered (suc count) id offset (x ∷ xs) =
    record { record_id = id; event = x.event; end_offset = behind offset x }
    ∷ numbered count (id + 1) (behind offset x) xs

read_records-numbered :
    (json : JsonCodec) (j : Journal) (count : ℕ) (rest : List Entry) (before tail : List ℕ)
    (offset expected : ℕ)
    → AreCoded json expected rest
    → j.file ≡ before +++ (frames rest +++ tail)
    → offset ≡ length before
    → count ≤ length rest
    → expected + length rest ≤ max_u64
    → read_records json j count offset expected ≡ inr (numbered count expected offset rest)
unfolding read_records numbered
read_records-numbered json j zero rest before tail offset expected c f o n b = refl
read_records-numbered json j (suc count) [] before tail offset expected c f o n b =
    ground (arith, n)
read_records-numbered json j (suc count) (x ∷ xs) before tail offset expected c f o n b =
    let s = frames_first before tail x xs in
    let next : add_u64 expected 1 ≡ expected + 1 = ground (arith, b) in
    let later =
      read_records-numbered json j count xs (before +++ make_frame x.payload) tail (behind offset x)
        (expected + 1) c.1 (f ∙ s.1) (behind-length before offset x o) (ground (arith, n))
        (ground (arith, b)) in
    let reads : read_record_at json j.file offset
        ≡ inr (record { record_id = expected; event = x.event; end_offset = behind offset x }) =
      rw (o)
        (read_record_at-entry json expected x c.0 j.file before (frames xs +++ tail) (f ∙ s.0)) in
    rw (reads, read_records, equals_itself expected, next, later) refl

frames-split : (xs ys : List Entry) → frames (xs ++ ys) ≡ frames xs +++ frames ys
unfolding frames ◌+++◌
frames-split [] ys = refl
frames-split (x ∷ xs) ys =
    rw (frames-split xs ys) (sym (append_assoc (make_frame x.payload) (frames xs) (frames ys)))

AreCoded-split :
    (json : JsonCodec) (id : ℕ) (xs ys : List Entry)
    → AreCoded json id (xs ++ ys)
    → AreCoded json (id + length xs) ys
AreCoded-split json id [] ys c = subst (λ n. AreCoded json n ys) (ground arith) c
AreCoded-split json id (x ∷ xs) ys c =
    subst (λ n. AreCoded json n ys) (ground arith) (AreCoded-split json (id + 1) xs ys c.1)

limited-bounds : (limit : ℤ) (n : ℕ) → limited limit n ≤ n
limited-bounds (pos m) n = ground arith
limited-bounds (negsuc m) n = omega arith

numbered_none : (count id offset : ℕ) → numbered count id offset [] ≡ []
unfolding numbered
numbered_none zero id offset = refl
numbered_none (suc count) id offset = refl

entry-suc : (n x : ℕ) (xs : List ℕ) → entry 0 (suc n) (x ∷ xs) ≡ entry 0 n xs
entry-suc n x xs =
    let positive : (suc n == 0) ≡ false = ground arith in
    let before : suc n - 1 ≡ n = omega arith in rw (positive, before) refl

-- The end of the last of some records.
entry-ends :
    (offset : ℕ) (x : Entry) (xs ys : List Entry)
    → entry 0 (length xs) (ends offset ((x ∷ xs) ++ ys)) ≡ behind_all offset (x ∷ xs)
unfolding ends behind_all
entry-ends offset x [] ys = refl
entry-ends offset x (y ∷ xs) ys =
    entry-suc (length xs) (behind offset x) (ends (behind offset x) ((y ∷ xs) ++ ys))
    ∙ entry-ends (behind offset x) y xs ys

offset_at :
    (done rest : List Entry) (at : List ℕ)
    → at ≡ ends header_size (done ++ rest)
    → (if length done == 0 then header_size else entry 0 (length done - 1) at)
      ≡ behind_all header_size done
unfolding behind_all
offset_at [] rest at e = refl
offset_at (x ∷ xs) rest at e =
    let positive : (suc (length xs) == 0) ≡ false = ground arith in
    let before : suc (length xs) - 1 ≡ length xs = omega arith in
    rw (positive, before, e) (entry-ends header_size x xs rest)

-- The checkpoint behind the records `done`.
abbrev pub checkpoint_behind : Journal → List Entry → Checkpoint
checkpoint_behind j done = record {
  journal_id = hex j.journal_id;
  record_id = length done;
  offset = behind_all header_size done;
}

module _ (json : JsonCodec) (j : Journal) (done rest : List Entry)
    (h : Holds json (done ++ rest) j) where
  last-id : j.last_record_id ≡ length done + length rest
  last-id = h.counted ∙ size-append done rest

  rest_stands : j.file ≡ ((magic +++ j.journal_id) +++ frames done) +++ (frames rest +++ h.tail)
  rest_stands =
      h.contents
      ∙ (ap (λ b. (magic +++ j.journal_id) +++ (b +++ h.tail)) (frames-split done rest)
          ∙ (ap (λ b. (magic +++ j.journal_id) +++ b)
                (append_assoc (frames done) (frames rest) h.tail)
              ∙ sym (append_assoc (magic +++ j.journal_id) (frames done) (frames rest +++ h.tail))))

  rest_offset : behind_all header_size done ≡ length ((magic +++ j.journal_id) +++ frames done)
  rest_offset =
      behind_all-length (magic +++ j.journal_id) header_size done
        (ground (arith, length-append magic j.journal_id, h.identified))

  pub validate_checkpoint-behind : validate_checkpoint j (checkpoint_behind j done) ≡ none
  unfolding validate_checkpoint
  validate_checkpoint-behind =
      let ahead : ltb j.last_record_id (length done) ≡ false = ground (arith, last-id) in
      rw
        (
          =?-refl (hex j.journal_id),
          validate_checkpoint,
          ahead,
          offset_at done rest j.record_ends h.ended_each,
          equals_itself (behind_all header_size done),
        )
        refl

  following :
      (limit : ℤ)
      → length (done ++ rest) < max_u64
      → (if length done == length done + length rest
          then inr []
          else read_records json j
              (limited limit (length done + length rest - length done))
              (behind_all header_size done)
              (add_u64 (length done) 1))
        ≡ inr (
            numbered
              (limited limit (length rest))
              (length done + 1)
              (behind_all header_size done)
              rest)
  following limit few = elim (List-cases rest) [
    | inl none_left ↦
        let at_the_end : (length done == length done + length rest) ≡ true =
          ground (arith, ap length none_left) in
        rw
          (
            at_the_end,
            none_left,
            numbered_none (limited limit 0) (length done + 1) (behind_all header_size done),
          )
          refl
    | inr (x, xs, some_left) ↦
        let behind_them : (length done == length done + length rest) ≡ false =
          ground (arith, ap length some_left) in
        let left : length done + length rest - length done ≡ length rest = omega arith in
        let next : add_u64 (length done) 1 ≡ length done + 1 =
          ground (arith, few, size-append done rest) in
        rw (behind_them, left, next)
          (read_records-numbered json j (limited limit (length rest)) rest
            ((magic +++ j.journal_id) +++ frames done) h.tail (behind_all header_size done)
            (length done + 1)
            (subst (λ n. AreCoded json n rest) (ground arith)
              (AreCoded-split json 1 done rest h.coded))
            rest_stands rest_offset (limited-bounds limit (length rest))
            (ground (arith, few, size-append done rest)))
  ]

  -- RecordsAfter of the checkpoint behind some records: the records that follow, as many as the
  -- limit leaves.
  pub records_after-numbered :
      (limit : ℤ)
      → j.closed ≡ false
      → length (done ++ rest) < max_u64
      → records_after json j (checkpoint_behind j done) limit
        ≡ inr (
            numbered
              (limited limit (length rest))
              (length done + 1)
              (behind_all header_size done)
              rest)
  unfolding records_after
  records_after-numbered limit opened few =
      rw (opened, records_after, validate_checkpoint-behind, last-id) (following limit few)

-- The checkpoint of the record `x` that RecordsAfter returned behind `done`.
pub checkpoint_for_record-behind :
    (json : JsonCodec) (j : Journal) (done : List Entry) (x : Entry) (rest : List Entry)
    → Holds json ((done ++ (x ∷ [])) ++ rest) j
    → j.closed ≡ false
    → checkpoint_for_record j (record {
      record_id = length done + 1;
      event = x.event;
      end_offset = behind_all header_size (done ++ (x ∷ []));
    })
      ≡ inr (checkpoint_behind j (done ++ (x ∷ [])))
unfolding checkpoint_for_record
checkpoint_for_record-behind json j done x rest h opened =
    let n : length (done ++ (x ∷ [])) ≡ length done + 1 = size-append done (x ∷ []) in
    let not_first : (length (done ++ (x ∷ [])) == 0) ≡ false = ground (arith, n) in
    let point = offset_at (done ++ (x ∷ [])) rest j.record_ends h.ended_each in
    let positive : (length done + 1 == 0) ≡ false = ground arith in
    let inside : ltb j.last_record_id (length done + 1) ≡ false =
      ground (arith, h.counted, n, size-append (done ++ (x ∷ [])) rest) in
    let end : end_of j (length done + 1) ≡ behind_all header_size (done ++ (x ∷ [])) =
      rw⁻¹ n (rw (not_first) at point) in
    rw
      (
        opened,
        checkpoint_for_record,
        positive,
        inside,
        end,
        equals_itself (behind_all header_size (done ++ (x ∷ []))),
        n,
      )
      refl
