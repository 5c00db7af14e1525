-- ===== src/DeathOutcome/Journal/Reading.antt =====
-- Reading one frame of the journal.
use astrahold_server.Common.{
  ℕ, ◌+◌, ◌≤◌, ◌<◌, ◌≡◌, refl, inr, true, false, some, List, [], ◌∷◌, arith, length, sym, ◌∙◌, ltb,
  ◌==◌,
}
use astrahold_server.Transport.Bytes.{
  ◌+++◌, put, number, slice, number-put, length-append, take-append, skip-append, append_assoc,
}
use astrahold_server.DeathOutcome.{Event, validate_journal_event}
use astrahold_server.DeathOutcome.Journal.Crc.{checksum, checksum-bounds}
use astrahold_server.DeathOutcome.Journal.Wire.{JsonCodec, decode_journal_record, max_payload}
use astrahold_server.DeathOutcome.Journal.File.{
  read_at, make_frame, read_record, read_body, read_record_at,
}

-- A durable record: its event, and the payload of its frame.
pub record Entry : Type 0 where
  pub event : Event
  pub payload : List ℕ

-- The payload is what Append wrote for the event under this id.
pub record IsCoded (json : JsonCodec) (id : ℕ) (x : Entry) : Type 0 where
  pub valid : validate_journal_event x.event ≡ true
  pub filled : 0 < length x.payload
  pub fits : length x.payload ≤ max_payload
  pub decodes : decode_journal_record json x.payload ≡ inr (id, x.event)

abbrev pub AreCoded : JsonCodec → ℕ → List Entry → Type 0
AreCoded json id [] = Unit
AreCoded json id (x ∷ xs) = IsCoded json id x × AreCoded json (id + 1) xs

unfoldable pub frames : List Entry → List ℕ
unfolding ◌+++◌ make_frame
frames [] = []
frames (x ∷ xs) = make_frame x.payload +++ frames xs

-- The offset behind the frame of a record that stands at an offset.
abbrev pub behind : ℕ → Entry → ℕ
behind offset x = offset + 4 + length x.payload + 4

pub length-put : (n : ℕ) → length (put 4 n) ≡ 4
unfolding put ◌+++◌
length-put n = refl

pub length-make_frame : (p : List ℕ) → length (make_frame p) ≡ 4 + length p + 4
unfolding make_frame
length-make_frame p = ground (
  arith,
  length-append (put 4 (length p)) (p +++ put 4 (checksum p)),
  length-append p (put 4 (checksum p)),
  length-put (length p),
  length-put (checksum p),
)

read_at-middle :
    (before x after : List ℕ)
    → read_at (before +++ (x +++ after)) (length before) (length x) ≡ some x
unfolding read_at slice
read_at-middle before x after =
    rw (skip-append before (x +++ after), take-append x after)
      (ground (arith, length-append before (x +++ after), length-append x after))

pub read_at_lem :
    (file before x after : List ℕ) (offset count : ℕ)
    → file ≡ before +++ (x +++ after)
    → offset ≡ length before
    → count ≡ length x
    → read_at file offset count ≡ some x
read_at_lem file before x after offset count f o c = rw (f, o, c) (read_at-middle before x after)

-- The three parts of a frame in a file.
frame_parts :
    (before p after : List ℕ)
    → before +++ (make_frame p +++ after)
      ≡ before +++ (put 4 (length p) +++ (p +++ (put 4 (checksum p) +++ after)))
unfolding make_frame
frame_parts before p after =
    rw
      (
        append_assoc (put 4 (length p)) (p +++ put 4 (checksum p)) after,
        append_assoc p (put 4 (checksum p)) after,
      )
      refl

pub equals_itself : (n : ℕ) → (n == n) ≡ true
equals_itself n = ground arith

module _ (json : JsonCodec) (id : ℕ) (x : Entry) (c : IsCoded json id x)
    (file before after : List ℕ) (stands : file ≡ before +++ (make_frame x.payload +++ after)) where
  abbrev pub head : List ℕ
  head = put 4 (length x.payload)

  abbrev mark : List ℕ
  mark = put 4 (checksum x.payload)

  in_parts : file ≡ before +++ (head +++ (x.payload +++ (mark +++ after)))
  in_parts = stands ∙ frame_parts before x.payload after

  behind_head : file ≡ (before +++ head) +++ (x.payload +++ (mark +++ after))
  behind_head = in_parts ∙ sym (append_assoc before head (x.payload +++ (mark +++ after)))

  length-before-head : length (before +++ head) ≡ length before + 4
  length-before-head = ground (arith, length-append before head, length-put (length x.payload))

  pub read_at-length : read_at file (length before) 4 ≡ some head
  read_at-length =
      read_at_lem file before head (x.payload +++ (mark +++ after)) (length before) 4 in_parts refl
        (sym (length-put (length x.payload)))

  read_at-payload : read_at file (length before + 4) (length x.payload) ≡ some x.payload
  read_at-payload =
      read_at_lem file (before +++ head) x.payload (mark +++ after) (length before + 4)
        (length x.payload) behind_head (sym length-before-head) refl

  behind_payload : file ≡ ((before +++ head) +++ x.payload) +++ (mark +++ after)
  behind_payload = behind_head ∙ sym (append_assoc (before +++ head) x.payload (mark +++ after))

  read_at-mark : read_at file (length before + 4 + length x.payload) 4 ≡ some mark
  read_at-mark =
      read_at_lem file ((before +++ head) +++ x.payload) mark after
        (length before + 4 + length x.payload) 4 behind_payload
        (ground (arith, length-before-head, length-append (before +++ head) x.payload))
        (sym (length-put (checksum x.payload)))

  pub number-head : number 0 head ≡ length x.payload
  number-head = number-put 4 (length x.payload) (ground (arith, c.fits))

  number-mark : number 0 mark ≡ checksum x.payload
  number-mark = number-put 4 (checksum x.payload) (ground (arith, checksum-bounds x.payload))

  read_record-entry :
      (next : ℕ)
      → read_record json file next x.payload mark
        ≡ inr (record { record_id = id; event = x.event; end_offset = next })
  unfolding read_record
  read_record-entry next = rw (number-mark, equals_itself (checksum x.payload), c.decodes) refl

  pub sized : ((length x.payload == 0) ≡ false) × (ltb max_payload (length x.payload) ≡ false)
  sized = ground (arith, c.filled, c.fits)

  read_body-entry :
      read_body json file (length before) (length x.payload)
      ≡ inr (record { record_id = id; event = x.event; end_offset = behind (length before) x })
  unfolding read_body
  read_body-entry =
      rw (sized.0, read_body, sized.1, read_at-payload, read_at-mark)
        (read_record-entry (behind (length before) x))

  -- The frame of a durable record reads as that record, whatever stands before and behind it.
  pub read_record_at-entry :
      read_record_at json file (length before)
      ≡ inr (record { record_id = id; event = x.event; end_offset = behind (length before) x })
  unfolding read_record_at
  read_record_at-entry = rw (read_at-length, read_record_at, number-head) read_body-entry
