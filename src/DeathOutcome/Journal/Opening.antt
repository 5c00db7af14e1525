-- ===== src/DeathOutcome/Journal/Opening.antt =====
-- The journal as a list of durable records: what OpenJournal makes of a file that a crash left.
use astrahold_server.Common.{
  ℕ, suc, ◌+◌, ◌-◌, ◌≤◌, ◌<◌, ◌≡◌, refl, ◌⊎◌, inr, true, false, some, List, [], ◌∷◌, ◌++◌, arith,
  length, max_u64, sym, ◌∙◌, ap, ltb, text_key, append-nil,
}
use astrahold_server.Transport.Bytes.{◌+++◌, take, length-append, append_assoc}
use astrahold_server.DeathOutcome.Journal.Wire.{JsonCodec}
use astrahold_server.DeathOutcome.Journal.File.{Journal, make_frame, header_size, id_size, magic}
use astrahold_server.DeathOutcome.Journal.Open.{
  stop, scan_step, scan_loop, scan_existing, opened, ended, all_zero,
}
use astrahold_server.DeathOutcome.Journal.Reading.{Entry, IsCoded, AreCoded, frames, behind}
use astrahold_server.DeathOutcome.Journal.Recovery.{
  recovered, passed, behind_all, passes, scan_loop-frames, behind-length,
}
use astrahold_server.DeathOutcome.Journal.Torn.{IsTorn, repaired, scan_step-torn, length-torn}

-- The offsets behind the records that stand from an offset on.
unfoldable pub ends : ℕ → List Entry → List ℕ
ends offset [] = []
ends offset (x ∷ xs) = behind offset x ∷ ends (behind offset x) xs

-- Bytes of the frame whose Append has not returned, or has failed.
abbrev pub InFlight : JsonCodec → ℕ → List ℕ → Type 0
InFlight json id tail =
    (tail ≡ [])
    ⊎ ((x : Entry) × (n : ℕ) × IsCoded json id x × (tail ≡ take n (make_frame x.payload)))

-- The journal holds the records, in order and numbered from 1; what stands behind them in its file
-- is not durable.
pub record Holds (json : JsonCodec) (es : List Entry) (j : Journal) : Type 0 where
  pub tail : List ℕ
  pub in_flight : InFlight json (length es + 1) tail
  pub identified : length j.journal_id ≡ id_size
  pub nonzero : all_zero j.journal_id ≡ false
  pub contents : j.file ≡ (magic +++ j.journal_id) +++ (frames es +++ tail)
  pub coded : AreCoded json 1 es
  pub counted : j.last_record_id ≡ length es
  pub ended_at : j.end_offset ≡ behind_all header_size es
  pub ended_each : j.record_ends ≡ ends header_size es

append_one : (xs : List ℕ) (x : ℕ) (ys : List ℕ) → (xs ++ (x ∷ [])) ++ ys ≡ xs ++ (x ∷ ys)
append_one [] x ys = refl
append_one (y ∷ xs) x ys = rw (append_one xs x ys) refl

pub recovered-keeps :
    (offset : ℕ) (j : Journal) (es : List Entry)
    → ((recovered offset j es).file ≡ j.file)
      × ((recovered offset j es).journal_id ≡ j.journal_id)
      × ((recovered offset j es).repaired_tail ≡ j.repaired_tail)
      × ((recovered offset j es).last_record_id ≡ j.last_record_id + length es)
      × ((recovered offset j es).record_ends ≡ j.record_ends ++ ends offset es)
unfolding recovered ends
recovered-keeps offset j [] = (refl, refl, refl, omega arith, sym (append-nil j.record_ends))
recovered-keeps offset j (x ∷ xs) =
    let r = recovered-keeps (behind offset x) (passed offset j x) xs in
    (
      r.0,
      r.1,
      r.2,
      ground (arith, r.3),
      r.4 ∙ append_one j.record_ends (behind offset x) (ends (behind offset x) xs),
    )

pub behind_all-grows : (offset : ℕ) (es : List Entry) → offset + length es ≤ behind_all offset es
unfolding behind_all
behind_all-grows offset [] = omega arith
behind_all-grows offset (x ∷ xs) = ground (arith, behind_all-grows (behind offset x) xs)

recovered-end :
    (offset : ℕ) (j : Journal) (es : List Entry)
    → j.end_offset ≡ offset
    → (recovered offset j es).end_offset ≡ behind_all offset es
unfolding recovered behind_all
recovered-end offset j [] h = h
recovered-end offset j (x ∷ xs) h = recovered-end (behind offset x) (passed offset j x) xs refl

pub ended-recovered :
    (j : Journal) (es : List Entry)
    → j.end_offset ≡ 0
    → (ended (recovered header_size j es)).end_offset ≡ behind_all header_size es
unfolding recovered behind_all
ended-recovered j [] h = ground (arith, h)
ended-recovered j (x ∷ xs) h = ground (
  arith,
  recovered-end (behind header_size x) (passed header_size j x) xs refl,
  behind_all-grows (behind header_size x) xs,
)

pub behind_all-length :
    (before : List ℕ) (offset : ℕ) (es : List Entry)
    → offset ≡ length before
    → behind_all offset es ≡ length (before +++ frames es)
unfolding behind_all frames
behind_all-length before offset [] o = ground (arith, o, length-append before [])
behind_all-length before offset (x ∷ xs) o =
    behind_all-length (before +++ make_frame x.payload) (behind offset x) xs
      (behind-length before offset x o)
    ∙ ap length (append_assoc before (make_frame x.payload) (frames xs))

passes-length : (es : List Entry) (rest : ℕ) → passes es rest ≡ length es + rest
unfolding passes
passes-length [] rest = omega arith
passes-length (x ∷ xs) rest = ground (arith, passes-length xs rest)

-- A file of a header, the frames of durable records and a tail.
abbrev pub file_of : List ℕ → List Entry → List ℕ → List ℕ
file_of id es tail = (magic +++ id) +++ (frames es +++ tail)

abbrev pub IsTail : List ℕ → Type 0
IsTail tail = (tail ≡ []) ⊎ IsTorn tail

module _ (json : JsonCodec) (id : List ℕ) (es : List Entry) (tail : List ℕ)
    (sized : length id ≡ id_size) (coded : AreCoded json 1 es) (few : length es < max_u64) where
  abbrev pub file : List ℕ
  file = file_of id es tail

  abbrev pub scanned : Journal
  scanned = recovered header_size (opened file id) es

  pub length-header : length (magic +++ id) ≡ header_size
  length-header = ground (arith, length-append magic id, sized)

  pub length-file : length file ≡ behind_all header_size es + length tail
  length-file = ground (
    arith,
    behind_all-length (magic +++ id) header_size es (sym length-header),
    ap length (append_assoc (magic +++ id) (frames es) tail),
    length-append ((magic +++ id) +++ frames es) tail,
  )

  spare : ℕ
  spare = length file - length es - 1

  enough : length file ≡ passes es (suc spare)
  unfolding spare
  enough = ground (
    arith,
    passes-length es (suc (length file - length es - 1)),
    length-file,
    behind_all-grows header_size es,
  )

  -- The scan stands behind the last record, with a pass left.
  scan_existing-scanned :
      scan_existing json true (opened file id)
      ≡ scan_loop (suc spare) json true scanned (behind_all header_size es) (1 + length es)
  unfolding scan_existing
  scan_existing-scanned =
      ap (λ n. scan_loop n json true (opened file id) header_size 1) enough
      ∙ scan_loop-frames json true es (opened file id) (magic +++ id) tail header_size 1 (suc spare)
          coded refl (sym length-header) refl (ground (arith, few))

  length-scanned : length scanned.file ≡ behind_all header_size es + length tail
  length-scanned =
      ground (arith, ap length ((recovered-keeps header_size (opened file id) es).0), length-file)

  pub scan_existing-whole :
      tail ≡ [] → scan_existing json true (opened file id) ≡ some (inr (ended scanned))
  unfolding scan_loop
  scan_existing-whole whole =
      let out : ltb (behind_all header_size es) (length scanned.file) ≡ false =
        ground (arith, length-scanned, whole) in
      scan_existing-scanned ∙ rw (out, scan_loop) refl

  pub scanned-file : scanned.file ≡ ((magic +++ id) +++ frames es) +++ tail
  scanned-file =
      (recovered-keeps header_size (opened file id) es).0
      ∙ sym (append_assoc (magic +++ id) (frames es) tail)

  pub at_end : behind_all header_size es ≡ length ((magic +++ id) +++ frames es)
  at_end = behind_all-length (magic +++ id) header_size es (sym length-header)

  pub scan_existing-torn :
      IsTorn tail
      → scan_existing json true (opened file id)
        ≡ some (inr (repaired scanned (behind_all header_size es)))
  unfolding scan_loop
  scan_existing-torn t =
      let inside : ltb (behind_all header_size es) (length scanned.file) ≡ true =
        ground (arith, length-scanned, length-torn tail t, t.begun) in
      let cuts : scan_step json true scanned (behind_all header_size es) (1 + length es)
          ≡ stop (inr (repaired scanned (behind_all header_size es))) =
        rw (at_end) (
          scan_step-torn json scanned ((magic +++ id) +++ frames es) tail t scanned-file
            (1 + length es)) in
      scan_existing-scanned ∙ rw (inside, scan_loop, cuts) refl
