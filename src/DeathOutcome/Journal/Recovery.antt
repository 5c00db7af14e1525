-- ===== src/DeathOutcome/Journal/Recovery.antt =====
-- What OpenJournal finds in a file: the records of its frames, and a torn tail that it cuts off.
use astrahold_server.Common.{
  ℕ, suc, ◌+◌, ◌-◌, ◌<◌, ◌≡◌, refl, Bool, true, false, List, [], ◌∷◌, ◌++◌, arith, length, max_u64,
  add_u64, subst, sym, ◌∙◌, ap, ltb,
}
use astrahold_server.Transport.Bytes.{◌+++◌, length-append, append_assoc}
use astrahold_server.DeathOutcome.Journal.Wire.{JsonCodec}
use astrahold_server.DeathOutcome.Journal.File.{Journal, make_frame}
use astrahold_server.DeathOutcome.Journal.Open.{more, scan_record, scan_frame, scan_step, scan_loop}
use astrahold_server.DeathOutcome.Journal.Reading.{
  Entry, IsCoded, AreCoded, frames, behind, equals_itself, length-make_frame, read_at-length,
  number-head, sized, read_record_at-entry,
}

-- The journal behind one more record.
abbrev pub passed : ℕ → Journal → Entry → Journal
passed offset j x = record j {
  record_ends = j.record_ends ++ (behind offset x ∷ []);
  last_record_id = j.last_record_id + 1;
  end_offset = behind offset x;
}

unfoldable pub recovered : ℕ → Journal → List Entry → Journal
recovered offset j [] = j
recovered offset j (x ∷ xs) = recovered (behind offset x) (passed offset j x) xs

unfoldable pub behind_all : ℕ → List Entry → ℕ
behind_all offset [] = offset
behind_all offset (x ∷ xs) = behind_all (behind offset x) xs

-- One pass of the loop for each record, and `rest` more.
unfoldable pub passes : List Entry → ℕ → ℕ
passes [] rest = rest
passes (x ∷ xs) rest = suc (passes xs rest)

module _ (json : JsonCodec) (writable : Bool) (j : Journal) (x : Entry) (before after : List ℕ)
    (c : IsCoded json (j.last_record_id + 1) x)
    (stands : j.file ≡ before +++ (make_frame x.payload +++ after)) where
  scan_record-entry :
      scan_record json j (length before) (j.last_record_id + 1) (behind (length before) x)
      ≡ more (passed (length before) j x) (behind (length before) x)
  unfolding scan_record
  scan_record-entry =
      rw
        (
          read_record_at-entry json (j.last_record_id + 1) x c j.file before after stands,
          scan_record,
          equals_itself (behind (length before) x),
          equals_itself (j.last_record_id + 1),
        )
        refl

  length-file : length j.file ≡ behind (length before) x + length after
  length-file = ground (
    arith,
    ap length stands,
    length-append before (make_frame x.payload +++ after),
    length-append (make_frame x.payload) after,
    length-make_frame x.payload,
  )

  inside :
      (ltb (length j.file) (behind (length before) x) ≡ false)
      × (ltb (length j.file - length before) 4 ≡ false)
      × (ltb (length before) (length j.file) ≡ true)
  inside = ground (arith, length-file)

  scan_frame-entry :
      scan_frame json writable j (length before) (j.last_record_id + 1) (length x.payload)
      ≡ more (passed (length before) j x) (behind (length before) x)
  unfolding scan_frame
  scan_frame-entry =
      let s = sized json (j.last_record_id + 1) x c j.file before after stands in
      rw (s.0, scan_frame, s.1, inside.0) scan_record-entry

  scan_step-entry :
      scan_step json writable j (length before) (j.last_record_id + 1)
      ≡ more (passed (length before) j x) (behind (length before) x)
  unfolding scan_step
  scan_step-entry =
      rw
        (
          inside.1,
          scan_step,
          read_at-length json (j.last_record_id + 1) x c j.file before after stands,
          number-head json (j.last_record_id + 1) x c j.file before after stands,
        )
        scan_frame-entry

  scan_loop-entry :
      (fuel : ℕ)
      → scan_loop (suc fuel) json writable j (length before) (j.last_record_id + 1)
        ≡ scan_loop fuel json writable
            (passed (length before) j x)
            (behind (length before) x)
            (add_u64 (j.last_record_id + 1) 1)
  unfolding scan_loop
  scan_loop-entry fuel = rw (inside.2, scan_loop, scan_step-entry) refl

plus_zero : (n : ℕ) → n ≡ n + 0
plus_zero n = omega arith

scan_loop-step :
    (json : JsonCodec) (writable : Bool) (j : Journal) (x : Entry) (before after : List ℕ)
    (offset expected fuel : ℕ)
    → IsCoded json expected x
    → j.file ≡ before +++ (make_frame x.payload +++ after)
    → offset ≡ length before
    → expected ≡ j.last_record_id + 1
    → scan_loop (suc fuel) json writable j offset expected
      ≡ scan_loop fuel json writable (passed offset j x) (behind offset x) (add_u64 expected 1)
scan_loop-step json writable j x before after offset expected fuel c f o e =
    rw (o, e)
      (scan_loop-entry json writable j x before after (subst (λ n. IsCoded json n x) e c) f fuel)

pub frames_first :
    (before tail : List ℕ) (x : Entry) (xs : List Entry)
    → (before +++ (frames (x ∷ xs) +++ tail)
        ≡ before +++ (make_frame x.payload +++ (frames xs +++ tail)))
      × (before +++ (frames (x ∷ xs) +++ tail)
          ≡ (before +++ make_frame x.payload) +++ (frames xs +++ tail))
unfolding frames
frames_first before tail x xs =
    let first = append_assoc (make_frame x.payload) (frames xs) tail in
    (
      rw (first) refl,
      rw (first) (sym (append_assoc before (make_frame x.payload) (frames xs +++ tail))),
    )

pub behind-length :
    (before : List ℕ) (offset : ℕ) (x : Entry)
    → offset ≡ length before
    → behind offset x ≡ length (before +++ make_frame x.payload)
behind-length before offset x o =
    ground (arith, o, length-append before (make_frame x.payload), length-make_frame x.payload)

-- The loop passes through the frames of durable records.
pub scan_loop-frames :
    (json : JsonCodec) (writable : Bool) (es : List Entry) (j : Journal) (before tail : List ℕ)
    (offset expected rest : ℕ)
    → AreCoded json expected es
    → j.file ≡ before +++ (frames es +++ tail)
    → offset ≡ length before
    → expected ≡ j.last_record_id + 1
    → j.last_record_id + length es < max_u64
    → scan_loop (passes es rest) json writable j offset expected
      ≡ scan_loop rest json writable
          (recovered offset j es)
          (behind_all offset es)
          (expected + length es)
unfolding passes recovered behind_all
scan_loop-frames json writable [] j before tail offset expected rest c f o e b =
    ap (λ n. scan_loop rest json writable j offset n) (plus_zero expected)
scan_loop-frames json writable (x ∷ xs) j before tail offset expected rest c f o e b =
    let s = frames_first before tail x xs in
    let next : expected + 1 ≡ add_u64 expected 1 = ground (arith, e, b) in
    scan_loop-step json writable j x before (frames xs +++ tail) offset expected (passes xs rest)
      c.0 (f ∙ s.0) o e
    ∙ (scan_loop-frames json writable xs (passed offset j x) (before +++ make_frame x.payload) tail
          (behind offset x) (add_u64 expected 1) rest (subst (λ n. AreCoded json n xs) next c.1)
          (f ∙ s.1) (behind-length before offset x o) (ground (arith, e, b)) (ground (arith, b))
        ∙ ap
            (λ n.
              scan_loop rest json writable (recovered (behind offset x) (passed offset j x) xs)
                (behind_all (behind offset x) xs) n)
            (ground (arith, e, b)))
