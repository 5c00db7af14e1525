-- ===== src/DeathOutcome/Journal/Torn.antt =====
-- The end of the scan: the end of the file, or a frame that was not written to its end.
use astrahold_server.Common.{
  ℕ, zero, suc, ◌+◌, ◌-◌, ◌≤◌, ◌<◌, ◌≡◌, refl, inl, inr, true, false, some, List, [], ◌∷◌, arith,
  length, sym, ◌∙◌, ap, Bool-cases, ltb, ◌==◌,
}
use astrahold_server.Transport.Bytes.{◌+++◌, put, number, take, number-put, length-append}
use astrahold_server.DeathOutcome.Journal.Crc.{checksum}
use astrahold_server.DeathOutcome.Journal.Wire.{JsonCodec, max_payload}
use astrahold_server.DeathOutcome.Journal.File.{Journal, read_at, make_frame}
use astrahold_server.DeathOutcome.Journal.Open.{stop, repair_torn_tail, scan_frame, scan_step}
use astrahold_server.DeathOutcome.Journal.Reading.{read_at_lem, length-make_frame, length-put}

-- The first `count` bytes of a frame, at least one and not all.
pub record IsTorn (tail : List ℕ) : Type 0 where
  pub payload : List ℕ
  pub count : ℕ
  pub filled : 0 < length payload
  pub fits : length payload ≤ max_payload
  pub begun : 0 < count
  pub unfinished : count < 4 + length payload + 4
  pub bytes : tail ≡ take count (make_frame payload)

length-take : (n : ℕ) (xs : List ℕ) → n ≤ length xs → length (take n xs) ≡ n
unfolding take
length-take zero xs h = refl
length-take (suc n) [] h = ground (arith, h)
length-take (suc n) (x ∷ xs) h = rw (length-take n xs (ground (arith, h))) refl

pub length-torn : (tail : List ℕ) (t : IsTorn tail) → length tail ≡ t.count
length-torn tail t =
    ap length t.bytes
    ∙ length-take t.count (make_frame t.payload)
        (ground (arith, length-make_frame t.payload, t.unfinished))

take_past_length :
    (m : ℕ) (p : List ℕ)
    → take (suc (suc (suc (suc m)))) (make_frame p)
      ≡ put 4 (length p) +++ take m (p +++ put 4 (checksum p))
unfolding take make_frame put ◌+++◌
take_past_length m p = refl

take_long :
    (n : ℕ) (p : List ℕ)
    → 4 ≤ n
    → take n (make_frame p) ≡ put 4 (length p) +++ take (n - 4) (p +++ put 4 (checksum p))
take_long (suc (suc (suc (suc m)))) p h =
    let left : suc (suc (suc (suc m))) - 4 ≡ m = omega arith in rw (left) (take_past_length m p)
take_long (suc (suc (suc zero))) p h = ground (arith, h)
take_long (suc (suc zero)) p h = ground (arith, h)
take_long (suc zero) p h = ground (arith, h)
take_long zero p h = ground (arith, h)

-- The journal that repairTornTail leaves.
unfoldable pub repaired : Journal → ℕ → Journal
unfolding take
repaired j offset = record j {
  file = take offset j.file;
  end_offset = offset;
  repaired_tail = true;
}

module _ (json : JsonCodec) (j : Journal) (before tail : List ℕ) (t : IsTorn tail)
    (stands : j.file ≡ before +++ tail) (expected : ℕ) where
  length-file : length j.file ≡ length before + t.count
  length-file = ground (arith, ap length stands, length-append before tail, length-torn tail t)

  tests :
      ((length t.payload == 0) ≡ false)
      × (ltb max_payload (length t.payload) ≡ false)
      × (ltb (length j.file) (length before + 4 + length t.payload + 4) ≡ true)
  tests = ground (arith, length-file, t.filled, t.fits, t.unfinished)

  scan_frame-torn :
      scan_frame json true j (length before) expected (length t.payload)
      ≡ stop (inr (repaired j (length before)))
  unfolding scan_frame repair_torn_tail repaired
  scan_frame-torn = rw (tests.0, scan_frame, tests.1, tests.2) refl

  scan_step-short :
      ltb (length j.file - length before) 4 ≡ true
      → scan_step json true j (length before) expected ≡ stop (inr (repaired j (length before)))
  unfolding scan_step repair_torn_tail repaired
  scan_step-short short = rw (short, scan_step) refl

  number-length : number 0 (put 4 (length t.payload)) ≡ length t.payload
  number-length = number-put 4 (length t.payload) (ground (arith, t.fits))

  read_at-length :
      ltb (length j.file - length before) 4 ≡ false
      → read_at j.file (length before) 4 ≡ some (put 4 (length t.payload))
  read_at-length long =
      read_at_lem j.file before (put 4 (length t.payload))
        (take (t.count - 4) (t.payload +++ put 4 (checksum t.payload))) (length before) 4
        (stands
          ∙ ap (λ b. before +++ b)
              (t.bytes ∙ take_long t.count t.payload (ground (arith, length-file, long))))
        refl (sym (length-put (length t.payload)))

  -- The loop cuts off a torn tail.
  pub scan_step-torn :
      scan_step json true j (length before) expected ≡ stop (inr (repaired j (length before)))
  unfolding scan_step
  scan_step-torn = elim (Bool-cases (ltb (length j.file - length before) 4)) [
    | inl short ↦ scan_step-short short
    | inr long ↦ rw (long, scan_step, read_at-length long, number-length) scan_frame-torn
  ]
