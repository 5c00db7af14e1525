-- ===== src/DeathOutcome/Journal/Termination.antt =====
-- The loop of scanExisting ends, whatever the file holds.
use astrahold_server.Common.{
  ℕ, zero, suc, ◌+◌, ◌-◌, ◌≤◌, ◌≡◌, refl, ◌⊎◌, inl, inr, Bool, false, ◌&&◌, ◌||◌, some, arith,
  length, add_u64, subst, ap, Bool-cases, Sum-cases, Option-cases, ltb, ◌==◌,
}
use astrahold_server.DeathOutcome.Journal.Wire.{JsonCodec, Error, max_payload}
use astrahold_server.DeathOutcome.Journal.File.{Journal, header_size, read_at, read_record_at}
use astrahold_server.DeathOutcome.Journal.Open.{
  Pass, stop, more, scan_record, scan_frame, scan_step, scan_loop, scan_existing, ended,
}
use astrahold_server.Transport.Bytes.{number}

-- A pass leaves the loop, or leaves the file and moves on by a length and a checksum at least.
abbrev MovesOn : Journal → ℕ → Pass → Type 0
MovesOn j offset (stop _) = Unit
MovesOn j offset (more j' next) = (j'.file ≡ j.file) × (offset + 8 ≤ next)

scan_record-MovesOn :
    (json : JsonCodec) (j : Journal) (offset expected frame_end : ℕ)
    → offset + 8 ≤ frame_end
    → MovesOn j offset (scan_record json j offset expected frame_end)
unfolding scan_record
scan_record-MovesOn json j offset expected frame_end h =
    elim (Sum-cases (read_record_at json j.file offset)) [
      | inl (e, failed) ↦ rw (failed, scan_record) tt
      | inr (r, read) ↦ elim (Bool-cases (r.end_offset == frame_end && r.record_id == expected)) [
        | inl good ↦ rw (read, scan_record, good) (refl, ground (arith, good, h))
        | inr bad ↦ rw (read, scan_record, bad) tt
      ]
    ]

scan_frame-MovesOn :
    (json : JsonCodec) (writable : Bool) (j : Journal) (offset expected count : ℕ)
    → MovesOn j offset (scan_frame json writable j offset expected count)
unfolding scan_frame
scan_frame-MovesOn json writable j offset expected count =
    elim (Bool-cases (count == 0 || ltb max_payload count)) [
      | inl bad ↦ rw (bad, scan_frame) tt
      | inr good ↦ elim (Bool-cases (ltb (length j.file) (offset + 4 + count + 4))) [
        | inl torn ↦ rw (good, scan_frame, torn) tt
        | inr inside ↦
            rw (good, scan_frame, inside)
              (scan_record-MovesOn json j offset expected (offset + 4 + count + 4) (omega arith))
      ]
    ]

scan_step-MovesOn :
    (json : JsonCodec) (writable : Bool) (j : Journal) (offset expected : ℕ)
    → MovesOn j offset (scan_step json writable j offset expected)
unfolding scan_step
scan_step-MovesOn json writable j offset expected =
    elim (Bool-cases (ltb (length j.file - offset) 4)) [
      | inl torn ↦ rw (torn, scan_step) tt
      | inr long ↦ elim (Option-cases (read_at j.file offset 4)) [
        | inl failed ↦ rw (long, scan_step, failed) tt
        | inr (bytes, read) ↦
            rw (long, scan_step, read)
              (scan_frame-MovesOn json writable j offset expected (number 0 bytes))
      ]
    ]

Pass-cases :
    (p : Pass)
    → ((r : Error ⊎ Journal) × (p ≡ stop r)) ⊎ ((j : Journal) × (next : ℕ) × (p ≡ more j next))
Pass-cases (stop r) = inl (r, refl)
Pass-cases (more j next) = inr (j, next, refl)

outside : (size offset : ℕ) → size ≤ offset + 0 → ltb offset size ≡ false
outside size offset h = ground (arith, h)

scan_loop-ends :
    (fuel : ℕ) (json : JsonCodec) (writable : Bool) (j : Journal) (offset expected : ℕ)
    → length j.file ≤ offset + fuel
    → (r : Error ⊎ Journal) × (scan_loop fuel json writable j offset expected ≡ some r)
unfolding scan_loop
scan_loop-ends zero json writable j offset expected h =
    (inr (ended j), rw (outside (length j.file) offset h, scan_loop) refl)
scan_loop-ends (suc fuel) json writable j offset expected h =
    elim (Bool-cases (ltb offset (length j.file))) [
      | inr outside_file ↦ (inr (ended j), rw (outside_file, scan_loop) refl)
      | inl inside ↦ elim (Pass-cases (scan_step json writable j offset expected)) [
        | inl (r, stops) ↦ (r, rw (inside, scan_loop, stops) refl)
        | inr (k, next, goes) ↦
            let m : MovesOn j offset (more k next) =
              subst (λ p. MovesOn j offset p) goes
                (scan_step-MovesOn json writable j offset expected) in
            let rest =
              scan_loop-ends fuel json writable k next (add_u64 expected 1)
                (ground (arith, ap length (m.0), m.1, h)) in
            (rest.0, rw (inside, scan_loop, goes) rest.1)
      ]
    ]

-- Whatever the file, the payload codec and the outcome of the truncation, the scan ends within one
-- pass for each byte of the file.
pub scan_existing-ends :
    (json : JsonCodec) (writable : Bool) (j : Journal)
    → (r : Error ⊎ Journal) × (scan_existing json writable j ≡ some r)
unfolding scan_existing
scan_existing-ends json writable j =
    scan_loop-ends (length j.file) json writable j header_size 1 (omega arith)
