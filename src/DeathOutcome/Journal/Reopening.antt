-- ===== src/DeathOutcome/Journal/Reopening.antt =====
-- OpenJournal of a file that holds durable records, whole or with a torn tail.
use astrahold_server.Common.{
  ℕ, ◌+◌, ◌<◌, ◌≡◌, refl, inl, inr, true, false, not, some, List, [], ◌∷◌, arith, length, max_u64,
  sym, ◌∙◌, ap, Bool-cases, ltb, ◌==◌, =?-refl, text_key, is_empty,
}
use astrahold_server.Transport.Bytes.{
  ◌+++◌, take, skip, slice, take-append, skip-append, append_assoc,
}
use astrahold_server.DeathOutcome.Journal.Wire.{JsonCodec}
use astrahold_server.DeathOutcome.Journal.File.{Journal, header_size, id_size, magic}
use astrahold_server.DeathOutcome.Journal.Open.{
  scan_existing, open_or_initialize, opened, id_of, ended, all_zero,
}
use astrahold_server.DeathOutcome.Journal.Reading.{Entry, AreCoded, frames}
use astrahold_server.DeathOutcome.Journal.Recovery.{behind_all}
use astrahold_server.DeathOutcome.Journal.Torn.{IsTorn, repaired, length-torn}
use astrahold_server.DeathOutcome.Journal.Opening.{
  Holds, ends, behind_all-grows, recovered-keeps, ended-recovered, file_of, IsTail,
  scan_existing-whole, scan_existing-torn, scanned, scanned-file, at_end, length-file,
}

pub append_nothing : (xs : List ℕ) → xs +++ [] ≡ xs
unfolding ◌+++◌
append_nothing [] = refl
append_nothing (x ∷ xs) = rw (append_nothing xs) refl

ended-keeps :
    (j : Journal)
    → ((ended j).file ≡ j.file)
      × ((ended j).journal_id ≡ j.journal_id)
      × ((ended j).repaired_tail ≡ j.repaired_tail)
      × ((ended j).last_record_id ≡ j.last_record_id)
      × ((ended j).record_ends ≡ j.record_ends)
ended-keeps j = elim (Bool-cases (j.end_offset == 0)) [
  | inl unset ↦ rw (unset) (refl, refl, refl, refl, refl)
  | inr set ↦ rw (set) (refl, refl, refl, refl, refl)
]

-- What reopening yields: the records, in a file without a tail.
pub record Reopened (json : JsonCodec) (id : List ℕ) (es : List Entry) (tail : List ℕ) (j : Journal)
    : Type 0 where
  pub holds : Holds json es j
  pub same_id : j.journal_id ≡ id
  pub cleaned : j.file ≡ file_of id es []
  pub repairs : j.repaired_tail ≡ not (is_empty tail)

torn_filled : (tail : List ℕ) → IsTorn tail → true ≡ not (is_empty tail)
torn_filled [] t = ground (arith, length-torn [] t, t.begun)
torn_filled (x ∷ tail) t = refl

not_short : (file : List ℕ) → ltb (length file) header_size ≡ false → is_empty file ≡ false
not_short [] h = ground (arith, h)
not_short (b ∷ file) h = refl

-- A file with a header is scanned.
open_or_initialize-scans :
    (json : JsonCodec) (random file id : List ℕ)
    → ltb (length file) header_size ≡ false
    → take 35 file ≡ magic
    → id_of file ≡ id
    → all_zero id ≡ false
    → open_or_initialize json true random file ≡ scan_existing json true (opened file id)
unfolding open_or_initialize
open_or_initialize-scans json random file id long m i z =
    rw (not_short file long, open_or_initialize, long, m, =?-refl magic, i, z) refl

Reopened-from :
    (json : JsonCodec) (id : List ℕ) (es : List Entry) (tail : List ℕ) (j : Journal)
    → length id ≡ id_size
    → all_zero id ≡ false
    → AreCoded json 1 es
    → j.file ≡ file_of id es []
    → j.journal_id ≡ id
    → j.last_record_id ≡ 0 + length es
    → j.end_offset ≡ behind_all header_size es
    → j.record_ends ≡ ends header_size es
    → j.repaired_tail ≡ not (is_empty tail)
    → Reopened json id es tail j
Reopened-from json id es tail j sized z coded f i l e r t = record {
  holds = record {
    tail = [];
    in_flight = inl refl;
    identified = ap length i ∙ sized;
    nonzero = ap all_zero i ∙ z;
    contents = f ∙ ap (λ k. file_of k es []) (sym i);
    coded = coded;
    counted = ground (arith, l);
    ended_at = e;
    ended_each = r;
  };
  same_id = i;
  cleaned = f;
  repairs = t;
}

module _ (json : JsonCodec) (id : List ℕ) (es : List Entry) (tail : List ℕ)
    (sized : length id ≡ id_size) (coded : AreCoded json 1 es) (few : length es < max_u64) where
  abbrev found : Journal
  found = scanned json id es tail sized coded few

  whole-Reopened : all_zero id ≡ false → tail ≡ [] → Reopened json id es tail (ended found)
  whole-Reopened z whole =
      let e = ended-keeps found in
      let r = recovered-keeps header_size (opened (file_of id es tail) id) es in
      Reopened-from json id es tail (ended found) sized z coded
        (e.0 ∙ (r.0 ∙ ap (λ t. file_of id es t) whole)) (e.1 ∙ r.1) (e.3 ∙ r.3)
        (ended-recovered (opened (file_of id es tail) id) es refl) (e.4 ∙ r.4)
        (e.2 ∙ (r.2 ∙ sym (ap (λ t. not (is_empty t)) whole)))

  cut_file : take (behind_all header_size es) found.file ≡ file_of id es []
  cut_file =
      rw (at_end json id es tail sized coded few, scanned-file json id es tail sized coded few)
        (take-append ((magic +++ id) +++ frames es) tail
          ∙ sym (ap (λ b. (magic +++ id) +++ b) (append_nothing (frames es))))

  torn-Reopened :
      all_zero id ≡ false
      → IsTorn tail
      → Reopened json id es tail (repaired found (behind_all header_size es))
  unfolding repaired
  torn-Reopened z t =
      let r = recovered-keeps header_size (opened (file_of id es tail) id) es in
      Reopened-from json id es tail (repaired found (behind_all header_size es)) sized z coded
        cut_file (r.1) (r.3) refl (r.4) (torn_filled tail t)

  scan_existing-Reopened :
      all_zero id ≡ false
      → IsTail tail
      → (j : Journal) × (scan_existing json true (opened (file_of id es tail) id) ≡ some (inr j))
        × Reopened json id es tail j
  scan_existing-Reopened z (inl whole) = (
    ended found,
    scan_existing-whole json id es tail sized coded few whole,
    whole-Reopened z whole,
  )
  scan_existing-Reopened z (inr t) = (
    repaired found (behind_all header_size es),
    scan_existing-torn json id es tail sized coded few t,
    torn-Reopened z t,
  )

  long : ltb (length (file_of id es tail)) header_size ≡ false
  long =
      ground (arith, length-file json id es tail sized coded few, behind_all-grows header_size es)

  at_magic : file_of id es tail ≡ magic +++ (id +++ (frames es +++ tail))
  at_magic = append_assoc magic id (frames es +++ tail)

  take-magic : take 35 (file_of id es tail) ≡ magic
  take-magic = ap (take 35) at_magic ∙ take-append magic (id +++ (frames es +++ tail))

  id_of-file : id_of (file_of id es tail) ≡ id
  unfolding slice
  id_of-file =
      ap (λ f. take id_size (skip 35 f)) at_magic
      ∙ (ap (take id_size) (skip-append magic (id +++ (frames es +++ tail)))
          ∙ (ap (λ n. take n (id +++ (frames es +++ tail))) (sym sized)
              ∙ take-append id (frames es +++ tail)))

  -- A file of durable records, whole or torn in its last frame, opens as those records.
  pub open_or_initialize-Reopened :
      (random : List ℕ)
      → all_zero id ≡ false
      → IsTail tail
      → (j : Journal) × (open_or_initialize json true random (file_of id es tail) ≡ some (inr j))
        × Reopened json id es tail j
  open_or_initialize-Reopened random identified t =
      let s = scan_existing-Reopened identified t in
      (
        s.0,
        open_or_initialize-scans json random (file_of id es tail) id long take-magic id_of-file
              identified
            ∙ s.1,
        s.2,
      )
