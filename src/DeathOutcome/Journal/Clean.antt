-- ===== src/DeathOutcome/Journal/Clean.antt =====
-- The lists and the bytes of a journal with one more record, and the file before a write.
use astrahold_server.Common.{
  ℕ, zero, suc, ◌+◌, ◌≤◌, ◌≡◌, refl, inl, false, List, [], ◌∷◌, ◌++◌, arith, length, subst, sym,
  ◌∙◌, ap, ltb,
}
use astrahold_server.Transport.Bytes.{◌+++◌, take, skip, length-append, take-append, append_assoc}
use astrahold_server.DeathOutcome.{Event}
use astrahold_server.DeathOutcome.Journal.Wire.{JsonCodec}
use astrahold_server.DeathOutcome.Journal.File.{Journal, header_size, magic, make_frame}
use astrahold_server.DeathOutcome.Journal.Write.{write_at, cut}
use astrahold_server.DeathOutcome.Journal.Reading.{Entry, IsCoded, AreCoded, frames, behind}
use astrahold_server.DeathOutcome.Journal.Recovery.{behind_all}
use astrahold_server.DeathOutcome.Journal.Opening.{Holds, ends, behind_all-length}
use astrahold_server.DeathOutcome.Journal.Reopening.{append_nothing}

-- The list with one more record.
abbrev pub with_record : List Entry → Event → List ℕ → List Entry
with_record es e payload = es ++ (record { event = e; payload = payload } ∷ [])

pub frames-append :
    (es : List Entry) (x : Entry) → frames (es ++ (x ∷ [])) ≡ frames es +++ make_frame x.payload
unfolding frames ◌+++◌
frames-append [] x = append_nothing (make_frame x.payload)
frames-append (y ∷ es) x =
    rw (frames-append es x)
      (sym (append_assoc (make_frame y.payload) (frames es) (make_frame x.payload)))

pub behind_all-append :
    (offset : ℕ) (es : List Entry) (x : Entry)
    → behind_all offset (es ++ (x ∷ [])) ≡ behind (behind_all offset es) x
unfolding behind_all
behind_all-append offset [] x = refl
behind_all-append offset (y ∷ es) x = behind_all-append (behind offset y) es x

pub ends-append :
    (offset : ℕ) (es : List Entry) (x : Entry)
    → ends offset (es ++ (x ∷ [])) ≡ ends offset es ++ (behind (behind_all offset es) x ∷ [])
unfolding ends behind_all
ends-append offset [] x = refl
ends-append offset (y ∷ es) x = rw (ends-append (behind offset y) es x) refl

pub append-AreCoded :
    (json : JsonCodec) (id : ℕ) (es : List Entry) (x : Entry)
    → AreCoded json id es
    → IsCoded json (id + length es) x
    → AreCoded json id (es ++ (x ∷ []))
append-AreCoded json id [] x c d = (subst (λ n. IsCoded json n x) (ground arith) d, tt)
append-AreCoded json id (y ∷ es) x c d =
    (c.0, append-AreCoded json (id + 1) es x c.1 (subst (λ n. IsCoded json n x) (ground arith) d))

skip_all : (n : ℕ) (xs : List ℕ) → length xs ≤ n → skip n xs ≡ []
unfolding skip
skip_all zero [] h = refl
skip_all zero (x ∷ xs) h = ground (arith, h)
skip_all (suc n) [] h = refl
skip_all (suc n) (x ∷ xs) h = skip_all n xs (ground (arith, h))

pub take_all : (xs : List ℕ) → take (length xs) xs ≡ xs
unfolding take
take_all [] = refl
take_all (x ∷ xs) = rw (take_all xs) refl

pub write_at-end : (file bytes : List ℕ) → write_at file (length file) bytes ≡ file +++ bytes
unfolding write_at
write_at-end file bytes =
    rw
      (
        take_all file,
        skip_all (length file + length bytes) file (omega arith),
        append_nothing bytes,
      )
      refl

nothing : (xs : List ℕ) → length xs ≡ 0 → xs ≡ []
nothing [] e = refl
nothing (x ∷ xs) e = ground (arith, e)

-- The journal holds the records, and nothing stands behind them.
pub record IsClean (json : JsonCodec) (es : List Entry) (j : Journal) : Type 0 where
  pub holds : Holds json es j
  pub clean : j.file ≡ (magic +++ j.journal_id) +++ frames es

module _ (json : JsonCodec) (es : List Entry) (j : Journal) (h : Holds json es j) where
  length-header : length (magic +++ j.journal_id) ≡ header_size
  length-header = ground (arith, length-append magic j.journal_id, h.identified)

  in_front : j.file ≡ ((magic +++ j.journal_id) +++ frames es) +++ h.tail
  in_front = h.contents ∙ sym (append_assoc (magic +++ j.journal_id) (frames es) h.tail)

  pub end-length : j.end_offset ≡ length ((magic +++ j.journal_id) +++ frames es)
  end-length =
      h.ended_at ∙ behind_all-length (magic +++ j.journal_id) header_size es (sym length-header)

  cut-file : take j.end_offset j.file ≡ (magic +++ j.journal_id) +++ frames es
  cut-file = rw (end-length, in_front) (take-append ((magic +++ j.journal_id) +++ frames es) h.tail)

  pub cut-IsClean : IsClean json es (cut j)
  unfolding cut
  cut-IsClean = record {
    holds = record {
      tail = [];
      in_flight = inl refl;
      identified = h.identified;
      nonzero = h.nonzero;
      contents =
          cut-file ∙ sym (ap (λ b. (magic +++ j.journal_id) +++ b) (append_nothing (frames es)));
      coded = h.coded;
      counted = h.counted;
      ended_at = h.ended_at;
      ended_each = h.ended_each;
    };
    clean = cut-file;
  }

  -- A file that ends at the durable end is clean.
  pub short-IsClean : length j.file ≤ j.end_offset → IsClean json es j
  short-IsClean s = record {
    holds = h;
    clean =
        in_front
        ∙ (ap (λ t. ((magic +++ j.journal_id) +++ frames es) +++ t)
              (nothing h.tail (
                ground (
                  arith,
                  s,
                  end-length,
                  ap length in_front,
                  length-append ((magic +++ j.journal_id) +++ frames es) h.tail,
                )))
            ∙ append_nothing ((magic +++ j.journal_id) +++ frames es));
  }

  pub long_enough : ltb (length j.file) j.end_offset ≡ false
  long_enough = ground (
    arith,
    end-length,
    ap length in_front,
    length-append ((magic +++ j.journal_id) +++ frames es) h.tail,
  )
