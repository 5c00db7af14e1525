-- ===== src/DeathOutcome/Journal/Crash.antt =====
-- Appends, a crash at any point of a write, and OpenJournal of the file that is left.
use astrahold_server.Common.{
  ℕ, zero, suc, ◌+◌, ◌≤◌, ◌<◌, ◌≡◌, refl, ◌⊎◌, inl, inr, true, Option, some, List, [], ◌∷◌, ◌++◌,
  map, arith, length, max_u64, subst, sym, ◌∙◌, ap, Bool-cases, ltb, ◌==◌,
}
use astrahold_server.Common.{
  append_assoc as list_assoc, append-nil, length-append as size-append, map-append,
}
use astrahold_server.Transport.Bytes.{◌+++◌, take}
use astrahold_server.DeathOutcome.{Event}
use astrahold_server.DeathOutcome.Journal.Wire.{JsonCodec, Error, ReadsBack}
use astrahold_server.DeathOutcome.Journal.File.{Journal, JournalRecord, magic, make_frame}
use astrahold_server.DeathOutcome.Journal.Open.{open_or_initialize}
use astrahold_server.DeathOutcome.Journal.Write.{Disk, append_journal}
use astrahold_server.DeathOutcome.Journal.Reading.{Entry, IsCoded, frames, length-make_frame}
use astrahold_server.DeathOutcome.Journal.Opening.{Holds, InFlight, file_of, IsTail}
use astrahold_server.DeathOutcome.Journal.Reopening.{open_or_initialize-Reopened, append_nothing}
use astrahold_server.DeathOutcome.Journal.Clean.{with_record, frames-append, append-AreCoded}
use astrahold_server.DeathOutcome.Journal.Appending.{
  append_journal-outcome, length-with_record, one_more,
}

pub record Attempt : Type 0 where
  pub event : Event
  pub disk : Disk

abbrev acknowledged : Error ⊎ JournalRecord → List Event
acknowledged (inl _) = []
acknowledged (inr r) = r.event ∷ []

-- Appends one after another, and the events whose Append returned a record.
unfoldable pub append_all : JsonCodec → Journal → List Attempt → Journal × List Event
append_all json j [] = (j, [])
append_all json j (a ∷ rest) =
    let r = append_journal json a.disk j a.event in
    let later = append_all json r.0 rest in (later.0, acknowledged r.1 ++ later.1)

abbrev pub events : List Entry → List Event
events = map (λ x. x.event)

-- The codec reads back what it writes for the events of the attempts.
abbrev pub ReadsBackAll : JsonCodec → List Attempt → Type 0
ReadsBackAll json [] = Unit
ReadsBackAll json (a ∷ rest) = ((id : ℕ) → ReadsBack json id a.event) × ReadsBackAll json rest

-- The journal holds what it held, and behind it the acknowledged events in their order.
pub record Extends (json : JsonCodec) (es : List Entry) (count : ℕ) (r : Journal × List Event)
    : Type 0 where
  pub added : List Entry
  pub holds : Holds json (es ++ added) r.0
  pub acked : events added ≡ r.1
  pub bounded : length added ≤ count

acknowledged-Extends :
    (json : JsonCodec) (es : List Entry) (x : Entry) (rec : JournalRecord)
    (said : Error ⊎ JournalRecord) (count : ℕ) (later : Journal × List Event)
    → said ≡ inr rec
    → rec.event ≡ x.event
    → Extends json (es ++ (x ∷ [])) count later
    → Extends json es (count + 1) (later.0, acknowledged said ++ later.1)
acknowledged-Extends json es x rec said count later s same l = record {
  added = x ∷ l.added;
  holds = subst (λ xs. Holds json xs later.0) (list_assoc es (x ∷ []) l.added) l.holds;
  acked = rw (s, same, l.acked) refl;
  bounded = ground (arith, l.bounded);
}

failed-Extends :
    (json : JsonCodec) (es : List Entry) (f : Error) (said : Error ⊎ JournalRecord) (count : ℕ)
    (later : Journal × List Event)
    → said ≡ inl f
    → Extends json es count later
    → Extends json es (count + 1) (later.0, acknowledged said ++ later.1)
failed-Extends json es f said count later s l = record {
  added = l.added;
  holds = l.holds;
  acked = rw (s) l.acked;
  bounded = ground (arith, l.bounded);
}

pub append_all-Extends :
    (json : JsonCodec) (attempts : List Attempt) (es : List Entry) (j : Journal)
    → Holds json es j
    → length es + length attempts ≤ max_u64
    → ReadsBackAll json attempts
    → Extends json es (length attempts) (append_all json j attempts)
unfolding append_all
append_all-Extends json [] es j h b r = record {
  added = [];
  holds = subst (λ xs. Holds json xs j) (sym (append-nil es)) h;
  acked = refl;
  bounded = omega arith;
}
append_all-Extends json (a ∷ rest) es j h b r =
    subst (λ n. Extends json es n (append_all json j (a ∷ rest))) (ground arith)
      (elim (append_journal-outcome json es a.disk j a.event h (ground (arith, h.counted, b))
        (r.0 (length es + 1))) [
          | inl ok ↦
              acknowledged-Extends json es (record { event = a.event; payload = ok.payload }) _ _
                (length rest) _ ok.said refl
                (append_all-Extends json rest (with_record es a.event ok.payload) _ ok.holds
                  (ground (
                    arith,
                    b,
                    length-with_record es (record { event = a.event; payload = ok.payload }),
                  ))
                  r.1)
          | inr refusal ↦
              failed-Extends json es refusal.failure _ (length rest) _ refusal.said
                (append_all-Extends json rest es _ refusal.holds (ground (arith, b)) r.1)
        ])

take_past : (n : ℕ) (xs : List ℕ) → length xs ≤ n → take n xs ≡ xs
unfolding take
take_past zero [] h = refl
take_past zero (x ∷ xs) h = ground (arith, h)
take_past (suc n) [] h = refl
take_past (suc n) (x ∷ xs) h = rw (take_past n xs (ground (arith, h))) refl

take_none : (xs : List ℕ) → take 0 xs ≡ []
unfolding take
take_none xs = refl

whole-frame :
    (id : List ℕ) (es : List Entry) (tail : List ℕ) (x : Entry)
    → tail ≡ make_frame x.payload
    → file_of id es tail ≡ file_of id (es ++ (x ∷ [])) []
whole-frame id es tail x t =
    ap (λ b. (magic +++ id) +++ b)
      (ap (λ b. frames es +++ b) t
        ∙ (sym (frames-append es x) ∙ sym (append_nothing (frames (es ++ (x ∷ []))))))

-- Bytes in flight, behind the records of a file: a tail that is cut off, or one record more.
InFlight-cases :
    (json : JsonCodec) (es : List Entry) (id tail : List ℕ)
    → InFlight json (length es + 1) tail
    → IsTail tail
      ⊎ ((x : Entry) × IsCoded json (length es + 1) x
          × (file_of id es tail ≡ file_of id (es ++ (x ∷ [])) []))
InFlight-cases json es id tail (inl none_left) = inl (inl none_left)
InFlight-cases json es id tail (inr (x, n, c, b)) = elim (Bool-cases (n == 0)) [
  | inl nothing ↦ inl (
      inl (
        b
        ∙ ap (λ k. take k (make_frame x.payload)) (ground (arith, nothing))
        ∙ take_none (make_frame x.payload)))
  | inr begun ↦ elim (Bool-cases (ltb n (length (make_frame x.payload)))) [
    | inl torn ↦ inl (
        inr (record {
          payload = x.payload;
          count = n;
          filled = c.filled;
          fits = c.fits;
          begun = ground (arith, begun);
          unfinished = ground (arith, torn, length-make_frame x.payload);
          bytes = b;
        }))
    | inr written ↦ inr (
      x,
      c,
      whole-frame id es tail x (b ∙ take_past n (make_frame x.payload) (ground (arith, written))),
    )
  ]
]

-- A reopened journal, against the events that were acknowledged behind the first records.
pub record Recovered (json : JsonCodec) (es : List Entry) (acked : List Event)
    (result : Option (Error ⊎ Journal)) : Type 0 where
  pub journal : Journal
  pub opens : result ≡ some (inr journal)
  pub added : List Entry
  pub holds : Holds json (es ++ added) journal
  pub complete : (events added ≡ acked) ⊎ ((last : Event) × (events added ≡ acked ++ (last ∷ [])))

Recovered-whole :
    (json : JsonCodec) (es : List Entry) (random : List ℕ) (count : ℕ) (r : Journal × List Event)
    (x : Extends json es count r)
    → length (es ++ x.added) < max_u64
    → IsTail x.holds.tail
    → Recovered json es r.1 (open_or_initialize json true random r.0.file)
Recovered-whole json es random count r x few t =
    let h = x.holds in
    let o =
      open_or_initialize-Reopened json r.0.journal_id (es ++ x.added) h.tail h.identified h.coded
        few random h.nonzero t in
    record {
      journal = o.0;
      opens = ap (open_or_initialize json true random) h.contents ∙ o.1;
      added = x.added;
      holds = o.2.holds;
      complete = inl x.acked;
    }

Recovered-more :
    (json : JsonCodec) (es : List Entry) (random : List ℕ) (count : ℕ) (r : Journal × List Event)
    (x : Extends json es count r) (last : Entry)
    → length (es ++ x.added) + 1 < max_u64
    → IsCoded json (length (es ++ x.added) + 1) last
    → file_of r.0.journal_id (es ++ x.added) x.holds.tail
      ≡ file_of r.0.journal_id ((es ++ x.added) ++ (last ∷ [])) []
    → Recovered json es r.1 (open_or_initialize json true random r.0.file)
Recovered-more json es random count r x last few c f =
    let h = x.holds in
    let all = (es ++ x.added) ++ (last ∷ []) in
    let o =
      open_or_initialize-Reopened json r.0.journal_id all [] h.identified
        (append-AreCoded json 1 (es ++ x.added) last h.coded
          (subst (λ n. IsCoded json n last) (one_more (es ++ x.added)) c))
        (ground (arith, few, length-with_record (es ++ x.added) last)) random h.nonzero
        (inl refl) in
    record {
      journal = o.0;
      opens = ap (open_or_initialize json true random) (h.contents ∙ f) ∙ o.1;
      added = x.added ++ (last ∷ []);
      holds = subst (λ xs. Holds json xs o.0) (list_assoc es x.added (last ∷ [])) o.2.holds;
      complete = inr (
        last.event,
        map-append (λ e. e.event) x.added (last ∷ []) ∙ ap (λ xs. xs ++ (last.event ∷ [])) x.acked,
      );
    }

-- Appends to a journal that holds records, however the calls of its file end, a crash, and
-- OpenJournal of the file that is left: it opens, and holds the first records and behind them every
-- event whose Append returned a record, in that order, with at most one event more.
pub append_all-Recovered :
    (json : JsonCodec) (es : List Entry) (j : Journal) (attempts : List Attempt) (random : List ℕ)
    → Holds json es j
    → length es + length attempts + 1 < max_u64
    → ReadsBackAll json attempts
    → let r = append_all json j attempts in
      Recovered json es r.1 (open_or_initialize json true random r.0.file)
append_all-Recovered json es j attempts random h few reads =
    let r = append_all json j attempts in
    let x = append_all-Extends json attempts es j h (ground (arith, few)) reads in
    let room : length (es ++ x.added) + 1 < max_u64 =
      ground (arith, few, x.bounded, size-append es x.added) in
    elim (InFlight-cases json (es ++ x.added) r.0.journal_id x.holds.tail x.holds.in_flight) [
      | inl t ↦ Recovered-whole json es random (length attempts) r x (ground (arith, room)) t
      | inr (last, c, f) ↦ Recovered-more json es random (length attempts) r x last room c f
    ]
