-- ===== src/Threat/Highest.antt =====
-- HighestValid and Add.
use astrahold_server.Common.{
  ℕ, ◌+◌, ◌≤◌, ◌<◌, ◌≡◌, ◌≢◌, refl, ◌⊎◌, inl, true, none, some, [], ◌∷◌, nat_key, Map, max_u64,
  arith, lookup, Distinct, lookup-insert, if◌then◌else◌,
}
use astrahold_server.Threat.{
  Table, value, saturated, add, Validator, counts, Best, better, visit, scan, nothing,
  highest_valid,
}

-- The best entry of a scan is ahead of an entry, or is that entry.
abbrev pub Beats : Best → ℕ → ℕ → Type 0
Beats b entity threat =
    (b.found ≡ true) × ((threat < b.threat) ⊎ ((threat ≡ b.threat) × (b.entity ≤ entity)))

visit-Beats :
    (valid : Validator) (b : Best) (e v entity threat : ℕ)
    → Beats b entity threat
    → Beats (visit valid b e v) entity threat
unfolding visit better
visit-Beats valid b e v entity threat h = ground arith

visit_own :
    (valid : Validator) (b : Best) (e v : ℕ)
    → counts valid e v ≡ true
    → Beats (visit valid b e v) e v
unfolding visit better
visit_own valid b e v h = ground arith

scan-Beats :
    (valid : Validator) (b : Best) (entries : Map ℕ ℕ) (entity threat : ℕ)
    → Beats b entity threat
    → Beats (scan valid b entries).1 entity threat
unfolding scan
scan-Beats valid b [] entity threat h = h
scan-Beats valid b ((e, v) ∷ entries) entity threat h =
    scan-Beats valid (visit valid b e v) entries entity threat
      (visit-Beats valid b e v entity threat h)

scan-Beats_all :
    (valid : Validator) (b : Best) (entries : Map ℕ ℕ) (entity threat : ℕ)
    → lookup entity entries ≡ some threat
    → counts valid entity threat ≡ true
    → Beats (scan valid b entries).1 entity threat
unfolding scan lookup
scan-Beats_all valid b [] entity threat h c = ground arith
scan-Beats_all valid b ((e, v) ∷ entries) entity threat h c =
    let further = scan-Beats_all valid (visit valid b e v) entries entity threat in
    let own = scan-Beats valid (visit valid b e v) entries e v in
    ground (arith, further, own, visit_own valid b e v)

-- An entry that counts and that the table holds.
abbrev pub IsCandidate : Validator → Map ℕ ℕ → Best → Type 0
IsCandidate valid entries r =
    (r.found ≡ true)
    × (lookup r.entity entries ≡ some r.threat)
    × (counts valid r.entity r.threat ≡ true)

visit_from :
    (valid : Validator) (b : Best) (e v : ℕ)
    → (visit valid b e v ≡ b)
      ⊎ ((visit valid b e v ≡ record { entity = e; threat = v; found = true })
          × (counts valid e v ≡ true))
unfolding visit
visit_from valid b e v = ground arith

scan_from :
    (valid : Validator) (b : Best) (entries : Map ℕ ℕ)
    → Distinct entries
    → ((scan valid b entries).1 ≡ b) ⊎ IsCandidate valid entries (scan valid b entries).1
unfolding scan lookup
scan_from valid b [] d = inl refl
scan_from valid b ((e, v) ∷ entries) d =
    ground (arith, scan_from valid (visit valid b e v) entries d.1, visit_from valid b e v)

-- The entry that HighestValid names counts, and it is ahead of every other entry that counts: a
-- larger threat, or the same threat and a larger entity.
pub highest_valid-Best :
    (t : Table) (valid : Validator)
    → Distinct t.values
    → let r = (highest_valid t valid).1 in
      ((r ≡ nothing) ⊎ IsCandidate valid t.values r)
      × ((entity threat : ℕ)
          → lookup entity t.values ≡ some threat
          → counts valid entity threat ≡ true
          → Beats r entity threat)
unfolding highest_valid
highest_valid-Best t valid d = (
  scan_from valid nothing t.values d,
  λ entity threat. scan-Beats_all valid nothing t.values entity threat,
)

-- HighestValid does not depend on the order of the entries: two tables with the same values give
-- the same entity, threat and flag.
pub highest_valid-order :
    (t u : Table) (valid : Validator)
    → Distinct t.values
    → Distinct u.values
    → ((entity : ℕ) → lookup entity t.values ≡ lookup entity u.values)
    → (highest_valid t valid).1 ≡ (highest_valid u valid).1
highest_valid-order t u valid d d' same =
    let r = (highest_valid t valid).1 in
    let q = (highest_valid u valid).1 in
    let (from_t, all_t) = highest_valid-Best t valid d in
    let (from_u, all_u) = highest_valid-Best u valid d' in
    ground (
      arith,
      from_t,
      from_u,
      all_t q.entity q.threat,
      all_u r.entity r.threat,
      same r.entity,
      same q.entity,
    )

-- The scan keeps the entries that count and removes the others.
scan_kept :
    (valid : Validator) (b : Best) (entries : Map ℕ ℕ) (entity : ℕ)
    → Distinct entries
    → lookup entity (scan valid b entries).0 ≡ elim (lookup entity entries) [
      | none ↦ none
      | some v ↦ if counts valid entity v then some v else none
    ]
unfolding scan lookup
scan_kept valid b [] entity d = refl
scan_kept valid b ((e, v) ∷ entries) entity d =
    ground (arith, scan_kept valid (visit valid b e v) entries entity d.1)

-- HighestValid leaves in the table exactly the entries that count.
pub highest_valid-prunes :
    (t : Table) (valid : Validator) (entity : ℕ)
    → Distinct t.values
    → lookup entity (highest_valid t valid).0.values ≡ elim (lookup entity t.values) [
      | none ↦ none
      | some v ↦ if counts valid entity v then some v else none
    ]
unfolding highest_valid
highest_valid-prunes t valid entity d = scan_kept valid nothing t.values entity d

-- Add never lowers a value and never passes the largest uint64, and it changes one entity only:
-- the sum where it fits, and the largest uint64 where it does not.
pub add-value :
    (t : Table) (entity amount other_entity : ℕ)
    → value t entity ≤ max_u64
    → entity ≢ 0
    → (value t entity ≤ value (add t entity amount) entity)
      × (value (add t entity amount) entity ≤ max_u64)
      × (value t entity + amount ≤ max_u64
          → value (add t entity amount) entity ≡ value t entity + amount)
      × (max_u64 < value t entity + amount → value (add t entity amount) entity ≡ max_u64)
      × (entity ≢ other_entity → value (add t entity amount) other_entity ≡ value t other_entity)
unfolding add value saturated
add-value t entity amount other_entity h n =
    let sum = saturated (value t entity) amount in
    ground (
      arith,
      lookup-insert entity entity sum t.values,
      lookup-insert entity other_entity sum t.values,
    )
