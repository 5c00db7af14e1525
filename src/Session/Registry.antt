-- ===== src/Session/Registry.antt =====
-- The registry and the sequences.
use astrahold_server.Common.{
  ℕ, ◌≤◌, ◌≡◌, ◌≢◌, inl, inr, Option, none, some, [], ◌∷◌, List, nat_key, lookup, insert,
  lookup-insert, lookup-delete, arith, Option-cases,
}
use astrahold_server.Session.{
  Sequences, Session, Sessions, add, remove, get, get_by_entity, validate_input_sequence,
  mark_processed_input, stale_input,
}

-- Every registered session stands under its own id, and the session that an entity resolves to is
-- a registered session of that entity.
abbrev pub IsValid : Sessions → Type 0
IsValid r =
    ((id : ℕ) (s : Session) → lookup id r.sessions ≡ some s → s.id ≡ id)
    × ((entity : ℕ) (s : Session)
        → lookup entity r.by_entity ≡ some s
        → (s.entity_id ≡ entity) × (lookup s.id r.sessions ≡ some s))

-- Pointers: two registered sessions with one address are the same session.
abbrev pub IsHeap : Sessions → Type 0
IsHeap r =
    (i j : ℕ) (s t : Session)
    → lookup i r.sessions ≡ some s
    → lookup j r.sessions ≡ some t
    → s.address ≡ t.address
    → s ≡ t

pub add-IsValid : (r : Sessions) (s : Option Session) → IsValid r → IsValid (add r s).0
unfolding add
add-IsValid r none v = v
add-IsValid r (some s) v = (
  λ id t e. ground (arith, lookup-insert s.id id s r.sessions, v.0 id t),
  λ entity t e. ground (
    arith,
    lookup-insert s.entity_id entity s r.by_entity,
    lookup-insert s.id t.id s r.sessions,
    v.1 entity t,
  ),
)

-- Removing a session keeps the registry valid, where registered sessions with one address are the
-- same session.
pub remove-IsValid : (r : Sessions) (id : ℕ) → IsHeap r → IsValid r → IsValid (remove r id).0
unfolding remove
remove-IsValid r id h v = elim (Option-cases (lookup id r.sessions)) [
  | inl e ↦ rw (e, remove) v
  | inr (s, e) ↦
      rw (e, remove)
        (
          λ i t f. ground (arith, lookup-delete id i r.sessions, v.0 i t),
          λ entity t f. ground (
            arith,
            v.0 id s e,
            v.1 entity t,
            h id t.id s t e,
            lookup-delete id t.id r.sessions,
            lookup-delete s.entity_id entity r.by_entity,
          ),
        )
]

-- Replacing the session of an entity, in the order of the source: the new one is added first and
-- the old one is removed then. The entity resolves to the new session throughout, the old id is
-- gone, and other entities resolve as before.
pub replace_lem :
    (r : Sessions) (old new : Session) (elsewhere : ℕ)
    → IsValid r
    → lookup old.id r.sessions ≡ some old
    → lookup new.id r.sessions ≡ none
    → new.entity_id ≡ old.entity_id
    → new.address ≢ old.address
    → let added = (add r (some new)).0 in
      let r' = (remove added old.id).0 in
      (get_by_entity added new.entity_id ≡ some new)
      × (get_by_entity r' new.entity_id ≡ some new)
      × (get r' new.id ≡ some new)
      × (get r' old.id ≡ none)
      × (elsewhere ≢ new.entity_id → get_by_entity r' elsewhere ≡ get_by_entity r elsewhere)
unfolding add remove get get_by_entity
replace_lem r old new elsewhere v here free same apart = ground (
  arith,
  lookup-insert new.id new.id new r.sessions,
  lookup-insert new.id old.id new r.sessions,
  lookup-insert new.entity_id new.entity_id new r.by_entity,
  lookup-insert new.entity_id elsewhere new r.by_entity,
  lookup-delete old.id new.id (insert new.id new r.sessions),
  lookup-delete old.id old.id (insert new.id new r.sessions),
)

unfoldable pub mark_all : Sequences → List ℕ → Sequences
mark_all s [] = s
mark_all s (q ∷ qs) = mark_all (mark_processed_input s q) qs

mark_all_keeps :
    (s : Sequences) (qs : List ℕ) (q : ℕ)
    → q ≤ s.last_processed_input_sequence
    → q ≤ (mark_all s qs).last_processed_input_sequence
unfolding mark_all mark_processed_input
mark_all_keeps s [] q h = h
mark_all_keeps s (p ∷ qs) q h = mark_all_keeps (mark_processed_input s p) qs q (ground arith)

-- A processed input is never accepted again, nor is any earlier one, whatever is processed later.
pub mark_processed_input-fences :
    (s : Sequences) (sequences : List ℕ) (q replay : ℕ)
    → replay ≤ q
    → validate_input_sequence (mark_all (mark_processed_input s q) sequences) replay
      ≡ some stale_input
unfolding mark_processed_input validate_input_sequence
mark_processed_input-fences s sequences q replay h =
    ground (arith, mark_all_keeps (mark_processed_input s q) sequences q (ground arith))
