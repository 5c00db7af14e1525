-- ===== src/Session.antt =====
-- Sessions and their registry (internal/session/session.go). A session object is named by its
-- address; the registry holds addresses, and a session keeps its id and its entity.
pub mod Registry
use astrahold_server.Common.{
  ℕ, ◌+◌, Bool, true, false, not, ◌&&◌, ◌||◌, Option, none, some, [], Map, nat_key, lookup, insert,
  delete, ◌==◌, ltb, leb, if◌then◌else◌, add_u32, is_some,
}
use astrahold_server.Transport.{delivery_reliable_ordered, delivery_realtime_sequenced}

pub data Error : Type 0 where
  invalid_session session_exists session_not_found stale_input stale_action : Error

-- The part of a session that its own methods change.
pub record Sequences : Type 0 where
  pub last_processed_input_sequence : ℕ
  pub last_processed_action_sequence : ℕ
  pub next_reliable_sequence : ℕ
  pub next_realtime_sequence : ℕ

unfoldable pub validate_input_sequence : Sequences → ℕ → Option Error
validate_input_sequence s sequence =
    if leb sequence s.last_processed_input_sequence then some stale_input else none

unfoldable pub mark_processed_input : Sequences → ℕ → Sequences
mark_processed_input s sequence =
    if ltb s.last_processed_input_sequence sequence
    then record s { last_processed_input_sequence = sequence }
    else s

unfoldable pub validate_action_sequence : Sequences → ℕ → Option Error
validate_action_sequence s sequence =
    if leb sequence s.last_processed_action_sequence then some stale_action else none

unfoldable pub mark_processed_action : Sequences → ℕ → Sequences
mark_processed_action s sequence =
    if ltb s.last_processed_action_sequence sequence
    then record s { last_processed_action_sequence = sequence }
    else s

unfoldable pub next_outbound_sequence : Sequences → ℕ → Sequences × ℕ
next_outbound_sequence s delivery =
    if delivery == delivery_reliable_ordered
    then (
      record s { next_reliable_sequence = add_u32 s.next_reliable_sequence 1 },
      add_u32 s.next_reliable_sequence 1,
    )
    else if delivery == delivery_realtime_sequenced
    then (
      record s { next_realtime_sequence = add_u32 s.next_realtime_sequence 1 },
      add_u32 s.next_realtime_sequence 1,
    )
    else (s, 0)

-- A pointer to a session, with the fields that the registry reads.
pub record Session : Type 0 where
  pub address : ℕ
  pub id : ℕ
  pub entity_id : ℕ

pub record Sessions : Type 0 where
  pub sessions : Map ℕ Session
  pub by_entity : Map ℕ Session

unfoldable pub new_registry : Sessions
new_registry = record { sessions = []; by_entity = [] }

-- A nil session is `none`.
unfoldable pub add : Sessions → Option Session → Sessions × Option Error
add r none = (r, some invalid_session)
add r (some s) = if is_some (lookup s.id r.sessions) then (r, some session_exists) else (
  record { sessions = insert s.id s r.sessions; by_entity = insert s.entity_id s r.by_entity },
  none,
)

abbrev pub current_is : Sessions → Session → Bool
current_is r s = elim (lookup s.entity_id r.by_entity) [
  | none ↦ false
  | some current ↦ current.address == s.address
]

unfoldable pub remove : Sessions → ℕ → Sessions × Option Session × Option Error
remove r id = elim (lookup id r.sessions) [
  | none ↦ (r, none, some session_not_found)
  | some s ↦ (
    record {
      sessions = delete id r.sessions;
      by_entity = if current_is r s then delete s.entity_id r.by_entity else r.by_entity;
    },
    some s,
    none,
  )
]

unfoldable pub get : Sessions → ℕ → Option Session
get r id = lookup id r.sessions

unfoldable pub get_by_entity : Sessions → ℕ → Option Session
get_by_entity r entity = lookup entity r.by_entity
