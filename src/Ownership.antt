-- ===== src/Ownership.antt =====
-- Durable ownership of the castle (internal/siegeownership/store.go). A record file is found by
-- its world: the name of the file is a digest of the world. What it holds is the decoded record,
-- or a decoding error. Writing the file either leaves the old one, replaces it, or replaces it and
-- then fails to sync the directory.
pub mod Commits
pub mod Recovery
use astrahold_server.Common.{
  ℕ, ◌+◌, Bool, true, false, not, ◌&&◌, ◌||◌, Option, none, some, [], ◌∷◌, Text, text_key, Map,
  max_u64, add_u64, ◌==◌, ◌=?◌, if◌then◌else◌, is_empty, lookup, insert, same_bool,
}
use astrahold_server.Siege.{CastleOwnershipState, CastleOwnershipTransfer, valid_transfer}

pub data Error : Type 0 where
  invalid_world_id invalid_initial_owner ownership_unavailable : Error
  revision_conflict revision_overflow corrupt_record invalid_castle_transfer : Error
  -- what the file system answers
  io : Error

abbrev pub schema_version : ℕ
schema_version = 1

pub record WireRecord : Type 0 where
  pub schema_version : ℕ
  pub world_id : Text
  pub revision : ℕ
  pub owner_id : Text
  pub previous_owner_id : Text
  pub last_transfer_match_id : Text

pub data File : Type 0 where
  decoded : WireRecord → File
  malformed unreadable : File

pub record Store : Type 0 where
  pub files : Map Text File

-- How a write ends.
pub data Write : Type 0 where
  written not_written not_synced : Write

abbrev pub state_of : WireRecord → CastleOwnershipState
state_of w = record {
  revision = w.revision;
  owner_id = w.owner_id;
  previous_owner_id = w.previous_owner_id;
  last_transfer_match_id = w.last_transfer_match_id;
}

abbrev pub wire_of : Text → CastleOwnershipState → WireRecord
wire_of world s = record {
  schema_version = schema_version;
  world_id = world;
  revision = s.revision;
  owner_id = s.owner_id;
  previous_owner_id = s.previous_owner_id;
  last_transfer_match_id = s.last_transfer_match_id;
}

abbrev pub bad_record : Text → WireRecord → Bool
bad_record world w =
    not (w.schema_version == 1)
    || not (w.world_id =? world)
    || w.revision == 0
    || is_empty w.owner_id
    || not (same_bool (is_empty w.previous_owner_id) (is_empty w.last_transfer_match_id))

-- What loadLocked answers: nothing, a state, or an error.
pub data Loaded : Type 0 where
  missing : Loaded
  loaded : CastleOwnershipState → Loaded
  failed : Error → Loaded

unfoldable pub load_locked : Store → Text → Loaded
load_locked s world = elim (lookup world s.files) [
  | none ↦ missing
  | some file ↦ elim file [
    | unreadable ↦ failed io
    | malformed ↦ failed corrupt_record
    | decoded w ↦ if bad_record world w then failed corrupt_record else loaded (state_of w)
  ]
]

unfoldable pub load : Store → Text → Loaded
load s world = if is_empty world then failed invalid_world_id else load_locked s world

unfoldable pub write_locked : Store → Text → CastleOwnershipState → Write → Store × Option Error
write_locked s world state not_written = (s, some io)
write_locked s world state written =
    (record { files = insert world (decoded (wire_of world state)) s.files }, none)
write_locked s world state not_synced =
    (record { files = insert world (decoded (wire_of world state)) s.files }, some io)

pub data Answer : Type 0 where
  -- the state, and whether it was created
  answer : CastleOwnershipState → Bool → Answer
  failure : Error → Answer

unfoldable pub answer_write : Bool → CastleOwnershipState → Store × Option Error → Store × Answer
answer_write created state (s, none) = (s, answer state created)
answer_write created state (s, some e) = (s, failure e)

abbrev pub initial : Text → CastleOwnershipState
initial owner = record {
  revision = 1;
  owner_id = owner;
  previous_owner_id = [];
  last_transfer_match_id = [];
}

unfoldable pub load_or_create : Store → Text → Text → Write → Store × Answer
unfolding answer_write
load_or_create s world owner w =
    if is_empty world
    then (s, failure invalid_world_id)
    else if is_empty owner
    then (s, failure invalid_initial_owner)
    else elim (load_locked s world) [
      | failed e ↦ (s, failure e)
      | loaded current ↦ (s, answer current false)
      | missing ↦ answer_write true (initial owner) (write_locked s world (initial owner) w)
    ]

abbrev pub transferred : CastleOwnershipState → CastleOwnershipTransfer → CastleOwnershipState
transferred current t = record {
  revision = add_u64 current.revision 1;
  owner_id = t.owner_id;
  previous_owner_id = current.owner_id;
  last_transfer_match_id = t.match_id;
}

-- The transfer is the one that made this state.
abbrev pub already_committed : CastleOwnershipState → CastleOwnershipTransfer → Bool
already_committed current t =
    not (t.expected_revision == max_u64)
    && current.revision == add_u64 t.expected_revision 1
    && current.previous_owner_id =? t.previous_owner_id
    && current.owner_id =? t.owner_id
    && current.last_transfer_match_id =? t.match_id

unfoldable pub commit_current :
    Store → Text → CastleOwnershipTransfer → Write → CastleOwnershipState → Store × Answer
unfolding answer_write
commit_current s world t w current =
    if current.revision == t.expected_revision
    then if not (current.owner_id =? t.previous_owner_id)
      then (s, failure revision_conflict)
      else if current.owner_id =? t.owner_id
      then (s, answer current false)
      else if current.revision == max_u64
      then (s, failure revision_overflow)
      else answer_write false (transferred current t)
          (write_locked s world (transferred current t) w)
    else if already_committed current t
    then (s, answer current false)
    else (s, failure revision_conflict)

unfoldable pub commit : Store → Text → CastleOwnershipTransfer → Write → Store × Answer
unfolding commit_current
commit s world t w =
    if is_empty world
    then (s, failure invalid_world_id)
    else if not (valid_transfer t)
    then (s, failure invalid_castle_transfer)
    else elim (load_locked s world) [
      | failed e ↦ (s, failure e)
      | missing ↦ (s, failure ownership_unavailable)
      | loaded current ↦ commit_current s world t w current
    ]
