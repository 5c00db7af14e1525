-- ===== src/Ownership/Commits.antt =====
-- Commit, LoadOrCreate and Load.
use astrahold_server.Common.{
  ◌<◌, ◌≡◌, ◌≢◌, refl, ◌⊎◌, inl, inr, Bool, true, false, not, Option, none, some, Text, text_key,
  max_u64, arith, lookup-insert, is_empty, ◌=?◌, ◌==◌, ◌&&◌, ◌||◌, Bool-cases,
}
use astrahold_server.Siege.{
  CastleOwnershipState, CastleOwnershipTransfer, valid_transfer, valid_castle_ownership,
  requires_ownership_change,
}
use astrahold_server.Ownership.{
  Error, io, revision_conflict, Store, decoded, Write, written, not_written, not_synced, Loaded,
  missing, loaded, failed, load_locked, write_locked, answer, failure, answer_write, load_or_create,
  initial, transferred, commit, wire_of,
}

pub Loaded-cases :
    (r : Loaded)
    → (r ≡ missing)
      ⊎ (((e : Error) × (r ≡ failed e)) ⊎ ((state : CastleOwnershipState) × (r ≡ loaded state)))
Loaded-cases missing = inl refl
Loaded-cases (failed e) = inr (inl (e, refl))
Loaded-cases (loaded state) = inr (inr (state, refl))

-- The transfer is new: Commit writes it.
abbrev writes_transfer : CastleOwnershipState → CastleOwnershipTransfer → Bool
writes_transfer current t =
    current.revision == t.expected_revision
    && current.owner_id =? t.previous_owner_id
    && not (current.owner_id =? t.owner_id)
    && not (current.revision == max_u64)

-- A state that loads is a valid ownership.
pub load_locked-valid :
    (s : Store) (world : Text) (current : CastleOwnershipState)
    → load_locked s world ≡ loaded current
    → valid_castle_ownership current ≡ true
unfolding load_locked
load_locked-valid s world current e = ground arith

-- A valid state that is written loads again, and other worlds are as they were.
pub load_locked-write :
    (s : Store) (world : Text) (state : CastleOwnershipState)
    → valid_castle_ownership state ≡ true
    → load_locked (write_locked s world state written).0 world ≡ loaded state
unfolding load_locked write_locked
load_locked-write s world state v =
    ground (arith, lookup-insert world world (decoded (wire_of world state)) s.files)

pub write_locked_written :
    (s : Store) (world : Text) (state : CastleOwnershipState)
    → (write_locked s world state written).1 ≡ none
unfolding write_locked
write_locked_written s world state = refl

pub write_locked_not_written :
    (s : Store) (world : Text) (state : CastleOwnershipState)
    → write_locked s world state not_written ≡ (s, some io)
unfolding write_locked
write_locked_not_written s world state = refl

-- A write that cannot sync has stored the same as one that can.
pub write_locked_not_synced :
    (s : Store) (world : Text) (state : CastleOwnershipState)
    → write_locked s world state not_synced ≡ ((write_locked s world state written).0, some io)
unfolding write_locked
write_locked_not_synced s world state = refl

pub load_locked-write_other :
    (s : Store) (world elsewhere : Text) (state : CastleOwnershipState) (w : Write)
    → world ≢ elsewhere
    → load_locked (write_locked s world state w).0 elsewhere ≡ load_locked s elsewhere
unfolding load_locked write_locked
load_locked-write_other s world elsewhere state written n =
    ground (arith, lookup-insert world elsewhere (decoded (wire_of world state)) s.files)
load_locked-write_other s world elsewhere state not_written n = refl
load_locked-write_other s world elsewhere state not_synced n =
    ground (arith, lookup-insert world elsewhere (decoded (wire_of world state)) s.files)

answer_write-store :
    (created : Bool) (state : CastleOwnershipState) (r : Store × Option Error)
    → (answer_write created state r).0 ≡ r.0
unfolding answer_write
answer_write-store created state (s, none) = refl
answer_write-store created state (s, some e) = refl

-- A call of Commit leaves the store or writes the transferred state of the record.
commit-store :
    (s : Store) (world : Text) (t : CastleOwnershipTransfer) (w : Write)
    → ((commit s world t w).0 ≡ s)
      ⊎ ((current : CastleOwnershipState) × ((commit s world t w).0
            ≡ (write_locked s world (transferred current t) w).0))
unfolding commit
commit-store s world t w = elim (Loaded-cases (load_locked s world)) [
  | inl e ↦ inl (ground arith)
  | inr (inl (err, e)) ↦ inl (ground arith)
  | inr (inr (current, e)) ↦
      let same =
        answer_write-store false (transferred current t)
          (write_locked s world (transferred current t) w) in
      elim (Bool-cases (is_empty world || not (valid_transfer t))) [
        | inl bad ↦ inl (ground arith)
        | inr good ↦ elim (Bool-cases (writes_transfer current t)) [
          | inl now ↦ inr (current, ground (arith, same))
          | inr later ↦ inl (ground arith)
        ]
      ]
]

-- No call of Commit changes the record of another world.
pub commit-elsewhere :
    (s : Store) (world elsewhere : Text) (t : CastleOwnershipTransfer) (w : Write)
    → world ≢ elsewhere
    → load_locked (commit s world t w).0 elsewhere ≡ load_locked s elsewhere
commit-elsewhere s world elsewhere t w n = elim (commit-store s world t w) [
  | inl e ↦ rw e refl
  | inr (current, e) ↦ rw e (load_locked-write_other s world elsewhere (transferred current t) w n)
]

-- Once LoadOrCreate has answered a state of a world, any later call with any other owner answers
-- that state again and changes nothing.
pub load_or_create_once :
    (s : Store) (world owner later_owner : Text) (w later_w : Write) (state : CastleOwnershipState)
    (created : Bool)
    → is_empty later_owner ≡ false
    → (load_or_create s world owner w).1 ≡ answer state created
    → let after = (load_or_create s world owner w).0 in
      load_or_create after world later_owner later_w ≡ (after, answer state false)
unfolding load_or_create answer_write
load_or_create_once s world owner later_owner written later_w state created n e =
    ground (arith, load_locked-write s world (initial owner))
load_or_create_once s world owner later_owner not_written later_w state created n e =
    ground (arith, write_locked_not_written s world (initial owner))
load_or_create_once s world owner later_owner not_synced later_w state created n e =
    ground (arith, write_locked_not_synced s world (initial owner))

-- The transfer changes the owner of the record as it stands.
abbrev pub Applies : Text → CastleOwnershipTransfer → CastleOwnershipState → Type 0
Applies world t current =
    (is_empty world ≡ false)
    × (requires_ownership_change t ≡ true)
    × (t.expected_revision ≡ current.revision)
    × (t.previous_owner_id ≡ current.owner_id)
    × (current.revision < max_u64)

module _ (s : Store) (world : Text) (t : CastleOwnershipTransfer) (current : CastleOwnershipState)
    (here : load_locked s world ≡ loaded current) (a : Applies world t current) where
  pub commit-applies :
      (w : Write)
      → commit s world t w
        ≡ answer_write false
            (transferred current t)
            (write_locked s world (transferred current t) w)
  unfolding commit
  commit-applies w = ground arith

  transferred-valid : valid_castle_ownership (transferred current t) ≡ true
  transferred-valid = ground arith

  -- A store that holds the transferred state already.
  commit-again :
      (after : Store) (w : Write)
      → load_locked after world ≡ loaded (transferred current t)
      → commit after world t w ≡ (after, answer (transferred current t) false)
  unfolding commit
  commit-again after w e = ground arith

  -- A transfer that applies is committed exactly once, however the first write ends: the same
  -- call again, with a write that succeeds, answers the transferred state and stores it, whether
  -- the first one wrote the record, failed to write it or failed after writing it.
  pub commit-retry :
      (w : Write)
      → let r = commit (commit s world t w).0 world t written in
        (r.1 ≡ answer (transferred current t) false)
        × (load_locked r.0 world ≡ loaded (transferred current t))
  unfolding answer_write
  commit-retry written =
      let stored = load_locked-write s world (transferred current t) transferred-valid in
      let after = (write_locked s world (transferred current t) written).0 in
      ground (arith, commit-applies written, commit-again after written stored, stored)
  commit-retry not_written =
      let stored = load_locked-write s world (transferred current t) transferred-valid in
      ground (
        arith,
        commit-applies not_written,
        commit-applies written,
        write_locked_not_written s world (transferred current t),
        write_locked_written s world (transferred current t),
        stored,
      )
  commit-retry not_synced =
      let stored = load_locked-write s world (transferred current t) transferred-valid in
      let after = (write_locked s world (transferred current t) written).0 in
      ground (
        arith,
        commit-applies not_synced,
        commit-again after written stored,
        write_locked_not_synced s world (transferred current t),
        stored,
      )

  -- A committed transfer fences every rival: another valid transfer that expects the same
  -- revision and names another owner or another match is refused as a conflict, and changes
  -- nothing.
  pub commit-fences :
      (rival : CastleOwnershipTransfer) (w : Write)
      → valid_transfer rival ≡ true
      → rival.expected_revision ≡ t.expected_revision
      → (rival.owner_id ≢ t.owner_id) ⊎ (rival.match_id ≢ t.match_id)
      → let after = (commit s world t written).0 in
        commit after world rival w ≡ (after, failure revision_conflict)
  unfolding answer_write commit
  commit-fences rival w v same other =
      let stored = load_locked-write s world (transferred current t) transferred-valid in
      let after = (write_locked s world (transferred current t) written).0 in
      rw
        (
          commit-applies written,
          answer_write-store false (transferred current t)
              (write_locked s world (transferred current t) written),
        )
        (ground (arith, stored))
