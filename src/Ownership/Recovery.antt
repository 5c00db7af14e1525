-- ===== src/Ownership/Recovery.antt =====
-- The match and the durable record, through the committer that a world gives to its match.
use astrahold_server.Common.{
  ◌<◌, ◌≡◌, refl, ◌⊎◌, Bool, true, false, Option, none, some, Text, text_key, max_u64, arith,
  is_empty,
}
use astrahold_server.Siege
use astrahold_server.Siege.{
  completed, CastleOwnershipState, CastleOwnershipTransfer, Committer, MatchRuntime, Result,
  valid_castle_ownership, requires_ownership_change,
}
use astrahold_server.Siege.Round.{
  prepare_resolution, accepts, completed_match, commit_resolution, commit_prepared,
  committed_ownership, resolve_committed, resolve,
}
use astrahold_server.Siege.Throne.{observe_match, advance_match}
use astrahold_server.Siege.Invariant.{Inv, prepared, prepared_moves}
use astrahold_server.Ownership.{
  Error, io, answer_write, Store, Write, written, not_written, not_synced, loaded, load_locked,
  Answer, answer, failure, commit, transferred,
}
use astrahold_server.Ownership.Commits.{
  Applies, commit-retry, commit-applies, load_locked-write, write_locked_written,
  write_locked_not_written, write_locked_not_synced,
}

abbrev answered : Answer → Result CastleOwnershipState
answered (answer state _) = Siege.ok state
answered (failure _) = Siege.err (Siege.storage 0)

-- The committer of a world whose store is `s` and whose next write ends as `w` says.
unfoldable pub store_committer : Store → Text → Write → Committer
store_committer s world w t = answered (commit s world t w).1

-- The store after a resolution has called its committer.
unfoldable pub store_after : MatchRuntime → Store → Text → Write → Store
store_after m s world w = elim (prepare_resolution m) [ none ↦ s | some t ↦ (commit s world t w).0 ]

unfoldable pub with_committer : MatchRuntime → Committer → MatchRuntime
with_committer m c = record m { ownership_committer = some c }

-- A resolution with the committer of a world, and the store that it leaves.
unfoldable pub resolve_stored :
    MatchRuntime → Store → Text → Write → (MatchRuntime × Bool × Option Siege.Error) × Store
resolve_stored m s world w =
    (resolve (with_committer m (store_committer s world w)), store_after m s world w)

-- The resolution succeeded: the match is completed, and the record holds its ownership.
abbrev pub IsDurable : Text → (MatchRuntime × Bool × Option Siege.Error) × Store → Type 0
IsDurable world r =
    (r.0.1 ≡ true)
    × (r.0.2 ≡ none)
    × (r.0.0.state.phase ≡ completed)
    × (load_locked r.1 world ≡ loaded r.0.0.ownership)

completed_match_lem :
    (m : MatchRuntime) (next : CastleOwnershipState)
    → ((completed_match m next).ownership ≡ next)
      × ((completed_match m next).state.phase ≡ completed)
      × ((completed_match m next).state.winner_id ≡ m.state.attacker_id)
unfolding completed_match observe_match advance_match
completed_match_lem m next = ground arith

module _ (m : MatchRuntime) (v : Inv m) (t : CastleOwnershipTransfer)
    (ready : prepare_resolution m ≡ some t) (world : Text) (named : is_empty world ≡ false)
    (room : m.ownership.revision < max_u64) where
  transfer-Applies : Applies world t m.ownership
  transfer-Applies = ground (arith, prepared m v ready, prepared_moves m v ready, v.owned)

  with_committer-ready : (c : Committer) → prepare_resolution (with_committer m c) ≡ some t
  unfolding prepare_resolution with_committer
  with_committer-ready c = ready

  committed-with :
      (c : Committer)
      → c t ≡ Siege.ok (transferred m.ownership t)
      → committed_ownership (with_committer m c) t ≡ Siege.ok (transferred m.ownership t)
  unfolding committed_ownership with_committer
  committed-with c e = ground (arith, prepared_moves m v ready, e)

  committed-failed :
      (c : Committer)
      → c t ≡ Siege.err (Siege.storage 0)
      → committed_ownership (with_committer m c) t ≡ Siege.err (Siege.storage 0)
  unfolding committed_ownership with_committer
  committed-failed c e = ground (arith, prepared_moves m v ready, e)

  transferred-accepted :
      (valid_castle_ownership (transferred m.ownership t) ≡ true)
      × (accepts m.ownership t (transferred m.ownership t) ≡ true)
  unfolding accepts
  transferred-accepted = ground (arith, prepared_moves m v ready, transfer-Applies)

  accepted_with :
      (c : Committer) → accepts (with_committer m c).ownership t (transferred m.ownership t) ≡ true
  unfolding with_committer
  accepted_with c = transferred-accepted.1

  commit_resolution-completes :
      (c : Committer)
      → commit_resolution (with_committer m c) (transferred m.ownership t)
        ≡ (completed_match (with_committer m c) (transferred m.ownership t), none)
  unfolding commit_resolution commit_prepared
  commit_resolution-completes c =
      rw (with_committer-ready c, commit_resolution, accepted_with c, transferred-accepted.0) refl

  resolve-completes :
      (c : Committer)
      → c t ≡ Siege.ok (transferred m.ownership t)
      → resolve (with_committer m c)
        ≡ (completed_match (with_committer m c) (transferred m.ownership t), true, none)
  unfolding resolve resolve_committed
  resolve-completes c e =
      rw (with_committer-ready c, resolve, committed-with c e, commit_resolution-completes c) refl

  store_after_lem : (s : Store) (w : Write) → store_after m s world w ≡ (commit s world t w).0
  unfolding store_after
  store_after_lem s w = rw (ready, store_after) refl

  -- A store whose Commit answers the transferred state, and then holds it.
  IsDurable-from :
      (s : Store)
      → (commit s world t written).1 ≡ answer (transferred m.ownership t) false
      → load_locked (commit s world t written).0 world ≡ loaded (transferred m.ownership t)
      → IsDurable world (resolve_stored m s world written)
  unfolding resolve_stored store_committer
  IsDurable-from s answers holds =
      let c = store_committer s world written in
      ground (
        arith,
        resolve-completes c (rw (answers, store_committer) refl),
        completed_match_lem (with_committer m c) (transferred m.ownership t),
        store_after_lem s written,
        holds,
      )

  -- A write that fails leaves the match as it is.
  failed-resolve :
      (s : Store) (w : Write) (e : Error)
      → (commit s world t w).1 ≡ failure e
      → resolve_stored m s world w ≡ (
        (with_committer m (store_committer s world w), false, some (Siege.storage 0)),
        (commit s world t w).0,
      )
  unfolding resolve_stored resolve resolve_committed committed_ownership store_committer
  failed-resolve s w e h =
      let c = store_committer s world w in
      ground (
        arith,
        with_committer-ready c,
        store_after_lem s w,
        prepared_moves m v ready,
        committed-failed c (rw (h, store_committer) refl),
      )

with_committer-Inv : (m : MatchRuntime) (c : Committer) → Inv m → Inv (with_committer m c)
unfolding with_committer
with_committer-Inv m c v = record {
  sides = v.sides;
  roles = v.roles;
  phase = v.phase;
  owned = v.owned;
  typed = v.typed;
  revised = v.revised;
}

module _ (m : MatchRuntime) (v : Inv m) (t : CastleOwnershipTransfer)
    (ready : prepare_resolution m ≡ some t) (world : Text) (named : is_empty world ≡ false)
    (room : m.ownership.revision < max_u64) (s : Store)
    (stored : load_locked s world ≡ loaded m.ownership) where
  applies : Applies world t m.ownership
  applies = transfer-Applies m v t ready world named room

  commit_written :
      ((commit s world t written).1 ≡ answer (transferred m.ownership t) false)
      × (load_locked (commit s world t written).0 world ≡ loaded (transferred m.ownership t))
  unfolding answer_write
  commit_written =
      let stores = load_locked-write s world (transferred m.ownership t) in
      ground (
        arith,
        commit-applies s world t m.ownership stored applies written,
        write_locked_written s world (transferred m.ownership t),
        stores (transferred-accepted m v t ready world named room).0,
      )

  commit_failed :
      (w : Write) → (w ≡ not_written) ⊎ (w ≡ not_synced) → (commit s world t w).1 ≡ failure io
  unfolding answer_write
  commit_failed written h = ground arith
  commit_failed not_written h = ground (
    arith,
    commit-applies s world t m.ownership stored applies not_written,
    write_locked_not_written s world (transferred m.ownership t),
  )
  commit_failed not_synced h = ground (
    arith,
    commit-applies s world t m.ownership stored applies not_synced,
    write_locked_not_synced s world (transferred m.ownership t),
  )

  -- Resolving a ready throne phase against the durable record of its world: when the write
  -- succeeds, the match is completed and the record holds its new ownership.
  pub resolve_stored-IsDurable : IsDurable world (resolve_stored m s world written)
  resolve_stored-IsDurable =
      ground (arith, commit_written, IsDurable-from m v t ready world named room s)

  -- When the write fails, before or after it has replaced the record, the match is not completed
  -- and keeps its state and ownership, and resolving it again, with a write that succeeds,
  -- completes it with a record that holds its new ownership.
  pub resolve_stored-recovers :
      (w : Write)
      → (w ≡ not_written) ⊎ (w ≡ not_synced)
      → let first = resolve_stored m s world w in
        (first.0.1 ≡ false)
        × (first.0.0.state ≡ m.state)
        × (first.0.0.ownership ≡ m.ownership)
        × IsDurable world (resolve_stored first.0.0 first.1 world written)
  unfolding with_committer
  resolve_stored-recovers w n =
      let c = store_committer s world w in
      let retry = commit-retry s world t m.ownership stored applies w in
      let second =
        IsDurable-from (with_committer m c) (with_committer-Inv m c v) t
          (with_committer-ready m v t ready world named room c) world named room
          (commit s world t w).0 retry.0 retry.1 in
      let first = failed-resolve m v t ready world named room s w io (commit_failed w n) in
      rw first (refl, refl, refl, second)
