-- ===== src/Siege/Invariant.antt =====
-- What holds of a match between two calls.
use astrahold_server.Common.{
  ℕ, ◌+◌, ◌≤◌, ◌<◌, ◌≡◌, ◌≢◌, ◌⊎◌, inl, inr, true, false, Option, none, some, [], List, Text,
  text_key, arith, is_empty, max_u64, Option-cases, ℤ, is_some, subst, sym,
}
use astrahold_server.Siege.{
  MatchPhase, gate, throne, completed, unset, unknown, attacker, MatchDefinition, MatchRuntime,
  MatchState, CastleOwnershipState, CastleOwnershipTransfer, Committer, ThroneRuntime,
  valid_castle_ownership, next_revision, Result, ok, err, requires_ownership_change,
}
use astrahold_server.Siege.Match.{
  valid_definition, fresh_match, configure_ownership, apply_roles, roles_for_owner,
}
use astrahold_server.Siege.Round.{
  GateState, observe_gate, prepare_resolution, accepts, completed_match, commit_resolution, resolve,
  next_round, committed_ownership, resolve_committed,
}
use astrahold_server.Siege.Throne.{ParticipantPresence, observe_match, advance_match}

-- The two sides of a definition are named and differ.
abbrev pub HasSides : MatchDefinition → Type 0
HasSides d =
    (is_empty d.id ≡ false)
    × (is_empty d.attacker_id ≡ false)
    × (is_empty d.defender_id ≡ false)
    × (d.attacker_id ≢ d.defender_id)

-- The roles of a round are the two sides, in either order.
abbrev pub InRoles : MatchDefinition → MatchState → Type 0
InRoles d s =
    ((s.attacker_id ≡ d.attacker_id) × (s.defender_id ≡ d.defender_id))
    ⊎ ((s.attacker_id ≡ d.defender_id) × (s.defender_id ≡ d.attacker_id))

-- The owner defends, in a round that has the number of the ownership revision.
abbrev pub IsOpen : MatchState → CastleOwnershipState → Type 0
IsOpen s o =
    (o.owner_id ≡ s.defender_id)
    × (o.revision ≡ s.round)
    × (s.winner_team ≡ unknown)
    × (s.winner_id ≡ [])

-- The attacker has won and owns the castle, by the next ownership revision.
abbrev pub IsWon : MatchState → CastleOwnershipState → Type 0
IsWon s o =
    (o.owner_id ≡ s.attacker_id)
    × (o.revision ≡ s.round + 1)
    × (s.winner_team ≡ attacker)
    × (s.winner_id ≡ s.attacker_id)

abbrev pub InPhase : MatchPhase → MatchState → CastleOwnershipState → Type 0
InPhase unset s o = ⊥
InPhase gate s o = IsOpen s o × (s.gate_breached ≡ false)
InPhase throne s o = IsOpen s o × (s.gate_breached ≡ true)
InPhase completed s o = IsWon s o × (s.gate_breached ≡ true)

pub record Inv (m : MatchRuntime) : Type 0 where
  pub sides : HasSides m.definition
  pub roles : InRoles m.definition m.state
  pub phase : InPhase m.state.phase m.state m.ownership
  pub owned : valid_castle_ownership m.ownership ≡ true
  pub typed : (m.ownership.revision ≤ max_u64) × (m.state.revision ≤ max_u64)
  pub revised : m.state.revision ≢ 0

pub next_revision_positive : (r : ℕ) → (next_revision r ≢ 0) × (next_revision r ≤ max_u64)
unfolding next_revision
next_revision_positive r = ground arith

pub valid_definition-HasSides : (d : MatchDefinition) → valid_definition d ≡ true → HasSides d
unfolding valid_definition
valid_definition-HasSides d h = ground arith

pub fresh_match-Inv :
    (d : MatchDefinition) (t : Option ThroneRuntime) → HasSides d → Inv (fresh_match d t)
fresh_match-Inv d t h = ground arith

module _ (m : MatchRuntime) (v : Inv m) where
  pub observe_gate-Inv : (g : GateState) → Inv (observe_gate m g).0
  unfolding observe_gate
  observe_gate-Inv g = ground (arith, next_revision_positive m.state.revision)

  pub observe_match-Inv : (os : List ParticipantPresence) → Inv (observe_match m os).0
  unfolding observe_match
  observe_match-Inv os = ground arith

  pub advance_match-Inv : (delta : ℤ) → Inv (advance_match m delta).0
  unfolding advance_match
  advance_match-Inv delta = ground arith

  -- The transfer that a throne phase prepares moves the castle from the defender to the attacker.
  pub prepared :
      {t : CastleOwnershipTransfer}
      → prepare_resolution m ≡ some t
      → (m.state.phase ≡ throne)
        × (t.expected_revision ≡ m.ownership.revision)
        × (t.previous_owner_id ≡ m.state.defender_id)
        × (t.owner_id ≡ m.state.attacker_id)
        × (t.match_id ≡ m.definition.id)
  unfolding prepare_resolution
  prepared e = ground arith

  pub prepared_moves :
      {t : CastleOwnershipTransfer}
      → prepare_resolution m ≡ some t
      → requires_ownership_change t ≡ true
  prepared_moves {t} e = ground (arith, prepared e)

module _ (m : MatchRuntime) (v : Inv m) (next : CastleOwnershipState) (t : CastleOwnershipTransfer)
    (ready : prepare_resolution m ≡ some t) (sound : valid_castle_ownership next ≡ true)
    (accepted : accepts m.ownership t next ≡ true) where
  pub accepted_next :
      (next.revision ≡ m.state.round + 1)
      × (m.state.round < max_u64)
      × (next.owner_id ≡ m.state.attacker_id)
      × (next.previous_owner_id ≡ m.state.defender_id)
  unfolding accepts
  accepted_next = ground (arith, prepared m v ready, prepared_moves m v ready)

  abbrev ended : MatchRuntime
  ended = record m {
    state = record m.state {
      phase = completed;
      winner_team = attacker;
      winner_id = m.state.attacker_id;
      revision = next_revision m.state.revision;
    };
    ownership = next;
  }

  ended-Inv : Inv ended
  ended-Inv =
      ground (arith, accepted_next, prepared m v ready, next_revision_positive m.state.revision)

  pub completed_match-Inv : Inv (completed_match m next)
  unfolding completed_match
  completed_match-Inv =
      advance_match-Inv (observe_match ended []).0 (observe_match-Inv ended ended-Inv []) (ℤ.pos 0)

-- What a call of CommitThroneCaptureResolution does.
pub commit-cases :
    (m : MatchRuntime) (next : CastleOwnershipState)
    → ((commit_resolution m next).0 ≡ m) × (is_some (commit_resolution m next).1 ≡ true)
      ⊎ ((t : CastleOwnershipTransfer) × (prepare_resolution m ≡ some t)
          × (valid_castle_ownership next ≡ true)
          × (accepts m.ownership t next ≡ true)
          × (commit_resolution m next ≡ (completed_match m next, none)))
unfolding commit_resolution
commit-cases m next = ground arith

pub commit_resolution-Inv :
    (m : MatchRuntime) (next : CastleOwnershipState) → Inv m → Inv (commit_resolution m next).0
commit_resolution-Inv m next v = elim (commit-cases m next) [
  | inl (same, _) ↦ subst Inv (sym same) v
  | inr (t, ready, sound, accepted, e) ↦ rw e (completed_match-Inv m v next t ready sound accepted)
]

resolve_committed-Inv :
    (m : MatchRuntime) (r : Result CastleOwnershipState) → Inv m → Inv (resolve_committed m r).0
unfolding resolve_committed
resolve_committed-Inv m (ok next) v = commit_resolution-Inv m next v
resolve_committed-Inv m (err e) v = v

pub resolve-Inv : (m : MatchRuntime) → Inv m → Inv (resolve m).0
unfolding resolve
resolve-Inv m v = elim (Option-cases (prepare_resolution m)) [
  | inl e ↦ rw (e, resolve) v
  | inr (t, e) ↦ rw (e, resolve) (resolve_committed-Inv m (committed_ownership m t) v)
]

-- The roles of a round are those that the owner of the castle gives.
pub roles_for_owner-sides :
    (m : MatchRuntime) (owner : Text) (a d : Text)
    → HasSides m.definition
    → roles_for_owner m owner ≡ some (a, d)
    → (owner ≡ d)
      × (((a ≡ m.definition.attacker_id) × (d ≡ m.definition.defender_id))
          ⊎ ((a ≡ m.definition.defender_id) × (d ≡ m.definition.attacker_id)))
unfolding roles_for_owner
roles_for_owner-sides m owner a d h e = ground arith

pub configure_ownership-Inv :
    (m : MatchRuntime) (o : CastleOwnershipState) (c : Committer)
    → o.revision ≤ max_u64
    → Inv m
    → Inv (configure_ownership m o c).0
unfolding configure_ownership roles_for_owner apply_roles
configure_ownership-Inv m o c h v = ground arith

pub next_round-Inv :
    (m : MatchRuntime) (a d : Text)
    → Inv m
    → m.state.phase ≡ completed
    → roles_for_owner m m.ownership.owner_id ≡ some (a, d)
    → Inv (next_round m (a, d))
unfolding next_round apply_roles
next_round-Inv m a d v e r = ground (
  arith,
  roles_for_owner-sides m m.ownership.owner_id a d v.sides r,
  next_revision_positive m.state.revision,
)
