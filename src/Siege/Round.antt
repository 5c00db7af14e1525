-- ===== src/Siege/Round.antt =====
-- From the breach of the gate to the next round (internal/siege/match.go).
use astrahold_server.Common.{
  ℕ, Bool, true, false, not, ◌&&◌, ◌||◌, Option, none, some, [], Text, text_key, ℤ, pos, negsuc,
  is_empty, is_some, ◌=?◌, ◌==◌, if◌then◌else◌, lookup, insert, keep, max_u64, add_u64,
}
use astrahold_server.Scene.{Navigator, blocker_enabled, set_blocker_enabled}
use astrahold_server.Siege.{
  unknown, attacker, no_team, gate, throne, completed, is_gate, is_throne, is_completed, Error,
  match_unavailable, invalid_castle_ownership, throne_resolution_unavailable,
  round_reset_unavailable, unknown_blocker, Result, ok, err, CastleOwnershipState,
  CastleOwnershipTransfer, MatchRuntime, GateRuntime, ThroneRuntime, ThroneCaptureState, Service,
  next_revision, valid_castle_ownership, requires_ownership_change, on_match, attack_key,
}
use astrahold_server.Siege.Throne.{
  observe_match, advance_match, same_throne_presence, same_throne_capture, presence_of, nobody,
}
use astrahold_server.Siege.Match.{bump_match_revision, valid_side_id, roles_for_owner, apply_roles}

pub record GateState : Type 0 where
  pub id : Text
  pub hp : ℕ
  pub max_hp : ℕ
  pub destroyed : Bool

unfoldable pub observe_gate : MatchRuntime → GateState → MatchRuntime × Bool
observe_gate m g =
    if not (g.id =? m.definition.breach_gate_id) || not g.destroyed || not (is_gate m.state.phase)
    then (m, false)
    else (
      bump_match_revision
          (record m { state = record m.state { gate_breached = true; phase = throne } }),
      true,
    )

unfoldable pub observe_gate_state : Service → GateState → Service × Bool
observe_gate_state s g = on_match s false (λ m. observe_gate m g)

abbrev pub capture_of : MatchRuntime → Option ThroneCaptureState
capture_of m = elim m.throne_runtime [ none ↦ none | some t ↦ t.capture ]

-- PrepareThroneCaptureResolution
unfoldable pub prepare_resolution : MatchRuntime → Option CastleOwnershipTransfer
prepare_resolution m = elim (capture_of m) [
  | none ↦ none
  | some c ↦
      if not (is_throne m.state.phase)
        || not (no_team m.state.winner_team)
        || not (is_empty m.state.winner_id)
      then none
      else if not c.ready_for_resolution || not (valid_castle_ownership m.ownership)
      then none
      else some (record {
        expected_revision = m.ownership.revision;
        previous_owner_id = m.ownership.owner_id;
        owner_id = m.state.attacker_id;
        match_id = m.definition.id;
      })
]

abbrev pub same_ownership : CastleOwnershipState → CastleOwnershipState → Bool
same_ownership a b =
    a.revision == b.revision
    && a.owner_id =? b.owner_id
    && a.previous_owner_id =? b.previous_owner_id
    && a.last_transfer_match_id =? b.last_transfer_match_id

-- Whether a committed snapshot is the result of the prepared transfer.
unfoldable pub accepts :
    CastleOwnershipState → CastleOwnershipTransfer → CastleOwnershipState → Bool
accepts current t next =
    if requires_ownership_change t
    then not (t.expected_revision == max_u64)
      && next.revision == add_u64 t.expected_revision 1
      && next.previous_owner_id =? t.previous_owner_id
      && next.owner_id =? t.owner_id
      && next.last_transfer_match_id =? t.match_id
    else same_ownership next current

-- The state that a committed resolution publishes.
unfoldable pub completed_match : MatchRuntime → CastleOwnershipState → MatchRuntime
completed_match m next =
    let ended = bump_match_revision (record m {
      state = record m.state {
        phase = completed;
        winner_team = attacker;
        winner_id = m.state.attacker_id;
      };
    }) in
    (advance_match (observe_match (record ended { ownership = next }) []).0 (pos 0)).0

unfoldable pub commit_prepared :
    MatchRuntime
    → CastleOwnershipState
    → Option CastleOwnershipTransfer
    → MatchRuntime × Option Error
commit_prepared m next none = (m, some throne_resolution_unavailable)
commit_prepared m next (some t) =
    if not (valid_castle_ownership next)
    then (m, some invalid_castle_ownership)
    else if not (accepts m.ownership t next)
    then (m, some invalid_castle_ownership)
    else (completed_match m next, none)

unfoldable pub commit_resolution : MatchRuntime → CastleOwnershipState → MatchRuntime × Option Error
unfolding commit_prepared
commit_resolution m next = commit_prepared m next (prepare_resolution m)

-- The snapshot that ResolveThroneCaptureWithError commits for a prepared transfer.
unfoldable pub committed_ownership :
    MatchRuntime → CastleOwnershipTransfer → Result CastleOwnershipState
committed_ownership m t =
    if not (requires_ownership_change t) then ok m.ownership else elim m.ownership_committer [
      | some commit ↦ commit t
      | none ↦
          if t.expected_revision == max_u64
          then err invalid_castle_ownership
          else ok (record {
            revision = add_u64 t.expected_revision 1;
            owner_id = t.owner_id;
            previous_owner_id = t.previous_owner_id;
            last_transfer_match_id = t.match_id;
          })
    ]

unfoldable pub resolve_committed :
    MatchRuntime → Result CastleOwnershipState → MatchRuntime × Bool × Option Error
resolve_committed m (err e) = (m, false, some e)
resolve_committed m (ok next) = let r = commit_resolution m next in (r.0, not (is_some r.1), r.1)

unfoldable pub resolve : MatchRuntime → MatchRuntime × Bool × Option Error
unfolding resolve_committed
resolve m = elim (prepare_resolution m) [
  | none ↦ (m, false, none)
  | some t ↦ resolve_committed m (committed_ownership m t)
]

unfoldable pub resolve_throne_capture_with_error : Service → Service × Bool × Option Error
resolve_throne_capture_with_error s = elim s.siege_match [
  | none ↦ (s, false, none)
  | some m ↦ let r = resolve m in (record s { siege_match = some r.0 }, r.1, r.2)
]

unfoldable pub resolve_throne_capture : Service → Service × Bool
unfolding resolve_throne_capture_with_error
resolve_throne_capture s = let r = resolve_throne_capture_with_error s in (r.0, r.1)

-- A throne has a capture state only where its duration is positive.
abbrev pub nanoseconds : ℤ → ℕ
nanoseconds (pos n) = n
nanoseconds (negsuc n) = 0

reset_capture : ThroneRuntime → ThroneCaptureState → ThroneCaptureState
reset_capture t c =
    let next : ThroneCaptureState = record {
      revision = c.revision;
      objective_id = t.definition.id;
      active = false;
      progress = 0;
      required = nanoseconds t.definition.capture_duration;
      ready_for_resolution = false;
    } in
    if same_throne_capture c next then c else record next { revision = next_revision c.revision }

reset_throne : ThroneRuntime → ThroneRuntime
unfolding reset_capture
reset_throne t =
    let next = presence_of t false nobody in
    record t {
      state =
          if same_throne_presence t.state next
          then t.state
          else record next { revision = next_revision t.state.revision };
      capture = elim t.capture [ none ↦ none | some c ↦ some (reset_capture t c) ];
    }

unfoldable pub reset_throne_for_next_round : MatchRuntime → MatchRuntime
unfolding reset_throne
reset_throne_for_next_round m = elim m.throne_runtime [
  | none ↦ m
  | some t ↦ record m { throne_runtime = some (reset_throne t) }
]

-- The match of the next round, in the roles that ownership gives.
unfoldable pub next_round : MatchRuntime → Text × Text → MatchRuntime
unfolding reset_throne_for_next_round
next_round m roles =
    let fresh = reset_throne_for_next_round m in
    bump_match_revision (
      apply_roles
        (record fresh {
          state = record m.state {
            round = m.ownership.revision;
            phase = gate;
            gate_breached = false;
            winner_team = unknown;
            winner_id = [];
          };
        })
        roles)

-- The part of StartNextRound that changes state: the gate is whole again and its cooldowns end.
unfoldable pub restarted : Service → MatchRuntime → GateRuntime → Text × Text → Service
unfolding next_round
restarted s m g roles = record s {
  gates = insert m.definition.breach_gate_id (record g { hp = g.definition.max_hp }) s.gates;
  next_attack_tick = keep (λ key _. not (key.1 =? g.definition.id)) s.next_attack_tick;
  siege_match = some (next_round m roles);
}

-- What StartNextRound returns: the service, the scene, whether a round started, and the error.
abbrev pub Restart : Type 0
Restart = Service × Option Navigator × Bool × Option Error

unfoldable pub restart_enabled :
    Service → MatchRuntime → GateRuntime → Text × Text → Navigator → Option Bool → Restart
unfolding restarted
restart_enabled s m g roles scene none = (s, some scene, false, some unknown_blocker)
restart_enabled s m g roles scene (some true) = (restarted s m g roles, some scene, true, none)
restart_enabled s m g roles scene (some false) =
    elim (set_blocker_enabled scene g.definition.blocker_id true) [
      | none ↦ (s, some scene, false, some unknown_blocker)
      | some after ↦ (restarted s m g roles, some after, true, none)
    ]

unfoldable pub restart_gate :
    Service → MatchRuntime → Text × Text → Navigator → Option GateRuntime → Restart
unfolding restart_enabled
restart_gate s m roles scene none = (s, some scene, false, some round_reset_unavailable)
restart_gate s m roles scene (some g) =
    if is_empty g.definition.blocker_id
    then (s, some scene, false, some round_reset_unavailable)
    else restart_enabled s m g roles scene (blocker_enabled scene g.definition.blocker_id)

unfoldable pub restart_roles : Service → MatchRuntime → Navigator → Option (Text × Text) → Restart
unfolding restart_gate
restart_roles s m scene none = (s, some scene, false, some round_reset_unavailable)
restart_roles s m scene (some roles) =
    if not (m.ownership.owner_id =? m.state.winner_id)
    then (s, some scene, false, some round_reset_unavailable)
    else restart_gate s m roles scene (lookup m.definition.breach_gate_id s.gates)

unfoldable pub restart_match : Service → MatchRuntime → Option Navigator → Restart
unfolding restart_roles
restart_match s m none = (s, none, false, some round_reset_unavailable)
restart_match s m (some scene) =
    if not (valid_castle_ownership m.ownership) || not (valid_side_id m m.ownership.owner_id)
    then (s, some scene, false, some round_reset_unavailable)
    else if m.state.round == max_u64 || not (m.ownership.revision == add_u64 m.state.round 1)
    then (s, some scene, false, some round_reset_unavailable)
    else restart_roles s m scene (roles_for_owner m m.ownership.owner_id)

unfoldable pub start_next_round : Service → Option Navigator → Restart
unfolding restart_match
start_next_round s scene = elim s.siege_match [
  | none ↦ (s, scene, false, some match_unavailable)
  | some m ↦
      if not (is_completed m.state.phase) then (s, scene, false, none) else restart_match s m scene
]
