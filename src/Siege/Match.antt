-- ===== src/Siege/Match.antt =====
-- The match: configuration, participants, breach and resolution (internal/siege/match.go).
use astrahold_server.Common.{
  ℕ, Bool, true, false, not, ◌&&◌, ◌||◌, Option, none, some, [], ◌∷◌, Text, text_key, nat_key, Map,
  is_empty, is_some, ◌=?◌, ◌==◌, if◌then◌else◌, lookup, insert, delete, map_values,
}
use astrahold_server.Identity
use astrahold_server.Siege.{
  Team, unknown, valid_team, no_team, gate, is_gate, Error, match_unavailable,
  invalid_match_definition, invalid_participant, invalid_castle_ownership, ok, err, MatchDefinition,
  MatchState, CastleOwnershipState, Committer, MatchRuntime, ThroneRuntime,
  ThroneObjectiveDefinition, valid_objective, Service, next_revision, valid_castle_ownership,
  opposite_team,
}
use astrahold_server.Siege.Throne.{new_throne_runtime}

abbrev trusted_id : Text → Bool
trusted_id id = elim (Identity.new_trusted id) [
  | Identity.ok b ↦ b.id =? id
  | Identity.err _ ↦ false
]

valid_participants : Map Text Team → Bool
valid_participants [] = true
valid_participants ((id, team) ∷ teams) =
    trusted_id id && valid_team team && valid_participants teams

abbrev valid_throne : Option ThroneObjectiveDefinition → Text → Bool
valid_throne none id = true
valid_throne (some t) id = valid_objective t && t.id =? id

unfoldable pub valid_definition : MatchDefinition → Bool
unfolding valid_participants
valid_definition d =
    not (is_empty d.id)
    && not (is_empty d.attacker_id)
    && not (is_empty d.defender_id)
    && not (d.attacker_id =? d.defender_id)
    && not (is_empty d.breach_gate_id)
    && not (is_empty d.throne_objective_id)
    && valid_throne d.throne_definition d.throne_objective_id
    && valid_participants d.participant_teams

abbrev pub fresh_state : MatchDefinition → MatchState
fresh_state d = record {
  revision = 1;
  round = 1;
  match_id = d.id;
  attacker_id = d.attacker_id;
  defender_id = d.defender_id;
  phase = gate;
  breach_gate_id = d.breach_gate_id;
  throne_objective_id = d.throne_objective_id;
  gate_breached = false;
  winner_team = unknown;
  winner_id = [];
}

abbrev pub fresh_match : MatchDefinition → Option ThroneRuntime → MatchRuntime
fresh_match d t = record {
  definition = d;
  state = fresh_state d;
  ownership = record {
    revision = 1;
    owner_id = d.defender_id;
    previous_owner_id = [];
    last_transfer_match_id = [];
  };
  ownership_committer = none;
  participant_teams = [];
  trusted_participant_teams = d.participant_teams;
  throne_runtime = t;
}

unfoldable pub configure_throne :
    Service → MatchDefinition → Option ThroneObjectiveDefinition → Service × Option Error
configure_throne s d none = (record s { siege_match = some (fresh_match d none) }, none)
configure_throne s d (some t) = elim (new_throne_runtime t) [
  | err e ↦ (s, some e)
  | ok r ↦ (record s { siege_match = some (fresh_match d (some r)) }, none)
]

unfoldable pub configure_match : Service → MatchDefinition → Service × Option Error
unfolding configure_throne
configure_match s d =
    if not (valid_definition d)
    then (s, some invalid_match_definition)
    else if not (is_some (lookup d.breach_gate_id s.gates))
    then (s, some invalid_match_definition)
    else configure_throne s d d.throne_definition

abbrev pub bump_match_revision : MatchRuntime → MatchRuntime
bump_match_revision m = record m {
  state = record m.state { revision = next_revision m.state.revision };
}

abbrev pub valid_side_id : MatchRuntime → Text → Bool
valid_side_id m id = id =? m.definition.attacker_id || id =? m.definition.defender_id

-- The attacker and the defender of a round in which `owner` holds the castle.
unfoldable pub roles_for_owner : MatchRuntime → Text → Option (Text × Text)
roles_for_owner m owner =
    if owner =? m.definition.defender_id
    then some (m.definition.attacker_id, m.definition.defender_id)
    else if owner =? m.definition.attacker_id
    then some (m.definition.defender_id, m.definition.attacker_id)
    else none

unfoldable pub apply_roles : MatchRuntime → Text × Text → MatchRuntime
apply_roles m (attacker_id, defender_id) =
    let turned = if m.state.attacker_id =? attacker_id then m else record m {
      trusted_participant_teams = map_values opposite_team m.trusted_participant_teams;
      participant_teams = map_values opposite_team m.participant_teams;
    } in
    record turned {
      state = record m.state { attacker_id = attacker_id; defender_id = defender_id };
    }

unfoldable pub configure_roles :
    MatchRuntime
    → CastleOwnershipState
    → Committer
    → Option (Text × Text)
    → MatchRuntime × Option Error
configure_roles m ownership committer none = (m, some invalid_castle_ownership)
configure_roles m ownership committer (some roles) = (
  apply_roles
      (record m {
        ownership = ownership;
        ownership_committer = some committer;
        state = record m.state { round = ownership.revision };
      })
      roles,
  none,
)

unfoldable pub configure_ownership :
    MatchRuntime → CastleOwnershipState → Committer → MatchRuntime × Option Error
unfolding configure_roles
configure_ownership m ownership committer =
    if not (is_gate m.state.phase)
      || m.state.gate_breached
      || not (no_team m.state.winner_team)
      || not (is_empty m.state.winner_id)
    then (m, some invalid_castle_ownership)
    else if not (valid_castle_ownership ownership) || not (valid_side_id m ownership.owner_id)
    then (m, some invalid_castle_ownership)
    else configure_roles m ownership committer (roles_for_owner m ownership.owner_id)

-- A nil committer is `none`.
unfoldable pub configure_castle_ownership_persistence :
    Service → CastleOwnershipState → Option Committer → Service × Option Error
unfolding configure_ownership
configure_castle_ownership_persistence s ownership committer = elim s.siege_match [
  | none ↦ (s, some match_unavailable)
  | some m ↦ elim committer [
    | none ↦ (s, some invalid_castle_ownership)
    | some c ↦
        let r = configure_ownership m ownership c in (record s { siege_match = some r.0 }, r.1)
  ]
]

unfoldable pub assign_participant : Service → ℕ → Team → Service × Option Error
assign_participant s entity team = elim s.siege_match [
  | none ↦ (s, some match_unavailable)
  | some m ↦ if entity == 0 || not (valid_team team) then (s, some invalid_participant) else (
    record s {
      siege_match = some (record m { participant_teams = insert entity team m.participant_teams });
    },
    none,
  )
]

unfoldable pub assign_known : Service → ℕ → Option Team → Service × Bool × Option Error
assign_known s entity none = (s, false, none)
assign_known s entity (some team) =
    let r = assign_participant s entity team in (r.0, not (is_some r.1), r.1)

abbrev pub is_trusted : Identity.Assurance → Bool
is_trusted Identity.trusted = true
is_trusted _ = false

unfoldable pub assign_resolved_participant :
    Service → ℕ → Identity.Binding → Service × Bool × Option Error
unfolding assign_known
assign_resolved_participant s entity identity = elim s.siege_match [
  | none ↦ (s, false, some match_unavailable)
  | some m ↦
      if entity == 0 || not (Identity.valid identity)
      then (s, false, some invalid_participant)
      else if not (is_trusted identity.assurance)
      then (s, false, none)
      else assign_known s entity (lookup identity.id m.trusted_participant_teams)
]

unfoldable pub remove_participant : Service → ℕ → Service
remove_participant s entity = elim s.siege_match [
  | none ↦ s
  | some m ↦ if entity == 0 then s else record s {
    siege_match = some (record m { participant_teams = delete entity m.participant_teams });
  }
]

unfoldable pub participant_team : Service → ℕ → Option Team
participant_team s entity = elim s.siege_match [
  | none ↦ none
  | some m ↦ if entity == 0 then none else lookup entity m.participant_teams
]
