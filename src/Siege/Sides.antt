-- ===== src/Siege/Sides.antt =====
-- The sides of the participants when the roles of a round turn.
use astrahold_server.Common.{
  ℕ, ◌≡◌, ◌≢◌, ◌⊎◌, Option, some, Text, text_key, nat_key, arith, lookup, lookup-map_values, [],
}
use astrahold_server.Siege.{
  Team, attacker, defender, MatchRuntime, MatchState, opposite_team, completed,
}
use astrahold_server.Siege.Match.{apply_roles, roles_for_owner}
use astrahold_server.Siege.Round.{next_round, reset_throne_for_next_round}
use astrahold_server.Siege.Invariant.{Inv}

-- The name of the side that a team fights for in this round; other teams have none.
abbrev pub side : MatchState → Option Team → Text
side s (some attacker) = s.attacker_id
side s (some defender) = s.defender_id
side s _ = []

-- Roles of a match: those of the round, or the same two the other way round.
abbrev pub Turns : MatchState → Text → Text → Type 0
Turns s a d =
    ((a ≡ s.attacker_id) × (d ≡ s.defender_id)) ⊎ ((a ≡ s.defender_id) × (d ≡ s.attacker_id))

module _ (m : MatchRuntime) (a d : Text) (differ : m.state.attacker_id ≢ m.state.defender_id)
    (turn : Turns m.state a d) where
  apply_roles-side :
      (e : ℕ)
      → side (apply_roles m (a, d)).state (lookup e (apply_roles m (a, d)).participant_teams)
        ≡ side m.state (lookup e m.participant_teams)
  unfolding apply_roles opposite_team
  apply_roles-side e = ground (arith, lookup-map_values opposite_team e m.participant_teams)

  apply_roles-trusted_side :
      (id : Text)
      → side
          (apply_roles m (a, d)).state
          (lookup id (apply_roles m (a, d)).trusted_participant_teams)
        ≡ side m.state (lookup id m.trusted_participant_teams)
  unfolding apply_roles opposite_team
  apply_roles-trusted_side id =
      ground (arith, lookup-map_values opposite_team id m.trusted_participant_teams)

-- In the roles that follow a completed round the winner defends.
pub turned_roles :
    (m : MatchRuntime)
    → Inv m
    → m.state.phase ≡ completed
    → roles_for_owner m m.ownership.owner_id ≡ some (m.state.defender_id, m.state.attacker_id)
unfolding roles_for_owner
turned_roles m v e = ground arith

pub roles_differ : (m : MatchRuntime) → Inv m → m.state.attacker_id ≢ m.state.defender_id
roles_differ m v = ground arith

abbrev pub following : MatchRuntime → MatchRuntime
following m = next_round m (m.state.defender_id, m.state.attacker_id)

module _ (m : MatchRuntime) (v : Inv m) (won : m.state.phase ≡ completed) where
  reset_throne-participants :
      (reset_throne_for_next_round m).participant_teams ≡ m.participant_teams
  unfolding reset_throne_for_next_round
  reset_throne-participants = ground arith

  reset_throne-trusted :
      (reset_throne_for_next_round m).trusted_participant_teams ≡ m.trusted_participant_teams
  unfolding reset_throne_for_next_round
  reset_throne-trusted = ground arith

  -- The next round has the winner as its defender and the other side as its attacker, and every
  -- participant, assigned or on the trusted roster, fights for the side that it fought for.
  pub next_round-side :
      ((following m).state.defender_id ≡ m.state.winner_id)
      × ((following m).state.attacker_id ≡ m.state.defender_id)
      × ((e : ℕ)
          → side (following m).state (lookup e (following m).participant_teams)
            ≡ side m.state (lookup e m.participant_teams))
      × ((id : Text)
          → side (following m).state (lookup id (following m).trusted_participant_teams)
            ≡ side m.state (lookup id m.trusted_participant_teams))
  unfolding next_round apply_roles opposite_team
  next_round-side = (
    ground arith,
    ground arith,
    λ e. ground (
      arith,
      reset_throne-participants,
      roles_differ m v,
      lookup-map_values opposite_team e m.participant_teams,
    ),
    λ id. ground (
      arith,
      reset_throne-trusted,
      roles_differ m v,
      lookup-map_values opposite_team id m.trusted_participant_teams,
    ),
  )
