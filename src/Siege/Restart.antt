-- ===== src/Siege/Restart.antt =====
-- StartNextRound from a completed match.
use astrahold_server.Common.{
  ◌+◌, ◌≡◌, ◌≢◌, refl, none, some, Bool, true, false, Text, text_key, arith, lookup, insert,
  lookup-insert, Bool-cases, is_empty, inl, inr, get_or, ite,
}
use astrahold_server.Scene.{Navigator, Blocker, blocker_enabled, set_blocker_enabled}
use astrahold_server.Siege.{MatchRuntime, Service, GateRuntime, gate, completed, attack_key}
use astrahold_server.Siege.Match.{apply_roles}
use astrahold_server.Siege.Round.{start_next_round, restarted, next_round}
use astrahold_server.Siege.Invariant.{Inv, next_round-Inv}
use astrahold_server.Siege.Sides.{turned_roles, following}

-- A known blocker can be enabled, and then reads as enabled; no other blocker changes.
pub set-blocker_enabled :
    (n : Navigator) (id : Text) (b : Blocker) (on : Bool)
    → lookup id n.blockers ≡ some b
    → (n' : Navigator) × (set_blocker_enabled n id on ≡ some n')
      × (blocker_enabled n' id ≡ some on)
      × ((j : Text) → id ≢ j → blocker_enabled n' j ≡ blocker_enabled n j)
unfolding set_blocker_enabled blocker_enabled
set-blocker_enabled n id b on known = (
  record n { enabled = insert id on n.enabled },
  ground arith,
  ground (arith, lookup-insert id id on n.enabled),
  λ j h. ground (arith, lookup-insert id j on n.enabled),
)

module _ (s : Service) (m : MatchRuntime) (g : GateRuntime) (scene : Navigator) (b : Blocker) where
  -- The round can end and begin: the gate of the match exists and its blocker is known.
  abbrev pub CanRestart : Type 0
  CanRestart =
      (s.siege_match ≡ some m)
      × Inv m
      × (m.state.phase ≡ completed)
      × (lookup m.definition.breach_gate_id s.gates ≡ some g)
      × (is_empty g.definition.blocker_id ≡ false)
      × (lookup g.definition.blocker_id scene.blockers ≡ some b)

  abbrev pub Restarted : Navigator → Type 0
  Restarted after =
      (start_next_round s (some scene)
        ≡ (restarted s m g (m.state.defender_id, m.state.attacker_id), some after, true, none))
      × (blocker_enabled after g.definition.blocker_id ≡ some true)

  restart-Restarted : CanRestart → (after : Navigator) × Restarted after
  unfolding start_next_round blocker_enabled
  restart-Restarted (here, v, won, found, named, known) =
      let roles = turned_roles m v won in
      let (opened, sets, on, _) = set-blocker_enabled scene g.definition.blocker_id b true known in
      elim (Bool-cases (get_or false (lookup g.definition.blocker_id scene.enabled))) [
        | inl already ↦ (scene, (ground (arith, roles), ground arith))
        | inr closed ↦ (opened, (ground (arith, roles, sets), on))
      ]

  -- From a completed match whose gate has a known blocker, StartNextRound starts a round: the
  -- phase is the gate phase of the next number, its gate has all its hit points and an enabled
  -- blocker again, the other gates are as they were, and the match keeps its invariant.
  pub start_next_round_succeeds :
      CanRestart
      → (after : Navigator) × (start_next_round s (some scene)
          ≡ (restarted s m g (m.state.defender_id, m.state.attacker_id), some after, true, none))
        × (blocker_enabled after g.definition.blocker_id ≡ some true)
        × ((start_next_round s (some scene)).0.siege_match ≡ some (following m))
        × ((following m).state.phase ≡ gate)
        × ((following m).state.round ≡ m.state.round + 1)
        × Inv (following m)
        × ((id : Text)
            → lookup id (start_next_round s (some scene)).0.gates
              ≡ ite
                  (text_key.same? m.definition.breach_gate_id id)
                  (some (record g { hp = g.definition.max_hp }))
                  (lookup id s.gates))
  unfolding restarted next_round apply_roles
  start_next_round_succeeds can =
      let (after, (result, on)) = restart-Restarted can in
      (
        after,
        result,
        on,
        rw result refl,
        ground arith,
        ground (arith, can.1),
        next_round-Inv m m.state.defender_id m.state.attacker_id can.1 can.2
            (turned_roles m can.1 can.2),
        λ id. rw result (
            lookup-insert m.definition.breach_gate_id id (record g { hp = g.definition.max_hp })
              s.gates),
      )
