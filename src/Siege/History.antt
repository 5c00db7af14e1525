-- ===== src/Siege/History.antt =====
-- Any sequence of calls on the match of a service.
use astrahold_server.Common.{
  ℕ, ◌≤◌, ◌≡◌, refl, inl, inr, Bool, true, false, not, Option, none, some, Text, text_key, nat_key,
  arith, is_empty, is_some, Option-cases, Bool-cases, max_u64, lookup, insert, delete, Map, subst,
  ◌||◌, ◌=?◌, ◌==◌, add_u64,
}
use astrahold_server.Identity
use astrahold_server.Scene.{Navigator, blocker_enabled, set_blocker_enabled}
use astrahold_server.Siege.{
  Team, MatchPhase, valid_castle_ownership, valid_team, completed, is_completed, MatchDefinition,
  ThroneObjectiveDefinition, Result-cases, MatchRuntime, CastleOwnershipState, Committer,
  GateRuntime, Service, on_match,
}
use astrahold_server.Siege.Match.{
  configure_match, configure_castle_ownership_persistence, assign_participant,
  assign_resolved_participant, remove_participant, roles_for_owner, valid_side_id, valid_definition,
  configure_throne, is_trusted, assign_known,
}
use astrahold_server.Siege.Round.{
  resolve_throne_capture_with_error, restarted, restart_enabled, restart_gate, restart_roles,
  restart_match, start_next_round,
}
use astrahold_server.Siege.Throne.{new_throne_runtime}
use astrahold_server.Siege.Invariant.{
  Inv, HasSides, valid_definition-HasSides, fresh_match-Inv, resolve-Inv, configure_ownership-Inv,
  next_round-Inv,
}

abbrev pub MatchInv : Option MatchRuntime → Type 0
MatchInv none = Unit
MatchInv (some m) = Inv m

-- The match of a service, where it has one, keeps its invariant.
abbrev pub ServiceInv : Service → Type 0
ServiceInv s = MatchInv s.siege_match

pub on_match-Inv :
    {A : Type 0} (s : Service) (a : A) (f : MatchRuntime → MatchRuntime × A)
    → ((m : MatchRuntime) → Inv m → Inv (f m).0)
    → ServiceInv s
    → ServiceInv (on_match s a f).0
on_match-Inv {A} s a f keeps v = elim (Option-cases s.siege_match) [
  | inl e ↦ rw e tt
  | inr (n, e) ↦ rw e (keeps n (subst MatchInv e v))
]

configure_throne-Inv :
    (s : Service) (d : MatchDefinition) (t : Option ThroneObjectiveDefinition)
    → HasSides d
    → ServiceInv s
    → ServiceInv (configure_throne s d t).0
unfolding configure_throne
configure_throne-Inv s d none h v = fresh_match-Inv d none h
configure_throne-Inv s d (some t) h v = elim (Result-cases (new_throne_runtime t)) [
  | inl (r, e) ↦ rw (e, configure_throne) (fresh_match-Inv d (some r) h)
  | inr (error, e) ↦ rw (e, configure_throne) v
]

pub configure_match-Inv :
    (s : Service) (d : MatchDefinition) → ServiceInv s → ServiceInv (configure_match s d).0
unfolding configure_match
configure_match-Inv s d v = elim (Bool-cases (valid_definition d)) [
  | inr bad ↦ rw bad v
  | inl good ↦ elim (Bool-cases (is_some (lookup d.breach_gate_id s.gates))) [
    | inr none_such ↦ rw (good, none_such) v
    | inl there ↦
        rw (good, there)
          (configure_throne-Inv s d d.throne_definition (valid_definition-HasSides d good) v)
  ]
]

pub configure_ownership_persistence-Inv :
    (s : Service) (o : CastleOwnershipState) (c : Option Committer)
    → o.revision ≤ max_u64
    → ServiceInv s
    → ServiceInv (configure_castle_ownership_persistence s o c).0
unfolding configure_castle_ownership_persistence
configure_ownership_persistence-Inv s o none h v = elim (Option-cases s.siege_match) [
  | inl e ↦ rw e tt
  | inr (m, e) ↦ rw e (subst MatchInv e v)
]
configure_ownership_persistence-Inv s o (some c) h v = elim (Option-cases s.siege_match) [
  | inl e ↦ rw e tt
  | inr (m, e) ↦ rw e (configure_ownership-Inv m o c h (subst MatchInv e v))
]

pub resolve_throne_capture-Inv :
    (s : Service) → ServiceInv s → ServiceInv (resolve_throne_capture_with_error s).0
unfolding resolve_throne_capture_with_error
resolve_throne_capture-Inv s v = elim (Option-cases s.siege_match) [
  | inl e ↦ rw e tt
  | inr (m, e) ↦ rw e (resolve-Inv m (subst MatchInv e v))
]

participants-Inv :
    (m : MatchRuntime) (teams : Map ℕ Team) → Inv m → Inv (record m { participant_teams = teams })
participants-Inv m teams v = record {
  sides = v.sides;
  roles = v.roles;
  phase = v.phase;
  owned = v.owned;
  typed = v.typed;
  revised = v.revised;
}

pub assign_participant-Inv :
    (s : Service) (entity : ℕ) (team : Team)
    → ServiceInv s
    → ServiceInv (assign_participant s entity team).0
unfolding assign_participant
assign_participant-Inv s entity team v = elim (Option-cases s.siege_match) [
  | inl e ↦ rw (e, assign_participant) v
  | inr (m, e) ↦ elim (Bool-cases (entity == 0 || not (valid_team team))) [
    | inl bad ↦ rw (e, assign_participant, bad) v
    | inr good ↦
        rw (e, assign_participant, good)
          (participants-Inv m (insert entity team m.participant_teams) (subst MatchInv e v))
  ]
]

assign_known-Inv :
    (s : Service) (entity : ℕ) (team : Option Team)
    → ServiceInv s
    → ServiceInv (assign_known s entity team).0
unfolding assign_known
assign_known-Inv s entity none v = v
assign_known-Inv s entity (some team) v = assign_participant-Inv s entity team v

pub assign_resolved-Inv :
    (s : Service) (entity : ℕ) (b : Identity.Binding)
    → ServiceInv s
    → ServiceInv (assign_resolved_participant s entity b).0
unfolding assign_resolved_participant
assign_resolved-Inv s entity b v = elim (Option-cases s.siege_match) [
  | inl e ↦ rw (e, assign_resolved_participant) v
  | inr (m, e) ↦ elim (Bool-cases (entity == 0 || not (Identity.valid b))) [
    | inl bad ↦ rw (e, assign_resolved_participant, bad) v
    | inr good ↦ elim (Bool-cases (is_trusted b.assurance)) [
      | inr weak ↦ rw (e, assign_resolved_participant, good, weak) v
      | inl strong ↦
          rw (e, assign_resolved_participant, good, strong)
            (assign_known-Inv s entity (lookup b.id m.trusted_participant_teams) v)
    ]
  ]
]

pub remove_participant-Inv :
    (s : Service) (entity : ℕ) → ServiceInv s → ServiceInv (remove_participant s entity)
unfolding remove_participant
remove_participant-Inv s entity v = elim (Option-cases s.siege_match) [
  | inl e ↦ rw (e, remove_participant) v
  | inr (m, e) ↦ elim (Bool-cases (entity == 0)) [
    | inl bad ↦ rw (e, remove_participant, bad) v
    | inr good ↦
        rw (e, remove_participant, good)
          (participants-Inv m (delete entity m.participant_teams) (subst MatchInv e v))
  ]
]

module _ (s : Service) (m : MatchRuntime) (v : ServiceInv s) (w : Inv m)
    (won : m.state.phase ≡ completed) where
  restart_enabled-Inv :
      (g : GateRuntime) (roles : Text × Text) (scene : Navigator) (on : Option Bool)
      → roles_for_owner m m.ownership.owner_id ≡ some roles
      → ServiceInv (restart_enabled s m g roles scene on).0
  unfolding restart_enabled restarted
  restart_enabled-Inv g (a, d) scene none r = v
  restart_enabled-Inv g (a, d) scene (some true) r = next_round-Inv m a d w won r
  restart_enabled-Inv g (a, d) scene (some false) r =
      elim (Option-cases (set_blocker_enabled scene g.definition.blocker_id true)) [
        | inl e ↦ rw (e, restart_enabled) v
        | inr (after, e) ↦ rw (e, restart_enabled) (next_round-Inv m a d w won r)
      ]

  restart_gate-Inv :
      (roles : Text × Text) (scene : Navigator) (g : Option GateRuntime)
      → roles_for_owner m m.ownership.owner_id ≡ some roles
      → ServiceInv (restart_gate s m roles scene g).0
  unfolding restart_gate
  restart_gate-Inv roles scene none r = v
  restart_gate-Inv roles scene (some g) r = elim (Bool-cases (is_empty g.definition.blocker_id)) [
    | inl bad ↦ rw (bad, restart_gate) v
    | inr good ↦
        rw (good, restart_gate)
          (restart_enabled-Inv g roles scene (blocker_enabled scene g.definition.blocker_id) r)
  ]

  restart_roles-Inv :
      (scene : Navigator) (roles : Option (Text × Text))
      → roles_for_owner m m.ownership.owner_id ≡ roles
      → ServiceInv (restart_roles s m scene roles).0
  unfolding restart_roles
  restart_roles-Inv scene none r = v
  restart_roles-Inv scene (some roles) r =
      elim (Bool-cases (m.ownership.owner_id =? m.state.winner_id)) [
        | inr bad ↦ rw (bad, restart_roles) v
        | inl good ↦
            rw (good, restart_roles)
              (restart_gate-Inv roles scene (lookup m.definition.breach_gate_id s.gates) r)
      ]

  restart_match-Inv : (scene : Option Navigator) → ServiceInv (restart_match s m scene).0
  unfolding restart_match
  restart_match-Inv none = v
  restart_match-Inv (some scene) =
      elim (Bool-cases
        (not (valid_castle_ownership m.ownership) || not (valid_side_id m m.ownership.owner_id))) [
          | inl bad ↦ rw (bad, restart_match) v
          | inr good ↦
              elim (Bool-cases (
                m.state.round == max_u64
                || not (m.ownership.revision == add_u64 m.state.round 1))) [
                  | inl late ↦ rw (good, restart_match, late) v
                  | inr fine ↦
                      rw (good, restart_match, fine)
                        (restart_roles-Inv scene (roles_for_owner m m.ownership.owner_id) refl)
                ]
        ]

is_completed_lem : (p : MatchPhase) → is_completed p ≡ true → p ≡ completed
is_completed_lem p h = ground arith

pub start_next_round-Inv :
    (s : Service) (scene : Option Navigator)
    → ServiceInv s
    → ServiceInv (start_next_round s scene).0
unfolding start_next_round
start_next_round-Inv s scene v = elim (Option-cases s.siege_match) [
  | inl e ↦ rw (e, start_next_round) v
  | inr (m, e) ↦ elim (Bool-cases (is_completed m.state.phase)) [
    | inr early ↦ rw (e, start_next_round, early) v
    | inl ended ↦
        rw (e, start_next_round, ended)
          (restart_match-Inv s m v (subst MatchInv e v) (is_completed_lem m.state.phase ended)
            scene)
  ]
]
