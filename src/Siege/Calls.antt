-- ===== src/Siege/Calls.antt =====
-- Sequences of calls on the service, from its construction on.
use astrahold_server.Common.{
  ℕ, ◌≤◌, ◌≡◌, refl, false, Option, some, [], ◌∷◌, List, Text, ℤ, max_u64, inl, inr, subst, sym,
}
use astrahold_server.Identity
use astrahold_server.Scene.{Navigator, Position, Float32, Gate}
use astrahold_server.Siege.{
  Team, MatchDefinition, MatchRuntime, CastleOwnershipState, Committer, Service, on_match,
  match_unavailable,
}
use astrahold_server.Siege.Match.{
  configure_match, configure_castle_ownership_persistence, assign_participant,
  assign_resolved_participant, remove_participant,
}
use astrahold_server.Siege.Round.{
  GateState, observe_gate, observe_gate_state, commit_resolution, resolve_throne_capture_with_error,
  start_next_round,
}
use astrahold_server.Siege.Throne.{
  ParticipantPresence, observe_match, advance_match, observe_throne_presence,
  advance_throne_capture,
}
use astrahold_server.Siege.Gates.{Physics, attack, apply_action_damage, new_service}
use astrahold_server.Siege.GateMoves.{attack_lem, apply_action_damage_lem}
use astrahold_server.Siege.Invariant.{
  Inv, observe_gate-Inv, observe_match-Inv, advance_match-Inv, commit_resolution-Inv,
}
use astrahold_server.Siege.History.{
  MatchInv, ServiceInv, on_match-Inv, configure_match-Inv, configure_ownership_persistence-Inv,
  resolve_throne_capture-Inv, assign_participant-Inv, assign_resolved-Inv, remove_participant-Inv,
  start_next_round-Inv,
}

-- The calls that change the service. The scene and the answers of the committer may differ from
-- call to call.
pub data Call : Type 0 where
  configures : MatchDefinition → Call
  persists : CastleOwnershipState → Option Committer → Call
  assigns : ℕ → Team → Call
  assigns_resolved : ℕ → Identity.Binding → Call
  removes : ℕ → Call
  observes_gate : GateState → Call
  observes_throne : List ParticipantPresence → Call
  advances_throne : ℤ → Call
  commits : CastleOwnershipState → Call
  resolves : Call
  starts_round : Option Navigator → Call
  attacks : ℕ → Position → Text → ℕ → ℤ → Navigator → Call
  damages : Position → Text → Float32 → ℕ → Navigator → Call

-- The revision of an ownership is a uint64.
abbrev pub IsTyped : Call → Type 0
IsTyped (persists o c) = o.revision ≤ max_u64
IsTyped _ = Unit

abbrev pub AreTyped : List Call → Type 0
AreTyped [] = Unit
AreTyped (call ∷ calls) = IsTyped call × AreTyped calls

module _ (ph : Physics) where
  unfoldable pub step : Service → Call → Service
  step s (configures d) = (configure_match s d).0
  step s (persists o c) = (configure_castle_ownership_persistence s o c).0
  step s (assigns entity team) = (assign_participant s entity team).0
  step s (assigns_resolved entity b) = (assign_resolved_participant s entity b).0
  step s (removes entity) = remove_participant s entity
  step s (observes_gate g) = (observe_gate_state s g).0
  step s (observes_throne os) = (observe_throne_presence s os).0
  step s (advances_throne delta) = (advance_throne_capture s delta).0
  step s (commits next) = (on_match s (some match_unavailable) (λ m. commit_resolution m next)).0
  step s resolves = (resolve_throne_capture_with_error s).0
  step s (starts_round scene) = (start_next_round s scene).0
  step s (attacks entity position id tick delta scene) =
      (attack ph s entity position id tick delta scene).0
  step s (damages position id range damage scene) =
      (apply_action_damage ph s position id range damage scene).0

  unfoldable pub run : Service → List Call → Service
  run s [] = s
  run s (call ∷ calls) = run (step s call) calls

  attack-match :
      (s : Service) (entity : ℕ) (position : Position) (id : Text) (tick : ℕ) (delta : ℤ)
      (scene : Navigator)
      → (attack ph s entity position id tick delta scene).0.siege_match ≡ s.siege_match
  attack-match s entity position id tick delta scene =
      elim (attack_lem ph s entity position id tick delta scene) [
        | inl (_, e, _) ↦ rw e refl
        | inr (g, h, _) ↦ h.3
      ]

  damage-match :
      (s : Service) (position : Position) (id : Text) (range : Float32) (damage : ℕ)
      (scene : Navigator)
      → (apply_action_damage ph s position id range damage scene).0.siege_match ≡ s.siege_match
  damage-match s position id range damage scene =
      elim (apply_action_damage_lem ph s position id range damage scene) [
        | inl (_, e, _) ↦ rw e refl
        | inr (g, h) ↦ h.3
      ]

  -- Every call on a service keeps the invariant of its match.
  pub step-ServiceInv :
      (s : Service) (call : Call) → IsTyped call → ServiceInv s → ServiceInv (step s call)
  unfolding step observe_gate_state observe_throne_presence advance_throne_capture
  step-ServiceInv s (configures d) t v = configure_match-Inv s d v
  step-ServiceInv s (persists o c) t v = configure_ownership_persistence-Inv s o c t v
  step-ServiceInv s (assigns entity team) t v = assign_participant-Inv s entity team v
  step-ServiceInv s (assigns_resolved entity b) t v = assign_resolved-Inv s entity b v
  step-ServiceInv s (removes entity) t v = remove_participant-Inv s entity v
  step-ServiceInv s (observes_gate g) t v =
      on_match-Inv s false (λ m. observe_gate m g) (λ m w. observe_gate-Inv m w g) v
  step-ServiceInv s (observes_throne os) t v =
      on_match-Inv s false (λ m. observe_match m os) (λ m w. observe_match-Inv m w os) v
  step-ServiceInv s (advances_throne delta) t v =
      on_match-Inv s false (λ m. advance_match m delta) (λ m w. advance_match-Inv m w delta) v
  step-ServiceInv s (commits next) t v =
      on_match-Inv s (some match_unavailable) (λ m. commit_resolution m next)
        (λ m w. commit_resolution-Inv m next w) v
  step-ServiceInv s resolves t v = resolve_throne_capture-Inv s v
  step-ServiceInv s (starts_round scene) t v = start_next_round-Inv s scene v
  step-ServiceInv s (attacks entity position id tick delta scene) t v =
      subst MatchInv (sym (attack-match s entity position id tick delta scene)) v
  step-ServiceInv s (damages position id range damage scene) t v =
      subst MatchInv (sym (damage-match s position id range damage scene)) v

  run-ServiceInv :
      (s : Service) (calls : List Call) → AreTyped calls → ServiceInv s → ServiceInv (run s calls)
  unfolding run
  run-ServiceInv s [] t v = v
  run-ServiceInv s (call ∷ calls) t v =
      run-ServiceInv (step s call) calls t.1 (step-ServiceInv s call t.0 v)

  -- After any calls on a new service its match, if it is configured, satisfies the invariant: the
  -- sides differ, the defender of the gate and throne phases owns the castle by the revision of
  -- the round, and a completed match is won by the attacker, who owns it by the next revision.
  pub run-new_service-Inv :
      (gates : List Gate) (calls : List Call) (m : MatchRuntime)
      → AreTyped calls
      → (run (new_service gates) calls).siege_match ≡ some m
      → Inv m
  unfolding new_service
  run-new_service-Inv gates calls m t e =
      subst MatchInv e (run-ServiceInv (new_service gates) calls t tt)
