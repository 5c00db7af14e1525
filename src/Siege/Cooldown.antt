-- ===== src/Siege/Cooldown.antt =====
-- The cooldown of an attacker on a gate (Attack of internal/siege/gate.go).
use astrahold_server.Common.{
  ℕ, ◌+◌, ◌≤◌, ◌<◌, ◌≡◌, ◌≢◌, ◌⊎◌, inl, inr, true, false, none, some, [], ◌∷◌, List, Text, text_key,
  arith, lookup, lookup-insert, Option, Option-cases, ℤ, add_u64, max_u64, ap, ◌∙◌,
}
use astrahold_server.Scene.{Navigator, Position, Float32}
use astrahold_server.Siege.{
  Service, MatchRuntime, MatchDefinition, Team, Committer, CastleOwnershipState, GateRuntime,
  AttackKey, AttackKey-discrete, attack_key, on_match, match_unavailable,
}
use astrahold_server.Identity
use astrahold_server.Siege.Match.{
  configure_throne, assign_known, configure_match, configure_castle_ownership_persistence,
  assign_participant, assign_resolved_participant, remove_participant,
}
use astrahold_server.Siege.Round.{
  observe_gate, commit_resolution, observe_gate_state, resolve_throne_capture_with_error,
}
use astrahold_server.Siege.Throne.{
  observe_match, advance_match, observe_throne_presence, advance_throne_capture,
}
use astrahold_server.Siege.Gates.{Physics, attack, apply_action_damage, cooldown_ticks}
use astrahold_server.Siege.GateMoves.{strike_ticks, Refused, attack_lem, attack_under_cooldown}
use astrahold_server.Siege.Calls.{
  Call, configures, persists, assigns, assigns_resolved, removes, observes_gate, observes_throne,
  advances_throne, commits, resolves, starts_round, attacks, damages, step, run,
}

abbrev pub of_attacker : ℕ → Text → AttackKey
of_attacker entity id = (entity, id)

-- A call that comes before the tick, as far as it is an attack of the entity on the gate, and does
-- not start a round.
abbrev pub IsBefore : ℕ → Text → ℕ → Call → Type 0
IsBefore entity id until (attacks other position gate tick delta scene) =
    (of_attacker other gate ≢ of_attacker entity id) ⊎ (tick < until)
IsBefore entity id until (starts_round scene) = false ≡ true
IsBefore entity id until _ = Unit

abbrev pub AreBefore : ℕ → Text → ℕ → List Call → Type 0
AreBefore entity id until [] = Unit
AreBefore entity id until (call ∷ calls) =
    IsBefore entity id until call × AreBefore entity id until calls

abbrev Ticks : Service → Service → Type 0
Ticks s t = t.next_attack_tick ≡ s.next_attack_tick

on_match-Ticks :
    {R : Type 0} (s : Service) (default : R) (f : MatchRuntime → MatchRuntime × R)
    → Ticks s (on_match s default f).0
on_match-Ticks s default f = ground arith

configure_match-Ticks : (s : Service) (d : MatchDefinition) → Ticks s (configure_match s d).0
unfolding configure_match configure_throne
configure_match-Ticks s d = ground arith

persists-Ticks :
    (s : Service) (o : CastleOwnershipState) (c : Option Committer)
    → Ticks s (configure_castle_ownership_persistence s o c).0
unfolding configure_castle_ownership_persistence
persists-Ticks s o c = ground arith

assign_participant-Ticks :
    (s : Service) (entity : ℕ) (team : Team) → Ticks s (assign_participant s entity team).0
unfolding assign_participant
assign_participant-Ticks s entity team = ground arith

assign_resolved-Ticks :
    (s : Service) (entity : ℕ) (b : Identity.Binding)
    → Ticks s (assign_resolved_participant s entity b).0
unfolding assign_resolved_participant assign_known assign_participant
assign_resolved-Ticks s entity b = ground arith

remove_participant-Ticks : (s : Service) (entity : ℕ) → Ticks s (remove_participant s entity)
unfolding remove_participant
remove_participant-Ticks s entity = ground arith

resolve_throne_capture-Ticks : (s : Service) → Ticks s (resolve_throne_capture_with_error s).0
unfolding resolve_throne_capture_with_error
resolve_throne_capture-Ticks s = ground arith

module _ (ph : Physics) where
  damage-Ticks :
      (s : Service) (position : Position) (id : Text) (range : Float32) (damage : ℕ)
      (scene : Navigator)
      → Ticks s (apply_action_damage ph s position id range damage scene).0
  unfolding apply_action_damage
  damage-Ticks s position id range damage scene = elim (Option-cases (lookup id s.gates)) [
    | inl missing ↦ ground (arith, missing)
    | inr (g, found) ↦ ground (arith, found, strike_ticks ph s id g damage scene)
  ]

  module _ (entity : ℕ) (id : Text) (until : ℕ) where
    -- The attacker may not attack the gate before the tick.
    abbrev Cools : Service → Type 0
    Cools s = lookup (entity, id) s.next_attack_tick ≡ some until

    Ticks-Cools : (s t : Service) → Ticks s t → Cools s → Cools t
    Ticks-Cools s t same c = ap (λ ticks. lookup (entity, id) ticks) same ∙ c

    same_attack :
        (other : ℕ) (gate : Text)
        → (of_attacker other gate ≡ of_attacker entity id)
          ⊎ (of_attacker other gate ≢ of_attacker entity id)
    same_attack other gate =
        elim (AttackKey-discrete (of_attacker other gate) (of_attacker entity id)) [
          | yes e ↦ inl e
          | no n ↦ inr n
        ]

    attack-Cools :
        (s : Service) (other : ℕ) (position : Position) (gate : Text) (tick : ℕ) (delta : ℤ)
        (scene : Navigator)
        → (of_attacker other gate ≢ of_attacker entity id) ⊎ (tick < until)
        → Cools s
        → Cools (attack ph s other position gate tick delta scene).0
    attack-Cools s other position gate tick delta scene b c =
        let r = attack ph s other position gate tick delta scene in
        let refused =
          λ (h : Refused ph s scene r). Ticks-Cools s r.0 (ap (λ t. t.next_attack_tick) h.1) c in
        elim (same_attack other gate) [
          | inl same ↦ elim b [
            | inl differs ↦ absurd (differs same)
            | inr early ↦ refused (
                attack_under_cooldown ph s other position gate tick delta scene until
                  (ap (λ key. lookup key s.next_attack_tick) same ∙ c) early)
          ]
          | inr differs ↦ elim (attack_lem ph s other position gate tick delta scene) [
            | inl h ↦ refused h
            | inr (g, _, ticks) ↦
                ap (λ m. lookup (entity, id) m) ticks
                ∙ ground (
                  arith,
                  c,
                  differs,
                  lookup-insert (of_attacker other gate) (of_attacker entity id)
                      (add_u64 tick (cooldown_ticks ph g.definition.attack.cooldown_seconds delta))
                      s.next_attack_tick,
                )
          ]
        ]

    step-Cools :
        (s : Service) (call : Call)
        → IsBefore entity id until call
        → Cools s
        → Cools (step ph s call)
    unfolding step observe_gate_state observe_throne_presence advance_throne_capture
    step-Cools s (configures d) b c =
        Ticks-Cools s (configure_match s d).0 (configure_match-Ticks s d) c
    step-Cools s (persists o committer) b c =
        Ticks-Cools s (configure_castle_ownership_persistence s o committer).0
          (persists-Ticks s o committer) c
    step-Cools s (assigns other team) b c =
        Ticks-Cools s (assign_participant s other team).0 (assign_participant-Ticks s other team) c
    step-Cools s (assigns_resolved other binding) b c =
        Ticks-Cools s (assign_resolved_participant s other binding).0
          (assign_resolved-Ticks s other binding) c
    step-Cools s (removes other) b c =
        Ticks-Cools s (remove_participant s other) (remove_participant-Ticks s other) c
    step-Cools s (observes_gate g) b c =
        Ticks-Cools s (on_match s false (λ m. observe_gate m g)).0
          (on_match-Ticks s false (λ m. observe_gate m g)) c
    step-Cools s (observes_throne os) b c =
        Ticks-Cools s (on_match s false (λ m. observe_match m os)).0
          (on_match-Ticks s false (λ m. observe_match m os)) c
    step-Cools s (advances_throne delta) b c =
        Ticks-Cools s (on_match s false (λ m. advance_match m delta)).0
          (on_match-Ticks s false (λ m. advance_match m delta)) c
    step-Cools s (commits next) b c =
        Ticks-Cools s (on_match s (some match_unavailable) (λ m. commit_resolution m next)).0
          (on_match-Ticks s (some match_unavailable) (λ m. commit_resolution m next)) c
    step-Cools s resolves b c =
        Ticks-Cools s (resolve_throne_capture_with_error s).0 (resolve_throne_capture-Ticks s) c
    step-Cools s (starts_round scene) b c = ground (arith, b)
    step-Cools s (attacks other position gate tick delta scene) b c =
        attack-Cools s other position gate tick delta scene b c
    step-Cools s (damages position gate range damage scene) b c =
        Ticks-Cools s (apply_action_damage ph s position gate range damage scene).0
          (damage-Ticks s position gate range damage scene) c

    run-Cools :
        (s : Service) (calls : List Call)
        → AreBefore entity id until calls
        → Cools s
        → Cools (run ph s calls)
    unfolding run
    run-Cools s [] b c = c
    run-Cools s (call ∷ calls) b c = run-Cools (step ph s call) calls b.1 (step-Cools s call b.0 c)

  -- After a successful attack, whatever is called then, every attack of the same entity on the same
  -- gate fails and changes nothing until the cooldown of the gate has passed, from whichever place
  -- and in whichever scene; but the calls between come before that tick, as far as they are attacks
  -- of the entity on the gate, and none starts the next round. The end of the cooldown must be a
  -- uint64.
  pub attack_cools_down :
      (s : Service) (entity : ℕ) (position later_position : Position) (id : Text)
      (tick later_tick : ℕ) (delta later_delta : ℤ) (scene later_scene : Navigator)
      (g : GateRuntime) (calls : List Call)
      → lookup id s.gates ≡ some g
      → tick + cooldown_ticks ph g.definition.attack.cooldown_seconds delta ≤ max_u64
      → (attack ph s entity position id tick delta scene).3 ≡ none
      → AreBefore entity id
          (tick + cooldown_ticks ph g.definition.attack.cooldown_seconds delta)
          calls
      → later_tick < tick + cooldown_ticks ph g.definition.attack.cooldown_seconds delta
      → let u = run ph (attack ph s entity position id tick delta scene).0 calls in
        Refused ph u later_scene
          (attack ph u entity later_position id later_tick later_delta later_scene)
  attack_cools_down s entity position later_position id tick later_tick delta later_delta scene
        later_scene g calls known fits success before early =
      let first = attack ph s entity position id tick delta scene in
      let until = tick + cooldown_ticks ph g.definition.attack.cooldown_seconds delta in
      let starts : lookup (entity, id) first.0.next_attack_tick ≡ some until = ground (
        arith,
        attack_lem ph s entity position id tick delta scene,
        lookup-insert (entity, id) (entity, id) until s.next_attack_tick,
      ) in
      attack_under_cooldown ph (run ph first.0 calls) entity later_position id later_tick
        later_delta later_scene until (run-Cools entity id until first.0 calls before starts) early
