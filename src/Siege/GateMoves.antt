-- ===== src/Siege/GateMoves.antt =====
-- What an attack on a gate does.
use astrahold_server.Common.{
  ℕ, ◌≤◌, ◌<◌, ◌≡◌, ◌≢◌, ◌⊎◌, inl, inr, true, false, none, some, Text, text_key, arith, lookup,
  insert, lookup-insert, is_some, Option-cases, ℤ, add_u64,
}
use astrahold_server.Scene.{Navigator, Position, Float32, blocker_enabled, set_blocker_enabled}
use astrahold_server.Siege.{Service, GateRuntime, attack_key}
use astrahold_server.Siege.Gates.{
  Physics, Struck, reach, strike, apply_action_damage, attack, start_cooldown, damaged_hp,
  gate_state, cooldown_ticks,
}

module _ (ph : Physics) where
  -- A strike that fails changes nothing. One that succeeds stores the remaining hit points and
  -- reports them, and disables the blocker exactly when none remain.
  abbrev pub StrikeOutcome : Service → Text → GateRuntime → ℕ → Navigator → Struck ph → Type 0
  StrikeOutcome s id g damage scene r =
      let hp = damaged_hp ph g.hp damage in
      ((is_some r.3 ≡ true) × (r.0 ≡ s) × (r.1 ≡ scene))
      ⊎ ((is_some r.3 ≡ false)
          × (r.0.gates ≡ insert id (record g { hp = hp }) s.gates)
          × (r.0.siege_match ≡ s.siege_match)
          × (r.2 ≡ gate_state id (record g { hp = hp }))
          × (((hp ≢ 0) × (r.1 ≡ scene))
              ⊎ ((hp ≡ 0) × (set_blocker_enabled scene g.definition.blocker_id false ≡ some r.1))))

  strike_lem :
      (s : Service) (id : Text) (g : GateRuntime) (damage : ℕ) (scene : Navigator)
      → StrikeOutcome s id g damage scene (strike ph s id g damage scene)
  unfolding strike
  strike_lem s id g damage scene = ground arith

  pub strike_ticks :
      (s : Service) (id : Text) (g : GateRuntime) (damage : ℕ) (scene : Navigator)
      → (strike ph s id g damage scene).0.next_attack_tick ≡ s.next_attack_tick
  unfolding strike
  strike_ticks s id g damage scene = ground arith

  -- What a successful attack of any kind did, for the gate and the damage.
  abbrev pub Hit : Service → Text → GateRuntime → ℕ → Navigator → Struck ph → Type 0
  Hit s id g damage scene r =
      (lookup id s.gates ≡ some g)
      × (g.hp ≢ 0)
      × (r.0.gates ≡ insert id (record g { hp = damaged_hp ph g.hp damage }) s.gates)
      × (r.0.siege_match ≡ s.siege_match)
      × (r.2 ≡ gate_state id (record g { hp = damaged_hp ph g.hp damage }))
      × (((damaged_hp ph g.hp damage ≢ 0) × (r.1 ≡ scene))
          ⊎ ((damaged_hp ph g.hp damage ≡ 0)
              × (set_blocker_enabled scene g.definition.blocker_id false ≡ some r.1)))

  abbrev pub Refused : Service → Navigator → Struck ph → Type 0
  Refused s scene r = (is_some r.3 ≡ true) × (r.0 ≡ s) × (r.1 ≡ scene)

  pub reached_alive :
      (g : GateRuntime) (position : Position) (range : Float32) (scene : Navigator)
      → reach ph g position range scene ≡ none
      → g.hp ≢ 0
  unfolding reach
  reached_alive g position range scene e = ground arith

  -- ApplyActionDamage fails and changes nothing, or it hits a known gate that still stands.
  pub apply_action_damage_lem :
      (s : Service) (position : Position) (id : Text) (range : Float32) (damage : ℕ)
      (scene : Navigator)
      → Refused s scene (apply_action_damage ph s position id range damage scene)
        ⊎ ((g : GateRuntime) × Hit s id g damage scene
              (apply_action_damage ph s position id range damage scene))
  unfolding apply_action_damage
  apply_action_damage_lem s position id range damage scene =
      elim (Option-cases (lookup id s.gates)) [
        | inl e ↦ inl (ground arith)
        | inr (g, e) ↦ elim (Option-cases (reach ph g position range scene)) [
          | inr (err, f) ↦ inl (ground arith)
          | inl f ↦
              ground (arith, strike_lem s id g damage scene, reached_alive g position range scene f)
        ]
      ]

  -- Attack fails and changes nothing, or it hits a known gate that still stands, with the damage
  -- of its definition, and starts the cooldown of the attacker on that gate.
  pub attack_lem :
      (s : Service) (entity : ℕ) (position : Position) (id : Text) (tick : ℕ) (delta : ℤ)
      (scene : Navigator)
      → Refused s scene (attack ph s entity position id tick delta scene)
        ⊎ ((g : GateRuntime) × Hit s id g g.definition.attack.damage scene
              (attack ph s entity position id tick delta scene)
            × ((attack ph s entity position id tick delta scene).0.next_attack_tick
                ≡ insert
                    (entity, id)
                    (add_u64 tick (cooldown_ticks ph g.definition.attack.cooldown_seconds delta))
                    s.next_attack_tick))
  unfolding attack start_cooldown
  attack_lem s entity position id tick delta scene = elim (Option-cases (lookup id s.gates)) [
    | inl e ↦ inl (ground arith)
    | inr (g, e) ↦ elim (Option-cases (reach ph g position g.definition.attack.range scene)) [
      | inr (err, f) ↦ inl (ground arith)
      | inl f ↦ ground (
        arith,
        strike_lem s id g g.definition.attack.damage scene,
        reached_alive g position g.definition.attack.range scene f,
        strike_ticks s id g g.definition.attack.damage scene,
      )
    ]
  ]

  -- A known gate never has more than its full hit points, and one that has none has its blocker
  -- disabled.
  abbrev pub GateHolds : Navigator → GateRuntime → Type 0
  GateHolds scene g =
      (g.hp ≤ g.definition.max_hp)
      × (g.hp ≡ 0 → blocker_enabled scene g.definition.blocker_id ≡ some false)

  pub record GatesHold (s : Service) (scene : Navigator) : Type 0 where
    pub each : (id : Text) (g : GateRuntime) → lookup id s.gates ≡ some g → GateHolds scene g

  pub disabled_stays :
      (scene after : Navigator) (blocker other_blocker : Text)
      → set_blocker_enabled scene blocker false ≡ some after
      → (blocker_enabled after blocker ≡ some false)
        × (blocker_enabled scene other_blocker ≡ some false
            → blocker_enabled after other_blocker ≡ some false)
  unfolding set_blocker_enabled blocker_enabled
  disabled_stays scene after blocker other_blocker e = ground (
    arith,
    lookup-insert blocker other_blocker false scene.enabled,
    lookup-insert blocker blocker false scene.enabled,
  )

  pub Hit-GatesHold :
      (s : Service) (id : Text) (g : GateRuntime) (damage : ℕ) (scene : Navigator) (r : Struck ph)
      → GatesHold s scene
      → Hit s id g damage scene r
      → GatesHold r.0 r.1
  Hit-GatesHold s id g damage scene r v h =
      let new_gate = record g { hp = damaged_hp ph g.hp damage } in
      record {
        each = λ j k e. ground (
          arith,
          lookup-insert id j new_gate s.gates,
          v.each j k,
          v.each id g,
          disabled_stays scene r.1 g.definition.blocker_id k.definition.blocker_id,
        );
      }

  Refused-GatesHold :
      (s : Service) (scene : Navigator) (r : Struck ph)
      → GatesHold s scene
      → Refused s scene r
      → GatesHold r.0 r.1
  Refused-GatesHold s scene r v h = record { each = λ id g e. ground (arith, v.each id g) }

  -- An attack keeps the gates: no gate has more than its full hit points, and every gate without
  -- hit points has its blocker disabled, whether the attack succeeds or fails.
  pub attack-GatesHold :
      (s : Service) (entity : ℕ) (position : Position) (id : Text) (tick : ℕ) (delta : ℤ)
      (scene : Navigator)
      → GatesHold s scene
      → let r = attack ph s entity position id tick delta scene in GatesHold r.0 r.1
  attack-GatesHold s entity position id tick delta scene v =
      let r = attack ph s entity position id tick delta scene in
      elim (attack_lem s entity position id tick delta scene) [
        | inl h ↦ Refused-GatesHold s scene r v h
        | inr (g, h, _) ↦ Hit-GatesHold s id g g.definition.attack.damage scene r v h
      ]

  -- The damage of an action keeps the gates in the same way.
  pub apply_action_damage-GatesHold :
      (s : Service) (position : Position) (id : Text) (range : Float32) (damage : ℕ)
      (scene : Navigator)
      → GatesHold s scene
      → let r = apply_action_damage ph s position id range damage scene in GatesHold r.0 r.1
  apply_action_damage-GatesHold s position id range damage scene v =
      let r = apply_action_damage ph s position id range damage scene in
      elim (apply_action_damage_lem s position id range damage scene) [
        | inl h ↦ Refused-GatesHold s scene r v h
        | inr (g, h) ↦ Hit-GatesHold s id g damage scene r v h
      ]

  -- A gate under a cooldown that has not ended refuses its attacker.
  pub attack_under_cooldown :
      (s : Service) (entity : ℕ) (position : Position) (id : Text) (tick : ℕ) (delta : ℤ)
      (scene : Navigator) (next : ℕ)
      → lookup (entity, id) s.next_attack_tick ≡ some next
      → tick < next
      → Refused s scene (attack ph s entity position id tick delta scene)
  unfolding attack
  attack_under_cooldown s entity position id tick delta scene next e late =
      elim (Option-cases (lookup id s.gates)) [
        | inl f ↦ ground arith
        | inr (g, f) ↦ elim (Option-cases (reach ph g position g.definition.attack.range scene)) [
          | inr (err, h) ↦ ground arith
          | inl h ↦ ground arith
        ]
      ]
