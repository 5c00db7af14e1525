-- ===== src/Siege/Gates.antt =====
-- Gates under attack (internal/siege/gate.go and internal/siege/action_target.go).
use astrahold_server.Common.{
  ℕ, zero, suc, ◌-◌, Bool, true, false, not, ◌&&◌, Option, none, some, List, [], ◌∷◌, Text,
  text_key, ℤ, pos, negsuc, ◌==◌, leb, ltb, if◌then◌else◌, get_or, lookup, insert, Map, add_u64,
}
use astrahold_server.Scene.{
  Float32, less, at_most, Position, BoundsXz, Blocker, Gate, Navigator, set_blocker_enabled,
  blocker_enabled, blocker_definition,
}
use astrahold_server.Siege.{
  Error, unknown_gate, gate_destroyed, gate_wrong_layer, gate_out_of_range, gate_no_line_of_sight,
  gate_attack_cooldown, gate_blocker_disabled, unknown_blocker, GateRuntime, Service, AttackKey,
  attack_key,
}
use astrahold_server.Siege.Round.{GateState}

-- What the gates take from floating point and from the geometry of the navigator.
pub record Physics : Type 0 where
  pub add : Float32 → Float32 → Float32
  pub subtract : Float32 → Float32 → Float32
  pub multiply : Float32 → Float32 → Float32
  -- float32(math.Sqrt(float64(v)))
  pub square_root : Float32 → Float32
  -- uint64(math.Ceil(float64(seconds) / delta.Seconds())) for a delta in nanoseconds
  pub ceil_ratio : Float32 → ℕ → ℕ
  -- HasLineOfSightIgnoringBlocker
  pub line_of_sight : Navigator → Position → Position → Text → Bool

abbrev gate_runtime : Gate → GateRuntime
gate_runtime g = record { definition = g; hp = g.max_hp }

add_gates : List Gate → Map Text GateRuntime → Map Text GateRuntime
add_gates [] gates = gates
add_gates (g ∷ gs) gates = add_gates gs (insert g.id (gate_runtime g) gates)

gate_ids : List Gate → List Text
gate_ids [] = []
gate_ids (g ∷ gs) = g.id ∷ gate_ids gs

unfoldable pub new_service : List Gate → Service
unfolding add_gates gate_ids
new_service definitions = record {
  gates = add_gates definitions [];
  order = gate_ids definitions;
  next_attack_tick = [];
  siege_match = none;
}

abbrev pub gate_state : Text → GateRuntime → GateState
gate_state id g = record { id = id; hp = g.hp; max_hp = g.definition.max_hp; destroyed = g.hp == 0 }

abbrev pub no_gate_state : GateState
no_gate_state = record { id = []; hp = 0; max_hp = 0; destroyed = false }

module _ (ph : Physics) where
  open ph use {add, subtract, multiply, square_root, ceil_ratio, line_of_sight}

  unfoldable pub cooldown_ticks : Float32 → ℤ → ℕ
  cooldown_ticks seconds (negsuc _) = 1
  cooldown_ticks seconds (pos zero) = 1
  cooldown_ticks seconds (pos (suc n)) =
      let ticks = ceil_ratio seconds (suc n) in
      if at_most seconds 0 then 1 else if ticks == 0 then 1 else ticks

  axis_distance : Float32 → Float32 → Float32 → Float32
  axis_distance value low high =
      if less value low
      then subtract low value
      else if less high value
      then subtract value high
      else 0

  distance_to_bounds_xz : Float32 → Float32 → BoundsXz → Float32
  unfolding axis_distance
  distance_to_bounds_xz x z bounds =
      let dx = axis_distance x bounds.min_x bounds.max_x in
      let dz = axis_distance z bounds.min_z bounds.max_z in
      square_root (add (multiply dx dx) (multiply dz dz))

  clamp : Float32 → Float32 → Float32 → Float32
  clamp value low high = if less value low then low else if less high value then high else value

  -- The point of the blocker that is nearest to a position.
  aim : Position → Blocker → Position
  unfolding clamp
  aim position b = record {
    x = clamp position.x b.bounds.min_x b.bounds.max_x;
    y = clamp position.y b.min_y b.max_y;
    z = clamp position.z b.bounds.min_z b.bounds.max_z;
    layer = b.layer;
  }

  reach_enabled : Position → Blocker → Text → Navigator → Option Bool → Option Error
  reach_enabled position b id scene none = some unknown_blocker
  reach_enabled position b id scene (some false) = some gate_blocker_disabled
  reach_enabled position b id scene (some true) =
      if line_of_sight scene position (aim position b) id then none else some gate_no_line_of_sight

  reach_blocker : Position → Float32 → Text → Navigator → Option Blocker → Option Error
  unfolding reach_enabled
  reach_blocker position range id scene none = some unknown_blocker
  reach_blocker position range id scene (some b) =
      if not (position.layer == b.layer)
      then some gate_wrong_layer
      else if less range (distance_to_bounds_xz position.x position.z b.bounds)
      then some gate_out_of_range
      else reach_enabled position b id scene (blocker_enabled scene id)

  -- The checks that Attack and ApplyActionDamage share, up to the line of sight.
  unfoldable pub reach : GateRuntime → Position → Float32 → Navigator → Option Error
  unfolding reach_blocker reach_enabled distance_to_bounds_xz aim
  reach g position range scene =
      if g.hp == 0
      then some gate_destroyed
      else reach_blocker position range g.definition.blocker_id scene
          (blocker_definition scene g.definition.blocker_id)

  abbrev pub damaged_hp : ℕ → ℕ → ℕ
  damaged_hp hp damage = if leb hp damage then 0 else hp - damage

  -- What both methods return: the service, the scene, the state and the error.
  abbrev pub Struck : Type 0
  Struck = Service × Navigator × GateState × Option Error

  unfoldable pub store_hp : Service → Text → GateRuntime → ℕ → Service
  store_hp s id g hp = record s { gates = insert id (record g { hp = hp }) s.gates }

  unfoldable pub strike_opened :
      Service → Text → GateRuntime → Navigator → Option Navigator → Struck
  unfolding store_hp
  strike_opened s id g scene none = (s, scene, gate_state id g, some unknown_blocker)
  strike_opened s id g scene (some opened) =
      (store_hp s id g 0, opened, gate_state id (record g { hp = 0 }), none)

  -- The damage: at zero the blocker opens, and only then the hit points are stored.
  unfoldable pub strike : Service → Text → GateRuntime → ℕ → Navigator → Struck
  unfolding strike_opened store_hp
  strike s id g damage scene =
      let hp = damaged_hp g.hp damage in
      if hp == 0
      then strike_opened s id g scene (set_blocker_enabled scene g.definition.blocker_id false)
      else (store_hp s id g hp, scene, gate_state id (record g { hp = hp }), none)

  unfoldable pub action_reached :
      Service → Text → GateRuntime → ℕ → Navigator → Option Error → Struck
  action_reached s id g damage scene (some e) = (s, scene, gate_state id g, some e)
  action_reached s id g damage scene none = strike s id g damage scene

  unfoldable pub action_found :
      Service → Position → Text → Float32 → ℕ → Navigator → Option GateRuntime → Struck
  unfolding action_reached
  action_found s position id range damage scene none = (s, scene, no_gate_state, some unknown_gate)
  action_found s position id range damage scene (some g) =
      action_reached s id g damage scene (reach g position range scene)

  unfoldable pub apply_action_damage : Service → Position → Text → Float32 → ℕ → Navigator → Struck
  unfolding action_found
  apply_action_damage s position id range damage scene =
      action_found s position id range damage scene (lookup id s.gates)

  -- The cooldown that a successful strike starts.
  unfoldable pub start_cooldown : AttackKey → ℕ → Struck → Struck
  start_cooldown key until (s, scene, state, some e) = (s, scene, state, some e)
  start_cooldown key until (s, scene, state, none) =
      (record s { next_attack_tick = insert key until s.next_attack_tick }, scene, state, none)

  unfoldable pub attack_reached :
      Service → ℕ → Text → GateRuntime → ℕ → ℤ → Navigator → Option Error → Struck
  unfolding start_cooldown
  attack_reached s entity id g tick delta scene (some e) = (s, scene, gate_state id g, some e)
  attack_reached s entity id g tick delta scene none =
      let next = get_or 0 (lookup (entity, id) s.next_attack_tick) in
      if not (next == 0) && ltb tick next
      then (s, scene, gate_state id g, some gate_attack_cooldown)
      else start_cooldown (entity, id)
          (add_u64 tick (cooldown_ticks g.definition.attack.cooldown_seconds delta))
          (strike s id g g.definition.attack.damage scene)

  unfoldable pub attack_found :
      Service → ℕ → Position → Text → ℕ → ℤ → Navigator → Option GateRuntime → Struck
  unfolding attack_reached
  attack_found s entity position id tick delta scene none =
      (s, scene, no_gate_state, some unknown_gate)
  attack_found s entity position id tick delta scene (some g) =
      attack_reached s entity id g tick delta scene
        (reach g position g.definition.attack.range scene)

  unfoldable pub attack : Service → ℕ → Position → Text → ℕ → ℤ → Navigator → Struck
  unfolding attack_found
  attack s entity position id tick delta scene =
      attack_found s entity position id tick delta scene (lookup id s.gates)
