-- ===== src/Examples/Sieges.antt =====
-- Runs of the siege: the match, its rounds and its gates (internal/siege).
use astrahold_server.Common.{
  ℕ, ◌+◌, ◌≡◌, refl, inl, inr, true, false, none, some, [], ◌∷◌, arith, Text, codes, lookup, insert,
  ℕ_discrete, Text-discrete, text_key, nat_key, ite, pos,
}
use astrahold_server.Scene.{Blocker, Gate, Navigator, blocker_enabled}
use astrahold_server.Siege.{
  attack_key, attacker, defender, gate, throne, completed, MatchDefinition, MatchRuntime,
  CastleOwnershipTransfer, GateRuntime, Service, ThroneRuntime, ThroneCaptureState,
}
use astrahold_server.Siege.Match.{
  fresh_match, fresh_state, valid_definition, configure_match, configure_throne,
}
use astrahold_server.Siege.Round.{prepare_resolution, start_next_round, restarted}
use astrahold_server.Siege.Invariant.{Inv}
use astrahold_server.Siege.Sides.{side, following, next_round-side}
use astrahold_server.Siege.Restart.{start_next_round_succeeds, CanRestart}
use astrahold_server.Siege.Gates.{Physics, new_service}
use astrahold_server.Siege.Calls.{configures, step, run, run-new_service-Inv}
use astrahold_server.Ownership
use astrahold_server.Ownership.{load_locked, loaded, written, not_synced, wire_of, decoded}
use astrahold_server.Ownership.Recovery.{resolve_stored, IsDurable, resolve_stored-recovers}

-- Whole numbers in place of floats, and a line of sight to everywhere.
abbrev pub plain : Physics
plain = record {
  add = λ a b. a + b;
  subtract = λ a b. 0;
  multiply = λ a b. 0;
  square_root = λ a. a;
  ceil_ratio = λ seconds delta. 4;
  line_of_sight = λ scene from to id. true;
}

abbrev pub main_gate : Gate
main_gate = record {
  id = codes "g";
  blocker_id = codes "b";
  max_hp = 10;
  attack = record { range = 1065353216; damage = 6; cooldown_seconds = 1065353216 };
}

abbrev definition : MatchDefinition
definition = record {
  id = codes "m";
  attacker_id = codes "red";
  defender_id = codes "blue";
  breach_gate_id = codes "g";
  throne_objective_id = codes "t";
  throne_definition = none;
  participant_teams = [];
}

abbrev configured : Service
configured = run plain (new_service (main_gate ∷ [])) (configures definition ∷ [])

configured_match : configured.siege_match ≡ some (fresh_match definition none)
unfolding run step new_service configure_match configure_throne valid_definition lookup insert
    Text-discrete ℕ_discrete
configured_match = refl

run-new_service-Inv_example : Inv (fresh_match definition none)
run-new_service-Inv_example =
    run-new_service-Inv plain (main_gate ∷ []) (configures definition ∷ [])
      (fresh_match definition none) (tt, tt) configured_match

abbrev capture : ThroneCaptureState
capture = record {
  revision = 3;
  objective_id = codes "t";
  active = true;
  progress = 5;
  required = 5;
  ready_for_resolution = true;
}

abbrev seat : ThroneRuntime
seat = record {
  definition = record {
    id = codes "t";
    zone = record { layer = 0; bounds = record { min_x = 0; max_x = 1; min_z = 0; max_z = 1 } };
    capture_duration = pos 5;
  };
  state = record {
    revision = 1;
    objective_id = codes "t";
    active = true;
    attacker_count = 1;
    defender_count = 0;
    contested = false;
    capture_eligible = true;
  };
  capture = some capture;
}

abbrev taken : MatchRuntime
taken = record (fresh_match definition (some seat)) {
  state = record (fresh_state definition) { phase = throne; gate_breached = true };
  participant_teams = (1, attacker) ∷ (2, defender) ∷ [];
}

taken-Inv : Inv taken
taken-Inv = record {
  sides = (refl, refl, refl, ground arith);
  roles = inl (refl, refl);
  phase = ((refl, refl, refl, refl), refl);
  owned = refl;
  typed = (omega arith, omega arith);
  revised = ground arith;
}

abbrev conquest : CastleOwnershipTransfer
conquest = record {
  expected_revision = 1;
  previous_owner_id = codes "blue";
  owner_id = codes "red";
  match_id = codes "m";
}

taken_ready : prepare_resolution taken ≡ some conquest
unfolding prepare_resolution
taken_ready = refl

abbrev place : Text
place = codes "w"

abbrev record_store : Ownership.Store
record_store = record { files = (place, decoded (wire_of place taken.ownership)) ∷ [] }

record_store_loads : load_locked record_store place ≡ loaded taken.ownership
unfolding load_locked lookup Text-discrete ℕ_discrete
record_store_loads = refl

resolve_stored-recovers_example :
    let first = resolve_stored taken record_store place not_synced in
    (first.0.1 ≡ false)
    × (first.0.0.state ≡ taken.state)
    × (first.0.0.ownership ≡ taken.ownership)
    × IsDurable place (resolve_stored first.0.0 first.1 place written)
resolve_stored-recovers_example =
    resolve_stored-recovers taken taken-Inv conquest taken_ready place refl (omega arith)
      record_store record_store_loads not_synced (inr refl)

abbrev won : MatchRuntime
won = record taken {
  state = record taken.state { phase = completed; winner_team = attacker; winner_id = codes "red" };
  ownership = record {
    revision = 2;
    owner_id = codes "red";
    previous_owner_id = codes "blue";
    last_transfer_match_id = codes "m";
  };
}

won-Inv : Inv won
won-Inv = record {
  sides = (refl, refl, refl, ground arith);
  roles = inl (refl, refl);
  phase = ((refl, refl, refl, refl), refl);
  owned = refl;
  typed = (omega arith, omega arith);
  revised = ground arith;
}

next_round-side_example :
    ((following won).state.defender_id ≡ won.state.winner_id)
    × ((following won).state.attacker_id ≡ won.state.defender_id)
    × ((e : ℕ)
        → side (following won).state (lookup e (following won).participant_teams)
          ≡ side won.state (lookup e won.participant_teams))
    × ((id : Text)
        → side (following won).state (lookup id (following won).trusted_participant_teams)
          ≡ side won.state (lookup id won.trusted_participant_teams))
next_round-side_example = next_round-side won won-Inv refl

abbrev pub bars : Blocker
bars = record {
  id = codes "b";
  layer = 0;
  bounds = record { min_x = 0; max_x = 1; min_z = 0; max_z = 1 };
  min_y = 0;
  max_y = 1;
  blocks_movement = true;
  blocks_los = true;
  enabled = true;
}

abbrev broken : GateRuntime
broken = record { definition = main_gate; hp = 0 }

abbrev open_scene : Navigator
open_scene = record { blockers = (codes "b", bars) ∷ []; enabled = (codes "b", false) ∷ [] }

abbrev ended : Service
ended = record {
  gates = (codes "g", broken) ∷ [];
  order = codes "g" ∷ [];
  next_attack_tick = [];
  siege_match = some won;
}

ended-CanRestart : CanRestart ended won broken open_scene bars
unfolding lookup Text-discrete ℕ_discrete
ended-CanRestart = (refl, won-Inv, refl, refl, refl, refl)

start_next_round_succeeds_example :
    (after : Navigator) × (start_next_round ended (some open_scene) ≡ (
      restarted ended won broken (won.state.defender_id, won.state.attacker_id),
      some after,
      true,
      none,
    ))
    × (blocker_enabled after (codes "b") ≡ some true)
    × ((start_next_round ended (some open_scene)).0.siege_match ≡ some (following won))
    × ((following won).state.phase ≡ gate)
    × ((following won).state.round ≡ won.state.round + 1)
    × Inv (following won)
    × ((id : Text)
        → lookup id (start_next_round ended (some open_scene)).0.gates
          ≡ ite
              (text_key.same? (codes "g") id)
              (some (record broken { hp = main_gate.max_hp }))
              (lookup id ended.gates))
start_next_round_succeeds_example =
    start_next_round_succeeds ended won broken open_scene bars ended-CanRestart
