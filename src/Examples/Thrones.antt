-- ===== src/Examples/Thrones.antt =====
-- Runs of the throne (internal/siege/throne.go).
use Prim.Native.Nat.{min}
use astrahold_server.Common.{
  ℕ, ◌+◌, ◌<◌, ◌≡◌, true, false, some, List, [], ◌∷◌, arith, codes, pos, leb, ltb, ◌&&◌, ◌==◌, Map,
  lookup, ℕ_discrete, u32_mod,
}
use astrahold_server.Scene.{Position}
use astrahold_server.Siege.{
  is_throne, Team, attacker, defender, throne, ThroneCaptureState, ThroneRuntime, next_revision,
}
use astrahold_server.Siege.Throne.{ParticipantPresence, advance_capture, observe_presence}
use astrahold_server.Siege.Throne.Capture.{
  Progresses, hold, sum, hold_lem, advance_capture-Progresses,
}
use astrahold_server.Siege.Throne.Presence.{
  counted_in, standing, first_observations, others, sum_of, observe_presence_lem,
}

abbrev halfway : ThroneCaptureState
halfway = record {
  revision = 3;
  objective_id = codes "t";
  active = true;
  progress = 4;
  required = 10;
  ready_for_resolution = false;
}

halfway-Progresses : Progresses halfway
halfway-Progresses = record {
  required_positive = omega arith;
  pending = λ _. omega arith;
  full = λ e. ground arith;
}

hold_lem_example :
    ((hold halfway (2 ∷ 3 ∷ 5 ∷ [])).progress ≡ min 10 (4 + sum (2 ∷ 3 ∷ 5 ∷ [])))
    × ((hold halfway (2 ∷ 3 ∷ 5 ∷ [])).ready_for_resolution ≡ leb 10 (4 + sum (2 ∷ 3 ∷ 5 ∷ [])))
hold_lem_example = hold_lem halfway (2 ∷ 3 ∷ 5 ∷ []) halfway-Progresses

advance_capture-Progresses_example : Progresses (advance_capture throne true halfway (pos 9)).0
advance_capture-Progresses_example =
    advance_capture-Progresses throne true halfway (pos 9) halfway-Progresses

abbrev empty_seat : ThroneRuntime
empty_seat = record {
  definition = record {
    id = codes "t";
    zone = record { layer = 0; bounds = record { min_x = 0; max_x = 1; min_z = 0; max_z = 1 } };
    capture_duration = pos 10;
  };
  state = record {
    revision = 1;
    objective_id = codes "t";
    active = true;
    attacker_count = 0;
    defender_count = 0;
    contested = false;
    capture_eligible = false;
  };
  capture = some halfway;
}

abbrev steps : Position
steps = record { x = 0; y = 0; z = 1; layer = 0 }

abbrev teams : Map ℕ Team
teams = (1, attacker) ∷ (2, defender) ∷ []

abbrev crowd : List ParticipantPresence
crowd =
    record { entity_id = 1; position = steps; defeated = false }
    ∷ record { entity_id = 2; position = steps; defeated = true }
    ∷ record { entity_id = 1; position = steps; defeated = false }
    ∷ []

one_attacker : standing teams empty_seat.definition.zone attacker crowd < u32_mod
unfolding first_observations others sum_of lookup ℕ_discrete
one_attacker = omega arith

no_defender : standing teams empty_seat.definition.zone defender crowd < u32_mod
unfolding first_observations others sum_of lookup ℕ_discrete
no_defender = omega arith

observe_presence_lem_example :
    let r = observe_presence throne teams empty_seat crowd in
    let a = counted_in throne (standing teams empty_seat.definition.zone attacker crowd) in
    let d = counted_in throne (standing teams empty_seat.definition.zone defender crowd) in
    (r.0.state.active ≡ is_throne throne)
    × (r.0.state.attacker_count ≡ a)
    × (r.0.state.defender_count ≡ d)
    × (r.0.state.contested ≡ (ltb 0 a && ltb 0 d))
    × (r.0.state.capture_eligible ≡ (ltb 0 a && d == 0))
    × (r.1 ≡ false → r.0 ≡ empty_seat)
    × (r.1 ≡ true → r.0.state.revision ≡ next_revision empty_seat.state.revision)
observe_presence_lem_example =
    observe_presence_lem throne teams empty_seat crowd one_attacker no_defender
