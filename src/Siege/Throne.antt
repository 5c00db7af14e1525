-- ===== src/Siege/Throne.antt =====
-- Occupation and capture of the throne (internal/siege/throne.go).
pub mod Presence
pub mod Capture
use astrahold_server.Common.{
  ℕ, zero, suc, ◌+◌, ◌-◌, Bool, true, false, not, ◌&&◌, ◌||◌, Option, none, some, List, [], ◌∷◌,
  Text, text_key, nat_key, Map, ℤ, pos, negsuc, ◌=?◌, same_bool, add_u32, add_u64, ◌==◌, leb, ltb,
  if◌then◌else◌, lookup, ◌≡◌, refl,
}
use astrahold_server.Scene.{Position, contains}
use astrahold_server.Siege.{
  Team, attacker, defender, MatchPhase, is_throne, Error, invalid_throne_objective, Result, ok, err,
  ObjectiveZone, valid_zone, ThroneObjectiveDefinition, valid_objective, ThronePresenceState,
  ThroneCaptureState, ThroneRuntime, MatchRuntime, Service, next_revision, on_match,
}

pub record ParticipantPresence : Type 0 where
  pub entity_id : ℕ
  pub position : Position
  pub defeated : Bool

abbrev pub zone_contains : ObjectiveZone → Position → Bool
zone_contains zone p = valid_zone zone && p.layer == zone.layer && contains zone.bounds p.x p.z

new_capture : ThroneObjectiveDefinition → ℤ → Option ThroneCaptureState
new_capture d (pos zero) = none
new_capture d (pos (suc n)) = some (record {
  revision = 1;
  objective_id = d.id;
  active = false;
  progress = 0;
  required = suc n;
  ready_for_resolution = false;
})
new_capture d (negsuc n) = none

unfoldable pub new_throne_runtime : ThroneObjectiveDefinition → Result ThroneRuntime
unfolding new_capture
new_throne_runtime d =
    if valid_objective d
    then ok (record {
      definition = d;
      state = record {
        revision = 1;
        objective_id = d.id;
        active = false;
        attacker_count = 0;
        defender_count = 0;
        contested = false;
        capture_eligible = false;
      };
      capture = new_capture d d.capture_duration;
    })
    else err invalid_throne_objective

pub record Tally : Type 0 where
  pub attackers : ℕ
  pub defenders : ℕ

abbrev add_member : Option Team → Tally → Tally
add_member (some attacker) t = record t { attackers = add_u32 t.attackers 1 }
add_member (some defender) t = record t { defenders = add_u32 t.defenders 1 }
add_member _ t = t

unfoldable pub seen_before : ℕ → List ℕ → Bool
seen_before id [] = false
seen_before id (j ∷ seen) = j == id || seen_before id seen

-- The body of the loop for an entity that is counted for the first time.
abbrev count_presence : Map ℕ Team → ObjectiveZone → ParticipantPresence → Tally → Tally
count_presence teams zone o t =
    if o.defeated || not (zone_contains zone o.position)
    then t
    else add_member (lookup o.entity_id teams) t

-- The loop of ObserveThronePresence, with the set `seen` of entities.
unfoldable pub tally :
    Map ℕ Team → ObjectiveZone → List ℕ → Tally → List ParticipantPresence → Tally
tally teams zone seen t [] = t
tally teams zone seen t (o ∷ os) =
    let skip = o.entity_id == 0 || seen_before o.entity_id seen in
    tally teams zone (if skip then seen else o.entity_id ∷ seen)
      (if skip then t else count_presence teams zone o t) os

unfoldable pub same_throne_presence : ThronePresenceState → ThronePresenceState → Bool
same_throne_presence a b =
    a.objective_id =? b.objective_id
    && same_bool a.active b.active
    && a.attacker_count == b.attacker_count
    && a.defender_count == b.defender_count
    && same_bool a.contested b.contested
    && same_bool a.capture_eligible b.capture_eligible

abbrev pub presence_of : ThroneRuntime → Bool → Tally → ThronePresenceState
presence_of t active count = record {
  revision = t.state.revision;
  objective_id = t.definition.id;
  active = active;
  attacker_count = count.attackers;
  defender_count = count.defenders;
  contested = active && ltb 0 count.attackers && ltb 0 count.defenders;
  capture_eligible = active && ltb 0 count.attackers && count.defenders == 0;
}

abbrev pub nobody : Tally
nobody = record { attackers = 0; defenders = 0 }

unfoldable pub observe_presence :
    MatchPhase → Map ℕ Team → ThroneRuntime → List ParticipantPresence → ThroneRuntime × Bool
observe_presence phase teams t observations =
    let active = is_throne phase in
    let count = if active then tally teams t.definition.zone [] nobody observations else nobody in
    let next = presence_of t active count in
    if same_throne_presence t.state next
    then (t, false)
    else (record t { state = record next { revision = next_revision t.state.revision } }, true)

unfoldable pub same_throne_capture : ThroneCaptureState → ThroneCaptureState → Bool
same_throne_capture a b =
    a.objective_id =? b.objective_id
    && same_bool a.active b.active
    && a.progress == b.progress
    && a.required == b.required
    && same_bool a.ready_for_resolution b.ready_for_resolution

-- The switch of AdvanceThroneCapture; `delta` may be negative or zero.
unfoldable pub advanced : ThroneCaptureState → Bool → ℤ → ThroneCaptureState
advanced c eligible delta =
    if c.ready_for_resolution
    then record c { progress = c.required }
    else if not c.active || not eligible
    then record c { progress = 0 }
    else elim delta [
      | negsuc _ ↦ c
      | pos n ↦
          if n == 0
          then c
          else if leb c.required c.progress || leb (c.required - c.progress) n
          then record c { progress = c.required; ready_for_resolution = true }
          else record c { progress = c.progress + n }
    ]

unfoldable pub advance_capture :
    MatchPhase → Bool → ThroneCaptureState → ℤ → ThroneCaptureState × Bool
unfolding advanced same_throne_capture
advance_capture phase eligible current delta =
    let next = advanced (record current { active = is_throne phase }) eligible delta in
    if same_throne_capture current next
    then (current, false)
    else (record next { revision = next_revision current.revision }, true)

unfoldable pub observe_match : MatchRuntime → List ParticipantPresence → MatchRuntime × Bool
observe_match m observations = elim m.throne_runtime [
  | none ↦ (m, false)
  | some t ↦
      let r = observe_presence m.state.phase m.participant_teams t observations in
      (record m { throne_runtime = some r.0 }, r.1)
]

unfoldable pub advance_match : MatchRuntime → ℤ → MatchRuntime × Bool
advance_match m delta = elim m.throne_runtime [
  | none ↦ (m, false)
  | some t ↦ elim t.capture [
    | none ↦ (m, false)
    | some c ↦
        let r = advance_capture m.state.phase t.state.capture_eligible c delta in
        (record m { throne_runtime = some (record t { capture = some r.0 }) }, r.1)
  ]
]

unfoldable pub observe_throne_presence : Service → List ParticipantPresence → Service × Bool
observe_throne_presence s observations = on_match s false (λ m. observe_match m observations)

unfoldable pub advance_throne_capture : Service → ℤ → Service × Bool
advance_throne_capture s delta = on_match s false (λ m. advance_match m delta)
