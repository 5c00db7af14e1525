-- ===== src/Siege/Throne/Presence.antt =====
-- Who stands at the throne (ObserveThronePresence of internal/siege/throne.go).
use astrahold_server.Common.{
  ℕ, ◌+◌, ◌%◌, ◌<◌, ◌≡◌, refl, inl, inr, true, false, List, [], ◌∷◌, arith, text_key, ◌==◌, not,
  ◌&&◌, ◌||◌, ltb, if◌then◌else◌, Map, Option, some, lookup, nat_key, u32_mod, Bool-cases,
}
use astrahold_server.Siege.{
  Team, attacker, defender, MatchPhase, is_throne, ObjectiveZone, ThroneRuntime, next_revision,
}
use astrahold_server.Siege.Throne.{
  ParticipantPresence, Tally, zone_contains, seen_before, tally, count_presence, observe_presence,
  same_throne_presence, nobody,
}

-- The observations of an entity after its first one, and those of no entity, are left out.
unfoldable pub others : ℕ → List ParticipantPresence → List ParticipantPresence
others id [] = []
others id (o ∷ os) = let rest = others id os in if o.entity_id == id then rest else o ∷ rest

unfoldable pub first_observations : List ParticipantPresence → List ParticipantPresence
first_observations [] = []
first_observations (o ∷ os) =
    let rest = first_observations os in
    if o.entity_id == 0 then rest else o ∷ others o.entity_id rest

-- A number for each observation, summed up.
unfoldable pub sum_of : (ParticipantPresence → ℕ) → List ParticipantPresence → ℕ
sum_of f [] = 0
sum_of f (o ∷ os) = f o + sum_of f os

abbrev pub on_team : Team → Option Team → ℕ
on_team attacker (some attacker) = 1
on_team defender (some defender) = 1
on_team _ _ = 0

-- 1 for an undefeated member of `team` inside the zone, 0 for anyone else.
abbrev pub stands : Map ℕ Team → ObjectiveZone → Team → ParticipantPresence → ℕ
stands teams zone team o =
    if o.defeated || not (zone_contains zone o.position)
    then 0
    else on_team team (lookup o.entity_id teams)

-- The specification: how many members of a team stand in the zone, by their first observations.
abbrev pub standing : Map ℕ Team → ObjectiveZone → Team → List ParticipantPresence → ℕ
standing teams zone team os = sum_of (stands teams zone team) (first_observations os)

-- A sum over the entities that are not in `seen`.
abbrev unless_seen : List ℕ → (ParticipantPresence → ℕ) → ParticipantPresence → ℕ
unless_seen seen f o = if seen_before o.entity_id seen then 0 else f o

sum_of-others_seen :
    (f : ParticipantPresence → ℕ) (id : ℕ) (seen : List ℕ) (os : List ParticipantPresence)
    → seen_before id seen ≡ true
    → sum_of (unless_seen seen f) (others id os) ≡ sum_of (unless_seen seen f) os
unfolding sum_of others
sum_of-others_seen f id seen [] h = refl
sum_of-others_seen f id seen (o ∷ os) h = ground (arith, sum_of-others_seen f id seen os h)

sum_of-others_new :
    (f : ParticipantPresence → ℕ) (id : ℕ) (seen : List ℕ) (os : List ParticipantPresence)
    → sum_of (unless_seen seen f) (others id os) ≡ sum_of (unless_seen (id ∷ seen) f) os
unfolding sum_of others seen_before
sum_of-others_new f id seen [] = refl
sum_of-others_new f id seen (o ∷ os) = ground (arith, sum_of-others_new f id seen os)

sum_of-fresh :
    (f : ParticipantPresence → ℕ) (os : List ParticipantPresence)
    → sum_of (unless_seen [] f) os ≡ sum_of f os
unfolding sum_of seen_before
sum_of-fresh f [] = refl
sum_of-fresh f (o ∷ os) = ground (arith, sum_of-fresh f os)

module _ (teams : Map ℕ Team) (zone : ObjectiveZone) where
  abbrev here : Team → ParticipantPresence → ℕ
  here = stands teams zone

  count_presence_lem :
      (o : ParticipantPresence) (t : Tally)
      → t.attackers < u32_mod
      → t.defenders < u32_mod
      → let r = count_presence teams zone o t in
        (r.attackers ≡ (t.attackers + here attacker o) % u32_mod)
        × (r.defenders ≡ (t.defenders + here defender o) % u32_mod)
        × (r.attackers < u32_mod)
        × (r.defenders < u32_mod)
  count_presence_lem o t a d = ground arith

  tally_lem :
      (seen : List ℕ) (t : Tally) (os : List ParticipantPresence)
      → t.attackers < u32_mod
      → t.defenders < u32_mod
      → ((tally teams zone seen t os).attackers
          ≡ (t.attackers + sum_of (unless_seen seen (here attacker)) (first_observations os))
            % u32_mod)
        × ((tally teams zone seen t os).defenders
            ≡ (t.defenders + sum_of (unless_seen seen (here defender)) (first_observations os))
              % u32_mod)
  unfolding tally sum_of first_observations
  tally_lem seen t [] a d = ground arith
  tally_lem seen t (o ∷ os) a d =
      let rest = first_observations os in
      let fresh = count_presence_lem o t a d in
      elim (Bool-cases (o.entity_id == 0)) [
        | inl zero_id ↦ ground (arith, tally_lem seen t os a d)
        | inr real ↦ elim (Bool-cases (seen_before o.entity_id seen)) [
          | inl old ↦ ground (
            arith,
            tally_lem seen t os a d,
            sum_of-others_seen (here attacker) o.entity_id seen rest,
            sum_of-others_seen (here defender) o.entity_id seen rest,
          )
          | inr new ↦ ground (
            arith,
            fresh,
            tally_lem (o.entity_id ∷ seen) (count_presence teams zone o t) os fresh.2 fresh.3,
            sum_of-others_new (here attacker) o.entity_id seen rest,
            sum_of-others_new (here defender) o.entity_id seen rest,
          )
        ]
      ]

  -- The loop counts, as uint32 values, the members of each team that stand in the zone.
  tally-standing :
      (os : List ParticipantPresence)
      → ((tally teams zone [] nobody os).attackers ≡ standing teams zone attacker os % u32_mod)
        × ((tally teams zone [] nobody os).defenders ≡ standing teams zone defender os % u32_mod)
  tally-standing os = ground (
    arith,
    tally_lem [] nobody os (omega arith) (omega arith),
    sum_of-fresh (here attacker) (first_observations os),
    sum_of-fresh (here defender) (first_observations os),
  )

-- What the observation counts of a team: those who stand in the zone, in the throne phase only.
abbrev pub counted_in : MatchPhase → ℕ → ℕ
counted_in phase n = if is_throne phase then n else 0

-- In the throne phase the observed state holds exactly the counts of the specification, and in
-- every other phase none; the throne is contested when both teams are counted, and can be captured
-- when attackers are counted and no defender is; and it is active in the throne phase only. An
-- observation that changes nothing of this is not reported. The counts must be uint32 values.
pub observe_presence_lem :
    (phase : MatchPhase) (teams : Map ℕ Team) (t : ThroneRuntime) (os : List ParticipantPresence)
    → standing teams t.definition.zone attacker os < u32_mod
    → standing teams t.definition.zone defender os < u32_mod
    → let r = observe_presence phase teams t os in
      let a = counted_in phase (standing teams t.definition.zone attacker os) in
      let d = counted_in phase (standing teams t.definition.zone defender os) in
      (r.0.state.active ≡ is_throne phase)
      × (r.0.state.attacker_count ≡ a)
      × (r.0.state.defender_count ≡ d)
      × (r.0.state.contested ≡ (ltb 0 a && ltb 0 d))
      × (r.0.state.capture_eligible ≡ (ltb 0 a && d == 0))
      × (r.1 ≡ false → r.0 ≡ t)
      × (r.1 ≡ true → r.0.state.revision ≡ next_revision t.state.revision)
unfolding observe_presence same_throne_presence
observe_presence_lem phase teams t os ha hd = elim (Bool-cases (is_throne phase)) [
  | inl active ↦ ground (arith, active, tally-standing teams t.definition.zone os)
  | inr idle ↦ ground (arith, idle)
]
