-- ===== src/Siege.antt =====
-- The state of the castle siege (internal/siege/match.go, throne.go and gate.go). The service is
-- a value; a nil match, throne or capture is `none`. Errors that `fmt.Errorf` wraps are the
-- errors that they wrap.
pub mod Throne
pub mod Match
pub mod Round
pub mod Invariant
pub mod Gates
pub mod Sides
pub mod Restart
pub mod GateMoves
pub mod History
pub mod Calls
pub mod Cooldown
use astrahold_server.Common.{
  ◌≡◌, refl, ◌⊎◌, inl, inr, ℕ, ◌+◌, Bool, true, false, not, ◌&&◌, ◌||◌, Option, none, some, List,
  [], ◌∷◌, Text, text_key, Key, Map, ℕ_discrete, ℤ, pos, negsuc, is_empty, ◌=?◌, add_u64, ◌==◌,
  if◌then◌else◌,
}
use astrahold_server.Identity
use astrahold_server.Scene.{BoundsXz, Gate, less, is_finite}

-- The type Team of uint8: its three constants, and every other value.
pub data Team : Type 0 where
  unknown attacker defender : Team
  other : ℕ → Team

abbrev pub valid_team : Team → Bool
valid_team attacker = true
valid_team defender = true
valid_team _ = false

pub data MatchPhase : Type 0 where
  unset gate throne completed : MatchPhase

abbrev pub is_gate : MatchPhase → Bool
is_gate gate = true
is_gate _ = false

abbrev pub is_throne : MatchPhase → Bool
is_throne throne = true
is_throne _ = false

abbrev pub is_completed : MatchPhase → Bool
is_completed completed = true
is_completed _ = false

abbrev pub no_team : Team → Bool
no_team unknown = true
no_team _ = false

pub data Error : Type 0 where
  match_unavailable invalid_match_definition invalid_participant : Error
  invalid_castle_ownership throne_resolution_unavailable round_reset_unavailable : Error
  invalid_throne_objective unknown_blocker : Error
  unknown_gate gate_destroyed gate_wrong_layer gate_out_of_range : Error
  gate_no_line_of_sight gate_attack_cooldown gate_blocker_disabled : Error
  -- what the ownership store returns
  storage : ℕ → Error

pub record ObjectiveZone : Type 0 where
  pub layer : ℕ
  pub bounds : BoundsXz

abbrev pub valid_zone : ObjectiveZone → Bool
valid_zone zone =
    is_finite zone.bounds.min_x
    && is_finite zone.bounds.max_x
    && is_finite zone.bounds.min_z
    && is_finite zone.bounds.max_z
    && less zone.bounds.min_x zone.bounds.max_x
    && less zone.bounds.min_z zone.bounds.max_z

-- A duration is an int64 of nanoseconds.
pub record ThroneObjectiveDefinition : Type 0 where
  pub id : Text
  pub zone : ObjectiveZone
  pub capture_duration : ℤ

abbrev pub non_negative : ℤ → Bool
non_negative (pos _) = true
non_negative (negsuc _) = false

abbrev pub valid_objective : ThroneObjectiveDefinition → Bool
valid_objective d = not (is_empty d.id) && valid_zone d.zone && non_negative d.capture_duration

pub record ThronePresenceState : Type 0 where
  pub revision : ℕ
  pub objective_id : Text
  pub active : Bool
  pub attacker_count : ℕ
  pub defender_count : ℕ
  pub contested : Bool
  pub capture_eligible : Bool

-- `required` is a positive duration, and `progress` starts at 0 and is never negative.
pub record ThroneCaptureState : Type 0 where
  pub revision : ℕ
  pub objective_id : Text
  pub active : Bool
  pub progress : ℕ
  pub required : ℕ
  pub ready_for_resolution : Bool

pub record ThroneRuntime : Type 0 where
  pub definition : ThroneObjectiveDefinition
  pub state : ThronePresenceState
  pub capture : Option ThroneCaptureState

pub record MatchDefinition : Type 0 where
  pub id : Text
  pub attacker_id : Text
  pub defender_id : Text
  pub breach_gate_id : Text
  pub throne_objective_id : Text
  pub throne_definition : Option ThroneObjectiveDefinition
  pub participant_teams : Map Text Team

pub record MatchState : Type 0 where
  pub revision : ℕ
  pub round : ℕ
  pub match_id : Text
  pub attacker_id : Text
  pub defender_id : Text
  pub phase : MatchPhase
  pub breach_gate_id : Text
  pub throne_objective_id : Text
  pub gate_breached : Bool
  pub winner_team : Team
  pub winner_id : Text

pub record CastleOwnershipState : Type 0 where
  pub revision : ℕ
  pub owner_id : Text
  pub previous_owner_id : Text
  pub last_transfer_match_id : Text

pub record CastleOwnershipTransfer : Type 0 where
  pub expected_revision : ℕ
  pub previous_owner_id : Text
  pub owner_id : Text
  pub match_id : Text

pub data Result (A : Type 0) : Type 0 where
  ok : A → Result A
  err : Error → Result A

pub Result-cases :
    {A : Type 0} (r : Result A) → ((a : A) × (r ≡ ok a)) ⊎ ((e : Error) × (r ≡ err e))
Result-cases (ok a) = inl (a, refl)
Result-cases (err e) = inr (e, refl)

-- What the injected committer answers to a transfer.
abbrev pub Committer : Type 0
Committer = CastleOwnershipTransfer → Result CastleOwnershipState

pub record MatchRuntime : Type 0 where
  pub definition : MatchDefinition
  pub state : MatchState
  pub ownership : CastleOwnershipState
  pub ownership_committer : Option Committer
  pub participant_teams : Map ℕ Team
  pub trusted_participant_teams : Map Text Team
  pub throne_runtime : Option ThroneRuntime

pub record GateRuntime : Type 0 where
  pub definition : Gate
  pub hp : ℕ

abbrev pub AttackKey : Type 0
AttackKey = ℕ × Text

unfoldable pub AttackKey-discrete : Discrete AttackKey
AttackKey-discrete = hlevel ℕ_discrete

instance abbrev pub attack_key : Key AttackKey
attack_key = record { same? = AttackKey-discrete }

pub record Service : Type 0 where
  pub gates : Map Text GateRuntime
  pub order : List Text
  pub next_attack_tick : Map AttackKey ℕ
  pub siege_match : Option MatchRuntime

unfoldable pub next_revision : ℕ → ℕ
next_revision current = let next = add_u64 current 1 in if next == 0 then 1 else next

abbrev pub valid_castle_ownership : CastleOwnershipState → Bool
valid_castle_ownership s =
    if s.revision == 0 || is_empty s.owner_id then false else elim (is_empty s.previous_owner_id) [
      | true ↦ is_empty s.last_transfer_match_id
      | false ↦ not (is_empty s.last_transfer_match_id)
    ]

abbrev pub valid_transfer : CastleOwnershipTransfer → Bool
valid_transfer t =
    not (t.expected_revision == 0)
    && not (is_empty t.previous_owner_id)
    && not (is_empty t.owner_id)
    && not (is_empty t.match_id)

abbrev pub requires_ownership_change : CastleOwnershipTransfer → Bool
requires_ownership_change t = valid_transfer t && not (t.previous_owner_id =? t.owner_id)

unfoldable pub opposite_team : Team → Team
opposite_team attacker = defender
opposite_team defender = attacker
opposite_team team = team

-- A method that works on the match, and what it returns where there is none.
abbrev pub on_match {ℓ} :
    {A : Type ℓ} → Service → A → (MatchRuntime → MatchRuntime × A) → Service × A
on_match s a f = elim s.siege_match [
  | none ↦ (s, a)
  | some m ↦ let r = f m in (record s { siege_match = some r.0 }, r.1)
]
