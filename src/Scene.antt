-- ===== src/Scene.antt =====
-- Places and the static world: world.Position (internal/world/types.go), bounds, blockers and
-- gates (internal/gameplayworld/world.go), and the blocker state of the navigator
-- (internal/navigation/gameplay.go).
use astrahold_server.Common.{
  ℕ, ◌+◌, ◌-◌, ◌%◌, Bool, false, not, ◌&&◌, Option, none, some, ltb, leb, if◌then◌else◌, Text,
  text_key, Map, lookup, insert, get_or,
}

-- A float32 by its 32 bits (IEEE 754).
abbrev pub Float32 : Type 0
Float32 = ℕ

abbrev magnitude : Float32 → ℕ
magnitude b = b % 2147483648

abbrev pub is_nan : Float32 → Bool
is_nan b = ltb 2139095040 (magnitude b)

abbrev pub is_finite : Float32 → Bool
is_finite b = ltb (magnitude b) 2139095040

-- The order of the values of two floats that are no NaN; both zeros have one rank.
abbrev rank : Float32 → ℕ
rank b = if ltb b 2147483648 then 2147483648 + magnitude b else 2147483648 - magnitude b

abbrev pub less : Float32 → Float32 → Bool
less a b = not (is_nan a) && not (is_nan b) && ltb (rank a) (rank b)

abbrev pub at_most : Float32 → Float32 → Bool
at_most a b = not (is_nan a) && not (is_nan b) && leb (rank a) (rank b)

pub record Position : Type 0 where
  pub x : Float32
  pub y : Float32
  pub z : Float32
  pub layer : ℕ

pub record BoundsXz : Type 0 where
  pub min_x : Float32
  pub max_x : Float32
  pub min_z : Float32
  pub max_z : Float32

abbrev pub contains : BoundsXz → Float32 → Float32 → Bool
contains b x z = at_most b.min_x x && at_most x b.max_x && at_most b.min_z z && at_most z b.max_z

pub record Blocker : Type 0 where
  pub id : Text
  pub layer : ℕ
  pub bounds : BoundsXz
  pub min_y : Float32
  pub max_y : Float32
  pub blocks_movement : Bool
  pub blocks_los : Bool
  pub enabled : Bool

pub record GateAttackProfile : Type 0 where
  pub range : Float32
  pub damage : ℕ
  pub cooldown_seconds : Float32

pub record Gate : Type 0 where
  pub id : Text
  pub blocker_id : Text
  pub max_hp : ℕ
  pub attack : GateAttackProfile

-- The part of GameplayNavigator that the siege reads and writes.
pub record Navigator : Type 0 where
  pub blockers : Map Text Blocker
  pub enabled : Map Text Bool

unfoldable pub set_blocker_enabled : Navigator → Text → Bool → Option Navigator
set_blocker_enabled n id on = elim (lookup id n.blockers) [
  | none ↦ none
  | some _ ↦ some (record n { enabled = insert id on n.enabled })
]

unfoldable pub blocker_enabled : Navigator → Text → Option Bool
blocker_enabled n id = elim (lookup id n.blockers) [
  | none ↦ none
  | some _ ↦ some (get_or false (lookup id n.enabled))
]

unfoldable pub blocker_definition : Navigator → Text → Option Blocker
blocker_definition n id = lookup id n.blockers
