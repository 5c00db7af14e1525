-- ===== src/Respawn.antt =====
-- The respawn policy and the respawns that wait for their tick (internal/respawnpolicy/policy.go).
-- A set is the list of its members, and X, Y, Z and Layer of a spawn point are its position. The
-- arithmetic of float64 and of distances is an argument:
-- `delay_of` gives the delay in ticks of a delay in seconds, none where NewService refuses it, and
-- `in_range` compares the squared distance with the squared radius. LoadFile and
-- ValidateAgainstWorld are not modelled.
pub mod Service
pub mod Restore
pub mod Policy
pub mod Calls
pub mod Bound
pub mod Due
pub mod Rebound
use astrahold_server.Common.{
  ℕ, ◌+◌, ◌-◌, ◌≡◌, ◌⊎◌, inl, inr, Bool, true, false, not, ◌&&◌, ◌||◌, Option, none, some, List, [],
  ◌∷◌, ltb, leb, ◌==◌, ◌=?◌, if◌then◌else◌, ℤ, pos, negsuc, Text, text_key, nat_key, codes,
  is_empty, is_some, Map, lookup, insert, delete, length, get_or, max_u64, add_u64,
}
use astrahold_server.Scene.{Position, Float32, is_finite, less, at_most}
use astrahold_server.DeathOutcome.{no_position}

pub data Error : Type 0 where
  unsupported_schema invalid_definition invalid_tick_rate invalid_entity : Error
  unknown_spawn_point unknown_death_context checkpoint_not_acquirable : Error
  checkpoint_wrong_layer checkpoint_out_of_range schedule_overflow : Error

pub record SpawnPoint : Type 0 where
  pub id : Text
  pub spawn_class : Text
  pub position : Position
  pub checkpoint_activation_radius : Float32

-- The delay is a float64 by its bits.
pub record ContextRule : Type 0 where
  pub context : Text
  pub respawn_delay_seconds : ℕ
  pub default_spawn_point : Text
  pub allowed_spawn_classes : List Text

pub record Definition : Type 0 where
  pub schema_version : ℕ
  pub revision : Text
  pub spawn_points : List SpawnPoint
  pub contexts : List ContextRule

abbrev pub class_checkpoint : Text
class_checkpoint = codes "checkpoint"

abbrev pub required_contexts : List Text
required_contexts = codes "pve" ∷ codes "pvp" ∷ codes "siege" ∷ []

unfoldable pub member : Text → List Text → Bool
member t [] = false
member t (u ∷ us) = t =? u || member t us

unfoldable pub valid_death_context : Text → Bool
valid_death_context c = c =? codes "pve" || c =? codes "pvp" || c =? codes "siege"

unfoldable pub valid_spawn_class : Text → Bool
valid_spawn_class c = c =? codes "safe" || c =? class_checkpoint || c =? codes "siege"

-- 0 < v of a float64 that is no NaN and no infinity.
unfoldable pub positive_finite64 : ℕ → Bool
positive_finite64 bits = ltb 0 bits && ltb bits 9218868437227405312

abbrev pub zero_float : Float32
zero_float = 0

-- The tests of one spawn point that do not concern the others.
unfoldable pub valid_point : SpawnPoint → Bool
unfolding valid_spawn_class
valid_point p =
    not (is_empty p.id)
    && valid_spawn_class p.spawn_class
    && is_finite p.position.x
    && is_finite p.position.y
    && is_finite p.position.z
    && is_finite p.checkpoint_activation_radius
    && not (less p.checkpoint_activation_radius zero_float)
    && (if p.spawn_class =? class_checkpoint
        then less zero_float p.checkpoint_activation_radius
        else (at_most p.checkpoint_activation_radius zero_float
            && at_most zero_float p.checkpoint_activation_radius))

-- The points by id, and the number of points of each class.
pub record PointTable : Type 0 where
  pub points : Map Text SpawnPoint
  pub class_counts : Map Text ℕ

unfoldable pub count_class : Text → Map Text ℕ → Map Text ℕ
count_class c counts = insert c (get_or 0 (lookup c counts) + 1) counts

unfoldable pub validate_points : List SpawnPoint → PointTable → Option PointTable
unfolding valid_point count_class
validate_points [] t = some t
validate_points (p ∷ ps) t =
    let rest = validate_points ps (record {
      points = insert p.id p t.points;
      class_counts = count_class p.spawn_class t.class_counts;
    }) in
    if not (valid_point p) || is_some (lookup p.id t.points) then none else rest

unfoldable pub validate_classes : Map Text ℕ → List Text → List Text → Option (List Text)
unfolding member valid_spawn_class
validate_classes counts [] allowed = some allowed
validate_classes counts (c ∷ cs) allowed =
    let rest = validate_classes counts cs (c ∷ allowed) in
    if not (valid_spawn_class c) || member c allowed || get_or 0 (lookup c counts) == 0
    then none
    else rest

unfoldable pub default_allowed : Option SpawnPoint → List Text → Bool
unfolding member
default_allowed none allowed = false
default_allowed (some p) allowed = member p.spawn_class allowed

-- The tests of one context rule.
unfoldable pub valid_rule : PointTable → List Text → ContextRule → Bool
unfolding validate_classes member valid_death_context positive_finite64 default_allowed
valid_rule t seen r =
    valid_death_context r.context
    && positive_finite64 r.respawn_delay_seconds
    && not (is_empty r.default_spawn_point)
    && not (is_empty r.allowed_spawn_classes)
    && not (member r.context seen)
    && elim (validate_classes t.class_counts r.allowed_spawn_classes []) [
      | none ↦ false
      | some allowed ↦ default_allowed (lookup r.default_spawn_point t.points) allowed
    ]

unfoldable pub validate_rules : PointTable → List ContextRule → List Text → Option (List Text)
unfolding valid_rule
validate_rules t [] seen = some seen
validate_rules t (r ∷ rs) seen =
    let rest = validate_rules t rs (r.context ∷ seen) in if valid_rule t seen r then rest else none

unfoldable pub all_seen : List Text → List Text → Bool
unfolding member
all_seen [] seen = true
all_seen (c ∷ cs) seen = member c seen && all_seen cs seen

unfoldable pub validate_contexts : Definition → PointTable → Option Error
unfolding validate_rules all_seen
validate_contexts d t =
    if not (length d.contexts == length required_contexts)
    then some invalid_definition
    else elim (validate_rules t d.contexts []) [
      | none ↦ some invalid_definition
      | some seen ↦ if all_seen required_contexts seen then none else some invalid_definition
    ]

unfoldable pub validate : Definition → Option Error
unfolding validate_points validate_contexts
validate d =
    if not (d.schema_version == 2)
    then some unsupported_schema
    else if is_empty d.revision || is_empty d.spawn_points
    then some invalid_definition
    else elim (validate_points d.spawn_points (record { points = []; class_counts = [] })) [
      | none ↦ some invalid_definition
      | some t ↦ validate_contexts d t
    ]
