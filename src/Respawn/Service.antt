-- ===== src/Respawn/Service.antt =====
-- The service that binds a death to its respawn (internal/respawnpolicy/policy.go).
use astrahold_server.Common.{
  ℕ, ◌-◌, ◌⊎◌, inl, inr, Bool, not, ◌||◌, Option, none, some, List, [], ◌∷◌, ltb, leb, ◌==◌, ◌=?◌,
  if◌then◌else◌, ℤ, pos, negsuc, Text, text_key, nat_key, Map, lookup, insert, delete, get_or,
  max_u64, add_u64,
}
use astrahold_server.Scene.{Position, less}
use astrahold_server.DeathOutcome.{no_position}
use astrahold_server.Respawn.{
  Error, invalid_tick_rate, invalid_definition, invalid_entity, unknown_spawn_point,
  unknown_death_context, checkpoint_not_acquirable, checkpoint_wrong_layer, checkpoint_out_of_range,
  schedule_overflow, SpawnPoint, ContextRule, Definition, class_checkpoint, member, validate,
  zero_float,
}

pub record Scheduled : Type 0 where
  pub entity_id : ℕ
  pub context : Text
  pub spawn_point_id : Text
  pub spawn_class : Text
  pub position : Position
  pub due_tick : ℕ

pub record RuntimeRule : Type 0 where
  pub delay_ticks : ℕ
  pub default_point : Text
  pub allowed : List Text

pub record Service : Type 0 where
  pub revision : Text
  pub points : Map Text SpawnPoint
  pub rules : Map Text RuntimeRule
  pub checkpoints : Map ℕ Text
  pub pending : Map ℕ Scheduled

unfoldable pub point_table : List SpawnPoint → Map Text SpawnPoint → Map Text SpawnPoint
point_table [] points = points
point_table (p ∷ ps) points = point_table ps (insert p.id p points)

unfoldable pub class_set : List Text → List Text → List Text
class_set [] allowed = allowed
class_set (c ∷ cs) allowed = class_set cs (c ∷ allowed)

unfoldable pub runtime_rule : ContextRule → ℕ → RuntimeRule
unfolding class_set
runtime_rule r delay = record {
  delay_ticks = delay;
  default_point = r.default_spawn_point;
  allowed = class_set r.allowed_spawn_classes [];
}

-- The loop of NewService over the context rules.
unfoldable pub rule_table :
    (ℕ → ℕ → Option ℕ) → ℕ → List ContextRule → Map Text RuntimeRule → Option (Map Text RuntimeRule)
unfolding runtime_rule
rule_table delay_of hz [] rules = some rules
rule_table delay_of hz (r ∷ rs) rules = elim (delay_of r.respawn_delay_seconds hz) [
  | none ↦ none
  | some delay ↦ rule_table delay_of hz rs (insert r.context (runtime_rule r delay) rules)
]

unfoldable pub build_service : (ℕ → ℕ → Option ℕ) → ℕ → Definition → Error ⊎ Service
unfolding point_table rule_table
build_service delay_of hz d = elim (rule_table delay_of hz d.contexts []) [
  | none ↦ inl invalid_definition
  | some rules ↦ inr (record {
    revision = d.revision;
    points = point_table d.spawn_points [];
    rules = rules;
    checkpoints = [];
    pending = [];
  })
]

unfoldable pub new_service : (ℕ → ℕ → Option ℕ) → Definition → ℤ → Error ⊎ Service
unfolding build_service
new_service delay_of d hz = elim (validate d) [
  | some e ↦ inl e
  | none ↦ elim hz [
    | negsuc _ ↦ inl invalid_tick_rate
    | pos n ↦ if n == 0 then inl invalid_tick_rate else build_service delay_of n d
  ]
]

unfoldable pub acquire_at :
    (Position → SpawnPoint → Bool)
    → Service
    → ℕ
    → Position
    → SpawnPoint
    → Text
    → Service × Option Error
acquire_at in_range s entity position p id =
    if not (p.spawn_class =? class_checkpoint)
      || not (less zero_float p.checkpoint_activation_radius)
    then (s, some checkpoint_not_acquirable)
    else if not (position.layer == p.position.layer)
    then (s, some checkpoint_wrong_layer)
    else if in_range position p
    then (record s { checkpoints = insert entity id s.checkpoints }, none)
    else (s, some checkpoint_out_of_range)

unfoldable pub acquire_checkpoint :
    (Position → SpawnPoint → Bool) → Service → ℕ → Position → Text → Service × Option Error
unfolding acquire_at
acquire_checkpoint in_range s entity position id =
    if entity == 0 then (s, some invalid_entity) else elim (lookup id s.points) [
      | none ↦ (s, some unknown_spawn_point)
      | some p ↦ acquire_at in_range s entity position p id
    ]

unfoldable pub clear_checkpoint : Service → ℕ → Service
clear_checkpoint s entity = record s { checkpoints = delete entity s.checkpoints }

abbrev pub no_point : SpawnPoint
no_point = record {
  id = [];
  spawn_class = [];
  position = no_position;
  checkpoint_activation_radius = 0;
}

abbrev pub default_of : Service → RuntimeRule → SpawnPoint
default_of s r = get_or no_point (lookup r.default_point s.points)

unfoldable pub allowed_or : Service → RuntimeRule → Option SpawnPoint → SpawnPoint
unfolding member
allowed_or s r none = default_of s r
allowed_or s r (some p) = if member p.spawn_class r.allowed then p else default_of s r

unfoldable pub selected_point : Service → ℕ → RuntimeRule → SpawnPoint
unfolding allowed_or
selected_point s entity r = elim (lookup entity s.checkpoints) [
  | none ↦ default_of s r
  | some checkpoint ↦ allowed_or s r (lookup checkpoint s.points)
]

abbrev pub scheduled_at : ℕ → ℕ → Text → RuntimeRule → SpawnPoint → Scheduled
scheduled_at entity defeated context r p = record {
  entity_id = entity;
  context = context;
  spawn_point_id = p.id;
  spawn_class = p.spawn_class;
  position = p.position;
  due_tick = add_u64 defeated r.delay_ticks;
}

unfoldable pub schedule : Service → ℕ → ℕ → Text → Service × (Error ⊎ Scheduled)
unfolding selected_point
schedule s entity defeated context =
    if entity == 0 then (s, inl invalid_entity) else elim (lookup context s.rules) [
      | none ↦ (s, inl unknown_death_context)
      | some r ↦
          if ltb (max_u64 - defeated) r.delay_ticks
          then (s, inl schedule_overflow)
          else let d = scheduled_at entity defeated context r (selected_point s entity r) in
            (record s { pending = insert entity d s.pending }, inr d)
    ]

unfoldable pub cancel : Service → ℕ → Service
cancel s entity = record s { pending = delete entity s.pending }

unfoldable pub remove : Service → ℕ → Service
remove s entity = record s {
  pending = delete entity s.pending;
  checkpoints = delete entity s.checkpoints;
}

-- The order of the respawns that are due: by tick, then by entity.
unfoldable pub before : Scheduled → Scheduled → Bool
before a b =
    if a.due_tick == b.due_tick then ltb a.entity_id b.entity_id else ltb a.due_tick b.due_tick

-- sort.Slice by `before`, as an insertion sort.
unfoldable pub insert_due : Scheduled → List Scheduled → List Scheduled
unfolding before
insert_due a [] = a ∷ []
insert_due a (b ∷ bs) = let later = insert_due a bs in if before b a then b ∷ later else a ∷ b ∷ bs

unfoldable pub due_of : ℕ → Map ℕ Scheduled → List Scheduled
unfolding insert_due
due_of tick [] = []
due_of tick ((_, d) ∷ pending) =
    let rest = due_of tick pending in if leb d.due_tick tick then insert_due d rest else rest

unfoldable pub due : Service → ℕ → List Scheduled
unfolding due_of
due s tick = due_of tick s.pending
