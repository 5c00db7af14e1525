-- ===== src/Examples/Policies.antt =====
-- Runs of the respawn policy and the death penalty (internal/respawnpolicy/policy.go,
-- internal/deathpenalty/policy.go).
use astrahold_server.Common.{
  ℕ, ◌*◌, ◌≤◌, ◌<◌, ◌≡◌, ◌≢◌, refl, ◌↔◌, inr, Bool, true, Option, some, List, [], ◌∷◌, arith, Text,
  codes, pos, lookup, insert, delete, ℕ_discrete, Text-discrete, text_key, nat_key,
}
use astrahold_server.Scene.{Position}
use astrahold_server.DeathOutcome.{no_position}
use astrahold_server.Respawn
use astrahold_server.Respawn.{
  SpawnPoint, ContextRule, Definition, validate, validate_points, validate_contexts, validate_rules,
  valid_rule, valid_point, valid_spawn_class, valid_death_context, validate_classes,
  default_allowed, count_class, positive_finite64, member, all_seen,
}
use astrahold_server.Respawn.Service.{
  Service, Scheduled, RuntimeRule, new_service, build_service, rule_table, runtime_rule, class_set,
  point_table, schedule, due, acquire_checkpoint, acquire_at, selected_point, allowed_or,
}
use astrahold_server.Respawn.Calls.{Call, acquire_call, schedule_call, remove_call, run, step}
use astrahold_server.Respawn.Bound.{SchedulesAllowed, schedule-SchedulesAllowed}
use astrahold_server.Respawn.Restore.{restore_scheduled}
use astrahold_server.Respawn.Rebound.{reborn, restore_scheduled-schedule}
use astrahold_server.Respawn.Due.{IsSorted, IsIn, due-run}
use astrahold_server.Penalty
use astrahold_server.Penalty.Once.{
  Request, apply_call, remove_call, applies, times_applied, times_applied_once, last_applied,
}

abbrev camp : SpawnPoint
camp = record {
  id = codes "camp";
  spawn_class = codes "safe";
  position = no_position;
  checkpoint_activation_radius = 0;
}

-- A checkpoint with a radius of 2.
abbrev shrine : SpawnPoint
shrine = record camp {
  id = codes "shrine";
  spawn_class = codes "checkpoint";
  checkpoint_activation_radius = 1073741824;
}

-- A delay of 3 seconds, whose float64 has these bits.
abbrev rule_for : Text → ContextRule
rule_for context = record {
  context = context;
  respawn_delay_seconds = 4613937818241073152;
  default_spawn_point = codes "camp";
  allowed_spawn_classes = codes "safe" ∷ codes "checkpoint" ∷ [];
}

abbrev policy : Definition
policy = record {
  schema_version = 2;
  revision = codes "r1";
  spawn_points = camp ∷ shrine ∷ [];
  contexts = rule_for (codes "pve") ∷ rule_for (codes "pvp") ∷ rule_for (codes "siege") ∷ [];
}

abbrev delay_of : ℕ → ℕ → Option ℕ
delay_of seconds hz = some (3 * hz)

abbrev in_range : Position → SpawnPoint → Bool
in_range position point = true

abbrev runtime : RuntimeRule
runtime = record {
  delay_ticks = 60;
  default_point = codes "camp";
  allowed = codes "checkpoint" ∷ codes "safe" ∷ [];
}

abbrev service : Service
service = record {
  revision = codes "r1";
  points = (codes "camp", camp) ∷ (codes "shrine", shrine) ∷ [];
  rules = (codes "pve", runtime) ∷ (codes "pvp", runtime) ∷ (codes "siege", runtime) ∷ [];
  checkpoints = [];
  pending = [];
}

new_service-policy : new_service delay_of policy (pos 20) ≡ inr service
unfolding new_service build_service rule_table runtime_rule class_set point_table validate
    validate_points validate_contexts validate_rules valid_rule valid_point valid_spawn_class
    valid_death_context validate_classes default_allowed count_class positive_finite64 member
    all_seen lookup insert Text-discrete ℕ_discrete
new_service-policy = refl

abbrev visits : List Call
visits = acquire_call 7 no_position (codes "shrine") ∷ remove_call 9 ∷ []

rule_of-pvp : lookup (codes "pvp") (run in_range service visits).rules ≡ some runtime
unfolding run step acquire_checkpoint acquire_at Respawn.Service.remove lookup insert Text-discrete
    ℕ_discrete
rule_of-pvp = refl

abbrev player : ℕ
player = 7

abbrev nobody : ℕ
nobody = 0

player-named : player ≢ nobody
player-named = ground arith

schedule-SchedulesAllowed_example :
    SchedulesAllowed
      (run in_range service visits)
      7
      100
      runtime
      (schedule (run in_range service visits) 7 100 (codes "pvp"))
schedule-SchedulesAllowed_example =
    schedule-SchedulesAllowed delay_of in_range policy (pos 20) service visits 7 100 (codes "pvp")
      runtime new_service-policy player-named rule_of-pvp (omega arith)

-- Two defeats, one of them in the range of the shrine.
abbrev defeats : List Call
defeats =
    acquire_call 7 no_position (codes "shrine")
    ∷ schedule_call 7 100 (codes "pvp")
    ∷ schedule_call 9 90 (codes "pve")
    ∷ []

due-run_example :
    let s = run in_range service defeats in
    IsSorted (due s 155)
    × ((x : Scheduled)
        → IsIn x (due s 155) ↔ ((lookup x.entity_id s.pending ≡ some x) × (x.due_tick ≤ 155)))
due-run_example = due-run delay_of in_range policy (pos 20) service defeats 155 new_service-policy

abbrev scheduled_at_shrine : Scheduled
scheduled_at_shrine = record {
  entity_id = 7;
  context = codes "pvp";
  spawn_point_id = codes "shrine";
  spawn_class = codes "checkpoint";
  position = no_position;
  due_tick = 160;
}

schedule-run :
    (schedule (run in_range service visits) 7 100 (codes "pvp")).1 ≡ inr scheduled_at_shrine
unfolding run step acquire_checkpoint acquire_at Respawn.Service.remove schedule selected_point
    allowed_or member lookup insert delete Text-discrete ℕ_discrete
schedule-run = refl

-- A new process, in which the respawn waits for entity 3 until tick 20.
restore_scheduled-schedule_example :
    let x = reborn scheduled_at_shrine 3 20 in
    restore_scheduled (run in_range service []) x ≡ (
      record (run in_range service []) { pending = insert 3 x (run in_range service []).pending },
      true,
    )
restore_scheduled-schedule_example =
    restore_scheduled-schedule delay_of in_range policy (pos 20) service visits [] 7 100
      (codes "pvp") scheduled_at_shrine 3 20 new_service-policy schedule-run (ground arith)

abbrev penalties : Penalty.Service
penalties = record {
  revision = codes "p1";
  checkpoint_forfeit = codes "pvp" ∷ [];
  applied_revision = (7, 2) ∷ [];
}

abbrev defeat_of : ℕ → Request
defeat_of revision = record { entity = 7; revision = revision; context = codes "pvp" }

known_context : Penalty.valid_death_context (codes "pvp") ≡ true
unfolding Penalty.valid_death_context Text-discrete ℕ_discrete
known_context = refl

newer : last_applied penalties 7 < 3
unfolding lookup ℕ_discrete
newer = omega arith

times_applied_once_example :
    (times_applied 7 3 penalties
        (apply_call (defeat_of 3) ∷ remove_call 8 ∷ apply_call (defeat_of 3) ∷ [])
      ≡ 1)
    × (applies
          (Penalty.apply
            (Penalty.remove (Penalty.apply penalties 7 3 (codes "pvp")).0 7)
            7
            3
            (codes "pvp")).1
        ≡ true)
times_applied_once_example =
    times_applied_once penalties (defeat_of 3) (remove_call 8 ∷ apply_call (defeat_of 3) ∷ [])
      player-named known_context newer (ground arith, tt)
