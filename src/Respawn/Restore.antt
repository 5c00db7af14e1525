-- ===== src/Respawn/Restore.antt =====
-- The respawns and checkpoints that a restarted server takes from its saved state
-- (internal/respawnpolicy/restore.go). true is success, false is ErrInvalidRestore.
use astrahold_server.Common.{
  ℕ, Bool, true, false, not, ◌&&◌, ◌||◌, Option, none, some, ◌==◌, ◌=?◌, if◌then◌else◌, Text,
  text_key, nat_key, is_empty, lookup, insert, delete,
}
use astrahold_server.Scene.{less}
use astrahold_server.DeathOutcome.{same_position}
use astrahold_server.Respawn.{SpawnPoint, class_checkpoint, member, zero_float}
use astrahold_server.Respawn.Service.{Service, Scheduled, RuntimeRule}

-- The tests of ValidateScheduledRestore behind the lookup of the point.
unfoldable pub still_bound : Scheduled → RuntimeRule → Option SpawnPoint → Bool
unfolding member
still_bound d r none = false
still_bound d r (some p) =
    member p.spawn_class r.allowed
    && (p.spawn_class =? d.spawn_class && same_position p.position d.position)

unfoldable pub validate_scheduled_restore : Service → Scheduled → Bool
unfolding still_bound
validate_scheduled_restore s d =
    if d.entity_id == 0 then false else elim (lookup d.context s.rules) [
      | none ↦ false
      | some r ↦ still_bound d r (lookup d.spawn_point_id s.points)
    ]

unfoldable pub restore_scheduled : Service → Scheduled → Service × Bool
unfolding validate_scheduled_restore
restore_scheduled s d =
    if validate_scheduled_restore s d
    then (record s { pending = insert d.entity_id d s.pending }, true)
    else (s, false)

unfoldable pub acquirable : Option SpawnPoint → Bool
acquirable none = false
acquirable (some p) =
    p.spawn_class =? class_checkpoint && less zero_float p.checkpoint_activation_radius

unfoldable pub validate_checkpoint_restore : Service → ℕ → Text → Bool
unfolding acquirable
validate_checkpoint_restore s entity id =
    if entity == 0 then false else is_empty id || acquirable (lookup id s.points)

unfoldable pub restore_checkpoint : Service → ℕ → Text → Service × Bool
unfolding validate_checkpoint_restore
restore_checkpoint s entity id =
    if not (validate_checkpoint_restore s entity id)
    then (s, false)
    else if is_empty id
    then (record s { checkpoints = delete entity s.checkpoints }, true)
    else (record s { checkpoints = insert entity id s.checkpoints }, true)
