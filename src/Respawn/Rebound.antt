-- ===== src/Respawn/Rebound.antt =====
-- A respawn that was scheduled, saved and restored by a server that runs the same policy
-- (internal/respawnpolicy/policy.go and restore.go).
use astrahold_server.Common.{
  ℕ, ◌-◌, ◌≡◌, ◌≢◌, refl, ◌⊎◌, inl, inr, Bool, true, false, Option, some, List, ltb, ◌==◌, ℤ, Text,
  text_key, nat_key, arith, Bool-cases, Option-cases, sym, subst, ◌∙◌, lookup, insert, max_u64,
  lookup-Entries,
}
use astrahold_server.Scene.{Position, is_finite, Float32}
use astrahold_server.DeathOutcome.{same_position, same_float}
use astrahold_server.Respawn.{
  Error, invalid_entity, unknown_death_context, schedule_overflow, SpawnPoint, Definition, member,
}
use astrahold_server.Respawn.Service.{
  Service, Scheduled, RuntimeRule, new_service, schedule, scheduled_at, selected_point,
}
use astrahold_server.Respawn.Restore.{still_bound, validate_scheduled_restore, restore_scheduled}
use astrahold_server.Respawn.Policy.{IsValid, IsBound, IsPlaced, new_service-IsValid}
use astrahold_server.Respawn.Calls.{Call, run, run-IsValid, run-Keeps}
use astrahold_server.Respawn.Bound.{selected_point-IsAllowed}

same_float_placed : (a : Float32) → is_finite a ≡ true → same_float a a ≡ true
same_float_placed a h = ground (arith, h)

same_position_placed : (p : SpawnPoint) → IsPlaced p → same_position p.position p.position ≡ true
same_position_placed p h = ground (
  arith,
  same_float_placed p.position.x h.0,
  same_float_placed p.position.y h.1,
  same_float_placed p.position.z h.2,
)

still_bound_placed :
    (d : Scheduled) (r : RuntimeRule) (p : SpawnPoint)
    → member p.spawn_class r.allowed ≡ true
    → d.spawn_class ≡ p.spawn_class
    → d.position ≡ p.position
    → IsPlaced p
    → still_bound d r (some p) ≡ true
unfolding still_bound
still_bound_placed d r p allowed class place placed =
    rw (class, place, still_bound, allowed, same_position_placed p placed) ground arith

-- The rule by which Schedule bound what it returned.
record IsScheduledBy (s : Service) (entity defeated : ℕ) (context : Text) (x : Scheduled)
    : Type 0 where
  rule : RuntimeRule
  found : lookup context s.rules ≡ some rule
  bound : x ≡ scheduled_at entity defeated context rule (selected_point s entity rule)

never_scheduled :
    (r : Error ⊎ Scheduled) (e : Error) (x : Scheduled) {A : Type 0} → r ≡ inl e → r ≡ inr x → A
never_scheduled r e x h k = ground (arith, h, k)

same_scheduled : (a b : Scheduled) (r : Error ⊎ Scheduled) → r ≡ inr a → r ≡ inr b → a ≡ b
same_scheduled a b r h k = ground (arith, h, k)

schedule-IsScheduledBy :
    (s : Service) (entity defeated : ℕ) (context : Text) (x : Scheduled)
    → (schedule s entity defeated context).1 ≡ inr x
    → IsScheduledBy s entity defeated context x
unfolding schedule
schedule-IsScheduledBy s entity defeated context x h = elim (Bool-cases (entity == 0)) [
  | inl zero_id ↦ never_scheduled _ invalid_entity x refl (rw (zero_id, schedule) at h)
  | inr entity_id ↦ elim (Option-cases (lookup context s.rules)) [
    | inl missing ↦
        never_scheduled _ unknown_death_context x refl (rw (entity_id, schedule, missing) at h)
    | inr (r, found) ↦ elim (Bool-cases (ltb (max_u64 - defeated) r.delay_ticks)) [
      | inl over ↦
          never_scheduled _ schedule_overflow x refl (rw (entity_id, schedule, found, over) at h)
      | inr fits ↦ record {
        rule = r;
        found = found;
        bound =
            same_scheduled x (scheduled_at entity defeated context r (selected_point s entity r)) _
              (rw (entity_id, schedule, found, fits) at h) refl;
      }
    ]
  ]
]

-- The respawn under a new entity and in the ticks of the new process.
abbrev pub reborn : Scheduled → ℕ → ℕ → Scheduled
reborn x other tick = record x { entity_id = other; due_tick = tick }

validate_scheduled_restore-scheduled_at :
    (s t : Service) (entity defeated : ℕ) (context : Text) (r : RuntimeRule) (other tick : ℕ)
    → IsValid s
    → t.points ≡ s.points
    → t.rules ≡ s.rules
    → lookup context s.rules ≡ some r
    → other ≢ 0
    → let x = scheduled_at entity defeated context r (selected_point s entity r) in
      validate_scheduled_restore t (reborn x other tick) ≡ true
unfolding validate_scheduled_restore
validate_scheduled_restore-scheduled_at s t entity defeated context r other tick v points rules
      found named =
    let p = selected_point s entity r in
    let a =
      selected_point-IsAllowed s entity r v
        (lookup-Entries (λ key q. IsBound s.points q) context s.rules r v.bound found) in
    let placed = lookup-Entries (λ _ q. IsPlaced q) p.id s.points p v.placed a.registered in
    let entity_id : (other == 0) ≡ false = ground (arith, named) in
    let x = scheduled_at entity defeated context r p in
    rw (entity_id, validate_scheduled_restore, rules, found, points, a.registered)
      (still_bound_placed (reborn x other tick) r p a.allowed refl refl placed)

-- What Schedule returned, by a server whose policy NewService accepted, is restored by a server
-- with the same policy, whatever was called on either, for a new entity and a new tick.
pub restore_scheduled-schedule :
    (delay_of : ℕ → ℕ → Option ℕ) (in_range : Position → SpawnPoint → Bool) (d : Definition)
    (hz : ℤ) (first : Service) (old new : List Call) (entity defeated : ℕ) (context : Text)
    (x : Scheduled) (other tick : ℕ)
    → new_service delay_of d hz ≡ inr first
    → (schedule (run in_range first old) entity defeated context).1 ≡ inr x
    → other ≢ 0
    → let t = run in_range first new in
      restore_scheduled t (reborn x other tick)
      ≡ (record t { pending = insert other (reborn x other tick) t.pending }, true)
unfolding restore_scheduled
restore_scheduled-schedule delay_of in_range d hz first old new entity defeated context x other tick
      accepted said named =
    let s = run in_range first old in
    let t = run in_range first new in
    let b = schedule-IsScheduledBy s entity defeated context x said in
    let k = run-Keeps in_range first old in
    let m = run-Keeps in_range first new in
    let valid = run-IsValid in_range first old (new_service-IsValid delay_of d hz first accepted) in
    let ok : validate_scheduled_restore t (reborn x other tick) ≡ true =
      subst (λ y. validate_scheduled_restore t (reborn y other tick) ≡ true) (sym b.bound)
        (validate_scheduled_restore-scheduled_at s t entity defeated context b.rule other tick valid
          (m.0 ∙ sym k.0) (m.1 ∙ sym k.1) b.found named) in
    rw (ok, restore_scheduled) refl
