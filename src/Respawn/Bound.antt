-- ===== src/Respawn/Bound.antt =====
-- Where a defeated entity respawns, whatever happened to the service before.
use astrahold_server.Common.{
  ℕ, ◌+◌, ◌-◌, ◌≤◌, ◌≡◌, ◌≢◌, refl, ◌⊎◌, inl, inr, Bool, true, false, Option, some, List, ltb, ◌==◌,
  ℤ, Text, text_key, nat_key, arith, Bool-cases, Option-cases, sym, subst, lookup, max_u64,
  lookup-Entries, lookup-insert,
}
use astrahold_server.Scene.{Position}
use astrahold_server.Respawn.{Error, SpawnPoint, Definition, member}
use astrahold_server.Respawn.Service.{
  Service, Scheduled, RuntimeRule, new_service, default_of, allowed_or, selected_point, schedule,
  scheduled_at,
}
use astrahold_server.Respawn.Policy.{IsValid, IsBound, new_service-IsValid}
use astrahold_server.Respawn.Calls.{Call, run, run-IsValid}

-- A point of the policy, of a class that the rule allows.
pub record IsAllowed (s : Service) (r : RuntimeRule) (p : SpawnPoint) : Type 0 where
  pub registered : lookup p.id s.points ≡ some p
  pub allowed : member p.spawn_class r.allowed ≡ true

default_of-IsAllowed :
    (s : Service) (r : RuntimeRule)
    → IsValid s
    → IsBound s.points r
    → IsAllowed s r (default_of s r)
default_of-IsAllowed s r v b =
    let named = lookup-Entries (λ id p. p.id ≡ id) r.default_point s.points b.0 v.named b.1 in
    rw (b.1) (record {
      registered = subst (λ key. lookup key s.points ≡ some b.0) (sym named) b.1;
      allowed = b.2;
    })

allowed_or-IsAllowed :
    (s : Service) (r : RuntimeRule) (id : Text)
    → IsValid s
    → IsBound s.points r
    → IsAllowed s r (allowed_or s r (lookup id s.points))
unfolding allowed_or
allowed_or-IsAllowed s r id v b = elim (Option-cases (lookup id s.points)) [
  | inl missing ↦ rw (missing, allowed_or) (default_of-IsAllowed s r v b)
  | inr (p, found) ↦ elim (Bool-cases (member p.spawn_class r.allowed)) [
    | inr refused ↦ rw (found, allowed_or, refused) (default_of-IsAllowed s r v b)
    | inl allowed ↦
        let named = lookup-Entries (λ key q. q.id ≡ key) id s.points p v.named found in
        rw (found, allowed_or, allowed)
          (record {
            registered = subst (λ key. lookup key s.points ≡ some p) (sym named) found;
            allowed = allowed;
          })
  ]
]

pub selected_point-IsAllowed :
    (s : Service) (entity : ℕ) (r : RuntimeRule)
    → IsValid s
    → IsBound s.points r
    → IsAllowed s r (selected_point s entity r)
unfolding selected_point
selected_point-IsAllowed s entity r v b = elim (Option-cases (lookup entity s.checkpoints)) [
  | inl missing ↦ rw (missing, selected_point) (default_of-IsAllowed s r v b)
  | inr (id, found) ↦ rw (found, selected_point) (allowed_or-IsAllowed s r id v b)
]

-- What Schedule answers.
pub record SchedulesAllowed (s : Service) (entity defeated : ℕ) (r : RuntimeRule)
    (result : Service × (Error ⊎ Scheduled)) : Type 0 where
  pub point : SpawnPoint
  pub choice : IsAllowed s r point
  pub scheduled : Scheduled
  pub said : result.1 ≡ inr scheduled
  pub waits : lookup entity result.0.pending ≡ some scheduled
  pub at_point :
      (scheduled.spawn_point_id ≡ point.id)
      × (scheduled.spawn_class ≡ point.spawn_class)
      × (scheduled.position ≡ point.position)
  pub later : scheduled.due_tick ≡ defeated + r.delay_ticks

schedule_allowed :
    (s : Service) (entity defeated : ℕ) (context : Text) (r : RuntimeRule)
    → IsValid s
    → entity ≢ 0
    → lookup context s.rules ≡ some r
    → defeated + r.delay_ticks ≤ max_u64
    → SchedulesAllowed s entity defeated r (schedule s entity defeated context)
unfolding schedule
schedule_allowed s entity defeated context r v e found fits =
    let p = selected_point s entity r in
    let d = scheduled_at entity defeated context r p in
    let entity_id : (entity == 0) ≡ false = ground (arith, e) in
    let room : ltb (max_u64 - defeated) r.delay_ticks ≡ false = ground (arith, fits) in
    rw (entity_id, schedule, found, room)
      (record {
        point = p;
        choice =
            selected_point-IsAllowed s entity r v
              (lookup-Entries (λ key q. IsBound s.points q) context s.rules r v.bound found);
        scheduled = d;
        said = refl;
        waits = ground (arith, lookup-insert entity entity d s.pending);
        at_point = (refl, refl, refl);
        later = ground (arith, fits);
      })

-- With a policy that NewService accepted, whatever was called since: a defeat in a context of the
-- policy, whose due tick does not overflow, is scheduled at the tick of the defeat and the rule's
-- delay, at a spawn point of the policy whose class the rule allows.
pub schedule-SchedulesAllowed :
    (delay_of : ℕ → ℕ → Option ℕ) (in_range : Position → SpawnPoint → Bool) (d : Definition)
    (hz : ℤ) (first : Service) (cs : List Call) (entity defeated : ℕ) (context : Text)
    (r : RuntimeRule)
    → new_service delay_of d hz ≡ inr first
    → entity ≢ 0
    → lookup context (run in_range first cs).rules ≡ some r
    → defeated + r.delay_ticks ≤ max_u64
    → let s = run in_range first cs in
      SchedulesAllowed s entity defeated r (schedule s entity defeated context)
schedule-SchedulesAllowed delay_of in_range d hz first cs entity defeated context r accepted e found
      fits =
    schedule_allowed (run in_range first cs) entity defeated context r
      (run-IsValid in_range first cs (new_service-IsValid delay_of d hz first accepted)) e found
      fits
