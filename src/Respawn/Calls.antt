-- ===== src/Respawn/Calls.antt =====
-- Sequences of calls on the respawn service, and what they keep.
use astrahold_server.Common.{
  Map, insert, delete, insert-Entries, delete-Entries, insert-Distinct, delete-Distinct, ◌∙◌, ℕ,
  ◌-◌, ◌≡◌, refl, inl, inr, Bool, List, [], ◌∷◌, ltb, ◌==◌, Text, text_key, nat_key, arith,
  Bool-cases, Option-cases, sym, subst, lookup, max_u64,
}
use astrahold_server.Scene.{Position}
use astrahold_server.Respawn.{SpawnPoint}
use astrahold_server.Respawn.Service.{
  Service, Scheduled, acquire_at, acquire_checkpoint, clear_checkpoint, selected_point, schedule,
  scheduled_at, cancel, remove,
}
use astrahold_server.Respawn.Restore.{
  validate_scheduled_restore, restore_scheduled, restore_checkpoint,
}
use astrahold_server.Respawn.Policy.{IsTable, IsValid}

pub data Call : Type 0 where
  acquire_call : ℕ → Position → Text → Call
  schedule_call : ℕ → ℕ → Text → Call
  clear_call cancel_call remove_call : ℕ → Call
  restore_scheduled_call : Scheduled → Call
  restore_checkpoint_call : ℕ → Text → Call

unfoldable pub step : (Position → SpawnPoint → Bool) → Service → Call → Service
step in_range s (acquire_call entity position id) =
    (acquire_checkpoint in_range s entity position id).0
step in_range s (schedule_call entity defeated context) = (schedule s entity defeated context).0
step in_range s (clear_call entity) = clear_checkpoint s entity
step in_range s (cancel_call entity) = cancel s entity
step in_range s (remove_call entity) = remove s entity
step in_range s (restore_scheduled_call d) = (restore_scheduled s d).0
step in_range s (restore_checkpoint_call entity id) = (restore_checkpoint s entity id).0

unfoldable pub run : (Position → SpawnPoint → Bool) → Service → List Call → Service
run in_range s [] = s
run in_range s (c ∷ cs) = run in_range (step in_range s c) cs

-- The policy of the service is the same.
abbrev pub Keeps : Service → Service → Type 0
Keeps s t = (t.points ≡ s.points) × (t.rules ≡ s.rules)

acquire_at-Keeps :
    (in_range : Position → SpawnPoint → Bool) (s : Service) (entity : ℕ) (position : Position)
    (p : SpawnPoint) (id : Text)
    → Keeps s (acquire_at in_range s entity position p id).0
unfolding acquire_at
acquire_at-Keeps in_range s entity position p id = ground arith

acquire_checkpoint-Keeps :
    (in_range : Position → SpawnPoint → Bool) (s : Service) (entity : ℕ) (position : Position)
    (id : Text)
    → Keeps s (acquire_checkpoint in_range s entity position id).0
unfolding acquire_checkpoint
acquire_checkpoint-Keeps in_range s entity position id = elim (Bool-cases (entity == 0)) [
  | inl zero_id ↦ rw (zero_id, acquire_checkpoint) (refl, refl)
  | inr entity_id ↦ elim (Option-cases (lookup id s.points)) [
    | inl missing ↦ rw (entity_id, acquire_checkpoint, missing) (refl, refl)
    | inr (p, found) ↦
        rw (entity_id, acquire_checkpoint, found) (acquire_at-Keeps in_range s entity position p id)
  ]
]

schedule-Keeps :
    (s : Service) (entity defeated : ℕ) (context : Text)
    → Keeps s (schedule s entity defeated context).0
unfolding schedule
schedule-Keeps s entity defeated context = elim (Bool-cases (entity == 0)) [
  | inl zero_id ↦ rw (zero_id, schedule) (refl, refl)
  | inr entity_id ↦ elim (Option-cases (lookup context s.rules)) [
    | inl missing ↦ rw (entity_id, schedule, missing) (refl, refl)
    | inr (r, found) ↦ elim (Bool-cases (ltb (max_u64 - defeated) r.delay_ticks)) [
      | inl over ↦ rw (entity_id, schedule, found, over) (refl, refl)
      | inr fits ↦ rw (entity_id, schedule, found, fits) (refl, refl)
    ]
  ]
]

restore_scheduled-Keeps : (s : Service) (d : Scheduled) → Keeps s (restore_scheduled s d).0
unfolding restore_scheduled
restore_scheduled-Keeps s d = ground arith

restore_checkpoint-Keeps :
    (s : Service) (entity : ℕ) (id : Text) → Keeps s (restore_checkpoint s entity id).0
unfolding restore_checkpoint
restore_checkpoint-Keeps s entity id = ground arith

step-Keeps :
    (in_range : Position → SpawnPoint → Bool) (s : Service) (c : Call) → Keeps s (step in_range s c)
unfolding step clear_checkpoint cancel remove
step-Keeps in_range s (acquire_call entity position id) =
    acquire_checkpoint-Keeps in_range s entity position id
step-Keeps in_range s (schedule_call entity defeated context) =
    schedule-Keeps s entity defeated context
step-Keeps in_range s (clear_call entity) = (refl, refl)
step-Keeps in_range s (cancel_call entity) = (refl, refl)
step-Keeps in_range s (remove_call entity) = (refl, refl)
step-Keeps in_range s (restore_scheduled_call d) = restore_scheduled-Keeps s d
step-Keeps in_range s (restore_checkpoint_call entity id) = restore_checkpoint-Keeps s entity id

insert-IsTable :
    (d : Scheduled) (pending : Map ℕ Scheduled)
    → IsTable pending
    → IsTable (insert d.entity_id d pending)
insert-IsTable d pending t = record {
  keyed = insert-Entries (λ entity x. x.entity_id ≡ entity) d.entity_id d pending refl t.keyed;
  distinct = insert-Distinct d.entity_id d pending t.distinct;
}

delete-IsTable :
    (entity : ℕ) (pending : Map ℕ Scheduled) → IsTable pending → IsTable (delete entity pending)
delete-IsTable entity pending t = record {
  keyed = delete-Entries (λ key x. x.entity_id ≡ key) entity pending t.keyed;
  distinct = delete-Distinct entity pending t.distinct;
}

acquire_checkpoint-pending :
    (in_range : Position → SpawnPoint → Bool) (s : Service) (entity : ℕ) (position : Position)
    (id : Text)
    → (acquire_checkpoint in_range s entity position id).0.pending ≡ s.pending
unfolding acquire_checkpoint acquire_at
acquire_checkpoint-pending in_range s entity position id = ground arith

schedule-IsTable :
    (s : Service) (entity defeated : ℕ) (context : Text)
    → IsTable s.pending
    → IsTable (schedule s entity defeated context).0.pending
unfolding schedule
schedule-IsTable s entity defeated context t = elim (Bool-cases (entity == 0)) [
  | inl zero_id ↦ rw (zero_id, schedule) t
  | inr entity_id ↦ elim (Option-cases (lookup context s.rules)) [
    | inl missing ↦ rw (entity_id, schedule, missing) t
    | inr (r, found) ↦ elim (Bool-cases (ltb (max_u64 - defeated) r.delay_ticks)) [
      | inl over ↦ rw (entity_id, schedule, found, over) t
      | inr fits ↦
          rw (entity_id, schedule, found, fits)
            (insert-IsTable (scheduled_at entity defeated context r (selected_point s entity r))
              s.pending t)
    ]
  ]
]

restore_scheduled-IsTable :
    (s : Service) (d : Scheduled) → IsTable s.pending → IsTable (restore_scheduled s d).0.pending
unfolding restore_scheduled
restore_scheduled-IsTable s d t = elim (Bool-cases (validate_scheduled_restore s d)) [
  | inl good ↦ rw (good, restore_scheduled) (insert-IsTable d s.pending t)
  | inr bad ↦ rw (bad, restore_scheduled) t
]

restore_checkpoint-pending :
    (s : Service) (entity : ℕ) (id : Text) → (restore_checkpoint s entity id).0.pending ≡ s.pending
unfolding restore_checkpoint
restore_checkpoint-pending s entity id = ground arith

step-IsTable :
    (in_range : Position → SpawnPoint → Bool) (s : Service) (c : Call)
    → IsTable s.pending
    → IsTable (step in_range s c).pending
unfolding step clear_checkpoint cancel remove
step-IsTable in_range s (acquire_call entity position id) t =
    subst IsTable (sym (acquire_checkpoint-pending in_range s entity position id)) t
step-IsTable in_range s (schedule_call entity defeated context) t =
    schedule-IsTable s entity defeated context t
step-IsTable in_range s (clear_call entity) t = t
step-IsTable in_range s (cancel_call entity) t = delete-IsTable entity s.pending t
step-IsTable in_range s (remove_call entity) t = delete-IsTable entity s.pending t
step-IsTable in_range s (restore_scheduled_call d) t = restore_scheduled-IsTable s d t
step-IsTable in_range s (restore_checkpoint_call entity id) t =
    subst IsTable (sym (restore_checkpoint-pending s entity id)) t

step-IsValid :
    (in_range : Position → SpawnPoint → Bool) (s : Service) (c : Call)
    → IsValid s
    → IsValid (step in_range s c)
step-IsValid in_range s c v =
    let k = step-Keeps in_range s c in
    record {
      named = rw (k.0) v.named;
      placed = rw (k.0) v.placed;
      bound = rw (k.0, k.1) v.bound;
      waiting = step-IsTable in_range s c v.waiting;
    }

pub run-IsValid :
    (in_range : Position → SpawnPoint → Bool) (s : Service) (cs : List Call)
    → IsValid s
    → IsValid (run in_range s cs)
unfolding run
run-IsValid in_range s [] v = v
run-IsValid in_range s (c ∷ cs) v =
    run-IsValid in_range (step in_range s c) cs (step-IsValid in_range s c v)

pub run-Keeps :
    (in_range : Position → SpawnPoint → Bool) (s : Service) (cs : List Call)
    → Keeps s (run in_range s cs)
unfolding run
run-Keeps in_range s [] = (refl, refl)
run-Keeps in_range s (c ∷ cs) =
    let k = step-Keeps in_range s c in
    let later = run-Keeps in_range (step in_range s c) cs in (later.0 ∙ k.0, later.1 ∙ k.1)
