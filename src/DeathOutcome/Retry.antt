-- ===== src/DeathOutcome/Retry.antt =====
-- Enqueue of an event that was enqueued before.
use astrahold_server.Common.{
  ℕ, ◌+◌, ◌≤◌, ◌≡◌, refl, inl, inr, true, false, some, List, [], ◌∷◌, nat_key, lookup, max_u64,
  arith, Option-cases, Bool-cases, lookup-insert, lookup-delete, text_key, ap, sym, subst, =?-refl,
  ◌≢◌,
}
use astrahold_server.Scene.{is_nan, Float32}
use astrahold_server.DeathOutcome
use astrahold_server.DeathOutcome.{
  Event, Outbox, Error, Enqueued, stored, refused, enqueue, append_event, enqueue_after, confirm,
  confirm_oldest, reset_entity, validate_event, same_event, numbered, same_float, same_position,
  same_assurance,
}
use astrahold_server.DeathOutcome.Delivery.{
  Call, enqueue_call, confirm_call, reset_call, Trail, step, run, enqueue-cases, IsDelivery,
  step-IsDelivery,
}

-- No coordinate is a NaN.
abbrev pub IsComparable : Event → Type 0
IsComparable e =
    (is_nan e.respawn.position.x ≡ false)
    × (is_nan e.respawn.position.y ≡ false)
    × (is_nan e.respawn.position.z ≡ false)

-- The call concerns another entity.
abbrev pub Leaves : ℕ → Call → Type 0
Leaves entity (enqueue_call e) = e.entity_id ≢ entity
Leaves entity (confirm_call _) = Unit
Leaves entity (reset_call other) = other ≢ entity

abbrev pub AllLeave : ℕ → List Call → Type 0
AllLeave entity [] = Unit
AllLeave entity (c ∷ cs) = Leaves entity c × AllLeave entity cs

same_float_refl : (a : Float32) → is_nan a ≡ false → same_float a a ≡ true
same_float_refl a h = ground arith

same_assurance_refl : (a : DeathOutcome.Assurance) → same_assurance a a ≡ true
same_assurance_refl DeathOutcome.Assurance.ephemeral = refl
same_assurance_refl DeathOutcome.Assurance.trusted = refl
same_assurance_refl (DeathOutcome.Assurance.unknown a) = =?-refl a

same_event_refl : (e : Event) → IsComparable e → same_event e e ≡ true
unfolding same_event
same_event_refl e h = ground (
  arith,
  same_float_refl e.respawn.position.x h.0,
  same_float_refl e.respawn.position.y h.1,
  same_float_refl e.respawn.position.z h.2,
  =?-refl e.character_id,
  =?-refl e.context,
  =?-refl e.respawn_policy_revision,
  =?-refl e.death_penalty_policy_revision,
  =?-refl e.respawn.spawn_point_id,
  =?-refl e.respawn.spawn_class,
  same_assurance_refl e.character_identity_assurance,
)

-- The event is the last one of its entity.
abbrev Remembers : Event → Outbox → Type 0
Remembers stored_event o = lookup stored_event.entity_id o.last_by_entity ≡ some stored_event

-- An outbox that created an event has it as the last one of its entity.
append_event-Remembers :
    (o : Outbox) (e f : Event)
    → (append_event o e).1 ≡ stored f true
    → (f ≡ numbered e f.event_id) × Remembers f (append_event o e).0
unfolding append_event
append_event-Remembers o e f h =
    ground (arith, lookup-insert e.entity_id f.entity_id f o.last_by_entity)

confirm_oldest-last :
    (o : Outbox) (id : ℕ) (ps : List Event)
    → (confirm_oldest o id ps).0.last_by_entity ≡ o.last_by_entity
unfolding confirm_oldest
confirm_oldest-last o id [] = refl
confirm_oldest-last o id (e ∷ es) = ground arith

confirm-last : (o : Outbox) (id : ℕ) → (confirm o id).0.last_by_entity ≡ o.last_by_entity
unfolding confirm
confirm-last o id = confirm_oldest-last o id o.pending

enqueue-created :
    (o : Outbox) (e f : Event)
    → (enqueue o e).1 ≡ stored f true
    → (validate_event e ≡ true) × (enqueue o e ≡ append_event o e)
unfolding enqueue enqueue_after
enqueue-created o e f h = elim (Bool-cases (validate_event e)) [
  | inr bad ↦ ground (arith, h, bad)
  | inl good ↦ elim (Option-cases (lookup e.entity_id o.last_by_entity)) [
    | inl new ↦ (good, rw (good, enqueue, new) refl)
    | inr (last, known) ↦ ground (arith, h, good, known)
  ]
]

-- What a retry needs, and what any call that concerns another entity leaves in place.
enqueue-Remembers :
    (o : Outbox) (e f : Event)
    → (enqueue o e).1 ≡ stored f true
    → (validate_event e ≡ true) × (f ≡ numbered e f.event_id) × Remembers f (enqueue o e).0
enqueue-Remembers o e f h =
    let c = enqueue-created o e f h in
    let r = append_event-Remembers o e f (rw⁻¹ (c.1) h) in (c.0, r.0, rw (c.1) r.1)

step-Remembers :
    (t : Trail) (c : Call) (f : Event)
    → t.outbox.next_event_id ≤ max_u64
    → Leaves f.entity_id c
    → Remembers f t.outbox
    → Remembers f (step t c).outbox
unfolding step reset_entity
step-Remembers t (enqueue_call e) f n l r = elim (enqueue-cases t.outbox e n) [
  | inl keeps ↦ rw (keeps.0) r
  | inr a ↦ rw (a.remembered) (
      ground (
        arith,
        lookup-insert e.entity_id f.entity_id (numbered e (t.outbox.next_event_id + 1))
            t.outbox.last_by_entity,
      ))
]
step-Remembers t (confirm_call id) f n l r = rw (confirm-last t.outbox id) r
step-Remembers t (reset_call other) f n l r =
    ground (arith, lookup-delete other f.entity_id t.outbox.last_by_entity)

run-Remembers :
    (t : Trail) (cs : List Call) (f : Event)
    → IsDelivery t
    → AllLeave f.entity_id cs
    → Remembers f t.outbox
    → Remembers f (run t cs).outbox
unfolding run
run-Remembers t [] f d l r = r
run-Remembers t (c ∷ cs) f d l r =
    run-Remembers (step t c) cs f (step-IsDelivery t c d) l.1 (step-Remembers t c f d.counted l.0 r)

enqueue_remembered :
    (o : Outbox) (e : Event) (id : ℕ)
    → validate_event e ≡ true
    → IsComparable e
    → Remembers (numbered e id) o
    → enqueue o e ≡ (o, stored (numbered e id) false)
unfolding enqueue enqueue_after
enqueue_remembered o e id v c r =
    rw (v, enqueue, r) (ground (arith, same_event_refl (numbered e id) c))

enqueue_stored :
    (o : Outbox) (e f : Event)
    → validate_event e ≡ true
    → IsComparable e
    → f ≡ numbered e f.event_id
    → Remembers f o
    → enqueue o e ≡ (o, stored f false)
enqueue_stored o e f v c same r =
    subst (λ g. enqueue o e ≡ (o, stored g false)) (sym same)
      (enqueue_remembered o e f.event_id v c (subst (λ g. Remembers g o) same r))

enqueued-run :
    (t : Trail) (e f : Event) (cs : List Call)
    → IsDelivery t
    → (enqueue t.outbox e).1 ≡ stored f true
    → f ≡ numbered e f.event_id
    → AllLeave e.entity_id cs
    → Remembers f (run (step t (enqueue_call e)) cs).outbox
unfolding step
enqueued-run t e f cs d h same l =
    run-Remembers (step t (enqueue_call e)) cs f (step-IsDelivery t (enqueue_call e) d)
      (subst (λ g. AllLeave g cs) (ap (λ g. g.entity_id) (sym same)) l)
      (enqueue-Remembers t.outbox e f h).2

-- An event, without NaN in its position, that Enqueue created is created once: after any calls that concern other entities, and
-- any confirmations, its own included, Enqueue answers the stored event and changes nothing.
pub enqueue-idempotent :
    (t : Trail) (e f : Event) (cs : List Call)
    → IsDelivery t
    → IsComparable e
    → (enqueue t.outbox e).1 ≡ stored f true
    → AllLeave e.entity_id cs
    → let o = (run (step t (enqueue_call e)) cs).outbox in enqueue o e ≡ (o, stored f false)
enqueue-idempotent t e f cs d c h l =
    let q = enqueue-Remembers t.outbox e f h in
    let o = (run (step t (enqueue_call e)) cs).outbox in
    enqueue_stored o e f q.0 c q.1 (enqueued-run t e f cs d h q.1 l)
