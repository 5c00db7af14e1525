-- ===== src/DeathOutcome/Delivery.antt =====
-- The outbox over any calls: what its consumer is told, and in which order.
use astrahold_server.Common.{
  ℕ, zero, suc, ◌+◌, ◌≤◌, ◌<◌, ◌≡◌, refl, inl, inr, ◌⊎◌, ℤ, pos, negsuc, true, Option, none, List,
  [], ◌∷◌, ◌++◌, map, nat_key, lookup, insert, length, max_u64, arith, Option-cases, Bool-cases,
  text_key, ltb, leb, ◌==◌, append-nil, append_assoc, length-append, map-append,
}
use astrahold_server.DeathOutcome
use astrahold_server.DeathOutcome.{
  Event, Outbox, Error, Enqueued, stored, refused, new_outbox, enqueue, append_event, enqueue_after,
  confirm, confirm_oldest, holds_id, reset_entity, validate_event, same_event,
}

pub data Call : Type 0 where
  enqueue_call : Event → Call
  confirm_call reset_call : ℕ → Call

-- The outbox, with the events that Enqueue created and that Confirm accepted so far, in order.
pub record Trail : Type 0 where
  pub outbox : Outbox
  pub created : List Event
  pub confirmed : List Event

abbrev created_by : Enqueued → List Event
created_by (stored e true) = e ∷ []
created_by _ = []

abbrev confirmed_by : List Event → Option Error → List Event
confirmed_by (e ∷ _) none = e ∷ []
confirmed_by _ _ = []

unfoldable pub step : Trail → Call → Trail
step t (enqueue_call e) =
    let r = enqueue t.outbox e in record t { outbox = r.0; created = t.created ++ created_by r.1 }
step t (confirm_call id) =
    let r = confirm t.outbox id in
    record t { outbox = r.0; confirmed = t.confirmed ++ confirmed_by t.outbox.pending r.1 }
step t (reset_call id) = record t { outbox = reset_entity t.outbox id }

unfoldable pub run : Trail → List Call → Trail
run t [] = t
run t (c ∷ cs) = run (step t c) cs

abbrev pub started : Outbox → Trail
started o = record { outbox = o; created = []; confirmed = [] }

-- 1, 2, ..., n
unfoldable pub ids_to : ℕ → List ℕ
ids_to zero = []
ids_to (suc n) = ids_to n ++ (suc n ∷ [])

abbrev pub ids : List Event → List ℕ
ids = map (λ e. e.event_id)

-- Every created event was confirmed or is pending, the oldest first, and the events are numbered
-- from 1 in the order of their creation.
pub record IsDelivery (t : Trail) : Type 0 where
  pub split : t.created ≡ t.confirmed ++ t.outbox.pending
  pub numbered_in_order : ids t.created ≡ ids_to t.outbox.next_event_id
  pub bounded : length t.outbox.pending ≤ t.outbox.capacity
  pub counted : t.outbox.next_event_id ≤ max_u64

-- What a call to Enqueue does: nothing, or it appends one event with the next number.
pub record Appends (o : Outbox) (e : Event) (r : Outbox × Enqueued) : Type 0 where
  pub room : length o.pending < o.capacity
  pub left : o.next_event_id < max_u64
  pub said : r.1 ≡ stored (DeathOutcome.numbered e (o.next_event_id + 1)) true
  pub appended : r.0.pending ≡ o.pending ++ (DeathOutcome.numbered e (o.next_event_id + 1) ∷ [])
  pub next : r.0.next_event_id ≡ o.next_event_id + 1
  pub same : r.0.capacity ≡ o.capacity
  pub remembered :
      r.0.last_by_entity
      ≡ insert e.entity_id (DeathOutcome.numbered e (o.next_event_id + 1)) o.last_by_entity

abbrev pub Keeps : Outbox → Outbox × Enqueued → Type 0
Keeps o r = (r.0 ≡ o) × (created_by r.1 ≡ [])

append_event-Appends :
    (o : Outbox) (e : Event)
    → length o.pending < o.capacity
    → o.next_event_id < max_u64
    → Appends o e (append_event o e)
unfolding append_event
append_event-Appends o e room left = record {
  room = room;
  left = left;
  said = ground arith;
  appended = ground arith;
  next = ground arith;
  same = ground arith;
  remembered = ground arith;
}

append_event-cases :
    (o : Outbox) (e : Event)
    → o.next_event_id ≤ max_u64
    → Keeps o (append_event o e) ⊎ Appends o e (append_event o e)
unfolding append_event
append_event-cases o e h = elim (Bool-cases (leb o.capacity (length o.pending))) [
  | inl full ↦ inl (rw (full, append_event) (refl, refl))
  | inr room ↦ elim (Bool-cases (o.next_event_id == max_u64)) [
    | inl none_left ↦ inl (rw (room, append_event, none_left) (refl, refl))
    | inr left ↦ inr (append_event-Appends o e (ground arith) (ground arith))
  ]
]

enqueue_after-cases :
    (o : Outbox) (e last : Event)
    → o.next_event_id ≤ max_u64
    → Keeps o (enqueue_after o e last) ⊎ Appends o e (enqueue_after o e last)
unfolding enqueue_after
enqueue_after-cases o e last h = elim (Bool-cases (ltb e.defeat_revision last.defeat_revision)) [
  | inl older ↦ inl (rw (older, enqueue_after) (refl, refl))
  | inr current ↦ elim (Bool-cases (e.defeat_revision == last.defeat_revision)) [
    | inr newer ↦ rw (current, enqueue_after, newer) (append_event-cases o e h)
    | inl again ↦ elim (Bool-cases (same_event (DeathOutcome.numbered e last.event_id) last)) [
      | inl equal ↦ inl (rw (current, enqueue_after, again, equal) (refl, refl))
      | inr other ↦ inl (rw (current, enqueue_after, again, other) (refl, refl))
    ]
  ]
]

pub enqueue-cases :
    (o : Outbox) (e : Event)
    → o.next_event_id ≤ max_u64
    → Keeps o (enqueue o e) ⊎ Appends o e (enqueue o e)
unfolding enqueue
enqueue-cases o e h = elim (Bool-cases (validate_event e)) [
  | inr bad ↦ inl (rw (bad, enqueue) (refl, refl))
  | inl good ↦ elim (Option-cases (lookup e.entity_id o.last_by_entity)) [
    | inl new ↦ rw (good, enqueue, new) (append_event-cases o e h)
    | inr (last, known) ↦ rw (good, enqueue, known) (enqueue_after-cases o e last h)
  ]
]

add-suc : (n : ℕ) → n + 1 ≡ suc n
add-suc n = omega arith

ids_to_next : (n : ℕ) → ids_to n ++ ((n + 1) ∷ []) ≡ ids_to (n + 1)
unfolding ids_to
ids_to_next n = rw (add-suc n) refl

enqueue-IsDelivery : (t : Trail) (e : Event) → IsDelivery t → IsDelivery (step t (enqueue_call e))
unfolding step
enqueue-IsDelivery t e d = elim (enqueue-cases t.outbox e d.counted) [
  | inl keeps ↦ record {
    split = rw (keeps.0, keeps.1, append-nil t.created) d.split;
    numbered_in_order = rw (keeps.0, keeps.1, append-nil t.created) d.numbered_in_order;
    bounded = rw (keeps.0) d.bounded;
    counted = rw (keeps.0) d.counted;
  }
  | inr a ↦ record {
    split = rw (a.said, a.appended, d.split) (append_assoc t.confirmed t.outbox.pending _);
    numbered_in_order =
        rw (a.said, a.next, map-append (λ x. x.event_id) t.created _, d.numbered_in_order)
          (ids_to_next t.outbox.next_event_id);
    bounded =
        rw (a.appended, a.same)
          (ground (
            arith,
            length-append t.outbox.pending
                (DeathOutcome.numbered e (t.outbox.next_event_id + 1) ∷ []),
            a.room,
          ));
    counted = ground (arith, a.next, a.left);
  }
]

-- What a call to Confirm does: nothing, or it takes the oldest pending event.
confirm_oldest-cases :
    (o : Outbox) (id : ℕ) (ps : List Event)
    → (((confirm_oldest o id ps).0 ≡ o) × (confirmed_by ps (confirm_oldest o id ps).1 ≡ []))
      ⊎ ((e : Event) × (es : List Event) × (ps ≡ e ∷ es)
          × (e.event_id ≡ id)
          × (confirm_oldest o id ps ≡ (record o { pending = es }, none)))
unfolding confirm_oldest
confirm_oldest-cases o id [] = inl (refl, refl)
confirm_oldest-cases o id (e ∷ es) = elim (Bool-cases (e.event_id == id)) [
  | inl same ↦ inr (e, es, refl, ground arith, rw (confirm_oldest, same) refl)
  | inr other ↦ elim (Bool-cases (holds_id id (e ∷ es))) [
    | inl later ↦ inl (rw (confirm_oldest, other, later) (refl, refl))
    | inr absent ↦ inl (rw (confirm_oldest, other, absent) (refl, refl))
  ]
]

confirm-IsDelivery : (t : Trail) (id : ℕ) → IsDelivery t → IsDelivery (step t (confirm_call id))
unfolding step confirm
confirm-IsDelivery t id d = elim (confirm_oldest-cases t.outbox id t.outbox.pending) [
  | inl keeps ↦ record {
    split = rw (keeps.0, keeps.1, append-nil t.confirmed) d.split;
    numbered_in_order = rw (keeps.0) d.numbered_in_order;
    bounded = rw (keeps.0) d.bounded;
    counted = rw (keeps.0) d.counted;
  }
  | inr (e, es, head, _, taken) ↦ record {
    split = rw (taken, head, append_assoc t.confirmed (e ∷ []) es) (rw⁻¹ head d.split);
    numbered_in_order = rw (taken) d.numbered_in_order;
    bounded = rw (taken) (ground (arith, head, d.bounded));
    counted = rw (taken) d.counted;
  }
]

pub step-IsDelivery : (t : Trail) (c : Call) → IsDelivery t → IsDelivery (step t c)
unfolding step reset_entity
step-IsDelivery t (enqueue_call e) d = enqueue-IsDelivery t e d
step-IsDelivery t (confirm_call id) d = confirm-IsDelivery t id d
step-IsDelivery t (reset_call id) d = record {
  split = d.split;
  numbered_in_order = d.numbered_in_order;
  bounded = d.bounded;
  counted = d.counted;
}

-- Any calls from a new outbox.
pub run-IsDelivery : (t : Trail) (cs : List Call) → IsDelivery t → IsDelivery (run t cs)
unfolding run
run-IsDelivery t [] d = d
run-IsDelivery t (c ∷ cs) d = run-IsDelivery (step t c) cs (step-IsDelivery t c d)

pub started-IsDelivery :
    (capacity : ℤ) (o : Outbox) → new_outbox capacity ≡ inr o → IsDelivery (started o)
unfolding new_outbox ids_to
started-IsDelivery (pos n) o e = record {
  split = ground (arith, e);
  numbered_in_order = ground (arith, e);
  bounded = ground (arith, e);
  counted = ground (arith, e);
}
started-IsDelivery (negsuc n) o e = record {
  split = ground (arith, e);
  numbered_in_order = ground (arith, e);
  bounded = ground (arith, e);
  counted = ground (arith, e);
}

-- From a new outbox, whatever the calls: each created event is confirmed once or still pending,
-- in the order of creation, numbered 1, 2, 3, ...; and the outbox holds no more than its capacity.
pub new_outbox-IsDelivery :
    (capacity : ℤ) (o : Outbox) (cs : List Call)
    → new_outbox capacity ≡ inr o
    → IsDelivery (run (started o) cs)
new_outbox-IsDelivery capacity o cs e =
    run-IsDelivery (started o) cs (started-IsDelivery capacity o e)
