-- ===== src/Examples/Deaths.antt =====
-- Runs of the outbox of death outcomes (internal/deathoutcome/outbox.go).
use astrahold_server.Common.{
  ℕ, ◌≡◌, ◌≢◌, refl, inr, true, false, List, [], ◌∷◌, arith, codes, pos, lookup, insert, delete,
  ℕ_discrete, Text-discrete, nat_key,
}
use astrahold_server.Identity.{Assurance, valid}
use astrahold_server.DeathOutcome
use astrahold_server.DeathOutcome.{
  Event, Outbox, RespawnBinding, no_position, new_outbox, enqueue, append_event, validate_event,
  validate_event_body, valid_context, stored, numbered,
}
use astrahold_server.DeathOutcome.Delivery.{
  Call, enqueue_call, confirm_call, reset_call, started, run, step, IsDelivery, started-IsDelivery,
  new_outbox-IsDelivery,
}
use astrahold_server.DeathOutcome.Retry.{enqueue-idempotent}

abbrev pub unscheduled : RespawnBinding
unscheduled = record {
  scheduled = false;
  spawn_point_id = [];
  spawn_class = [];
  position = no_position;
  due_tick = 0;
}

abbrev pub defeat : Event
defeat = record {
  event_id = 0;
  entity_id = 7;
  character_id = codes "c-7";
  character_identity_assurance = Assurance.trusted;
  defeat_revision = 1;
  context = codes "pvp";
  defeated_tick = 40;
  respawn_policy_revision = codes "r1";
  death_penalty_policy_revision = codes "p1";
  respawn = unscheduled;
  penalty_transaction_applied = true;
  checkpoint_forfeited = false;
}

abbrev other_defeat : Event
other_defeat = record defeat { entity_id = 9; character_id = codes "c-9" }

abbrev outbox : Outbox
outbox = record { capacity = 2; next_event_id = 0; pending = []; last_by_entity = [] }

new_outbox-two : new_outbox (pos 2) ≡ inr outbox
unfolding new_outbox
new_outbox-two = refl

abbrev calls : List Call
calls =
    enqueue_call defeat
    ∷ enqueue_call other_defeat
    ∷ confirm_call 1
    ∷ reset_call 7
    ∷ enqueue_call defeat
    ∷ []

new_outbox-IsDelivery_example : IsDelivery (run (started outbox) calls)
new_outbox-IsDelivery_example = new_outbox-IsDelivery (pos 2) outbox calls new_outbox-two

run-calls :
    (run (started outbox) calls).outbox.pending ≡ numbered other_defeat 2 ∷ numbered defeat 3 ∷ []
unfolding run enqueue append_event validate_event validate_event_body valid_context valid lookup
    insert delete Text-discrete ℕ_discrete step DeathOutcome.reset_entity DeathOutcome.confirm
    DeathOutcome.confirm_oldest
run-calls = refl

enqueue-stores : (enqueue outbox defeat).1 ≡ stored (numbered defeat 1) true
unfolding enqueue append_event validate_event validate_event_body valid_context valid lookup
    Text-discrete ℕ_discrete
enqueue-stores = refl

abbrev later_calls : List Call
later_calls = enqueue_call other_defeat ∷ confirm_call 1 ∷ confirm_call 2 ∷ []

abbrev entity_9 : ℕ
entity_9 = 9

abbrev entity_7 : ℕ
entity_7 = 7

other_entity : entity_9 ≢ entity_7
other_entity = ground arith

enqueue-idempotent_example :
    let o = (run (step (started outbox) (enqueue_call defeat)) later_calls).outbox in
    enqueue o defeat ≡ (o, stored (numbered defeat 1) false)
enqueue-idempotent_example =
    enqueue-idempotent (started outbox) defeat (numbered defeat 1) later_calls
      (started-IsDelivery (pos 2) outbox new_outbox-two) (refl, refl, refl) enqueue-stores
      (other_entity, (tt, (tt, tt)))
