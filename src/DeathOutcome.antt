-- ===== src/DeathOutcome.antt =====
-- Death outcomes and the bounded outbox in which they wait for their consumer
-- (internal/deathoutcome/outbox.go).
-- The strings DeathContext and SpawnClass are texts. The mutex makes each method one step.
pub mod Delivery
pub mod Journal
pub mod Retry
use astrahold_server.Common.{
  ℕ, ◌+◌, ◌-◌, ◌≡◌, ◌⊎◌, inl, inr, Bool, true, false, not, ◌&&◌, ◌||◌, Option, none, some, List, [],
  ◌∷◌, ◌++◌, ltb, leb, ◌==◌, ◌=?◌, if◌then◌else◌, ℤ, pos, negsuc, Text, text_key, nat_key, codes,
  is_empty, same_bool, Map, lookup, insert, delete, length, max_u64, add_u64,
}
use astrahold_server.Identity.{Assurance, Binding, valid}
use astrahold_server.Scene.{Position, Float32, at_most}

pub record RespawnBinding : Type 0 where
  pub scheduled : Bool
  pub spawn_point_id : Text
  pub spawn_class : Text
  pub position : Position
  pub due_tick : ℕ

pub record Event : Type 0 where
  pub event_id : ℕ
  pub entity_id : ℕ
  pub character_id : Text
  pub character_identity_assurance : Assurance
  pub defeat_revision : ℕ
  pub context : Text
  pub defeated_tick : ℕ
  pub respawn_policy_revision : Text
  pub death_penalty_policy_revision : Text
  pub respawn : RespawnBinding
  pub penalty_transaction_applied : Bool
  pub checkpoint_forfeited : Bool

pub data Error : Type 0 where
  invalid_capacity invalid_event outbox_full revision_regression : Error
  outcome_conflict event_id_overflow unknown_event confirm_out_of_order : Error

pub record Outbox : Type 0 where
  pub capacity : ℕ
  pub next_event_id : ℕ
  pub pending : List Event
  pub last_by_entity : Map ℕ Event

unfoldable pub valid_context : Text → Bool
valid_context c = c =? codes "pve" || c =? codes "pvp" || c =? codes "siege"

unfoldable pub valid_spawn_class : Text → Bool
valid_spawn_class c = c =? codes "safe" || c =? codes "checkpoint" || c =? codes "siege"

-- == of Go: of two floats, which a NaN fails and both zeros pass, and of structures by fields.
abbrev pub same_float : Float32 → Float32 → Bool
same_float a b = at_most a b && at_most b a

abbrev pub same_position : Position → Position → Bool
same_position p q =
    same_float p.x q.x && same_float p.y q.y && same_float p.z q.z && p.layer == q.layer

abbrev pub same_assurance : Assurance → Assurance → Bool
same_assurance Assurance.ephemeral Assurance.ephemeral = true
same_assurance Assurance.trusted Assurance.trusted = true
same_assurance (Assurance.unknown a) (Assurance.unknown b) = a =? b
same_assurance _ _ = false

abbrev same_respawn : RespawnBinding → RespawnBinding → Bool
same_respawn a b =
    same_bool a.scheduled b.scheduled
    && a.spawn_point_id =? b.spawn_point_id
    && a.spawn_class =? b.spawn_class
    && same_position a.position b.position
    && a.due_tick == b.due_tick

-- The comparison candidate != last, negated.
unfoldable pub same_event : Event → Event → Bool
same_event a b =
    a.event_id == b.event_id
    && a.entity_id == b.entity_id
    && a.character_id =? b.character_id
    && same_assurance a.character_identity_assurance b.character_identity_assurance
    && a.defeat_revision == b.defeat_revision
    && a.context =? b.context
    && a.defeated_tick == b.defeated_tick
    && a.respawn_policy_revision =? b.respawn_policy_revision
    && a.death_penalty_policy_revision =? b.death_penalty_policy_revision
    && same_respawn a.respawn b.respawn
    && same_bool a.penalty_transaction_applied b.penalty_transaction_applied
    && same_bool a.checkpoint_forfeited b.checkpoint_forfeited

abbrev pub no_position : Position
no_position = record { x = 0; y = 0; z = 0; layer = 0 }

abbrev bound : RespawnBinding → ℕ → Bool
bound r defeated =
    not (is_empty r.spawn_point_id) && valid_spawn_class r.spawn_class && ltb defeated r.due_tick

abbrev unbound : RespawnBinding → Bool
unbound r =
    is_empty r.spawn_point_id
    && is_empty r.spawn_class
    && same_position r.position no_position
    && r.due_tick == 0

unfoldable pub validate_event_body : Event → Bool
validate_event_body e =
    not (e.checkpoint_forfeited && not e.penalty_transaction_applied)
    && (if e.respawn.scheduled then bound e.respawn e.defeated_tick else unbound e.respawn)

abbrev pub identity : Event → Binding
identity e = record { id = e.character_id; assurance = e.character_identity_assurance }

-- What an event of the outbox and one of the journal share.
abbrev carried : Event → Bool
carried e =
    not (e.entity_id == 0)
    && valid (identity e)
    && not (e.defeat_revision == 0)
    && valid_context e.context

unfoldable pub validate_event : Event → Bool
validate_event e = e.event_id == 0 && carried e && validate_event_body e

unfoldable pub validate_journal_event : Event → Bool
validate_journal_event e = not (e.event_id == 0) && carried e && validate_event_body e

abbrev pub no_assurance : Assurance → Bool
no_assurance (Assurance.unknown a) = is_empty a
no_assurance _ = false

unfoldable pub validate_legacy_journal_event : Event → Bool
validate_legacy_journal_event e =
    not (e.event_id == 0)
    && not (e.entity_id == 0)
    && is_empty e.character_id
    && no_assurance e.character_identity_assurance
    && not (e.defeat_revision == 0)
    && valid_context e.context
    && validate_event_body e

unfoldable pub new_outbox : ℤ → Error ⊎ Outbox
new_outbox (negsuc _) = inl invalid_capacity
new_outbox (pos n) =
    if n == 0
    then inl invalid_capacity
    else inr (record { capacity = n; next_event_id = 0; pending = []; last_by_entity = [] })

pub data Enqueued : Type 0 where
  stored : Event → Bool → Enqueued
  refused : Error → Enqueued

abbrev pub numbered : Event → ℕ → Event
numbered e id = record e { event_id = id }

-- Enqueue past the comparison with the entity's last event.
unfoldable pub append_event : Outbox → Event → Outbox × Enqueued
append_event o e =
    if leb o.capacity (length o.pending)
    then (o, refused outbox_full)
    else if o.next_event_id == max_u64
    then (o, refused event_id_overflow)
    else let id = add_u64 o.next_event_id 1 in
      (
        record o {
          next_event_id = id;
          pending = o.pending ++ (numbered e id ∷ []);
          last_by_entity = insert e.entity_id (numbered e id) o.last_by_entity;
        },
        stored (numbered e id) true,
      )

-- Enqueue of a valid event of an entity with a last event.
unfoldable pub enqueue_after : Outbox → Event → Event → Outbox × Enqueued
enqueue_after o e last =
    if ltb e.defeat_revision last.defeat_revision
    then (o, refused revision_regression)
    else if e.defeat_revision == last.defeat_revision
    then if same_event (numbered e last.event_id) last
      then (o, stored last false)
      else (o, refused outcome_conflict)
    else append_event o e

unfoldable pub enqueue : Outbox → Event → Outbox × Enqueued
enqueue o e =
    if validate_event e
    then elim (lookup e.entity_id o.last_by_entity) [
      | none ↦ append_event o e
      | some last ↦ enqueue_after o e last
    ]
    else (o, refused invalid_event)

unfoldable pub first : ℕ → List Event → List Event
first n [] = []
first n (e ∷ es) = if n == 0 then [] else e ∷ first (n - 1) es

-- Pending(limit).
unfoldable pub pending_events : Outbox → ℤ → List Event
unfolding first
pending_events o (negsuc _) = o.pending
pending_events o (pos limit) =
    first (if ltb 0 limit && ltb limit (length o.pending) then limit else length o.pending)
      o.pending

unfoldable pub holds_id : ℕ → List Event → Bool
holds_id id [] = false
holds_id id (e ∷ es) = e.event_id == id || holds_id id es

-- Confirm, by the pending events.
unfoldable pub confirm_oldest : Outbox → ℕ → List Event → Outbox × Option Error
confirm_oldest o id [] = (o, some unknown_event)
confirm_oldest o id (e ∷ es) =
    if e.event_id == id
    then (record o { pending = es }, none)
    else if holds_id id (e ∷ es)
    then (o, some confirm_out_of_order)
    else (o, some unknown_event)

unfoldable pub confirm : Outbox → ℕ → Outbox × Option Error
confirm o id = confirm_oldest o id o.pending

unfoldable pub reset_entity : Outbox → ℕ → Outbox
reset_entity o id = record o { last_by_entity = delete id o.last_by_entity }
