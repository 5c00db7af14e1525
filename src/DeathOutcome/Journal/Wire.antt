-- ===== src/DeathOutcome/Journal/Wire.antt =====
-- The payload of a journal record: its JSON structure, and the checks of its decoder
-- (internal/deathoutcome/journal.go).
use astrahold_server.Common.{
  ℕ, ◌≤◌, ◌<◌, ◌≡◌, refl, ◌⊎◌, inl, inr, Bool, true, false, not, ◌||◌, Option, none, some, List,
  ltb, ◌==◌, ◌=?◌, if◌then◌else◌, Text, text_key, codes, length, subst, Text-discrete, ℕ_discrete,
  arith, Option-cases, Bool-cases,
}
use astrahold_server.Identity.{Assurance, valid, valid_unknown}
use astrahold_server.Scene.{Float32}
use astrahold_server.DeathOutcome.{
  Event, identity, validate_journal_event, validate_legacy_journal_event,
}

pub record WireRespawn : Type 0 where
  pub scheduled : Bool
  pub spawn_point_id : Text
  pub spawn_class : Text
  pub x : Float32
  pub y : Float32
  pub z : Float32
  pub layer : ℕ
  pub due_tick : ℕ

pub record WireEvent : Type 0 where
  pub event_id : ℕ
  pub entity_id : ℕ
  pub character_id : Text
  pub character_identity_assurance : Text
  pub defeat_revision : ℕ
  pub context : Text
  pub defeated_tick : ℕ
  pub respawn_policy_revision : Text
  pub death_penalty_policy_revision : Text
  pub respawn : WireRespawn
  pub penalty_transaction_applied : Bool
  pub checkpoint_forfeited : Bool

pub record WireRecord : Type 0 where
  pub schema_version : ℕ
  pub record_id : ℕ
  pub event : WireEvent

pub data Error : Type 0 where
  corrupt_journal journal_closed record_overflow invalid_event io short_write : Error
  checkpoint_journal_mismatch checkpoint_ahead checkpoint_offset_mismatch : Error
  corrupt_checkpoint : Error

-- json.Marshal, and a json.Decoder that disallows unknown fields and data after the value.
pub record JsonCodec : Type 0 where
  pub marshal : WireRecord → Option (List ℕ)
  pub unmarshal : List ℕ → Option WireRecord

abbrev pub legacy_schema_version : ℕ
legacy_schema_version = 1

abbrev pub schema_version : ℕ
schema_version = 2

-- 1 << 20
abbrev pub max_payload : ℕ
max_payload = 1048576

abbrev pub assurance_text : Assurance → Text
assurance_text Assurance.ephemeral = codes "ephemeral"
assurance_text Assurance.trusted = codes "trusted"
assurance_text (Assurance.unknown a) = a

abbrev pub text_assurance : Text → Assurance
text_assurance a =
    if a =? codes "ephemeral"
    then Assurance.ephemeral
    else if a =? codes "trusted"
    then Assurance.trusted
    else Assurance.unknown a

unfoldable pub event_to_wire : Event → WireEvent
event_to_wire e = record {
  event_id = e.event_id;
  entity_id = e.entity_id;
  character_id = e.character_id;
  character_identity_assurance = assurance_text e.character_identity_assurance;
  defeat_revision = e.defeat_revision;
  context = e.context;
  defeated_tick = e.defeated_tick;
  respawn_policy_revision = e.respawn_policy_revision;
  death_penalty_policy_revision = e.death_penalty_policy_revision;
  respawn = record {
    scheduled = e.respawn.scheduled;
    spawn_point_id = e.respawn.spawn_point_id;
    spawn_class = e.respawn.spawn_class;
    x = e.respawn.position.x;
    y = e.respawn.position.y;
    z = e.respawn.position.z;
    layer = e.respawn.position.layer;
    due_tick = e.respawn.due_tick;
  };
  penalty_transaction_applied = e.penalty_transaction_applied;
  checkpoint_forfeited = e.checkpoint_forfeited;
}

unfoldable pub wire_to_event : WireEvent → Event
wire_to_event w = record {
  event_id = w.event_id;
  entity_id = w.entity_id;
  character_id = w.character_id;
  character_identity_assurance = text_assurance w.character_identity_assurance;
  defeat_revision = w.defeat_revision;
  context = w.context;
  defeated_tick = w.defeated_tick;
  respawn_policy_revision = w.respawn_policy_revision;
  death_penalty_policy_revision = w.death_penalty_policy_revision;
  respawn = record {
    scheduled = w.respawn.scheduled;
    spawn_point_id = w.respawn.spawn_point_id;
    spawn_class = w.respawn.spawn_class;
    position = record {
      x = w.respawn.x;
      y = w.respawn.y;
      z = w.respawn.z;
      layer = w.respawn.layer;
    };
    due_tick = w.respawn.due_tick;
  };
  penalty_transaction_applied = w.penalty_transaction_applied;
  checkpoint_forfeited = w.checkpoint_forfeited;
}

unfoldable pub wire_record : ℕ → Event → WireRecord
unfolding event_to_wire
wire_record id e = record {
  schema_version = schema_version;
  record_id = id;
  event = event_to_wire e;
}

unfoldable pub encode_journal_record : JsonCodec → ℕ → Event → Error ⊎ List ℕ
encode_journal_record json id e = elim (json.marshal (wire_record id e)) [
  | none ↦ inl invalid_event
  | some payload ↦
      if length payload == 0 || ltb max_payload (length payload)
      then inl invalid_event
      else inr payload
]

-- The checks on a decoded structure.
unfoldable pub accept_record : WireRecord → Error ⊎ (ℕ × Event)
unfolding wire_to_event
accept_record w =
    if not (w.schema_version == legacy_schema_version || w.schema_version == schema_version)
      || w.record_id == 0
    then inl corrupt_journal
    else if (if w.schema_version == legacy_schema_version
        then validate_legacy_journal_event (wire_to_event w.event)
        else validate_journal_event (wire_to_event w.event))
    then inr (w.record_id, wire_to_event w.event)
    else inl corrupt_journal

unfoldable pub decode_journal_record : JsonCodec → List ℕ → Error ⊎ (ℕ × Event)
decode_journal_record json payload = elim (json.unmarshal payload) [
  | none ↦ inl corrupt_journal
  | some w ↦ accept_record w
]

-- The codec reads back what it writes for this record.
abbrev pub ReadsBack : JsonCodec → ℕ → Event → Type 0
ReadsBack json id e =
    (payload : List ℕ)
    → json.marshal (wire_record id e) ≡ some payload
    → json.unmarshal payload ≡ some (wire_record id e)

text_assurance_ephemeral : text_assurance (codes "ephemeral") ≡ Assurance.ephemeral
unfolding Text-discrete ℕ_discrete
text_assurance_ephemeral = refl

text_assurance_trusted : text_assurance (codes "trusted") ≡ Assurance.trusted
unfolding Text-discrete ℕ_discrete
text_assurance_trusted = refl

text_assurance-assurance_text :
    (id : Text) (a : Assurance)
    → valid (record { id = id; assurance = a }) ≡ true
    → text_assurance (assurance_text a) ≡ a
text_assurance-assurance_text id Assurance.ephemeral v = text_assurance_ephemeral
text_assurance-assurance_text id Assurance.trusted v = text_assurance_trusted
text_assurance-assurance_text id (Assurance.unknown a) v = ground (arith, v, valid_unknown id a)

journal_event-valid : (e : Event) → validate_journal_event e ≡ true → valid (identity e) ≡ true
unfolding validate_journal_event
journal_event-valid e v = ground (arith, v)

wire_to_event-event_to_wire :
    (e : Event) → validate_journal_event e ≡ true → wire_to_event (event_to_wire e) ≡ e
unfolding wire_to_event event_to_wire
wire_to_event-event_to_wire e v =
    rw
      (text_assurance-assurance_text e.character_id e.character_identity_assurance
        (journal_event-valid e v))
      refl

accept_record_lem :
    (id : ℕ) (e : Event)
    → (id == 0) ≡ false
    → validate_journal_event e ≡ true
    → accept_record (wire_record id e) ≡ inr (id, e)
unfolding accept_record wire_record
accept_record_lem id e n v = rw (n, accept_record, wire_to_event-event_to_wire e v, v) refl

-- The length test of the encoder.
unfoldable sized : List ℕ → Error ⊎ List ℕ
sized payload =
    if length payload == 0 || ltb max_payload (length payload)
    then inl invalid_event
    else inr payload

encoded-written :
    (json : JsonCodec) (id : ℕ) (e : Event) (written : List ℕ)
    → json.marshal (wire_record id e) ≡ some written
    → encode_journal_record json id e ≡ sized written
unfolding encode_journal_record sized
encoded-written json id e written w = rw (w, encode_journal_record) refl

sized_lem :
    (written payload : List ℕ)
    → sized written ≡ inr payload
    → (written ≡ payload) × (0 < length written) × (length written ≤ max_payload)
unfolding sized
sized_lem written payload h = elim (Bool-cases (length written == 0)) [
  | inl empty ↦ ground (arith, h)
  | inr filled ↦ elim (Bool-cases (ltb max_payload (length written))) [
    | inl long ↦ ground (arith, h)
    | inr short ↦ ground (arith, h)
  ]
]

decoded-payload :
    (json : JsonCodec) (id : ℕ) (e : Event) (payload written : List ℕ)
    → ReadsBack json id e
    → (id == 0) ≡ false
    → validate_journal_event e ≡ true
    → json.marshal (wire_record id e) ≡ some written
    → sized written ≡ inr payload
    → (0 < length payload)
      × (length payload ≤ max_payload)
      × (decode_journal_record json payload ≡ inr (id, e))
unfolding decode_journal_record
decoded-payload json id e payload written r n v w h =
    let s = sized_lem written payload h in
    let reads = r payload (subst (λ p. json.marshal (wire_record id e) ≡ some p) (s.0) w) in
    (
      ground (arith, s),
      ground (arith, s),
      rw (reads, decode_journal_record) (accept_record_lem id e n v),
    )

-- A record that Append encodes is decoded to the event that it was encoded from.
pub decode_journal_record-encode_journal_record :
    (json : JsonCodec) (id : ℕ) (e : Event) (payload : List ℕ)
    → ReadsBack json id e
    → (id == 0) ≡ false
    → validate_journal_event e ≡ true
    → encode_journal_record json id e ≡ inr payload
    → (0 < length payload)
      × (length payload ≤ max_payload)
      × (decode_journal_record json payload ≡ inr (id, e))
unfolding encode_journal_record decode_journal_record
decode_journal_record-encode_journal_record json id e payload r n v h =
    elim (Option-cases (json.marshal (wire_record id e))) [
      | inl failed ↦ ground (arith, failed, h)
      | inr (written, w) ↦
          decoded-payload json id e payload written r n v w
            (rw⁻¹ (encoded-written json id e written w) h)
    ]
