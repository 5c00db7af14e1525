-- ===== src/Mailbox.antt =====
-- The mailbox of a connection's realtime packets (internal/netadapter/tcpudp/realtime_mailbox.go).
-- The mutex makes each call, and each pass of the loop of NextPacket, one step. What
-- AppendEncodeServerDatagram does to a slot is an argument: the bytes that it wrote at the front of
-- the slot's array, and whether it succeeded. Durations are not modelled.
pub mod Newest
pub mod Delivery
pub mod Promise
pub mod Runs
use astrahold_server.Common.{
  ℕ, ◌+◌, ◌-◌, ◌≡◌, Bool, true, false, not, ◌&&◌, ◌||◌, Option, none, some, List, [], ◌∷◌, ◌++◌,
  ltb, leb, ◌==◌, if◌then◌else◌, nat_key, Map, lookup, insert, get_or, length,
}
use astrahold_server.Transport.Bytes.{take, skip}

abbrev pub max_chunks : ℕ
max_chunks = 64

pub data Error : Type 0 where
  unsupported_outbound snapshot_order snapshot_too_large encode_failed : Error

-- The array of a slot, and the length of its packet.
pub record Slot : Type 0 where
  pub data_bytes : List ℕ
  pub size : ℕ
  pub message_type : ℕ

pub record Encoding : Type 0 where
  pub bytes : List ℕ
  pub message_type : ℕ
  pub succeeds : Bool

-- The fields of a WorldSnapshot that the mailbox reads, and whether it has few enough entities.
pub record Chunk : Type 0 where
  pub tick : ℕ
  pub index : ℕ
  pub count : ℕ
  pub few_entities : Bool

pub data Message : Type 0 where
  correction : Message
  snapshot : Chunk → Message
  nil_or_other : Message

-- `slots` is the array of snapshotChunks up to its capacity, `slot_count` its length.
pub record Mailbox : Type 0 where
  pub correction_slot : Slot
  pub correction_pending : Bool
  pub snapshot_tick : ℕ
  pub snapshot_expected : ℕ
  pub snapshot_received : ℕ
  pub snapshot_sent : ℕ
  pub slots : Map ℕ Slot
  pub slot_count : ℕ
  pub slot_capacity : ℕ

abbrev pub empty_slot : Slot
empty_slot = record { data_bytes = []; size = 0; message_type = 0 }

abbrev pub new_mailbox : Mailbox
new_mailbox = record {
  correction_slot = empty_slot;
  correction_pending = false;
  snapshot_tick = 0;
  snapshot_expected = 0;
  snapshot_received = 0;
  snapshot_sent = 0;
  slots = [];
  slot_count = 0;
  slot_capacity = 0;
}

-- encodeRealtimeSlot: the array is written before the encoder may fail, the length after.
unfoldable pub encode_slot : Slot → Encoding → Slot
unfolding skip
encode_slot s e =
    let written = e.bytes ++ skip (length e.bytes) s.data_bytes in
    if e.succeeds
    then record { data_bytes = written; size = length e.bytes; message_type = e.message_type }
    else record s { data_bytes = written }

-- WorldSnapshot.ValidChunk (internal/protocol/messages.go).
unfoldable pub valid_chunk : Chunk → Bool
valid_chunk c = ltb 0 c.count && ltb c.index c.count && c.few_entities

abbrev pub slot_at : Mailbox → ℕ → Slot
slot_at m i = get_or empty_slot (lookup i m.slots)

-- ensureSnapshotSlots: a new array where the old one is too small.
unfoldable pub ensure_snapshot_slots : Mailbox → ℕ → Mailbox
ensure_snapshot_slots m count =
    if ltb m.slot_capacity count
    then record m { slots = []; slot_count = count; slot_capacity = count }
    else record m { slot_count = count }

unfoldable pub reset_snapshot_set : Mailbox → Mailbox
reset_snapshot_set m = record m {
  snapshot_tick = 0;
  snapshot_expected = 0;
  snapshot_received = 0;
  snapshot_sent = 0;
}

unfoldable pub begin_set : Mailbox → Chunk → Mailbox
unfolding ensure_snapshot_slots
begin_set m c =
    ensure_snapshot_slots
      (record m {
        snapshot_tick = c.tick;
        snapshot_expected = c.count;
        snapshot_received = 0;
        snapshot_sent = 0;
      })
      c.count

unfoldable pub with_slot : Mailbox → Encoding → Mailbox
unfolding encode_slot
with_slot m e = record m {
  slots = insert m.snapshot_received (encode_slot (slot_at m m.snapshot_received) e) m.slots;
}

-- putSnapshot from the encoder on.
unfoldable pub keep_chunk : Mailbox → Chunk → Encoding → Mailbox × Option Error
unfolding with_slot reset_snapshot_set
keep_chunk m c e =
    if e.succeeds
    then (record (with_slot m e) { snapshot_received = m.snapshot_received + 1 }, none)
    else (
      (if c.index == 0 then reset_snapshot_set (with_slot m e) else with_slot m e),
      some encode_failed,
    )

-- putSnapshot from the last test of the index on.
unfoldable pub store_chunk : Mailbox → Chunk → Encoding → Mailbox × Option Error
unfolding keep_chunk
store_chunk m c e =
    if not (c.index == m.snapshot_received) || leb m.slot_count m.snapshot_received
    then (m, some snapshot_order)
    else keep_chunk m c e

unfoldable pub put_snapshot : Mailbox → Chunk → Encoding → Mailbox × Option Error
unfolding valid_chunk begin_set store_chunk
put_snapshot m c e =
    if not (valid_chunk c)
    then (m, some snapshot_order)
    else if ltb max_chunks c.count
    then (m, some snapshot_too_large)
    else if c.index == 0
    then store_chunk (begin_set m c) c e
    else if not (c.tick == m.snapshot_tick)
        || not (c.count == m.snapshot_expected)
        || not (c.index == m.snapshot_received)
    then (m, some snapshot_order)
    else store_chunk m c e

unfoldable pub put_correction : Mailbox → Encoding → Mailbox × Option Error
unfolding encode_slot
put_correction m e =
    if e.succeeds
    then (
      record m { correction_slot = encode_slot m.correction_slot e; correction_pending = true },
      none,
    )
    else (record m { correction_slot = encode_slot m.correction_slot e }, some encode_failed)

-- PutEncoded; it wakes the writer where it succeeds.
unfoldable pub put_encoded : Mailbox → Message → Encoding → Mailbox × Option Error
unfolding put_correction put_snapshot
put_encoded m correction e = put_correction m e
put_encoded m (snapshot c) e = put_snapshot m c e
put_encoded m nil_or_other e = (m, some unsupported_outbound)

pub record Packet : Type 0 where
  pub bytes : List ℕ
  pub message_type : ℕ

-- copyRealtimePacket, with the message type of the slot.
unfoldable pub packet_of : Slot → Packet
unfolding take
packet_of s = record { bytes = take s.size s.data_bytes; message_type = s.message_type }

unfoldable pub after_sent : Mailbox → Mailbox
unfolding reset_snapshot_set
after_sent m =
    if ltb 0 m.snapshot_expected && m.snapshot_sent == m.snapshot_expected
    then reset_snapshot_set m
    else m

-- One pass of the loop of NextPacket; none where it goes to wait.
unfoldable pub next_packet : Mailbox → Mailbox × Option Packet
unfolding packet_of after_sent
next_packet m =
    if m.correction_pending
    then (record m { correction_pending = false }, some (packet_of m.correction_slot))
    else if ltb m.snapshot_sent m.snapshot_received
    then (
      after_sent (record m { snapshot_sent = m.snapshot_sent + 1 }),
      some (packet_of (slot_at m m.snapshot_sent)),
    )
    else (m, none)
