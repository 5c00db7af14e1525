-- ===== src/Mailbox/Delivery.antt =====
-- The mailbox keeps its promise.
use astrahold_server.Common.{
  ℕ, suc, ◌+◌, ◌-◌, ◌≤◌, ◌<◌, ◌≡◌, refl, ◌⊎◌, Bool, true, false, Option, none, some, List, [], ◌∷◌,
  ◌++◌, ltb, ◌==◌, if◌then◌else◌, nat_key, length, arith, ap, sym, ◌∙◌, branch, branches,
}
use astrahold_server.Transport.Bytes.{take, skip}
use astrahold_server.Mailbox
use astrahold_server.Mailbox.{
  Slot, Encoding, Chunk, Message, Mailbox, Packet, Error, valid_chunk, max_chunks, packet_of,
  empty_slot, encode_slot, slot_at, snapshot, nil_or_other, snapshot_order, snapshot_too_large,
  encode_failed, unsupported_outbound, put_correction, with_slot, keep_chunk, store_chunk,
  begin_set, ensure_snapshot_slots, reset_snapshot_set, put_snapshot, put_encoded, next_packet,
  after_sent,
}
use astrahold_server.Mailbox.Newest.{
  Newest, encoded, no_set, promise_put, packets, packets-insert, packets_next,
}

take_whole : (xs ys : List ℕ) → take (length xs) (xs ++ ys) ≡ xs
unfolding take
take_whole [] ys = refl
take_whole (x ∷ xs) ys = rw (take_whole xs ys) refl

-- A slot that was encoded holds the packet, whatever was in its array.
encode_slot-encoded :
    (s : Slot) (e : Encoding) → e.succeeds ≡ true → packet_of (encode_slot s e) ≡ encoded e
unfolding packet_of encode_slot
encode_slot-encoded s e ok =
    rw (ok, encode_slot, take_whole e.bytes (skip (length e.bytes) s.data_bytes)) refl

abbrev pub latest_of : Mailbox → Option Packet
latest_of m = if m.correction_pending then some (packet_of m.correction_slot) else none

abbrev pub waiting : Mailbox → ℕ
waiting m = m.snapshot_received - m.snapshot_sent

-- The mailbox holds what was promised, and its counters agree.
pub record Keeps (m : Mailbox) (a : Newest) : Type 0 where
  pub latest : a.latest ≡ latest_of m
  pub tick : a.tick ≡ m.snapshot_tick
  pub expected : a.expected ≡ m.snapshot_expected
  pub received : a.received ≡ m.snapshot_received
  pub sent : a.sent ≡ m.snapshot_sent
  pub queued : a.queued ≡ packets m.slots m.snapshot_sent (waiting m)
  pub sent_received : m.snapshot_sent ≤ m.snapshot_received
  pub received_expected : m.snapshot_received ≤ m.snapshot_expected
  pub expected_slots : m.snapshot_expected ≤ m.slot_count
  pub few : m.snapshot_expected ≤ max_chunks

-- A step of the mailbox and of the promise: equal answers, and the mailbox keeps the promise.
abbrev pub KeepsAfter : {A : Type 0} → Mailbox × A → Newest × A → Type 0
KeepsAfter r p = Keeps r.0 p.0 × (r.1 ≡ p.1)

-- An encoder that fails leaves a pending correction alone where it wrote nothing.
abbrev pub IsHarmless : Mailbox → Message → Encoding → Type 0
IsHarmless m Mailbox.correction e = (e.succeeds ≡ true) ⊎ (m.correction_pending ≡ false)
IsHarmless m (snapshot c) e = Unit
IsHarmless m nil_or_other e = Unit

harmless :
    (m : Mailbox) (a : Newest) (s : Slot) (succeeds : Bool)
    → a.latest ≡ latest_of m
    → succeeds ≡ false
    → (succeeds ≡ true) ⊎ (m.correction_pending ≡ false)
    → a.latest ≡ (if m.correction_pending then some (packet_of s) else none)
harmless m a s succeeds l f h = ground (arith, l, f, h)

pub put_correction-KeepsAfter :
    (m : Mailbox) (a : Newest) (e : Encoding)
    → Keeps m a
    → IsHarmless m Mailbox.correction e
    → KeepsAfter (put_correction m e) (promise_put a Mailbox.correction e)
unfolding put_correction promise_put
put_correction-KeepsAfter m a e k h =
    branches KeepsAfter e.succeeds _ _ _ _
      (λ ok. (
        record {
          latest = sym (ap some (encode_slot-encoded m.correction_slot e ok));
          tick = k.tick;
          expected = k.expected;
          received = k.received;
          sent = k.sent;
          queued = k.queued;
          sent_received = k.sent_received;
          received_expected = k.received_expected;
          expected_slots = k.expected_slots;
          few = k.few;
        },
        refl,
      ))
      (λ failed. (
        record {
          latest = harmless m a (encode_slot m.correction_slot e) e.succeeds k.latest failed h;
          tick = k.tick;
          expected = k.expected;
          received = k.received;
          sent = k.sent;
          queued = k.queued;
          sent_received = k.sent_received;
          received_expected = k.received_expected;
          expected_slots = k.expected_slots;
          few = k.few;
        },
        refl,
      ))

-- The chunk behind those that were received.
abbrev pub one_more : Newest → Encoding → Newest
one_more a e = record a { received = a.received + 1; queued = a.queued ++ (encoded e ∷ []) }

keep_chunk-stored :
    (m : Mailbox) (a : Newest) (e : Encoding)
    → Keeps m a
    → e.succeeds ≡ true
    → m.snapshot_received < m.snapshot_expected
    → Keeps (record (with_slot m e) { snapshot_received = m.snapshot_received + 1 }) (one_more a e)
unfolding with_slot
keep_chunk-stored m a e k ok room = record {
  latest = k.latest;
  tick = k.tick;
  expected = k.expected;
  received = ap (λ n. n + 1) k.received;
  sent = k.sent;
  queued =
      let n : m.snapshot_received + 1 - m.snapshot_sent ≡ suc (waiting m) =
        omega (arith, k.sent_received) in
      let s = encode_slot (slot_at m m.snapshot_received) e in
      rw (n, k.queued, sym (encode_slot-encoded (slot_at m m.snapshot_received) e ok))
        (sym (
          packets_next m.slots s m.snapshot_received m.snapshot_sent (waiting m)
            (omega (arith, k.sent_received))));
  sent_received = omega (arith, k.sent_received);
  received_expected = omega (arith, room);
  expected_slots = k.expected_slots;
  few = k.few;
}

-- A slot that is not counted does not matter.
with_slot-Keeps : (m : Mailbox) (a : Newest) (e : Encoding) → Keeps m a → Keeps (with_slot m e) a
unfolding with_slot
with_slot-Keeps m a e k = record {
  latest = k.latest;
  tick = k.tick;
  expected = k.expected;
  received = k.received;
  sent = k.sent;
  queued =
      k.queued
      ∙ sym (
          packets-insert m.slots (encode_slot (slot_at m m.snapshot_received) e) m.snapshot_received
            m.snapshot_sent (waiting m) (omega (arith, k.sent_received)));
  sent_received = k.sent_received;
  received_expected = k.received_expected;
  expected_slots = k.expected_slots;
  few = k.few;
}

pub reset_snapshot_set-Keeps :
    (m : Mailbox) (a : Newest) → a.latest ≡ latest_of m → Keeps (reset_snapshot_set m) (no_set a)
unfolding reset_snapshot_set packets
reset_snapshot_set-Keeps m a l = record {
  latest = l;
  tick = refl;
  expected = refl;
  received = refl;
  sent = refl;
  queued = refl;
  sent_received = omega arith;
  received_expected = omega arith;
  expected_slots = omega arith;
  few = omega arith;
}

pub keep_chunk-KeepsAfter :
    (m : Mailbox) (a : Newest) (c : Chunk) (e : Encoding)
    → Keeps m a
    → m.snapshot_received < m.snapshot_expected
    → KeepsAfter (keep_chunk m c e) (
        if e.succeeds
        then (one_more a e, none)
        else ((if c.index == 0 then no_set a else a), some encode_failed))
unfolding keep_chunk
keep_chunk-KeepsAfter m a c e k room =
    branches KeepsAfter e.succeeds _ _ _ _ (λ ok. (keep_chunk-stored m a e k ok room, refl))
      (λ failed. (
        branches Keeps (c.index == 0) _ _ _ _
            (λ first. reset_snapshot_set-Keeps (with_slot m e) a (with_slot-Keeps m a e k).latest)
            (λ later. with_slot-Keeps m a e k),
        refl,
      ))

-- The newest set, before its first chunk.
abbrev pub begun : Newest → Chunk → Newest
begun a c = record a { tick = c.tick; expected = c.count; received = 0; sent = 0; queued = [] }

pub begin_set-Keeps :
    (m : Mailbox) (a : Newest) (c : Chunk)
    → Keeps m a
    → c.count ≤ max_chunks
    → Keeps (begin_set m c) (begun a c)
unfolding begin_set ensure_snapshot_slots packets
begin_set-Keeps m a c k few =
    branch (λ r. Keeps r (begun a c)) (ltb m.slot_capacity c.count) _ _
      (λ small. (record {
        latest = k.latest;
        tick = refl;
        expected = refl;
        received = refl;
        sent = refl;
        queued = refl;
        sent_received = omega arith;
        received_expected = omega arith;
        expected_slots = omega arith;
        few = few;
      }))
      (λ large. record {
        latest = k.latest;
        tick = refl;
        expected = refl;
        received = refl;
        sent = refl;
        queued = refl;
        sent_received = omega arith;
        received_expected = omega arith;
        expected_slots = omega arith;
        few = few;
      })
