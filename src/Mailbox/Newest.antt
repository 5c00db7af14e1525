-- ===== src/Mailbox/Newest.antt =====
-- What the mailbox promises: the latest correction first, and then the chunks of the newest
-- snapshot set, in their order.
use astrahold_server.Common.{
  ℕ, zero, suc, ◌+◌, ◌≤◌, ◌≡◌, refl, not, ◌&&◌, ◌||◌, Option, none, some, List, [], ◌∷◌, ◌++◌, ltb,
  ◌==◌, if◌then◌else◌, nat_key, Map, lookup, insert, get_or, lookup-insert, arith, ap,
}
use astrahold_server.Mailbox
use astrahold_server.Mailbox.{
  Slot, Encoding, Chunk, Message, Packet, Error, valid_chunk, max_chunks, packet_of, empty_slot,
  snapshot, nil_or_other, snapshot_order, snapshot_too_large, encode_failed, unsupported_outbound,
}

-- The packets that a writer will get, if nothing more is put.
pub record Newest : Type 0 where
  pub latest : Option Packet
  pub tick : ℕ
  pub expected : ℕ
  pub received : ℕ
  pub sent : ℕ
  pub queued : List Packet

abbrev pub encoded : Encoding → Packet
encoded e = record { bytes = e.bytes; message_type = e.message_type }

abbrev pub no_set : Newest → Newest
no_set a = record a { tick = 0; expected = 0; received = 0; sent = 0; queued = [] }

abbrev pub first_chunk : Newest → Chunk → Packet → Newest
first_chunk a c p = record a {
  tick = c.tick;
  expected = c.count;
  received = 1;
  sent = 0;
  queued = p ∷ [];
}

unfoldable pub promise_chunk : Newest → Chunk → Encoding → Newest × Option Error
promise_chunk a c e =
    if not (valid_chunk c)
    then (a, some snapshot_order)
    else if ltb max_chunks c.count
    then (a, some snapshot_too_large)
    else if c.index == 0
    then if e.succeeds then (first_chunk a c (encoded e), none) else (no_set a, some encode_failed)
    else if not (c.tick == a.tick) || not (c.count == a.expected) || not (c.index == a.received)
    then (a, some snapshot_order)
    else if e.succeeds
    then (record a { received = a.received + 1; queued = a.queued ++ (encoded e ∷ []) }, none)
    else (a, some encode_failed)

unfoldable pub promise_put : Newest → Message → Encoding → Newest × Option Error
unfolding promise_chunk
promise_put a Mailbox.correction e =
    if e.succeeds then (record a { latest = some (encoded e) }, none) else (a, some encode_failed)
promise_put a (snapshot c) e = promise_chunk a c e
promise_put a nil_or_other e = (a, some unsupported_outbound)

abbrev pub sent_one : Newest → List Packet → Newest
sent_one a rest =
    if ltb 0 a.expected && a.sent + 1 == a.expected
    then no_set a
    else record a { sent = a.sent + 1; queued = rest }

unfoldable pub promise_from : Newest → Option Packet → List Packet → Newest × Option Packet
promise_from a (some p) queued = (record a { latest = none }, some p)
promise_from a none [] = (a, none)
promise_from a none (p ∷ rest) = (sent_one a rest, some p)

unfoldable pub promise_next : Newest → Newest × Option Packet
unfolding promise_from
promise_next a = promise_from a a.latest a.queued

abbrev pub nothing_yet : Newest
nothing_yet = record { latest = none; tick = 0; expected = 0; received = 0; sent = 0; queued = [] }

-- The packets of so many slots from an index on.
unfoldable pub packets : Map ℕ Slot → ℕ → ℕ → List Packet
packets slots i zero = []
packets slots i (suc n) = packet_of (get_or empty_slot (lookup i slots)) ∷ packets slots (i + 1) n

pub packets-insert :
    (slots : Map ℕ Slot) (s : Slot) (j i n : ℕ)
    → i + n ≤ j
    → packets (insert j s slots) i n ≡ packets slots i n
unfolding packets
packets-insert slots s j i zero h = refl
packets-insert slots s j i (suc n) h =
    let same : lookup i (insert j s slots) ≡ lookup i slots =
      ground (arith, lookup-insert j i s slots, h) in
    rw (same, packets-insert slots s j (i + 1) n (ground (arith, h))) refl

-- Storing the next packet puts it behind the others.
pub packets_next :
    (slots : Map ℕ Slot) (s : Slot) (j i n : ℕ)
    → i + n ≡ j
    → packets (insert j s slots) i (suc n) ≡ packets slots i n ++ (packet_of s ∷ [])
unfolding packets
packets_next slots s j i zero h =
    let stored : lookup i (insert j s slots) ≡ some s =
      ground (arith, lookup-insert j i s slots, h) in
    rw (stored) refl
packets_next slots s j i (suc n) h =
    let same : lookup i (insert j s slots) ≡ lookup i slots =
      ground (arith, lookup-insert j i s slots, h) in
    rw (same) (
      ap (λ ps. packet_of (get_or empty_slot (lookup i slots)) ∷ ps)
        (packets_next slots s j (i + 1) n (ground (arith, h))))
