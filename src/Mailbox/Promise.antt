-- ===== src/Mailbox/Promise.antt =====
-- Whatever is put and taken, a writer gets the packets that the promise gives.
use astrahold_server.Common.{
  ℕ, zero, suc, ◌+◌, ◌-◌, ◌≤◌, ◌<◌, ◌≡◌, refl, inl, inr, Bool, true, false, not, ◌&&◌, ◌||◌, none,
  some, List, ltb, leb, ◌==◌, if◌then◌else◌, arith, ap, sym, subst, Bool-cases, branch, branches,
}
use astrahold_server.Mailbox
use astrahold_server.Mailbox.{
  Encoding, Chunk, Message, Mailbox, Packet, Error, valid_chunk, max_chunks, packet_of, slot_at,
  new_mailbox, snapshot, nil_or_other, snapshot_order, snapshot_too_large, encode_failed,
  keep_chunk, store_chunk, begin_set, ensure_snapshot_slots, put_snapshot, put_encoded, next_packet,
  after_sent,
}
use astrahold_server.Mailbox.Newest.{
  Newest, encoded, no_set, first_chunk, promise_chunk, promise_put, promise_from, promise_next,
  sent_one, packets,
}
use astrahold_server.Mailbox.Delivery.{
  Keeps, KeepsAfter, IsHarmless, waiting, latest_of, begun, one_more, keep_chunk-KeepsAfter,
  begin_set-Keeps, put_correction-KeepsAfter, reset_snapshot_set-Keeps,
}

begin_set-slots :
    (m : Mailbox) (c : Chunk)
    → ((begin_set m c).slot_count ≡ c.count)
      × ((begin_set m c).snapshot_received ≡ 0)
      × ((begin_set m c).snapshot_expected ≡ c.count)
unfolding begin_set ensure_snapshot_slots
begin_set-slots m c =
    branch
      (λ (r : Mailbox).
        (r.slot_count ≡ c.count) × (r.snapshot_received ≡ 0) × (r.snapshot_expected ≡ c.count))
      (ltb m.slot_capacity c.count) _ _ (λ small. (refl, refl, refl)) (λ large. (refl, refl, refl))

store_chunk-keeps :
    (m : Mailbox) (c : Chunk) (e : Encoding)
    → c.index ≡ m.snapshot_received
    → m.snapshot_received < m.slot_count
    → store_chunk m c e ≡ keep_chunk m c e
unfolding store_chunk
store_chunk-keeps m c e i room =
    let passes : (not (c.index == m.snapshot_received) || leb m.slot_count m.snapshot_received)
        ≡ false =
      ground (arith, i, room) in
    rw (passes) refl

first_chunk-KeepsAfter :
    (m : Mailbox) (a : Newest) (c : Chunk) (e : Encoding)
    → Keeps m a
    → (c.index == 0) ≡ true
    → 0 < c.count
    → c.count ≤ max_chunks
    → KeepsAfter
        (store_chunk (begin_set m c) c e)
        (if e.succeeds then (first_chunk a c (encoded e), none) else (no_set a, some encode_failed))
first_chunk-KeepsAfter m a c e k i n few =
    let b = begin_set-slots m c in
    let kept =
      keep_chunk-KeepsAfter (begin_set m c) (begun a c) c e (begin_set-Keeps m a c k few)
        (ground (arith, b, n)) in
    subst
      (λ r. KeepsAfter r (
        if e.succeeds then (first_chunk a c (encoded e), none) else (no_set a, some encode_failed)))
      (sym (store_chunk-keeps (begin_set m c) c e (ground (arith, b, i)) (ground (arith, b, n))))
      (rw (i) at kept)

later_chunk-KeepsAfter :
    (m : Mailbox) (a : Newest) (c : Chunk) (e : Encoding)
    → Keeps m a
    → (c.index == 0) ≡ false
    → c.index ≡ m.snapshot_received
    → c.index < c.count
    → c.count ≡ m.snapshot_expected
    → KeepsAfter
        (store_chunk m c e)
        (if e.succeeds then (one_more a e, none) else (a, some encode_failed))
later_chunk-KeepsAfter m a c e k n i inside x =
    let kept = keep_chunk-KeepsAfter m a c e k (ground (arith, i, inside, x)) in
    subst (λ r. KeepsAfter r (if e.succeeds then (one_more a e, none) else (a, some encode_failed)))
      (sym (store_chunk-keeps m c e i (ground (arith, k.expected_slots, i, inside, x))))
      (rw (n) at kept)

valid_chunk_lem : (c : Chunk) → valid_chunk c ≡ true → c.index < c.count
unfolding valid_chunk
valid_chunk_lem c v = ground (arith, v)

-- The three tests of a chunk that goes on with the set, on the mailbox and on the promise.
abbrev off : Chunk → ℕ → ℕ → ℕ → Bool
off c tick count received =
    not (c.tick == tick) || not (c.count == count) || not (c.index == received)

same_tests :
    (m : Mailbox) (a : Newest) (c : Chunk)
    → Keeps m a
    → off c m.snapshot_tick m.snapshot_expected m.snapshot_received
      ≡ off c a.tick a.expected a.received
same_tests m a c k = ground (arith, k.tick, k.expected, k.received)

goes_on_KeepsAfter :
    (m : Mailbox) (a : Newest) (c : Chunk) (e : Encoding)
    → Keeps m a
    → (c.index == 0) ≡ false
    → c.index < c.count
    → KeepsAfter
        (if off c m.snapshot_tick m.snapshot_expected m.snapshot_received
          then (m, some snapshot_order)
          else store_chunk m c e)
        (if off c a.tick a.expected a.received
          then (a, some snapshot_order)
          else (if e.succeeds then (one_more a e, none) else (a, some encode_failed)))
goes_on_KeepsAfter m a c e k later inside =
    subst
      (λ b.
        KeepsAfter
          (if off c m.snapshot_tick m.snapshot_expected m.snapshot_received
            then (m, some snapshot_order)
            else store_chunk m c e)
          (if b
            then (a, some snapshot_order)
            else (if e.succeeds then (one_more a e, none) else (a, some encode_failed))))
      (same_tests m a c k)
      (branches KeepsAfter (off c m.snapshot_tick m.snapshot_expected m.snapshot_received) _ _ _ _
        (λ bad. (k, refl))
        (λ good.
          later_chunk-KeepsAfter m a c e k later (ground (arith, good)) inside
            (ground (arith, good))))

put_snapshot-KeepsAfter :
    (m : Mailbox) (a : Newest) (c : Chunk) (e : Encoding)
    → Keeps m a
    → KeepsAfter (put_snapshot m c e) (promise_chunk a c e)
unfolding put_snapshot promise_chunk
put_snapshot-KeepsAfter m a c e k =
    branches KeepsAfter (not (valid_chunk c)) _ _ _ _ (λ bad. (k, refl))
      (λ good.
        branches KeepsAfter (ltb max_chunks c.count) _ _ _ _ (λ large. (k, refl))
          (λ small.
            branches KeepsAfter (c.index == 0) _ _ _ _
              (λ first.
                first_chunk-KeepsAfter m a c e k first (ground (arith, valid_chunk_lem c, good))
                  (ground (arith, small)))
              (λ later.
                goes_on_KeepsAfter m a c e k later (valid_chunk_lem c (ground (arith, good))))))

pub put_encoded-KeepsAfter :
    (m : Mailbox) (a : Newest) (message : Message) (e : Encoding)
    → Keeps m a
    → IsHarmless m message e
    → KeepsAfter (put_encoded m message e) (promise_put a message e)
unfolding put_encoded promise_put
put_encoded-KeepsAfter m a Mailbox.correction e k h = put_correction-KeepsAfter m a e k h
put_encoded-KeepsAfter m a (snapshot c) e k h = put_snapshot-KeepsAfter m a c e k
put_encoded-KeepsAfter m a nil_or_other e k h = (k, refl)

-- The end of the set, or the next chunk of it.
after_sent-Keeps :
    (m : Mailbox) (a : Newest) (rest : List Packet)
    → Keeps m a
    → m.snapshot_sent < m.snapshot_received
    → rest ≡ packets m.slots (m.snapshot_sent + 1) (m.snapshot_received - (m.snapshot_sent + 1))
    → Keeps (after_sent (record m { snapshot_sent = m.snapshot_sent + 1 })) (sent_one a rest)
unfolding after_sent
after_sent-Keeps m a rest k more q =
    let same : (ltb 0 m.snapshot_expected && (m.snapshot_sent + 1) == m.snapshot_expected)
        ≡ (ltb 0 a.expected && (a.sent + 1) == a.expected) =
      ground (arith, k.expected, k.sent) in
    let sent = record m { snapshot_sent = m.snapshot_sent + 1 } in
    subst
      (λ b.
        Keeps (after_sent sent)
          (if b then no_set a else record a { sent = a.sent + 1; queued = rest }))
      same
      (branches Keeps (ltb 0 m.snapshot_expected && (m.snapshot_sent + 1) == m.snapshot_expected) _
        _ _ _ (λ ends. reset_snapshot_set-Keeps sent a k.latest)
        (λ goes_on. record {
          latest = k.latest;
          tick = k.tick;
          expected = k.expected;
          received = k.received;
          sent = ap (λ n. n + 1) k.sent;
          queued = q;
          sent_received = omega (arith, more);
          received_expected = k.received_expected;
          expected_slots = k.expected_slots;
          few = k.few;
        }))

-- The next chunk of the set, where one waits.
next_chunk-KeepsAfter :
    (m : Mailbox) (a : Newest)
    → Keeps m a
    → KeepsAfter
        (if ltb m.snapshot_sent m.snapshot_received
          then (
            after_sent (record m { snapshot_sent = m.snapshot_sent + 1 }),
            some (packet_of (slot_at m m.snapshot_sent)),
          )
          else (m, none))
        (promise_from a none (packets m.slots m.snapshot_sent (waiting m)))
unfolding promise_from packets
next_chunk-KeepsAfter m a k = elim (Bool-cases (ltb m.snapshot_sent m.snapshot_received)) [
  | inl more ↦
      let left : waiting m ≡ suc (m.snapshot_received - (m.snapshot_sent + 1)) =
        ground (arith, more) in
      rw (more, left) (after_sent-Keeps m a _ k (ground (arith, more)) refl, refl)
  | inr done ↦ let left : waiting m ≡ zero = ground (arith, done) in rw (done, left) (k, refl)
]

pub next_packet-KeepsAfter :
    (m : Mailbox) (a : Newest) → Keeps m a → KeepsAfter (next_packet m) (promise_next a)
unfolding next_packet promise_next
next_packet-KeepsAfter m a k =
    subst (λ l. KeepsAfter (next_packet m) (promise_from a l a.queued)) (sym k.latest)
      (subst (λ q. KeepsAfter (next_packet m) (promise_from a (latest_of m) q)) (sym k.queued)
        (branches
          (λ r l. KeepsAfter r (promise_from a l (packets m.slots m.snapshot_sent (waiting m))))
          m.correction_pending _ _ _ _
          (λ pending. (
            record {
              latest = refl;
              tick = k.tick;
              expected = k.expected;
              received = k.received;
              sent = k.sent;
              queued = k.queued;
              sent_received = k.sent_received;
              received_expected = k.received_expected;
              expected_slots = k.expected_slots;
              few = k.few;
            },
            refl,
          ))
          (λ nothing_pending. next_chunk-KeepsAfter m a k)))
