-- ===== src/Mailbox/Runs.antt =====
-- Producers and the writer of one connection, call by call.
use astrahold_server.Common.{
  ◌≡◌, refl, true, false, Option, none, some, List, [], ◌∷◌, ◌++◌, arith, length,
}
use astrahold_server.Transport.Bytes.{take, skip}
use astrahold_server.Mailbox.{
  Encoding, Message, Mailbox, Packet, new_mailbox, put_encoded, put_correction, next_packet,
  packet_of, encode_slot, encode_failed,
}
use astrahold_server.Mailbox.Newest.{Newest, promise_put, promise_next, nothing_yet, packets}
use astrahold_server.Mailbox.Delivery.{Keeps, IsHarmless}
use astrahold_server.Mailbox.Promise.{put_encoded-KeepsAfter, next_packet-KeepsAfter}

pub data Call : Type 0 where
  put_call : Message → Encoding → Call
  next_call : Call

abbrev taken : Option Packet → List Packet
taken none = []
taken (some p) = p ∷ []

-- The packets that the writer takes from the mailbox.
unfoldable pub deliver : Mailbox → List Call → List Packet
deliver m [] = []
deliver m (put_call message e ∷ cs) = deliver (put_encoded m message e).0 cs
deliver m (next_call ∷ cs) = let r = next_packet m in let rest = deliver r.0 cs in taken r.1 ++ rest

-- The packets that the promise gives.
unfoldable pub promised : Newest → List Call → List Packet
promised a [] = []
promised a (put_call message e ∷ cs) = promised (promise_put a message e).0 cs
promised a (next_call ∷ cs) =
    let r = promise_next a in let rest = promised r.0 cs in taken r.1 ++ rest

-- No encoder writes over a pending correction and then fails.
abbrev pub AreHarmless : Mailbox → List Call → Type 0
AreHarmless m [] = Unit
AreHarmless m (put_call message e ∷ cs) =
    IsHarmless m message e × AreHarmless (put_encoded m message e).0 cs
AreHarmless m (next_call ∷ cs) = AreHarmless (next_packet m).0 cs

deliver_kept :
    (m : Mailbox) (a : Newest) (cs : List Call)
    → Keeps m a
    → AreHarmless m cs
    → deliver m cs ≡ promised a cs
unfolding deliver promised
deliver_kept m a [] k h = refl
deliver_kept m a (put_call message e ∷ cs) k h =
    deliver_kept (put_encoded m message e).0 (promise_put a message e).0 cs
      (put_encoded-KeepsAfter m a message e k h.0).0 h.1
deliver_kept m a (next_call ∷ cs) k h =
    let s = next_packet-KeepsAfter m a k in
    rw (s.1, deliver_kept (next_packet m).0 (promise_next a).0 cs s.0 h) refl

new_mailbox-Keeps : Keeps new_mailbox nothing_yet
unfolding packets
new_mailbox-Keeps = record {
  latest = refl;
  tick = refl;
  expected = refl;
  received = refl;
  sent = refl;
  queued = refl;
  sent_received = omega arith;
  received_expected = omega arith;
  expected_slots = omega arith;
  few = omega arith;
}

-- From a new mailbox, whatever is put and taken, in any order, where no encoder that fails writes
-- over a pending correction: the writer gets the latest correction first and once, and then the
-- chunks of the newest snapshot set in their order, as they were encoded, although the slots are
-- reused.
pub deliver-promised :
    (cs : List Call) → AreHarmless new_mailbox cs → deliver new_mailbox cs ≡ promised nothing_yet cs
deliver-promised cs h = deliver_kept new_mailbox nothing_yet cs new_mailbox-Keeps h

-- An encoder that fails on a correction while an older one is pending: PutEncoded answers the
-- error, and the writer's next packet has the length of the older one, but starts with the bytes
-- that the failed encoder wrote.
pub next_packet-put_correction :
    (m : Mailbox) (e : Encoding)
    → m.correction_pending ≡ true
    → e.succeeds ≡ false
    → ((put_correction m e).1 ≡ some encode_failed)
      × ((next_packet (put_correction m e).0).1
          ≡ some (record {
            bytes =
                take m.correction_slot.size
                  (e.bytes ++ skip (length e.bytes) m.correction_slot.data_bytes);
            message_type = m.correction_slot.message_type;
          }))
unfolding put_correction next_packet packet_of encode_slot
next_packet-put_correction m e p f = ground (arith, p, f)
