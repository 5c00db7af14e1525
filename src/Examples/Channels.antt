-- ===== src/Examples/Channels.antt =====
-- Runs of the queue of world commands and the mailbox of realtime packets
-- (internal/worldruntime/queue.go, internal/netadapter/tcpudp/realtime_mailbox.go).
use astrahold_server.Common.{ℕ, ◌≡◌, refl, inl, true, false, none, some, List, [], ◌∷◌, pos}
use astrahold_server.Transport.Bytes.{take, skip}
use astrahold_server.CommandQueue.{Queue, work, fence, new_queue, try_push, drain, drain_items}
use astrahold_server.CommandQueue.Order.{
  Call, push_call, drain_call, IsOrdered, begun, run, step, new_queue-IsOrdered,
}
use astrahold_server.Mailbox
use astrahold_server.Mailbox.{
  Encoding, Message, Mailbox, Chunk, Packet, snapshot, new_mailbox, put_correction, next_packet,
  encode_failed, valid_chunk, put_encoded,
}
use astrahold_server.Mailbox.Newest.{
  nothing_yet, promise_put, promise_chunk, promise_next, promise_from,
}
use astrahold_server.Mailbox.Runs.{
  put_call, next_call, deliver, promised, deliver-promised, next_packet-put_correction,
}

abbrev queue : Queue ℕ
queue = record { capacity = 4; items = [] }

new_queue-four : new_queue (pos 4) ≡ some queue
unfolding new_queue
new_queue-four = refl

abbrev commands : List (Call ℕ)
commands =
    push_call (work 1)
    ∷ push_call (fence 8)
    ∷ push_call (work 2)
    ∷ drain_call (pos 5)
    ∷ drain_call (pos 5)
    ∷ []

new_queue-IsOrdered_example : IsOrdered (run (begun queue) commands)
new_queue-IsOrdered_example = new_queue-IsOrdered (pos 4) queue commands new_queue-four

-- The fence ends the first batch.
run-commands :
    (run (begun queue) commands).batches
    ≡ (pos 5, record { out = 1 ∷ []; reached = some 8; left = work 2 ∷ [] })
      ∷ (pos 5, record { out = 2 ∷ []; reached = none; left = [] })
      ∷ []
unfolding run step try_push drain drain_items
run-commands = refl

abbrev encoding : List ℕ → Encoding
encoding bytes = record { bytes = bytes; message_type = 5; succeeds = true }

abbrev chunk : ℕ → ℕ → Message
chunk tick index = snapshot (record { tick = tick; index = index; count = 2; few_entities = true })

-- The set of tick 4 replaces that of tick 3 before it was sent.
abbrev puts : List Mailbox.Runs.Call
puts =
    put_call (chunk 3 0) (encoding (30 ∷ []))
    ∷ put_call (chunk 3 1) (encoding (31 ∷ []))
    ∷ next_call
    ∷ put_call (chunk 4 0) (encoding (40 ∷ []))
    ∷ put_call Mailbox.correction (encoding (9 ∷ []))
    ∷ next_call
    ∷ put_call (chunk 4 1) (encoding (41 ∷ []))
    ∷ next_call
    ∷ next_call
    ∷ next_call
    ∷ []

deliver-promised_example : deliver new_mailbox puts ≡ promised nothing_yet puts
deliver-promised_example = deliver-promised puts (tt, (tt, (tt, (inl refl, (tt, tt)))))

abbrev got : ℕ → Packet
got byte = record { bytes = byte ∷ []; message_type = 5 }

promised-puts : promised nothing_yet puts ≡ got 30 ∷ got 9 ∷ got 40 ∷ got 41 ∷ []
unfolding promised promise_put promise_chunk promise_next promise_from valid_chunk
promised-puts = refl

abbrev corrected : Mailbox
corrected = record new_mailbox {
  correction_slot = record { data_bytes = 1 ∷ 2 ∷ 3 ∷ []; size = 3; message_type = 4 };
  correction_pending = true;
}

abbrev broken_off : Encoding
broken_off = record { bytes = 7 ∷ 7 ∷ []; message_type = 4; succeeds = false }

next_packet-put_correction_example :
    ((put_correction corrected broken_off).1 ≡ some encode_failed)
    × ((next_packet (put_correction corrected broken_off).0).1
        ≡ some (record { bytes = 7 ∷ 7 ∷ 3 ∷ []; message_type = 4 }))
unfolding take skip
next_packet-put_correction_example = next_packet-put_correction corrected broken_off refl refl
