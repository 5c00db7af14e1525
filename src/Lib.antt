-- ===== src/Lib.antt =====
-- Verification of the Astrahold server: the state machines and stores of its gameplay core.
--
-- The parts and how they interact. A world runs on one thread and owns every part below, so a
-- method of the source is a function from a state and its arguments to the new state and what the
-- method returns; a nil error is `none`. The siege service (internal/siege) holds the gates, and
-- the match whose phases they and the throne drive; it disables and enables blockers of the
-- navigator (internal/navigation), asks a committer to make a change of ownership durable before
-- it publishes it, and takes trusted character identities (internal/characteridentity). The
-- committer of worldd writes the ownership store (internal/siegeownership). Sessions
-- (internal/session) number the messages that frames (internal/transport) carry. The inventory
-- (internal/inventory), the learned skills (internal/learnedskills), the threat tables (internal/threat), the timed effects (internal/status),
-- the target resources (internal/targetresource), the loot catalog (internal/loot) and the ratings
-- (internal/combat/ratings.go) are used by the runtime one by one. A defeat passes through the
-- penalty (internal/deathpenalty), is scheduled for a respawn (internal/respawnpolicy), and its
-- outcome waits in an outbox (internal/deathoutcome/outbox.go) until a consumer has made it durable
-- in a journal (internal/deathoutcome/journal.go). Commands reach the runtime by a bounded queue
-- (internal/worldruntime/queue.go), and what is sent unreliably leaves it by a mailbox per session
-- (internal/netadapter/tcpudp/realtime_mailbox.go) that keeps the newest state only.
--
-- Which file models which part:
--   Common             comparable keys, texts, association lists, Boolean tests, strings.TrimSpace
--   Inventory          internal/inventory/inventory.go: new_with_weight_policy, add, remove,
--                      exchange; Slot slot.go; Equipment Equip and Unequip; Instances instance.go;
--                      Valid the invariant; StackMoves, Exchanging, Wearing, InstanceMoves and
--                      InstanceWearing what each operation does to it; History sequences of calls;
--                      Atomic errors and revisions; RoundTrips and Trade pairs of calls
--   Identity           internal/characteridentity/identity.go: Binding, New, NewTrusted, Valid
--   Scene              world.Position, the bounds, blockers and gates of internal/gameplayworld, and
--                      the blocker state of internal/navigation/gameplay.go; the order of floats
--   Siege              the types of internal/siege; Throne throne.go, with Presence and Capture;
--                      Match and Round match.go; Gates gate.go and action_target.go; Invariant,
--                      Sides, Restart and GateMoves their properties; History and Calls sequences
--                      of calls, and Cooldown what they leave of a cooldown
--   Ownership          internal/siegeownership/store.go: Load, LoadOrCreate, Commit; Commits the
--                      store alone; Recovery the store behind the match, by the committer of
--                      cmd/worldd/siege_ownership.go
--   Threat, Status, TargetResource
--                      internal/threat/threat.go, internal/status/store.go and
--                      internal/targetresource/targetresource.go
--   Transport          internal/transport/frame.go and the framing of stream.go; Bytes the
--                      big-endian numbers, RoundTrip one frame, Streams many; Envelope codec.go,
--                      Appending its two encoders
--   Session            internal/session/session.go: the registry and the sequences
--   Combat.Ratings     internal/combat/ratings.go
--   Loot               internal/loot/catalog.go; Drops what a catalog answers
--   DeathOutcome       internal/deathoutcome/outbox.go; Delivery and Retry its sequences of calls
--   DeathOutcome.Journal
--                      internal/deathoutcome/journal.go: Crc the CRC-32C of hash/crc32, Wire the
--                      records, File the frames and Journal, Open openOrInitialize and scanExisting,
--                      Write Append, RecordsAfter and the checkpoints of a journal, Checkpoints the
--                      CheckpointStore; Reading, Recovery, Torn, Clean, Opening and Reopening what
--                      opening reads, Termination that it ends, Appending and Fresh what Append
--                      writes, Crash sequences of Appends, Following RecordsAfter
--   Respawn            internal/respawnpolicy/policy.go: Validate; Service NewService and its methods;
--                      Restore restore.go; Policy what validation gives, Calls sequences of calls,
--                      Bound Schedule, Due the order of Due, Rebound Schedule and the restore
--   Penalty            internal/deathpenalty/policy.go; Once sequences of Apply and Remove
--   CommandQueue       internal/worldruntime/queue.go and step_fence.go; Order pushes and drains
--   Mailbox            internal/netadapter/tcpudp/realtime_mailbox.go; Promise what the writer is owed,
--                      Newest and Delivery one call, Runs sequences of calls
--   Skills             internal/skillcatalog/catalog.go and internal/learnedskills/set.go; Learned the
--                      loops of NewSet, Counting what they find, Canonical its sets
--   Examples           runs at concrete inputs
--
-- How the source is represented. A map of Go is an association list; a loop that ranges over one
-- runs in the order of the list. A text is its code points. Integers are natural numbers, with the
-- wrap of their width written out. A float32 is its bits: comparisons are computed on them, and
-- arithmetic is a parameter (Siege.Gates.Physics), as is the line of sight. The codec of
-- the messages is a parameter of the envelopes (Transport.Envelope.Codec). A receiver is not nil;
-- a nil match, throne, capture, scene or committer is `none`. A committer is a function of the
-- transfer, and where its store matters the store is passed along. A record file is the decoded
-- record or a decoding error, and a write ends in one of three ways: not written, written, or
-- written but not synced. A pointer to a session is a record that carries its address. A channel is
-- the list of what it holds. A journal's file is its bytes: a write that fails leaves a prefix of
-- what was written, at its offset, and so does a crash in the middle of one; sectors written out of
-- order and a truncation that is lost are not modelled. JSON is a parameter of the journal
-- (DeathOutcome.Journal.Wire.JsonCodec) and its checkpoints, as are the delay of a respawn in ticks,
-- the distance to a checkpoint, and what an encoder writes into a slot of the mailbox. Loops are
-- structural recursions over the lists that they range over; the scan of a journal alone runs on
-- fuel, one pass for each byte of the file, which is enough since every frame has bytes.
--
-- Not modelled: the world runtime that calls these parts once a tick, replication, the message
-- codecs, sockets and the gateway, account and credential storage, the loading of JSON files, the
-- commands, the random identities of NewEphemeral, the queues of a connection, the wake-up of a
-- mailbox's writer, the stores of learned skills and loadouts, the check of a respawn policy against a
-- world, and the geometry of movement. Snapshots and getters that only copy state are left out.
pub mod DeathOutcome
pub mod CommandQueue
pub mod Mailbox
pub mod Respawn
pub mod Penalty
pub mod Common
pub mod Inventory
pub mod Identity
pub mod Scene
pub mod Siege
pub mod Threat
pub mod Status
pub mod Ownership
pub mod TargetResource
pub mod Transport
pub mod Session
pub mod Combat
pub mod Loot
pub mod Examples
pub mod Skills
