-- ===== src/DeathOutcome/Journal.antt =====
-- The journal of death outcomes (internal/deathoutcome/journal.go): the file and its frames (Crc,
-- Wire, File), OpenJournal (Open), Append, RecordsAfter and the checkpoints (Write); proofs:
-- Reading, Recovery, Appending, Following.
-- encoding/json is a parameter. A file stands for its bytes, and what happens to the calls of the
-- operating system is an argument. Offsets stay below 2 ^ 63, where int64 does not wrap.
pub mod Crc
pub mod Wire
pub mod File
pub mod Open
pub mod Write
pub mod Reading
pub mod Recovery
pub mod Torn
pub mod Opening
pub mod Reopening
pub mod Termination
pub mod Clean
pub mod Appending
pub mod Crash
pub mod Following
pub mod Checkpoints
pub mod Fresh
