-- ===== src/Replay.antt =====
-- The replay v1 contract (scripts/replay-contract.mjs): the event streams of the replay log, with their
-- cursors, their retention and what a client resumes from.
pub mod U64
pub mod Stream
pub mod Eviction
pub mod Cursor
pub mod Validation
pub mod Bytes
pub mod Draw
pub mod Seed
pub mod Steps
pub mod Examples
pub mod DrawExamples
