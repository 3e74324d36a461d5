-- ===== src/Protocol.antt =====
-- The protocol v1 envelope contract (scripts/protocol-contract.mjs): one connection of a client with
-- the world server, as a state machine over fixture steps.
pub mod Examples
pub mod Invariant
pub mod State
pub mod Output
pub mod Calendar
pub mod Compatibility
pub mod Features
pub mod Handshake
pub mod Command
pub mod Envelope
pub mod Queue
pub mod Events
pub mod Snapshot
pub mod Transition
