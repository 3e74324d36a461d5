-- ===== src/Workload.antt =====
-- The workload v1 contract (scripts/workload-contract.mjs): how the server degrades under load, what
-- it sends to whom, and when it is at capacity, as a state machine over fixture steps.
pub mod Inspect
pub mod Examples
pub mod Policy
pub mod Windows
pub mod Aoi
pub mod Cadence
pub mod State
pub mod Trace
pub mod Boundary
pub mod Steps
