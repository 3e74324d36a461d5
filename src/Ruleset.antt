-- ===== src/Ruleset.antt =====
-- The ruleset v1 contract (scripts/ruleset-contract.mjs): how the parameters of the world are voted
-- on, soaked and put in force, as a state machine over fixture steps.
pub mod Setting
pub mod Catalog
pub mod Constitution
pub mod State
pub mod Trace
pub mod Voting
pub mod Soak
pub mod Steps
pub mod Invariant
pub mod Crash
pub mod Activation
pub mod Passing
pub mod Examples
