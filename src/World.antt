-- ===== src/World.antt =====
-- The world v1 contract (scripts/world-contract.mjs): exact coordinates and the extents of shapes.
pub mod Rounding
pub mod Primitives
pub mod Examples
