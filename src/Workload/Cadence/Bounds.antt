-- ===== src/Workload/Cadence/Bounds.antt =====
-- The bounds of percept rates and delivery intervals (scripts/workload-contract.mjs).
use aigent_place.Base.{ℕ, ◌≤◌, ◌<◌, none, ◌≡◌, arith}
use aigent_place.Base.Value.{Value}
use aigent_place.Base.Outcome.{ok}
use aigent_place.Workload.Policy.{policy_at}
use aigent_place.Workload.Cadence.{effective_percept_hz}

-- Whatever is configured, the rate of an aigent's percepts is between 1 and 20 Hz at every level,
-- and below the sixth level it is what it is without a floor.
pub effective_percept_hz_bounds :
    (n hz : ℕ) (configured : Value)
    → effective_percept_hz configured (policy_at n).aigent_percept_floor_hz ≡ ok hz
    → (1 ≤ hz) × (hz ≤ 20) × (n < 6 → effective_percept_hz configured none ≡ ok hz)
unfolding effective_percept_hz policy_at
effective_percept_hz_bounds n hz configured h = ground arith
