-- ===== src/Workload/Cadence.antt =====
-- scripts/workload-contract.mjs: `effectivePerceptHz`, `classifyCadenceDelivery` and
-- `classifyCapacityTarget`, for rates in whole Hz.
pub mod Bounds
use aigent_place.Base.{
  ℕ, ◌+◌, ◌-◌, ◌*◌, min, max, Bool, Option, none, some, if◌then◌else◌, leb, ltb,
}
use aigent_place.Base.Value.{Value, number, or_else, non_negative_integer, positive_integer}
use aigent_place.Base.Outcome.{Outcome, ok, thrown, invalid_argument}

abbrev pub sim_tick_hz : ℕ
sim_tick_hz = 20

abbrev pub aigent_percept_default_hz : ℕ
aigent_percept_default_hz = 5

abbrev pub aigent_percept_max_hz : ℕ
aigent_percept_max_hz = 20

abbrev pub cadence_tolerance_ticks : ℕ
cadence_tolerance_ticks = 1

-- `Number.isFinite(v) && v > 0`, with the number
unfoldable pub positive_finite : Value → Option ℕ
positive_finite (number n) = if ltb 0 n then some n else none
positive_finite _ = none

unfoldable pub under_floor : ℕ → Option ℕ → ℕ
under_floor clamped none = clamped
under_floor clamped (some floor) = min clamped floor

unfoldable pub clamp_percept : Option ℕ → Option ℕ → Outcome ℕ
clamp_percept none floor = thrown invalid_argument
clamp_percept (some configured) floor =
    ok (under_floor (min aigent_percept_max_hz (max 1 configured)) floor)

unfoldable pub effective_percept_hz : Value → Option ℕ → Outcome ℕ
unfolding or_else positive_finite clamp_percept under_floor
effective_percept_hz configured_hz floor_hz =
    clamp_percept (positive_finite (or_else configured_hz (number aigent_percept_default_hz)))
      floor_hz

pub record Capacity : Type 0 where
  pub count : ℕ
  pub target : ℕ
  pub meets_target : Bool
  pub over_target : Bool

-- `classifyCapacityTarget` for a count that it accepts
unfoldable pub capacity_of : ℕ → ℕ → Capacity
capacity_of count target = record {
  count = count;
  target = target;
  meets_target = leb target count;
  over_target = ltb target count;
}

counted : ℕ → Option ℕ → Outcome Capacity
counted target none = thrown invalid_argument
counted target (some count) = ok (capacity_of count target)

unfoldable pub classify_capacity_target : Value → ℕ → Outcome Capacity
unfolding counted
classify_capacity_target count target = counted target (non_negative_integer count)

-- `expected_interval_ticks` is `SIM_TICK_HZ / expected_hz`, kept as the two numbers.
pub record Delivery : Type 0 where
  pub expected_hz : ℕ
  pub observed_interval_ticks : ℕ
  pub within_tolerance : Bool

-- `Math.abs(observed - SIM_TICK_HZ / expected) <= CADENCE_TOLERANCE_TICKS`, times `expected`
unfoldable pub is_within_tolerance : ℕ → ℕ → Bool
is_within_tolerance expected_hz observed =
    leb (sim_tick_hz - observed * expected_hz + (observed * expected_hz - sim_tick_hz))
      (cadence_tolerance_ticks * expected_hz)

unfoldable pub delivered : ℕ → Option ℕ → Outcome Delivery
unfolding is_within_tolerance
delivered expected_hz none = thrown invalid_argument
delivered expected_hz (some observed) = ok (record {
  expected_hz = expected_hz;
  observed_interval_ticks = observed;
  within_tolerance = is_within_tolerance expected_hz observed;
})

unfoldable pub classify_cadence_delivery : ℕ → Value → Outcome Delivery
unfolding delivered
classify_cadence_delivery expected_hz observed =
    if ltb 0 expected_hz
    then delivered expected_hz (positive_integer observed)
    else thrown invalid_argument
