-- ===== src/Workload/Policy.antt =====
-- scripts/workload-contract.mjs: the degradation ladder, `maxDegradationLevel` and `policyFromLevel`.
pub mod Ladder
use aigent_place.Base.{
  ℕ, ◌+◌, ◌-◌, min, Bool, Option, none, some, List, [], ◌∷◌, if◌then◌else◌, ltb,
}
use aigent_place.Base.Lists.{length, element_or}
use aigent_place.Base.Value.{Value, non_negative_integer}
use aigent_place.Base.Outcome.{Outcome, ok, thrown, invalid_argument}

abbrev pub viewer_cadence_steps_hz : List ℕ
viewer_cadence_steps_hz = 10 ∷ 5 ∷ 2 ∷ []

abbrev pub viewer_aoi_steps : List ℕ
viewer_aoi_steps = 100 ∷ 50 ∷ 25 ∷ []

abbrev pub aigent_percept_floor_steps_hz : List ℕ
aigent_percept_floor_steps_hz = 5 ∷ 2 ∷ 1 ∷ []

abbrev pub max_degradation_level : ℕ
max_degradation_level =
    length viewer_cadence_steps_hz
    - 1
    + (length viewer_aoi_steps - 1)
    + 1
    + length aigent_percept_floor_steps_hz

pub record Policy : Type 0 where
  pub level : ℕ
  pub viewer_cadence_hz : ℕ
  pub viewer_aoi_cap : ℕ
  pub refuse_new_viewers : Bool
  pub aigent_percept_floor_hz : Option ℕ

-- `if (remaining > 0)` the smaller of what remains and the steps of the table; the index stays 0
-- otherwise.
unfoldable pub advance : ℕ → ℕ → ℕ
advance remaining steps = if ltb 0 remaining then min remaining steps else 0

-- The floor stays `null` until a step is left for it. Every index here is within its table.
unfoldable pub percept_floor : ℕ → Option ℕ
unfolding element_or
percept_floor remaining =
    if ltb 0 remaining
    then some (
        element_or 0 aigent_percept_floor_steps_hz
          (min remaining (length aigent_percept_floor_steps_hz) - 1))
    else none

-- `policyFromLevel` for a level that it accepts
unfoldable pub policy_at : ℕ → Policy
unfolding advance percept_floor element_or
policy_at level =
    let clamped = min max_degradation_level level in
    let cadence_index = advance clamped (length viewer_cadence_steps_hz - 1) in
    let after_cadence = clamped - cadence_index in
    let aoi_index = advance after_cadence (length viewer_aoi_steps - 1) in
    let after_aoi = after_cadence - aoi_index in
    let refuse = ltb 0 after_aoi in
    let after_refusal = if refuse then after_aoi - 1 else after_aoi in
    record {
      level = clamped;
      viewer_cadence_hz = element_or 0 viewer_cadence_steps_hz cadence_index;
      viewer_aoi_cap = element_or 0 viewer_aoi_steps aoi_index;
      refuse_new_viewers = refuse;
      aigent_percept_floor_hz = percept_floor after_refusal;
    }

policy_of : Option ℕ → Outcome Policy
policy_of none = thrown invalid_argument
policy_of (some level) = ok (policy_at level)

unfoldable pub policy_from_level : Value → Outcome Policy
unfolding policy_of
policy_from_level level = policy_of (non_negative_integer level)
