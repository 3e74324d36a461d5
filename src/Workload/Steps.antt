-- ===== src/Workload/Steps.antt =====
-- scripts/workload-contract.mjs: the steps of `evaluateScenario`. A thrown error leaves no result.
pub mod Targets
pub mod Validity
pub mod Runs
pub mod Admission
pub mod Overflow
use aigent_place.Base.{
  ℕ, String, ◌+◌, not, ◌&&◌, Option, none, some, List, [], ◌∷◌, ◌++◌, map, if◌then◌else◌, ltb, leb,
}
use aigent_place.Base.Value.{
  Value, undefined, number, string, non_negative_integer, or_else, positive_integer, strict_equal,
}
use aigent_place.Base.Outcome.{Outcome, ok, thrown, invalid_argument, unsupported_operation, ◌>>=◌}
use aigent_place.Protocol.Queue.{queue_limit_bytes, overflow_tick_observations}
use aigent_place.Workload.Policy.{policy_at}
use aigent_place.Workload.Windows.{classify_windows, pass_window_ticks}
use aigent_place.Workload.Aoi.{Entity, aoi_cap_for_role, truncate_aoi}
use aigent_place.Workload.Cadence.{
  aigent_percept_default_hz, effective_percept_hz, Capacity, classify_capacity_target,
  classify_cadence_delivery,
}
use aigent_place.Workload.State.{
  State, Initial, normalized_state, flag_of, concurrent_viewers_target, concurrent_aigents_target,
}
use aigent_place.Workload.Boundary.{observe_flags, pattern_from}
use aigent_place.Workload.Trace
use aigent_place.Workload.Trace.{Event}

-- A fixture step by its `op`, its fields unchecked. `unknown` is any other operation, `no_op` a step
-- without an operation; `none` is a field that is no array, and absent `entities` are an empty one.
pub data Step : Type 0 where
  observe_ticks : (overruns : Option (List Value)) → Step
  observe_ticks_pattern : (count overrun_every : Value) → Step
  set_counts : (viewers aigents : Value) → Step
  admit_viewer admit_aigent : Step
  assess_capacity : (role : Value) → Step
  truncate_aoi_step : (role : Value) (entities : Option (List Entity)) → Step
  effective_percept : (configured_hz : Value) → Step
  assess_cadence : (role configured_hz observed_interval_ticks : Value) → Step
  observe_queue : (bytes : Value) → Step
  inspect_policy : Step
  unknown : String → Step
  no_op : Step

abbrev pub Result : Type 0
Result = Outcome (State × List Event)

unfoldable pub ticks_of : State → Option (List Value) → Result
ticks_of s none = thrown invalid_argument
ticks_of s (some []) = thrown invalid_argument
ticks_of s (some (flag ∷ flags)) = ok (observe_flags s (map flag_of (flag ∷ flags)))

unfoldable pub pattern_of : State → Option ℕ → Option ℕ → Result
pattern_of s (some count) (some overrun_every) =
    ok (observe_flags s (pattern_from 0 count overrun_every))
pattern_of s _ _ = thrown invalid_argument

-- A count that is `undefined` stays as it is.
unfoldable pub checked_count : ℕ → Value → Outcome ℕ
checked_count old undefined = ok old
checked_count old (number n) = elim (non_negative_integer (number n)) [
  | none ↦ thrown invalid_argument
  | some m ↦ ok m
]
checked_count old _ = thrown invalid_argument

unfoldable pub set_counts_of : State → Value → Value → Result
unfolding checked_count
set_counts_of s viewers aigents = checked_count s.viewers viewers >>= λ v.
    checked_count s.aigents aigents >>= λ a. ok (record s { viewers = v; aigents = a }, [])

unfoldable pub admit_viewer_of : State → Result
admit_viewer_of s =
    if (policy_at s.level).refuse_new_viewers
    then ok (s, Trace.viewer_refused s.viewers ∷ [])
    else (classify_capacity_target (number (s.viewers + 1)) concurrent_viewers_target
        >>= λ capacity. ok (
          record s { viewers = s.viewers + 1 },
          Trace.viewer_admitted (s.viewers + 1) capacity ∷ [],
        ))

unfoldable pub admit_aigent_of : State → Result
admit_aigent_of s =
    classify_capacity_target (number (s.aigents + 1)) concurrent_aigents_target >>= λ capacity.
    ok (record s { aigents = s.aigents + 1 }, Trace.aigent_admitted (s.aigents + 1) capacity ∷ [])

unfoldable pub viewer_capacity_of : State → Capacity → Event
viewer_capacity_of s capacity =
    let healthy = (classify_windows s.overrun_history).pass_healthy in
    let refuse = (policy_at s.level).refuse_new_viewers in
    let sustained = leb pass_window_ticks s.viewer_sustain_ticks in
    Trace.viewer_capacity s.viewer_sustain_ticks sustained healthy refuse
      (capacity.meets_target && sustained && healthy && not refuse) capacity

unfoldable pub aigent_capacity_of : State → Capacity → Event
aigent_capacity_of s capacity =
    let healthy = (classify_windows s.overrun_history).pass_healthy in
    let sustained = leb pass_window_ticks s.aigent_sustain_ticks in
    Trace.aigent_capacity s.aigent_sustain_ticks sustained healthy
      (capacity.meets_target && sustained && healthy) capacity

unfoldable pub assess_capacity_of : State → Value → Result
assess_capacity_of s role =
    if strict_equal role (string "viewer")
    then (classify_capacity_target (number s.viewers) concurrent_viewers_target >>= λ capacity.
        ok (s, viewer_capacity_of s capacity ∷ []))
    else if strict_equal role (string "aigent")
    then (classify_capacity_target (number s.aigents) concurrent_aigents_target >>= λ capacity.
        ok (s, aigent_capacity_of s capacity ∷ []))
    else thrown invalid_argument

unfoldable pub truncate_aoi_of : State → Value → Option (List Entity) → Result
truncate_aoi_of s role entities =
    aoi_cap_for_role (policy_at s.level) (or_else role (string "viewer")) >>= λ cap.
    truncate_aoi entities s.focus (number cap) >>= λ kept.
    ok (s, Trace.aoi_truncated (or_else role (string "viewer")) cap kept ∷ [])

unfoldable pub effective_percept_of : State → Value → Result
effective_percept_of s configured_hz =
    let floor = (policy_at s.level).aigent_percept_floor_hz in
    effective_percept_hz configured_hz floor >>= λ hz. ok (
      s,
      Trace.effective_percept (or_else configured_hz (number aigent_percept_default_hz)) floor hz
          ∷ [],
    )

unfoldable pub expected_hz : State → Value → Value → Outcome ℕ
expected_hz s role configured_hz =
    if strict_equal role (string "viewer")
    then ok (policy_at s.level).viewer_cadence_hz
    else if strict_equal role (string "aigent")
    then effective_percept_hz configured_hz (policy_at s.level).aigent_percept_floor_hz
    else thrown invalid_argument

unfoldable pub assess_cadence_of : State → Value → Value → Value → Result
unfolding expected_hz
assess_cadence_of s role configured_hz observed = expected_hz s role configured_hz >>= λ expected.
    classify_cadence_delivery expected observed >>= λ delivery.
    ok (s, Trace.cadence_assessment role delivery ∷ [])

-- An observation of an open connection's queue.
unfoldable pub observe_bytes : State → ℕ → State × List Event
observe_bytes s bytes =
    let over = ltb queue_limit_bytes bytes in
    let ticks = if over then s.queue_over_limit_ticks + 1 else 0 in
    let disconnected = leb overflow_tick_observations ticks in
    (
      record s { queue_over_limit_ticks = ticks; connection_closed = disconnected },
      Trace.queue_observation bytes over ticks over disconnected ∷ [],
    )

unfoldable pub queue_of : State → Option ℕ → Result
queue_of s none = thrown invalid_argument
queue_of s (some bytes) =
    if s.connection_closed then ok (s, Trace.queue_ignored ∷ []) else ok (observe_bytes s bytes)

-- The `switch` on `step.op`.
unfoldable pub evaluate_step : State → Step → Result
evaluate_step s (observe_ticks overruns) = ticks_of s overruns
evaluate_step s (observe_ticks_pattern count overrun_every) =
    pattern_of s (positive_integer count) (positive_integer overrun_every)
evaluate_step s (set_counts viewers aigents) = set_counts_of s viewers aigents
evaluate_step s admit_viewer = admit_viewer_of s
evaluate_step s admit_aigent = admit_aigent_of s
evaluate_step s (assess_capacity role) = assess_capacity_of s role
evaluate_step s (truncate_aoi_step role entities) = truncate_aoi_of s role entities
evaluate_step s (effective_percept configured_hz) = effective_percept_of s configured_hz
evaluate_step s (assess_cadence role configured_hz observed) =
    assess_cadence_of s role configured_hz observed
evaluate_step s (observe_queue bytes) = queue_of s (non_negative_integer bytes)
evaluate_step s inspect_policy = ok (s, Trace.policy (policy_at s.level) ∷ [])
evaluate_step s (unknown op) = thrown (unsupported_operation op)
evaluate_step s no_op = thrown invalid_argument

-- The loop over the steps, with the trace so far.
unfoldable pub run : State → List Event → List Step → Result
run s trace [] = ok (s, trace)
run s trace (step ∷ steps) =
    evaluate_step s step >>= λ result. run result.0 (trace ++ result.1) steps

unfoldable pub evaluate_scenario : Initial → List Step → Result
unfolding run
evaluate_scenario initial steps = normalized_state initial >>= λ s. run s [] steps
