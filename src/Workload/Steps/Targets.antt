-- ===== src/Workload/Steps/Targets.antt =====
-- Reaching the capacity targets of scripts/workload-contract.mjs.
use aigent_place.Base.{
  ℕ, suc, ◌+◌, ◌*◌, ◌≤◌, ◌<◌, true, false, List, [], ◌∷◌, ◌≡◌, arith, ltb, if◌then◌else◌,
}
use aigent_place.Base.Lists.{length}
use aigent_place.Base.Value.{string}
use aigent_place.Base.Outcome.{ok}
use aigent_place.Base.Value.{strict_equal, non_negative_integer}
use aigent_place.Workload.Windows.{classify_windows}
use aigent_place.Workload.Cadence.{capacity_of, classify_capacity_target}
use aigent_place.Workload.State.{State, update_sustain_counters}
use aigent_place.Workload.Trace.{viewer_capacity, aigent_capacity}
use aigent_place.Workload.Boundary.{evaluate_boundary, observe_tick, observe_flags}
use aigent_place.Workload.Boundary.Recovery.{flags_of, quiet_healthy}
use aigent_place.Workload.Boundary.Convergence.{
  after-EndsIn, none_EndsIn, length-flags_of, observe_flags_recovers,
}
use aigent_place.Workload.Steps.{
  evaluate_step, assess_capacity, assess_capacity_of, viewer_capacity_of, aigent_capacity_of,
}
use aigent_place.Workload.Steps.Admission.{refuses}

tick_counts :
    (s : State) (flag : ℕ)
    → ((observe_tick s flag).0.viewers ≡ s.viewers)
      × ((observe_tick s flag).0.aigents ≡ s.aigents)
      × (500 ≤ s.viewers
          → (observe_tick s flag).0.viewer_sustain_ticks ≡ s.viewer_sustain_ticks + 1)
      × (300 ≤ s.aigents
          → (observe_tick s flag).0.aigent_sustain_ticks ≡ s.aigent_sustain_ticks + 1)
      × (s.viewers < 500 → (observe_tick s flag).0.viewer_sustain_ticks ≡ 0)
      × (s.aigents < 300 → (observe_tick s flag).0.aigent_sustain_ticks ≡ 0)
unfolding observe_tick update_sustain_counters evaluate_boundary
tick_counts s flag = ground arith

-- Over one or more ticks, the ticks at a target are counted one by one, and below the target the
-- count is 0; the numbers of viewers and aigents stay.
pub observe_flags_sustain :
    (s : State) (flag : ℕ) (flags : List ℕ)
    → ((observe_flags s (flag ∷ flags)).0.viewer_sustain_ticks
        ≡ (if ltb s.viewers 500 then 0 else s.viewer_sustain_ticks + length (flag ∷ flags)))
      × ((observe_flags s (flag ∷ flags)).0.aigent_sustain_ticks
          ≡ (if ltb s.aigents 300 then 0 else s.aigent_sustain_ticks + length (flag ∷ flags)))
      × ((observe_flags s (flag ∷ flags)).0.viewers ≡ s.viewers)
      × ((observe_flags s (flag ∷ flags)).0.aigents ≡ s.aigents)
unfolding observe_flags
observe_flags_sustain s flag [] = ground (arith, tick_counts s flag)
observe_flags_sustain s flag (next ∷ flags) =
    ground (arith, tick_counts s flag, observe_flags_sustain (observe_tick s flag).0 next flags)

viewers_assessed :
    (q : State) (ticks count : ℕ)
    → q.viewers ≡ count
    → 500 ≤ count
    → count ≤ 9007199254740991
    → q.level ≡ 0
    → (classify_windows q.overrun_history).pass_healthy ≡ true
    → q.viewer_sustain_ticks ≡ ticks
    → 1200 ≤ ticks
    → evaluate_step q (assess_capacity (string "viewer"))
      ≡ ok (q, viewer_capacity ticks true true false true (capacity_of count 500) ∷ [])
unfolding evaluate_step assess_capacity_of viewer_capacity_of classify_capacity_target
    non_negative_integer strict_equal capacity_of
viewers_assessed q ticks count same enough safe level healthy sustain long =
    ground (arith, refuses q.level)

aigents_assessed :
    (q : State) (ticks count : ℕ)
    → q.aigents ≡ count
    → 300 ≤ count
    → count ≤ 9007199254740991
    → (classify_windows q.overrun_history).pass_healthy ≡ true
    → q.aigent_sustain_ticks ≡ ticks
    → 1200 ≤ ticks
    → evaluate_step q (assess_capacity (string "aigent"))
      ≡ ok (q, aigent_capacity ticks true true true (capacity_of count 300) ∷ [])
unfolding evaluate_step assess_capacity_of aigent_capacity_of classify_capacity_target
    non_negative_integer strict_equal capacity_of
aigents_assessed q ticks count same enough safe healthy sustain long = ground arith

-- With at least 500 viewers and 300 aigents in the world, and safe integers for their numbers,
-- ticks in time, 600 for each level and 3000 or more besides, lead to both targets: the
-- assessments that follow pass.
pub observe_flags_capacity :
    (s : State) (n : ℕ)
    → 500 ≤ s.viewers
    → s.viewers ≤ 9007199254740991
    → 300 ≤ s.aigents
    → s.aigents ≤ 9007199254740991
    → 600 * (s.level + 5) ≤ suc n
    → (evaluate_step (observe_flags s (flags_of 0 (suc n))).0 (assess_capacity (string "viewer"))
        ≡ ok (
          (observe_flags s (flags_of 0 (suc n))).0,
          viewer_capacity
                (s.viewer_sustain_ticks + suc n)
                true
                true
                false
                true
                (capacity_of s.viewers 500)
              ∷ [],
        ))
      × (evaluate_step (observe_flags s (flags_of 0 (suc n))).0 (assess_capacity (string "aigent"))
          ≡ ok (
            (observe_flags s (flags_of 0 (suc n))).0,
            aigent_capacity
                  (s.aigent_sustain_ticks + suc n)
                  true
                  true
                  true
                  (capacity_of s.aigents 300)
                ∷ [],
          ))
observe_flags_capacity s n viewers safe aigents safe' enough =
    let s' = (observe_flags s (flags_of 0 (suc n))).0 in
    let counts = observe_flags_sustain s 0 (flags_of 0 n) in
    let level = observe_flags_recovers s (suc n) enough in
    let quiet = after-EndsIn 0 s 0 (suc n) (none_EndsIn 0 s.overrun_history) in
    let healthy = quiet_healthy (0 + suc n) s'.overrun_history quiet (omega arith) in
    let length = length-flags_of 0 n in
    (
      viewers_assessed s' (s.viewer_sustain_ticks + suc n) s.viewers (omega (arith, counts.2))
          viewers safe level healthy.0 (ground (arith, counts, length)) (omega arith),
      aigents_assessed s' (s.aigent_sustain_ticks + suc n) s.aigents (omega (arith, counts.3))
          aigents safe' healthy.0 (ground (arith, counts, length)) (omega arith),
    )
