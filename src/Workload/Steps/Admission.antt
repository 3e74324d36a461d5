-- ===== src/Workload/Steps/Admission.antt =====
-- Admissions and capacity (scripts/workload-contract.mjs).
use aigent_place.Base.{ℕ, ◌+◌, ◌≤◌, ◌<◌, Bool, true, List, [], ◌∷◌, ◌≡◌, ◌↔◌, arith, ltb}
use aigent_place.Base.Value.{string, strict_equal, non_negative_integer}
use aigent_place.Base.Outcome.{ok}
use aigent_place.Workload.Policy.{policy_at}
use aigent_place.Workload.Windows.{classify_windows}
use aigent_place.Workload.Cadence.{Capacity, classify_capacity_target, capacity_of}
use aigent_place.Workload.State.{State}
use aigent_place.Workload.Trace.{Event, viewer_capacity, viewer_refused, viewer_admitted}
use aigent_place.Workload.Steps.{
  evaluate_step, admit_viewer, admit_viewer_of, assess_capacity, assess_capacity_of,
  viewer_capacity_of,
}

pub refuses : (n : ℕ) → (policy_at n).refuse_new_viewers ≡ ltb 4 n
unfolding policy_at
refuses n = ground arith

-- A viewer is admitted, and counted, exactly below the fifth level; a viewer who is refused changes
-- nothing.
pub admit_viewer_lem :
    (s : State) {r : State × List Event}
    → evaluate_step s admit_viewer ≡ ok r
    → (s.level < 5
        → (r.0 ≡ record s { viewers = s.viewers + 1 })
          × (r.1 ≡ viewer_admitted (s.viewers + 1) (capacity_of (s.viewers + 1) 500) ∷ []))
      × (5 ≤ s.level → r ≡ (s, viewer_refused s.viewers ∷ []))
unfolding evaluate_step admit_viewer_of classify_capacity_target non_negative_integer
admit_viewer_lem s h = ground (arith, refuses s.level)

-- A viewer assessment passes exactly when at least 500 viewers are there, at least 1200 ticks at
-- the target were counted, the overruns of the last 1200 ticks are healthy, and the level is below
-- the fifth, so that viewers are not being refused.
pub assess_capacity_viewer :
    (s : State) {sustain : ℕ} {sustained healthy refuse passed : Bool} {capacity : Capacity}
    → evaluate_step s (assess_capacity (string "viewer"))
      ≡ ok (s, viewer_capacity sustain sustained healthy refuse passed capacity ∷ [])
    → (passed ≡ true) ↔ (
        (500 ≤ s.viewers)
        × (1200 ≤ s.viewer_sustain_ticks)
        × (s.level < 5)
        × ((classify_windows s.overrun_history).pass_healthy ≡ true))
unfolding evaluate_step assess_capacity_of viewer_capacity_of classify_capacity_target
    non_negative_integer strict_equal capacity_of
assess_capacity_viewer s h = ground (arith, refuses s.level)
