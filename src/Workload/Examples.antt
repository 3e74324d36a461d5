-- ===== src/Workload/Examples.antt =====
-- The workload contract on concrete inputs.
use aigent_place.Base.{
  ℕ, ◌+◌, ◌≤◌, ◌<◌, ◌/◌, ◌%◌, true, false, none, some, List, [], ◌∷◌, ◌≡◌, refl, arith, leb, min,
}
use aigent_place.Base.Lists.{length, sum, drop, every, element_or}
use aigent_place.Base.Value.{
  undefined, number, string, or_else, non_negative_integer, truthy, strict_equal,
}
use aigent_place.Base.Outcome.{ok}
use aigent_place.Workload.Policy.{policy_at, percept_floor, advance}
use aigent_place.Workload.Policy.Ladder.{deepest}
use aigent_place.Workload.Windows.{classify_windows, window_rate, is_below}
use aigent_place.Base.Int.{pos, negsuc}
use aigent_place.Workload.Aoi.{Entity, entity}
use aigent_place.Workload.Cadence.{
  effective_percept_hz, capacity_of, classify_capacity_target, positive_finite, clamp_percept,
  under_floor,
}
use aigent_place.Workload.State.{
  State, Initial, integer, no_integer, origin, normalized_state, count_or_zero, focus_or_origin,
  history_or_empty,
}
use aigent_place.Workload.Trace
use aigent_place.Workload.Trace.{
  Event, viewer_capacity, aigent_capacity, viewer_admitted, viewer_refused,
}
use aigent_place.Workload.Boundary.{observe_flags}
use aigent_place.Workload.Boundary.Recovery.{flags_of}
use aigent_place.Workload.Boundary.Levels.{observe_flags_near}
use aigent_place.Workload.Boundary.Convergence.{observe_flags_recovers, observe_flags_degrades}
use aigent_place.Workload.Steps.{
  evaluate_step, evaluate_scenario, run, admit_viewer, assess_capacity, observe_queue,
  admit_viewer_of, assess_capacity_of, viewer_capacity_of, queue_of, observe_bytes,
}
use aigent_place.Workload.Steps.Validity.{IsValid}
use aigent_place.Workload.Steps.Runs.{evaluate_scenario-IsValid}
use aigent_place.Workload.Steps.Overflow.{IsOverLimit, observations, run_over}
use aigent_place.Workload.Steps.Targets.{observe_flags_capacity}
use aigent_place.Workload.Policy.Ladder.{IsDegraded, policy_at-IsDegraded}

-- A crowded world at the second level.
abbrev crowded : State
crowded = record {
  tick = 599;
  level = 2;
  overrun_history = 1 ∷ 0 ∷ [];
  viewers = 500;
  aigents = 300;
  viewer_sustain_ticks = 7;
  aigent_sustain_ticks = 0;
  focus = origin;
  queue_over_limit_ticks = 38;
  connection_closed = false;
}

observe_flags_recovers_example : (observe_flags crowded (flags_of 0 4200)).0.level ≡ 0
observe_flags_recovers_example = observe_flags_recovers crowded 4200 (omega arith)

observe_flags_degrades_example :
    policy_at (observe_flags crowded (flags_of 1 5400)).0.level ≡ deepest
observe_flags_degrades_example = observe_flags_degrades crowded 5400 (omega arith)

observe_flags_near_example :
    ((observe_flags crowded (1 ∷ 0 ∷ [])).0.level
      ≤ 2 + (599 % 600 + length {A = ℕ} (1 ∷ 0 ∷ [])) / 600)
    × (2
        ≤ (observe_flags crowded (1 ∷ 0 ∷ [])).0.level
          + (599 % 600 + length {A = ℕ} (1 ∷ 0 ∷ [])) / 600)
observe_flags_near_example = observe_flags_near crowded (1 ∷ 0 ∷ [])

-- Three entities, two of them at the same distance.
abbrev scene : List Entity
scene =
    entity (some 7) (record { x = pos 3; y = pos 0; z = pos 0 })
    ∷ entity (some 9) (record { x = pos 0; y = pos 1; z = pos 0 })
    ∷ entity (some 2) (record { x = pos 0; y = negsuc 0; z = pos 0 })
    ∷ []

abbrev fresh : Initial
fresh = record {
  tick = no_integer;
  level = integer 1;
  overrun_history = none;
  viewers = integer 499;
  aigents = no_integer;
  viewer_sustain_ticks = no_integer;
  aigent_sustain_ticks = no_integer;
  focus = none;
  queue_over_limit_ticks = integer 39;
  connection_closed = undefined;
}

-- One viewer more, and the observation that disconnects.
abbrev fresh_end : State
fresh_end = record {
  tick = 0;
  level = 1;
  overrun_history = [];
  viewers = 500;
  aigents = 0;
  viewer_sustain_ticks = 0;
  aigent_sustain_ticks = 0;
  focus = origin;
  queue_over_limit_ticks = 40;
  connection_closed = true;
}

abbrev fresh_trace : List Event
fresh_trace =
    viewer_admitted 500 (capacity_of 500 500)
    ∷ Trace.queue_observation 300000 true 40 true true
    ∷ []

fresh_run :
    evaluate_scenario fresh (admit_viewer ∷ observe_queue (number 300000) ∷ [])
    ≡ ok (fresh_end, fresh_trace)
unfolding evaluate_scenario normalized_state count_or_zero non_negative_integer truthy every
    focus_or_origin history_or_empty run evaluate_step admit_viewer_of policy_at percept_floor
    advance element_or classify_capacity_target queue_of observe_bytes capacity_of
fresh_run = refl

fresh_level : count_or_zero fresh.level ≤ 8
unfolding count_or_zero
fresh_level = omega arith

fresh_queue : count_or_zero fresh.queue_over_limit_ticks < 40
unfolding count_or_zero
fresh_queue = omega arith

evaluate_scenario-IsValid_example : IsValid fresh_end
evaluate_scenario-IsValid_example =
    evaluate_scenario-IsValid fresh (admit_viewer ∷ observe_queue (number 300000) ∷ []) fresh_level
      fresh_queue fresh_run

observe_flags_capacity_example :
    (evaluate_step (observe_flags crowded (flags_of 0 4200)).0 (assess_capacity (string "viewer"))
      ≡ ok (
        (observe_flags crowded (flags_of 0 4200)).0,
        viewer_capacity (7 + 4200) true true false true (capacity_of 500 500) ∷ [],
      ))
    × (evaluate_step (observe_flags crowded (flags_of 0 4200)).0 (assess_capacity (string "aigent"))
        ≡ ok (
          (observe_flags crowded (flags_of 0 4200)).0,
          aigent_capacity (0 + 4200) true true true (capacity_of 300 300) ∷ [],
        ))
observe_flags_capacity_example =
    observe_flags_capacity crowded 4199 (omega arith) (omega arith) (omega arith) (omega arith)
      (omega arith)

policy_at-IsDegraded_example : IsDegraded (policy_at 3) (policy_at (3 + 2))
policy_at-IsDegraded_example = policy_at-IsDegraded 3 2

-- A history of 1200 ticks with one overrun.
abbrev healthy_history : List ℕ
healthy_history = 1 ∷ flags_of 0 1199

healthy_example : (classify_windows healthy_history).pass_healthy ≡ true
unfolding classify_windows window_rate is_below sum drop
healthy_example = refl

bytes_over : IsOverLimit 300000
bytes_over = omega arith

run_over_example :
    (r : State × List Event) × (run crowded [] (observations (300000 ∷ 300000 ∷ 300000 ∷ []))
      ≡ ok r)
    × (r.0.connection_closed ≡ leb 40 (38 + length {A = ℕ} (300000 ∷ 300000 ∷ 300000 ∷ [])))
    × (r.0.queue_over_limit_ticks ≡ min 40 (38 + length {A = ℕ} (300000 ∷ 300000 ∷ 300000 ∷ [])))
run_over_example =
    run_over crowded [] (300000 ∷ 300000 ∷ 300000 ∷ []) (bytes_over, (bytes_over, (bytes_over, tt)))
      refl (omega arith)

abbrev crowded_admitted : State
crowded_admitted = record crowded { viewers = 501 }

admitted :
    evaluate_step crowded admit_viewer
    ≡ ok (crowded_admitted, viewer_admitted 501 (capacity_of 501 500) ∷ [])
unfolding evaluate_step admit_viewer_of policy_at percept_floor advance element_or
    classify_capacity_target non_negative_integer capacity_of
admitted = refl

floored : effective_percept_hz (number 30) (policy_at 7).aigent_percept_floor_hz ≡ ok 2
unfolding effective_percept_hz policy_at percept_floor advance element_or or_else positive_finite
    clamp_percept under_floor
floored = refl

-- A world at its viewer target.
abbrev full : State
full = record crowded { viewer_sustain_ticks = 1200; overrun_history = healthy_history }

full_assessed :
    evaluate_step full (assess_capacity (string "viewer"))
    ≡ ok (full, viewer_capacity 1200 true true false true (capacity_of 500 500) ∷ [])
unfolding evaluate_step assess_capacity_of viewer_capacity_of policy_at percept_floor advance
    element_or classify_capacity_target non_negative_integer capacity_of strict_equal
    classify_windows window_rate is_below sum drop
full_assessed = refl
