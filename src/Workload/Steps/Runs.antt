-- ===== src/Workload/Steps/Runs.antt =====
-- Every step of scripts/workload-contract.mjs keeps a state valid, and so does a scenario.
use aigent_place.Base.{
  ℕ, ◌+◌, ◌≤◌, ◌<◌, Option, none, some, List, [], ◌∷◌, ◌++◌, map, ◌≡◌, inl, inr, arith, ap,
  Bool-cases,
}
use mathlib.Core.Path.{subst}
use aigent_place.Base.Value.{
  Value, number, string, strict_equal, or_else, positive_integer, non_negative_integer,
}
use aigent_place.Base.Outcome.{Outcome, ok, thrown, ◌>>=◌, chain-eq-ok}
use aigent_place.Workload.Policy.{policy_at}
use aigent_place.Workload.State.{
  State, concurrent_viewers_target, concurrent_aigents_target, flag_of,
}
use aigent_place.Workload.Boundary.{pattern_from}
use aigent_place.Workload.Trace
use aigent_place.Workload.Trace.{Event}
use aigent_place.Workload.Aoi.{Entity, aoi_cap_for_role, truncate_aoi}
use aigent_place.Workload.Cadence.{
  effective_percept_hz, classify_capacity_target, classify_cadence_delivery,
}
use aigent_place.Workload.Steps.{
  Step, Result, ticks_of, pattern_of, set_counts_of, checked_count, queue_of, admit_viewer_of,
  admit_aigent_of, observe_bytes, assess_capacity_of, viewer_capacity_of, aigent_capacity_of,
  truncate_aoi_of, effective_percept_of, assess_cadence_of, expected_hz, observe_ticks,
  observe_ticks_pattern, set_counts, admit_viewer, admit_aigent, assess_capacity, truncate_aoi_step,
  effective_percept, assess_cadence, observe_queue, inspect_policy, unknown, no_op, evaluate_step,
  run,
}
use aigent_place.Workload.State.{Initial, count_or_zero, normalized_state, history_or_empty}
use aigent_place.Workload.Steps.{evaluate_scenario}
use aigent_place.Workload.Steps.Validity.{
  IsValid, observe_flags-IsValid, flag_of-Flags, pattern_from-Flags,
}

normalized_state-IsValid :
    (initial : Initial) {s : State}
    → count_or_zero initial.level ≤ 8
    → count_or_zero initial.queue_over_limit_ticks < 40
    → normalized_state initial ≡ ok s
    → IsValid s
unfolding normalized_state
normalized_state-IsValid initial level queue h =
    ground (arith, flag_of-Flags (history_or_empty initial.overrun_history))

-- The state that a result leaves, or that of an error.
abbrev end_of : State → Result → State
end_of s (ok r) = r.0
end_of s (thrown e) = s

abbrev Keeps : State → Result → Type 0
Keeps s r = IsValid s → IsValid (end_of s r)

ticks_of-Keeps : (s : State) (overruns : Option (List Value)) → Keeps s (ticks_of s overruns)
unfolding ticks_of
ticks_of-Keeps s none v = v
ticks_of-Keeps s (some []) v = v
ticks_of-Keeps s (some (flag ∷ flags)) v =
    observe_flags-IsValid s (map flag_of (flag ∷ flags)) (flag_of-Flags (flag ∷ flags)) v

pattern_of-Keeps : (s : State) (count every : Option ℕ) → Keeps s (pattern_of s count every)
unfolding pattern_of
pattern_of-Keeps s (some count) (some every) v =
    observe_flags-IsValid s (pattern_from 0 count every) (pattern_from-Flags 0 count every) v
pattern_of-Keeps s none every v = v
pattern_of-Keeps s (some count) none v = v

chain-Keeps {ℓ} :
    {X : Type ℓ} (s : State) (first : Outcome X) (next : X → Result)
    → ((x : X) → Keeps s (next x))
    → Keeps s (first >>= next)
chain-Keeps s (ok x) next h = h x
chain-Keeps s (thrown e) next h = λ v. v

-- The numbers of viewers and aigents are free.
counts-IsValid :
    (s : State) (viewers aigents : ℕ)
    → IsValid s
    → IsValid (record s { viewers = viewers; aigents = aigents })
counts-IsValid s viewers aigents v = record {
  level = v.level;
  history = v.history;
  queue = v.queue;
  open_queue = v.open_queue;
}

set_counts_of-Keeps :
    (s : State) (viewers aigents : Value) → Keeps s (set_counts_of s viewers aigents)
unfolding set_counts_of
set_counts_of-Keeps s viewers aigents =
    chain-Keeps s (checked_count s.viewers viewers)
      (λ n. checked_count s.aigents aigents >>= λ m. ok (record s { viewers = n; aigents = m }, []))
      (λ n.
        chain-Keeps s (checked_count s.aigents aigents)
          (λ m. ok (record s { viewers = n; aigents = m }, [])) (counts-IsValid s n))

queue_of-Keeps : (s : State) (bytes : Option ℕ) → Keeps s (queue_of s bytes)
unfolding queue_of observe_bytes
queue_of-Keeps s none v = v
queue_of-Keeps s (some bytes) v = ground arith

admit_viewer_of-Keeps : (s : State) → Keeps s (admit_viewer_of s)
unfolding admit_viewer_of
admit_viewer_of-Keeps s = elim (Bool-cases (policy_at s.level).refuse_new_viewers) [
  | inl refused ↦ rw refused (λ v. v)
  | inr admitted ↦ rw admitted (
      chain-Keeps s (classify_capacity_target (number (s.viewers + 1)) concurrent_viewers_target)
        (λ capacity. ok (
          record s { viewers = s.viewers + 1 },
          Trace.viewer_admitted (s.viewers + 1) capacity ∷ [],
        ))
        (λ capacity. counts-IsValid s (s.viewers + 1) s.aigents))
]

admit_aigent_of-Keeps : (s : State) → Keeps s (admit_aigent_of s)
unfolding admit_aigent_of
admit_aigent_of-Keeps s =
    chain-Keeps s (classify_capacity_target (number (s.aigents + 1)) concurrent_aigents_target)
      (λ capacity.
        ok (
          record s { aigents = s.aigents + 1 },
          Trace.aigent_admitted (s.aigents + 1) capacity ∷ [],
        ))
      (λ capacity. counts-IsValid s s.viewers (s.aigents + 1))

-- A step that only reports leaves the state.
report-Keeps {ℓ} :
    {X : Type ℓ} (s : State) (checked : Outcome X) (events : X → List Event)
    → Keeps s (checked >>= λ x. ok (s, events x))
report-Keeps s checked events = chain-Keeps s checked (λ x. ok (s, events x)) (λ x v. v)

assess_capacity_of-Keeps : (s : State) (role : Value) → Keeps s (assess_capacity_of s role)
unfolding assess_capacity_of
assess_capacity_of-Keeps s role = elim (Bool-cases (strict_equal role (string "viewer"))) [
  | inl viewer ↦ rw viewer (
      report-Keeps s (classify_capacity_target (number s.viewers) concurrent_viewers_target)
        (λ capacity. viewer_capacity_of s capacity ∷ []))
  | inr other ↦ rw other (elim (Bool-cases (strict_equal role (string "aigent"))) [
    | inl aigent ↦ rw aigent (
        report-Keeps s (classify_capacity_target (number s.aigents) concurrent_aigents_target)
          (λ capacity. aigent_capacity_of s capacity ∷ []))
    | inr neither ↦ rw neither (λ v. v)
  ])
]

truncate_aoi_of-Keeps :
    (s : State) (role : Value) (entities : Option (List Entity))
    → Keeps s (truncate_aoi_of s role entities)
unfolding truncate_aoi_of
truncate_aoi_of-Keeps s role entities =
    let event = λ (cap : ℕ) (kept : List ℕ).
      Trace.aoi_truncated (or_else role (string "viewer")) cap kept ∷ [] in
    chain-Keeps s (aoi_cap_for_role (policy_at s.level) (or_else role (string "viewer")))
      (λ cap. truncate_aoi entities s.focus (number cap) >>= λ kept. ok (s, event cap kept))
      (λ cap. report-Keeps s (truncate_aoi entities s.focus (number cap)) (event cap))

effective_percept_of-Keeps :
    (s : State) (configured_hz : Value) → Keeps s (effective_percept_of s configured_hz)
unfolding effective_percept_of
effective_percept_of-Keeps s configured_hz =
    let floor = (policy_at s.level).aigent_percept_floor_hz in
    report-Keeps s (effective_percept_hz configured_hz floor)
      (λ hz. Trace.effective_percept (or_else configured_hz (number 5)) floor hz ∷ [])

assess_cadence_of-Keeps :
    (s : State) (role configured_hz observed : Value)
    → Keeps s (assess_cadence_of s role configured_hz observed)
unfolding assess_cadence_of
assess_cadence_of-Keeps s role configured_hz observed =
    chain-Keeps s (expected_hz s role configured_hz)
      (λ expected. classify_cadence_delivery expected observed >>= λ delivery.
        ok (s, Trace.cadence_assessment role delivery ∷ []))
      (λ expected.
        report-Keeps s (classify_cadence_delivery expected observed)
          (λ delivery. Trace.cadence_assessment role delivery ∷ []))

evaluate_step-Keeps : (s : State) (step : Step) → Keeps s (evaluate_step s step)
unfolding evaluate_step
evaluate_step-Keeps s (observe_ticks overruns) = ticks_of-Keeps s overruns
evaluate_step-Keeps s (observe_ticks_pattern count every) =
    pattern_of-Keeps s (positive_integer count) (positive_integer every)
evaluate_step-Keeps s (set_counts viewers aigents) = set_counts_of-Keeps s viewers aigents
evaluate_step-Keeps s admit_viewer = admit_viewer_of-Keeps s
evaluate_step-Keeps s admit_aigent = admit_aigent_of-Keeps s
evaluate_step-Keeps s (assess_capacity role) = assess_capacity_of-Keeps s role
evaluate_step-Keeps s (truncate_aoi_step role entities) = truncate_aoi_of-Keeps s role entities
evaluate_step-Keeps s (effective_percept configured_hz) = effective_percept_of-Keeps s configured_hz
evaluate_step-Keeps s (assess_cadence role configured_hz observed) =
    assess_cadence_of-Keeps s role configured_hz observed
evaluate_step-Keeps s (observe_queue bytes) = queue_of-Keeps s (non_negative_integer bytes)
evaluate_step-Keeps s inspect_policy = λ v. v
evaluate_step-Keeps s (unknown op) = λ v. v
evaluate_step-Keeps s no_op = λ v. v

run_scenario-IsValid :
    (s : State) (trace : List Event) (steps : List Step) {r : State × List Event}
    → run s trace steps ≡ ok r
    → IsValid s
    → IsValid r.0
unfolding run
run_scenario-IsValid s trace [] {r} h v =
    let same : s ≡ r.0 = ap (end_of s) h in subst IsValid same v
run_scenario-IsValid s trace (step ∷ steps) {r} h v =
    let (q, one, rest) =
      chain-eq-ok (evaluate_step s step) (λ result. run result.0 (trace ++ result.1) steps) h in
    let kept : IsValid q.0 = subst (λ o. IsValid (end_of s o)) one (evaluate_step-Keeps s step v) in
    run_scenario-IsValid q.0 (trace ++ q.1) steps rest kept

-- From an initial state on the ladder, without negative integers, whose queue is below the
-- disconnection limit, whatever the steps, a scenario that succeeds ends in a valid state: the level is on the ladder, the history has 0
-- and 1 for entries, and an open connection's queue is below the limit.
pub evaluate_scenario-IsValid :
    (initial : Initial) (steps : List Step) {r : State × List Event}
    → count_or_zero initial.level ≤ 8
    → count_or_zero initial.queue_over_limit_ticks < 40
    → evaluate_scenario initial steps ≡ ok r
    → IsValid r.0
unfolding evaluate_scenario
evaluate_scenario-IsValid initial steps {r} level queue h =
    let (s, start, rest) = chain-eq-ok (normalized_state initial) (λ s. run s [] steps) h in
    run_scenario-IsValid s [] steps rest (normalized_state-IsValid initial level queue start)
