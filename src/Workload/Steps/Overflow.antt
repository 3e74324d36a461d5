-- ===== src/Workload/Steps/Overflow.antt =====
-- The outbound queue of scripts/workload-contract.mjs over several observations.
use aigent_place.Base.{
  ℕ, ◌+◌, ◌≤◌, ◌<◌, Bool, true, false, List, [], ◌∷◌, ◌++◌, map, ◌≡◌, ◌∙◌, refl, arith, leb, min,
  Bool-cases, inl, inr,
}
use aigent_place.Base.Lists.{All, length}
use aigent_place.Base.Value.{number, non_negative_integer}
use aigent_place.Base.Outcome.{ok}
use aigent_place.Workload.State.{State}
use aigent_place.Workload.Trace
use aigent_place.Workload.Trace.{Event}
use aigent_place.Workload.Steps.{Step, observe_queue, evaluate_step, queue_of, observe_bytes, run}

-- A queue size over the limit that the evaluator accepts.
pub record IsOverLimit (bytes : ℕ) : Type 0 where
  pub over : 262144 < bytes
  pub safe : bytes ≤ 9007199254740991

abbrev pub observations : List ℕ → List Step
observations sizes = map (λ bytes. observe_queue (number bytes)) sizes

one_more :
    (s : State) (bytes : ℕ)
    → IsOverLimit bytes
    → s.connection_closed ≡ false
    → evaluate_step s (observe_queue (number bytes)) ≡ ok (observe_bytes s bytes)
unfolding evaluate_step queue_of non_negative_integer
one_more s bytes over still_open = ground (arith, over)

observe_bytes_over :
    (s : State) (bytes : ℕ)
    → IsOverLimit bytes
    → ((observe_bytes s bytes).0.queue_over_limit_ticks ≡ s.queue_over_limit_ticks + 1)
      × ((observe_bytes s bytes).0.connection_closed ≡ leb 40 (s.queue_over_limit_ticks + 1))
unfolding observe_bytes
observe_bytes_over s bytes over = ground (arith, over)

ignored :
    (s : State) (bytes : ℕ)
    → IsOverLimit bytes
    → s.connection_closed ≡ true
    → evaluate_step s (observe_queue (number bytes)) ≡ ok (s, Trace.queue_ignored ∷ [])
unfolding evaluate_step queue_of non_negative_integer
ignored s bytes over closed = ground (arith, over)

-- How a run of observations ends.
abbrev Ends : State → List Event → List ℕ → Bool → ℕ → Type 0
Ends s trace sizes closed ticks =
    (r : State × List Event) × (run s trace (observations sizes) ≡ ok r)
    × (r.0.connection_closed ≡ closed)
    × (r.0.queue_over_limit_ticks ≡ ticks)

stays_closed :
    (s : State) (trace : List Event) (sizes : List ℕ)
    → All IsOverLimit sizes
    → s.connection_closed ≡ true
    → Ends s trace sizes true s.queue_over_limit_ticks
unfolding run
stays_closed s trace [] over closed = ((s, trace), refl, closed, refl)
stays_closed s trace (bytes ∷ sizes) over closed =
    let step = ignored s bytes over.0 closed in
    let (r, runs, is_closed, ticks) =
      stays_closed s (trace ++ Trace.queue_ignored ∷ []) sizes over.1 closed in
    (r, rw step runs, is_closed, ticks)

-- From an open connection whose queue was over its limit for fewer than 40 observations, observations
-- over the limit disconnect exactly when there have been 40 of them in a row; the later ones are
-- ignored.
pub run_over :
    (s : State) (trace : List Event) (sizes : List ℕ)
    → All IsOverLimit sizes
    → s.connection_closed ≡ false
    → s.queue_over_limit_ticks < 40
    → (r : State × List Event) × (run s trace (observations sizes) ≡ ok r)
      × (r.0.connection_closed ≡ leb 40 (s.queue_over_limit_ticks + length sizes))
      × (r.0.queue_over_limit_ticks ≡ min 40 (s.queue_over_limit_ticks + length sizes))
unfolding run
run_over s trace [] over still_open below = ((s, trace), refl, ground arith, ground arith)
run_over s trace (bytes ∷ sizes) over still_open below =
    let step = one_more s bytes over.0 still_open in
    let s' = (observe_bytes s bytes).0 in
    let trace' = trace ++ (observe_bytes s bytes).1 in
    let (ticks, closed) = observe_bytes_over s bytes over.0 in
    elim (Bool-cases (leb 40 (s.queue_over_limit_ticks + 1))) [
      | inl full ↦
          let (r, runs, is_closed, same) = stays_closed s' trace' sizes over.1 (closed ∙ full) in
          (r, rw step runs, ground (arith, is_closed, full), ground (arith, same, ticks, full))
      | inr room ↦
          let (r, runs, is_closed, same) =
            run_over s' trace' sizes over.1 (closed ∙ room) (ground (arith, ticks, room)) in
          (r, rw step runs, ground (arith, is_closed, ticks), ground (arith, same, ticks))
    ]
