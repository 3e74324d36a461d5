-- ===== src/Workload/Inspect.antt =====
-- scripts/workload-contract.mjs: the final state that `evaluateScenario` adds to its result when the
-- caller asks for it.
use aigent_place.Base.{ℕ, Bool, true, false, Option, none, some, List}
use aigent_place.Base.Lists.{length}
use aigent_place.Base.Outcome.{Outcome, ok, ◌>>=◌}
use aigent_place.Workload.Policy.{Policy, policy_at}
use aigent_place.Workload.Windows.{Windows, classify_windows}
use aigent_place.Workload.State.{State, Initial}
use aigent_place.Workload.Trace.{Event}
use aigent_place.Workload.Steps.{Step, evaluate_scenario}

-- The argument `inspect`: falsy, or an object with or without `include_history`; `true` is as the
-- object with it.
pub data Inspect : Type 0 where
  nothing : Inspect
  final : (include_history : Bool) → Inspect

pub record FinalState : Type 0 where
  pub tick : ℕ
  pub level : ℕ
  pub policy : Policy
  pub viewers : ℕ
  pub aigents : ℕ
  pub viewer_sustain_ticks : ℕ
  pub aigent_sustain_ticks : ℕ
  pub connection_closed : Bool
  pub queue_over_limit_ticks : ℕ
  pub history_length_and_windows : Option (ℕ × Windows)

unfoldable pub history_of : Bool → State → Option (ℕ × Windows)
history_of false s = none
history_of true s = some (length s.overrun_history, classify_windows s.overrun_history)

unfoldable pub final_state : Inspect → State → Option FinalState
unfolding history_of
final_state nothing s = none
final_state (final include_history) s = some (record {
  tick = s.tick;
  level = s.level;
  policy = policy_at s.level;
  viewers = s.viewers;
  aigents = s.aigents;
  viewer_sustain_ticks = s.viewer_sustain_ticks;
  aigent_sustain_ticks = s.aigent_sustain_ticks;
  connection_closed = s.connection_closed;
  queue_over_limit_ticks = s.queue_over_limit_ticks;
  history_length_and_windows = history_of include_history s;
})

unfoldable pub evaluate_case :
    Initial → List Step → Inspect → Outcome (List Event × Option FinalState)
unfolding final_state
evaluate_case initial steps inspect =
    evaluate_scenario initial steps >>= λ result. ok (result.1, final_state inspect result.0)
