-- ===== src/Workload/Boundary.antt =====
-- scripts/workload-contract.mjs: `evaluateBoundary`, and the ticks of "observe_ticks" and
-- "observe_ticks_pattern".
pub mod Convergence
pub mod Recovery
pub mod Levels
use aigent_place.Base.{
  ℕ, zero, suc, ◌+◌, ◌-◌, ◌%◌, Bool, ◌&&◌, ◌||◌, List, [], ◌∷◌, ◌++◌, if◌then◌else◌, ltb, eqb,
}
use aigent_place.Workload.Policy.{max_degradation_level, policy_at}
use aigent_place.Workload.Windows.{Windows, classify_windows, degrade_window_ticks}
use aigent_place.Workload.State.{State, update_sustain_counters}
use aigent_place.Workload.Trace.{Action, hold, advance, retreat, Event, degradation_evaluated}

-- The level after the boundary, and what was done.
unfoldable pub next_level : Windows → ℕ → ℕ × Action
next_level windows level =
    if windows.degrade_triggers
    then (if ltb level max_degradation_level then (level + 1, advance) else (level, hold))
    else if windows.pass_healthy
    then (if ltb 0 level then (level - 1, retreat) else (level, hold))
    else (level, hold)

unfoldable pub is_hold : Action → Bool
is_hold hold = Bool.true
is_hold _ = Bool.false

unfoldable pub evaluate_boundary : State → State × List Event
unfolding next_level is_hold
evaluate_boundary s =
    let windows = classify_windows s.overrun_history in
    let before = policy_at s.level in
    let (level, action) = next_level windows s.level in
    (
      record s { level = level },
      degradation_evaluated action
            (windows.degrade_triggers && eqb before.level max_degradation_level
              || windows.pass_healthy && eqb before.level 0 && is_hold action)
            windows before (policy_at level)
          ∷ [],
    )

-- What both loops do with the flag of one tick.
unfoldable pub record_tick : State → ℕ → State
record_tick s flag =
    update_sustain_counters
      (record s { overrun_history = s.overrun_history ++ flag ∷ []; tick = s.tick + 1 })

unfoldable pub observe_tick : State → ℕ → State × List Event
unfolding record_tick
observe_tick s flag =
    let s' = record_tick s flag in
    if eqb (s'.tick % degrade_window_ticks) 0 then evaluate_boundary s' else (s', [])

unfoldable pub observe_flags : State → List ℕ → State × List Event
observe_flags s [] = (s, [])
observe_flags s (flag ∷ flags) =
    let (s', events) = observe_tick s flag in
    let (end, rest) = observe_flags s' flags in (end, events ++ rest)

-- The flags of "observe_ticks_pattern" from the index `i` on: one overrun in `every`.
unfoldable pub pattern_from : ℕ → ℕ → ℕ → List ℕ
pattern_from i zero overrun_every = []
pattern_from i (suc count) overrun_every =
    (if eqb ((i + 1) % overrun_every) 0 then 1 else 0) ∷ pattern_from (i + 1) count overrun_every
