-- ===== src/Workload/Boundary/Levels.antt =====
-- How the level moves with the ticks (scripts/workload-contract.mjs, `evaluateBoundary`).
use aigent_place.Base.{ℕ, ◌+◌, ◌/◌, ◌%◌, ◌≤◌, List, [], ◌∷◌, ◌++◌, ◌≡◌, arith, eqb, if◌then◌else◌}
use aigent_place.Base.Lists.{length}
use aigent_place.Workload.Windows.{Windows, classify_windows}
use aigent_place.Workload.State.{State, update_sustain_counters}
use aigent_place.Workload.Boundary.{next_level, evaluate_boundary, observe_tick, observe_flags}

-- What one tick does to the tick count, the history and the level.
pub observe_tick_lem :
    (s : State) (flag : ℕ)
    → ((observe_tick s flag).0.tick ≡ s.tick + 1)
      × ((observe_tick s flag).0.overrun_history ≡ s.overrun_history ++ flag ∷ [])
      × ((observe_tick s flag).0.level ≡ (
          if eqb ((s.tick + 1) % 600) 0
          then (next_level (classify_windows (s.overrun_history ++ flag ∷ [])) s.level).0
          else s.level))
unfolding observe_tick update_sustain_counters evaluate_boundary next_level
observe_tick_lem s flag = ground arith

-- One boundary moves the level by one at most.
next_level_near :
    (w : Windows) (level : ℕ)
    → ((next_level w level).0 ≤ level + 1) × (level ≤ (next_level w level).0 + 1)
unfolding next_level
next_level_near w level = ground arith

tick_near :
    (s : State) (flag : ℕ)
    → ((observe_tick s flag).0.level ≤ s.level + (s.tick % 600 + 1) / 600)
      × (s.level ≤ (observe_tick s flag).0.level + (s.tick % 600 + 1) / 600)
tick_near s flag = ground (
  arith,
  observe_tick_lem s flag,
  next_level_near (classify_windows (s.overrun_history ++ flag ∷ [])) s.level,
)

-- However the ticks go, the level moves by at most one for each boundary of 600 ticks that they cross.
pub observe_flags_near :
    (s : State) (flags : List ℕ)
    → ((observe_flags s flags).0.level ≤ s.level + (s.tick % 600 + length flags) / 600)
      × (s.level ≤ (observe_flags s flags).0.level + (s.tick % 600 + length flags) / 600)
unfolding observe_flags
observe_flags_near s [] = ground arith
observe_flags_near s (flag ∷ flags) =
    let near = tick_near s flag in
    let rest = observe_flags_near (observe_tick s flag).0 flags in
    let ticks = (observe_tick_lem s flag).0 in omega (arith, near, rest, ticks)
