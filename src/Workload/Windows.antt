-- ===== src/Workload/Windows.antt =====
-- scripts/workload-contract.mjs: `windowRate` and `classifyWindows`. A rate is kept as a fraction. The
-- code compares the quotients with 0.01 and 0.05, which are the doubles next to 12 / 1200 and
-- 30 / 600, so that comparing them is comparing the numbers of overruns.
pub mod Exclusive
use aigent_place.Base.{ℕ, ◌-◌, ◌*◌, Bool, false, Option, none, some, List, if◌then◌else◌, ltb}
use aigent_place.Base.Lists.{length, drop, sum}

abbrev pub pass_window_ticks : ℕ
pass_window_ticks = 1200

abbrev pub degrade_window_ticks : ℕ
degrade_window_ticks = 600

-- `PASS_OVERRUN_RATE` and `DEGRADE_OVERRUN_RATE`, in hundredths
abbrev pub pass_overrun_percent : ℕ
pass_overrun_percent = 1

abbrev pub degrade_overrun_percent : ℕ
degrade_overrun_percent = 5

pub record Rate : Type 0 where
  pub overruns : ℕ
  pub window_ticks : ℕ

unfoldable pub window_rate : List ℕ → ℕ → Option Rate
window_rate history window_ticks =
    if ltb (length history) window_ticks
    then none
    else some (record {
      overruns = sum (drop (length history - window_ticks) history);
      window_ticks = window_ticks;
    })

pub record Windows : Type 0 where
  pub pass_rate : Option Rate
  pub degrade_rate : Option Rate
  pub pass_healthy : Bool
  pub degrade_triggers : Bool

unfoldable pub is_below : ℕ → Option Rate → Bool
is_below percent none = false
is_below percent (some rate) = ltb (rate.overruns * 100) (percent * rate.window_ticks)

unfoldable pub is_above : ℕ → Option Rate → Bool
is_above percent none = false
is_above percent (some rate) = ltb (percent * rate.window_ticks) (rate.overruns * 100)

unfoldable pub classify_windows : List ℕ → Windows
unfolding is_below is_above
classify_windows history =
    let pass_rate = window_rate history pass_window_ticks in
    let degrade_rate = window_rate history degrade_window_ticks in
    record {
      pass_rate = pass_rate;
      degrade_rate = degrade_rate;
      pass_healthy = is_below pass_overrun_percent pass_rate;
      degrade_triggers = is_above degrade_overrun_percent degrade_rate;
    }
