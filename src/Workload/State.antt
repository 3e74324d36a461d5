-- ===== src/Workload/State.antt =====
-- scripts/workload-contract.mjs: `normalizedState` and `updateSustainCounters`, for states whose
-- integers are not negative.
use aigent_place.Base.{
  ℕ, ◌+◌, Bool, true, false, Option, none, some, List, [], ◌||◌, map, if◌then◌else◌, leb,
}
use aigent_place.Base.Lists.{every}
use aigent_place.Base.Value.{Value, boolean, number, truthy, strict_equal, max_safe_integer}
use aigent_place.Base.Outcome.{Outcome, ok, thrown, invalid_argument}
use aigent_place.Base.Int.{pos}
use aigent_place.Workload.Aoi.{Point}

abbrev pub concurrent_viewers_target : ℕ
concurrent_viewers_target = 500

abbrev pub concurrent_aigents_target : ℕ
concurrent_aigents_target = 300

-- A field of `initial` that is a count: an integer that is not negative, of any size, or a value that
-- is no integer, as an absent one.
pub data InitialCount : Type 0 where
  integer : ℕ → InitialCount
  no_integer : InitialCount

-- The argument `initial`. The flag is `undefined` where it is absent, `overrun_history` and `focus`
-- are `none`.
pub record Initial : Type 0 where
  pub tick : InitialCount
  pub level : InitialCount
  pub overrun_history : Option (List Value)
  pub viewers : InitialCount
  pub aigents : InitialCount
  pub viewer_sustain_ticks : InitialCount
  pub aigent_sustain_ticks : InitialCount
  pub focus : Option Point
  pub queue_over_limit_ticks : InitialCount
  pub connection_closed : Value

-- `overrun_history` has 0 and 1 for entries.
pub record State : Type 0 where
  pub tick : ℕ
  pub level : ℕ
  pub overrun_history : List ℕ
  pub viewers : ℕ
  pub aigents : ℕ
  pub viewer_sustain_ticks : ℕ
  pub aigent_sustain_ticks : ℕ
  pub focus : Point
  pub queue_over_limit_ticks : ℕ
  pub connection_closed : Bool

-- `Number.isSafeInteger(v) ? v : 0`
unfoldable pub count_or_zero : InitialCount → ℕ
count_or_zero (integer n) = if leb n max_safe_integer then n else 0
count_or_zero no_integer = 0

-- `flag ? 1 : 0`
unfoldable pub flag_of : Value → ℕ
flag_of flag = if truthy flag then 1 else 0

unfoldable pub is_flag : Value → Bool
is_flag flag =
    strict_equal flag (number 0)
    || strict_equal flag (number 1)
    || strict_equal flag (boolean false)
    || strict_equal flag (boolean true)

unfoldable pub history_or_empty : Option (List Value) → List Value
history_or_empty none = []
history_or_empty (some flags) = flags

abbrev pub origin : Point
origin = record { x = pos 0; y = pos 0; z = pos 0 }

unfoldable pub focus_or_origin : Option Point → Point
focus_or_origin none = origin
focus_or_origin (some focus) = focus

unfoldable pub normalized_state : Initial → Outcome State
unfolding count_or_zero is_flag history_or_empty focus_or_origin
normalized_state initial =
    let history = history_or_empty initial.overrun_history in
    if every is_flag history
    then ok (record {
      tick = count_or_zero initial.tick;
      level = count_or_zero initial.level;
      overrun_history = map flag_of history;
      viewers = count_or_zero initial.viewers;
      aigents = count_or_zero initial.aigents;
      viewer_sustain_ticks = count_or_zero initial.viewer_sustain_ticks;
      aigent_sustain_ticks = count_or_zero initial.aigent_sustain_ticks;
      focus = focus_or_origin initial.focus;
      queue_over_limit_ticks = count_or_zero initial.queue_over_limit_ticks;
      connection_closed = truthy initial.connection_closed;
    })
    else thrown invalid_argument

unfoldable pub update_sustain_counters : State → State
update_sustain_counters s = record s {
  viewer_sustain_ticks =
      if leb concurrent_viewers_target s.viewers then s.viewer_sustain_ticks + 1 else 0;
  aigent_sustain_ticks =
      if leb concurrent_aigents_target s.aigents then s.aigent_sustain_ticks + 1 else 0;
}
