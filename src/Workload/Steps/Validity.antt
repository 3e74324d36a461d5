-- ===== src/Workload/Steps/Validity.antt =====
-- Valid states of scripts/workload-contract.mjs, and that ticks keep them valid.
use aigent_place.Base.{ℕ, ◌+◌, ◌≤◌, ◌<◌, false, List, [], ◌∷◌, map, ◌≡◌, arith}
use aigent_place.Base.Value.{Value}
use aigent_place.Base.Lists.{All, All-append}
use aigent_place.Workload.State.{State, flag_of, update_sustain_counters}
use aigent_place.Workload.Boundary.{
  next_level, evaluate_boundary, observe_tick, observe_flags, pattern_from,
}

abbrev pub Flags : List ℕ → Type 0
Flags history = All (λ flag. flag ≤ 1) history

-- The level is on the ladder, the history has 0 and 1 for entries, and a queue that has been over its
-- limit for 40 observations has closed the connection.
pub record IsValid (s : State) : Type 0 where
  pub level : s.level ≤ 8
  pub history : Flags s.overrun_history
  pub queue : s.queue_over_limit_ticks ≤ 40
  pub open_queue : s.connection_closed ≡ false → s.queue_over_limit_ticks < 40

observe_tick-IsValid :
    (s : State) (flag : ℕ) → flag ≤ 1 → IsValid s → IsValid (observe_tick s flag).0
unfolding observe_tick evaluate_boundary update_sustain_counters next_level
observe_tick-IsValid s flag h v =
    ground (arith, All-append (λ f. f ≤ 1) s.overrun_history (flag ∷ []) v.history (h, tt))

pub observe_flags-IsValid :
    (s : State) (flags : List ℕ) → Flags flags → IsValid s → IsValid (observe_flags s flags).0
unfolding observe_flags
observe_flags-IsValid s [] h v = v
observe_flags-IsValid s (flag ∷ flags) h v =
    observe_flags-IsValid (observe_tick s flag).0 flags h.1 (observe_tick-IsValid s flag h.0 v)

pub flag_of-Flags : (flags : List Value) → Flags (map flag_of flags)
unfolding flag_of
flag_of-Flags [] = tt
flag_of-Flags (flag ∷ flags) = (ground arith, flag_of-Flags flags)

pub pattern_from-Flags : (i count overrun_every : ℕ) → Flags (pattern_from i count overrun_every)
unfolding pattern_from
pattern_from-Flags i ℕ.zero overrun_every = tt
pattern_from-Flags i (ℕ.suc count) overrun_every =
    (ground arith, pattern_from-Flags (i + 1) count overrun_every)
