-- ===== src/Ruleset/Soak.antt =====
-- scripts/ruleset-contract.mjs: `soakHealthy` and the "observe_soak" step. The rates are compared as
-- fractions, as in the workload contract.
use aigent_place.Base.{
  ℕ, ◌+◌, ◌-◌, ◌*◌, String, Bool, not, ◌&&◌, Option, none, some, List, [], ◌∷◌, ◌++◌, map,
  if◌then◌else◌, ltb, leb,
}
use aigent_place.Base.Lists.{length, drop, sum}
use aigent_place.Base.Value.{Value}
use aigent_place.Base.Map.{Map}
use aigent_place.Workload.Windows.{degrade_window_ticks, degrade_overrun_percent}
use aigent_place.Workload.State.{flag_of}
use aigent_place.Ruleset.Setting.{equal}
use aigent_place.Ruleset.Catalog.{Spec, catalog}
use aigent_place.Ruleset.Constitution.{Parameters, value_of}
use aigent_place.Ruleset.State.{Pending, State}
use aigent_place.Ruleset.Trace
use aigent_place.Ruleset.Trace.{Event, Move}

-- `SOAK_ERROR_RATE_LIMIT`, in hundredths
abbrev pub soak_error_percent : ℕ
soak_error_percent = 1

-- More than 5 % of the trailing 600 ticks overran.
unfoldable pub overruns_too_often : List ℕ → Bool
overruns_too_often overruns =
    leb degrade_window_ticks (length overruns)
    && ltb (degrade_overrun_percent * degrade_window_ticks)
        (sum (drop (length overruns - degrade_window_ticks) overruns) * 100)

unfoldable pub errs_too_often : ℕ → ℕ → Bool
errs_too_often commands errors =
    ltb 0 commands && ltb (soak_error_percent * commands) (errors * 100)

unfoldable pub soak_healthy : State → Bool
soak_healthy s =
    not (overruns_too_often s.soak_overruns) && not (errs_too_often s.soak_commands s.soak_errors)

-- The loop over `Object.keys(PARAMETER_CATALOG)`.
unfoldable pub migrations : Map String Spec → Parameters → Parameters → List Move
migrations [] previous next = []
migrations ((path, s) ∷ specs) previous next =
    let rest = migrations specs previous next in
    if equal (value_of previous path) (value_of next path)
    then rest
    else record {
      path = path;
      migration = s.migration;
      from = value_of previous path;
      to = value_of next path;
    }
      ∷ rest

unfoldable pub activate : State → Pending → State × List Event
activate s p = (
  record s {
    live = record {
      generation_id = p.generation_id;
      activated_tick = s.tick;
      parameters = p.parameters;
    };
    durable = record { live_generation_id = p.generation_id; pending = none };
    pending = none;
  },
  Trace.ruleset_activated p.generation_id s.tick (migrations catalog s.live.parameters p.parameters)
      ∷ [],
)

unfoldable pub roll_back : State → Pending → State × List Event
roll_back s p = (
  record s { durable = record (s.durable) { pending = none }; pending = none },
  Trace.ruleset_rolled_back p.generation_id s.live.generation_id s.tick ∷ [],
)

unfoldable pub settle : State → Pending → State × List Event
settle s p = if soak_healthy s then activate s p else roll_back s p

-- The counters of one tick; a field that is absent or 0 adds nothing.
unfoldable pub soak_tick : State → ℕ → ℕ → ℕ → State
soak_tick s flag commands errors = record s {
  soak_overruns = s.soak_overruns ++ flag ∷ [];
  tick = s.tick + 1;
  soak_commands = s.soak_commands + commands;
  soak_errors = s.soak_errors + errors;
}

-- The loop over the flags, which ends when the pending generation is settled.
unfoldable pub soak_ticks : State → Pending → List ℕ → ℕ → ℕ → State × List Event
soak_ticks s p [] commands errors = (s, [])
soak_ticks s p (flag ∷ flags) commands errors =
    let s' = soak_tick s flag commands errors in
    let rest = soak_ticks s' p flags commands errors in
    if leb p.activate_at_tick s'.tick then settle s' p else rest

unfoldable pub soak_pending : State → Option Pending → List Value → ℕ → ℕ → State × List Event
soak_pending s none overruns commands errors = (s, Trace.soak_ignored ∷ [])
soak_pending s (some p) overruns commands errors =
    soak_ticks s p (map flag_of overruns) commands errors

unfoldable pub observe_soak : State → List Value → ℕ → ℕ → State × List Event
observe_soak s overruns commands_per_tick errors_per_tick =
    soak_pending s s.pending overruns commands_per_tick errors_per_tick
