-- ===== src/Ruleset/Steps.antt =====
-- scripts/ruleset-contract.mjs: the steps of `evaluateScenario`.
use aigent_place.Base.{ℕ, ◌+◌, String, Option, none, some, List, [], ◌∷◌, ◌++◌}
use aigent_place.Base.Lists.{length}
use aigent_place.Base.Value.{Value, positive_integer}
use aigent_place.Base.Outcome.{Outcome, ok, thrown, invalid_argument, unsupported_operation, ◌>>=◌}
use aigent_place.Ruleset.Setting.{Setting}
use aigent_place.Ruleset.Constitution.{Parameters, value_of, constitution_cost_ceiling}
use aigent_place.Ruleset.State.{State, Initial, Item, normalized_state}
use aigent_place.Ruleset.Trace
use aigent_place.Ruleset.Trace.{Event}
use aigent_place.Ruleset.Voting
use aigent_place.Ruleset.Voting.{Voter, id_of}
use aigent_place.Ruleset.Soak

-- A fixture step by its `op`; `unknown` is any other operation, `no_op` a step without one. Absent
-- lists are empty and absent numbers 0, as the code takes them.
pub data Step : Type 0 where
  propose : (changes : Parameters) (eligible_voters : ℕ) → Step
  propose_track_b : (title id : Option String) (eligible_voters : ℕ) → Step
  vote : Voter → (support : Value) → Step
  close_vote : Step
  advance_ticks : (count : Value) → Step
  observe_soak : (overruns : List Value) (commands_per_tick errors_per_tick : ℕ) → Step
  recover_crash inspect : Step
  unknown : String → Step
  no_op : Step

abbrev pub Result : Type 0
Result = Outcome (State × List Event)

unfoldable pub advance : State → Option ℕ → Result
advance s none = thrown invalid_argument
advance s (some count) = ok (record s { tick = s.tick + count }, [])

unfoldable pub recover : State → State
recover s = record s {
  live = record (s.live) { generation_id = s.durable.live_generation_id };
  pending = s.durable.pending;
}

unfoldable pub recovered : State → State × List Event
recovered s =
    let s' = recover s in (s', Trace.crash_recovered s'.live.generation_id (id_of s'.pending) ∷ [])

unfoldable pub inspection : State → Event
inspection s =
    Trace.inspected s.live.generation_id (id_of s.pending)
      (value_of s.live.parameters "movement.lease_ttl_ms") (length s.track_b_backlog)

-- The `switch` on `step.op`.
unfoldable pub evaluate_step : State → Step → Result
evaluate_step s (propose changes eligible_voters) = ok (Voting.propose s changes eligible_voters)
evaluate_step s (propose_track_b title id eligible_voters) =
    ok (Voting.propose_track_b s title id eligible_voters)
evaluate_step s (vote voter support) = ok (Voting.vote s voter support)
evaluate_step s close_vote = ok (Voting.close_vote s)
evaluate_step s (advance_ticks count) = advance s (positive_integer count)
evaluate_step s (observe_soak overruns commands errors) =
    ok (Soak.observe_soak s overruns commands errors)
evaluate_step s recover_crash = ok (recovered s)
evaluate_step s inspect = ok (s, inspection s ∷ [])
evaluate_step s (unknown op) = thrown (unsupported_operation op)
evaluate_step s no_op = thrown invalid_argument

-- The loop over the steps, with the trace so far.
unfoldable pub run : State → List Event → List Step → Result
run s trace [] = ok (s, trace)
run s trace (step ∷ steps) =
    evaluate_step s step >>= λ result. run result.0 (trace ++ result.1) steps

unfoldable pub evaluate_scenario : Initial → List Step → Result
unfolding run
evaluate_scenario initial steps = normalized_state initial >>= λ s. run s [] steps

-- What `inspect` adds to the result.
pub record FinalState : Type 0 where
  pub tick : ℕ
  pub live_generation_id : ℕ
  pub pending_generation_id : Option ℕ
  pub lease_ttl_ms : Setting
  pub backlog : List Item
  pub ceiling : ℕ

unfoldable pub final_state : State → FinalState
final_state s = record {
  tick = s.tick;
  live_generation_id = s.live.generation_id;
  pending_generation_id = id_of s.pending;
  lease_ttl_ms = value_of s.live.parameters "movement.lease_ttl_ms";
  backlog = s.track_b_backlog;
  ceiling = constitution_cost_ceiling;
}
