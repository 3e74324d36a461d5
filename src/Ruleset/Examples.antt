-- ===== src/Ruleset/Examples.antt =====
-- The ruleset contract on concrete inputs.
use aigent_place.Base.{
  ltb, ◌+◌, ◌*◌, ◌≤◌, true, false, none, some, List, [], ◌∷◌, ◌≡◌, refl, string_key,
}
use aigent_place.Base.Lists.{any, length, sum, drop}
use aigent_place.Base.Map.{lookup, insert, has_own}
use aigent_place.Base.Value.{
  Value, boolean, number as integer_value, string, truthy, strict_equal, positive_integer,
}
use aigent_place.Base.Outcome.{ok}
use aigent_place.Double.{round_whole, round_quotient, last_digit}
use aigent_place.World.Rounding.{round_magnitude}
use aigent_place.Workload.State.{flag_of}
use aigent_place.Ruleset.Setting.{number, integer, less, equal, whole, is_int_value, is_finite}
use aigent_place.Ruleset.Catalog.{catalog, entry_of, entry_or}
use aigent_place.Ruleset.Constitution.{
  Parameters, keys, merge, defaults_of, default_parameters, value_or, value_of, envelope_cost,
  constitution_cost_ceiling, push_if, validate_cross_fields, type_ok, in_range, check_value,
  check_path, or_next, check_paths, check_complete, check_cross, check_cost, validate_candidate,
}
use aigent_place.Base.Sort.{sort_by, insert_by}
use aigent_place.Ruleset.Catalog.{clamp}
use aigent_place.Ruleset.State.{
  Initial, State, Pending, Proposal, track_a, normalized_state, unless_rejected, state_of,
  durable_or,
}
use aigent_place.Ruleset.Trace
use aigent_place.Ruleset.Trace.{Event, Count, Move}
use aigent_place.Ruleset.Voting
use aigent_place.Ruleset.Voting.{
  Voter, propose_checked, open_proposal, governance, touches_meta, is_meta, vote_on, cast,
  is_eligible_voter, has_voted, close, passes, count_of, ratio, pass,
}
use aigent_place.Ruleset.Soak
use aigent_place.Ruleset.Soak.{
  soak_pending, soak_ticks, soak_tick, settle, soak_healthy, overruns_too_often, errs_too_often,
  activate, migrations,
}
use aigent_place.Ruleset.Steps.{
  propose, vote, advance_ticks, close_vote, recover_crash, inspect, observe_soak, Step,
  evaluate_step, advance, run, evaluate_scenario,
}
use aigent_place.Ruleset.Invariant.{IsLawful}
use aigent_place.Ruleset.Invariant.Runs.{evaluate_scenario-IsLawful, evaluate_step-IsLawful}
use aigent_place.Ruleset.Crash.{end_state, run_crash}
use aigent_place.Ruleset.Passing.{PendingChange, close_vote_lem}
use aigent_place.Ruleset.Activation.{Settles, LiveChange, observe_soak_lem, evaluate_step_live}

-- The ceiling is 12 230, in units of 2^-64.
ceiling : constitution_cost_ceiling ≡ 12230 * 18446744073709551616
unfolding round_quotient round_whole last_digit round_magnitude constitution_cost_ceiling
    envelope_cost default_parameters defaults_of catalog value_of value_or lookup whole
ceiling = refl

-- Its cost is 12 230 before rounding, and above the ceiling after it.
abbrev at_the_ceiling : Parameters
at_the_ceiling = merge default_parameters (
    ("speech.radius_mm", integer 76180)
    ∷ ("speech.rate_per_minute", integer 150)
    ∷ ("channel.post_rate_per_minute", integer 3)
    ∷ ("budget.objects_per_aigent", integer 0)
    ∷ [])

rounded_up : ltb constitution_cost_ceiling (envelope_cost at_the_ceiling) ≡ true
unfolding round_quotient round_whole last_digit round_magnitude constitution_cost_ceiling
    envelope_cost default_parameters defaults_of catalog value_of value_or lookup whole merge insert
rounded_up = refl

abbrev longer_lease : Parameters
longer_lease = ("movement.lease_ttl_ms", integer 20000) ∷ []

abbrev candidate : Parameters
candidate = merge default_parameters longer_lease

abbrev fresh : Initial
fresh = record {
  live = [];
  live_generation_id = 1;
  activated_tick = 0;
  tick = 0;
  pending = none;
  proposal = none;
  voted_accounts = [];
  track_b_backlog = [];
  soak_overruns = [];
  soak_commands = 0;
  soak_errors = 0;
  durable = none;
}

abbrev ada : Voter
ada = record {
  account_age_days = integer 30;
  has_command_handshake = boolean true;
  account_id = string "ada";
}

-- The vote of one of ten voters.
abbrev ballot : Proposal
ballot = record {
  kind = track_a longer_lease candidate;
  meta = false;
  votes_for = 1;
  votes_against = 0;
  ballots = 1;
  eligible_snapshot = 10;
  opened_at_tick = 0;
  closes_at_tick = 72000;
}

abbrev voted : State
voted = record {
  tick = 72000;
  live = record { generation_id = 1; activated_tick = 0; parameters = default_parameters };
  pending = none;
  proposal = some ballot;
  voted_accounts = string "ada" ∷ [];
  track_b_backlog = [];
  soak_overruns = [];
  soak_commands = 0;
  soak_errors = 0;
  durable = record { live_generation_id = 1; pending = none };
}

abbrev to_vote : List Step
to_vote =
    propose longer_lease 10
    ∷ vote ada (boolean true)
    ∷ vote ada (boolean false)
    ∷ advance_ticks (integer_value 72000)
    ∷ []

abbrev voted_trace : List Event
voted_trace =
    Trace.proposal_accepted false (12230 * 18446744073709551616) (12230 * 18446744073709551616)
      ("movement.lease_ttl_ms" ∷ []) 72000
    ∷ Trace.vote_cast true (string "ada") 1
    ∷ Trace.vote_rejected Trace.duplicate_vote
    ∷ []

to_vote_run : evaluate_scenario fresh to_vote ≡ ok (voted, voted_trace)
unfolding evaluate_scenario normalized_state unless_rejected state_of durable_or run evaluate_step
    Voting.propose propose_checked open_proposal governance touches_meta is_meta Voting.vote vote_on
    cast is_eligible_voter has_voted strict_equal truthy advance positive_integer sort_by insert_by
    merge insert validate_candidate default_parameters defaults_of catalog keys check_paths
    check_path check_value entry_of entry_or any value_of value_or lookup type_ok in_range less
    is_int_value is_finite or_next check_complete has_own check_cross validate_cross_fields push_if
    check_cost constitution_cost_ceiling envelope_cost round_quotient round_whole last_digit
    round_magnitude whole
to_vote_run = refl

evaluate_scenario-IsLawful_example : IsLawful voted
evaluate_scenario-IsLawful_example =
    evaluate_scenario-IsLawful fresh to_vote refl refl refl to_vote_run

voted-IsLawful : IsLawful voted
voted-IsLawful = evaluate_scenario-IsLawful fresh to_vote refl refl refl to_vote_run

abbrev soaking : Pending
soaking = record {
  generation_id = 2;
  parameters = candidate;
  activate_at_tick = 73200;
  meta = false;
  changes = longer_lease;
}

abbrev passed : State
passed = record voted {
  pending = some soaking;
  durable = record { live_generation_id = 1; pending = some soaking };
  proposal = none;
}

abbrev passed_count : Count
passed_count = record {
  turnout = number false 1 10;
  approval = number false 1 1;
  quorum = number false 1 10;
  threshold = number false 1 2;
}

closed :
    evaluate_step voted close_vote ≡ ok (passed, Trace.ruleset_passed passed_count 2 73200 ∷ [])
unfolding evaluate_step Voting.close_vote close passes count_of ratio governance pass less whole
    value_of value_or lookup default_parameters defaults_of catalog
closed = refl

close_vote_lem_example : PendingChange voted passed
close_vote_lem_example = close_vote_lem voted voted-IsLawful closed

run_crash_example :
    end_state (run voted [] (close_vote ∷ recover_crash ∷ inspect ∷ []))
    ≡ end_state (run voted [] (close_vote ∷ inspect ∷ []))
run_crash_example = run_crash voted [] (close_vote ∷ []) (inspect ∷ []) voted-IsLawful

passed-IsLawful : IsLawful passed
passed-IsLawful = evaluate_step-IsLawful voted close_vote closed voted-IsLawful

abbrev waited : State
waited = record passed { tick = 73199 }

abbrev active : State
active = record waited {
  tick = 73200;
  live = record { generation_id = 2; activated_tick = 73200; parameters = candidate };
  pending = none;
  soak_overruns = 0 ∷ [];
  soak_commands = 200;
  soak_errors = 2;
  durable = record { live_generation_id = 2; pending = none };
}

time_passes : evaluate_step passed (advance_ticks (integer_value 1199)) ≡ ok (waited, [])
unfolding evaluate_step advance positive_integer
time_passes = refl

waited-IsLawful : IsLawful waited
waited-IsLawful =
    evaluate_step-IsLawful passed (advance_ticks (integer_value 1199)) time_passes passed-IsLawful

abbrev lease_move : Move
lease_move = record {
  path = "movement.lease_ttl_ms";
  migration = clamp;
  from = integer 10000;
  to = integer 20000;
}

activated :
    evaluate_step waited (observe_soak (boolean false ∷ boolean true ∷ []) 200 2)
    ≡ ok (active, Trace.ruleset_activated 2 73200 (lease_move ∷ []) ∷ [])
unfolding evaluate_step Soak.observe_soak soak_pending soak_ticks soak_tick settle soak_healthy
    overruns_too_often errs_too_often activate migrations equal flag_of truthy value_of value_or
    lookup default_parameters defaults_of catalog merge insert sum drop
activated = refl

observe_soak_lem_example :
    Settles waited soaking active
    × (73200 ≤ 73199 + length {A = Value} (boolean false ∷ boolean true ∷ [])
        → active.pending ≡ none)
observe_soak_lem_example =
    observe_soak_lem waited soaking (boolean false) (boolean true ∷ []) 200 2 refl activated

evaluate_step_live_example : LiveChange waited active
evaluate_step_live_example =
    evaluate_step_live waited (observe_soak (boolean false ∷ boolean true ∷ []) 200 2)
      waited-IsLawful activated
