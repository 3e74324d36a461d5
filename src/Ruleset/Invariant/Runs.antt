-- ===== src/Ruleset/Invariant/Runs.antt =====
-- Soaking, crashes and whole scenarios of scripts/ruleset-contract.mjs keep the invariant.
use aigent_place.Base.{
  ℕ, Option, none, some, List, [], ◌∷◌, ◌++◌, ◌≡◌, ◌∙◌, refl, sym, ap, arith, inl, inr, Bool-cases,
  leb, map,
}
use mathlib.Core.Path.{subst}
use aigent_place.Base.Value.{Value, positive_integer}
use aigent_place.Base.Outcome.{Outcome, ok, thrown, chain-eq-ok}
use aigent_place.Ruleset.Constitution.{Parameters, Rejection, keys, merge, validate_candidate}
use aigent_place.Ruleset.Constitution.Accepted.{validate_candidate-IsConstitutional}
use aigent_place.Ruleset.State.{Pending, State}
use aigent_place.Ruleset.Trace.{Event}
use aigent_place.Ruleset.Voting.{
  Voter, open_proposal, propose_checked, has_voted, cast, vote_on, pass, close, count_of, passes,
  touches_meta,
}
use aigent_place.Ruleset.Soak.{
  activate, roll_back, settle, soak_tick, soak_ticks, soak_pending, soak_healthy,
}
use aigent_place.Ruleset.Soak
use aigent_place.Ruleset.Voting
use aigent_place.Workload.State.{flag_of}
use aigent_place.Ruleset.Steps.{
  Step, Result, evaluate_step, advance, recover, recovered, run, propose, propose_track_b, vote,
  close_vote, advance_ticks, observe_soak, recover_crash, inspect, unknown, no_op,
}
use aigent_place.Ruleset.State.{Initial, normalized_state, unless_rejected, state_of, durable_or}
use aigent_place.Ruleset.Steps.{evaluate_scenario}
use aigent_place.Ruleset.Constitution.{default_parameters}
use aigent_place.Ruleset.Invariant.{
  IsLawful, PendingLawful, propose-IsLawful, propose_track_b-IsLawful, vote_on-IsLawful,
  close-IsLawful,
}

settle-IsLawful :
    (s : State) (p : Pending) → s.pending ≡ some p → IsLawful s → IsLawful (settle s p).0
unfolding settle activate roll_back
settle-IsLawful s p e v =
    let k : PendingLawful s.live.generation_id (some p) = rw e at v.pending in
    elim (Bool-cases (soak_healthy s)) [
      | inl healthy ↦ rw healthy (record {
        live = k.0;
        pending = tt;
        proposal = v.proposal;
        durable_live = refl;
        durable_pending = refl;
      })
      | inr sick ↦ rw sick (record {
        live = v.live;
        pending = tt;
        proposal = v.proposal;
        durable_live = v.durable_live;
        durable_pending = refl;
      })
    ]

soak_tick-IsLawful :
    (s : State) (flag commands errors : ℕ)
    → IsLawful s
    → IsLawful (soak_tick s flag commands errors)
unfolding soak_tick
soak_tick-IsLawful s flag commands errors v = record {
  live = v.live;
  pending = v.pending;
  proposal = v.proposal;
  durable_live = v.durable_live;
  durable_pending = v.durable_pending;
}

pub soak_tick_pending :
    (s : State) (flag commands errors : ℕ) → (soak_tick s flag commands errors).pending ≡ s.pending
unfolding soak_tick
soak_tick_pending s flag commands errors = refl

soak_ticks-IsLawful :
    (s : State) (p : Pending) (flags : List ℕ) (commands errors : ℕ)
    → s.pending ≡ some p
    → IsLawful s
    → IsLawful (soak_ticks s p flags commands errors).0
unfolding soak_ticks
soak_ticks-IsLawful s p [] commands errors e v = v
soak_ticks-IsLawful s p (flag ∷ flags) commands errors e v =
    let s' = soak_tick s flag commands errors in
    let e' = soak_tick_pending s flag commands errors ∙ e in
    let v' = soak_tick-IsLawful s flag commands errors v in
    elim (Bool-cases (leb p.activate_at_tick s'.tick)) [
      | inl due ↦ rw due (settle-IsLawful s' p e' v')
      | inr early ↦ rw early (soak_ticks-IsLawful s' p flags commands errors e' v')
    ]

soak_pending-IsLawful :
    (s : State) (o : Option Pending) (overruns : List Value) (commands errors : ℕ)
    → s.pending ≡ o
    → IsLawful s
    → IsLawful (soak_pending s o overruns commands errors).0
unfolding soak_pending
soak_pending-IsLawful s none overruns commands errors e v = v
soak_pending-IsLawful s (some p) overruns commands errors e v =
    soak_ticks-IsLawful s p (map flag_of overruns) commands errors e v

-- The state that a result leaves, or that of an error.
abbrev pub end_of : State → Result → State
end_of s (ok r) = r.0
end_of s (thrown e) = s

-- A crash loses nothing: what is recovered is what there was.
pub recover_lem : (s : State) → IsLawful s → recover s ≡ s
unfolding recover
recover_lem s v = ground (arith, v.durable_live, v.durable_pending)

advance-IsLawful :
    (s : State) (count : Option ℕ) {r : State × List Event}
    → advance s count ≡ ok r
    → IsLawful s
    → IsLawful r.0
unfolding advance
advance-IsLawful s none h v = absurd (ground arith)
advance-IsLawful s (some count) {r} h v = subst IsLawful (ap (end_of s) h) (record {
  live = v.live;
  pending = v.pending;
  proposal = v.proposal;
  durable_live = v.durable_live;
  durable_pending = v.durable_pending;
})

-- Every step that succeeds keeps the state lawful.
pub evaluate_step-IsLawful :
    (s : State) (step : Step) {r : State × List Event}
    → evaluate_step s step ≡ ok r
    → IsLawful s
    → IsLawful r.0
unfolding evaluate_step Voting.vote Voting.close_vote Soak.observe_soak recovered
evaluate_step-IsLawful s (propose changes voters) h v =
    subst IsLawful (ap (end_of s) h) (propose-IsLawful s changes voters v)
evaluate_step-IsLawful s (propose_track_b title id voters) h v =
    subst IsLawful (ap (end_of s) h) (propose_track_b-IsLawful s title id voters v)
evaluate_step-IsLawful s (vote voter support) h v =
    subst IsLawful (ap (end_of s) h) (vote_on-IsLawful s s.proposal voter support refl v)
evaluate_step-IsLawful s close_vote h v =
    subst IsLawful (ap (end_of s) h) (close-IsLawful s s.proposal refl v)
evaluate_step-IsLawful s (advance_ticks count) h v = advance-IsLawful s (positive_integer count) h v
evaluate_step-IsLawful s (observe_soak overruns commands errors) h v =
    subst IsLawful (ap (end_of s) h)
      (soak_pending-IsLawful s s.pending overruns commands errors refl v)
evaluate_step-IsLawful s recover_crash h v =
    subst IsLawful (ap (end_of s) h) (subst IsLawful (sym (recover_lem s v)) v)
evaluate_step-IsLawful s inspect h v = subst IsLawful (ap (end_of s) h) v
evaluate_step-IsLawful s (unknown op) h v = absurd (ground arith)
evaluate_step-IsLawful s no_op h v = absurd (ground arith)

pub run_scenario-IsLawful :
    (s : State) (trace : List Event) (steps : List Step) {r : State × List Event}
    → run s trace steps ≡ ok r
    → IsLawful s
    → IsLawful r.0
unfolding run
run_scenario-IsLawful s trace [] h v = subst IsLawful (ap (end_of s) h) v
run_scenario-IsLawful s trace (step ∷ steps) h v =
    let (q, one, rest) =
      chain-eq-ok (evaluate_step s step) (λ result. run result.0 (trace ++ result.1) steps) h in
    run_scenario-IsLawful q.0 (trace ++ q.1) steps rest (evaluate_step-IsLawful s step one v)

accepted-IsLawful :
    (initial : Initial) (live : Parameters) (verdict : Option Rejection) {s : State}
    → initial.pending ≡ none
    → initial.proposal ≡ none
    → initial.durable ≡ none
    → validate_candidate live (keys live) ≡ verdict
    → unless_rejected verdict (state_of initial live) ≡ ok s
    → IsLawful s
unfolding unless_rejected state_of durable_or
accepted-IsLawful initial live (some rejection) a b c e h = absurd (ground arith)
accepted-IsLawful initial live none {s} a b c e h = subst IsLawful (ap start_of h) (record {
  live = validate_candidate-IsConstitutional live e;
  pending = rw a tt;
  proposal = rw b tt;
  durable_live = rw c refl;
  durable_pending = rw c refl;
})
  where
    start_of : Outcome State → State
    start_of (ok q) = q
    start_of (thrown e) = state_of initial live

start-IsLawful :
    (initial : Initial) {s : State}
    → initial.pending ≡ none
    → initial.proposal ≡ none
    → initial.durable ≡ none
    → normalized_state initial ≡ ok s
    → IsLawful s
unfolding normalized_state
start-IsLawful initial a b c h =
    accepted-IsLawful initial (merge default_parameters initial.live) _ a b c refl h

-- From an initial state without a proposal, a pending generation and a durable record, whatever the
-- steps, a scenario that succeeds ends in a lawful state: the live parameters, and those of a pending generation or an
-- open proposal, are constitutional, the pending generation comes next after the live one, the ballots
-- are those of distinct accounts, and the durable record agrees with the state.
pub evaluate_scenario-IsLawful :
    (initial : Initial) (steps : List Step) {r : State × List Event}
    → initial.pending ≡ none
    → initial.proposal ≡ none
    → initial.durable ≡ none
    → evaluate_scenario initial steps ≡ ok r
    → IsLawful r.0
unfolding evaluate_scenario
evaluate_scenario-IsLawful initial steps nothing_pending nothing_open fresh h =
    let (s, start, rest) = chain-eq-ok (normalized_state initial) (λ s. run s [] steps) h in
    run_scenario-IsLawful s [] steps rest
      (start-IsLawful initial nothing_pending nothing_open fresh start)
