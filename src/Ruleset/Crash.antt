-- ===== src/Ruleset/Crash.antt =====
-- Crash recovery of scripts/ruleset-contract.mjs: a crash at any point of a scenario makes no
-- difference to the state.
use aigent_place.Base.{Option, none, some, List, [], ◌∷◌, ◌++◌, ◌≡◌, ◌∙◌, refl, ap}
use aigent_place.Base.Outcome.{ok, thrown, ◌>>=◌}
use aigent_place.Ruleset.State.{State}
use aigent_place.Ruleset.Trace.{Event}
use aigent_place.Ruleset.Steps.{Step, Result, recover_crash, evaluate_step, recover, recovered, run}
use aigent_place.Ruleset.Invariant.{IsLawful}
use aigent_place.Ruleset.Invariant.Runs.{recover_lem, evaluate_step-IsLawful}

-- The state that a run ends in, if it succeeds.
abbrev pub end_state : Result → Option State
end_state (ok r) = some r.0
end_state (thrown e) = none

chain_end :
    (first : Result) (next other : State × List Event → Result)
    → ((q : State × List Event) → first ≡ ok q → end_state (next q) ≡ end_state (other q))
    → end_state (first >>= next) ≡ end_state (first >>= other)
chain_end (ok q) next other same = same q refl
chain_end (thrown e) next other same = refl

-- The trace so far does not matter to the state.
end_state-run :
    (s : State) (trace other : List Event) (steps : List Step)
    → end_state (run s trace steps) ≡ end_state (run s other steps)
unfolding run
end_state-run s trace other [] = refl
end_state-run s trace other (step ∷ steps) =
    chain_end (evaluate_step s step) (λ q. run q.0 (trace ++ q.1) steps)
      (λ q. run q.0 (other ++ q.1) steps)
      (λ q e. end_state-run q.0 (trace ++ q.1) (other ++ q.1) steps)

recovered_state : (s : State) → (recovered s).0 ≡ recover s
unfolding recovered
recovered_state s = refl

-- A crash between any two steps, with the recovery after it, leads to the state that the steps lead to
-- without it, from every lawful state.
pub run_crash :
    (s : State) (trace : List Event) (before after : List Step)
    → IsLawful s
    → end_state (run s trace (before ++ recover_crash ∷ after))
      ≡ end_state (run s trace (before ++ after))
unfolding run evaluate_step
run_crash s trace [] after v =
    end_state-run (recovered s).0 (trace ++ (recovered s).1) trace after
    ∙ ap (λ q. end_state (run q trace after)) (recovered_state s ∙ recover_lem s v)
run_crash s trace (step ∷ before) after v =
    chain_end (evaluate_step s step) (λ q. run q.0 (trace ++ q.1) (before ++ recover_crash ∷ after))
      (λ q. run q.0 (trace ++ q.1) (before ++ after))
      (λ q e. run_crash q.0 (trace ++ q.1) before after (evaluate_step-IsLawful s step e v))
