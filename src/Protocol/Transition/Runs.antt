-- ===== src/Protocol/Transition/Runs.antt =====
-- Runs of `transition` in scripts/protocol-contract.mjs: how the trace grows, and invariants.
use aigent_place.Base.{◌≡◌, ap, Bool, false, List, [], ◌∷◌, ◌++◌, arith}
use mathlib.Core.Path.{subst}
use aigent_place.Base.Lists.{All, any, any-append}
use aigent_place.Base.Outcome.{Outcome, ok, thrown, chain-eq-ok}
use aigent_place.Protocol.State.{State}
use aigent_place.Protocol.Output.{Output}
use aigent_place.Protocol.Transition.{Step, dispatch, transition, run}

-- A step that succeeds was made on an open connection, by the dispatch.
pub transition-eq-ok :
    (s : State) (step : Step) {r : State × List Output}
    → transition s step ≡ ok r
    → (s.closed ≡ false) × (dispatch s step ≡ ok r)
unfolding transition
transition-eq-ok s step h = ground arith

abbrev end_of : State → Outcome (State × List Output) → State
end_of s (ok r) = r.0
end_of s (thrown e) = s

pub ok_end :
    (q r : State × List Output) → ◌≡◌ {A = Outcome (State × List Output)} (ok q) (ok r) → q.0 ≡ r.0
ok_end q r e = ap (end_of q.0) e

-- A property that every step keeps holds after any run.
pub run_inv {ℓ} :
    (P : State → Type ℓ)
    → ((s : State) (step : Step) (r : State × List Output) → transition s step ≡ ok r → P s → P r.0)
    → (steps : List Step) (s : State) (trace : List Output) (r : State × List Output)
    → run s trace steps ≡ ok r
    → P s
    → P r.0
unfolding run
run_inv P keep [] s trace r e h =
    let same : s ≡ r.0 = ap (λ (o : Outcome (State × List Output)). end_of s o) e in subst P same h
run_inv P keep (step ∷ steps) s trace r e h =
    let (q, one, rest) = chain-eq-ok (transition s step) (λ q. run q.0 (trace ++ q.1) steps) e in
    run_inv P keep steps q.0 (trace ++ q.1) r rest (keep s step q one h)

result_of : State × List Output → Outcome (State × List Output) → State × List Output
result_of q (ok r) = r
result_of q (thrown e) = q

ok_result :
    (q r : State × List Output) → ◌≡◌ {A = Outcome (State × List Output)} (ok q) (ok r) → q ≡ r
unfolding result_of
ok_result q r e = ap (result_of q) e

-- Outputs that no allowed step gives, as long as a property holds that they keep, are none of a run.
pub run_outputs {ℓ κ} :
    (Allowed : Step → Type ℓ) (P : State → Type κ) (p : Output → Bool)
    → ((s : State) (step : Step) (r : State × List Output)
        → Allowed step
        → dispatch s step ≡ ok r
        → P s
        → P r.0 × (any p r.1 ≡ false))
    → (steps : List Step) (s : State) (trace : List Output) (r : State × List Output)
    → All Allowed steps
    → run s trace steps ≡ ok r
    → P s
    → any p trace ≡ false
    → any p r.1 ≡ false
unfolding run
run_outputs Allowed P p keep [] s trace r others e h none_yet =
    subst (λ (q : State × List Output). any p q.1 ≡ false) (ok_result (s, trace) r e) none_yet
run_outputs Allowed P p keep (step ∷ steps) s trace r others e h none_yet =
    let (q, one, rest) = chain-eq-ok (transition s step) (λ q. run q.0 (trace ++ q.1) steps) e in
    let (kept, silent) = keep s step q others.0 (transition-eq-ok s step {r = q} one).1 h in
    let grown = any-append p trace q.1 in
    run_outputs Allowed P p keep steps q.0 (trace ++ q.1) r others.1 rest kept
      (ground (arith, grown, none_yet, silent))
