-- ===== src/Protocol/Snapshot/Expiry.antt =====
-- Snapshot baselines over runs of `transition` in scripts/protocol-contract.mjs.
use aigent_place.Base.{
  ◌≡◌, ◌≢◌, refl, sym, Bool, false, not, List, [], ◌∷◌, inl, inr, Bool-cases, arith,
}
use aigent_place.Base.Value.{Value, strict_equal, strict_equal_iff}
use aigent_place.Base.Lists.{All, any, filter}
use aigent_place.Base.Outcome.{ok}
use mathlib.Core.Path.{subst}
use aigent_place.Protocol.State.{State}
use aigent_place.Protocol.Output.{Output, delta_delivered}
use aigent_place.Protocol.Handshake.{HandshakeStep, handshake, accept_handshake, displaced}
use aigent_place.Protocol.Command.{
  CommandStep, command, dispatch_command, execute_once, first_execution, replay_sequence,
  record_exact_rejection, record_sequence,
}
use aigent_place.Protocol.Envelope.{envelope, decode_failure}
use aigent_place.Protocol.Queue.{enqueue_state, observe_queue, enqueue_event}
use aigent_place.Protocol.Events.{acknowledge_event, receive_event, resume_events}
use aigent_place.Protocol.Snapshot.{deliver_delta, expire_baseline, snapshot_resync, is_retained}
use aigent_place.Protocol.Snapshot.Baselines.{any-filter_out}
use aigent_place.Protocol.Transition.{Step, dispatch, run}
use aigent_place.Protocol.Transition.Runs.{run_outputs}

-- The output is a delta against the baseline.
abbrev delivers : Value → Output → Bool
delivers b (delta_delivered c) = strict_equal c b
delivers b o = false

-- The step is no resynchronization to the baseline.
abbrev pub OtherThan : Value → Step → Type 0
OtherThan b (Step.snapshot_resync c) = c ≢ b
OtherThan b step = Unit

-- What a step with a baseline out of the retained ones leads to.
abbrev Without : Value → State × List Output → Type 0
Without b r = (is_retained r.0 b ≡ false) × (any (delivers b) r.1 ≡ false)

handshake-Without :
    (b : Value) (s : State) (h : HandshakeStep) (r : State × List Output)
    → is_retained s b ≡ false
    → handshake s h ≡ ok r
    → Without b r
unfolding handshake accept_handshake displaced is_retained any
handshake-Without b s h r out e = ground (arith, out)

command-Without :
    (b : Value) (s : State) (c : CommandStep) → is_retained s b ≡ false → Without b (command s c)
unfolding command dispatch_command execute_once first_execution replay_sequence
    record_exact_rejection record_sequence is_retained any
command-Without b s c out = ground (arith, out)

any-filter : (p q : Value → Bool) (bs : List Value) → any p bs ≡ false → any p (filter q bs) ≡ false
unfolding any filter
any-filter p q [] h = refl
any-filter p q (b ∷ bs) h = ground (arith, h, any-filter p q bs)

expire-Without :
    (b c : Value) (s : State) → is_retained s b ≡ false → Without b (expire_baseline s c)
unfolding expire_baseline is_retained any
expire-Without b c s out = (
  any-filter (λ r. strict_equal r b) (λ r. not (strict_equal r c)) s.snapshot.retained_baselines
      out,
  refl,
)

deliver-Without :
    (b c : Value) (s : State) → is_retained s b ≡ false → Without b (deliver_delta s c)
unfolding deliver_delta is_retained any
deliver-Without b c s out = elim (Bool-cases (strict_equal c b)) [
  | inl same ↦
      let gone : is_retained s c ≡ false =
        subst (λ d. is_retained s d ≡ false) (sym ((strict_equal_iff c b).0 same)) out in
      ground (arith, gone, out)
  | inr other ↦ ground (arith, out, other)
]

resync-Without : (b c : Value) (s : State) → c ≢ b → Without b (snapshot_resync s c)
unfolding snapshot_resync is_retained any
resync-Without b c s other = ground (arith, other, strict_equal_iff c b)

dispatch-Without :
    (b : Value) (s : State) (step : Step) (r : State × List Output)
    → OtherThan b step
    → is_retained s b ≡ false
    → dispatch s step ≡ ok r
    → Without b r
unfolding dispatch envelope decode_failure enqueue_state observe_queue enqueue_event
    acknowledge_event receive_event resume_events is_retained any
dispatch-Without b s (Step.handshake h) r other out e = handshake-Without b s h r out e
dispatch-Without b s (Step.command c) r other out e = ground (arith, e, command-Without b s c out)
dispatch-Without b s (Step.deliver_delta c) r other out e =
    ground (arith, e, deliver-Without b c s out)
dispatch-Without b s (Step.expire_baseline c) r other out e =
    ground (arith, e, expire-Without b c s out)
dispatch-Without b s (Step.snapshot_resync c) r other out e =
    ground (arith, e, resync-Without b c s other)
dispatch-Without b s step r other out e = ground (arith, e, out)

not_delivered :
    (b : Value) (outputs : List Output)
    → any (delivers b) outputs ≡ false
    → All (λ o. o ≢ delta_delivered b) outputs
unfolding any
not_delivered b [] h = tt
not_delivered b (o ∷ outputs) h = (
  λ same.
      let no_delta : delivers b (delta_delivered b) ≡ false =
        subst (λ p. delivers b p ≡ false) same (ground (arith, h)) in
      absurd (ground (arith, no_delta, strict_equal_iff b b)),
  not_delivered b outputs (ground (arith, h)),
)

expired : (b : Value) (s : State) → is_retained (expire_baseline s b).0 b ≡ false
unfolding expire_baseline is_retained
expired b s = any-filter_out b s.snapshot.retained_baselines

-- Once a baseline has expired, no run of steps without a resynchronization to it delivers a delta
-- against it, through other baselines, resynchronizations and reconnections.
pub expired_baseline :
    (s : State) (b : Value) (steps : List Step) {r : State × List Output}
    → All (OtherThan b) steps
    → run (expire_baseline s b).0 [] steps ≡ ok r
    → All (λ o. o ≢ delta_delivered b) r.1
unfolding any
expired_baseline s b steps {r} others e = not_delivered b r.1 (
    run_outputs (OtherThan b) (λ t. is_retained t b ≡ false) (delivers b)
      (λ t step q other f out. dispatch-Without b t step q other out f) steps
      (expire_baseline s b).0 [] r others e (expired b s) refl)
