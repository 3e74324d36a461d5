-- ===== src/Protocol/Events/Forgotten.antt =====
-- Acknowledged events over runs of `transition` in scripts/protocol-contract.mjs.
use aigent_place.Base.{
  ℕ, ◌<◌, String, ◌≡◌, refl, Bool, false, Option, List, [], ◌∷◌, ltb, leb, arith,
}
use aigent_place.Base.Lists.{All, any, any-append, filter}
use aigent_place.Base.Sort.{sort_by-All}
use aigent_place.Base.Outcome.{ok}
use aigent_place.Protocol.State.{State, EventStream}
use aigent_place.Protocol.Output.{Output, events_replayed, events_acknowledged}
use aigent_place.Protocol.Handshake.{HandshakeStep, handshake, accept_handshake, displaced}
use aigent_place.Protocol.Command.{
  CommandStep, command, dispatch_command, execute_once, first_execution, replay_sequence,
  record_exact_rejection, record_sequence,
}
use aigent_place.Protocol.Envelope.{envelope, decode_failure}
use aigent_place.Protocol.Queue.{enqueue_state, observe_queue, enqueue_event}
use aigent_place.Protocol.Events.{
  acknowledge_event, receive_event, resume_events, retained_from, replayed, resume_start,
}
use aigent_place.Protocol.Snapshot.{deliver_delta, expire_baseline, snapshot_resync}
use aigent_place.Protocol.Transition.{Step, dispatch, run}
use aigent_place.Protocol.Transition.Runs.{run_outputs}

-- An event up to the number is among them.
abbrev has_early : ℕ → List ℕ → Bool
has_early n events = any (λ event. leb event n) events

abbrev replays_early : ℕ → Output → Bool
replays_early n (events_replayed events) = has_early n events
replays_early n o = false

-- A replay is of later events only.
abbrev pub ReplaysAfter : ℕ → Output → Type 0
ReplaysAfter n (events_replayed events) = All (λ event. n < event) events
ReplaysAfter n o = Unit

-- An event that the step enqueues is a later one.
abbrev pub EnqueuesAfter : ℕ → Step → Type 0
EnqueuesAfter n (Step.enqueue_event sequence bytes) = n < sequence
EnqueuesAfter n step = Unit

abbrev Later : ℕ → State × List Output → Type 0
Later n r = (has_early n r.0.event_stream.journal ≡ false) × (any (replays_early n) r.1 ≡ false)

any-All : (n : ℕ) (events : List ℕ) → has_early n events ≡ false → All (λ e. n < e) events
unfolding any
any-All n [] h = tt
any-All n (e ∷ events) h = (ground (arith, h), any-All n events (ground (arith, h)))

All-any : (n : ℕ) (events : List ℕ) → All (λ e. n < e) events → has_early n events ≡ false
unfolding any
All-any n [] h = refl
All-any n (e ∷ events) h = ground (arith, h.0, All-any n events h.1)

early-filter :
    (n : ℕ) (q : ℕ → Bool) (events : List ℕ)
    → has_early n events ≡ false
    → has_early n (filter q events) ≡ false
unfolding any filter
early-filter n q [] h = refl
early-filter n q (e ∷ events) h = ground (arith, h, early-filter n q events)

filter-later : (n : ℕ) (events : List ℕ) → has_early n (filter (λ e. ltb n e) events) ≡ false
unfolding any filter
filter-later n [] = refl
filter-later n (e ∷ events) = ground (arith, filter-later n events)

retained-later :
    (n start : ℕ) (s : State)
    → has_early n s.event_stream.journal ≡ false
    → has_early n (retained_from s.event_stream start) ≡ false
unfolding retained_from
retained-later n start s h = All-any n _ (
    sort_by-All (λ left right. ltb left right) (λ e. n < e)
      (filter (λ e. leb start e) s.event_stream.journal)
      (any-All n _ (early-filter n (λ e. leb start e) s.event_stream.journal h)))

handshake-Later :
    (n : ℕ) (s : State) (h : HandshakeStep) (r : State × List Output)
    → has_early n s.event_stream.journal ≡ false
    → handshake s h ≡ ok r
    → Later n r
unfolding handshake accept_handshake displaced any
handshake-Later n s h r later e = ground (arith, later)

command-Later :
    (n : ℕ) (s : State) (c : CommandStep)
    → has_early n s.event_stream.journal ≡ false
    → Later n (command s c)
unfolding command dispatch_command execute_once first_execution replay_sequence
    record_exact_rejection record_sequence any
command-Later n s c later = ground (arith, later)

acknowledge-Later :
    (n : ℕ) (s : State) (epoch : String) (sequence : ℕ) (id : Option ℕ)
    → has_early n s.event_stream.journal ≡ false
    → Later n (acknowledge_event s epoch sequence id)
unfolding acknowledge_event any
acknowledge-Later n s epoch sequence id later =
    ground (arith, later, early-filter n (λ e. ltb sequence e) s.event_stream.journal later)

replayed-journal :
    (stream : EventStream) (events : List ℕ) → (replayed stream events).journal ≡ stream.journal
unfolding replayed
replayed-journal stream [] = refl
replayed-journal stream (e ∷ events) = refl

resume-Later :
    (n : ℕ) (s : State) (epoch : String) (last_ack : ℕ) (id : Option ℕ) (fresh : String)
    → has_early n s.event_stream.journal ≡ false
    → Later n (resume_events s epoch last_ack id fresh)
unfolding resume_events any
resume-Later n s epoch last_ack id fresh later =
    let start = resume_start s.event_stream last_ack in
    ground (
      arith,
      later,
      retained-later n start s later,
      replayed-journal s.event_stream (retained_from s.event_stream start),
    )

enqueue-Later :
    (n : ℕ) (s : State) (sequence bytes : ℕ)
    → n < sequence
    → has_early n s.event_stream.journal ≡ false
    → Later n (enqueue_event s sequence bytes)
unfolding enqueue_event any
enqueue-Later n s sequence bytes after later =
    let grown = any-append (λ e. leb e n) s.event_stream.journal (sequence ∷ []) in
    ground (arith, later, after, grown)

dispatch-Later :
    (n : ℕ) (s : State) (step : Step) (r : State × List Output)
    → EnqueuesAfter n step
    → dispatch s step ≡ ok r
    → has_early n s.event_stream.journal ≡ false
    → Later n r
unfolding dispatch envelope decode_failure enqueue_state observe_queue receive_event deliver_delta
    expire_baseline snapshot_resync any
dispatch-Later n s (Step.handshake h) r after e later = handshake-Later n s h r later e
dispatch-Later n s (Step.command c) r after e later = ground (arith, e, command-Later n s c later)
dispatch-Later n s (Step.acknowledge_event epoch sequence id) r after e later =
    ground (arith, e, acknowledge-Later n s epoch sequence id later)
dispatch-Later n s (Step.resume_events epoch ack id fresh) r after e later =
    ground (arith, e, resume-Later n s epoch ack id fresh later)
dispatch-Later n s (Step.enqueue_event sequence bytes) r after e later =
    ground (arith, e, enqueue-Later n s sequence bytes after later)
dispatch-Later n s step r after e later = ground (arith, e, later)

acknowledged :
    (s : State) (epoch : String) (n : ℕ) (id : Option ℕ)
    → (acknowledge_event s epoch n id).1 ≡ events_acknowledged n ∷ []
    → has_early n (acknowledge_event s epoch n id).0.event_stream.journal ≡ false
unfolding acknowledge_event
acknowledged s epoch n id h = ground (arith, h, filter-later n s.event_stream.journal)

replays_after :
    (n : ℕ) (outputs : List Output)
    → any (replays_early n) outputs ≡ false
    → All (ReplaysAfter n) outputs
unfolding any
replays_after n [] h = tt
replays_after n (events_replayed events ∷ outputs) h =
    (any-All n events (ground (arith, h)), replays_after n outputs (ground (arith, h)))
replays_after n (o ∷ outputs) h = (tt, replays_after n outputs (ground (arith, h)))

-- Once an acknowledgement was accepted, no run of steps in which the enqueued events have greater
-- sequence numbers replays the acknowledged event or an earlier one, through resumptions and
-- reconnections.
pub acknowledged_not_replayed :
    (s : State) (epoch : String) (n : ℕ) (id : Option ℕ) (steps : List Step)
    {r : State × List Output}
    → (acknowledge_event s epoch n id).1 ≡ events_acknowledged n ∷ []
    → All (EnqueuesAfter n) steps
    → run (acknowledge_event s epoch n id).0 [] steps ≡ ok r
    → All (ReplaysAfter n) r.1
unfolding any
acknowledged_not_replayed s epoch n id steps {r} accepted later e = replays_after n r.1 (
    run_outputs (EnqueuesAfter n) (λ t. has_early n t.event_stream.journal ≡ false)
      (replays_early n) (λ t step q after f held. dispatch-Later n t step q after f held) steps
      (acknowledge_event s epoch n id).0 [] r later e (acknowledged s epoch n id accepted) refl)
