-- ===== src/Protocol/Invariant.antt =====
-- What holds of a connection of scripts/protocol-contract.mjs between two steps.
use aigent_place.Base.{
  ℕ, zero, suc, ◌+◌, ◌≤◌, ◌<◌, ◌≡◌, refl, sym, ap, ◌∙◌, ◌⊎◌, inl, inr, Bool, false, Option, List,
  arith, String, if◌then◌else◌,
}
use mathlib.Core.Path.{subst}
use aigent_place.Base.Value.{Value}
use aigent_place.Base.Outcome.{ok}
use aigent_place.Protocol.State.{State, new_session}
use aigent_place.Protocol.Output.{Output}
use aigent_place.Protocol.Handshake.{HandshakeStep, handshake, accept_handshake}
use aigent_place.Protocol.Command.{
  CommandStep, command, dispatch_command, execute_once, first_execution, replay_sequence,
  record_sequence, record_exact_rejection,
}
use aigent_place.Protocol.Command.Sessions.{IsRecorded, new_session-IsRecorded, command-IsRecorded}
use aigent_place.Protocol.Envelope.{envelope, decode_failure}
use aigent_place.Protocol.Queue.{
  overflow_tick_observations, enqueue_state, push_state, observe, observe_queue, enqueue_event,
}
use aigent_place.Protocol.Queue.Bounds.{
  IsBounded, enqueue_state-IsBounded, enqueue_event-IsBounded, observe_queue-IsBounded,
}
use aigent_place.Protocol.Events.{acknowledge_event, receive_event, resume_events, replayed}
use aigent_place.Protocol.Events.Acknowledge.{acknowledge_event_within}
use aigent_place.Protocol.Snapshot.{deliver_delta, expire_baseline, snapshot_resync}
use aigent_place.Protocol.Transition.{Step, dispatch, transition, run}
use aigent_place.Protocol.Transition.Runs.{transition-eq-ok, run_inv, ok_end}

-- The queue is bounded and its bytes are counted; an open connection has seen fewer than 40 ticks
-- over the limit in a row; what is acknowledged was sent; the session's records are complete.
pub record IsValid (s : State) : Type 0 where
  pub queue : IsBounded s.queue
  pub ticks : s.closed ≡ false → s.queue.over_limit_ticks < overflow_tick_observations
  pub acknowledged : s.event_stream.last_ack ≤ s.event_stream.highest_sent_sequence
  pub session : IsRecorded s.session

-- The parts of a state that a step of another component leaves alone.
record SameTransport (s t : State) : Type 0 where
  queue : t.queue ≡ s.queue
  closed : t.closed ≡ s.closed
  stream : t.event_stream ≡ s.event_stream

handshake_frame :
    (s : State) (h : HandshakeStep) {r : State × List Output}
    → handshake s h ≡ ok r
    → SameTransport s r.0
      × ((r.0.session ≡ s.session) ⊎ (r.0.session ≡ new_session r.0.session.active_epoch))
unfolding handshake accept_handshake
handshake_frame s h e = ground arith

command_frame : (s : State) (c : CommandStep) → SameTransport s (command s c).0
unfolding command dispatch_command execute_once first_execution replay_sequence record_sequence
    record_exact_rejection
command_frame s c = ground arith

IsValid-of_transport :
    {s t : State} → IsValid s → SameTransport s t → IsRecorded t.session → IsValid t
IsValid-of_transport {s} {t} v same session = record {
  queue = subst IsBounded (sym same.queue) v.queue;
  ticks = λ open_. rw (ap (λ q. q.over_limit_ticks) same.queue) (v.ticks (sym same.closed ∙ open_));
  acknowledged =
      subst (λ stream. stream.last_ack ≤ stream.highest_sent_sequence) (sym same.stream)
        v.acknowledged;
  session = session;
}

observe_ticks :
    (n : ℕ) (over : Bool) (ticks : ℕ)
    → ticks < overflow_tick_observations
    → (observe n over ticks).1 ≡ false
    → (observe n over ticks).0 < overflow_tick_observations
unfolding observe
observe_ticks zero over ticks few more = few
observe_ticks (suc n) over ticks few more =
    ground (arith, observe_ticks n over (if over then ticks + 1 else 0))

handshake-IsValid :
    (s : State) (h : HandshakeStep) {r : State × List Output}
    → handshake s h ≡ ok r
    → IsValid s
    → IsValid r.0
handshake-IsValid s h {r} e v =
    let (same, session) = handshake_frame s h {r = r} e in
    IsValid-of_transport v same (elim session [
      | inl old ↦ subst IsRecorded (sym old) v.session
      | inr new ↦ subst IsRecorded (sym new) (new_session-IsRecorded r.0.session.active_epoch)
    ])

module _ (s : State) (open_ : s.closed ≡ false) (v : IsValid s) where
  enqueue_state-IsValid : (bytes : ℕ) → IsValid (enqueue_state s bytes).0
  unfolding enqueue_state push_state
  enqueue_state-IsValid bytes = record {
    queue = enqueue_state-IsBounded s bytes;
    ticks = v.ticks;
    acknowledged = v.acknowledged;
    session = v.session;
  }

  enqueue_event-session :
      (sequence bytes : ℕ) → (enqueue_event s sequence bytes).0.session ≡ s.session
  unfolding enqueue_event
  enqueue_event-session sequence bytes = ground arith

  enqueue_event-IsValid : (sequence bytes : ℕ) → IsValid (enqueue_event s sequence bytes).0
  enqueue_event-IsValid sequence bytes = record {
    queue = enqueue_event-IsBounded s sequence bytes v.queue;
    ticks = unfold enqueue_event in (λ e. ground (arith, v.ticks open_));
    acknowledged = unfold enqueue_event in (ground (arith, v.acknowledged));
    session = subst IsRecorded (sym (enqueue_event-session sequence bytes)) v.session;
  }

  observe_queue-IsValid : (observations : Option ℕ) → IsValid (observe_queue s observations).0
  observe_queue-IsValid observations = record {
    queue = observe_queue-IsBounded s observations v.queue;
    ticks =
        unfold observe_queue in
        (λ e. observe_ticks _ _ s.queue.over_limit_ticks (v.ticks open_) (ground arith));
    acknowledged = unfold observe_queue in v.acknowledged;
    session = unfold observe_queue in v.session;
  }

  -- A step of the event stream.
  IsValid-of_stream :
      {t : State}
      → (t.queue ≡ s.queue) × (t.closed ≡ s.closed) × (t.session ≡ s.session)
      → t.event_stream.last_ack ≤ t.event_stream.highest_sent_sequence
      → IsValid t
  IsValid-of_stream (queue, closed, session) sent = record {
    queue = subst IsBounded (sym queue) v.queue;
    ticks = λ _. rw (ap (λ q. q.over_limit_ticks) queue) (v.ticks open_);
    acknowledged = sent;
    session = subst IsRecorded (sym session) v.session;
  }

  acknowledge_event-IsValid :
      (epoch : String) (sequence : ℕ) (id : Option ℕ)
      → IsValid (acknowledge_event s epoch sequence id).0
  acknowledge_event-IsValid epoch sequence id =
      IsValid-of_stream (unfold acknowledge_event in (ground arith))
        (acknowledge_event_within s epoch sequence id v.acknowledged)

  receive_event-IsValid :
      (epoch : String) (sequence : ℕ) → IsValid (receive_event s epoch sequence).0
  unfolding receive_event
  receive_event-IsValid epoch sequence =
      IsValid-of_stream (ground arith) (ground (arith, v.acknowledged))

  resume_events-IsValid :
      (epoch : String) (last_ack : ℕ) (id : Option ℕ) (fresh : String)
      → IsValid (resume_events s epoch last_ack id fresh).0
  unfolding resume_events replayed
  resume_events-IsValid epoch last_ack id fresh =
      IsValid-of_stream (ground arith) (ground (arith, v.acknowledged))

  decode_failure-IsValid : (bytes limit : ℕ) → IsValid (decode_failure s bytes limit).0
  unfolding decode_failure
  decode_failure-IsValid bytes limit = record {
    queue = v.queue;
    ticks = λ e. absurd (ground arith);
    acknowledged = v.acknowledged;
    session = v.session;
  }

  deliver_delta-IsValid : (baseline : Value) → IsValid (deliver_delta s baseline).0
  unfolding deliver_delta
  deliver_delta-IsValid baseline = IsValid-of_stream (ground arith) (ground (arith, v.acknowledged))

  dispatch-IsValid : (step : Step) (r : State × List Output) → dispatch s step ≡ ok r → IsValid r.0
  unfolding dispatch envelope expire_baseline snapshot_resync
  dispatch-IsValid Step.validate_compatibility r e = subst IsValid (ok_end _ r e) v
  dispatch-IsValid (Step.handshake h) r e = handshake-IsValid s h e v
  dispatch-IsValid (Step.decode_failure bytes limit) r e =
      subst IsValid (ok_end _ r e) (decode_failure-IsValid bytes limit)
  dispatch-IsValid (Step.envelope x) r e = subst IsValid (ok_end _ r e) v
  dispatch-IsValid (Step.command c) r e =
      subst IsValid (ok_end _ r e)
        (IsValid-of_transport v (command_frame s c) (command-IsRecorded s c v.session))
  dispatch-IsValid (Step.enqueue_state bytes) r e =
      subst IsValid (ok_end _ r e) (enqueue_state-IsValid bytes)
  dispatch-IsValid (Step.observe_queue observations) r e =
      subst IsValid (ok_end _ r e) (observe_queue-IsValid observations)
  dispatch-IsValid (Step.enqueue_event sequence bytes) r e =
      subst IsValid (ok_end _ r e) (enqueue_event-IsValid sequence bytes)
  dispatch-IsValid (Step.acknowledge_event epoch sequence id) r e =
      subst IsValid (ok_end _ r e) (acknowledge_event-IsValid epoch sequence id)
  dispatch-IsValid (Step.receive_event epoch sequence) r e =
      subst IsValid (ok_end _ r e) (receive_event-IsValid epoch sequence)
  dispatch-IsValid (Step.resume_events epoch ack id fresh) r e =
      subst IsValid (ok_end _ r e) (resume_events-IsValid epoch ack id fresh)
  dispatch-IsValid (Step.deliver_delta baseline) r e =
      subst IsValid (ok_end _ r e) (deliver_delta-IsValid baseline)
  dispatch-IsValid (Step.expire_baseline baseline) r e =
      subst IsValid (ok_end _ r e) (IsValid-of_stream (refl, refl, refl) v.acknowledged)
  dispatch-IsValid (Step.snapshot_resync baseline) r e =
      subst IsValid (ok_end _ r e) (IsValid-of_stream (refl, refl, refl) v.acknowledged)
  dispatch-IsValid (Step.unknown op) r e = absurd (ground arith)

-- Every step that succeeds keeps a valid connection valid.
pub transition-IsValid :
    (s : State) (step : Step) (r : State × List Output)
    → transition s step ≡ ok r
    → IsValid s
    → IsValid r.0
transition-IsValid s step r e v =
    let (open_, done) = transition-eq-ok s step {r = r} e in dispatch-IsValid s open_ v step r done

-- From a valid connection, whatever the steps, a run that succeeds ends in a valid connection: its
-- queue is bounded, an open connection has seen fewer than 40 ticks over the limit in a row, what is
-- acknowledged was sent, and the session's records are complete.
pub run-IsValid :
    (steps : List Step) (s : State) (trace : List Output) (r : State × List Output)
    → run s trace steps ≡ ok r
    → IsValid s
    → IsValid r.0
run-IsValid = run_inv IsValid transition-IsValid
