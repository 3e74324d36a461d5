-- ===== src/Protocol/Transition/Errors.antt =====
-- Errors of `transition` in scripts/protocol-contract.mjs.
use aigent_place.Base.{ℕ, ◌≡◌, Bool, true, false, Option, some, List, [], ◌∷◌, arith}
use aigent_place.Base.Outcome.{ok, thrown, transition_after_close}
use aigent_place.Protocol.State.{State, Connection, spectate_only}
use aigent_place.Protocol.Output.{Code, Output, protocol_error, connection_closed}
use aigent_place.Protocol.Handshake.{handshake, accept_handshake, HandshakeStep}
use aigent_place.Protocol.Command.{
  CommandStep, command, valid_command, dispatch_command, execute_once, first_execution,
  replay_sequence, record_exact_rejection, record_sequence,
}
use aigent_place.Protocol.Envelope.{envelope, decode_failure}
use aigent_place.Protocol.Queue.{enqueue_state, observe_queue, enqueue_event}
use aigent_place.Protocol.Events.{acknowledge_event, receive_event, resume_events}
use aigent_place.Protocol.Snapshot.{deliver_delta, expire_baseline, snapshot_resync}
use aigent_place.Protocol.Transition.{Step, dispatch, transition}
use aigent_place.Protocol.Transition.Runs.{transition-eq-ok}

handshake_error :
    (s : State) (h : HandshakeStep) (s' : State) (code : Code) (id : Option ℕ)
    → handshake s h ≡ ok (s', protocol_error code id ∷ [])
    → s' ≡ s
unfolding handshake accept_handshake
handshake_error s h s' code id e = ground arith

command_error :
    (s : State) (c : CommandStep) (s' : State) (code : Code) (id : Option ℕ)
    → command s c ≡ (s', protocol_error code id ∷ [])
    → s' ≡ s
unfolding command dispatch_command execute_once first_execution replay_sequence
    record_exact_rejection
command_error s c s' code id e = ground arith

dispatch_error :
    (s : State) (step : Step) (s' : State) (code : Code) (id : Option ℕ)
    → dispatch s step ≡ ok (s', protocol_error code id ∷ [])
    → s' ≡ s
unfolding dispatch envelope decode_failure enqueue_state observe_queue enqueue_event
    acknowledge_event receive_event resume_events deliver_delta expire_baseline snapshot_resync
dispatch_error s (Step.handshake h) s' code id e = handshake_error s h s' code id e
dispatch_error s (Step.command c) s' code id e = command_error s c s' code id (ground (arith, e))
dispatch_error s step s' code id e = ground arith

-- A step answered by a protocol error has no effect.
pub protocol_error_no_effect :
    (s : State) (step : Step) (s' : State) (code : Code) (id : Option ℕ)
    → transition s step ≡ ok (s', protocol_error code id ∷ [])
    → s' ≡ s
protocol_error_no_effect s step s' code id e =
    dispatch_error s step s' code id
      (transition-eq-ok s step {r = (s', protocol_error code id ∷ [])} e).1

-- A command on a connection that only spectates changes nothing.
pub spectator_command :
    (s : State) (c : CommandStep) {connection : Connection}
    → s.connection ≡ some connection
    → connection.mode ≡ spectate_only
    → (command s c).0 ≡ s
unfolding command dispatch_command valid_command
spectator_command s c on mode = ground arith

abbrev pub closes : List Output → Bool
closes [] = false
closes (connection_closed reason ∷ outputs) = true
closes (o ∷ outputs) = closes outputs

handshake-closes :
    (s : State) (h : HandshakeStep) (r : State × List Output)
    → s.closed ≡ false
    → handshake s h ≡ ok r
    → r.0.closed ≡ closes r.1
unfolding handshake accept_handshake
handshake-closes s h r open_ e = ground arith

command-closes :
    (s : State) (c : CommandStep)
    → s.closed ≡ false
    → (command s c).0.closed ≡ closes (command s c).1
unfolding command dispatch_command execute_once first_execution replay_sequence
    record_exact_rejection record_sequence
command-closes s c open_ = ground arith

dispatch-closes :
    (s : State) (step : Step) (r : State × List Output)
    → s.closed ≡ false
    → dispatch s step ≡ ok r
    → r.0.closed ≡ closes r.1
unfolding dispatch envelope decode_failure enqueue_state observe_queue enqueue_event
    acknowledge_event receive_event resume_events deliver_delta expire_baseline snapshot_resync
dispatch-closes s (Step.handshake h) r open_ e = handshake-closes s h r open_ e
dispatch-closes s (Step.command c) r open_ e = ground (arith, e, command-closes s c open_)
dispatch-closes s step r open_ e = ground arith

-- A step closes the connection exactly when it says so, and no step is taken after that.
pub closed_is_final :
    (s : State) (step : Step) (r : State × List Output)
    → transition s step ≡ ok r
    → (r.0.closed ≡ closes r.1)
      × (r.0.closed ≡ true → (next : Step) → transition r.0 next ≡ thrown transition_after_close)
closed_is_final s step r e =
    let (open_, done) = transition-eq-ok s step {r = r} e in
    (dispatch-closes s step r open_ done, λ shut next. unfold transition in (rw shut))
