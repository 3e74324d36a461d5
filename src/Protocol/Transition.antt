-- ===== src/Protocol/Transition.antt =====
-- scripts/protocol-contract.mjs: `transition` and the loop of `evaluateScenario`.
pub mod Errors
pub mod Durability
pub mod Runs
use aigent_place.Base.{ℕ, String, Bool, true, Option, List, [], ◌∷◌, ◌++◌, if◌then◌else◌}
use aigent_place.Base.Value.{Value}
use aigent_place.Base.Lists.{every}
use aigent_place.Base.Outcome.{
  Outcome, ok, thrown, transition_after_close, unsupported_operation, ◌>>=◌,
}
use aigent_place.Protocol.State.{State, Initial, normalized_state}
use aigent_place.Protocol.Output.{Output, compatibility_policy}
use aigent_place.Protocol.Compatibility.{compatibility_record_valid}
use aigent_place.Protocol.Handshake
use aigent_place.Protocol.Handshake.{HandshakeStep}
use aigent_place.Protocol.Command
use aigent_place.Protocol.Command.{CommandStep}
use aigent_place.Protocol.Envelope
use aigent_place.Protocol.Envelope.{EnvelopeStep}
use aigent_place.Protocol.Queue
use aigent_place.Protocol.Events
use aigent_place.Protocol.Snapshot

-- A fixture step by its `op`; `unknown` is any other operation. The steps that check a field before
-- they use it take it as a `Value`; the others take it at the type that the fixtures give it.
pub data Step : Type 0 where
  validate_compatibility : Step
  handshake : HandshakeStep → Step
  decode_failure : (encoded_bytes frame_limit_bytes : ℕ) → Step
  envelope : EnvelopeStep → Step
  command : CommandStep → Step
  enqueue_state : (encoded_bytes : ℕ) → Step
  observe_queue : (observations : Option ℕ) → Step
  enqueue_event : (sequence encoded_bytes : ℕ) → Step
  acknowledge_event : (stream_epoch : String) (sequence : ℕ) (message_id : Option ℕ) → Step
  receive_event : (stream_epoch : String) (sequence : ℕ) → Step
  resume_events :
      (stream_epoch : String) (last_ack : ℕ) (message_id : Option ℕ)
      (server_new_stream_epoch : String)
      → Step
  deliver_delta expire_baseline snapshot_resync : Value → Step
  unknown : String → Step

-- The `switch` on `step.op`.
unfoldable pub dispatch : State → Step → Outcome (State × List Output)
dispatch s validate_compatibility =
    ok (s, compatibility_policy (every compatibility_record_valid s.compatibility) ∷ [])
dispatch s (handshake h) = Handshake.handshake s h
dispatch s (decode_failure bytes limit) = ok (Envelope.decode_failure s bytes limit)
dispatch s (envelope e) = ok (Envelope.envelope s e)
dispatch s (command c) = ok (Command.command s c)
dispatch s (enqueue_state bytes) = ok (Queue.enqueue_state s bytes)
dispatch s (observe_queue observations) = ok (Queue.observe_queue s observations)
dispatch s (enqueue_event sequence bytes) = ok (Queue.enqueue_event s sequence bytes)
dispatch s (acknowledge_event epoch sequence id) = ok (Events.acknowledge_event s epoch sequence id)
dispatch s (receive_event epoch sequence) = ok (Events.receive_event s epoch sequence)
dispatch s (resume_events epoch ack id fresh) = ok (Events.resume_events s epoch ack id fresh)
dispatch s (deliver_delta baseline) = ok (Snapshot.deliver_delta s baseline)
dispatch s (expire_baseline baseline) = ok (Snapshot.expire_baseline s baseline)
dispatch s (snapshot_resync baseline) = ok (Snapshot.snapshot_resync s baseline)
dispatch s (unknown op) = thrown (unsupported_operation op)

unfoldable pub transition : State → Step → Outcome (State × List Output)
transition s step = if s.closed then thrown transition_after_close else dispatch s step

-- The loop of `evaluateScenario` over the steps, with the trace so far.
unfoldable pub run : State → List Output → List Step → Outcome (State × List Output)
run s trace [] = ok (s, trace)
run s trace (step ∷ steps) = transition s step >>= λ result. run result.0 (trace ++ result.1) steps

unfoldable pub evaluate_scenario : Initial → List Step → Outcome (State × List Output)
unfolding run
evaluate_scenario initial steps = run (normalized_state initial) [] steps
