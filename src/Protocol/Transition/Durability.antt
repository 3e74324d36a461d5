-- ===== src/Protocol/Transition/Durability.antt =====
-- Commands of scripts/protocol-contract.mjs across sessions: an idempotency record, once made, stays,
-- and the key replays its first result.
use aigent_place.Base.{
  ℕ, ◌≡◌, sym, ap, String, true, ◌⊎◌, inl, inr, Option, some, List, [], ◌∷◌, arith, ==_refl,
}
use aigent_place.Base.Keys.{string_key, nat_key}
use aigent_place.Base.Value.{strict_equal, nullable_string}
use aigent_place.Base.Outcome.{ok}
use aigent_place.Protocol.State.{State, IdempotencyRecord, CommandResult}
use aigent_place.Protocol.Output.{Output, CommandReference, command_result, command_result_replayed}
use aigent_place.Protocol.Handshake.{HandshakeStep, handshake, accept_handshake}
use aigent_place.Protocol.Command.{
  CommandStep, ValidCommand, command, checked_command, valid_command, dispatch_command,
  execute_once, idempotency_record, set_idempotency_record, first_execution, replay_sequence,
  record_exact_rejection, record_sequence, is_command_capable, reference, property_key,
}
use aigent_place.Protocol.Command.Idempotency.{command_keeps_idempotency, idempotency_record-set}
use aigent_place.Protocol.Envelope.{envelope, decode_failure}
use aigent_place.Protocol.Queue.{enqueue_state, observe_queue, enqueue_event}
use aigent_place.Protocol.Events.{acknowledge_event, receive_event, resume_events}
use aigent_place.Protocol.Snapshot.{deliver_delta, expire_baseline, snapshot_resync}
use aigent_place.Protocol.Transition.{Step, dispatch, transition, run}
use aigent_place.Protocol.Transition.Runs.{transition-eq-ok, run_inv, ok_end}

handshake-idempotency :
    (s : State) (h : HandshakeStep) (r : State × List Output)
    → handshake s h ≡ ok r
    → r.0.idempotency ≡ s.idempotency
unfolding handshake accept_handshake
handshake-idempotency s h r e = ground arith

-- Only a command touches the idempotency records.
dispatch-idempotency :
    (s : State) (step : Step) (r : State × List Output)
    → dispatch s step ≡ ok r
    → (r.0.idempotency ≡ s.idempotency)
      ⊎ ((c : CommandStep) × (r.0.idempotency ≡ (command s c).0.idempotency))
unfolding dispatch envelope decode_failure enqueue_state observe_queue enqueue_event
    acknowledge_event receive_event resume_events deliver_delta expire_baseline snapshot_resync
dispatch-idempotency s (Step.handshake h) r e = inl (handshake-idempotency s h r e)
dispatch-idempotency s (Step.command c) r e =
    inr (c, ap (λ (t : State). t.idempotency) (sym (ok_end _ r e)))
dispatch-idempotency s step r e = inl (ground arith)

module _ (a : Option String) (m : ℕ) (k : String) (first : IdempotencyRecord) where
  abbrev Kept : State → Type 0
  Kept s = idempotency_record s.idempotency a m k ≡ some first

  transition-keeps :
      (s : State) (step : Step) (r : State × List Output)
      → transition s step ≡ ok r
      → Kept s
      → Kept r.0
  transition-keeps s step r e h =
      elim (dispatch-idempotency s step r (transition-eq-ok s step {r = r} e).1) [
        | inl same ↦ rw same h
        | inr (c, moved) ↦ rw moved (command_keeps_idempotency s c a m k h)
      ]

  -- No run of steps, through any number of sessions, changes or drops an idempotency record.
  pub run-keeps :
      (steps : List Step) (s : State) (trace : List Output) (r : State × List Output)
      → run s trace steps ≡ ok r
      → idempotency_record s.idempotency a m k ≡ some first
      → idempotency_record r.0.idempotency a m k ≡ some first
  run-keeps = run_inv Kept transition-keeps

-- A command that is in turn in its session, of a kind that is served.
pub record InTurn (s : State) (c : CommandStep) (v : ValidCommand) : Type 0 where
  pub well_formed : valid_command s.connection c ≡ some v
  pub capable : is_command_capable v.connection.mode ≡ true
  pub same_epoch : strict_equal c.session_epoch (nullable_string s.session.active_epoch) ≡ true
  pub next : v.sequence ≡ s.session.next_sequence
  pub served : (v.kind ≡ "cancel_intent") ⊎ (v.kind ≡ "stop")

replays_prior :
    (s : State) (c : CommandStep) (v : ValidCommand) {first : IdempotencyRecord}
    → InTurn s c v
    → idempotency_record s.idempotency v.connection.aigent_id v.connection.protocol_major
        v.idempotency_key
      ≡ some first
    → first.content_digest ≡ c.content_digest
    → (command s c).1 ≡ command_result_replayed (reference v) first.result ∷ []
unfolding command dispatch_command execute_once
replays_prior s c v {first} t prior same =
    rw (t.well_formed, checked_command)
      (ground (
        arith,
        t.capable,
        t.same_epoch,
        t.next,
        t.served,
        prior,
        same,
        ==_refl c.content_digest,
        ==_refl v.kind,
      ))

abbrev record_of : CommandStep → CommandResult → IdempotencyRecord
record_of c result = record { content_digest = c.content_digest; result = result }

recorded :
    (s : State) (c : CommandStep) (v : ValidCommand) (result : CommandResult)
    → idempotency_record
        (set_idempotency_record s.idempotency v.connection.aigent_id v.connection.protocol_major
          v.idempotency_key
          (record_of c result))
        v.connection.aigent_id
        v.connection.protocol_major
        v.idempotency_key
      ≡ some (record_of c result)
recorded s c v result = rw idempotency_record-set (
    rw (
      ==_refl (property_key v.connection.aigent_id),
      ==_refl v.connection.protocol_major,
      ==_refl v.idempotency_key,
    ))

executes :
    (s : State) (c : CommandStep) (v : ValidCommand) {s' : State} {ref : CommandReference}
    {result : CommandResult}
    → dispatch_command s c v ≡ (s', command_result ref result ∷ [])
    → idempotency_record s'.idempotency v.connection.aigent_id v.connection.protocol_major
        v.idempotency_key
      ≡ some (record_of c result)
unfolding dispatch_command execute_once first_execution replay_sequence record_exact_rejection
    record_sequence
executes s c v {s'} {ref} {result} e = ground (arith, recorded s c v result)

-- A command that was executed is not executed again: after any run of steps, reconnections
-- included, a command in turn with the same aigent, major, key and content gets the first result
-- replayed, whatever result it brings.
pub exactly_once :
    (s : State) (c : CommandStep) (v : ValidCommand) {s' : State} {ref : CommandReference}
    {result : CommandResult}
    → valid_command s.connection c ≡ some v
    → command s c ≡ (s', command_result ref result ∷ [])
    → (steps : List Step) (trace : List Output) (r : State × List Output)
    → run s' trace steps ≡ ok r
    → (d : CommandStep) (w : ValidCommand) → InTurn r.0 d w
    → w.connection.aigent_id ≡ v.connection.aigent_id
    → w.connection.protocol_major ≡ v.connection.protocol_major
    → w.idempotency_key ≡ v.idempotency_key
    → c.content_digest ≡ d.content_digest
    → (command r.0 d).1 ≡ command_result_replayed (reference w) result ∷ []
unfolding command
exactly_once s c v {s'} {ref} {result} good e steps trace r ran d w t aigent major key same =
    let executed : dispatch_command s c v ≡ (s', command_result ref result ∷ []) =
      rw (good, checked_command) at e in
    let kept =
      run-keeps v.connection.aigent_id v.connection.protocol_major v.idempotency_key
        (record_of c result) steps s' trace r ran (executes s c v executed) in
    replays_prior r.0 d w t (rw (aigent, major, key) kept) same
