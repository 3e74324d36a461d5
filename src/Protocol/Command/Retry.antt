-- ===== src/Protocol/Command/Retry.antt =====
-- Retried commands of scripts/protocol-contract.mjs: a command that used up its sequence number gets
-- its recorded answer again.
use aigent_place.Base.{
  String, ◌≡◌, refl, ap, ◌∙◌, ◌≢◌, inl, inr, ◌⊎◌, true, Option, none, some, [], ◌∷◌, arith, ==_refl,
  Option-cases, Bool-cases, ltb,
}
use aigent_place.Base.Keys.{string_key, nat_key}
use aigent_place.Base.Value.{strict_equal, nullable_string}
use aigent_place.Base.Map.{lookup, insert, lookup-insert}
use aigent_place.Protocol.State.{
  State, IdempotencyRecord, CommandResult, SequenceRecord, IdempotencyTable,
}
use aigent_place.Protocol.Output.{
  Output, command_result, command_result_replayed, command_rejected, invalid_envelope,
  unsupported_message,
}
use aigent_place.Protocol.Command.{
  CommandStep, ValidCommand, rejection, reference, is_command_capable, idempotency_record, command,
  checked_command, valid_command, dispatch_command, execute_once, first_execution, replay_sequence,
  record_sequence, record_exact_rejection, authoritative_result_valid, set_idempotency_record,
}
use mathlib.Core.Path.{subst}

-- The answer to a retry of a command that was answered by `o`.
abbrev pub replay_of : Output → Output
replay_of (command_result ref result) = command_result_replayed ref result
replay_of (command_rejected code ref) = command_result_replayed ref (rejection code)
replay_of o = o

-- The result that an answer carries; an output that answers no command counts as a rejection.
abbrev answered : Output → CommandResult
answered (command_result ref result) = result
answered (command_result_replayed ref result) = result
answered (command_rejected code ref) = rejection code
answered _ = rejection invalid_envelope

abbrev entry : String → ValidCommand → CommandResult → SequenceRecord
entry digest v result = record {
  content_digest = digest;
  idempotency_key = v.idempotency_key;
  result = result;
}

-- What a command leaves behind that used up its sequence number.
record Consumed (s : State) (c : CommandStep) (v : ValidCommand) (s' : State) (o : Output)
    : Type 0 where
  connection : s'.connection ≡ s.connection
  epoch : s'.session.active_epoch ≡ s.session.active_epoch
  capable : is_command_capable v.connection.mode ≡ true
  same_epoch : strict_equal c.session_epoch (nullable_string s.session.active_epoch) ≡ true
  older : ltb v.sequence s'.session.next_sequence ≡ true
  recorded : lookup v.sequence s'.session.sequences ≡ some (entry c.content_digest v (answered o))
  answer : replay_of o ≡ command_result_replayed (reference v) (answered o)

prior_replayed :
    (s : State) (c : CommandStep) (v : ValidCommand) {s' : State} {o : Output}
    → Consumed s c v s' o
    → dispatch_command s' c v ≡ (s', replay_of o ∷ [])
unfolding dispatch_command replay_sequence
prior_replayed s c v k = ground (arith, ==_refl c.content_digest, ==_refl v.idempotency_key)

recorded_lookup :
    (s : State) (v : ValidCommand) (r : SequenceRecord)
    → lookup v.sequence (insert v.sequence r s.session.sequences) ≡ some r
recorded_lookup s v r =
    rw (lookup-insert v.sequence v.sequence r s.session.sequences) (rw (==_refl v.sequence))

-- The command has come to its sequence number in its own session.
module _ (s : State) (c : CommandStep) (v : ValidCommand)
    (capable : is_command_capable v.connection.mode ≡ true)
    (same : strict_equal c.session_epoch (nullable_string s.session.active_epoch) ≡ true)
    (here : v.sequence ≡ s.session.next_sequence) where
  written :
      (table : IdempotencyTable) (o : Output)
      → replay_of o ≡ command_result_replayed (reference v) (answered o)
      → {s' : State}
      → record_sequence (record s { idempotency = table }) v c.content_digest (answered o) ≡ s'
      → Consumed s c v s' o
  unfolding record_sequence
  written table o e p =
      subst (λ t. Consumed s c v t o) p
        (record {
          connection = refl;
          epoch = refl;
          capable = capable;
          same_epoch = same;
          older = ground arith;
          recorded = recorded_lookup s v (entry c.content_digest v (answered o));
          answer = e;
        })

  first_execution-Consumed :
      (result : Option CommandResult) {s' : State} {o : Output}
      → first_execution s c v result ≡ (s', o ∷ [])
      → s'.session.next_sequence ≢ s.session.next_sequence
      → Consumed s c v s' o
  unfolding first_execution
  first_execution-Consumed none h more = absurd (ground arith)
  first_execution-Consumed (some result) {s'} {o} h more =
      elim (Bool-cases (authoritative_result_valid result)) [
        | inl good ↦
            written
              (set_idempotency_record s.idempotency v.connection.aigent_id
                v.connection.protocol_major v.idempotency_key
                (record { content_digest = c.content_digest; result = result }))
              o (ground (arith, good)) (ground (arith, good))
        | inr bad ↦ absurd (ground (arith, bad))
      ]

  execute_once-Consumed :
      (prior : Option IdempotencyRecord) {s' : State} {o : Output}
      → execute_once s c v prior ≡ (s', o ∷ [])
      → s'.session.next_sequence ≢ s.session.next_sequence
      → Consumed s c v s' o
  unfolding execute_once record_exact_rejection
  execute_once-Consumed none h more = first_execution-Consumed c.result h more
  execute_once-Consumed (some prior) {s'} {o} h more =
      written s.idempotency o (ground arith) (ground arith)

abbrev prior_of : State → ValidCommand → Option IdempotencyRecord
prior_of s v =
    idempotency_record s.idempotency v.connection.aigent_id v.connection.protocol_major
      v.idempotency_key

-- Only a command in its own session, in turn, moves the session on.
in_turn :
    (s : State) (c : CommandStep) (v : ValidCommand) {s' : State} {o : Output}
    → dispatch_command s c v ≡ (s', o ∷ [])
    → s'.session.next_sequence ≢ s.session.next_sequence
    → (is_command_capable v.connection.mode ≡ true)
      × (strict_equal c.session_epoch (nullable_string s.session.active_epoch) ≡ true)
      × (v.sequence ≡ s.session.next_sequence)
      × ((record_exact_rejection s v c.content_digest unsupported_message ≡ (s', o ∷ []))
          ⊎ (execute_once s c v (prior_of s v) ≡ (s', o ∷ [])))
unfolding dispatch_command replay_sequence
in_turn s c v h more = ground arith

dispatch_command-Consumed :
    (s : State) (c : CommandStep) (v : ValidCommand) {s' : State} {o : Output}
    → dispatch_command s c v ≡ (s', o ∷ [])
    → s'.session.next_sequence ≢ s.session.next_sequence
    → Consumed s c v s' o
unfolding record_exact_rejection
dispatch_command-Consumed s c v {s'} {o} h more =
    let (capable, same, here, ran) = in_turn s c v h more in
    elim ran [
      | inl refused ↦
          written s c v capable same here s.idempotency o (ground (arith, refused))
            (ground (arith, refused))
      | inr executed ↦ execute_once-Consumed s c v capable same here (prior_of s v) executed more
    ]

-- A command that moved the session on is answered, when it is sent again, by a replay of its first
-- answer, and the retry changes nothing.
pub command_retry :
    (s : State) (c : CommandStep) {s' : State} {o : Output}
    → command s c ≡ (s', o ∷ [])
    → s'.session.next_sequence ≢ s.session.next_sequence
    → command s' c ≡ (s', replay_of o ∷ [])
unfolding command
command_retry s c {s'} {o} h more = elim (Option-cases (valid_command s.connection c)) [
  | inl bad ↦ absurd (ground (arith, bad))
  | inr (v, good) ↦
      let k = dispatch_command-Consumed s c v {s' = s'} {o = o} (ground (arith, good)) more in
      let still : valid_command s'.connection c ≡ some v =
        ap (λ connection. valid_command connection c) k.connection ∙ good in
      rw (still, checked_command) (prior_replayed s c v k)
]
