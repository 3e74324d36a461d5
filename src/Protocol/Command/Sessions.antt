-- ===== src/Protocol/Command/Sessions.antt =====
-- The sequence numbers of a command session in scripts/protocol-contract.mjs.
use aigent_place.Base.{
  ℕ, ◌<◌, String, ◌≡◌, inl, inr, ◌⊎◌, true, ◌&&◌, Option, none, some, List, arith, ltb,
  if◌then◌else◌, Option-cases, Bool-cases, ◌==◌,
}
use aigent_place.Base.Keys.{nat_key, string_key}
use aigent_place.Base.Map.{lookup, insert, has_own, lookup-insert}
use aigent_place.Protocol.State.{
  State, Session, IdempotencyTable, IdempotencyRecord, CommandResult, SequenceRecord, new_session,
}
use aigent_place.Protocol.Output.{idempotency_conflict, unsupported_message}
use aigent_place.Protocol.Command.{
  CommandStep, ValidCommand, command, checked_command, valid_command, dispatch_command,
  authoritative_result_valid, rejection, execute_once, first_execution, replay_sequence,
  record_sequence, record_exact_rejection, idempotency_record,
}

-- The session has a record for exactly the sequence numbers that it has used up.
pub record IsRecorded (session : Session) : Type 0 where
  pub started : 0 < session.next_sequence
  pub used : (n : ℕ) → has_own n session.sequences ≡ (ltb 0 n && ltb n session.next_sequence)

pub new_session-IsRecorded : (epoch : Option String) → IsRecorded (new_session epoch)
unfolding has_own lookup
new_session-IsRecorded epoch = record { started = omega arith; used = λ n. ground arith }

has_own-insert :
    (k n : ℕ) (r : SequenceRecord) (m : List (ℕ × SequenceRecord))
    → has_own n (insert k r m) ≡ (if k == n then true else has_own n m)
unfolding has_own
has_own-insert k n r m = ground (arith, lookup-insert k n r m)

module _ (s : State) (c : CommandStep) (v : ValidCommand) (b : IsRecorded s.session) where
  record_sequence-IsRecorded :
      (table : IdempotencyTable) (digest : String) (result : CommandResult)
      → v.sequence ≡ s.session.next_sequence
      → IsRecorded (record_sequence (record s { idempotency = table }) v digest result).session
  unfolding record_sequence
  record_sequence-IsRecorded table digest result here = record {
    started = omega arith;
    used = λ n. ground (
      arith,
      b.started,
      b.used n,
      has_own-insert v.sequence n
          (record { content_digest = digest; idempotency_key = v.idempotency_key; result = result })
          s.session.sequences,
    );
  }

  first_execution-IsRecorded :
      (result : Option CommandResult)
      → v.sequence ≡ s.session.next_sequence
      → IsRecorded (first_execution s c v result).0.session
  unfolding first_execution
  first_execution-IsRecorded none here = b
  first_execution-IsRecorded (some result) here =
      elim (Bool-cases (authoritative_result_valid result)) [
        | inl good ↦ rw good (record_sequence-IsRecorded _ c.content_digest result here)
        | inr bad ↦ rw bad b
      ]

  execute_once-IsRecorded :
      (prior : Option IdempotencyRecord)
      → v.sequence ≡ s.session.next_sequence
      → IsRecorded (execute_once s c v prior).0.session
  unfolding execute_once record_exact_rejection
  execute_once-IsRecorded none here = first_execution-IsRecorded c.result here
  execute_once-IsRecorded (some prior) here =
      elim (Bool-cases (prior.content_digest == c.content_digest)) [
        | inl same ↦
            rw same (record_sequence-IsRecorded s.idempotency c.content_digest prior.result here)
        | inr other ↦ rw other (
            record_sequence-IsRecorded s.idempotency c.content_digest
              (rejection idempotency_conflict) here)
      ]

  -- The branches of the dispatch that leave the session alone, and those that add to it.
  dispatch_command-session :
      ((dispatch_command s c v).0.session ≡ s.session)
      ⊎ ((v.sequence ≡ s.session.next_sequence)
          × (((dispatch_command s c v).0
                ≡ (record_exact_rejection s v c.content_digest unsupported_message).0)
              ⊎ ((dispatch_command s c v).0
                  ≡ (execute_once s c v (
                      idempotency_record s.idempotency v.connection.aigent_id
                        v.connection.protocol_major v.idempotency_key)).0)))
  unfolding dispatch_command replay_sequence
  dispatch_command-session = ground arith

  dispatch_command-IsRecorded : IsRecorded (dispatch_command s c v).0.session
  unfolding record_exact_rejection
  dispatch_command-IsRecorded = elim dispatch_command-session [
    | inl same ↦ rw same b
    | inr (here, inl refused) ↦ rw refused (
        record_sequence-IsRecorded s.idempotency c.content_digest (rejection unsupported_message)
          here)
    | inr (here, inr executed) ↦ rw executed (execute_once-IsRecorded _ here)
  ]

-- Every command, whatever its fields, keeps the records of its session complete.
pub command-IsRecorded :
    (s : State) (c : CommandStep) → IsRecorded s.session → IsRecorded (command s c).0.session
unfolding command
command-IsRecorded s c b = elim (Option-cases (valid_command s.connection c)) [
  | inl bad ↦ rw (bad, checked_command) b
  | inr (v, good) ↦ rw (good, checked_command) (dispatch_command-IsRecorded s c v b)
]
