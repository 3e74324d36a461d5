-- ===== src/Protocol/Command.antt =====
-- scripts/protocol-contract.mjs: `command`, with the session's sequence records and the idempotency
-- records that outlive a session.
pub mod Sessions
pub mod Retry
pub mod Idempotency
use aigent_place.Base.{
  ℕ, ◌+◌, String, Bool, true, false, ◌&&◌, ◌||◌, not, Option, none, some, List, [], ◌∷◌,
  if◌then◌else◌, ltb, ◌==◌,
}
use aigent_place.Base.Keys.{string_key, nat_key}
use aigent_place.Base.Value.{
  Value, boolean, number, string, undefined, strict_equal, positive_integer, non_empty_string,
  nullable_string,
}
use aigent_place.Base.Lists.{every}
use aigent_place.Base.Map.{Map, lookup, insert}
use aigent_place.Protocol.State.{
  State, Mode, command_capable, spectate_only, Connection, EntityRevision, CommandResult,
  SequenceRecord, IdempotencyRecord, IdempotencyTable,
}
use aigent_place.Protocol.Output.{
  Code, Output, CommandReference, code_name, invalid_envelope, stale_session_epoch,
  sequence_content_conflict, sequence_gap, unsupported_message, idempotency_conflict,
  protocol_error, command_rejected, command_result, command_result_replayed,
}

pub record CommandStep : Type 0 where
  pub protocol_major : Value
  pub connection_id : Value
  pub message_id : Value
  pub sequence : Value
  pub idempotency_key : Value
  pub kind : Value
  pub session_epoch : Value
  pub content_digest : String
  pub result : Option CommandResult

-- The name of a property: `null` becomes "null".
unfoldable pub property_key : Option String → String
property_key none = "null"
property_key (some s) = s

abbrev bind : {A B : Type 0} → Option A → (A → Option B) → Option B
bind none f = none
bind (some a) f = f a

abbrev pub or_empty : {K V : Type 0} → Option (Map K V) → Map K V
or_empty none = []
or_empty (some m) = m

-- Own properties only: aigents and keys that are the names of members of `Object.prototype`, which the
-- code finds as inherited, are outside the model.
unfoldable pub idempotency_record :
    IdempotencyTable → Option String → ℕ → String → Option IdempotencyRecord
idempotency_record table aigent_id major key =
    bind (lookup (property_key aigent_id) table)
      λ majors. bind (lookup major majors) λ keys. lookup key keys

unfoldable pub set_idempotency_record :
    IdempotencyTable → Option String → ℕ → String → IdempotencyRecord → IdempotencyTable
set_idempotency_record table aigent_id major key r =
    let majors = or_empty (lookup (property_key aigent_id) table) in
    let keys = or_empty (lookup major majors) in
    insert (property_key aigent_id) (insert major (insert key r keys) majors) table

is_present : {A : Type 0} → Option A → Bool
is_present none = false
is_present (some a) = true

entity_revision_valid : EntityRevision → Bool
unfolding is_present
entity_revision_valid e =
    is_present (non_empty_string e.entity_id) && is_present (positive_integer e.revision)

entities_valid : Option (List EntityRevision) → Bool
entities_valid none = false
entities_valid (some entities) = every entity_revision_valid entities

-- The result by its `accepted` field.
result_valid_by : Value → CommandResult → Bool
unfolding is_present
result_valid_by (boolean true) r = entities_valid r.affected_entities
result_valid_by (boolean false) r = is_present (non_empty_string r.code)
result_valid_by _ r = false

unfoldable pub authoritative_result_valid : CommandResult → Bool
unfolding result_valid_by entities_valid entity_revision_valid
authoritative_result_valid r = result_valid_by r.accepted r

-- A command whose envelope is well formed, with the values that the checks found.
pub record ValidCommand : Type 0 where
  pub connection : Connection
  pub message_id : ℕ
  pub sequence : ℕ
  pub idempotency_key : String
  pub kind : String

abbrev pub reference : ValidCommand → CommandReference
reference v = record {
  message_id = v.message_id;
  sequence = v.sequence;
  idempotency_key = v.idempotency_key;
}

text : Value → Option String
text (string s) = some s
text _ = none

unfoldable pub valid_command : Option Connection → CommandStep → Option ValidCommand
unfolding text
valid_command none c = none
valid_command (some connection) c =
    if strict_equal c.protocol_major (number connection.protocol_major)
      && strict_equal c.connection_id (string connection.connection_id)
    then (bind (positive_integer c.message_id) λ message_id.
        bind (positive_integer c.sequence) λ sequence.
          bind (non_empty_string c.idempotency_key) λ idempotency_key. bind (text c.kind) λ kind.
            some (record {
              connection = connection;
              message_id = message_id;
              sequence = sequence;
              idempotency_key = idempotency_key;
              kind = kind;
            }))
    else none

-- `{ accepted: false, code }`
abbrev pub rejection : Code → CommandResult
unfolding code_name
rejection code = record {
  accepted = boolean false;
  code = string (code_name code);
  affected_entities = none;
}

-- The write of `session.sequences[sequence]` and the step of `next_sequence`.
unfoldable pub record_sequence : State → ValidCommand → String → CommandResult → State
record_sequence s v digest result = record s {
  session = record (s.session) {
    next_sequence = s.session.next_sequence + 1;
    sequences =
        insert v.sequence
          (record { content_digest = digest; idempotency_key = v.idempotency_key; result = result })
          s.session.sequences;
  };
}

unfoldable pub record_exact_rejection : State → ValidCommand → String → Code → State × List Output
record_exact_rejection s v digest code =
    (record_sequence s v digest (rejection code), command_rejected code (reference v) ∷ [])

-- A sequence number that was used before.
unfoldable pub replay_sequence :
    State → CommandStep → ValidCommand → Option SequenceRecord → State × List Output
replay_sequence s c v none = (s, command_rejected sequence_content_conflict (reference v) ∷ [])
replay_sequence s c v (some prior) =
    if prior.content_digest == c.content_digest && prior.idempotency_key == v.idempotency_key
    then (s, command_result_replayed (reference v) prior.result ∷ [])
    else (s, command_rejected sequence_content_conflict (reference v) ∷ [])

-- The first use of an idempotency key.
unfoldable pub first_execution :
    State → CommandStep → ValidCommand → Option CommandResult → State × List Output
first_execution s c v none = (s, protocol_error invalid_envelope (some v.message_id) ∷ [])
first_execution s c v (some result) =
    if authoritative_result_valid result
    then (
      record_sequence
          (record s {
            idempotency =
                set_idempotency_record s.idempotency v.connection.aigent_id
                  v.connection.protocol_major v.idempotency_key
                  (record { content_digest = c.content_digest; result = result });
          })
          v c.content_digest result,
      command_result (reference v) result ∷ [],
    )
    else (s, protocol_error invalid_envelope (some v.message_id) ∷ [])

unfoldable pub execute_once :
    State → CommandStep → ValidCommand → Option IdempotencyRecord → State × List Output
execute_once s c v none = first_execution s c v c.result
execute_once s c v (some prior) =
    if prior.content_digest == c.content_digest
    then (
      record_sequence s v c.content_digest prior.result,
      command_result_replayed (reference v) prior.result ∷ [],
    )
    else record_exact_rejection s v c.content_digest idempotency_conflict

abbrev pub is_command_capable : Mode → Bool
is_command_capable command_capable = true
is_command_capable spectate_only = false

unfoldable pub dispatch_command : State → CommandStep → ValidCommand → State × List Output
dispatch_command s c v =
    if not (is_command_capable v.connection.mode)
    then (s, command_rejected Code.spectate_only (reference v) ∷ [])
    else if not (strict_equal c.session_epoch (nullable_string s.session.active_epoch))
    then (s, command_rejected stale_session_epoch (reference v) ∷ [])
    else if ltb v.sequence s.session.next_sequence
    then replay_sequence s c v (lookup v.sequence s.session.sequences)
    else if ltb s.session.next_sequence v.sequence
    then (s, command_rejected sequence_gap (reference v) ∷ [])
    else if not (v.kind == "cancel_intent") && not (v.kind == "stop")
    then record_exact_rejection s v c.content_digest unsupported_message
    else execute_once s c v (
        idempotency_record s.idempotency v.connection.aigent_id v.connection.protocol_major
          v.idempotency_key)

unfoldable pub checked_command : State → CommandStep → Option ValidCommand → State × List Output
checked_command s c none = (s, protocol_error invalid_envelope (positive_integer c.message_id) ∷ [])
checked_command s c (some v) = dispatch_command s c v

unfoldable pub command : State → CommandStep → State × List Output
unfolding checked_command
command s c = checked_command s c (valid_command s.connection c)
