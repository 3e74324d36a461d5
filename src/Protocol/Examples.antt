-- ===== src/Protocol/Examples.antt =====
-- A connection of scripts/protocol-contract.mjs from its handshake to a reconnection, and the theorems
-- at its states.
pub mod Streams
use aigent_place.Base.{
  ℕ, ◌+◌, ◌≤◌, ◌<◌, ◌≡◌, ◌≢◌, refl, ◌⊎◌, inl, inr, String, Bool, true, false, Option, none, some,
  List, [], ◌∷◌, arith, eqb, map,
}
use mathlib.Core.List.{Perm}
use aigent_place.Base.Keys.{string_key, nat_key, ◌==◌}
use aigent_place.Base.Value.{
  Value, undefined, null, boolean, number, negative, string, strict_equal, positive_integer,
  non_empty_string, is_safe_integer, less_equal, truthy,
}
use aigent_place.Base.Lists.{All, any, every, find, filter, length, sum, last_or}
use aigent_place.Base.Map.{lookup, insert, has_own}
use aigent_place.Base.Sort.{sort_by}
use aigent_place.Base.Outcome.{Outcome, ok, thrown, transition_after_close}
use aigent_place.Protocol.State.{
  State, Mode, command_capable, spectate_only, Role, aigent, viewer, CompatibilityRecord,
  Connection, CommandResult, SequenceRecord, IdempotencyRecord, FeatureTable, Session, EventStream,
  StreamStatus, SnapshotStatus, new_session, new_event_stream, new_queue, new_snapshot,
}
use aigent_place.Protocol.Output.{
  Output, Code, Acceptance, CommandReference, SelectedFeature, handshake_accepted,
  connection_displaced, command_result, command_result_replayed, protocol_error, connection_closed,
  frame_too_large, sustained_outbound_overflow, queue_observed, event_enqueued, events_acknowledged,
  events_replayed, event_stream_reset, delta_delivered, invalid_envelope,
}
use aigent_place.Protocol.Compatibility.{serves_commands, serves_spectators}
use aigent_place.Protocol.Features.{FeatureOffer, sorted_unique_positive_integers, select_features}
use aigent_place.Protocol.Features.Selection.{Any, Answers, select_features-Answers}
use aigent_place.Protocol.Handshake.{
  HandshakeStep, handshake, negotiate, role_of, accept_handshake, choose_command_major,
  choose_retired_major, identity_matches, handshake_mode,
}
use aigent_place.Protocol.Handshake.Outcomes.{
  IsBestMajor, handshake_major, handshake_session, handshake_refused,
}
use aigent_place.Protocol.Compatibility.{highest_major, compatibility_record_valid}
use aigent_place.Protocol.Command.{
  CommandStep, ValidCommand, command, valid_command, reference, dispatch_command, execute_once,
  first_execution, record_sequence, idempotency_record, set_idempotency_record, property_key,
  authoritative_result_valid,
}
use aigent_place.Protocol.Command.Retry.{replay_of, command_retry}
use aigent_place.Protocol.Transition.{Step, transition, dispatch, run}
use aigent_place.Protocol.Transition.Durability.{InTurn, exactly_once}

abbrev pub registry : List CompatibilityRecord
registry =
    record {
      major = 1;
      command_capable = true;
      decoder = true;
      spectator_projection = true;
      deprecated_at_unix_ms = 0;
      command_support_until_unix_ms = undefined;
    }
    ∷ []

abbrev pub fresh : State
fresh = record {
  compatibility = registry;
  features = [];
  connection = none;
  session = new_session none;
  closed = false;
  idempotency = [];
  queue = new_queue;
  event_stream = new_event_stream "s1";
  snapshot = new_snapshot;
}

abbrev hello : HandshakeStep
hello = record {
  new_connection = undefined;
  offered_majors = some (number 1 ∷ number 2 ∷ []);
  role = string "aigent";
  aigent_id = some "a1";
  evaluation_time_unix_ms = undefined;
  connection_id = string "c1";
  session_epoch = string "e1";
  offered_features = [];
}

abbrev pub connected_as : String → Connection
connected_as id = record {
  mode = command_capable;
  protocol_major = 1;
  role = aigent;
  connection_id = id;
  aigent_id = some "a1";
  selected_features = [];
}

abbrev welcome : Acceptance
welcome = record {
  mode = command_capable;
  protocol_major = 1;
  connection_id = "c1";
  features = [];
  session_epoch = some "e1";
  upgrade_required = false;
  deprecation_notice = none;
}

abbrev pub greeted : State
greeted = record fresh { connection = some (connected_as "c1"); session = new_session (some "e1") }

hello_accepted : handshake fresh hello ≡ ok (greeted, handshake_accepted welcome ∷ [])
unfolding handshake negotiate accept_handshake choose_command_major choose_retired_major
    highest_major compatibility_record_valid serves_commands serves_spectators
    sorted_unique_positive_integers select_features role_of identity_matches handshake_mode
    strict_equal positive_integer truthy non_empty_string is_safe_integer less_equal any every
    filter sort_by lookup insert
hello_accepted = refl

handshake_major_example :
    (offered : List ℕ) × (sorted_unique_positive_integers hello.offered_majors ≡ some offered)
    × IsBestMajor fresh hello offered welcome
handshake_major_example = handshake_major fresh hello hello_accepted

handshake_session_example :
    ((welcome.mode ≡ command_capable)
      × (role_of hello.role ≡ some aigent)
      × (greeted.session ≡ new_session welcome.session_epoch))
    ⊎ ((welcome.mode ≡ spectate_only)
        × (greeted.session ≡ fresh.session)
        × (◌≡◌ {A = List Output} [] []))
handshake_session_example = handshake_session fresh hello hello_accepted

hello_twice : handshake greeted hello ≡ ok (greeted, protocol_error invalid_envelope none ∷ [])
unfolding handshake compatibility_record_valid every strict_equal
hello_twice = refl

handshake_refused_example :
    (greeted ≡ greeted)
    ⊎ ((a : Acceptance) × (rest : List Output) × (protocol_error invalid_envelope none ∷ []
          ≡ handshake_accepted a ∷ rest))
handshake_refused_example = handshake_refused greeted hello hello_twice

abbrev server_features : FeatureTable
server_features = ("chat", 1 ∷ 2 ∷ 3 ∷ []) ∷ ("trade", 1 ∷ []) ∷ []

abbrev feature_offers : List FeatureOffer
feature_offers =
    record { feature_id = "chat"; supported_versions = some (number 2 ∷ number 4 ∷ number 1 ∷ []) }
    ∷ record { feature_id = "maps"; supported_versions = some (number 1 ∷ []) }
    ∷ []

abbrev chosen_features : List SelectedFeature
chosen_features = record { feature_id = "chat"; version = 2 } ∷ []

chat_selected : select_features server_features feature_offers ≡ some chosen_features
unfolding select_features sorted_unique_positive_integers positive_integer strict_equal any find
    sort_by lookup
chat_selected = refl

select_features-Answers_example :
    All (λ f. Any (Answers server_features f) feature_offers) chosen_features
select_features-Answers_example =
    select_features-Answers server_features feature_offers chat_selected

abbrev pub accepted_result : CommandResult
accepted_result = record {
  accepted = boolean true;
  code = undefined;
  affected_entities = some (record { entity_id = string "x"; revision = number 4 } ∷ []);
}

abbrev pub stop_command : CommandStep
stop_command = record {
  protocol_major = number 1;
  connection_id = string "c1";
  message_id = number 7;
  sequence = number 1;
  idempotency_key = string "k1";
  kind = string "stop";
  session_epoch = string "e1";
  content_digest = "d1";
  result = some accepted_result;
}

abbrev pub stop_checked : ValidCommand
stop_checked = record {
  connection = connected_as "c1";
  message_id = 7;
  sequence = 1;
  idempotency_key = "k1";
  kind = "stop";
}

abbrev pub stopped : State
stopped = record greeted {
  session = record {
    active_epoch = some "e1";
    next_sequence = 2;
    sequences =
        (1, record { content_digest = "d1"; idempotency_key = "k1"; result = accepted_result })
        ∷ [];
  };
  idempotency =
      ("a1", (1, ("k1", record { content_digest = "d1"; result = accepted_result }) ∷ []) ∷ [])
      ∷ [];
}

stop_is_valid : valid_command greeted.connection stop_command ≡ some stop_checked
unfolding valid_command strict_equal positive_integer non_empty_string
stop_is_valid = refl

pub stop_executed :
    command greeted stop_command
    ≡ (stopped, command_result (reference stop_checked) accepted_result ∷ [])
unfolding command valid_command dispatch_command execute_once first_execution record_sequence
    idempotency_record set_idempotency_record property_key authoritative_result_valid strict_equal
    positive_integer non_empty_string every lookup insert
stop_executed = refl

command_retry_example :
    command stopped stop_command
    ≡ (stopped, command_result_replayed (reference stop_checked) accepted_result ∷ [])
command_retry_example = command_retry greeted stop_command stop_executed (omega arith)

abbrev hello_again : HandshakeStep
hello_again = record hello {
  new_connection = boolean true;
  connection_id = string "c2";
  session_epoch = string "e2";
}

abbrev reconnected : State
reconnected = record stopped {
  connection = some (connected_as "c2");
  session = new_session (some "e2");
}

abbrev reconnection_trace : List Output
reconnection_trace =
    handshake_accepted (record welcome { connection_id = "c2"; session_epoch = some "e2" })
    ∷ connection_displaced "e1"
    ∷ []

reconnection :
    run stopped [] (Step.handshake hello_again ∷ []) ≡ ok (reconnected, reconnection_trace)
unfolding run transition dispatch handshake negotiate accept_handshake choose_command_major
    choose_retired_major highest_major compatibility_record_valid serves_commands serves_spectators
    sorted_unique_positive_integers select_features role_of identity_matches handshake_mode
    strict_equal positive_integer truthy non_empty_string is_safe_integer less_equal any every
    filter sort_by lookup insert
reconnection = refl

-- The client sends the command again on its new connection, with no result of its own.
abbrev stop_again : CommandStep
stop_again = record stop_command {
  connection_id = string "c2";
  message_id = number 9;
  session_epoch = string "e2";
  result = none;
}

abbrev stop_again_checked : ValidCommand
stop_again_checked = record stop_checked { connection = connected_as "c2"; message_id = 9 }

stop_again-InTurn : InTurn reconnected stop_again stop_again_checked
unfolding valid_command strict_equal positive_integer non_empty_string
stop_again-InTurn = record {
  well_formed = refl;
  capable = refl;
  same_epoch = refl;
  next = refl;
  served = inr refl;
}

exactly_once_example :
    (command reconnected stop_again).1
    ≡ command_result_replayed (reference stop_again_checked) accepted_result ∷ []
exactly_once_example =
    exactly_once greeted stop_command stop_checked stop_is_valid stop_executed
      (Step.handshake hello_again ∷ []) [] (reconnected, reconnection_trace) reconnection stop_again
      stop_again_checked stop_again-InTurn refl refl refl refl
