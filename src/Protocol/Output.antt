-- ===== src/Protocol/Output.antt =====
-- scripts/protocol-contract.mjs: the outputs of a transition, and the codes that they carry.
use aigent_place.Base.{ℕ, String, Bool, Option, List}
use aigent_place.Base.Value.{Value}
use aigent_place.Protocol.State.{Mode, CommandResult}

pub data Code : Type 0 where
  invalid_envelope unsupported_protocol unsupported_message unsupported_feature : Code
  spectate_only stale_session_epoch sequence_content_conflict sequence_gap : Code
  idempotency_conflict : Code

unfoldable pub code_name : Code → String
code_name invalid_envelope = "invalid_envelope"
code_name unsupported_protocol = "unsupported_protocol"
code_name unsupported_message = "unsupported_message"
code_name unsupported_feature = "unsupported_feature"
code_name spectate_only = "spectate_only"
code_name stale_session_epoch = "stale_session_epoch"
code_name sequence_content_conflict = "sequence_content_conflict"
code_name sequence_gap = "sequence_gap"
code_name idempotency_conflict = "idempotency_conflict"

pub record SelectedFeature : Type 0 where
  pub feature_id : String
  pub version : ℕ

pub record DeprecationNotice : Type 0 where
  pub deprecated_at_unix_ms : ℕ
  pub command_support_until_unix_ms : Value

-- The `handshake_accepted` output; a field that the code leaves out is `none`, and
-- `notice: "upgrade_required"` is a flag.
pub record Acceptance : Type 0 where
  pub mode : Mode
  pub protocol_major : ℕ
  pub connection_id : String
  pub features : List SelectedFeature
  pub session_epoch : Option String
  pub upgrade_required : Bool
  pub deprecation_notice : Option DeprecationNotice

-- What a reply says of the command that it answers.
pub record CommandReference : Type 0 where
  pub message_id : ℕ
  pub sequence : ℕ
  pub idempotency_key : String

pub data CloseReason : Type 0 where
  frame_too_large undecodable_frame : CloseReason
  sustained_outbound_overflow : ℕ → CloseReason

pub data EventResyncReason : Type 0 where
  event_not_admitted : Bool → EventResyncReason
  epoch_mismatch : EventResyncReason
  epoch_mismatch_at client_detected_gap : ℕ → ℕ → EventResyncReason

pub data BaselineFault : Type 0 where
  baseline_missing baseline_mismatched baseline_expired : BaselineFault

-- `protocol_error` has effect "none" always; its message id is `none` where it is null or left out.
pub data Output : Type 0 where
  compatibility_policy : Bool → Output
  handshake_accepted : Acceptance → Output
  handshake_rejected : Code → Output
  connection_displaced : String → Output
  connection_closed : CloseReason → Output
  protocol_error : Code → Option ℕ → Output
  envelope_accepted : Value → Output
  command_rejected : Code → CommandReference → Output
  command_result command_result_replayed : CommandReference → CommandResult → Output
  state_coalesced state_enqueued : ℕ → Bool → Output
  queue_observed : ℕ → Output
  event_enqueued : ℕ → Bool → Output
  event_resync_required : EventResyncReason → Output
  event_acknowledgement_ignored events_acknowledged : ℕ → Output
  event_duplicate_ignored event_received : ℕ → Output
  events_replayed : List ℕ → Output
  event_stream_reset : String → ℕ → ℕ → String → Output
  snapshot_resync_required : BaselineFault → Value → Output
  delta_delivered baseline_expired full_snapshot : Value → Output
