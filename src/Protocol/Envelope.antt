-- ===== src/Protocol/Envelope.antt =====
-- scripts/protocol-contract.mjs: the "decode_failure" and "envelope" steps of `transition`.
use aigent_place.Base.{
  ℕ, String, Bool, true, false, ◌&&◌, ◌||◌, not, Option, none, some, List, [], ◌∷◌, if◌then◌else◌,
  ltb, ◌==◌,
}
use aigent_place.Base.Keys.{string_key}
use aigent_place.Base.Value.{
  Value, boolean, number, string, undefined, strict_equal, positive_integer, non_empty_string,
  value_key,
}
use aigent_place.Base.Lists.{any}
use aigent_place.Base.Map.{Map, lookup}
use aigent_place.Protocol.State.{State, Connection}
use aigent_place.Protocol.Output.{
  Code, Output, invalid_envelope, unsupported_message, unsupported_feature, protocol_error,
  envelope_accepted, connection_closed, frame_too_large, undecodable_frame,
}

pub record RequiredFeature : Type 0 where
  pub feature_id : String
  pub version : Value

-- A `required_features` that is left out is `[]`.
pub record EnvelopeStep : Type 0 where
  pub protocol_major : Value
  pub connection_id : Value
  pub message_id : Value
  pub body : Value
  pub direction : Value
  pub available : Value
  pub required_features : List RequiredFeature

abbrev pub client_bodies : List String
client_bodies =
    "command" ∷ "snapshot_resync_request" ∷ "event_acknowledgement" ∷ "event_resume_request" ∷ []

abbrev pub server_bodies : List String
server_bodies =
    "command_result" ∷ "protocol_error" ∷ "percept" ∷ "full_snapshot" ∷ "snapshot_delta"
    ∷ "snapshot_resync_required" ∷ "ordered_event" ∷ "event_resync_required" ∷ "event_stream_reset"
    ∷ "connection_displaced" ∷ []

unfoldable pub legal_bodies : Value → List String
legal_bodies (string direction) =
    if direction == "client_to_server"
    then client_bodies
    else if direction == "server_to_client"
    then server_bodies
    else []
legal_bodies _ = []

-- `legalBodies?.has(step.body)`, which holds of strings only.
unfoldable pub is_legal_body : Value → Value → Bool
unfolding legal_bodies
is_legal_body direction (string body) = any (λ legal. legal == body) (legal_bodies direction)
is_legal_body direction _ = false

is_some : {A : Type 0} → Option A → Bool
is_some none = false
is_some (some a) = true

unfoldable pub required_fields_valid : Option Connection → EnvelopeStep → Bool
unfolding is_some
required_fields_valid none e = false
required_fields_valid (some c) e =
    is_some (positive_integer e.protocol_major)
    && strict_equal e.protocol_major (number c.protocol_major)
    && is_some (non_empty_string e.connection_id)
    && strict_equal e.connection_id (string c.connection_id)
    && is_some (positive_integer e.message_id)

value_of : Option ℕ → Value
value_of none = undefined
value_of (some n) = number n

selected_features : Option Connection → Map String ℕ
selected_features none = []
selected_features (some c) = c.selected_features

unfoldable pub is_unsupported : Map String ℕ → RequiredFeature → Bool
unfolding value_of
is_unsupported selected f = not (strict_equal (value_of (lookup f.feature_id selected)) f.version)

unfoldable pub envelope_code : State → EnvelopeStep → Option Code
unfolding selected_features
envelope_code s e =
    if not (required_fields_valid s.connection e) || not (is_legal_body e.direction e.body)
    then some invalid_envelope
    else if strict_equal e.available (boolean false)
    then some unsupported_message
    else if any (is_unsupported (selected_features s.connection)) e.required_features
    then some unsupported_feature
    else none

answer : EnvelopeStep → Option Code → Output
answer e none = envelope_accepted e.body
answer e (some code) = protocol_error code (positive_integer e.message_id)

unfoldable pub envelope : State → EnvelopeStep → State × List Output
unfolding answer
envelope s e = (s, answer e (envelope_code s e) ∷ [])

unfoldable pub decode_failure : State → ℕ → ℕ → State × List Output
decode_failure s encoded_bytes frame_limit_bytes = (
  record s { closed = true },
  connection_closed
        (if ltb frame_limit_bytes encoded_bytes then frame_too_large else undecodable_frame)
      ∷ [],
)
