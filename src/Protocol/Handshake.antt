-- ===== src/Protocol/Handshake.antt =====
-- scripts/protocol-contract.mjs: `handshake`.
pub mod Outcomes
pub mod Selection
use aigent_place.Base.{
  ℕ, String, Bool, true, false, ◌&&◌, not, Option, none, some, List, [], ◌∷◌, ◌++◌, if◌then◌else◌,
  ltb, ◌==◌,
}
use aigent_place.Base.Keys.{string_key, nat_key}
use aigent_place.Base.Value.{
  Value, boolean, string, strict_equal, truthy, non_empty_string, nullable_string,
}
use aigent_place.Base.Lists.{every}
use aigent_place.Base.Map.{Map, lookup, insert}
use aigent_place.Base.Outcome.{Outcome, ok, thrown, invalid_compatibility_registry}
use aigent_place.Protocol.State.{
  State, Mode, command_capable, spectate_only, Role, aigent, viewer, CompatibilityRecord,
  Connection, FeatureTable, new_session,
}
use aigent_place.Protocol.Output.{
  Code, Output, Acceptance, SelectedFeature, invalid_envelope, unsupported_protocol,
  handshake_accepted, handshake_rejected, connection_displaced, protocol_error,
}
use aigent_place.Protocol.Compatibility.{
  compatibility_record_valid, serves_commands, serves_spectators, highest_major,
}
use aigent_place.Protocol.Features.{FeatureOffer, sorted_unique_positive_integers, select_features}

-- `offered_majors` is `none` where it is not an array; `aigent_id` is only tested for truth.
pub record HandshakeStep : Type 0 where
  pub new_connection : Value
  pub offered_majors : Option (List Value)
  pub role : Value
  pub aigent_id : Option String
  pub evaluation_time_unix_ms : Value
  pub connection_id : Value
  pub session_epoch : Value
  pub offered_features : List FeatureOffer

-- A handshake goes on, or it ends with `handshake_rejected`.
pub data Verdict (A : Type 0) : Type 0 where
  accept : A → Verdict A
  reject : Code → Verdict A

infixl 5 ◌>>=◌ ◌>>◌
abbrev pub ◌>>=◌ : {A B : Type 0} → Verdict A → (A → Verdict B) → Verdict B
accept a >>= f = f a
reject c >>= f = reject c

abbrev pub ◌>>◌ : {B : Type 0} → Verdict (Unit {0}) → Verdict B → Verdict B
m >> k = m >>= λ _. k

abbrev pub required : {A : Type 0} → Option A → Verdict A
required none = reject invalid_envelope
required (some a) = accept a

abbrev pub check : Bool → Verdict (Unit {0})
check true = accept tt
check false = reject invalid_envelope

unfoldable pub role_of : Value → Option Role
role_of (string s) =
    if s == "aigent" then some aigent else if s == "viewer" then some viewer else none
role_of _ = none

-- An aigent names itself, and a viewer does not.
unfoldable pub identity_matches : Role → Option String → Bool
identity_matches aigent id = truthy (nullable_string id)
identity_matches viewer id = not (truthy (nullable_string id))

-- `commandMajor ?? retiredMajor`
selected_major :
    Option CompatibilityRecord → Option CompatibilityRecord → Verdict CompatibilityRecord
selected_major (some r) retired = accept r
selected_major none (some r) = accept r
selected_major none none = reject unsupported_protocol

unfoldable pub handshake_mode : Option CompatibilityRecord → Role → Mode
handshake_mode (some r) aigent = command_capable
handshake_mode _ _ = spectate_only

-- Only a command session needs an epoch.
required_epoch : Mode → Value → Verdict (Option String)
required_epoch command_capable v = do epoch ← required (non_empty_string v); accept (some epoch)
required_epoch spectate_only v = accept none

available_features : Map ℕ (Mode → FeatureTable) → ℕ → Mode → FeatureTable
available_features features major mode = elim (lookup major features) [
  | none ↦ []
  | some by_mode ↦ by_mode mode
]

-- What the checks of a handshake have settled.
pub record Negotiated : Type 0 where
  pub role : Role
  pub command_major : Option CompatibilityRecord
  pub selected : CompatibilityRecord
  pub mode : Mode
  pub connection_id : String
  pub session_epoch : Option String
  pub features : List SelectedFeature

unfoldable pub choose_command_major : State → List ℕ → HandshakeStep → Option CompatibilityRecord
choose_command_major s offered h =
    highest_major (serves_commands offered h.evaluation_time_unix_ms) s.compatibility

unfoldable pub choose_retired_major : State → List ℕ → HandshakeStep → Option CompatibilityRecord
choose_retired_major s offered h =
    highest_major (serves_spectators offered h.evaluation_time_unix_ms) s.compatibility

unfoldable pub negotiate : State → HandshakeStep → Verdict Negotiated
unfolding selected_major required_epoch available_features
negotiate s h = do
  offered ← required (sorted_unique_positive_integers h.offered_majors)
  role ← required (role_of h.role)
  check (identity_matches role h.aigent_id)
  let command_major = choose_command_major s offered h
  selected ← selected_major command_major (choose_retired_major s offered h)
  let mode = handshake_mode command_major role
  connection_id ← required (non_empty_string h.connection_id)
  session_epoch ← required_epoch mode h.session_epoch
  features ←
      required
        (select_features (available_features s.features selected.major mode) h.offered_features)
  accept (record {
    role = role;
    command_major = command_major;
    selected = selected;
    mode = mode;
    connection_id = connection_id;
    session_epoch = session_epoch;
    features = features;
  })

is_none : {A : Type 0} → Option A → Bool
is_none none = true
is_none (some _) = false

abbrev DeprecationNotice : Type 0
DeprecationNotice = aigent_place.Protocol.Output.DeprecationNotice

deprecation_notice : Option CompatibilityRecord → Option DeprecationNotice
deprecation_notice none = none
deprecation_notice (some r) =
    if ltb 0 r.deprecated_at_unix_ms
    then some (record {
      deprecated_at_unix_ms = r.deprecated_at_unix_ms;
      command_support_until_unix_ms = r.command_support_until_unix_ms;
    })
    else none

unfoldable pub acceptance : Negotiated → Acceptance
unfolding is_none deprecation_notice
acceptance n = record {
  mode = n.mode;
  protocol_major = n.selected.major;
  connection_id = n.connection_id;
  features = n.features;
  session_epoch = n.session_epoch;
  upgrade_required = is_none n.command_major;
  deprecation_notice = deprecation_notice n.command_major;
}

-- `Object.fromEntries`
from_entries : List SelectedFeature → Map String ℕ → Map String ℕ
from_entries [] m = m
from_entries (f ∷ fs) m = from_entries fs (insert f.feature_id f.version m)

aigent_of : Role → Option String → Option String
aigent_of aigent id = id
aigent_of viewer id = none

unfoldable pub connection_of : Negotiated → HandshakeStep → Connection
unfolding from_entries aigent_of
connection_of n h = record {
  mode = n.mode;
  protocol_major = n.selected.major;
  role = n.role;
  connection_id = n.connection_id;
  aigent_id = aigent_of n.role h.aigent_id;
  selected_features = from_entries n.features [];
}

unfoldable pub displaced : Mode → Option String → List Output
displaced command_capable (some epoch) = if epoch == "" then [] else connection_displaced epoch ∷ []
displaced _ _ = []

unfoldable pub accept_handshake : State → HandshakeStep → Negotiated → State × List Output
unfolding acceptance connection_of displaced
accept_handshake s h n = (
  record s {
    connection = some (connection_of n h);
    session = session_after n.mode n.session_epoch;
  },
  handshake_accepted (acceptance n) ∷ displaced n.mode s.session.active_epoch,
)
  where
    session_after : Mode → Option String → aigent_place.Protocol.State.Session
    session_after command_capable epoch = new_session epoch
    session_after spectate_only epoch = s.session

is_connected : Option Connection → Bool
is_connected none = false
is_connected (some c) = true

unfoldable pub finish : State → HandshakeStep → Verdict Negotiated → State × List Output
finish s h (accept n) = accept_handshake s h n
finish s h (reject code) = (s, handshake_rejected code ∷ [])

unfoldable pub handshake : State → HandshakeStep → Outcome (State × List Output)
unfolding is_connected finish
handshake s h =
    if not (every compatibility_record_valid s.compatibility)
    then thrown invalid_compatibility_registry
    else if is_connected s.connection && not (strict_equal h.new_connection (boolean true))
    then ok (s, protocol_error invalid_envelope none ∷ [])
    else ok (finish s h (negotiate s h))
