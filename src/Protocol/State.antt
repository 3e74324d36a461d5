-- ===== src/Protocol/State.antt =====
-- scripts/protocol-contract.mjs: the state that `normalizedState` builds.
use aigent_place.Base.{
  ℕ, String, Bool, false, Option, none, some, List, [], ◌∷◌, if◌then◌else◌, ltb,
}
use aigent_place.Base.Value.{Value}
use aigent_place.Base.Map.{Map}

pub data Mode : Type 0 where
  command_capable spectate_only : Mode

pub data Role : Type 0 where
  aigent viewer : Role

-- One protocol major in the registry. The three flags are only compared with `true`, so an absent
-- flag is `false`; an absent or null `deprecated_at_unix_ms` is 0, which the code does not tell apart.
pub record CompatibilityRecord : Type 0 where
  pub major : ℕ
  pub command_capable : Bool
  pub decoder : Bool
  pub spectator_projection : Bool
  pub deprecated_at_unix_ms : ℕ
  pub command_support_until_unix_ms : Value

-- `{ feature_id: [versions] }`
abbrev pub FeatureTable : Type 0
FeatureTable = Map String (List ℕ)

pub record Connection : Type 0 where
  pub mode : Mode
  pub protocol_major : ℕ
  pub role : Role
  pub connection_id : String
  pub aigent_id : Option String
  pub selected_features : Map String ℕ

pub record EntityRevision : Type 0 where
  pub entity_id : Value
  pub revision : Value

-- A command's result: `{accepted: true, affected_entities}` or `{accepted: false, code}`.
-- `affected_entities` is `none` where the field is not an array.
pub record CommandResult : Type 0 where
  pub accepted : Value
  pub code : Value
  pub affected_entities : Option (List EntityRevision)

pub record SequenceRecord : Type 0 where
  pub content_digest : String
  pub idempotency_key : String
  pub result : CommandResult

pub record IdempotencyRecord : Type 0 where
  pub content_digest : String
  pub result : CommandResult

pub record Session : Type 0 where
  pub active_epoch : Option String
  pub next_sequence : ℕ
  pub sequences : Map ℕ SequenceRecord

-- `idempotency[aigent_id][major][key]`
abbrev pub IdempotencyTable : Type 0
IdempotencyTable = Map String (Map ℕ (Map String IdempotencyRecord))

pub record OutboundQueue : Type 0 where
  pub state_bytes : ℕ
  pub state_items : List ℕ
  pub event_bytes : ℕ
  pub over_limit_ticks : ℕ

pub data StreamStatus : Type 0 where
  live event_resync_required : StreamStatus

-- A journal entry holds its sequence number and nothing else.
pub record EventStream : Type 0 where
  pub epoch : String
  pub expected_sequence : ℕ
  pub highest_sent_sequence : ℕ
  pub last_ack : ℕ
  pub status : StreamStatus
  pub journal : List ℕ

pub data SnapshotStatus : Type 0 where
  live snapshot_resync_required : SnapshotStatus

pub record Snapshot : Type 0 where
  pub baseline_id : Value
  pub retained_baselines : List Value
  pub status : SnapshotStatus

pub record State : Type 0 where
  pub compatibility : List CompatibilityRecord
  pub features : Map ℕ (Mode → FeatureTable)
  pub connection : Option Connection
  pub session : Session
  pub closed : Bool
  pub idempotency : IdempotencyTable
  pub queue : OutboundQueue
  pub event_stream : EventStream
  pub snapshot : Snapshot

abbrev pub new_session : Option String → Session
new_session epoch = record { active_epoch = epoch; next_sequence = 1; sequences = [] }

abbrev pub new_event_stream : String → EventStream
new_event_stream stream_epoch = record {
  epoch = stream_epoch;
  expected_sequence = 1;
  highest_sent_sequence = 0;
  last_ack = 0;
  status = StreamStatus.live;
  journal = [];
}

abbrev pub new_queue : OutboundQueue
new_queue = record { state_bytes = 0; state_items = []; event_bytes = 0; over_limit_ticks = 0 }

abbrev pub new_snapshot : Snapshot
new_snapshot = record {
  baseline_id = Value.null;
  retained_baselines = [];
  status = SnapshotStatus.live;
}

or_default : {A : Type 0} → Option A → A → A
or_default none d = d
or_default (some a) d = a

-- The last lines of `normalizedState`: queued bytes with no items are one item.
unfoldable pub normalized_queue : OutboundQueue → OutboundQueue
normalized_queue q = record q { state_items = items q.state_items q.state_bytes }
  where
    items : List ℕ → ℕ → List ℕ
    items [] bytes = if ltb 0 bytes then bytes ∷ [] else []
    items (x ∷ xs) bytes = x ∷ xs

-- The fields of a fixture's `initial` object; a missing field is `none`.
pub record Initial : Type 0 where
  pub compatibility : Option (List CompatibilityRecord)
  pub features : Option (Map ℕ (Mode → FeatureTable))
  pub connection : Option Connection
  pub session : Option Session
  pub closed : Option Bool
  pub idempotency : Option IdempotencyTable
  pub queue : Option OutboundQueue
  pub event_stream : Option EventStream
  pub snapshot : Option Snapshot

unfoldable pub normalized_state : Initial → State
unfolding or_default normalized_queue
normalized_state initial = record {
  compatibility = or_default initial.compatibility [];
  features = or_default initial.features [];
  connection = initial.connection;
  session = or_default initial.session (new_session none);
  closed = or_default initial.closed false;
  idempotency = or_default initial.idempotency [];
  queue = normalized_queue (or_default initial.queue new_queue);
  event_stream = or_default initial.event_stream (new_event_stream "event-epoch-1");
  snapshot = or_default initial.snapshot new_snapshot;
}
