-- ===== src/Replay/Stream.antt =====
-- scripts/replay-contract.mjs: the event streams of the state that `createState` builds, `stream`,
-- `allocateEventSequence`, `allocateEventOrdinal`, `operationalHour`, and how `commit` emits an event.
use aigent_place.Base.{ℕ, ◌-◌, String, Option, none, some, List, [], ◌∷◌, ◌++◌, max}
use aigent_place.Base.Keys.{nat_key}
use aigent_place.Base.Map.{Map, lookup, insert}
use aigent_place.Base.Value.{Value, number, or_else, non_negative_integer}
use aigent_place.Base.Outcome.{Outcome, ok, thrown, allocator_exhausted, invalid_clock, ◌>>=◌}
use aigent_place.Replay.U64.{max_u64, successor}

pub record Event : Type 0 where
  pub sequence : ℕ
  pub stream_epoch : ℕ
  pub ordinal : ℕ
  pub bytes : ℕ
  pub committed_at : ℕ
  pub payload : String

pub data Reason : Type 0 where
  age stream_cap global_cap : Reason

pub record Evicted : Type 0 where
  pub sequence : ℕ
  pub reason : Reason

-- `next_sequence` is `none` after the last 64-bit number.
pub record Stream : Type 0 where
  pub epoch : ℕ
  pub next_sequence : Option ℕ
  pub acknowledged : ℕ
  pub events : List Event
  pub evicted : List Evicted

-- The part of the state that the streams live in; a stream id is the number that its text names.
pub record Log : Type 0 where
  pub streams : Map ℕ Stream
  pub next_stream_epoch : Option ℕ
  pub next_ordinal : Option ℕ
  pub last_commit_hour : ℕ

unfoldable pub new_stream : ℕ → Stream
new_stream epoch = record {
  epoch = epoch;
  next_sequence = some 1;
  acknowledged = 0;
  events = [];
  evicted = [];
}

-- The greatest sequence that was sent.
unfoldable pub sent_of : Option ℕ → ℕ
sent_of none = max_u64
sent_of (some next) = next - 1

abbrev pub greatest_sent : Stream → ℕ
greatest_sent target = sent_of target.next_sequence

-- `state.streams.get(id)` changed in place
unfoldable pub put : Log → ℕ → Stream → Log
put log id target = record log { streams = insert id target log.streams }

unfoldable pub open_new : Log → ℕ → Option ℕ → Outcome (Log × Stream)
open_new log id none = thrown allocator_exhausted
open_new log id (some epoch) = ok (
  record (put log id (new_stream epoch)) { next_stream_epoch = successor epoch },
  new_stream epoch,
)

unfoldable pub found_or_new : Log → ℕ → Option Stream → Outcome (Log × Stream)
unfolding open_new
found_or_new log id (some target) = ok (log, target)
found_or_new log id none = open_new log id log.next_stream_epoch

-- `stream(state, id)`
unfoldable pub stream : Log → ℕ → Outcome (Log × Stream)
unfolding found_or_new
stream log id = found_or_new log id (lookup id log.streams)

-- An event as a command asks for it.
pub record Emission : Type 0 where
  pub stream_id : ℕ
  pub bytes : ℕ
  pub payload : String

-- The event gets the next sequence of the stream and the next ordinal of the log.
unfoldable pub append_event :
    Log → ℕ → Emission → Stream → Option ℕ → Option ℕ → Outcome (Log × Event)
append_event log hour e target none ordinal = thrown allocator_exhausted
append_event log hour e target (some sequence) none = thrown allocator_exhausted
append_event log hour e target (some sequence) (some ordinal) =
    let event : Event = record {
      sequence = sequence;
      stream_epoch = target.epoch;
      ordinal = ordinal;
      bytes = e.bytes;
      committed_at = hour;
      payload = e.payload;
    } in
    let target' = record target {
      next_sequence = successor sequence;
      events = target.events ++ event ∷ [];
    } in
    ok (put (record log { next_ordinal = successor ordinal }) e.stream_id target', event)

unfoldable pub emit : Log → ℕ → Emission → Outcome (Log × Event)
emit log hour e =
    stream log e.stream_id >>= λ r. append_event r.0 hour e r.1 r.1.next_sequence r.0.next_ordinal

unfoldable pub at_hour : Log → Option ℕ → Outcome Log
at_hour log none = thrown invalid_clock
at_hour log (some candidate) =
    ok (record log { last_commit_hour = max candidate log.last_commit_hour })

-- `operationalHour(state, suppliedHour)`; the hour is the new `last_commit_hour`.
unfoldable pub operational_hour : Log → Value → Outcome Log
operational_hour log supplied =
    at_hour log (non_negative_integer (or_else supplied (number log.last_commit_hour)))
