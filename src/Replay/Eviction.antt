-- ===== src/Replay/Eviction.antt =====
-- scripts/replay-contract.mjs: `evictEvents`, which drops what is too old and the oldest events of
-- what is too large.
pub mod Removal
pub mod Caps
pub mod Age
pub mod Bounds
use aigent_place.Base.{
  ℕ, zero, suc, ◌+◌, ◌-◌, ◌*◌, Bool, Option, none, some, List, [], ◌∷◌, ◌++◌, map, ◌&&◌, ◌||◌,
  if◌then◌else◌, ltb, leb, eqb,
}
use aigent_place.Base.Lists.{length, filter, head?, sum}
use aigent_place.Base.Map.{Map}
use aigent_place.Base.Sort.{sort_by}
use aigent_place.Base.Value.{Value}
use aigent_place.Base.Outcome.{Outcome, ok, ◌>>=◌}
use aigent_place.Replay.Stream.{
  Event, Reason, age, stream_cap, global_cap, Evicted, Stream, Log, operational_hour,
}

abbrev pub event_retention_hours : ℕ
event_retention_hours = 24

abbrev pub event_stream_byte_cap : ℕ
event_stream_byte_cap = 4 * 1024 * 1024

abbrev pub event_global_byte_cap : ℕ
event_global_byte_cap = 512 * 1024 * 1024

-- `event_evicted`
pub record Eviction : Type 0 where
  pub stream_id : ℕ
  pub sequence : ℕ
  pub reason : Reason

abbrev pub Streams : Type 0
Streams = Map ℕ Stream

-- `target.events.splice(target.events.indexOf(event), 1)`: an event of a stream is told by its sequence.
unfoldable pub without : ℕ → List Event → List Event
without sequence [] = []
without sequence (e ∷ es) =
    let rest = without sequence es in if eqb e.sequence sequence then es else e ∷ rest

unfoldable pub removed : Event → Reason → Stream → Stream
unfolding without
removed e reason target = record target {
  events = without e.sequence target.events;
  evicted = target.evicted ++ record { sequence = e.sequence; reason = reason } ∷ [];
}

-- `remove(id, event, reason)`
unfoldable pub remove : ℕ → Event → Reason → Streams → Streams
remove id e reason streams =
    map (λ entry. (entry.0, if eqb entry.0 id then removed e reason entry.1 else entry.1)) streams

unfoldable pub eviction : ℕ → Event → Reason → Eviction
eviction id e reason = record { stream_id = id; sequence = e.sequence; reason = reason }

unfoldable pub bytes_of : List Event → ℕ
bytes_of events = sum (map (λ e. e.bytes) events)

unfoldable pub candidates : (Event → Bool) → Streams → List (ℕ × Event)
candidates p [] = []
candidates p ((id, target) ∷ rest) =
    map (λ e. (id, e)) (filter p target.events) ++ candidates p rest

-- Oldest ordinal first, then stream, then sequence.
unfoldable pub is_older : ℕ × Event → ℕ × Event → Bool
is_older (id, e) (other_id, other) =
    ltb e.ordinal other.ordinal
    || eqb e.ordinal other.ordinal
      && (ltb id other_id || eqb id other_id && ltb e.sequence other.sequence)

unfoldable pub is_expired : ℕ → Event → Bool
is_expired hour e = leb event_retention_hours (hour - e.committed_at)

-- The loop over the events that are too old.
unfoldable pub remove_each : List (ℕ × Event) → Streams → Streams × List Eviction
unfolding remove eviction
remove_each [] streams = (streams, [])
remove_each ((id, e) ∷ more) streams =
    let rest = remove_each more (remove id e age streams) in (rest.0, eviction id e age ∷ rest.1)

unfoldable pub evict_by_age : ℕ → Streams → Streams × List Eviction
unfolding candidates remove_each
evict_by_age hour streams =
    remove_each (sort_by is_older (candidates (is_expired hour) streams)) streams

-- The event that goes next from a stream over its cap.
unfoldable pub is_older_event : Event → Event → Bool
is_older_event e other =
    ltb e.ordinal other.ordinal || eqb e.ordinal other.ordinal && ltb e.sequence other.sequence

unfoldable pub over_stream_cap : List Event → Option Event
unfolding is_older_event
over_stream_cap events =
    if ltb event_stream_byte_cap (bytes_of events)
    then head? (sort_by is_older_event events)
    else none

-- The loop of one stream, on fuel.
unfoldable pub trim : ℕ → ℕ → Stream → Stream × List Eviction
unfolding eviction
trim zero id target = (target, [])
trim (suc fuel) id target = elim (over_stream_cap target.events) [
  | none ↦ (target, [])
  | some e ↦
      let rest = trim fuel id (removed e stream_cap target) in
      (rest.0, eviction id e stream_cap ∷ rest.1)
]

unfoldable pub trim_each : Streams → Streams × List Eviction
unfolding trim
trim_each [] = ([], [])
trim_each ((id, target) ∷ rest) =
    let first = trim (length target.events) id target in
    let others = trim_each rest in ((id, first.0) ∷ others.0, first.1 ++ others.1)

unfoldable pub total_bytes : Streams → ℕ
total_bytes streams = sum (map (λ entry. bytes_of entry.1.events) streams)

unfoldable pub count_events : Streams → ℕ
count_events streams = sum (map (λ entry. length entry.1.events) streams)

unfoldable pub over_global_cap : Streams → Option (ℕ × Event)
unfolding is_older total_bytes candidates
over_global_cap streams =
    if ltb event_global_byte_cap (total_bytes streams)
    then head? (sort_by is_older (candidates (λ e. Bool.true) streams))
    else none

-- The loop over all streams, on fuel.
unfoldable pub trim_all : ℕ → Streams → Streams × List Eviction
unfolding remove eviction
trim_all zero streams = (streams, [])
trim_all (suc fuel) streams = elim (over_global_cap streams) [
  | none ↦ (streams, [])
  | some (id, e) ↦
      let rest = trim_all fuel (remove id e global_cap streams) in
      (rest.0, eviction id e global_cap ∷ rest.1)
]

unfoldable pub evict_at : ℕ → Streams → Streams × List Eviction
unfolding evict_by_age trim_each trim_all count_events
evict_at hour streams =
    let aged = evict_by_age hour streams in
    let trimmed = trim_each aged.0 in
    let fitted = trim_all (count_events trimmed.0) trimmed.0 in
    (fitted.0, aged.1 ++ trimmed.1 ++ fitted.1)

unfoldable pub evict_events : Log → Value → Outcome (Log × List Eviction)
unfolding evict_at
evict_events log now_hour = operational_hour log now_hour >>= λ at.
    let evicted = evict_at at.last_commit_hour at.streams in
    ok (record at { streams = evicted.0 }, evicted.1)
