-- ===== src/Replay/Examples.antt =====
-- scripts/replay-contract.mjs: a log with two streams, and the theorems applied to it.
use mathlib.Core.Logic.{◌↔◌}
use aigent_place.Base.{ℕ, ◌≤◌, max, true, none, some, List, [], ◌∷◌, ◌≡◌, refl, arith}
use aigent_place.Base.Keys.{nat_key}
use aigent_place.Base.Lists.{any, filter, sum}
use aigent_place.Base.Sort.{sort_by}
use aigent_place.Base.Map.{lookup, insert}
use aigent_place.Base.Value.{number, string, or_else, non_negative_integer}
use aigent_place.Base.Outcome.{ok}
use aigent_place.Protocol.Features.{code_units}
use aigent_place.Replay.U64.{is_u64, is_decimal, is_digit, read, to_string, successor}
use aigent_place.Replay.U64.Decimal.{is_u64-to_string, to_string-read_lem}
use aigent_place.Replay.Stream.{
  Event, Evicted, age, Stream, Log, Emission, new_stream, stream, found_or_new, open_new,
  append_event, put,
}
use aigent_place.Replay.Stream
use aigent_place.Replay.Eviction
use aigent_place.Replay.Eviction.{Eviction, evict_events, evict_at}
use aigent_place.Replay.Eviction.Bounds.{IsBounded, evict_events_lem}
use aigent_place.Replay.Cursor
use aigent_place.Replay.Cursor.{
  CursorOutput, event_stream_reset, event_acknowledged, acknowledge, position_of,
}
use aigent_place.Replay.Steps.{
  Step, Output, evaluate_step, run, emit, evict_events as evict, ack, emitted, event_evicted,
  answer,
}
use aigent_place.Replay.Steps.Contiguous.{IsContiguous}
use aigent_place.Replay.Steps.Soundness.{IsSound, run-IsSound}
use aigent_place.Replay.Steps.Checkpoint.{validate_stream-IsContiguous}
use aigent_place.Replay.Steps.Acceptance.{IsHistory, validate_stream_iff}
use aigent_place.Replay.Validation.{validate_stream}

is_u64-to_string_example : (is_u64 (to_string 1207) true ≡ true) × (read 0 (to_string 1207) ≡ 1207)
is_u64-to_string_example = is_u64-to_string 1207 true (omega arith) (λ h. omega arith)

-- "120"
abbrev digits : List ℕ
digits = 49 ∷ 50 ∷ 48 ∷ []

digits_accepted : is_u64 digits true ≡ true
unfolding is_u64 is_decimal is_digit read
digits_accepted = refl

to_string-read_lem_example :
    (to_string (read 0 digits) ≡ digits) × (read 0 digits ≤ 18446744073709551615)
to_string-read_lem_example = to_string-read_lem digits true digits_accepted

-- Nothing was emitted, and the first epoch is free.
abbrev empty_log : Log
empty_log = record {
  streams = [];
  next_stream_epoch = some 1;
  next_ordinal = some 1;
  last_commit_hour = 0;
}

empty_log-IsSound : IsSound empty_log
empty_log-IsSound = record { contiguous = tt; epochs = tt; next = (omega arith, omega arith) }

abbrev emission : ℕ → Emission
emission id = record { stream_id = id; bytes = 100; payload = "" }

-- Three events on two streams, an acknowledgement, and an eviction a day after the first.
abbrev day : List Step
day =
    emit 0 (emission 7)
    ∷ emit 10 (emission 7)
    ∷ emit 10 (emission 8)
    ∷ ack 8 (string "2") (string "1")
    ∷ evict (number 24)
    ∷ []

abbrev first : Event
first = record {
  sequence = 1;
  stream_epoch = 1;
  ordinal = 1;
  bytes = 100;
  committed_at = 0;
  payload = "";
}

abbrev other : Event
other = record {
  sequence = 1;
  stream_epoch = 2;
  ordinal = 3;
  bytes = 100;
  committed_at = 10;
  payload = "";
}

abbrev second : Event
second = record {
  sequence = 2;
  stream_epoch = 1;
  ordinal = 2;
  bytes = 100;
  committed_at = 10;
  payload = "";
}

abbrev left : Stream
left = record {
  epoch = 1;
  next_sequence = some 3;
  acknowledged = 0;
  events = second ∷ [];
  evicted = record { sequence = 1; reason = age } ∷ [];
}

abbrev done : Stream
done = record { epoch = 2; next_sequence = some 2; acknowledged = 1; events = []; evicted = [] }

abbrev day_log : Log
day_log = record {
  streams = (7, left) ∷ (8, done) ∷ [];
  next_stream_epoch = some 3;
  next_ordinal = some 4;
  last_commit_hour = 24;
}

abbrev trace : List Output
trace =
    emitted first
    ∷ emitted second
    ∷ emitted other
    ∷ answer (event_acknowledged 8 1)
    ∷ event_evicted (record { stream_id = 7; sequence = 1; reason = age })
    ∷ []

end_log : run empty_log [] day ≡ ok (day_log, trace)
unfolding run evaluate_step Stream.emit stream found_or_new open_new append_event put new_stream
    insert lookup successor evict_events evict_at acknowledge position_of is_u64 code_units
    Stream.operational_hour Stream.at_hour non_negative_integer or_else sum Cursor.acknowledge_at
    sort_by Cursor.cursor_of Stream.sent_of filter Eviction.is_expired Cursor.acknowledged_to
    Eviction.removed Eviction.over_stream_cap Eviction.bytes_of Eviction.over_global_cap
end_log = refl

run-IsSound_example : IsSound day_log
run-IsSound_example = run-IsSound empty_log day empty_log-IsSound end_log

evict_events_lem_example :
    (r : Log × List Eviction) × (evict_events day_log (number 34) ≡ ok r)
    × (r.0.last_commit_hour ≡ max 34 24)
    × IsBounded r.0.last_commit_hour r.0.streams
evict_events_lem_example = evict_events_lem day_log 34 (omega arith) ((tt, tt), (tt, tt))

abbrev restart : List CursorOutput
restart = event_stream_reset 7 1 2 3 ∷ []

left_accepted : validate_stream left ≡ none
unfolding validate_stream any Stream.sent_of sort_by filter
left_accepted = refl

validate_stream-IsContiguous_example : IsContiguous left
validate_stream-IsContiguous_example = validate_stream-IsContiguous left left_accepted

validate_stream_iff_example : (validate_stream left ≡ none) ↔ IsHistory left
validate_stream_iff_example = validate_stream_iff left
