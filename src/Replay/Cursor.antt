-- ===== src/Replay/Cursor.antt =====
-- scripts/replay-contract.mjs: `cursorString`, `acknowledge` and `resume`.
use aigent_place.Base.{
  ℕ, Bool, true, false, Option, none, some, List, [], ◌∷◌, map, if◌then◌else◌, ltb, leb, eqb, min,
  max,
}
use aigent_place.Base.Keys.{nat_key}
use aigent_place.Base.Lists.{filter}
use aigent_place.Base.Map.{lookup}
use aigent_place.Base.Value.{Value, undefined, string, or_else}
use aigent_place.Base.Outcome.{Outcome, ok, thrown, allocator_exhausted}
use aigent_place.Protocol.Features.{code_units}
use aigent_place.Replay.U64.{is_u64, read, successor}
use aigent_place.Replay.Stream.{Stream, Log, new_stream, greatest_sent, put}

pub data Fault : Type 0 where
  missing_epoch invalid_uint64 unknown_stream : Fault

pub data CursorOutput : Type 0 where
  event_cursor_invalid : (stream_id : ℕ) → Fault → CursorOutput
  event_cursor_resync : (stream_id epoch : ℕ) → CursorOutput
  event_ack_rejected event_acknowledged event_resume_rejected :
      (stream_id sequence : ℕ) → CursorOutput
  event_stream_reset : (stream_id unavailable_from unavailable_through epoch : ℕ) → CursorOutput
  events_replayed : (stream_id : ℕ) (sequences : List ℕ) → CursorOutput

-- `cursorString(value, nonzero)`, with the number of the text, or `none` where it throws
unfoldable pub cursor_of : Value → Bool → Option ℕ
cursor_of (string text) nonzero =
    if is_u64 (code_units text) nonzero then some (read 0 (code_units text)) else none
cursor_of _ nonzero = none

unfoldable pub is_undefined : Value → Bool
is_undefined undefined = true
is_undefined _ = false

-- The epoch and the sequence of a step, or what is wrong with them.
pub data Position : Type 0 where
  fault : Fault → Position
  cursor : (epoch sequence : ℕ) → Position

unfoldable pub both_cursors : Option ℕ → Option ℕ → Position
both_cursors (some epoch) (some sequence) = cursor epoch sequence
both_cursors _ _ = fault invalid_uint64

unfoldable pub position_of : Value → Value → Position
unfolding is_undefined both_cursors
position_of epoch sequence =
    if is_undefined epoch
    then fault missing_epoch
    else both_cursors (cursor_of epoch true) (cursor_of sequence false)

unfoldable pub acknowledged_to : Stream → ℕ → Stream
acknowledged_to target sequence = record target {
  acknowledged = sequence;
  events = filter (λ event. ltb sequence event.sequence) target.events;
}

unfoldable pub acknowledge_in : Log → ℕ → Stream → ℕ → ℕ → Log × List CursorOutput
acknowledge_in log id target epoch sequence =
    if eqb epoch target.epoch
    then (if ltb (greatest_sent target) sequence
        then (log, event_ack_rejected id sequence ∷ [])
        else (if leb sequence target.acknowledged
            then (log, event_acknowledged id target.acknowledged ∷ [])
            else (
              put log id (acknowledged_to target sequence),
              event_acknowledged id sequence ∷ [],
            )))
    else (log, event_cursor_resync id target.epoch ∷ [])

unfoldable pub acknowledge_at : Log → ℕ → Position → Option Stream → Log × List CursorOutput
unfolding acknowledge_in
acknowledge_at log id (fault f) target = (log, event_cursor_invalid id f ∷ [])
acknowledge_at log id (cursor epoch sequence) none =
    (log, event_cursor_invalid id unknown_stream ∷ [])
acknowledge_at log id (cursor epoch sequence) (some target) =
    acknowledge_in log id target epoch sequence

unfoldable pub acknowledge : Log → ℕ → (stream_epoch sequence : Value) → Log × List CursorOutput
acknowledge log id stream_epoch sequence =
    acknowledge_at log id (position_of stream_epoch sequence) (lookup id log.streams)

-- The reductions to the least and the greatest.
unfoldable pub least : ℕ → List ℕ → ℕ
least n [] = n
least n (m ∷ rest) = least (min m n) rest

unfoldable pub greatest : ℕ → List ℕ → ℕ
greatest n [] = n
greatest n (m ∷ rest) = greatest (max m n) rest

unfoldable pub missing_after : ℕ → Stream → List ℕ
missing_after after target =
    map (λ event. event.sequence) (filter (λ event. ltb after event.sequence) target.evicted)

unfoldable pub retained_after : ℕ → Stream → List ℕ
retained_after after target =
    map (λ event. event.sequence) (filter (λ event. ltb after event.sequence) target.events)

unfoldable pub reset :
    Log → ℕ → Stream → (missing : ℕ) → List ℕ → Option ℕ → Outcome (Log × List CursorOutput)
unfolding least greatest
reset log id target missing more none = thrown allocator_exhausted
reset log id target missing more (some epoch) = ok (
  record (put log id (new_stream epoch)) { next_stream_epoch = successor epoch },
  event_stream_reset id (least missing more) (greatest (greatest_sent target) (missing ∷ more))
        epoch
      ∷ [],
)

unfoldable pub replay_or_reset : Log → ℕ → Stream → ℕ → List ℕ → Outcome (Log × List CursorOutput)
unfolding retained_after
replay_or_reset log id target after [] =
    ok (log, events_replayed id (retained_after after target) ∷ [])
replay_or_reset log id target after (missing ∷ more) =
    reset log id target missing more log.next_stream_epoch

unfoldable pub resume_after : Log → ℕ → Stream → ℕ → Outcome (Log × List CursorOutput)
resume_after log id target after =
    if ltb (greatest_sent target) after
    then ok (log, event_resume_rejected id after ∷ [])
    else replay_or_reset log id target after (missing_after after target)

unfoldable pub resume_in : Log → ℕ → Stream → ℕ → ℕ → Outcome (Log × List CursorOutput)
unfolding resume_after
resume_in log id target epoch requested =
    if eqb epoch target.epoch
    then resume_after log id target (max requested target.acknowledged)
    else ok (log, event_cursor_resync id target.epoch ∷ [])

unfoldable pub resume_at : Log → ℕ → Position → Option Stream → Outcome (Log × List CursorOutput)
unfolding resume_in
resume_at log id (fault f) target = ok (log, event_cursor_invalid id f ∷ [])
resume_at log id (cursor epoch requested) none =
    ok (log, event_cursor_invalid id unknown_stream ∷ [])
resume_at log id (cursor epoch requested) (some target) = resume_in log id target epoch requested

unfoldable pub resume :
    Log → ℕ → (stream_epoch last_acknowledged : Value) → Outcome (Log × List CursorOutput)
resume log id stream_epoch last_acknowledged =
    resume_at log id (position_of stream_epoch (or_else last_acknowledged (string "0")))
      (lookup id log.streams)
