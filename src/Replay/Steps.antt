-- ===== src/Replay/Steps.antt =====
-- scripts/replay-contract.mjs: the operations of `evaluateScenario` that work on the event streams. A
-- commit emits the events of its commands one after the other; the rest of it is not modelled.
pub mod Contiguous
pub mod Soundness
pub mod Missing
pub mod Resumption
pub mod Checkpoint
pub mod Counting
pub mod Acceptance
use aigent_place.Base.{ℕ, List, [], ◌∷◌, ◌++◌, map}
use aigent_place.Base.Value.{Value}
use aigent_place.Base.Outcome.{Outcome, ok, ◌>>=◌}
use aigent_place.Replay.Stream
use aigent_place.Replay.Stream.{Event, Emission, Log}
use aigent_place.Replay.Cursor
use aigent_place.Replay.Cursor.{CursorOutput}
use aigent_place.Replay.Eviction
use aigent_place.Replay.Eviction.{Eviction}

pub data Step : Type 0 where
  emit : (hour : ℕ) → Emission → Step
  evict_events : (now_hour : Value) → Step
  ack : (stream_id : ℕ) (stream_epoch sequence : Value) → Step
  resume : (stream_id : ℕ) (stream_epoch last_acknowledged : Value) → Step

pub data Output : Type 0 where
  emitted : Event → Output
  event_evicted : Eviction → Output
  answer : CursorOutput → Output

abbrev pub Result : Type 0
Result = Outcome (Log × List Output)

abbrev pub answered : Log × List CursorOutput → Log × List Output
answered r = (r.0, map answer r.1)

unfoldable pub evaluate_step : Log → Step → Result
evaluate_step log (emit hour e) = Stream.emit log hour e >>= λ r. ok (r.0, emitted r.1 ∷ [])
evaluate_step log (evict_events now_hour) =
    Eviction.evict_events log now_hour >>= λ r. ok (r.0, map event_evicted r.1)
evaluate_step log (ack id epoch sequence) = ok (answered (Cursor.acknowledge log id epoch sequence))
evaluate_step log (resume id epoch last_acknowledged) =
    Cursor.resume log id epoch last_acknowledged >>= λ r. ok (answered r)

unfoldable pub run : Log → List Output → List Step → Result
run log trace [] = ok (log, trace)
run log trace (step ∷ steps) = evaluate_step log step >>= λ r. run r.0 (trace ++ r.1) steps
