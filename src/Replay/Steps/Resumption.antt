-- ===== src/Replay/Steps/Resumption.antt =====
-- scripts/replay-contract.mjs: what a client that resumes a stream gets.
use aigent_place.Base.{ℕ, ◌≤◌, ◌<◌, true, List, [], ◌∷◌, ◌≡◌, ◌↔◌, eqb}
use aigent_place.Base.Keys.{nat_key}
use aigent_place.Base.Lists.{All, any}
use aigent_place.Base.Value.{Value}
use aigent_place.Replay.Stream.{Stream, Log, greatest_sent}
use aigent_place.Replay.Eviction.Removal.{has_sequence}
use aigent_place.Replay.Cursor.{
  CursorOutput, event_resume_rejected, event_stream_reset, events_replayed,
}
use aigent_place.Replay.Steps.Contiguous.{was_evicted}
use aigent_place.Replay.Steps.Soundness.{renewed}

-- What a resumption after the sequence `after` may lead to: a refusal of a cursor ahead of the stream,
-- a replay of just the sequences that were sent after the cursor, or a new epoch, with a range from the
-- first sequence evicted after the cursor to the last one sent or further. What was sent between the
-- cursor and the range was still retained.
pub data Resumed (log : Log) (id : ℕ) (t : Stream) (after : ℕ)
    : Log × List CursorOutput → Type 0 where
  ahead :
      greatest_sent t < after → Resumed log id t after (log, event_resume_rejected id after ∷ [])
  replayed :
      (sequences : List ℕ)
      → ((k : ℕ) → (any (λ n. eqb n k) sequences ≡ true) ↔ ((after < k) × (k ≤ greatest_sent t)))
      → Resumed log id t after (log, events_replayed id sequences ∷ [])
  restarted :
      (first last epoch : ℕ)
      → t.epoch < epoch
      → after < first
      → greatest_sent t ≤ last
      → was_evicted first t.evicted ≡ true
      → ((k : ℕ) → after < k → k < first → k ≤ greatest_sent t → has_sequence k t.events ≡ true)
      → All (λ e. after < e.sequence → (first ≤ e.sequence) × (e.sequence ≤ last)) t.evicted
      → Resumed log id t after (renewed log id epoch, event_stream_reset id first last epoch ∷ [])
