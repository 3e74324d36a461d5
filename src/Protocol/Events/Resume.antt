-- ===== src/Protocol/Events/Resume.antt =====
-- Resuming an event stream in scripts/protocol-contract.mjs.
use aigent_place.Base.{ℕ, ◌+◌, ◌≤◌, max, String, ◌≡◌, Option, List, [], ◌∷◌, arith}
use aigent_place.Base.Keys.{string_key}
use aigent_place.Base.Lists.{All, All-imp}
use aigent_place.Protocol.State.{State, new_event_stream}
use aigent_place.Protocol.Output.{event_stream_reset}
use aigent_place.Protocol.Events.{resume_events, resume_start, journal_high, unavailable_through}

journal_high-ge : (highest : ℕ) (events : List ℕ) → highest ≤ journal_high highest events
unfolding journal_high
journal_high-ge highest [] = omega arith
journal_high-ge highest (event ∷ events) = omega (arith, journal_high-ge (max highest event) events)

journal_high-All :
    (highest : ℕ) (events : List ℕ) → All (λ event. event ≤ journal_high highest events) events
unfolding journal_high
journal_high-All highest [] = tt
journal_high-All highest (event ∷ events) = (
  omega (arith, journal_high-ge (max highest event) events),
  journal_high-All (max highest event) events,
)

was_reset :
    (s : State) (stream_epoch : String) (last_ack : ℕ) (message_id : Option ℕ) (fresh : String)
    {previous now : String} {from through : ℕ}
    → (resume_events s stream_epoch last_ack message_id fresh).1
      ≡ event_stream_reset previous from through now ∷ []
    → ((resume_events s stream_epoch last_ack message_id fresh).0.event_stream
        ≡ new_event_stream now)
      × (from ≡ resume_start s.event_stream last_ack)
      × (unavailable_through s.event_stream ≡ through)
unfolding resume_events
was_reset s stream_epoch last_ack message_id fresh h = ground arith

-- A reset gives the stream up: it starts afresh under the new epoch, and the range that the client
-- is told to be unavailable begins at the first unacknowledged event and reaches every event that
-- was sent, precedes the expected one or is kept in the journal.
pub resume_events_reset :
    (s : State) (stream_epoch : String) (last_ack : ℕ) (message_id : Option ℕ) (fresh : String)
    {previous now : String} {from through : ℕ}
    → (resume_events s stream_epoch last_ack message_id fresh).1
      ≡ event_stream_reset previous from through now ∷ []
    → ((resume_events s stream_epoch last_ack message_id fresh).0.event_stream
        ≡ new_event_stream now)
      × (from ≡ resume_start s.event_stream last_ack)
      × (s.event_stream.highest_sent_sequence ≤ through)
      × (s.event_stream.expected_sequence ≤ through + 1)
      × All (λ event. event ≤ through) s.event_stream.journal
unfolding unavailable_through
resume_events_reset s stream_epoch last_ack message_id fresh {previous} {now} {from} {through} h =
    let (after, start, end) =
      was_reset s stream_epoch last_ack message_id fresh {previous = previous} {now = now}
        {from = from} {through = through} h in
    (
      after,
      start,
      omega arith,
      omega arith,
      All-imp (λ event. event ≤ journal_high 0 s.event_stream.journal) (λ event. event ≤ through)
          (λ event below. omega arith) s.event_stream.journal
          (journal_high-All 0 s.event_stream.journal),
    )
