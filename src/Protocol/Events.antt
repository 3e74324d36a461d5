-- ===== src/Protocol/Events.antt =====
-- scripts/protocol-contract.mjs: the "acknowledge_event", "receive_event" and "resume_events" steps
-- of `transition`.
pub mod Receive
pub mod Acknowledge
pub mod Resume
pub mod Forgotten
use aigent_place.Base.{
  ℕ, zero, suc, ◌+◌, ◌-◌, max, String, Bool, true, false, ◌&&◌, ◌||◌, not, Option, none, some, List,
  [], ◌∷◌, if◌then◌else◌, ltb, leb, eqb, ◌==◌,
}
use aigent_place.Base.Keys.{string_key}
use aigent_place.Base.Lists.{filter, last_or}
use aigent_place.Base.Sort.{sort_by}
use aigent_place.Protocol.State.{
  State, EventStream, StreamStatus, event_resync_required, new_event_stream,
}
use aigent_place.Protocol.Output.{
  Output, invalid_envelope, protocol_error, event_acknowledgement_ignored, events_acknowledged,
  event_duplicate_ignored, event_received, events_replayed, event_stream_reset, epoch_mismatch,
  epoch_mismatch_at, client_detected_gap,
}

unfoldable pub acknowledge_event : State → String → ℕ → Option ℕ → State × List Output
acknowledge_event s stream_epoch sequence message_id =
    let stream = s.event_stream in
    if not (stream_epoch == stream.epoch) || ltb stream.highest_sent_sequence sequence
    then (s, protocol_error invalid_envelope message_id ∷ [])
    else if leb sequence stream.last_ack
    then (s, event_acknowledgement_ignored sequence ∷ [])
    else (
      record s {
        event_stream = record stream {
          last_ack = sequence;
          journal = filter (λ event. ltb sequence event) stream.journal;
        };
      },
      events_acknowledged sequence ∷ [],
    )

abbrev require_resync : State → State
require_resync s = record s {
  event_stream = record (s.event_stream) { status = event_resync_required };
}

unfoldable pub receive_event : State → String → ℕ → State × List Output
receive_event s stream_epoch sequence =
    let expected = s.event_stream.expected_sequence in
    if not (stream_epoch == s.event_stream.epoch)
    then (require_resync s, Output.event_resync_required (epoch_mismatch_at expected sequence) ∷ [])
    else if ltb sequence expected
    then (s, event_duplicate_ignored sequence ∷ [])
    else if ltb expected sequence
    then (
      require_resync s,
      Output.event_resync_required (client_detected_gap expected sequence) ∷ [],
    )
    else (
      record s {
        event_stream = record (s.event_stream) {
          expected_sequence = expected + 1;
          highest_sent_sequence = max s.event_stream.highest_sent_sequence sequence;
        };
      },
      event_received sequence ∷ [],
    )

-- `retained.every((event, index) => event.sequence === start + index)`
unfoldable pub is_contiguous : ℕ → List ℕ → Bool
is_contiguous start [] = true
is_contiguous start (event ∷ events) = eqb event start && is_contiguous (start + 1) events

-- The journal from `start` on, in order.
unfoldable pub retained_from : EventStream → ℕ → List ℕ
retained_from stream start =
    sort_by (λ left right. ltb left right) (filter (λ event. leb start event) stream.journal)

unfoldable pub can_replay : EventStream → ℕ → List ℕ → Bool
can_replay stream start [] = ltb stream.highest_sent_sequence start
can_replay stream start (first ∷ rest) = eqb first start && is_contiguous start (first ∷ rest)

-- The stream after a replay.
unfoldable pub replayed : EventStream → List ℕ → EventStream
replayed stream [] = record stream { status = StreamStatus.live }
replayed stream (first ∷ rest) = record stream {
  status = StreamStatus.live;
  expected_sequence = last_or first rest + 1;
  highest_sent_sequence = max stream.highest_sent_sequence (last_or first rest);
}

-- `journal.reduce((highest, event) => Math.max(highest, event.sequence), 0)`
unfoldable pub journal_high : ℕ → List ℕ → ℕ
journal_high highest [] = highest
journal_high highest (event ∷ events) = journal_high (max highest event) events

unfoldable pub unavailable_through : EventStream → ℕ
unavailable_through stream =
    max (max stream.highest_sent_sequence (stream.expected_sequence - 1))
      (journal_high 0 stream.journal)

is_resync_required : StreamStatus → Bool
is_resync_required event_resync_required = true
is_resync_required _ = false

abbrev pub resume_start : EventStream → ℕ → ℕ
resume_start stream last_ack = max last_ack stream.last_ack + 1

unfoldable pub resume_events : State → String → ℕ → Option ℕ → String → State × List Output
unfolding is_resync_required
resume_events s stream_epoch last_ack message_id server_new_stream_epoch =
    let stream = s.event_stream in
    let start = resume_start stream last_ack in
    let retained = retained_from stream start in
    if not (stream_epoch == stream.epoch)
    then (s, Output.event_resync_required epoch_mismatch ∷ [])
    else if not (is_resync_required stream.status) || ltb stream.highest_sent_sequence last_ack
    then (s, protocol_error invalid_envelope message_id ∷ [])
    else if can_replay stream start retained
    then (record s { event_stream = replayed stream retained }, events_replayed retained ∷ [])
    else (
      record s { event_stream = new_event_stream server_new_stream_epoch },
      event_stream_reset stream.epoch start (unavailable_through stream) server_new_stream_epoch
          ∷ [],
    )
