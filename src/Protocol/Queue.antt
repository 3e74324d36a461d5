-- ===== src/Protocol/Queue.antt =====
-- scripts/protocol-contract.mjs: the "enqueue_state", "observe_queue" and "enqueue_event" steps of
-- `transition`. `normalizedState` always sets `state_items`, so the `??=` of the code keeps it.
pub mod Overflow
pub mod Bounds
use aigent_place.Base.{
  ℕ, zero, suc, ◌+◌, ◌*◌, max, Bool, true, false, ◌&&◌, ◌||◌, Option, none, some, List, [], ◌∷◌,
  ◌++◌, if◌then◌else◌, ltb, leb,
}
use aigent_place.Base.Lists.{length, sum, last_or}
use aigent_place.Protocol.State.{State, OutboundQueue, event_resync_required}
use aigent_place.Protocol.Output.{
  Output, state_coalesced, state_enqueued, connection_closed, sustained_outbound_overflow,
  queue_observed, event_enqueued, event_not_admitted,
}

abbrev pub queue_limit_bytes : ℕ
queue_limit_bytes = 262144

abbrev pub overflow_tick_observations : ℕ
overflow_tick_observations = 40

abbrev pub queued_bytes : OutboundQueue → ℕ
queued_bytes q = q.state_bytes + q.event_bytes

unfoldable pub push_state : OutboundQueue → ℕ → OutboundQueue × Bool
push_state q encoded_bytes =
    let candidate = q.state_items ++ encoded_bytes ∷ [] in
    let coalesced =
      ltb queue_limit_bytes (sum candidate + q.event_bytes) && ltb 1 (length candidate) in
    let items = if coalesced then encoded_bytes ∷ [] else candidate in
    (record q { state_items = items; state_bytes = sum items }, coalesced)

unfoldable pub enqueue_state : State → ℕ → State × List Output
enqueue_state s encoded_bytes =
    let (q, coalesced) = push_state s.queue encoded_bytes in
    let over = ltb queue_limit_bytes (queued_bytes q) in
    (
      record s { queue = q },
      (if coalesced
            then state_coalesced (queued_bytes q) over
            else state_enqueued (queued_bytes q) over)
          ∷ [],
    )

-- The loop of "observe_queue": the observations left, whether the queue is over its limit and the
-- ticks so far. The flag says that the loop closed the connection.
unfoldable pub observe : ℕ → Bool → ℕ → ℕ × Bool
observe zero over ticks = (ticks, false)
observe (suc n) over ticks =
    let next = if over then ticks + 1 else 0 in
    let rest = observe n over next in
    if leb overflow_tick_observations next then (next, true) else rest

or_one : Option ℕ → ℕ
or_one none = 1
or_one (some n) = n

unfoldable pub observe_queue : State → Option ℕ → State × List Output
unfolding or_one
observe_queue s observations =
    let (ticks, full) =
      observe (or_one observations) (ltb queue_limit_bytes (queued_bytes s.queue))
        s.queue.over_limit_ticks in
    let closed = s.closed || full in
    (
      record s { queue = record (s.queue) { over_limit_ticks = ticks }; closed = closed },
      (if closed
            then connection_closed (sustained_outbound_overflow ticks)
            else queue_observed ticks)
          ∷ [],
    )

-- Before an event that does not fit, all state but the latest item is dropped.
unfoldable pub make_room : OutboundQueue → ℕ → OutboundQueue × Bool
make_room q encoded_bytes =
    let latest = last_or 0 q.state_items in
    if ltb queue_limit_bytes (queued_bytes q + encoded_bytes) && ltb 1 (length q.state_items)
    then (record q { state_items = latest ∷ []; state_bytes = latest }, true)
    else (q, false)

unfoldable pub enqueue_event : State → ℕ → ℕ → State × List Output
unfolding make_room
enqueue_event s sequence encoded_bytes =
    let (q, coalesced) = make_room s.queue encoded_bytes in
    let journal = s.event_stream.journal ++ sequence ∷ [] in
    if ltb queue_limit_bytes (queued_bytes q + encoded_bytes)
    then (
      record s {
        queue = q;
        event_stream = record (s.event_stream) {
          journal = journal;
          status = event_resync_required;
        };
      },
      Output.event_resync_required (event_not_admitted coalesced) ∷ [],
    )
    else (
      record s {
        queue = record q { event_bytes = q.event_bytes + encoded_bytes };
        event_stream = record (s.event_stream) {
          journal = journal;
          highest_sent_sequence = max s.event_stream.highest_sent_sequence sequence;
        };
      },
      event_enqueued (q.event_bytes + encoded_bytes) coalesced ∷ [],
    )
