-- ===== src/Protocol/Examples/Streams.antt =====
-- The queue, the event stream, the snapshots and the errors of scripts/protocol-contract.mjs: the
-- theorems at concrete states.
use aigent_place.Base.{◌≤◌, ◌≡◌, ◌≢◌, refl, inr, true, none, some, List, [], ◌∷◌, arith}
use aigent_place.Base.Keys.{string_key, nat_key}
use aigent_place.Base.Value.{undefined, number, strict_equal}
use aigent_place.Base.Lists.{All, any, filter, sum, last_or}
use aigent_place.Base.Sort.{sort_by}
use aigent_place.Base.Outcome.{ok, thrown, transition_after_close}
use aigent_place.Protocol.State.{
  State, IdempotencyRecord, StreamStatus, SnapshotStatus, spectate_only,
}
use aigent_place.Protocol.Snapshot.{
  deliver_delta, expire_baseline, snapshot_resync, is_retained, baseline_fault,
}
use aigent_place.Protocol.Snapshot.Expiry.{expired_baseline}
use aigent_place.Protocol.Output.{
  Output, BaselineFault, baseline_mismatched, full_snapshot, delta_delivered, protocol_error,
  connection_closed, frame_too_large, sustained_outbound_overflow, event_enqueued,
  events_acknowledged, events_replayed, event_stream_reset, invalid_envelope,
}
use aigent_place.Protocol.Queue.{queued_bytes, queue_limit_bytes, enqueue_event, observe_queue}
use aigent_place.Protocol.Queue.Bounds.{enqueue_event_fits}
use aigent_place.Protocol.Queue.Overflow.{observe_queue_over}
use aigent_place.Protocol.Command.Sessions.{new_session-IsRecorded}
use aigent_place.Protocol.Events.{
  acknowledge_event, resume_events, retained_from, can_replay, is_contiguous, replayed,
  journal_high, unavailable_through,
}
use aigent_place.Protocol.Events.Forgotten.{ReplaysAfter, acknowledged_not_replayed}
use aigent_place.Protocol.Events.Receive.{InOrder, receive-InOrder}
use aigent_place.Protocol.Envelope.{decode_failure}
use aigent_place.Protocol.Transition.{Step, transition, dispatch, run}
use aigent_place.Protocol.Transition.Errors.{protocol_error_no_effect, closes, closed_is_final}
use aigent_place.Protocol.Invariant.{IsValid, run-IsValid}
use aigent_place.Protocol.Examples.{fresh, greeted, connected_as}

-- A queue one item of which is above the limit.
abbrev crowded : State
crowded = record fresh {
  queue = record {
    state_bytes = 300000;
    state_items = 300000 ∷ [];
    event_bytes = 0;
    over_limit_ticks = 38;
  };
}

observe_queue_over_example :
    ((observe_queue crowded (some 2)).1 ≡ connection_closed (sustained_outbound_overflow 40) ∷ [])
    × ((observe_queue crowded (some 2)).0.closed ≡ true)
observe_queue_over_example = observe_queue_over crowded 2 refl (omega arith) (omega arith)

abbrev busy : State
busy = record fresh {
  queue = record {
    state_bytes = 200000;
    state_items = 150000 ∷ 50000 ∷ [];
    event_bytes = 60000;
    over_limit_ticks = 3;
  };
}

event_makes_room : (enqueue_event busy 1 100000).1 ≡ event_enqueued 160000 true ∷ []
unfolding enqueue_event last_or
event_makes_room = refl

enqueue_event_fits_example :
    (queued_bytes (enqueue_event busy 1 100000).0.queue ≤ queue_limit_bytes)
    × ((enqueue_event busy 1 100000).0.queue.event_bytes ≡ 160000)
enqueue_event_fits_example = enqueue_event_fits busy 1 100000 event_makes_room

abbrev idempotency_entry : IdempotencyRecord
idempotency_entry = record {
  content_digest = "d9";
  result = record { accepted = undefined; code = undefined; affected_entities = none };
}

-- A stream that has sent four events and lost the client.
abbrev interrupted : State
interrupted = record fresh {
  event_stream = record {
    epoch = "s1";
    expected_sequence = 5;
    highest_sent_sequence = 4;
    last_ack = 1;
    status = StreamStatus.event_resync_required;
    journal = 2 ∷ 4 ∷ 3 ∷ [];
  };
}

acknowledged_three : (acknowledge_event interrupted "s1" 3 none).1 ≡ events_acknowledged 3 ∷ []
unfolding acknowledge_event
acknowledged_three = refl

-- Two resumptions after that, the second one when the stream is live.
abbrev two_resumptions : List Step
two_resumptions = Step.resume_events "s1" 2 none "s2" ∷ Step.resume_events "s1" 2 (some 8) "s3" ∷ []

abbrev resumed_at_four : State
resumed_at_four = record interrupted {
  event_stream = record (interrupted.event_stream) {
    last_ack = 3;
    status = StreamStatus.live;
    journal = 4 ∷ [];
  };
}

abbrev resumed_trace : List Output
resumed_trace = events_replayed (4 ∷ []) ∷ protocol_error invalid_envelope (some 8) ∷ []

resumed_twice :
    run (acknowledge_event interrupted "s1" 3 none).0 [] two_resumptions
    ≡ ok (resumed_at_four, resumed_trace)
unfolding run transition dispatch acknowledge_event resume_events retained_from can_replay
    is_contiguous replayed last_or sort_by filter
resumed_twice = refl

acknowledged_not_replayed_example : All (ReplaysAfter 3) resumed_trace
acknowledged_not_replayed_example =
    acknowledged_not_replayed interrupted "s1" 3 none two_resumptions acknowledged_three
      (tt, (tt, tt)) resumed_twice

-- The same stream with a hole in its journal.
abbrev gapped : State
gapped = record interrupted {
  event_stream = record (interrupted.event_stream) { journal = 2 ∷ 4 ∷ [] };
}

reset_stream : (resume_events gapped "s1" 2 none "s2").1 ≡ event_stream_reset "s1" 3 4 "s2" ∷ []
unfolding resume_events retained_from can_replay is_contiguous unavailable_through journal_high
    sort_by filter
reset_stream = refl

receive-InOrder_example :
    InOrder fresh [] (("s1", 1) ∷ ("s1", 3) ∷ ("s1", 1) ∷ ("s1", 2) ∷ ("s0", 9) ∷ [])
receive-InOrder_example =
    receive-InOrder (("s1", 1) ∷ ("s1", 3) ∷ ("s1", 1) ∷ ("s1", 2) ∷ ("s0", 9) ∷ []) fresh [] refl

abbrev watching : State
watching = record fresh {
  snapshot = record {
    baseline_id = number 5;
    retained_baselines = number 5 ∷ [];
    status = SnapshotStatus.live;
  };
}

-- Deltas against the expired baseline, before and after a resynchronization to another.
abbrev late_steps : List Step
late_steps =
    Step.deliver_delta (number 5)
    ∷ Step.snapshot_resync (number 6)
    ∷ Step.deliver_delta (number 6)
    ∷ Step.deliver_delta (number 5)
    ∷ []

abbrev late_trace : List Output
late_trace =
    Output.snapshot_resync_required BaselineFault.baseline_expired (number 5)
    ∷ full_snapshot (number 6)
    ∷ delta_delivered (number 6)
    ∷ Output.snapshot_resync_required baseline_mismatched (number 5)
    ∷ []

abbrev late_end : State
late_end = record fresh {
  snapshot = record {
    baseline_id = number 6;
    retained_baselines = number 6 ∷ [];
    status = SnapshotStatus.snapshot_resync_required;
  };
}

late_run : run (expire_baseline watching (number 5)).0 [] late_steps ≡ ok (late_end, late_trace)
unfolding run transition dispatch deliver_delta expire_baseline snapshot_resync strict_equal
    is_retained any filter baseline_fault
late_run = refl

six_not_five : number 6 ≢ number 5
six_not_five = λ same. absurd (ground (arith, same))

expired_baseline_example : All (λ o. o ≢ delta_delivered (number 5)) late_trace
expired_baseline_example =
    expired_baseline watching (number 5) late_steps (tt, (six_not_five, (tt, (tt, tt)))) late_run

bad_acknowledgement :
    transition interrupted (Step.acknowledge_event "s1" 9 (some 12))
    ≡ ok (interrupted, protocol_error invalid_envelope (some 12) ∷ [])
unfolding transition dispatch acknowledge_event
bad_acknowledgement = refl

protocol_error_no_effect_example : interrupted ≡ interrupted
protocol_error_no_effect_example =
    protocol_error_no_effect interrupted (Step.acknowledge_event "s1" 9 (some 12)) interrupted
      invalid_envelope (some 12) bad_acknowledgement

abbrev spectating : State
spectating = record greeted {
  connection = some (record (connected_as "c1") { mode = spectate_only });
}

abbrev shut : State
shut = record fresh { closed = true }

oversized_frame :
    transition fresh (Step.decode_failure 9 8) ≡ ok (shut, connection_closed frame_too_large ∷ [])
unfolding transition dispatch decode_failure
oversized_frame = refl

closed_is_final_example :
    (shut.closed ≡ closes (connection_closed frame_too_large ∷ []))
    × (shut.closed ≡ true → (next : Step) → transition shut next ≡ thrown transition_after_close)
closed_is_final_example =
    closed_is_final fresh (Step.decode_failure 9 8) (shut, connection_closed frame_too_large ∷ [])
      oversized_frame

fresh-IsValid : IsValid fresh
unfolding sum
fresh-IsValid = record {
  queue = record { counted = refl; within = inr (omega arith) };
  ticks = λ _. omega arith;
  acknowledged = omega arith;
  session = new_session-IsRecorded none;
}

frame_run :
    run fresh [] (Step.decode_failure 9 8 ∷ []) ≡ ok (shut, connection_closed frame_too_large ∷ [])
unfolding run transition dispatch decode_failure
frame_run = refl

run-IsValid_example : IsValid shut
run-IsValid_example =
    run-IsValid (Step.decode_failure 9 8 ∷ []) fresh []
      (shut, connection_closed frame_too_large ∷ []) frame_run fresh-IsValid
