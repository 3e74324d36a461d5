-- ===== src/Protocol/Queue/Bounds.antt =====
-- Bounds on the outbound queue of scripts/protocol-contract.mjs: only a single state item can stand
-- above the limit, and an event is admitted only under it.
use aigent_place.Base.{ℕ, ◌+◌, ◌≤◌, ◌≡◌, ◌⊎◌, Bool, Option, [], ◌∷◌, arith}
use aigent_place.Base.Lists.{length, sum, length-append}
use aigent_place.Protocol.State.{State, OutboundQueue}
use aigent_place.Protocol.Output.{event_enqueued}
use aigent_place.Protocol.Queue.{
  queue_limit_bytes, queued_bytes, push_state, enqueue_state, observe_queue, make_room,
  enqueue_event,
}

pub record IsBounded (q : OutboundQueue) : Type 0 where
  pub counted : q.state_bytes ≡ sum q.state_items
  pub within : (queued_bytes q ≤ queue_limit_bytes) ⊎ (length q.state_items ≤ 1)

pub push_state-IsBounded : (q : OutboundQueue) (bytes : ℕ) → IsBounded (push_state q bytes).0
unfolding push_state sum
push_state-IsBounded q bytes = ground (arith, length-append q.state_items (bytes ∷ []))

-- From a bounded queue, enqueued state leaves it bounded.
pub enqueue_state-IsBounded : (s : State) (bytes : ℕ) → IsBounded (enqueue_state s bytes).0.queue
unfolding enqueue_state
enqueue_state-IsBounded s bytes = push_state-IsBounded s.queue bytes

pub make_room-IsBounded :
    (q : OutboundQueue) (bytes : ℕ) → IsBounded q → IsBounded (make_room q bytes).0
unfolding make_room sum
make_room-IsBounded q bytes b = ground arith

pub enqueue_event-IsBounded :
    (s : State) (sequence bytes : ℕ)
    → IsBounded s.queue
    → IsBounded (enqueue_event s sequence bytes).0.queue
unfolding enqueue_event
enqueue_event-IsBounded s sequence bytes b = ground (arith, make_room-IsBounded s.queue bytes b)

pub observe_queue-IsBounded :
    (s : State) (observations : Option ℕ)
    → IsBounded s.queue
    → IsBounded (observe_queue s observations).0.queue
unfolding observe_queue
observe_queue-IsBounded s observations b = ground arith

-- An admitted event fits: the queue is within its limit afterwards.
pub enqueue_event_fits :
    (s : State) (sequence bytes : ℕ) {total : ℕ} {coalesced : Bool}
    → (enqueue_event s sequence bytes).1 ≡ event_enqueued total coalesced ∷ []
    → (queued_bytes (enqueue_event s sequence bytes).0.queue ≤ queue_limit_bytes)
      × ((enqueue_event s sequence bytes).0.queue.event_bytes ≡ s.queue.event_bytes + bytes)
unfolding enqueue_event
enqueue_event_fits s sequence bytes h = ground arith
