-- ===== src/Protocol/Queue/Overflow.antt =====
-- Sustained outbound overflow in scripts/protocol-contract.mjs.
use aigent_place.Base.{
  ℕ, zero, suc, ◌+◌, ◌≤◌, ◌<◌, ◌≡◌, refl, true, false, some, [], ◌∷◌, arith, leb, if◌then◌else◌,
}
use aigent_place.Protocol.State.{State}
use aigent_place.Protocol.Output.{connection_closed, sustained_outbound_overflow, queue_observed}
use aigent_place.Protocol.Queue.{
  queue_limit_bytes, overflow_tick_observations, queued_bytes, observe, observe_queue,
}

observe_over :
    (n ticks : ℕ)
    → ticks < overflow_tick_observations
    → observe n true ticks ≡ (
        if leb overflow_tick_observations (ticks + n)
        then (overflow_tick_observations, true)
        else (ticks + n, false))
unfolding observe
observe_over zero ticks h = ground arith
observe_over (suc n) ticks h = ground (arith, observe_over n (ticks + 1))

observe_under : (n ticks : ℕ) → observe (suc n) false ticks ≡ (0, false)
unfolding observe
observe_under zero ticks = refl
observe_under (suc n) ticks = ground (arith, observe_under n 0)

-- On an open connection with fewer than 40 over-limit ticks, `n` observations of a queue over the
-- limit close the connection, with 40 ticks, exactly when the ticks reach 40; otherwise they add up.
pub observe_queue_over :
    (s : State) (n : ℕ)
    → s.closed ≡ false
    → s.queue.over_limit_ticks < overflow_tick_observations
    → queue_limit_bytes < queued_bytes s.queue
    → ((observe_queue s (some n)).1 ≡ (
        if leb overflow_tick_observations (s.queue.over_limit_ticks + n)
        then connection_closed (sustained_outbound_overflow overflow_tick_observations) ∷ []
        else queue_observed (s.queue.over_limit_ticks + n) ∷ []))
      × ((observe_queue s (some n)).0.closed
          ≡ leb overflow_tick_observations (s.queue.over_limit_ticks + n))
unfolding observe_queue
observe_queue_over s n open_ few over = ground (arith, observe_over n s.queue.over_limit_ticks)

-- Any positive number of observations of a queue within the limit takes the tick count back to 0 and
-- leaves the connection open.
pub observe_queue_under :
    (s : State) (n : ℕ)
    → s.closed ≡ false
    → queued_bytes s.queue ≤ queue_limit_bytes
    → ((observe_queue s (some (suc n))).1 ≡ queue_observed 0 ∷ [])
      × ((observe_queue s (some (suc n))).0.closed ≡ false)
      × ((observe_queue s (some (suc n))).0.queue.over_limit_ticks ≡ 0)
unfolding observe_queue
observe_queue_under s n open_ fits = ground (arith, observe_under n s.queue.over_limit_ticks)
