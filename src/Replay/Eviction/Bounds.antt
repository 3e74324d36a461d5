-- ===== src/Replay/Eviction/Bounds.antt =====
-- scripts/replay-contract.mjs: the retention bounds hold after `evictEvents`.
use aigent_place.Base.{ℕ, ◌+◌, ◌≤◌, ◌<◌, max, some, false, List, ◌≡◌, refl, ap, arith}
use aigent_place.Base.Lists.{All, All-imp}
use aigent_place.Base.Value.{number, max_safe_integer, non_negative_integer, or_else}
use aigent_place.Base.Outcome.{ok, ◌>>=◌}
use aigent_place.Replay.Stream.{Event, Reason, Stream, Log, operational_hour, at_hour}
use aigent_place.Replay.Eviction.{
  Streams, Eviction, is_expired, event_retention_hours, event_stream_byte_cap,
  event_global_byte_cap, removed, bytes_of, total_bytes, count_events, trim_each, trim_all,
  evict_by_age, evict_at, evict_events,
}
use aigent_place.Replay.Eviction.Removal.{bytes_of-without, trim_each-Every, trim_all-Every}
use aigent_place.Replay.Eviction.Caps.{StreamFits, trim_each-StreamFits, trim_all_bound}
use aigent_place.Replay.Eviction.Age.{DistinctEvents, Young, removed-Young, evict_by_age-Young}

-- What the log may retain: no event of 24 hours or more, 4 MiB a stream and 512 MiB in all.
pub record IsBounded (hour : ℕ) (streams : Streams) : Type 0 where
  pub young :
      All (λ entry. All (λ e. hour < e.committed_at + event_retention_hours) entry.1.events) streams
  pub stream_fits : All StreamFits streams
  pub fits : total_bytes streams ≤ event_global_byte_cap

abbrev Fits : Stream → Type 0
Fits t = bytes_of t.events ≤ event_stream_byte_cap

removed-Fits : (e : Event) (r : Reason) (t : Stream) → Fits t → Fits (removed e r t)
unfolding removed
removed-Fits e r t h = omega (arith, h, bytes_of-without e.sequence t.events)

not_expired :
    (hour : ℕ) (es : List Event)
    → All (λ e. is_expired hour e ≡ false) es
    → All (λ e. hour < e.committed_at + event_retention_hours) es
unfolding is_expired
not_expired hour es h =
    All-imp (λ e. is_expired hour e ≡ false) (λ e. hour < e.committed_at + event_retention_hours)
      (λ e young. ground (arith, young)) es h

evict_at-IsBounded :
    (hour : ℕ) (streams : Streams)
    → All (λ entry. DistinctEvents entry.1) streams
    → IsBounded hour (evict_at hour streams).0
unfolding evict_at
evict_at-IsBounded hour streams d =
    let aged = (evict_by_age hour streams).0 in
    let trimmed = (trim_each aged).0 in
    let fuel = count_events trimmed in
    let keep = removed-Young hour in
    record {
      young =
          All-imp (λ entry. Young hour entry.1)
            (λ entry. All (λ e. hour < e.committed_at + event_retention_hours) entry.1.events)
            (λ entry. not_expired hour entry.1.events) (trim_all fuel trimmed).0
            (trim_all-Every (Young hour) keep fuel trimmed
              (trim_each-Every (Young hour) keep aged (evict_by_age-Young hour streams d)));
      stream_fits = trim_all-Every Fits removed-Fits fuel trimmed (trim_each-StreamFits aged);
      fits = trim_all_bound fuel trimmed (omega arith);
    }

operational_hour_safe :
    (log : Log) (hour : ℕ)
    → hour ≤ max_safe_integer
    → operational_hour log (number hour)
      ≡ ok (record log { last_commit_hour = max hour log.last_commit_hour })
unfolding operational_hour at_hour non_negative_integer or_else
operational_hour_safe log hour h = ap (λ o. at_hour log o) safe
  where
    safe : non_negative_integer (number hour) ≡ some hour
    safe = ground (arith, h)

-- An eviction at a safe hour succeeds, and then no retained event is 24 hours old at the hour of the
-- log, each stream retains at most 4 MiB and all streams together at most 512 MiB, where the retained
-- events of each stream had different sequences.
pub evict_events_lem :
    (log : Log) (hour : ℕ)
    → hour ≤ max_safe_integer
    → All (λ entry. DistinctEvents entry.1) log.streams
    → (r : Log × List Eviction) × (evict_events log (number hour) ≡ ok r)
      × (r.0.last_commit_hour ≡ max hour log.last_commit_hour)
      × IsBounded r.0.last_commit_hour r.0.streams
unfolding evict_events
evict_events_lem log hour h d =
    let at = record log { last_commit_hour = max hour log.last_commit_hour } in
    let evicted = evict_at at.last_commit_hour at.streams in
    (
      (record at { streams = evicted.0 }, evicted.1),
      ap
          (λ o. o >>= λ at. ok (
            record at { streams = (evict_at at.last_commit_hour at.streams).0 },
            (evict_at at.last_commit_hour at.streams).1,
          ))
          (operational_hour_safe log hour h),
      refl,
      evict_at-IsBounded at.last_commit_hour log.streams d,
    )
