-- ===== src/Replay/Steps/Soundness.antt =====
-- scripts/replay-contract.mjs: every operation on the event streams keeps the histories contiguous and
-- the epoch allocator ahead of every epoch in use.
use mathlib.Core.Path.{subst}
use aigent_place.Base.{
  ℕ, ◌≤◌, ◌<◌, Option, none, some, List, [], ◌∷◌, ◌++◌, ◌≡◌, ◌∙◌, refl, sym, inl, inr, eqb, ltb,
  leb, max, Bool-cases, arith,
}
use aigent_place.Base.Keys.{nat_key, ==_refl}
use aigent_place.Base.Lists.{All, All-imp}
use aigent_place.Base.Map.{lookup, lookup-insert, All-insert, All-lookup}
use aigent_place.Base.Value.{Value, number, or_else, non_negative_integer}
use aigent_place.Base.Outcome.{ok, ◌>>=◌, OnOk, OnOk-chain}
use aigent_place.Replay.U64.{max_u64, successor}
use aigent_place.Replay.Stream.{
  Event, Reason, Stream, Log, Emission, new_stream, greatest_sent, put, open_new, found_or_new,
  stream, append_event, emit, at_hour, operational_hour,
}
use aigent_place.Replay.Eviction.{Eviction, removed, evict_at, evict_events}
use aigent_place.Replay.Eviction.Removal.{evict_at-Every}
use aigent_place.Replay.Cursor.{
  Position, fault, cursor, acknowledged_to, acknowledge_in, acknowledge_at, acknowledge, reset,
  replay_or_reset, resume_after, missing_after, resume_in, resume_at, resume, position_of,
}
use aigent_place.Replay.Steps.{Step, Output, evaluate_step, run, ack}
use aigent_place.Replay.Steps.Contiguous.{
  NextValid, IsContiguous, removed-IsContiguous, new_stream-IsContiguous,
  acknowledged_to-IsContiguous, appended, appended-IsContiguous, successor-NextValid,
}

-- The epoch was handed out before the next one.
abbrev pub Used : Option ℕ → ℕ → Type 0
Used none epoch = Unit
Used (some next) epoch = epoch < next

pub record IsSound (log : Log) : Type 0 where
  pub contiguous : All (λ entry. IsContiguous entry.1) log.streams
  pub epochs : All (λ entry. Used log.next_stream_epoch entry.1.epoch) log.streams
  pub next : NextValid log.next_stream_epoch

put-IsSound :
    (log : Log) (id : ℕ) (t t' : Stream)
    → lookup id log.streams ≡ some t
    → t'.epoch ≡ t.epoch
    → IsContiguous t'
    → IsSound log
    → IsSound (put log id t')
unfolding put
put-IsSound log id t t' found same h s =
    let used = All-lookup (λ u. Used log.next_stream_epoch u.epoch) id log.streams found s.epochs in
    record {
      contiguous = All-insert IsContiguous id t' log.streams h s.contiguous;
      epochs =
          All-insert (λ u. Used log.next_stream_epoch u.epoch) id t' log.streams
            (subst (Used log.next_stream_epoch) (sym same) used) s.epochs;
      next = s.next;
    }

Used-successor : (epoch other : ℕ) → other ≤ epoch → Used (successor epoch) other
unfolding successor
Used-successor epoch other h = elim (Bool-cases (eqb epoch max_u64)) [
  | inl last ↦ rw last tt
  | inr more ↦ rw more (omega (arith, h))
]

-- A stream that is opened, or reset, takes the next epoch.
abbrev pub renewed : Log → ℕ → ℕ → Log
renewed log id epoch = record (put log id (new_stream epoch)) {
  next_stream_epoch = successor epoch;
}

renewed-IsSound :
    (log : Log) (id epoch : ℕ)
    → log.next_stream_epoch ≡ some epoch
    → IsSound log
    → IsSound (renewed log id epoch)
unfolding put new_stream
renewed-IsSound log id epoch next s =
    let valid : (0 < epoch) × (epoch ≤ max_u64) = subst NextValid next s.next in
    let fresh = new_stream epoch in
    let used : All (λ entry. Used (some epoch) entry.1.epoch) log.streams =
      subst (λ o. All (λ entry. Used o entry.1.epoch) log.streams) next s.epochs in
    record {
      contiguous =
          All-insert IsContiguous id fresh log.streams (new_stream-IsContiguous epoch) s.contiguous;
      epochs =
          All-insert (λ u. Used (successor epoch) u.epoch) id fresh log.streams
            (Used-successor epoch epoch (omega arith))
            (All-imp (λ entry. Used (some epoch) entry.1.epoch)
              (λ entry. Used (successor epoch) entry.1.epoch)
              (λ entry below. Used-successor epoch entry.1.epoch (omega (arith, below))) log.streams
              used);
      next = successor-NextValid epoch valid.1;
    }

lookup-renewed :
    (log : Log) (id epoch : ℕ) → lookup id (renewed log id epoch).streams ≡ some (new_stream epoch)
unfolding put
lookup-renewed log id epoch =
    lookup-insert id id (new_stream epoch) log.streams ∙ (rw (==_refl id) refl)

-- `stream` gives a sound log that has the stream.
abbrev Found : ℕ → Log × Stream → Type 0
Found id r = IsSound r.0 × (lookup id r.0.streams ≡ some r.1)

found_or_new-Found :
    (log : Log) (id : ℕ) (o : Option Stream)
    → lookup id log.streams ≡ o
    → IsSound log
    → OnOk (Found id) (found_or_new log id o)
unfolding found_or_new open_new
found_or_new-Found log id (some t) found s = (s, found)
found_or_new-Found log id none found s = opened log.next_stream_epoch refl
  where
    opened : (o : Option ℕ) → log.next_stream_epoch ≡ o → OnOk (Found id) (open_new log id o)
    opened none next = tt
    opened (some epoch) next = (renewed-IsSound log id epoch next s, lookup-renewed log id epoch)

append_event-IsSound :
    (log : Log) (hour : ℕ) (e : Emission) (t : Stream) (sequence ordinal : Option ℕ)
    → Found e.stream_id (log, t)
    → t.next_sequence ≡ sequence
    → OnOk (λ r. IsSound r.0) (append_event log hour e t sequence ordinal)
unfolding append_event
append_event-IsSound log hour e t none ordinal h next = tt
append_event-IsSound log hour e t (some sequence) none h next = tt
append_event-IsSound log hour e t (some sequence) (some ordinal) (s, found) next =
    let event : Event = record {
      sequence = sequence;
      stream_epoch = t.epoch;
      ordinal = ordinal;
      bytes = e.bytes;
      committed_at = hour;
      payload = e.payload;
    } in
    put-IsSound (record log { next_ordinal = successor ordinal }) e.stream_id t (appended t event)
      found refl
      (appended-IsContiguous t event next
        (All-lookup IsContiguous e.stream_id log.streams found s.contiguous))
      (record { contiguous = s.contiguous; epochs = s.epochs; next = s.next })

emit-IsSound :
    (log : Log) (hour : ℕ) (e : Emission) → IsSound log → OnOk (λ r. IsSound r.0) (emit log hour e)
unfolding emit stream
emit-IsSound log hour e s =
    OnOk-chain (Found e.stream_id) (λ r. IsSound r.0)
      (found_or_new log e.stream_id (lookup e.stream_id log.streams))
      (λ r. append_event r.0 hour e r.1 r.1.next_sequence r.0.next_ordinal)
      (found_or_new-Found log e.stream_id (lookup e.stream_id log.streams) refl s)
      (λ r h. append_event-IsSound r.0 hour e r.1 r.1.next_sequence r.0.next_ordinal h refl)

same_epoch :
    (next : Option ℕ) (e : Event) (r : Reason) (t : Stream)
    → Used next t.epoch
    → Used next (removed e r t).epoch
unfolding removed
same_epoch next e r t h = h

evicted-IsSound :
    (log : Log) (hour : ℕ)
    → IsSound log
    → IsSound (record log { streams = (evict_at hour log.streams).0 })
evicted-IsSound log hour s = record {
  contiguous = evict_at-Every IsContiguous removed-IsContiguous hour log.streams s.contiguous;
  epochs =
      evict_at-Every (λ u. Used log.next_stream_epoch u.epoch) (same_epoch log.next_stream_epoch)
        hour log.streams s.epochs;
  next = s.next;
}

evict_events-IsSound :
    (log : Log) (now_hour : Value)
    → IsSound log
    → OnOk (λ r. IsSound r.0) (evict_events log now_hour)
unfolding evict_events operational_hour at_hour
evict_events-IsSound log now_hour s =
    evicted_at (non_negative_integer (or_else now_hour (number log.last_commit_hour)))
  where
    evicted_at :
        (o : Option ℕ)
        → OnOk
            (λ (r : Log × List Eviction). IsSound r.0)
            (at_hour log o >>= λ at. ok (
              record at { streams = (evict_at at.last_commit_hour at.streams).0 },
              (evict_at at.last_commit_hour at.streams).1,
            ))
    evicted_at none = tt
    evicted_at (some hour) =
        evicted-IsSound (record log { last_commit_hour = max hour log.last_commit_hour })
          (max hour log.last_commit_hour)
          (record { contiguous = s.contiguous; epochs = s.epochs; next = s.next })

epoch_kept : (t : Stream) (sequence : ℕ) → (acknowledged_to t sequence).epoch ≡ t.epoch
unfolding acknowledged_to
epoch_kept t sequence = refl

acknowledge-IsSound :
    (log : Log) (id : ℕ) (p : Position) (o : Option Stream)
    → lookup id log.streams ≡ o
    → IsSound log
    → IsSound (acknowledge_at log id p o).0
unfolding acknowledge_at acknowledge_in
acknowledge-IsSound log id (fault f) o found s = s
acknowledge-IsSound log id (cursor epoch sequence) none found s = s
acknowledge-IsSound log id (cursor epoch sequence) (some t) found s =
    elim (Bool-cases (eqb epoch t.epoch)) [
      | inr stale ↦ rw stale s
      | inl current ↦ rw current (elim (Bool-cases (ltb (greatest_sent t) sequence)) [
        | inl ahead ↦ rw ahead s
        | inr sent ↦ rw sent (elim (Bool-cases (leb sequence t.acknowledged)) [
          | inl again ↦ rw again s
          | inr later ↦ rw later (
              put-IsSound log id t (acknowledged_to t sequence) found (epoch_kept t sequence)
                (acknowledged_to-IsContiguous t sequence (ground (arith, later))
                  (ground (arith, sent))
                  (All-lookup IsContiguous id log.streams found s.contiguous))
                s)
        ])
      ])
    ]

replay_or_reset-IsSound :
    (log : Log) (id : ℕ) (t : Stream) (after : ℕ) (missing : List ℕ)
    → IsSound log
    → OnOk (λ r. IsSound r.0) (replay_or_reset log id t after missing)
unfolding replay_or_reset reset
replay_or_reset-IsSound log id t after [] s = s
replay_or_reset-IsSound log id t after (m ∷ more) s = renewed_lem log.next_stream_epoch refl
  where
    renewed_lem :
        (o : Option ℕ)
        → log.next_stream_epoch ≡ o
        → OnOk (λ r. IsSound r.0) (reset log id t m more o)
    renewed_lem none next = tt
    renewed_lem (some epoch) next = renewed-IsSound log id epoch next s

resume-IsSound :
    (log : Log) (id : ℕ) (p : Position) (o : Option Stream)
    → IsSound log
    → OnOk (λ r. IsSound r.0) (resume_at log id p o)
unfolding resume_at resume_in resume_after
resume-IsSound log id (fault f) o s = s
resume-IsSound log id (cursor epoch requested) none s = s
resume-IsSound log id (cursor epoch requested) (some t) s = elim (Bool-cases (eqb epoch t.epoch)) [
  | inr stale ↦ rw stale s
  | inl current ↦ rw current (
      let after = max requested t.acknowledged in
      elim (Bool-cases (ltb (greatest_sent t) after)) [
        | inl ahead ↦ rw ahead s
        | inr sent ↦ rw sent (replay_or_reset-IsSound log id t after (missing_after after t) s)
      ])
]

evaluate_step-IsSound :
    (log : Log) (step : Step) → IsSound log → OnOk (λ r. IsSound r.0) (evaluate_step log step)
unfolding evaluate_step acknowledge resume
evaluate_step-IsSound log (Step.emit hour e) s =
    OnOk-chain (λ r. IsSound r.0) (λ r. IsSound r.0) (emit log hour e) _ (emit-IsSound log hour e s)
      (λ r h. h)
evaluate_step-IsSound log (Step.evict_events now_hour) s =
    OnOk-chain (λ r. IsSound r.0) (λ r. IsSound r.0) (evict_events log now_hour) _
      (evict_events-IsSound log now_hour s) (λ r h. h)
evaluate_step-IsSound log (ack id epoch sequence) s =
    acknowledge-IsSound log id (position_of epoch sequence) (lookup id log.streams) refl s
evaluate_step-IsSound log (Step.resume id epoch last) s =
    OnOk-chain (λ r. IsSound r.0) (λ r. IsSound r.0) (resume log id epoch last) _
      (resume-IsSound log id _ (lookup id log.streams) s) (λ r h. h)

run_keeps :
    (log : Log) (trace : List Output) (steps : List Step)
    → IsSound log
    → OnOk (λ r. IsSound r.0) (run log trace steps)
unfolding run
run_keeps log trace [] s = s
run_keeps log trace (step ∷ steps) s =
    OnOk-chain (λ r. IsSound r.0) (λ r. IsSound r.0) (evaluate_step log step) _
      (evaluate_step-IsSound log step s) (λ r h. run_keeps r.0 (trace ++ r.1) steps h)

-- From a sound log, whatever is emitted, evicted, acknowledged and resumed, the log that a run ends in
-- is sound: in every stream each sequence that was sent and not acknowledged is retained or recorded as
-- evicted, the retained sequences differ and were sent, the acknowledgement is of a sent sequence, and
-- the next epoch is above every epoch in use.
pub run-IsSound :
    (log : Log) (steps : List Step) {r : Log × List Output}
    → IsSound log
    → run log [] steps ≡ ok r
    → IsSound r.0
run-IsSound log steps {r} s h = subst (OnOk (λ r. IsSound r.0)) h (run_keeps log [] steps s)
