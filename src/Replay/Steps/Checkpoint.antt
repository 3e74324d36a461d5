-- ===== src/Replay/Steps/Checkpoint.antt =====
-- scripts/replay-contract.mjs: a stream that `validateStream` accepts has a contiguous history.
use aigent_place.Base.{
  ℕ, ◌+◌, ◌-◌, ◌≤◌, ◌<◌, Bool, true, false, not, Option, none, some, List, [], ◌∷◌, ◌++◌, ◌≡◌, ◌≢◌,
  ◌∙◌, ◌↔◌, refl, sym, ap, inl, inr, ◌&&◌, ◌||◌, eqb, ltb, Bool-cases, Option-cases, arith,
}
use aigent_place.Base.Lists.{All, All-imp, length, filter, any, any-append}
use aigent_place.Base.Sort.{any-sort_by}
use aigent_place.Replay.Stream.{Event, Evicted, Stream, greatest_sent}
use aigent_place.Replay.Eviction.Removal.{has_sequence, Distinct}
use aigent_place.Replay.Validation.{
  is_cursor, is_next, cursors_valid, is_seen, check_events, check_evicted, follows, visible_after,
  check_visible, check_history, seen_in, validate_stream,
}
use aigent_place.Replay.Steps.Contiguous.{NextValid, IsContiguous, was_evicted}

-- A list in which each number is the one after the last has just the numbers of a range.
follows_range :
    (k before : ℕ) (ns : List ℕ)
    → follows before ns ≡ true
    → (is_seen k ns ≡ true) ↔ ((before < k) × (k ≤ before + length ns))
unfolding follows is_seen any
follows_range k before [] h =
    (λ p. absurd (ground (arith, p)), λ (low, high). absurd (omega (arith, low, high)))
follows_range k before (n ∷ ns) h =
    let rest = follows_range k (before + 1) ns (ground (arith, h)) in
    let next : n ≡ before + 1 = ground (arith, h) in
    (
      λ p. elim (Bool-cases (eqb n k)) [
        | inl this ↦ ground (arith, this, next)
        | inr other ↦
            let r = rest.0 (ground (arith, p, other)) in (omega (arith, r.0), omega (arith, r.1))
      ],
      λ (low, high). elim (Bool-cases (eqb n k)) [
        | inl this ↦ ground (arith, this)
        | inr other ↦
            ground (arith, other, rest.1 (ground (arith, low, next, other), omega (arith, high)))
      ],
    )

-- What the loops over the events have seen.

seen_more : (k n : ℕ) (seen : List ℕ) → is_seen k (seen ++ n ∷ []) ≡ (is_seen k seen || eqb n k)
unfolding is_seen any
seen_more k n seen = any-append (λ m. eqb m k) seen (n ∷ []) ∙ ground arith

abbrev or_nothing : Option (List ℕ) → List ℕ
or_nothing none = []
or_nothing (some seen) = seen

seen_none : (k : ℕ) (seen : List ℕ) → is_seen k seen ≡ (is_seen k seen || has_sequence k [])
unfolding has_sequence any
seen_none k seen = ground arith

has_first :
    (k : ℕ) (e : Event) (es : List Event)
    → has_sequence k (e ∷ es) ≡ (eqb e.sequence k || has_sequence k es)
unfolding has_sequence any
has_first k e es = refl

check_events_lem :
    (epoch : ℕ) (seen : List ℕ) (es : List Event) {out : List ℕ}
    → check_events epoch seen es ≡ some out
    → Distinct es
      × All (λ e. is_seen e.sequence seen ≡ false) es
      × ((k : ℕ) → is_seen k out ≡ (is_seen k seen || has_sequence k es))
unfolding check_events
check_events_lem epoch seen [] {out} h =
    (tt, tt, λ k. ap (λ o. is_seen k (or_nothing o)) (sym h) ∙ seen_none k seen)
check_events_lem epoch seen (e ∷ es) {out} h =
    elim (Bool-cases
      (is_cursor true e.sequence && eqb e.stream_epoch epoch && not (is_seen e.sequence seen))) [
        | inr bad ↦ absurd (ground (arith, rw bad at h))
        | inl good ↦
            let (distinct, fresh, same) =
              check_events_lem epoch (seen ++ e.sequence ∷ []) es (rw good at h) in
            (
              (
                All-imp (λ f. is_seen f.sequence (seen ++ e.sequence ∷ []) ≡ false)
                    (λ f. eqb f.sequence e.sequence ≡ false)
                    (λ f new. ground (arith, sym (seen_more f.sequence e.sequence seen) ∙ new)) es
                    fresh,
                distinct,
              ),
              (
                ground (arith, good),
                All-imp (λ f. is_seen f.sequence (seen ++ e.sequence ∷ []) ≡ false)
                    (λ f. is_seen f.sequence seen ≡ false)
                    (λ f new. ground (arith, sym (seen_more f.sequence e.sequence seen) ∙ new)) es
                    fresh,
              ),
              λ k. same k ∙ ground (arith, seen_more k e.sequence seen, has_first k e es),
            )
      ]

check_evicted_lem :
    (seen : List ℕ) (es : List Evicted) {out : List ℕ}
    → check_evicted seen es ≡ some out
    → (k : ℕ) → is_seen k out ≡ (is_seen k seen || was_evicted k es)
unfolding check_evicted was_evicted any
check_evicted_lem seen [] {out} h k = ap (λ o. is_seen k (or_nothing o)) (sym h) ∙ ground arith
check_evicted_lem seen (e ∷ es) {out} h k =
    elim (Bool-cases (is_cursor true e.sequence && not (is_seen e.sequence seen))) [
      | inr bad ↦ absurd (ground (arith, rw bad at h))
      | inl good ↦
          check_evicted_lem (seen ++ e.sequence ∷ []) es (rw good at h) k
          ∙ ground (arith, seen_more k e.sequence seen)
    ]

seen_filter :
    (acknowledged k : ℕ) (seen : List ℕ)
    → is_seen k (filter (λ n. ltb acknowledged n) seen) ≡ (ltb acknowledged k && is_seen k seen)
unfolding is_seen any filter
seen_filter acknowledged k [] = ground arith
seen_filter acknowledged k (n ∷ ns) = ground (arith, seen_filter acknowledged k ns)

pub seen_visible :
    (acknowledged k : ℕ) (seen : List ℕ)
    → is_seen k (visible_after acknowledged seen) ≡ (ltb acknowledged k && is_seen k seen)
unfolding visible_after is_seen
seen_visible acknowledged k seen =
    any-sort_by ltb (λ n. eqb n k) (filter (λ n. ltb acknowledged n) seen)
    ∙ seen_filter acknowledged k seen

-- What is visible after the acknowledgement is just what was sent after it.
pub visible_range :
    (sent acknowledged k : ℕ) (seen : List ℕ)
    → acknowledged ≤ sent
    → check_visible sent acknowledged (visible_after acknowledged seen) ≡ none
    → ((ltb acknowledged k && is_seen k seen) ≡ true) ↔ ((acknowledged < k) × (k ≤ sent))
unfolding check_visible
visible_range sent acknowledged k seen le h =
    let visible = visible_after acknowledged seen in
    let good : (eqb (length visible) (sent - acknowledged) && follows acknowledged visible) ≡ true =
      elim (Bool-cases
        (eqb (length visible) (sent - acknowledged) && follows acknowledged visible)) [
          | inl yes_ ↦ yes_
          | inr no_ ↦ absurd (ground (arith, rw no_ at h))
        ] in
    let count : length visible ≡ sent - acknowledged = ground (arith, good) in
    let range = follows_range k acknowledged visible (ground (arith, good)) in
    (
      λ p.
          let r = range.0 (seen_visible acknowledged k seen ∙ p) in
          (r.0, omega (arith, r.1, count, le)),
      λ (low, high).
          sym (seen_visible acknowledged k seen) ∙ range.1 (low, omega (arith, high, count, le)),
    )

is_next-NextValid : (next : Option ℕ) → is_next next ≡ true → NextValid next
unfolding is_next is_cursor
is_next-NextValid none h = tt
is_next-NextValid (some next) h = (ground (arith, h), ground (arith, h))

pub no_history : (t : Stream) → check_history t none ≢ none
unfolding check_history
no_history t h = ground (arith, h)

pub history_lem :
    (t : Stream) (seen : List ℕ)
    → check_history t (some seen) ≡ none
    → (t.acknowledged ≤ greatest_sent t)
      × (check_visible (greatest_sent t) t.acknowledged (visible_after t.acknowledged seen) ≡ none)
unfolding check_history
history_lem t seen h = elim (Bool-cases (ltb (greatest_sent t) t.acknowledged)) [
  | inl beyond ↦ absurd (ground (arith, rw beyond at h))
  | inr within ↦ (ground (arith, within), rw within at h)
]

none_seen : (k : ℕ) (es : List Event) → (is_seen k [] || has_sequence k es) ≡ has_sequence k es
unfolding is_seen any
none_seen k es = refl

has_own_sequence : (es : List Event) → All (λ e. has_sequence e.sequence es ≡ true) es
unfolding has_sequence any
has_own_sequence [] = tt
has_own_sequence (e ∷ es) = (
  ground arith,
  All-imp (λ f. has_sequence f.sequence es ≡ true) (λ f. has_sequence f.sequence (e ∷ es) ≡ true)
      (λ f has. ground (arith, has)) es (has_own_sequence es),
)

next_part : (t : Stream) → cursors_valid t ≡ true → is_next t.next_sequence ≡ true
unfolding cursors_valid
next_part t h = ground (arith, h)

sent_lem :
    {b : Bool} (t : Stream) (k : ℕ)
    → b ≡ true
    → t.acknowledged ≤ greatest_sent t
    → ((ltb t.acknowledged k && b) ≡ true → (t.acknowledged < k) × (k ≤ greatest_sent t))
    → k ≤ greatest_sent t
sent_lem {b} t k seen ack within = elim (Bool-cases (ltb t.acknowledged k)) [
  | inl after ↦ (within (ground (arith, after, seen))).1
  | inr before ↦ ground (arith, before, ack)
]

contiguous_lem :
    (t : Stream) (during seen : List ℕ)
    → is_next t.next_sequence ≡ true
    → check_events t.epoch [] t.events ≡ some during
    → check_evicted during t.evicted ≡ some seen
    → check_history t (some seen) ≡ none
    → IsContiguous t
contiguous_lem t during seen next events evicted h =
    let (distinct, fresh, same) = check_events_lem t.epoch [] t.events events in
    let (ack, visible) = history_lem t seen h in
    let present : (k : ℕ) → is_seen k seen ≡ (has_sequence k t.events || was_evicted k t.evicted) =
      λ k.
        check_evicted_lem during t.evicted evicted k
        ∙ ap (λ b. b || was_evicted k t.evicted) (same k ∙ none_seen k t.events) in
    let range : (k : ℕ)
        → ((ltb t.acknowledged k && is_seen k seen) ≡ true)
          ↔ ((t.acknowledged < k) × (k ≤ greatest_sent t)) =
      λ k. visible_range (greatest_sent t) t.acknowledged k seen ack visible in
    record {
      distinct = distinct;
      covered = λ k after until. ground (arith, present k, (range k).1 (after, until));
      sent =
          All-imp (λ e. has_sequence e.sequence t.events ≡ true) (λ e. e.sequence ≤ greatest_sent t)
            (λ e has.
              sent_lem t e.sequence (ground (arith, present e.sequence, has)) ack
                (range e.sequence).0)
            t.events (has_own_sequence t.events);
      ack = ack;
      next = is_next-NextValid t.next_sequence next;
    }

-- A stream of a checkpoint that is accepted has a contiguous history: each sequence that was sent and
-- not acknowledged is among its events or the evicted ones, its events have different sequences, all of
-- them sent, and the acknowledgement is of a sent sequence.
pub validate_stream-IsContiguous : (t : Stream) → validate_stream t ≡ none → IsContiguous t
unfolding validate_stream seen_in
validate_stream-IsContiguous t h = elim (Bool-cases (cursors_valid t)) [
  | inr bad ↦ absurd (ground (arith, rw bad at h))
  | inl good ↦
      let k : check_history t (seen_in t (check_events t.epoch [] t.events)) ≡ none =
        rw good at h in
      elim (Option-cases (check_events t.epoch [] t.events)) [
        | inl bad ↦ absurd (no_history t (rw bad at k))
        | inr (during, events) ↦ elim (Option-cases (check_evicted during t.evicted)) [
          | inl bad ↦ absurd (no_history t (rw (events, bad) at k))
          | inr (seen, evicted) ↦
              contiguous_lem t during seen (next_part t good) events evicted
                (rw (events, evicted) at k)
        ]
      ]
]
