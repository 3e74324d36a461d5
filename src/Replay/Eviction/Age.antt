-- ===== src/Replay/Eviction/Age.antt =====
-- scripts/replay-contract.mjs: the first loop of `evictEvents` leaves no event that is too old.
use aigent_place.Base.{
  ℕ, Bool, true, false, List, [], ◌∷◌, ◌++◌, map, ◌≡◌, ◌∙◌, inl, inr, eqb, Bool-cases, arith,
}
use aigent_place.Base.Lists.{All, All-imp, All-both, any, any-append, filter}
use aigent_place.Base.Sort.{sort_by, any-sort_by}
use aigent_place.Replay.Stream.{Event, Reason, age, Stream}
use aigent_place.Replay.Eviction.{
  Streams, without, removed, remove, candidates, is_older, is_expired, remove_each, evict_by_age,
}
use aigent_place.Replay.Eviction.Removal.{
  Distinct, without-All, without-Distinct, without_gone, remove-Every,
}
use aigent_place.Replay.Eviction.Caps.{is_event}

abbrev pub DistinctEvents : Stream → Type 0
DistinctEvents t = Distinct t.events

-- No event of the stream is too old.
abbrev pub Young : ℕ → Stream → Type 0
Young hour t = All (λ e. is_expired hour e ≡ false) t.events

pub removed-DistinctEvents :
    (e : Event) (r : Reason) (t : Stream) → DistinctEvents t → DistinctEvents (removed e r t)
unfolding removed
removed-DistinctEvents e r t h = without-Distinct e.sequence t.events h

pub removed-Young :
    (hour : ℕ) (e : Event) (r : Reason) (t : Stream) → Young hour t → Young hour (removed e r t)
unfolding removed
removed-Young hour e r t h = without-All (λ f. is_expired hour f ≡ false) e.sequence t.events h

-- The event of stream `id` is still to be removed if it is too old.
abbrev Scheduled : ℕ → List (ℕ × Event) → ℕ → Event → Type 0
Scheduled hour cs id e = is_expired hour e ≡ true → any (is_event id e) cs ≡ true

abbrev Covers : ℕ → List (ℕ × Event) → Streams → Type 0
Covers hour cs streams = All (λ entry. All (Scheduled hour cs entry.0) entry.1.events) streams

removed-Covers :
    (hour id k : ℕ) (c : Event) (more : List (ℕ × Event)) (t : Stream)
    → DistinctEvents t
    → All (Scheduled hour ((id, c) ∷ more) k) t.events
    → All (Scheduled hour more k) (removed c age t).events
unfolding removed any
removed-Covers hour id k c more t d h =
    let left = without c.sequence t.events in
    All-imp (λ e. Scheduled hour ((id, c) ∷ more) k e × (eqb e.sequence c.sequence ≡ false))
      (Scheduled hour more k) (λ e s old. ground (arith, s.0 old, s.1)) left
      (All-both (Scheduled hour ((id, c) ∷ more) k) (λ e. eqb e.sequence c.sequence ≡ false) left
        (without-All (Scheduled hour ((id, c) ∷ more) k) c.sequence t.events h)
        (without_gone c.sequence t.events d))

other-Covers :
    (hour id k : ℕ) (c : Event) (more : List (ℕ × Event)) (es : List Event)
    → eqb k id ≡ false
    → All (Scheduled hour ((id, c) ∷ more) k) es
    → All (Scheduled hour more k) es
unfolding any
other-Covers hour id k c more es other h =
    All-imp (Scheduled hour ((id, c) ∷ more) k) (Scheduled hour more k)
      (λ e s old. ground (arith, s old, other)) es h

remove-Covers :
    (hour id : ℕ) (c : Event) (more : List (ℕ × Event)) (streams : Streams)
    → All (λ entry. DistinctEvents entry.1) streams
    → Covers hour ((id, c) ∷ more) streams
    → Covers hour more (remove id c age streams)
unfolding remove
remove-Covers hour id c more [] d h = tt
remove-Covers hour id c more ((k, t) ∷ rest) d h = (
  elim (Bool-cases (eqb k id)) [
    | inl this ↦ rw this (removed-Covers hour id k c more t d.0 h.0)
    | inr other ↦ rw other (other-Covers hour id k c more t.events other h.0)
  ],
  remove-Covers hour id c more rest d.1 h.1,
)

nothing_left : (hour id : ℕ) (e : Event) → Scheduled hour [] id e → is_expired hour e ≡ false
unfolding any
nothing_left hour id e s = elim (Bool-cases (is_expired hour e)) [
  | inl old ↦ absurd (ground (arith, s old))
  | inr young ↦ young
]

remove_each-Young :
    (hour : ℕ) (cs : List (ℕ × Event)) (streams : Streams)
    → All (λ entry. DistinctEvents entry.1) streams
    → Covers hour cs streams
    → All (λ entry. Young hour entry.1) (remove_each cs streams).0
unfolding remove_each
remove_each-Young hour [] streams d h =
    All-imp (λ entry. All (Scheduled hour [] entry.0) entry.1.events) (λ entry. Young hour entry.1)
      (λ entry k.
        All-imp (Scheduled hour [] entry.0) (λ e. is_expired hour e ≡ false)
          (nothing_left hour entry.0) entry.1.events k)
      streams h
remove_each-Young hour ((id, c) ∷ more) streams d h =
    remove_each-Young hour more (remove id c age streams)
      (remove-Every DistinctEvents removed-DistinctEvents id c age streams d)
      (remove-Covers hour id c more streams d h)

-- Every event that is too old is scheduled at the start.
found_here : (p : Event → Bool) (k : ℕ) (es : List Event) (e : Event) → Bool
unfolding any
found_here p k es e = any (is_event k e) (map (λ f. (k, f)) (filter p es))

found_first :
    (p : Event → Bool) (k : ℕ) (f : Event) (fs : List Event)
    → p f ≡ true
    → found_here p k (f ∷ fs) f ≡ true
unfolding any filter found_here
found_first p k f fs h = rw h (ground arith)

found_later :
    (p : Event → Bool) (k : ℕ) (f : Event) (fs : List Event) (e : Event)
    → found_here p k fs e ≡ true
    → found_here p k (f ∷ fs) e ≡ true
unfolding any filter found_here
found_later p k f fs e h = elim (Bool-cases (p f)) [
  | inl kept ↦ rw kept (ground (arith, h))
  | inr dropped ↦ rw dropped h
]

kept_here :
    (p : Event → Bool) (k : ℕ) (es : List Event)
    → All (λ e. p e ≡ true → found_here p k es e ≡ true) es
kept_here p k [] = tt
kept_here p k (f ∷ fs) = (
  found_first p k f fs,
  All-imp (λ e. p e ≡ true → found_here p k fs e ≡ true)
      (λ e. p e ≡ true → found_here p k (f ∷ fs) e ≡ true) (λ e s h. found_later p k f fs e (s h))
      fs (kept_here p k fs),
)

candidates-Covers :
    (hour : ℕ) (streams : Streams) → Covers hour (candidates (is_expired hour) streams) streams
unfolding candidates found_here
candidates-Covers hour [] = tt
candidates-Covers hour ((k, t) ∷ rest) =
    let p = is_expired hour in
    let here : List (ℕ × Event) = map (λ f. (k, f)) (filter p t.events) in
    let others : List (ℕ × Event) = candidates p rest in
    (
      All-imp (λ e. p e ≡ true → found_here p k t.events e ≡ true)
          (Scheduled hour (here ++ others) k)
          (λ e s h. any-append (is_event k e) here others ∙ ground (arith, s h)) t.events
          (kept_here p k t.events),
      All-imp (λ entry. All (Scheduled hour others entry.0) entry.1.events)
          (λ entry. All (Scheduled hour (here ++ others) entry.0) entry.1.events)
          (λ entry.
            All-imp (Scheduled hour others entry.0) (Scheduled hour (here ++ others) entry.0)
              (λ e s h. any-append (is_event entry.0 e) here others ∙ ground (arith, s h))
              entry.1.events)
          rest (candidates-Covers hour rest),
    )

-- The loop over the events that are too old leaves none of them.
pub evict_by_age-Young :
    (hour : ℕ) (streams : Streams)
    → All (λ entry. DistinctEvents entry.1) streams
    → All (λ entry. Young hour entry.1) (evict_by_age hour streams).0
unfolding evict_by_age
evict_by_age-Young hour streams d =
    let old : List (ℕ × Event) = candidates (is_expired hour) streams in
    remove_each-Young hour (sort_by is_older old) streams d (
      All-imp (λ entry. All (Scheduled hour old entry.0) entry.1.events)
        (λ entry. All (Scheduled hour (sort_by is_older old) entry.0) entry.1.events)
        (λ entry.
          All-imp (Scheduled hour old entry.0) (Scheduled hour (sort_by is_older old) entry.0)
            (λ e s h. any-sort_by is_older (is_event entry.0 e) old ∙ s h) entry.1.events)
        streams (candidates-Covers hour streams))
