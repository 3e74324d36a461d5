-- ===== src/Replay/Eviction/Caps.antt =====
-- scripts/replay-contract.mjs: the bounds that `evictEvents` establishes, and that its loops end with
-- the fuel they get.
use aigent_place.Base.{
  ℕ, zero, suc, ◌≤◌, ◌<◌, Bool, true, false, Option, none, some, List, [], ◌∷◌, map, ◌≡◌, ◌∙◌, refl,
  sym, ap, inl, inr, ◌⊎◌, ◌&&◌, ◌||◌, if◌then◌else◌, eqb, ltb, Bool-cases, Option-cases, arith,
}
use aigent_place.Base.Lists.{
  All, length, length-append, length-map, any, any-append, any-head, head?, sum, filter,
}
use aigent_place.Base.Sort.{sort_by, any-sort_by, length-sort_by}
use aigent_place.Replay.Stream.{Event, Reason, stream_cap, global_cap, Stream}
use aigent_place.Replay.Eviction.{
  event_stream_byte_cap, event_global_byte_cap, Streams, removed, remove, bytes_of, candidates,
  is_older, is_older_event, over_stream_cap, trim, trim_each, total_bytes, count_events,
  over_global_cap, trim_all,
}
use aigent_place.Replay.Eviction.Removal.{has_sequence, length-without, length-without_le}

-- The event that a sort puts first is one of the events.
first_of :
    (before : Event → Event → Bool) (es : List Event) {e : Event}
    → head? (sort_by before es) ≡ some e
    → has_sequence e.sequence es ≡ true
unfolding has_sequence
first_of before es {e} h =
    sym (any-sort_by before (λ f. eqb f.sequence e.sequence) es)
    ∙ any-head (λ f. eqb f.sequence e.sequence) (sort_by before es) h (ground arith)

no_head {ℓ} : {A : Type ℓ} (xs : List A) → head? xs ≡ none → length xs ≡ 0
no_head [] h = refl
no_head (x ∷ xs) h = absurd (ground (arith, h))

no_bytes : (es : List Event) → length es ≡ 0 → bytes_of es ≡ 0
unfolding bytes_of sum
no_bytes [] h = refl
no_bytes (e ∷ es) h = absurd (omega (arith, h))

when_over {ℓ} :
    {A : Type ℓ} (over : Bool) (o : Option A) {a : A}
    → (if over then o else none) ≡ some a
    → o ≡ some a
when_over true o h = h
when_over false o h = absurd (ground (arith, h))

when_not {ℓ} :
    {A : Type ℓ} (over : Bool) (o : Option A)
    → (if over then o else none) ≡ none
    → (over ≡ false) ⊎ (o ≡ none)
when_not true o h = inr h
when_not false o h = inl refl

stream_bound : (es : List Event) → over_stream_cap es ≡ none → bytes_of es ≤ event_stream_byte_cap
unfolding over_stream_cap
stream_bound es h =
    let sorted = sort_by is_older_event es in
    elim (when_not (ltb event_stream_byte_cap (bytes_of es)) (head? sorted) h) [
      | inl below ↦ ground (arith, below)
      | inr none_left ↦
          let empty : length es ≡ 0 =
            sym (length-sort_by is_older_event es) ∙ no_head sorted none_left in
          omega (arith, no_bytes es empty)
    ]

fewer_events :
    (e : Event) (r : Reason) (t : Stream)
    → over_stream_cap t.events ≡ some e
    → suc (length (removed e r t).events) ≡ length t.events
unfolding over_stream_cap removed
fewer_events e r t h = length-without e.sequence t.events (
    first_of is_older_event t.events
      (when_over (ltb event_stream_byte_cap (bytes_of t.events)) _ h))

-- With as much fuel as there are events the loop of a stream ends below the cap.
trim_bound :
    (fuel id : ℕ) (t : Stream)
    → length t.events ≤ fuel
    → bytes_of (trim fuel id t).0.events ≤ event_stream_byte_cap
unfolding trim
trim_bound zero id t h = omega (arith, no_bytes t.events (omega (arith, h)))
trim_bound (suc fuel) id t h = elim (Option-cases (over_stream_cap t.events)) [
  | inl fits ↦ rw (trim, fits) (stream_bound t.events fits)
  | inr (e, over) ↦
      rw (trim, over)
        (trim_bound fuel id (removed e stream_cap t)
          (omega (arith, h, fewer_events e stream_cap t over)))
]

abbrev pub StreamFits : ℕ × Stream → Type 0
StreamFits entry = bytes_of entry.1.events ≤ event_stream_byte_cap

pub trim_each-StreamFits : (streams : Streams) → All StreamFits (trim_each streams).0
unfolding trim_each
trim_each-StreamFits [] = tt
trim_each-StreamFits ((id, t) ∷ rest) =
    (trim_bound (length t.events) id t (omega arith), trim_each-StreamFits rest)

-- The loop over all streams.

count_events-remove_le :
    (id : ℕ) (e : Event) (r : Reason) (streams : Streams)
    → count_events (remove id e r streams) ≤ count_events streams
unfolding count_events remove sum removed
count_events-remove_le id e r [] = omega arith
count_events-remove_le id e r ((k, t) ∷ rest) =
    let later = count_events-remove_le id e r rest in
    let fewer = length-without_le e.sequence t.events in
    elim (Bool-cases (eqb k id)) [
      | inl this ↦ rw this (omega (arith, later, fewer))
      | inr other ↦ rw other (omega (arith, later))
    ]

-- The event `e` of stream `id`.
abbrev pub is_event : ℕ → Event → ℕ × Event → Bool
is_event id e c = eqb c.0 id && eqb c.1.sequence e.sequence

any-map_event :
    (id k : ℕ) (e : Event) (p : Event → Bool) (es : List Event)
    → any (is_event id e) (map (λ f. (k, f)) (filter p es)) ≡ true
    → (eqb k id ≡ true) × (has_sequence e.sequence es ≡ true)
unfolding any has_sequence filter
any-map_event id k e p [] h = absurd (ground (arith, h))
any-map_event id k e p (f ∷ fs) h = elim (Bool-cases (p f)) [
  | inl kept ↦
      let here : (is_event id e (k, f) || any (is_event id e) (map (λ f. (k, f)) (filter p fs)))
          ≡ true =
        rw kept at h in
      ground (arith, here, any-map_event id k e p fs)
  | inr dropped ↦
      let later = any-map_event id k e p fs (rw dropped at h) in (later.0, ground (arith, later.1))
]

count_events-remove :
    (id : ℕ) (e : Event) (r : Reason) (streams : Streams)
    → any (is_event id e) (candidates (λ f. true) streams) ≡ true
    → count_events (remove id e r streams) < count_events streams
unfolding count_events remove sum removed candidates any
count_events-remove id e r [] h = absurd (ground (arith, h))
count_events-remove id e r ((k, t) ∷ rest) h =
    let here : List (ℕ × Event) = map (λ f. (k, f)) (filter (λ f. true) t.events) in
    let others : List (ℕ × Event) = candidates (λ f. true) rest in
    let fewer = length-without_le e.sequence t.events in
    let split : (any (is_event id e) here || any (is_event id e) others) ≡ true =
      sym (any-append (is_event id e) here others) ∙ h in
    elim (Bool-cases (any (is_event id e) here)) [
      | inl found ↦
          let (this, present) = any-map_event id k e (λ f. true) t.events found in
          rw this (
            omega (
              arith,
              count_events-remove_le id e r rest,
              length-without e.sequence t.events present,
            ))
      | inr absent ↦
          let later = count_events-remove id e r rest (ground (arith, split, absent)) in
          elim (Bool-cases (eqb k id)) [
            | inl this ↦ rw this (omega (arith, later, fewer))
            | inr other ↦ rw other (omega (arith, later))
          ]
    ]

total_none : (streams : Streams) → count_events streams ≡ 0 → total_bytes streams ≡ 0
unfolding count_events total_bytes sum
total_none [] h = refl
total_none ((k, t) ∷ rest) h =
    omega (arith, no_bytes t.events (omega (arith, h)), total_none rest (omega (arith, h)))

length-filter_all : (es : List Event) → length (filter (λ f. true) es) ≡ length es
unfolding filter
length-filter_all [] = refl
length-filter_all (e ∷ es) = ap (λ n. suc n) (length-filter_all es)

no_candidates :
    (streams : Streams) → length (candidates (λ f. true) streams) ≡ 0 → count_events streams ≡ 0
unfolding count_events candidates sum
no_candidates [] h = refl
no_candidates ((k, t) ∷ rest) h =
    let here : List (ℕ × Event) = map (λ f. (k, f)) (filter (λ f. true) t.events) in
    let both = length-append here (candidates (λ f. true) rest) in
    let mapped = length-map {B = ℕ × Event} (λ f. (k, f)) (filter (λ f. true) t.events) in
    omega (
      arith,
      h,
      both,
      mapped,
      length-filter_all t.events,
      no_candidates rest (omega (arith, h, both)),
    )

total_bound :
    (streams : Streams)
    → over_global_cap streams ≡ none
    → total_bytes streams ≤ event_global_byte_cap
unfolding over_global_cap
total_bound streams h =
    let sorted = sort_by is_older (candidates (λ f. true) streams) in
    elim (when_not (ltb event_global_byte_cap (total_bytes streams)) (head? sorted) h) [
      | inl below ↦ ground (arith, below)
      | inr none_left ↦
          let empty : length (candidates (λ f. true) streams) ≡ 0 =
            sym (length-sort_by is_older (candidates (λ f. true) streams))
            ∙ no_head sorted none_left in
          omega (arith, total_none streams (no_candidates streams empty))
    ]

fewer_in_all :
    (id : ℕ) (e : Event) (r : Reason) (streams : Streams)
    → over_global_cap streams ≡ some (id, e)
    → count_events (remove id e r streams) < count_events streams
unfolding over_global_cap
fewer_in_all id e r streams h =
    let all = candidates (λ f. true) streams in
    count_events-remove id e r streams (
      sym (any-sort_by is_older (is_event id e) all)
      ∙ any-head (is_event id e) (sort_by is_older all)
          (when_over (ltb event_global_byte_cap (total_bytes streams)) _ h) (ground arith))

-- With as much fuel as there are events the loop over all streams ends below the cap.
pub trim_all_bound :
    (fuel : ℕ) (streams : Streams)
    → count_events streams ≤ fuel
    → total_bytes (trim_all fuel streams).0 ≤ event_global_byte_cap
unfolding trim_all
trim_all_bound zero streams h = omega (arith, total_none streams (omega (arith, h)))
trim_all_bound (suc fuel) streams h = elim (Option-cases (over_global_cap streams)) [
  | inl fits ↦ rw (trim_all, fits) (total_bound streams fits)
  | inr ((id, e), over) ↦
      rw (trim_all, over)
        (trim_all_bound fuel (remove id e global_cap streams)
          (omega (arith, h, fewer_in_all id e global_cap streams over)))
]
