-- ===== src/Replay/Eviction/Removal.antt =====
-- scripts/replay-contract.mjs: what `remove` of `evictEvents` does to the events of a stream, and what
-- holds of every stream after an eviction since each removal keeps it.
use aigent_place.Base.{
  ℕ, zero, suc, ◌≤◌, Bool, true, false, List, [], ◌∷◌, ◌≡◌, inl, inr, ◌||◌, eqb, Bool-cases,
  Option-cases, arith,
}
use aigent_place.Base.Lists.{All, length, any, sum, All-imp}
use aigent_place.Base.Sort.{sort_by}
use aigent_place.Replay.Stream.{Event, Reason, age, stream_cap, global_cap, Stream}
use aigent_place.Replay.Eviction.{
  Streams, without, removed, remove, bytes_of, remove_each, over_stream_cap, trim, trim_each,
  over_global_cap, trim_all, evict_by_age, evict_at, count_events, is_older, is_expired, candidates,
}

unfoldable pub has_sequence : ℕ → List Event → Bool
has_sequence sequence events = any (λ e. eqb e.sequence sequence) events

-- No two events of the list have one sequence.
abbrev pub Distinct : List Event → Type 0
Distinct [] = Unit
Distinct (e ∷ es) = All (λ other. eqb other.sequence e.sequence ≡ false) es × Distinct es

pub without-All {κ} :
    (P : Event → Type κ) (sequence : ℕ) (es : List Event) → All P es → All P (without sequence es)
unfolding without
without-All P sequence [] h = tt
without-All P sequence (e ∷ es) h = elim (Bool-cases (eqb e.sequence sequence)) [
  | inl this ↦ rw this h.1
  | inr other ↦ rw other (h.0, without-All P sequence es h.1)
]

pub without-Distinct :
    (sequence : ℕ) (es : List Event) → Distinct es → Distinct (without sequence es)
unfolding without
without-Distinct sequence [] h = tt
without-Distinct sequence (e ∷ es) h = elim (Bool-cases (eqb e.sequence sequence)) [
  | inl this ↦ rw this h.1
  | inr other ↦ rw other (
    without-All (λ f. eqb f.sequence e.sequence ≡ false) sequence es h.0,
    without-Distinct sequence es h.1,
  )
]

pub without_gone :
    (sequence : ℕ) (es : List Event)
    → Distinct es
    → All (λ e. eqb e.sequence sequence ≡ false) (without sequence es)
unfolding without
without_gone sequence [] h = tt
without_gone sequence (e ∷ es) h = elim (Bool-cases (eqb e.sequence sequence)) [
  | inl this ↦ rw this (
      All-imp (λ f. eqb f.sequence e.sequence ≡ false) (λ f. eqb f.sequence sequence ≡ false)
        (λ f k. ground (arith, k, this)) es h.0)
  | inr other ↦ rw other (other, without_gone sequence es h.1)
]

pub has_sequence-without :
    (wanted sequence : ℕ) (es : List Event)
    → has_sequence wanted es ≡ true
    → (has_sequence wanted (without sequence es) || eqb sequence wanted) ≡ true
unfolding without has_sequence any
has_sequence-without wanted sequence [] h = absurd (ground (arith, h))
has_sequence-without wanted sequence (e ∷ es) h =
    ground (arith, h, has_sequence-without wanted sequence es)

pub length-without :
    (sequence : ℕ) (es : List Event)
    → has_sequence sequence es ≡ true
    → suc (length (without sequence es)) ≡ length es
unfolding without has_sequence any
length-without sequence [] h = absurd (ground (arith, h))
length-without sequence (e ∷ es) h = ground (arith, h, length-without sequence es)

pub length-without_le : (sequence : ℕ) (es : List Event) → length (without sequence es) ≤ length es
unfolding without
length-without_le sequence [] = omega arith
length-without_le sequence (e ∷ es) = ground (arith, length-without_le sequence es)

pub bytes_of-without :
    (sequence : ℕ) (es : List Event) → bytes_of (without sequence es) ≤ bytes_of es
unfolding without bytes_of sum
bytes_of-without sequence [] = omega arith
bytes_of-without sequence (e ∷ es) = ground (arith, bytes_of-without sequence es)

-- What each removal keeps, the whole eviction keeps.
module _ {κ} (P : Stream → Type κ)
    (keeps : (e : Event) (r : Reason) (t : Stream) → P t → P (removed e r t)) where
  abbrev pub Every : Streams → Type κ
  Every streams = All (λ entry. P entry.1) streams

  pub remove-Every :
      (id : ℕ) (e : Event) (r : Reason) (streams : Streams)
      → Every streams
      → Every (remove id e r streams)
  unfolding remove
  remove-Every id e r [] h = tt
  remove-Every id e r ((k, t) ∷ rest) h = (
    elim (Bool-cases (eqb k id)) [
      | inl this ↦ rw this (keeps e r t h.0)
      | inr other ↦ rw other h.0
    ],
    remove-Every id e r rest h.1,
  )

  pub remove_each-Every :
      (cs : List (ℕ × Event)) (streams : Streams) → Every streams → Every (remove_each cs streams).0
  unfolding remove_each
  remove_each-Every [] streams h = h
  remove_each-Every ((id, e) ∷ more) streams h =
      remove_each-Every more (remove id e age streams) (remove-Every id e age streams h)

  trim_keeps : (fuel id : ℕ) (t : Stream) → P t → P (trim fuel id t).0
  unfolding trim
  trim_keeps zero id t h = h
  trim_keeps (suc fuel) id t h = elim (Option-cases (over_stream_cap t.events)) [
    | inl fits ↦ rw (trim, fits) h
    | inr (e, over) ↦
        rw (trim, over) (trim_keeps fuel id (removed e stream_cap t) (keeps e stream_cap t h))
  ]

  pub trim_each-Every : (streams : Streams) → Every streams → Every (trim_each streams).0
  unfolding trim_each
  trim_each-Every [] h = tt
  trim_each-Every ((id, t) ∷ rest) h =
      (trim_keeps (length t.events) id t h.0, trim_each-Every rest h.1)

  pub trim_all-Every :
      (fuel : ℕ) (streams : Streams) → Every streams → Every (trim_all fuel streams).0
  unfolding trim_all
  trim_all-Every zero streams h = h
  trim_all-Every (suc fuel) streams h = elim (Option-cases (over_global_cap streams)) [
    | inl fits ↦ rw (trim_all, fits) h
    | inr ((id, e), over) ↦
        rw (trim_all, over)
          (trim_all-Every fuel (remove id e global_cap streams)
            (remove-Every id e global_cap streams h))
  ]

  evict_by_age-Every :
      (hour : ℕ) (streams : Streams) → Every streams → Every (evict_by_age hour streams).0
  unfolding evict_by_age
  evict_by_age-Every hour streams h =
      remove_each-Every (sort_by is_older (candidates (is_expired hour) streams)) streams h

  pub evict_at-Every :
      (hour : ℕ) (streams : Streams) → Every streams → Every (evict_at hour streams).0
  unfolding evict_at
  evict_at-Every hour streams h =
      let trimmed = trim_each (evict_by_age hour streams).0 in
      trim_all-Every (count_events trimmed.0) trimmed.0
        (trim_each-Every (evict_by_age hour streams).0 (evict_by_age-Every hour streams h))
