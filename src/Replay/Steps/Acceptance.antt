-- ===== src/Replay/Steps/Acceptance.antt =====
-- scripts/replay-contract.mjs: the streams that `validateStream` accepts are just those with a history
-- as the log keeps it.
use aigent_place.Base.{
  ℕ, ◌-◌, ◌≤◌, ◌<◌, true, false, not, none, some, List, [], ◌∷◌, ◌++◌, map, ◌≡◌, ◌∙◌, ◌↔◌, refl,
  sym, ap, inl, inr, ◌&&◌, ◌||◌, eqb, ltb, Bool-cases, Option-cases, arith,
}
use mathlib.Core.Path.{subst}
use aigent_place.Base.Lists.{All, All-append, length, filter}
use aigent_place.Base.Sort.Order.{Sorted, sort_by-Sorted}
use aigent_place.Replay.Stream.{Event, Evicted, Stream, greatest_sent}
use aigent_place.Replay.Steps.Checkpoint.{history_lem, visible_range, seen_visible, no_history}
use aigent_place.Replay.Validation.{
  is_seen, is_cursor, check_events, check_evicted, cursors_valid, visible_after, check_visible,
  check_history, seen_in, validate_stream,
}
use aigent_place.Replay.Steps.Counting.{
  Unique, sort_by-Unique, filter-Unique, seen-cons, seen-none, range_follows, ltb-IsWeakOrder,
}

-- The loops accept valid sequences that are new, and have then seen them all.

append-Unique :
    (seen : List ℕ) (n : ℕ) → Unique seen → is_seen n seen ≡ false → Unique (seen ++ n ∷ [])
append-Unique [] n u h = (tt, tt)
append-Unique (m ∷ ms) n u h =
    let split : (eqb m n || is_seen n ms) ≡ false = sym (seen-cons n m ms) ∙ h in
    (
      All-append (λ k. eqb k m ≡ false) ms (n ∷ []) u.0 (ground (arith, split), tt),
      append-Unique ms n u.1 (ground (arith, split)),
    )

new_after : (seen : List ℕ) (n : ℕ) (ns : List ℕ) → Unique (seen ++ n ∷ ns) → is_seen n seen ≡ false
new_after [] n ns u = seen-none n
new_after (m ∷ ms) n ns u =
    seen-cons n m ms ∙ ground (arith, new_after ms n ns u.1, among m ms n ns u.0)
  where
    among :
        (m : ℕ) (ms : List ℕ) (n : ℕ) (ns : List ℕ)
        → All (λ k. eqb k m ≡ false) (ms ++ n ∷ ns)
        → eqb m n ≡ false
    among m [] n ns a = ground (arith, a.0)
    among m (k ∷ ks) n ns a = among m ks n ns a.1

assoc : (seen : List ℕ) (n : ℕ) (ns : List ℕ) → ((seen ++ n ∷ []) ++ ns) ≡ (seen ++ n ∷ ns)
assoc [] n ns = refl
assoc (m ∷ ms) n ns = ap (λ ks. m ∷ ks) (assoc ms n ns)

nothing_more : (seen : List ℕ) → (seen ++ []) ≡ seen
nothing_more [] = refl
nothing_more (m ∷ ms) = ap (λ ks. m ∷ ks) (nothing_more ms)

abbrev pub ValidEvent : ℕ → Event → Type 0
ValidEvent epoch e = (is_cursor true e.sequence ≡ true) × (e.stream_epoch ≡ epoch)

abbrev pub ValidEvicted : Evicted → Type 0
ValidEvicted e = is_cursor true e.sequence ≡ true

abbrev event_sequences : List Event → List ℕ
event_sequences es = map (λ e. e.sequence) es

abbrev evicted_sequences : List Evicted → List ℕ
evicted_sequences es = map (λ e. e.sequence) es

check_events-some :
    (epoch : ℕ) (seen : List ℕ) (es : List Event) {out : List ℕ}
    → Unique seen
    → check_events epoch seen es ≡ some out
    → All (ValidEvent epoch) es × Unique out × (out ≡ (seen ++ event_sequences es))
unfolding check_events
check_events-some epoch seen [] {out} u h =
    (tt, subst Unique (some_inj h) u, sym (some_inj h) ∙ sym (nothing_more seen))
  where
    some_inj : {a b : List ℕ} → some a ≡ some b → a ≡ b
    some_inj p = ground (arith, p)
check_events-some epoch seen (e ∷ es) {out} u h =
    elim (Bool-cases
      (is_cursor true e.sequence && eqb e.stream_epoch epoch && not (is_seen e.sequence seen))) [
        | inr bad ↦ absurd (ground (arith, rw bad at h))
        | inl good ↦
            let new = append-Unique seen e.sequence u (ground (arith, good)) in
            let (valid, unique, same) =
              check_events-some epoch (seen ++ e.sequence ∷ []) es new (rw good at h) in
            (
              ((ground (arith, good), ground (arith, good)), valid),
              unique,
              same ∙ assoc seen e.sequence (event_sequences es),
            )
      ]

check_events-valid :
    (epoch : ℕ) (seen : List ℕ) (es : List Event)
    → All (ValidEvent epoch) es
    → Unique (seen ++ event_sequences es)
    → check_events epoch seen es ≡ some (seen ++ event_sequences es)
unfolding check_events
check_events-valid epoch seen [] v u = ap some (sym (nothing_more seen))
check_events-valid epoch seen (e ∷ es) v u =
    let ns = event_sequences es in
    let good : (is_cursor true e.sequence
          && eqb e.stream_epoch epoch
          && not (is_seen e.sequence seen))
        ≡ true =
      ground (arith, v.0.0, v.0.1, new_after seen e.sequence ns u) in
    rw good (
      check_events-valid epoch (seen ++ e.sequence ∷ []) es v.1
        (subst Unique (sym (assoc seen e.sequence ns)) u)
      ∙ ap some (assoc seen e.sequence ns))

check_evicted-some :
    (seen : List ℕ) (es : List Evicted) {out : List ℕ}
    → Unique seen
    → check_evicted seen es ≡ some out
    → All ValidEvicted es × Unique out × (out ≡ (seen ++ evicted_sequences es))
unfolding check_evicted
check_evicted-some seen [] {out} u h =
    (tt, subst Unique (some_inj h) u, sym (some_inj h) ∙ sym (nothing_more seen))
  where
    some_inj : {a b : List ℕ} → some a ≡ some b → a ≡ b
    some_inj p = ground (arith, p)
check_evicted-some seen (e ∷ es) {out} u h =
    elim (Bool-cases (is_cursor true e.sequence && not (is_seen e.sequence seen))) [
      | inr bad ↦ absurd (ground (arith, rw bad at h))
      | inl good ↦
          let new = append-Unique seen e.sequence u (ground (arith, good)) in
          let (valid, unique, same) =
            check_evicted-some (seen ++ e.sequence ∷ []) es new (rw good at h) in
          (
            (ground (arith, good), valid),
            unique,
            same ∙ assoc seen e.sequence (evicted_sequences es),
          )
    ]

check_evicted-valid :
    (seen : List ℕ) (es : List Evicted)
    → All ValidEvicted es
    → Unique (seen ++ evicted_sequences es)
    → check_evicted seen es ≡ some (seen ++ evicted_sequences es)
unfolding check_evicted
check_evicted-valid seen [] v u = ap some (sym (nothing_more seen))
check_evicted-valid seen (e ∷ es) v u =
    let ns = evicted_sequences es in
    let good : (is_cursor true e.sequence && not (is_seen e.sequence seen)) ≡ true =
      ground (arith, v.0, new_after seen e.sequence ns u) in
    rw good (
      check_evicted-valid (seen ++ e.sequence ∷ []) es v.1
        (subst Unique (sym (assoc seen e.sequence ns)) u)
      ∙ ap some (assoc seen e.sequence ns))

abbrev pub sequences : Stream → List ℕ
sequences t = event_sequences t.events ++ evicted_sequences t.evicted

-- A history as the log keeps it: valid cursors and events of the stream's epoch, no sequence twice, and
-- after the acknowledgement just the sequences that were sent.
pub record IsHistory (t : Stream) : Type 0 where
  pub cursors : cursors_valid t ≡ true
  pub events : All (ValidEvent t.epoch) t.events
  pub evicted : All ValidEvicted t.evicted
  pub unique : Unique (sequences t)
  pub ack : t.acknowledged ≤ greatest_sent t
  pub range :
      (k : ℕ)
      → ((ltb t.acknowledged k && is_seen k (sequences t)) ≡ true)
        ↔ ((t.acknowledged < k) × (k ≤ greatest_sent t))

accepted-IsHistory :
    (t : Stream) (during seen : List ℕ)
    → cursors_valid t ≡ true
    → check_events t.epoch [] t.events ≡ some during
    → check_evicted during t.evicted ≡ some seen
    → check_history t (some seen) ≡ none
    → IsHistory t
accepted-IsHistory t during seen cursors events evicted h =
    let (valid, unique, same) = check_events-some t.epoch [] t.events tt events in
    let (valid_evicted, all_unique, all_same) =
      check_evicted-some during t.evicted unique evicted in
    let whole : seen ≡ sequences t = all_same ∙ ap (λ ns. ns ++ evicted_sequences t.evicted) same in
    let (ack, visible) =
      history_lem t (sequences t) (subst (λ ns. check_history t (some ns) ≡ none) whole h) in
    record {
      cursors = cursors;
      events = valid;
      evicted = valid_evicted;
      unique = subst Unique whole all_unique;
      ack = ack;
      range = λ k. visible_range (greatest_sent t) t.acknowledged k (sequences t) ack visible;
    }

append-Unique_left : (ns ms : List ℕ) → Unique (ns ++ ms) → Unique ns
append-Unique_left [] ms u = tt
append-Unique_left (n ∷ ns) ms u = (left ns ms n u.0, append-Unique_left ns ms u.1)
  where
    left :
        (ns ms : List ℕ) (n : ℕ)
        → All (λ m. eqb m n ≡ false) (ns ++ ms)
        → All (λ m. eqb m n ≡ false) ns
    left [] ms n a = tt
    left (k ∷ ks) ms n a = (a.0, left ks ms n a.1)

visible-Unique :
    (acknowledged : ℕ) (seen : List ℕ) → Unique seen → Unique (visible_after acknowledged seen)
unfolding visible_after
visible-Unique acknowledged seen u =
    sort_by-Unique (filter (λ n. ltb acknowledged n) seen)
      (filter-Unique (λ n. ltb acknowledged n) seen u)

visible-Sorted : (acknowledged : ℕ) (seen : List ℕ) → Sorted ltb (visible_after acknowledged seen)
unfolding visible_after
visible-Sorted acknowledged seen =
    sort_by-Sorted ltb ltb-IsWeakOrder (filter (λ n. ltb acknowledged n) seen)

history_checked : (t : Stream) → IsHistory t → check_history t (some (sequences t)) ≡ none
unfolding check_history check_visible
history_checked t v =
    let visible = visible_after t.acknowledged (sequences t) in
    let within : ltb (greatest_sent t) t.acknowledged ≡ false = ground (arith, v.ack) in
    let (counts, size) =
      range_follows t.acknowledged (greatest_sent t) visible v.ack
        (visible-Sorted t.acknowledged (sequences t))
        (visible-Unique t.acknowledged (sequences t) v.unique)
        (λ k. (
          λ p. (v.range k).0 (sym (seen_visible t.acknowledged k (sequences t)) ∙ p),
          λ p. seen_visible t.acknowledged k (sequences t) ∙ (v.range k).1 p,
        )) in
    let sized : eqb (length visible) (greatest_sent t - t.acknowledged) ≡ true =
      ground (arith, size) in
    rw (within, counts, sized) refl

-- `validateStream` accepts a stream of a checkpoint exactly when it has a history as the log keeps it.
pub validate_stream_iff : (t : Stream) → (validate_stream t ≡ none) ↔ IsHistory t
unfolding validate_stream seen_in
validate_stream_iff t = (
  λ h. elim (Bool-cases (cursors_valid t)) [
    | inr bad ↦ absurd (ground (arith, rw bad at h))
    | inl good ↦
        let k : check_history t (seen_in t (check_events t.epoch [] t.events)) ≡ none =
          rw good at h in
        elim (Option-cases (check_events t.epoch [] t.events)) [
          | inl bad ↦ absurd (no_history t (rw bad at k))
          | inr (during, events) ↦ elim (Option-cases (check_evicted during t.evicted)) [
            | inl bad ↦ absurd (no_history t (rw (events, bad) at k))
            | inr (seen, evicted) ↦
                accepted-IsHistory t during seen good events evicted (rw (events, evicted) at k)
          ]
        ]
  ],
  λ v.
      let events =
        check_events-valid t.epoch [] t.events v.events
          (append-Unique_left (event_sequences t.events) (evicted_sequences t.evicted) v.unique) in
      let evicted = check_evicted-valid (event_sequences t.events) t.evicted v.evicted v.unique in
      rw (v.cursors, events, evicted) (history_checked t v),
)
