-- ===== src/Replay/Steps/Contiguous.antt =====
-- scripts/replay-contract.mjs: the history of each stream is contiguous, as `validateStream` asks of a
-- checkpoint: what was sent and not acknowledged is retained or recorded as evicted.
use mathlib.Core.Path.{subst}
use aigent_place.Base.{
  ℕ, ◌-◌, ◌≤◌, ◌<◌, Bool, true, false, Option, none, some, List, [], ◌∷◌, ◌++◌, ◌≡◌, ◌∙◌, refl, ap,
  inl, inr, ◌||◌, eqb, ltb, Bool-cases, arith,
}
use aigent_place.Base.Keys.{nat_key}
use aigent_place.Base.Lists.{All, All-imp, All-append, All-filter, any, any-append, filter}
use aigent_place.Replay.U64.{max_u64, successor}
use aigent_place.Replay.Stream.{Event, Reason, Evicted, Stream, new_stream, sent_of, greatest_sent}
use aigent_place.Replay.Eviction.{removed}
use aigent_place.Replay.Eviction.Removal.{
  has_sequence, Distinct, has_sequence-without, without-All, without-Distinct,
}
use aigent_place.Replay.Cursor.{acknowledged_to}

unfoldable pub was_evicted : ℕ → List Evicted → Bool
was_evicted sequence evicted = any (λ e. eqb e.sequence sequence) evicted

abbrev pub NextValid : Option ℕ → Type 0
NextValid none = Unit
NextValid (some next) = (0 < next) × (next ≤ max_u64)

pub record IsContiguous (t : Stream) : Type 0 where
  pub distinct : Distinct t.events
  pub covered :
      (k : ℕ)
      → t.acknowledged < k
      → k ≤ greatest_sent t
      → (has_sequence k t.events || was_evicted k t.evicted) ≡ true
  pub sent : All (λ e. e.sequence ≤ greatest_sent t) t.events
  pub ack : t.acknowledged ≤ greatest_sent t
  pub next : NextValid t.next_sequence

covered_without :
    (e : Event) (r : Reason) (t : Stream) (k : ℕ)
    → (has_sequence k t.events || was_evicted k t.evicted) ≡ true
    → (has_sequence k (removed e r t).events || was_evicted k (removed e r t).evicted) ≡ true
unfolding removed was_evicted any
covered_without e r t k h =
    let last : Evicted = record { sequence = e.sequence; reason = r } in
    let grown = any-append (λ f. eqb f.sequence k) t.evicted (last ∷ []) in
    rw grown (ground (arith, h, has_sequence-without k e.sequence t.events))

pub removed-IsContiguous :
    (e : Event) (r : Reason) (t : Stream) → IsContiguous t → IsContiguous (removed e r t)
unfolding removed
removed-IsContiguous e r t h = record {
  distinct = without-Distinct e.sequence t.events h.distinct;
  covered = λ k after until. covered_without e r t k (h.covered k after until);
  sent = without-All (λ f. f.sequence ≤ greatest_sent t) e.sequence t.events h.sent;
  ack = h.ack;
  next = h.next;
}

pub new_stream-IsContiguous : (epoch : ℕ) → IsContiguous (new_stream epoch)
unfolding new_stream sent_of
new_stream-IsContiguous epoch = record {
  distinct = tt;
  covered = λ k after until. absurd (omega (arith, after, until));
  sent = tt;
  ack = omega arith;
  next = (omega arith, omega arith);
}

-- An acknowledgement.

filter-Distinct : (p : Event → Bool) (es : List Event) → Distinct es → Distinct (filter p es)
unfolding filter
filter-Distinct p [] h = tt
filter-Distinct p (e ∷ es) h = elim (Bool-cases (p e)) [
  | inl kept ↦
      rw kept
        (All-filter (λ f. eqb f.sequence e.sequence ≡ false) p es h.0, filter-Distinct p es h.1)
  | inr dropped ↦ rw dropped (filter-Distinct p es h.1)
]

pub has_sequence-filter :
    (after k : ℕ) (es : List Event)
    → after < k
    → has_sequence k (filter (λ e. ltb after e.sequence) es) ≡ has_sequence k es
unfolding filter has_sequence any
has_sequence-filter after k [] h = refl
has_sequence-filter after k (e ∷ es) h = ground (arith, h, has_sequence-filter after k es h)

pub acknowledged_to-IsContiguous :
    (t : Stream) (sequence : ℕ)
    → t.acknowledged < sequence
    → sequence ≤ greatest_sent t
    → IsContiguous t
    → IsContiguous (acknowledged_to t sequence)
unfolding acknowledged_to
acknowledged_to-IsContiguous t sequence low high h = record {
  distinct = filter-Distinct (λ e. ltb sequence e.sequence) t.events h.distinct;
  covered = λ k after until.
      rw (has_sequence-filter sequence k t.events after)
        (h.covered k (omega (arith, low, after)) until);
  sent =
      All-filter (λ e. e.sequence ≤ greatest_sent t) (λ e. ltb sequence e.sequence) t.events h.sent;
  ack = high;
  next = h.next;
}

-- An emission.

sent_of-successor : (n : ℕ) → sent_of (successor n) ≡ n
unfolding sent_of successor
sent_of-successor n = elim (Bool-cases (eqb n max_u64)) [
  | inl last ↦ rw last (ground (arith, last))
  | inr other ↦ rw other (omega arith)
]

pub successor-NextValid : (n : ℕ) → n ≤ max_u64 → NextValid (successor n)
unfolding successor
successor-NextValid n h = elim (Bool-cases (eqb n max_u64)) [
  | inl last ↦ rw last tt
  | inr other ↦ rw other (omega arith, ground (arith, other, h))
]

append-Distinct :
    (es : List Event) (e : Event)
    → Distinct es
    → All (λ f. f.sequence < e.sequence) es
    → Distinct (es ++ e ∷ [])
append-Distinct [] e d h = (tt, tt)
append-Distinct (f ∷ fs) e d h = (
  All-append (λ g. eqb g.sequence f.sequence ≡ false) fs (e ∷ []) d.0 (ground (arith, h.0), tt),
  append-Distinct fs e d.1 h.1,
)

abbrev pub appended : Stream → Event → Stream
appended t e = record t { next_sequence = successor e.sequence; events = t.events ++ e ∷ [] }

has_sequence-append :
    (k : ℕ) (es : List Event) (e : Event)
    → has_sequence k (es ++ e ∷ []) ≡ (has_sequence k es || eqb e.sequence k)
unfolding has_sequence any
has_sequence-append k es e = any-append (λ f. eqb f.sequence k) es (e ∷ []) ∙ ground arith

sent_some : (n : ℕ) → sent_of (some n) ≡ n - 1
unfolding sent_of
sent_some n = refl

covered_append :
    (t : Stream) (e : Event) (k : ℕ)
    → IsContiguous t
    → 0 < e.sequence
    → greatest_sent t ≡ e.sequence - 1
    → t.acknowledged < k
    → k ≤ e.sequence
    → (has_sequence k (t.events ++ e ∷ []) || was_evicted k t.evicted) ≡ true
covered_append t e k h positive last after until = elim (Bool-cases (eqb e.sequence k)) [
  | inl new ↦ rw (has_sequence-append k t.events e) (ground (arith, new))
  | inr old ↦
      rw (has_sequence-append k t.events e)
        (ground (arith, h.covered k after (ground (arith, until, old, last, positive))))
]

pub appended-IsContiguous :
    (t : Stream) (e : Event)
    → t.next_sequence ≡ some e.sequence
    → IsContiguous t
    → IsContiguous (appended t e)
appended-IsContiguous t e next h =
    let valid : (0 < e.sequence) × (e.sequence ≤ max_u64) = subst NextValid next h.next in
    let last : greatest_sent t ≡ e.sequence - 1 = ap sent_of next ∙ sent_some e.sequence in
    let now : greatest_sent (appended t e) ≡ e.sequence = sent_of-successor e.sequence in
    record {
      distinct = append-Distinct t.events e h.distinct (
          All-imp (λ f. f.sequence ≤ greatest_sent t) (λ f. f.sequence < e.sequence)
            (λ f le. omega (arith, le, last, valid.0)) t.events h.sent);
      covered = λ k after until. covered_append t e k h valid.0 last after (rw now at until);
      sent =
          All-append (λ f. f.sequence ≤ greatest_sent (appended t e)) t.events (e ∷ [])
            (All-imp (λ f. f.sequence ≤ greatest_sent t)
              (λ f. f.sequence ≤ greatest_sent (appended t e))
              (λ f le. omega (arith, le, last, now)) t.events h.sent)
            (omega (arith, now), tt);
      ack = omega (arith, h.ack, last, now);
      next = successor-NextValid e.sequence valid.1;
    }
