-- ===== src/Replay/Steps/Counting.antt =====
-- scripts/replay-contract.mjs: the last check of `validateStream`, that the visible sequences count
-- through a range.
use aigent_place.Base.{
  ℕ, ◌+◌, ◌-◌, ◌≤◌, ◌<◌, Bool, true, false, List, [], ◌∷◌, ◌≡◌, ◌∙◌, ◌↔◌, refl, sym, inl, inr, ◌||◌,
  eqb, ltb, Bool-cases, arith,
}
use mathlib.Core.Path.{subst}
use aigent_place.Base.Lists.{All, All-filter, All-imp, All-both, length, filter, any}
use aigent_place.Base.Sort.{sort_by, insert_by, insert_by-All, sort_by-All}
use aigent_place.Base.Sort.Order.{IsWeakOrder, Sorted}
use aigent_place.Replay.Validation.{follows, is_seen}

-- No number stands twice.
abbrev pub Unique : List ℕ → Type 0
Unique [] = Unit
Unique (n ∷ ns) = All (λ m. eqb m n ≡ false) ns × Unique ns

insert_by-Unique :
    (n : ℕ) (ns : List ℕ) → All (λ m. eqb m n ≡ false) ns → Unique ns → Unique (insert_by ltb n ns)
unfolding insert_by
insert_by-Unique n [] h u = (tt, tt)
insert_by-Unique n (m ∷ ms) h u = elim (Bool-cases (ltb m n)) [
  | inl after ↦ rw after (
    insert_by-All ltb (λ k. eqb k m ≡ false) n ms (ground (arith, h.0)) u.0,
    insert_by-Unique n ms h.1 u.1,
  )
  | inr here ↦ rw here (h, u)
]

pub sort_by-Unique : (ns : List ℕ) → Unique ns → Unique (sort_by ltb ns)
unfolding sort_by
sort_by-Unique [] u = tt
sort_by-Unique (n ∷ ns) u =
    insert_by-Unique n (sort_by ltb ns) (sort_by-All ltb (λ m. eqb m n ≡ false) ns u.0)
      (sort_by-Unique ns u.1)

pub filter-Unique : (p : ℕ → Bool) (ns : List ℕ) → Unique ns → Unique (filter p ns)
unfolding filter
filter-Unique p [] u = tt
filter-Unique p (n ∷ ns) u = elim (Bool-cases (p n)) [
  | inl kept ↦ rw kept (All-filter (λ m. eqb m n ≡ false) p ns u.0, filter-Unique p ns u.1)
  | inr dropped ↦ rw dropped (filter-Unique p ns u.1)
]

seen-All : (P : ℕ → Type 0) (k : ℕ) (ns : List ℕ) → is_seen k ns ≡ true → All P ns → P k
unfolding is_seen any
seen-All P k [] h a = absurd (ground (arith, h))
seen-All P k (n ∷ ns) h a = elim (Bool-cases (eqb n k)) [
  | inl this ↦ subst P (ground (arith, this)) a.0
  | inr other ↦ seen-All P k ns (ground (arith, h, other)) a.1
]

pub seen-cons : (k n : ℕ) (ns : List ℕ) → is_seen k (n ∷ ns) ≡ (eqb n k || is_seen k ns)
unfolding is_seen any
seen-cons k n ns = refl

pub seen-none : (k : ℕ) → is_seen k [] ≡ false
unfolding is_seen any
seen-none k = refl

-- The first number of the range comes first in a list in order.
first_in_range :
    (low high n : ℕ) (ns : List ℕ)
    → All (λ m. n < m) ns
    → ((k : ℕ) → (is_seen k (n ∷ ns) ≡ true) ↔ ((low < k) × (k ≤ high)))
    → (n ≡ low + 1) × (n ≤ high)
first_in_range low high n ns later h =
    let self : is_seen n (n ∷ ns) ≡ true = seen-cons n n ns ∙ ground arith in
    let (above, below) : (low < n) × (n ≤ high) = (h n).0 self in
    let present : is_seen (low + 1) (n ∷ ns) ≡ true =
      (h (low + 1)).1 (omega arith, omega (arith, above, below)) in
    elim (Bool-cases (eqb n (low + 1))) [
      | inl this ↦ (ground (arith, this), below)
      | inr other ↦
          let among : is_seen (low + 1) ns ≡ true =
            ground (arith, sym (seen-cons (low + 1) n ns) ∙ present, other) in
          absurd (omega (arith, seen-All (λ m. n < m) (low + 1) ns among later, above))
    ]

rest_of_range :
    (low high n : ℕ) (ns : List ℕ)
    → n ≡ low + 1
    → All (λ m. n < m) ns
    → ((k : ℕ) → (is_seen k (n ∷ ns) ≡ true) ↔ ((low < k) × (k ≤ high)))
    → (k : ℕ) → (is_seen k ns ≡ true) ↔ ((low + 1 < k) × (k ≤ high))
rest_of_range low high n ns next later h k = (
  λ p.
      let within = (h k).0 (seen-cons k n ns ∙ ground (arith, p)) in
      (omega (arith, seen-All (λ m. n < m) k ns p later, next), within.1),
  λ (above, below).
      let present = (h k).1 (omega (arith, above), below) in
      ground (arith, sym (seen-cons k n ns) ∙ present, above, next),
)

-- A list in order that has just the numbers of a range counts through it.
pub range_follows :
    (low high : ℕ) (ns : List ℕ)
    → low ≤ high
    → Sorted ltb ns
    → Unique ns
    → ((k : ℕ) → (is_seen k ns ≡ true) ↔ ((low < k) × (k ≤ high)))
    → (follows low ns ≡ true) × (length ns ≡ high - low)
unfolding follows
range_follows low high [] le s u h = elim (Bool-cases (ltb low high)) [
  | inl more ↦
      absurd (ground (arith, sym (seen-none high) ∙ (h high).1 (ground (arith, more), omega arith)))
  | inr done ↦ (refl, ground (arith, le, done))
]
range_follows low high (n ∷ ns) le s u h =
    let later : All (λ m. n < m) ns =
      All-imp (λ m. (ltb m n ≡ false) × (eqb m n ≡ false)) (λ m. n < m)
        (λ m both. ground (arith, both.0, both.1)) ns
        (All-both (λ m. ltb m n ≡ false) (λ m. eqb m n ≡ false) ns s.0 u.0) in
    let (next, below) = first_in_range low high n ns later h in
    let (counts, size) =
      range_follows (low + 1) high ns (omega (arith, next, below)) s.1 u.1
        (rest_of_range low high n ns next later h) in
    let same : follows (low + 1) ns ≡ true = counts in
    (ground (arith, same, next), omega (arith, size, next, below))

pub ltb-IsWeakOrder : IsWeakOrder ltb
ltb-IsWeakOrder = record {
  asym = λ a b h. ground (arith, h);
  not_trans = λ a b c h k. ground (arith, h, k);
}
