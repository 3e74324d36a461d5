-- ===== src/Replay/Steps/Missing.antt =====
-- scripts/replay-contract.mjs: the evicted sequences after a cursor, their least and their greatest.
use aigent_place.Base.{
  ℕ, ◌≤◌, ◌<◌, min, max, true, false, List, [], ◌∷◌, map, ◌≡◌, refl, sym, inl, inr, ◌||◌, eqb, ltb,
  leb, Bool-cases, arith,
}
use mathlib.Core.Path.{subst}
use aigent_place.Base.Lists.{All, filter, any}
use aigent_place.Replay.Stream.{Evicted, Stream}
use aigent_place.Replay.Cursor.{least, greatest, missing_after}
use aigent_place.Replay.Steps.Contiguous.{was_evicted}

pub nothing_missing :
    (after k : ℕ) (ev : List Evicted)
    → map (λ e. e.sequence) (filter (λ e. ltb after e.sequence) ev) ≡ []
    → after < k
    → was_evicted k ev ≡ false
unfolding filter was_evicted any
nothing_missing after k [] h p = refl
nothing_missing after k (e ∷ ev) h p = elim (Bool-cases (ltb after e.sequence)) [
  | inl later ↦ absurd (ground (arith, rw later at h))
  | inr before ↦
      let rest = nothing_missing after k ev (rw before at h) p in ground (arith, before, p, rest)
]

pub least_le : (n : ℕ) (ms : List ℕ) → (least n ms ≤ n) × All (λ m. least n ms ≤ m) ms
unfolding least
least_le n [] = (omega arith, tt)
least_le n (m ∷ ms) =
    let rest = least_le (min m n) ms in (omega (arith, rest.0), (omega (arith, rest.0), rest.1))

pub greatest_ge : (n : ℕ) (ms : List ℕ) → (n ≤ greatest n ms) × All (λ m. m ≤ greatest n ms) ms
unfolding greatest
greatest_ge n [] = (omega arith, tt)
greatest_ge n (m ∷ ms) =
    let rest = greatest_ge (max m n) ms in (omega (arith, rest.0), (omega (arith, rest.0), rest.1))

pub least-above :
    (bound n : ℕ) (ms : List ℕ) → bound < n → All (λ m. bound < m) ms → bound < least n ms
unfolding least
least-above bound n [] h a = h
least-above bound n (m ∷ ms) h a = least-above bound (min m n) ms (omega (arith, h, a.0)) a.1

missing_later :
    (after : ℕ) (ev : List Evicted)
    → All (λ m. after < m) (map (λ e. e.sequence) (filter (λ e. ltb after e.sequence) ev))
unfolding filter
missing_later after [] = tt
missing_later after (e ∷ ev) = elim (Bool-cases (ltb after e.sequence)) [
  | inl later ↦ rw later (ground (arith, later), missing_later after ev)
  | inr before ↦ rw before (missing_later after ev)
]

missing-All {κ} :
    (P : ℕ → Type κ) (after : ℕ) (ev : List Evicted)
    → All P (map (λ e. e.sequence) (filter (λ e. ltb after e.sequence) ev))
    → All (λ e. after < e.sequence → P e.sequence) ev
unfolding filter
missing-All P after [] h = tt
missing-All P after (e ∷ ev) h = elim (Bool-cases (ltb after e.sequence)) [
  | inl later ↦
      let split : P e.sequence
          × All P (map (λ e. e.sequence) (filter (λ e. ltb after e.sequence) ev)) =
        rw later at h in
      (λ k. split.0, missing-All P after ev split.1)
  | inr before ↦ (λ k. absurd (ground (arith, k, before)), missing-All P after ev (rw before at h))
]

pub later_missing : (after : ℕ) (t : Stream) → All (λ m. after < m) (missing_after after t)
unfolding missing_after
later_missing after t = missing_later after t.evicted

pub within_missing {κ} :
    (P : ℕ → Type κ) (after : ℕ) (t : Stream)
    → All P (missing_after after t)
    → All (λ e. after < e.sequence → P e.sequence) t.evicted
unfolding missing_after
within_missing P after t h = missing-All P after t.evicted h

-- The least is one of them.
least-among : (m : ℕ) (ms : List ℕ) → any (λ n. eqb n (least m ms)) (m ∷ ms) ≡ true
unfolding least any
least-among m [] = ground arith
least-among m (x ∷ ms) = elim (Bool-cases (leb x m)) [
  | inl lower ↦
      let same : min x m ≡ x = ground (arith, lower) in
      let rest = least-among (min x m) ms in ground (arith, rest, same)
  | inr higher ↦
      let same : min x m ≡ m = ground (arith, higher) in
      let rest = least-among (min x m) ms in ground (arith, rest, same)
]

among_missing :
    (after k : ℕ) (ev : List Evicted)
    → any (λ n. eqb n k) (map (λ e. e.sequence) (filter (λ e. ltb after e.sequence) ev)) ≡ true
    → was_evicted k ev ≡ true
unfolding filter was_evicted any
among_missing after k [] h = h
among_missing after k (e ∷ ev) h = elim (Bool-cases (ltb after e.sequence)) [
  | inl later ↦
      let split : (eqb e.sequence k
            || any (λ n. eqb n k) (map (λ f. f.sequence) (filter (λ f. ltb after f.sequence) ev)))
          ≡ true =
        rw later at h in
      ground (arith, split, among_missing after k ev)
  | inr before ↦ let rest = among_missing after k ev (rw before at h) in ground (arith, rest)
]

pub first_missing :
    (after m : ℕ) (more : List ℕ) (t : Stream)
    → missing_after after t ≡ m ∷ more
    → was_evicted (least m more) t.evicted ≡ true
unfolding missing_after
first_missing after m more t missing =
    among_missing after (least m more) t.evicted
      (subst (λ ns. any (λ n. eqb n (least m more)) ns ≡ true) (sym missing) (least-among m more))

-- Before the least, none was evicted after the cursor.
pub none_before :
    (after first last k : ℕ) (ev : List Evicted)
    → All (λ e. after < e.sequence → (first ≤ e.sequence) × (e.sequence ≤ last)) ev
    → after < k
    → k < first
    → was_evicted k ev ≡ false
unfolding was_evicted any
none_before after first last k [] a later earlier = refl
none_before after first last k (e ∷ ev) a later earlier = elim (Bool-cases (eqb e.sequence k)) [
  | inl same ↦
      let here : after < e.sequence = ground (arith, same, later) in
      absurd (ground (arith, same, earlier, a.0 here))
  | inr other ↦
      let rest = none_before after first last k ev a.1 later earlier in ground (arith, other, rest)
]
