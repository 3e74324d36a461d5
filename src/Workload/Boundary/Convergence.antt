-- ===== src/Workload/Boundary/Convergence.antt =====
-- Where a long run of ticks of one kind leads (scripts/workload-contract.mjs): ticks in time back to
-- the healthy defaults, overruns to the deepest degradation.
use aigent_place.Base.{
  ℕ, zero, suc, ◌+◌, ◌*◌, ◌-◌, ◌/◌, ◌%◌, ◌≤◌, List, [], ◌∷◌, ◌++◌, ◌≡◌, ◌⊎◌, refl, arith, sym, ap,
  ◌∙◌, eqb, ltb, if◌then◌else◌,
}
use mathlib.Core.Path.{subst}
use aigent_place.Base.Lists.{length, sum}
use aigent_place.Workload.State.{State}
use aigent_place.Workload.Boundary.{next_level, observe_tick, observe_flags}
use aigent_place.Workload.Boundary.Levels.{observe_tick_lem, observe_flags_near}
use aigent_place.Workload.Boundary.Recovery.{
  flags_of, EndsIn, append-EndsIn, drop_all, quiet_healthy, overload_triggers,
}
use aigent_place.Workload.Policy.Ladder.{policy_at-deepest, deepest}
use aigent_place.Workload.Policy.{policy_at}

module _ (flag : ℕ) where
  tick-EndsIn :
      (s : State) (n : ℕ)
      → EndsIn flag n s.overrun_history
      → EndsIn flag (n + 1) (observe_tick s flag).0.overrun_history
  tick-EndsIn s n h =
      subst (EndsIn flag (n + 1)) (sym (observe_tick_lem s flag).1)
        (append-EndsIn flag n s.overrun_history h)

  -- The state after `k` ticks with the flag.
  abbrev pub after : State → ℕ → State
  after s k = (observe_flags s (flags_of flag k)).0

  pub after-EndsIn :
      (s : State) (n k : ℕ)
      → EndsIn flag n s.overrun_history
      → EndsIn flag (n + k) (after s k).overrun_history
  unfolding observe_flags
  after-EndsIn s n zero h = subst (λ m. EndsIn flag m s.overrun_history) (omega arith) h
  after-EndsIn s n (suc k) h =
      subst (λ m. EndsIn flag m (after (observe_tick s flag).0 k).overrun_history) (omega arith)
        (after-EndsIn (observe_tick s flag).0 (n + 1) k (tick-EndsIn s n h))

  after-add : (s : State) (j k : ℕ) → after s (j + k) ≡ after (after s j) k
  unfolding observe_flags
  after-add s zero k = ap (after s) {x = 0 + k} {y = k} (omega arith)
  after-add s (suc j) k =
      ap (after s) {x = suc j + k} {y = suc (j + k)} (omega arith)
      ∙ after-add (observe_tick s flag).0 j k

  pub none_EndsIn : (history : List ℕ) → EndsIn flag 0 history
  unfolding sum
  none_EndsIn history = record {
    long = omega arith;
    same = λ m le.
        let all = drop_all history in
        let k : length history - m ≡ length history = omega arith in rw k (grind (arith, all));
  }

descend_once :
    (s : State) (n : ℕ)
    → EndsIn 0 n s.overrun_history
    → 1200 ≤ n
    → ((observe_tick s 0).0.tick ≡ s.tick + 1)
      × ((observe_tick s 0).0.level ≡ (if eqb ((s.tick + 1) % 600) 0 then s.level - 1 else s.level))
unfolding next_level
descend_once s n h long = ground (
  arith,
  observe_tick_lem s 0,
  quiet_healthy (n + 1) (s.overrun_history ++ 0 ∷ []) (append-EndsIn 0 n s.overrun_history h)
      (omega arith),
)

descend :
    (s : State) (n k : ℕ)
    → EndsIn 0 n s.overrun_history
    → 1200 ≤ n
    → ((after 0 s k).level ≡ 0)
      ⊎ (600 * (after 0 s k).level + s.tick % 600 + k ≤ 600 * s.level + 599)
unfolding observe_flags
descend s n zero h long = ground arith
descend s n (suc k) h long =
    let once = descend_once s n h long in
    let rest = descend (observe_tick s 0).0 (n + 1) k (tick-EndsIn 0 s n h) (omega arith) in
    ground (arith, once, rest)

climb_once :
    (s : State) (n : ℕ)
    → EndsIn 1 n s.overrun_history
    → 600 ≤ n
    → ((observe_tick s 1).0.tick ≡ s.tick + 1)
      × ((observe_tick s 1).0.level ≡ (
          if eqb ((s.tick + 1) % 600) 0
          then (if ltb s.level 8 then s.level + 1 else s.level)
          else s.level))
unfolding next_level
climb_once s n h long = ground (
  arith,
  observe_tick_lem s 1,
  overload_triggers (n + 1) (s.overrun_history ++ 1 ∷ []) (append-EndsIn 1 n s.overrun_history h)
      (omega arith),
)

climb :
    (s : State) (n k : ℕ)
    → EndsIn 1 n s.overrun_history
    → 600 ≤ n
    → (8 ≤ (after 1 s k).level)
      ⊎ (600 * s.level + s.tick % 600 + k ≤ 600 * (after 1 s k).level + 599)
unfolding observe_flags
climb s n zero h long = ground arith
climb s n (suc k) h long =
    let once = climb_once s n h long in
    let rest = climb (observe_tick s 1).0 (n + 1) k (tick-EndsIn 1 s n h) (omega arith) in
    ground (arith, once, rest)

pub length-flags_of : (flag n : ℕ) → length (flags_of flag n) ≡ n
length-flags_of flag zero = refl
length-flags_of flag (suc n) = ap (λ k. suc k) (length-flags_of flag n)

module _ (flag : ℕ) (s : State) (j n : ℕ) (le : j ≤ n) where
  -- A run of ticks in two parts.
  in_two : (after flag (after flag s j) (n - j)).level ≡ (after flag s n).level
  in_two =
      let whole : after flag s (j + (n - j)) ≡ after flag s n =
        ap (after flag s) {x = j + (n - j)} {y = n} (omega arith) in
      ap (λ (q : State). q.level) (sym (after-add flag s j (n - j)) ∙ whole)

  -- The level rises by no more than the boundaries of the first part.
  first_part : (after flag s j).level ≤ s.level + (s.tick % 600 + j) / 600
  first_part =
      let near = (observe_flags_near s (flags_of flag j)).0 in rw (length-flags_of flag j) at near

-- From any level, ticks in time, 600 for each level and 3000 more, lead back to the healthy
-- defaults, and however many more come the level stays there.
pub observe_flags_recovers :
    (s : State) (n : ℕ) → 600 * (s.level + 5) ≤ n → (observe_flags s (flags_of 0 n)).0.level ≡ 0
observe_flags_recovers s n enough =
    let low =
      descend (after 0 s 1200) (0 + 1200) (n - 1200)
        (after-EndsIn 0 s 0 1200 (none_EndsIn 0 s.overrun_history)) (omega arith) in
    let start = first_part 0 s 1200 n (omega arith) in
    let whole = in_two 0 s 1200 n (omega arith) in ground (arith, low, start, whole)

-- From any state, 5400 overruns or more lead to the deepest degradation, in which viewers are
-- refused and the aigents' percepts are floored at their lowest rate.
pub observe_flags_degrades :
    (s : State) (n : ℕ) → 5400 ≤ n → policy_at (observe_flags s (flags_of 1 n)).0.level ≡ deepest
observe_flags_degrades s n enough =
    let high =
      climb (after 1 s 600) (0 + 600) (n - 600)
        (after-EndsIn 1 s 0 600 (none_EndsIn 1 s.overrun_history)) (omega arith) in
    let whole = in_two 1 s 600 n (omega arith) in
    policy_at-deepest (observe_flags s (flags_of 1 n)).0.level (ground (arith, high, whole))
