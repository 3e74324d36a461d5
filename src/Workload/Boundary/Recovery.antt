-- ===== src/Workload/Boundary/Recovery.antt =====
-- Recovery and overload (scripts/workload-contract.mjs): where a run of ticks of one kind leads.
use aigent_place.Base.{
  ℕ, zero, suc, ◌+◌, ◌*◌, ◌-◌, ◌≤◌, true, false, List, [], ◌∷◌, ◌++◌, ◌≡◌, refl, arith,
}
use aigent_place.Base.Lists.{length, length-append, sum, sum-append, drop}
use aigent_place.Workload.Windows.{classify_windows, window_rate}

-- `flag`, `n` times
abbrev pub flags_of : ℕ → ℕ → List ℕ
flags_of flag zero = []
flags_of flag (suc n) = flag ∷ flags_of flag n

-- The last `n` ticks of the history, and the last `m` for every smaller `m`, all have the flag.
pub record EndsIn (flag n : ℕ) (history : List ℕ) : Type 0 where
  pub long : n ≤ length history
  pub same : (m : ℕ) → m ≤ n → sum (drop (length history - m) history) ≡ flag * m

sum-drop-append :
    (m : ℕ) (xs : List ℕ) (x : ℕ)
    → m ≤ length xs
    → sum (drop m (xs ++ x ∷ [])) ≡ sum (drop m xs) + x
unfolding sum drop
sum-drop-append zero [] x h = ground arith
sum-drop-append (suc m) [] x h = absurd (ground arith)
sum-drop-append zero (y ∷ ys) x h = rw (sum-append ys (x ∷ [])) (omega arith)
sum-drop-append (suc m) (y ∷ ys) x h = sum-drop-append m ys x (omega arith)

pub drop_all : (xs : List ℕ) → sum (drop (length xs) xs) ≡ 0
unfolding sum drop
drop_all [] = refl
drop_all (x ∷ xs) = drop_all xs

append_same :
    (flag n : ℕ) (history : List ℕ)
    → EndsIn flag n history
    → (m : ℕ) → m ≤ n + 1
    → sum (drop (length history + 1 - m) (history ++ flag ∷ [])) ≡ flag * m
append_same flag n history h zero le =
    let all = drop_all (history ++ flag ∷ []) in
    let k : sum (drop (length history + 1) (history ++ flag ∷ [])) ≡ 0 =
      rw (length-append history (flag ∷ [])) at all in
    grind (arith, k)
append_same flag n history h (suc m) le =
    let same = h.same m (omega arith) in
    let more = sum-drop-append (length history - m) history flag (omega arith) in
    grind (arith, same, more)

pub append-EndsIn :
    (flag n : ℕ) (history : List ℕ)
    → EndsIn flag n history
    → EndsIn flag (n + 1) (history ++ flag ∷ [])
append-EndsIn flag n history h = record {
  long = rw (length-append history (flag ∷ [])) (ground (arith, h.long));
  same = λ m le. rw (length-append history (flag ∷ [])) (append_same flag n history h m le);
}

-- A history that ends in 1200 ticks in time is healthy.
pub quiet_healthy :
    (n : ℕ) (history : List ℕ)
    → EndsIn 0 n history
    → 1200 ≤ n
    → ((classify_windows history).pass_healthy ≡ true)
      × ((classify_windows history).degrade_triggers ≡ false)
unfolding classify_windows window_rate
quiet_healthy n history h long =
    ground (arith, h.long, h.same 1200 (omega arith), h.same 600 (omega arith))

-- A history that ends in 600 overruns is over the degradation rate.
pub overload_triggers :
    (n : ℕ) (history : List ℕ)
    → EndsIn 1 n history
    → 600 ≤ n
    → (classify_windows history).degrade_triggers ≡ true
unfolding classify_windows window_rate
overload_triggers n history h long = ground (arith, h.long, h.same 600 (omega arith))
