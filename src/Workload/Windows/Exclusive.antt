-- ===== src/Workload/Windows/Exclusive.antt =====
-- The two windows of scripts/workload-contract.mjs: the same history cannot call for both directions.
use aigent_place.Base.{ℕ, zero, suc, ◌-◌, ◌≤◌, List, [], ◌∷◌, true, false, ◌≡◌, refl, arith}
use aigent_place.Base.Lists.{length, sum, drop}
use aigent_place.Workload.Windows.{classify_windows, window_rate}

drop_zero : (xs : List ℕ) → drop 0 xs ≡ xs
unfolding drop
drop_zero [] = refl
drop_zero (x ∷ xs) = refl

-- A later start leaves out entries.
pub sum-drop_le : (m n : ℕ) (xs : List ℕ) → m ≤ n → sum (drop n xs) ≤ sum (drop m xs)
unfolding sum drop
sum-drop_le m n [] h = ground arith
sum-drop_le zero zero (x ∷ xs) h = ground arith
sum-drop_le zero (suc n) (x ∷ xs) h =
    ground (arith, sum-drop_le zero n xs (omega arith), drop_zero xs)
sum-drop_le (suc m) zero (x ∷ xs) h = ground arith
sum-drop_le (suc m) (suc n) (x ∷ xs) h = ground (arith, sum-drop_le m n xs (omega arith))

-- No history is at once healthy and over the degradation rate.
pub classify_windows_exclusive :
    (history : List ℕ)
    → (classify_windows history).pass_healthy ≡ true
    → (classify_windows history).degrade_triggers ≡ false
unfolding classify_windows window_rate
classify_windows_exclusive history h =
    ground (arith, sum-drop_le (length history - 1200) (length history - 600) history (omega arith))
