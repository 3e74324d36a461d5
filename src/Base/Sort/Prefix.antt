-- ===== src/Base/Sort/Prefix.antt =====
-- The first elements of a list in order: `sort(…).slice(0, n)`.
use Prim.Native.Nat.{ℕ, zero, suc}
use mathlib.Core.Path.{◌≡◌}
use mathlib.Core.Bool.{Bool, false}
use mathlib.Core.List.{List, [], ◌∷◌}
use aigent_place.Base.Lists.{All, All-take, All-drop, All-both, take, drop}
use aigent_place.Base.Sort.Order.{Sorted}

module _ {ℓ} {A : Type ℓ} (before : A → A → Bool) where
  pub take-Sorted : (n : ℕ) (xs : List A) → Sorted before xs → Sorted before (take n xs)
  unfolding take
  take-Sorted n [] h = tt
  take-Sorted zero (x ∷ xs) h = tt
  take-Sorted (suc n) (x ∷ xs) h =
      (All-take (λ y. before y x ≡ false) n xs h.0, take-Sorted n xs h.1)

  none_before : (xs : List A) → All (λ f. All (λ n. before f n ≡ false) []) xs
  none_before [] = tt
  none_before (x ∷ xs) = (tt, none_before xs)

  pub take-nearest :
      (n : ℕ) (xs : List A)
      → Sorted before xs
      → All (λ f. All (λ x. before f x ≡ false) (take n xs)) (drop n xs)
  unfolding take drop
  take-nearest n [] h = tt
  take-nearest zero (x ∷ xs) h = none_before (x ∷ xs)
  take-nearest (suc n) (x ∷ xs) h =
      All-both (λ f. before f x ≡ false) (λ f. All (λ y. before f y ≡ false) (take n xs))
        (drop n xs) (All-drop (λ f. before f x ≡ false) n xs h.0) (take-nearest n xs h.1)
