-- ===== src/Base/Map.antt =====
-- A JavaScript object or `Map` used as a dictionary: an association list in insertion order.
use mathlib.Core.Path.{◌≡◌, refl, subst}
use mathlib.Core.Logic.{inl, inr}
use mathlib.Core.Bool.{Bool, true, false}
use mathlib.Core.Option.{Option, none, some}
use mathlib.Core.List.{List, [], ◌∷◌}
use native.Mathlib.Omega.{arith}
use aigent_place.Base.Tests.{if◌then◌else◌, Bool-cases}
use aigent_place.Base.Lists.{All}
use aigent_place.Base.Keys.{Key, ◌==◌, ==_iff}

abbrev pub Map {ℓ κ} : Type ℓ → Type κ → Type (ℓ ⊔ κ)
Map K V = List (K × V)

module _ {ℓ κ} {K : Type ℓ} {V : Type κ} ⦃e : Key K⦄ where
  unfoldable pub lookup : K → Map K V → Option V
  lookup wanted [] = none
  lookup wanted ((k, v) ∷ rest) = if k == wanted then some v else lookup wanted rest

  -- `m[k] = v`: an old entry keeps its place, a new one goes to the end.
  unfoldable pub insert : K → V → Map K V → Map K V
  insert k v [] = (k, v) ∷ []
  insert k v ((old, w) ∷ rest) =
      let inserted = insert k v rest in if old == k then (old, v) ∷ rest else (old, w) ∷ inserted

  -- `Object.hasOwn(m, k)`
  unfoldable pub has_own : K → Map K V → Bool
  has_own k m = elim (lookup k m) [ none ↦ false | some _ ↦ true ]

  pub lookup-insert :
      (k wanted : K) (v : V) (m : Map K V)
      → lookup wanted (insert k v m) ≡ (if k == wanted then some v else lookup wanted m)
  unfolding insert lookup
  lookup-insert k wanted v [] = refl
  lookup-insert k wanted v ((old, w) ∷ rest) =
      ground
        (lookup-insert k wanted v rest, ==_iff old k, ==_iff k wanted, ==_iff old wanted, arith)

module _ {ℓ κ μ} {K : Type ℓ} {V : Type κ} ⦃e : Key K⦄ (P : V → Type μ) where
  pub All-insert :
      (k : K) (v : V) (m : Map K V)
      → P v
      → All (λ entry. P entry.1) m
      → All (λ entry. P entry.1) (insert k v m)
  unfolding insert
  All-insert k v [] p h = (p, tt)
  All-insert k v ((old, w) ∷ rest) p h = elim (Bool-cases (old == k)) [
    | inl this ↦ rw this (p, h.1)
    | inr other ↦ rw other (h.0, All-insert k v rest p h.1)
  ]

  pub All-lookup :
      (k : K) (m : Map K V) {v : V} → lookup k m ≡ some v → All (λ entry. P entry.1) m → P v
  unfolding lookup
  All-lookup k [] found h = absurd (ground (arith, found))
  All-lookup k ((old, w) ∷ rest) {v} found h = elim (Bool-cases (old == k)) [
    | inl this ↦ subst P (some_injective (rw this at found)) h.0
    | inr other ↦ All-lookup k rest (rw other at found) h.1
  ]
    where
      some_injective : {a b : V} → some a ≡ some b → a ≡ b
      some_injective p = ground (arith, p)
