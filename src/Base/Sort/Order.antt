-- ===== src/Base/Sort/Order.antt =====
-- Sorting by a strict weak order: the result is in order, its head comes first of all.
use aigent_place.Base.Tests.{Bool-cases}
use aigent_place.Base.Lists.{All, All-imp}
use aigent_place.Base.Sort.{insert_by, sort_by, insert_by-All}
use mathlib.Core.Path.{◌≡◌}
use mathlib.Core.Bool.{Bool, true, false}
use mathlib.Core.Logic.{inl, inr}
use mathlib.Core.List.{List, [], ◌∷◌}

pub record IsWeakOrder {ℓ} {A : Type ℓ} (before : A → A → Bool) : Type ℓ where
  pub asym : (a b : A) → before a b ≡ true → before b a ≡ false
  pub not_trans : (a b c : A) → before b a ≡ false → before c b ≡ false → before c a ≡ false

module _ {ℓ} {A : Type ℓ} (before : A → A → Bool) where
  abbrev pub Sorted : List A → Type 0
  Sorted [] = Unit
  Sorted (x ∷ xs) = All (λ y. before y x ≡ false) xs × Sorted xs

  pub insert_by-All_inv {κ} :
      (P : A → Type κ) (x : A) (ys : List A) → All P (insert_by before x ys) → P x × All P ys
  unfolding insert_by
  insert_by-All_inv P x [] h = (h.0, tt)
  insert_by-All_inv P x (y ∷ ys) h = elim (Bool-cases (before y x)) [
    | inl after ↦
        let k : P y × All P (insert_by before x ys) = rw after at h in
        let (px, rest) = insert_by-All_inv P x ys k.1 in (px, (k.0, rest))
    | inr here ↦ let k : P x × (P y × All P ys) = rw here at h in k
  ]

  pub sort_by-All_inv {κ} : (P : A → Type κ) (xs : List A) → All P (sort_by before xs) → All P xs
  unfolding sort_by
  sort_by-All_inv P [] h = tt
  sort_by-All_inv P (x ∷ xs) h =
      let (px, rest) = insert_by-All_inv P x (sort_by before xs) h in
      (px, sort_by-All_inv P xs rest)

  module _ (o : IsWeakOrder before) where
    pub insert_by-Sorted : (x : A) (ys : List A) → Sorted ys → Sorted (insert_by before x ys)
    unfolding insert_by
    insert_by-Sorted x [] h = (tt, tt)
    insert_by-Sorted x (y ∷ ys) h = elim (Bool-cases (before y x)) [
      | inl after ↦ rw after (
        insert_by-All before (λ z. before z y ≡ false) x ys (o.asym y x after) h.0,
        insert_by-Sorted x ys h.1,
      )
      | inr here ↦ rw here (
        (
          here,
          All-imp (λ z. before z y ≡ false) (λ z. before z x ≡ false) (λ z. o.not_trans x y z here)
              ys h.0,
        ),
        h,
      )
    ]

    -- The result of sorting is in order.
    pub sort_by-Sorted : (xs : List A) → Sorted (sort_by before xs)
    unfolding sort_by
    sort_by-Sorted [] = tt
    sort_by-Sorted (x ∷ xs) = insert_by-Sorted x (sort_by before xs) (sort_by-Sorted xs)

    irrefl : (a : A) → before a a ≡ false
    irrefl a = elim (Bool-cases (before a a)) [ inl yes_ ↦ o.asym a a yes_ | inr no_ ↦ no_ ]

    -- Nothing comes before the head of the result.
    pub sort_by-head :
        (xs : List A) {first : A} {rest : List A}
        → sort_by before xs ≡ first ∷ rest
        → All (λ y. before y first ≡ false) xs
    sort_by-head xs {first} {rest} e =
        let s : Sorted (first ∷ rest) = rw e at (sort_by-Sorted xs) in
        sort_by-All_inv (λ y. before y first ≡ false) xs (rw e (irrefl first, s.0))
