-- ===== src/Protocol/Handshake/Selection.antt =====
-- The choice of a protocol major in scripts/protocol-contract.mjs: the highest major that fits.
use aigent_place.Base.{
  Bool-cases, ◌≤◌, ◌≡◌, refl, inl, inr, Bool, true, false, none, some, List, [], ◌∷◌, arith, ltb,
}
use mathlib.Core.Path.{subst}
use mathlib.Core.List.{Mem, mem-cons_self, mem-cons_of_mem}
use aigent_place.Base.Lists.{All, All-imp, filter-All, All-filter, filter, head?}
use aigent_place.Base.Sort.{sort_by, sort_by-All}
use aigent_place.Base.Sort.Order.{IsWeakOrder, sort_by-head, sort_by-All_inv}
use aigent_place.Protocol.State.{CompatibilityRecord}
use aigent_place.Protocol.Compatibility.{highest_major}

abbrev higher : CompatibilityRecord → CompatibilityRecord → Bool
higher left right = ltb right.major left.major

higher-IsWeakOrder : IsWeakOrder higher
higher-IsWeakOrder = record { asym = λ a b h. ground arith; not_trans = λ a b c h k. ground arith }

-- Every element is a member.
All-Mem : (rs : List CompatibilityRecord) → All (λ r. Mem r rs) rs
All-Mem [] = tt
All-Mem (r ∷ rs) = (
  mem-cons_self,
  All-imp (λ q. Mem q rs) (λ q. Mem q (r ∷ rs)) (λ q m. mem-cons_of_mem r m) rs (All-Mem rs),
)

All-of_filter :
    (P : CompatibilityRecord → Type 0) (p : CompatibilityRecord → Bool)
    (rs : List CompatibilityRecord)
    → All P (filter p rs)
    → All (λ r. p r ≡ true → P r) rs
unfolding filter
All-of_filter P p [] h = tt
All-of_filter P p (r ∷ rs) h = elim (Bool-cases (p r)) [
  | inl kept ↦
      let k : P r × All P (filter p rs) = rw kept at h in (λ _. k.0, All-of_filter P p rs k.1)
  | inr dropped ↦
      let k : All P (filter p rs) = rw dropped at h in
      (λ e. absurd (ground (arith, e, dropped)), All-of_filter P p rs k)
]

module _ (p : CompatibilityRecord → Bool) (records : List CompatibilityRecord)
    {first : CompatibilityRecord} {rest : List CompatibilityRecord}
    (e : sort_by higher (filter p records) ≡ first ∷ rest) where
  first_fits : p first ≡ true
  first_fits =
      let fits : All (λ r. p r ≡ true) (first ∷ rest) =
        rw e at (sort_by-All higher (λ r. p r ≡ true) (filter p records) (filter-All p records)) in
      fits.0

  first_listed : Mem first records
  first_listed =
      let listed : All (λ r. Mem r records) (first ∷ rest) = rw e at (
        sort_by-All higher (λ r. Mem r records) (filter p records)
          (All-filter (λ r. Mem r records) p records (All-Mem records))) in
      listed.0

  first_highest : All (λ r. p r ≡ true → r.major ≤ first.major) records
  first_highest =
      All-imp (λ r. p r ≡ true → higher r first ≡ false) (λ r. p r ≡ true → r.major ≤ first.major)
        (λ r f fits. ground (arith, f fits)) records
        (All-of_filter (λ r. higher r first ≡ false) p records
          (sort_by-head higher higher-IsWeakOrder (filter p records) e))

-- The chosen record is one of the records, it passes the filter, and no record that passes it has a higher major.
pub highest_major_lem :
    (p : CompatibilityRecord → Bool) (records : List CompatibilityRecord)
    {chosen : CompatibilityRecord}
    → highest_major p records ≡ some chosen
    → Mem chosen records
      × (p chosen ≡ true)
      × All (λ r. p r ≡ true → r.major ≤ chosen.major) records
unfolding highest_major
highest_major_lem p records {chosen} h = go (sort_by higher (filter p records)) refl h
  where
    go :
        (sorted : List CompatibilityRecord)
        → sort_by higher (filter p records) ≡ sorted
        → head? sorted ≡ some chosen
        → Mem chosen records
          × (p chosen ≡ true)
          × All (λ r. p r ≡ true → r.major ≤ chosen.major) records
    go [] e h = absurd (ground arith)
    go (first ∷ rest) e h =
        let same : first ≡ chosen = ground arith in
        subst
          (λ c. Mem c records × (p c ≡ true) × All (λ r. p r ≡ true → r.major ≤ c.major) records)
          same (first_listed p records e, first_fits p records e, first_highest p records e)

-- No record is chosen only where none passes the filter.
pub highest_major-none :
    (p : CompatibilityRecord → Bool) (records : List CompatibilityRecord)
    → highest_major p records ≡ none
    → All (λ r. p r ≡ true → ⊥) records
unfolding highest_major
highest_major-none p records h = go (sort_by higher (filter p records)) refl h
  where
    go :
        (sorted : List CompatibilityRecord)
        → sort_by higher (filter p records) ≡ sorted
        → head? sorted ≡ none
        → All (λ r. p r ≡ true → ⊥) records
    go [] e h =
        All-of_filter (λ _. ⊥) p records
          (sort_by-All_inv higher (λ _. ⊥) (filter p records) (rw e tt))
    go (first ∷ rest) e h = absurd (ground arith)
