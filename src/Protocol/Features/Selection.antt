-- ===== src/Protocol/Features/Selection.antt =====
-- Feature negotiation of scripts/protocol-contract.mjs: the highest version that both sides have.
use aigent_place.Base.{
  ℕ, ◌≤◌, String, ◌≡◌, refl, ◌⊎◌, inl, inr, Bool, true, false, Option, none, some, List, [], ◌∷◌,
  arith, eqb, Bool-cases, Option-cases,
}
use mathlib.Core.Path.{subst}
use aigent_place.Base.Keys.{string_key}
use aigent_place.Base.Value.{Value}
use aigent_place.Base.Lists.{All, All-imp, any, find}
use aigent_place.Base.Sort.{sort_by, sort_by-All}
use aigent_place.Base.Sort.Order.{IsWeakOrder, Sorted, sort_by-Sorted}
use aigent_place.Base.Map.{lookup}
use aigent_place.Protocol.State.{FeatureTable}
use aigent_place.Protocol.Output.{SelectedFeature}
use aigent_place.Protocol.Features.{
  FeatureOffer, descending, sorted_unique_positive_integers, unique_positive_integers, select_each,
  common_version, push_selected, select_features, before_feature,
}

descending-IsWeakOrder : IsWeakOrder descending
descending-IsWeakOrder = record {
  asym = λ a b h. ground arith;
  not_trans = λ a b c h k. ground arith;
}

-- The first element that passes a test stands before every other that passes it.
find_first :
    (p : ℕ → Bool) (ns : List ℕ) {found : ℕ}
    → Sorted descending ns
    → find p ns ≡ some found
    → (p found ≡ true) × All (λ n. p n ≡ true → n ≤ found) ns
unfolding find
find_first p [] sorted e = absurd (ground arith)
find_first p (n ∷ ns) {found} sorted e = elim (Bool-cases (p n)) [
  | inl here ↦
      let same : n ≡ found = ground (arith, here) in
      (
        subst (λ k. p k ≡ true) same here,
        (
          (λ _. omega (arith, same)),
          All-imp (λ k. descending k n ≡ false) (λ k. p k ≡ true → k ≤ found)
              (λ k below _. ground (arith, below, same)) ns sorted.0,
        ),
      )
  | inr past ↦
      let later : find p ns ≡ some found = rw past at e in
      let (passes, first) = find_first p ns sorted.1 later in
      (passes, ((λ passed. absurd (ground (arith, past, passed))), first))
]

sorted_unique_positive_integers-Sorted :
    (versions : Option (List Value)) {offered : List ℕ}
    → sorted_unique_positive_integers versions ≡ some offered
    → Sorted descending offered
unfolding sorted_unique_positive_integers
sorted_unique_positive_integers-Sorted none e = absurd (ground arith)
sorted_unique_positive_integers-Sorted (some []) e = absurd (ground arith)
sorted_unique_positive_integers-Sorted (some (v ∷ vs)) {offered} e =
    elim (Option-cases (unique_positive_integers (v ∷ vs))) [
      | inl bad ↦ absurd (ground (arith, bad))
      | inr (ns, good) ↦
          let same : sort_by descending ns ≡ offered = ground (arith, good) in
          subst (Sorted descending) same (sort_by-Sorted descending descending-IsWeakOrder ns)
    ]

abbrev pub Any {ℓ} : {A : Type ℓ} → (A → Type 0) → List A → Type 0
Any P [] = ⊥
Any P (x ∷ xs) = P x ⊎ Any P xs

-- The selected version answers the offer: both sides have it, and no offered version that the server
-- has is higher.
pub record Answers (server : FeatureTable) (f : SelectedFeature) (offer : FeatureOffer)
    : Type 0 where
  pub offered : List ℕ
  pub supported : List ℕ
  pub same_feature : offer.feature_id ≡ f.feature_id
  pub offers : sorted_unique_positive_integers offer.supported_versions ≡ some offered
  pub supports : lookup f.feature_id server ≡ some supported
  pub is_offered : any (eqb f.version) offered ≡ true
  pub is_supported : any (eqb f.version) supported ≡ true
  pub highest : All (λ n. any (eqb n) supported ≡ true → n ≤ f.version) offered

found_is_there :
    (p : ℕ → Bool) (ns : List ℕ) {found : ℕ} → find p ns ≡ some found → any (eqb found) ns ≡ true
unfolding find any
found_is_there p [] e = absurd (ground arith)
found_is_there p (n ∷ ns) {found} e = elim (Bool-cases (p n)) [
  | inl here ↦ ground (arith, here)
  | inr past ↦
      let later : find p ns ≡ some found = rw past at e in ground (arith, found_is_there p ns later)
]

push_selected-All :
    (P : SelectedFeature → Type 0) (feature_id : String) (version : Option ℕ)
    (rest : List SelectedFeature)
    → ((n : ℕ) → version ≡ some n → P (record { feature_id = feature_id; version = n }))
    → All P rest
    → All P (push_selected feature_id version rest)
unfolding push_selected
push_selected-All P feature_id none rest picks h = h
push_selected-All P feature_id (some n) rest picks h = (picks n refl, h)

answers :
    (server : FeatureTable) (offer : FeatureOffer) (offered : List ℕ)
    → sorted_unique_positive_integers offer.supported_versions ≡ some offered
    → (n : ℕ) → common_version (lookup offer.feature_id server) offered ≡ some n
    → Answers server (record { feature_id = offer.feature_id; version = n }) offer
unfolding common_version
answers server offer offered good n e = elim (Option-cases (lookup offer.feature_id server)) [
  | inl missing ↦ absurd (ground (arith, missing))
  | inr (supported, found) ↦
      let common : find (λ version. any (eqb version) supported) offered ≡ some n =
        rw (found, common_version) at e in
      let (has, first) =
        find_first (λ version. any (eqb version) supported) offered
          (sorted_unique_positive_integers-Sorted offer.supported_versions good) common in
      record {
        offered = offered;
        supported = supported;
        same_feature = refl;
        offers = good;
        supports = found;
        is_offered = found_is_there (λ version. any (eqb version) supported) offered common;
        is_supported = has;
        highest = first;
      }
]

All-widen :
    (server : FeatureTable) (offer : FeatureOffer) (offers : List FeatureOffer)
    (fs : List SelectedFeature)
    → All (λ f. Any (Answers server f) offers) fs
    → All (λ f. Any (Answers server f) (offer ∷ offers)) fs
All-widen server offer offers =
    All-imp (λ f. Any (Answers server f) offers) (λ f. Any (Answers server f) (offer ∷ offers))
      (λ f h. inr h)

select_each_step :
    (server : FeatureTable) (seen : List String) (offer : FeatureOffer) (offers : List FeatureOffer)
    {selected : List SelectedFeature}
    → select_each server seen (offer ∷ offers) ≡ some selected
    → (offered : List ℕ) × (rest : List SelectedFeature) × (sorted_unique_positive_integers
          offer.supported_versions
        ≡ some offered)
      × (select_each server (offer.feature_id ∷ seen) offers ≡ some rest)
      × (push_selected offer.feature_id
            (common_version (lookup offer.feature_id server) offered)
            rest
          ≡ selected)
unfolding select_each
select_each_step server seen offer offers e = ground arith

select_each-Answers :
    (server : FeatureTable) (seen : List String) (offers : List FeatureOffer)
    {selected : List SelectedFeature}
    → select_each server seen offers ≡ some selected
    → All (λ f. Any (Answers server f) offers) selected
select_each-Answers server seen [] {selected} e =
    let nothing : [] ≡ selected = unfold select_each in (ground (arith, e)) in
    subst (All (λ f. Any (Answers server f) [])) nothing tt
select_each-Answers server seen (offer ∷ offers) {selected} e =
    let (offered, rest, good, later, same) = select_each_step server seen offer offers e in
    subst (All (λ f. Any (Answers server f) (offer ∷ offers))) same (
      push_selected-All (λ f. Any (Answers server f) (offer ∷ offers)) offer.feature_id
        (common_version (lookup offer.feature_id server) offered) rest
        (λ n common. inl (answers server offer offered good n common))
        (All-widen server offer offers rest
          (select_each-Answers server (offer.feature_id ∷ seen) offers later)))

-- Every feature that is selected answers one of the client's offers, with the highest version that
-- the client offers and the server has.
pub select_features-Answers :
    (server : FeatureTable) (offers : List FeatureOffer) {selected : List SelectedFeature}
    → select_features server offers ≡ some selected
    → All (λ f. Any (Answers server f) offers) selected
unfolding select_features
select_features-Answers server offers {selected} e =
    elim (Option-cases (select_each server [] offers)) [
      | inl bad ↦ absurd (ground (arith, bad))
      | inr (found, good) ↦
          let same : sort_by before_feature found ≡ selected = ground (arith, good) in
          subst (All (λ f. Any (Answers server f) offers)) same (
            sort_by-All before_feature (λ f. Any (Answers server f) offers) found
              (select_each-Answers server [] offers good))
    ]
