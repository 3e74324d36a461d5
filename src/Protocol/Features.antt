-- ===== src/Protocol/Features.antt =====
-- scripts/protocol-contract.mjs: `sortedUniquePositiveIntegers`, `compareCodeUnits` and
-- `selectFeatures`. `none` stands for a thrown error, which the handshake catches.
pub mod Selection
use Prim.Native.Char.{code}
use aigent_place.Base.{
  ℕ, ◌+◌, ◌-◌, ◌/◌, ◌%◌, String, Bool, true, false, ◌||◌, not, Option, none, some, List, [], ◌∷◌,
  if◌then◌else◌, ltb, eqb, ◌==◌,
}
use aigent_place.Base.Value.{Value, positive_integer, value_key}
use aigent_place.Base.Keys.{string_key}
use aigent_place.Base.Lists.{any, find}
use aigent_place.Base.Map.{lookup}
use aigent_place.Base.Sort.{sort_by}
use aigent_place.Protocol.State.{FeatureTable}
use aigent_place.Protocol.Output.{SelectedFeature}

pub record FeatureOffer : Type 0 where
  pub feature_id : String
  pub supported_versions : Option (List Value)

infixl 5 ◌>>=◌
abbrev ◌>>=◌ : {A B : Type 0} → Option A → (A → Option B) → Option B
none >>= f = none
some a >>= f = f a

-- The numbers of an array of distinct positive integers.
unfoldable pub unique_positive_integers : List Value → Option (List ℕ)
unique_positive_integers [] = some []
unique_positive_integers (v ∷ vs) =
    if any (λ w. v == w) vs
    then none
    else do n ← positive_integer v; ns ← unique_positive_integers vs; some (n ∷ ns)

abbrev pub descending : ℕ → ℕ → Bool
descending left right = ltb right left

-- `none` is a value that is not an array.
unfoldable pub sorted_unique_positive_integers : Option (List Value) → Option (List ℕ)
unfolding unique_positive_integers
sorted_unique_positive_integers none = none
sorted_unique_positive_integers (some []) = none
sorted_unique_positive_integers (some (v ∷ vs)) = do
  ns ← unique_positive_integers (v ∷ vs)
  some (sort_by descending ns)

-- A code point in UTF-16.
code_units_of : ℕ → List ℕ → List ℕ
code_units_of c rest =
    if ltb c 65536
    then c ∷ rest
    else (55296 + (c - 65536) / 1024) ∷ (56320 + (c - 65536) % 1024) ∷ rest

unfoldable pub code_units : String → List ℕ
unfolding code_units_of
code_units String.[] = []
code_units (String.◌∷◌ c s) = code_units_of (code c) (code_units s)

lexicographic : List ℕ → List ℕ → Bool
lexicographic [] [] = false
lexicographic [] (y ∷ ys) = true
lexicographic (x ∷ xs) [] = false
lexicographic (x ∷ xs) (y ∷ ys) =
    let rest = lexicographic xs ys in if ltb x y then true else if eqb x y then rest else false

-- `compareCodeUnits(left, right) < 0`
unfoldable pub before_code_units : String → String → Bool
unfolding code_units lexicographic
before_code_units left right = lexicographic (code_units left) (code_units right)

-- `offered.find((version) => supported.has(version))`, where the server knows the feature.
unfoldable pub common_version : Option (List ℕ) → List ℕ → Option ℕ
common_version none offered = none
common_version (some supported) offered = find (λ version. any (eqb version) supported) offered

unfoldable pub push_selected : String → Option ℕ → List SelectedFeature → List SelectedFeature
push_selected feature_id none rest = rest
push_selected feature_id (some version) rest =
    record { feature_id = feature_id; version = version } ∷ rest

-- The loop of `selectFeatures`; `seen` is `offeredIds`.
unfoldable pub select_each :
    FeatureTable → List String → List FeatureOffer → Option (List SelectedFeature)
unfolding common_version push_selected sorted_unique_positive_integers
select_each server seen [] = some []
select_each server seen (offer ∷ offers) =
    if any (λ id. offer.feature_id == id) seen then none else do
      offered ← sorted_unique_positive_integers offer.supported_versions
      rest ← select_each server (offer.feature_id ∷ seen) offers
      some (
          push_selected offer.feature_id (common_version (lookup offer.feature_id server) offered)
            rest)

abbrev pub before_feature : SelectedFeature → SelectedFeature → Bool
before_feature left right = before_code_units left.feature_id right.feature_id

unfoldable pub select_features : FeatureTable → List FeatureOffer → Option (List SelectedFeature)
unfolding select_each before_code_units
select_features server offers = do
  selected ← select_each server [] offers
  some (sort_by before_feature selected)
