-- ===== src/Ruleset/Constitution/Accepted.antt =====
-- What `validateCandidate` of scripts/ruleset-contract.mjs lets through.
use aigent_place.Base.{
  ℕ, ◌≤◌, String, Bool, true, false, Option, none, some, List, [], ◌∷◌, ◌≡◌, ◌∙◌, refl, sym, ap,
  arith, inl, inr, Bool-cases, ◌==◌, ==_iff, string_key,
}
use mathlib.Core.Path.{subst}
use aigent_place.Base.Lists.{any}
use aigent_place.Base.Map.{Map, lookup, insert, has_own, lookup-insert}
use aigent_place.Ruleset.Setting.{Setting}
use aigent_place.Ruleset.Catalog.{Spec, catalog, spec, entry_of, entry_or, inherited_names}
use aigent_place.Ruleset.Constitution.{
  Parameters, keys, merge, Rejection, value_or, value_of, check_value, check_path, check_paths,
  check_complete, check_cross, check_cost, or_next, validate_candidate, validate_cross_fields,
  envelope_cost, constitution_cost_ceiling, type_ok, in_range,
}

-- What a test that has to pass found before the others were made.
or_next-none :
    (first next : Option Rejection) → or_next first next ≡ none → (first ≡ none) × (next ≡ none)
unfolding or_next
or_next-none none next h = (refl, h)
or_next-none (some r) next h = absurd (ground arith)

abbrev pub has_key : String → List String → Bool
has_key wanted paths = any (λ path. path == wanted) paths

-- A path that the changes do not touch keeps its value.
lookup-merge :
    (wanted : String) (base changes : Parameters)
    → has_key wanted (keys changes) ≡ false
    → lookup wanted (merge base changes) ≡ lookup wanted base
unfolding merge keys any
lookup-merge wanted base [] h = refl
lookup-merge wanted base ((path, value) ∷ changes) h =
    lookup-merge wanted (insert path value base) changes (ground (arith, h))
    ∙ lookup-insert path wanted value base
    ∙ ground (arith, h)

-- A path that was touched was checked.
checked_path :
    (parameters : Parameters) (paths : List String) (wanted : String)
    → check_paths parameters paths ≡ none
    → has_key wanted paths ≡ true
    → check_path parameters wanted ≡ none
unfolding check_paths any
checked_path parameters [] wanted h k = absurd (ground arith)
checked_path parameters (path ∷ paths) wanted h k =
    let (now, later) = or_next-none (check_path parameters path) (check_paths parameters paths) h in
    elim (Bool-cases (path == wanted)) [
      | inl same ↦ subst (λ p. check_path parameters p ≡ none) ((==_iff path wanted).0 same) now
      | inr differs ↦ checked_path parameters paths wanted later (ground (arith, k, differs))
    ]

-- A value of the type and in the range of its specification.
pub record IsWithin (s : Spec) (value : Setting) : Type 0 where
  pub typed : type_ok s value ≡ true
  pub ranged : in_range s value ≡ true

check_value-IsWithin :
    (path : String) (s : Spec) (value : Setting)
    → check_value path (spec s) value ≡ none
    → IsWithin s value
unfolding check_value
check_value-IsWithin path s value h = ground (arith, h)

check_path-IsWithin :
    (parameters : Parameters) (path : String) (s : Spec)
    → lookup path catalog ≡ some s
    → check_path parameters path ≡ none
    → IsWithin s (value_of parameters path)
unfolding check_path entry_of entry_or
check_path-IsWithin parameters path s e h =
    let found : entry_or (any (λ name. name == path) inherited_names) (lookup path catalog)
        ≡ spec s =
      rw e refl in
    check_value-IsWithin path s (value_of parameters path)
      (subst (λ entry. check_value path entry (value_of parameters path) ≡ none) found h)

-- Every parameter of the catalog has a value of its type and in its range, the constraints across
-- fields hold, and the cost is within the ceiling.
pub record IsConstitutional (parameters : Parameters) : Type 0 where
  pub within :
      (path : String) (s : Spec)
      → lookup path catalog ≡ some s
      → IsWithin s (value_of parameters path)
  pub cross : validate_cross_fields parameters ≡ []
  pub cost : envelope_cost parameters ≤ constitution_cost_ceiling

cross_none : (failures : List _) → check_cross failures ≡ none → failures ≡ []
unfolding check_cross
cross_none [] h = refl
cross_none (f ∷ fs) h = absurd (ground arith)

cost_none : (cost : ℕ) → check_cost cost ≡ none → cost ≤ constitution_cost_ceiling
unfolding check_cost
cost_none cost h = ground (arith, h)

-- The four checks of an accepted candidate.
record IsAccepted (parameters : Parameters) (touched : List String) : Type 0 where
  paths : check_paths parameters touched ≡ none
  complete : check_complete parameters (keys catalog) ≡ none
  cross : validate_cross_fields parameters ≡ []
  cost : envelope_cost parameters ≤ constitution_cost_ceiling

accepted :
    (parameters : Parameters) (touched : List String)
    → validate_candidate parameters touched ≡ none
    → IsAccepted parameters touched
unfolding validate_candidate
accepted parameters touched h =
    let costs = check_cost (envelope_cost parameters) in
    let crosses = or_next (check_cross (validate_cross_fields parameters)) costs in
    let completes = or_next (check_complete parameters (keys catalog)) crosses in
    let (paths, h1) = or_next-none (check_paths parameters touched) completes h in
    let (complete, h2) = or_next-none (check_complete parameters (keys catalog)) crosses h1 in
    let (cross, cost) = or_next-none (check_cross (validate_cross_fields parameters)) costs h2 in
    record {
      paths = paths;
      complete = complete;
      cross = cross_none (validate_cross_fields parameters) cross;
      cost = cost_none (envelope_cost parameters) cost;
    }

-- Changes that are accepted over a constitutional base give a constitutional candidate.
pub merge-IsConstitutional :
    (base changes : Parameters)
    → IsConstitutional base
    → validate_candidate (merge base changes) (keys changes) ≡ none
    → IsConstitutional (merge base changes)
unfolding value_of
merge-IsConstitutional base changes v h =
    let candidate = merge base changes in
    let k = accepted candidate (keys changes) h in
    record {
      within = λ path s e. elim (Bool-cases (has_key path (keys changes))) [
        | inl touched ↦
            check_path-IsWithin candidate path s e
              (checked_path candidate (keys changes) path k.paths touched)
        | inr untouched ↦
            subst (IsWithin s) (sym (ap value_or (lookup-merge path base changes untouched)))
              (v.within path s e)
      ];
      cross = k.cross;
      cost = k.cost;
    }

found_key {ℓ} :
    {V : Type ℓ} (path : String) (m : Map String V) {v : V}
    → lookup path m ≡ some v
    → has_key path (keys m) ≡ true
unfolding lookup keys any
found_key path [] {v} h = absurd (ground arith)
found_key path ((k, w) ∷ m) {v} h = elim (Bool-cases (k == path)) [
  | inl same ↦ ground (arith, same)
  | inr differs ↦ ground (arith, differs, found_key path m {v = v} (ground (arith, h, differs)))
]

owned :
    (parameters : Parameters) (paths : List String) (path : String)
    → check_complete parameters paths ≡ none
    → has_key path paths ≡ true
    → has_own path parameters ≡ true
unfolding check_complete any
owned parameters [] path h k = absurd (ground arith)
owned parameters (p ∷ paths) path h k = elim (Bool-cases (p == path)) [
  | inl same ↦ subst (λ q. has_own q parameters ≡ true) ((==_iff p path).0 same) (ground (arith, h))
  | inr differs ↦ owned parameters paths path (ground (arith, h)) (ground (arith, k, differs))
]

owned_key : (m : Parameters) (path : String) → has_own path m ≡ true → has_key path (keys m) ≡ true
unfolding has_own lookup keys any
owned_key [] path h = absurd (ground arith)
owned_key ((k, v) ∷ m) path h = elim (Bool-cases (k == path)) [
  | inl same ↦ ground (arith, same)
  | inr differs ↦ ground (arith, differs, owned_key m path (ground (arith, h, differs)))
]

-- Parameters that are accepted as a whole are constitutional.
pub validate_candidate-IsConstitutional :
    (parameters : Parameters)
    → validate_candidate parameters (keys parameters) ≡ none
    → IsConstitutional parameters
validate_candidate-IsConstitutional parameters h =
    let k = accepted parameters (keys parameters) h in
    record {
      within = λ path s e. check_path-IsWithin parameters path s e (
          checked_path parameters (keys parameters) path k.paths (
            owned_key parameters path
              (owned parameters (keys catalog) path k.complete (found_key path catalog e))));
      cross = k.cross;
      cost = k.cost;
    }
