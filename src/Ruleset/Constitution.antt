-- ===== src/Ruleset/Constitution.antt =====
-- scripts/ruleset-contract.mjs: `envelopeCost`, `validateCrossFields` and `validateCandidate`. Costs
-- are doubles, as fixed-point numbers.
pub mod Complete
pub mod Accepted
use aigent_place.Base.{
  ℕ, ◌+◌, ◌*◌, String, Bool, true, false, not, ◌&&◌, ◌||◌, Option, none, some, List, [], ◌∷◌, ◌++◌,
  map, if◌then◌else◌, ltb, string_key,
}
use aigent_place.Base.Map.{Map, lookup, insert, has_own}
use aigent_place.Workload.State.{concurrent_aigents_target, concurrent_viewers_target}
use aigent_place.Double.{round_quotient, round_whole}
use aigent_place.Ruleset.Setting.{
  Setting, number, other, integer, less, is_int_value, is_finite, whole,
}
use aigent_place.Ruleset.Catalog.{Spec, catalog, Entry, spec, inherited, nothing, entry_of}

-- A complete or partial assignment of values to paths.
abbrev pub Parameters : Type 0
Parameters = Map String Setting

unfoldable pub keys {ℓ} : {V : Type ℓ} → Map String V → List String
keys [] = []
keys ((path, value) ∷ rest) = path ∷ keys rest

-- `{ ...base, ...changes }`
unfoldable pub merge : Parameters → Parameters → Parameters
merge base [] = base
merge base ((path, value) ∷ changes) = merge (insert path value base) changes

unfoldable pub defaults_of : Map String Spec → Parameters
defaults_of [] = []
defaults_of ((path, s) ∷ rest) = (path, s.default) ∷ defaults_of rest

unfoldable pub default_parameters : Parameters
default_parameters = defaults_of catalog

unfoldable pub value_or : Option Setting → Setting
value_or none = other
value_or (some value) = value

-- `parameters[path]`; `other` stands for `undefined`.
unfoldable pub value_of : Parameters → String → Setting
value_of parameters path = value_or (lookup path parameters)

-- Costs are doubles, counted in units of 2 ^ -64: with a radius in whole millimetres, no operation of
-- `envelopeCost` has a digit of less weight.
abbrev pub unit : ℕ
unit = 18446744073709551616

unfoldable pub envelope_cost : Parameters → ℕ
envelope_cost parameters =
    let body_parts = whole (value_of parameters "shape.body_max_parts") in
    let object_parts = whole (value_of parameters "shape.object_max_parts") in
    let objects = whole (value_of parameters "budget.objects_per_aigent") in
    let speech_radius_m =
      round_quotient (whole (value_of parameters "speech.radius_mm") * unit) 1000 in
    let speech_rate = whole (value_of parameters "speech.rate_per_minute") in
    let channel_rate = whole (value_of parameters "channel.post_rate_per_minute") in
    let parts =
      concurrent_aigents_target
      + concurrent_viewers_target
      + (body_parts + object_parts) * objects in
    let with_speech = round_whole (parts * unit + round_whole (speech_radius_m * speech_rate)) in
    round_whole (with_speech + channel_rate * unit)

unfoldable pub constitution_cost_ceiling : ℕ
constitution_cost_ceiling = envelope_cost default_parameters

pub data CrossField : Type 0 where
  displacement_radius_below_step meta_pass_below_ordinary meta_quorum_below_ordinary : CrossField
  meta_soak_below_ordinary meta_vote_duration_below_ordinary body_joints_exceed_parts : CrossField
  object_joints_exceed_parts : CrossField

-- `if (fails) failures.push(failure)`, before the failures that follow
unfoldable pub push_if : Bool → CrossField → List CrossField → List CrossField
push_if true failure rest = failure ∷ rest
push_if false failure rest = rest

unfoldable pub validate_cross_fields : Parameters → List CrossField
unfolding push_if
validate_cross_fields parameters =
    let value = value_of parameters in
    let radius = value "movement.max_displacement_radius_mm" in
    push_if (less (integer 0) radius && less radius (value "movement.displacement_step_mm"))
      displacement_radius_below_step
      (push_if (less (value "governance.meta_pass_threshold") (value "governance.pass_threshold"))
        meta_pass_below_ordinary
        (push_if (less (value "governance.meta_quorum_ratio") (value "governance.quorum_ratio"))
          meta_quorum_below_ordinary
          (push_if
            (less (value "governance.meta_soak_delay_ticks") (value "governance.soak_delay_ticks"))
            meta_soak_below_ordinary
            (push_if
              (less (value "governance.meta_vote_duration_ticks")
                (value "governance.vote_duration_ticks"))
              meta_vote_duration_below_ordinary
              (push_if (less (value "shape.body_max_parts") (value "shape.body_max_joints"))
                body_joints_exceed_parts
                (push_if (less (value "shape.object_max_parts") (value "shape.object_max_joints"))
                  object_joints_exceed_parts []))))))

pub data Rejection : Type 0 where
  unknown_path missing_migration type_error out_of_range incomplete_candidate : String → Rejection
  cross_field : List CrossField → Rejection
  envelope_exceeded : (cost ceiling : ℕ) → Rejection

unfoldable pub type_ok : Spec → Setting → Bool
type_ok s value = if s.is_int then is_int_value value else is_finite value

unfoldable pub in_range : Spec → Setting → Bool
in_range s value = not (less value s.min || less s.max value)

-- One round of the loop over the touched paths.
unfoldable pub check_value : String → Entry → Setting → Option Rejection
check_value path nothing value = some (unknown_path path)
check_value path inherited value = some (missing_migration path)
check_value path (spec s) value =
    if type_ok s value
    then (if in_range s value then none else some (out_of_range path))
    else some (type_error path)

unfoldable pub check_path : Parameters → String → Option Rejection
check_path parameters path = check_value path (entry_of path) (value_of parameters path)

unfoldable pub or_next : Option Rejection → Option Rejection → Option Rejection
or_next none next = next
or_next (some rejection) next = some rejection

unfoldable pub check_paths : Parameters → List String → Option Rejection
unfolding or_next
check_paths parameters [] = none
check_paths parameters (path ∷ paths) =
    let rest = check_paths parameters paths in or_next (check_path parameters path) rest

unfoldable pub check_complete : Parameters → List String → Option Rejection
check_complete parameters [] = none
check_complete parameters (path ∷ paths) =
    let rest = check_complete parameters paths in
    if has_own path parameters then rest else some (incomplete_candidate path)

unfoldable pub check_cross : List CrossField → Option Rejection
check_cross [] = none
check_cross (failure ∷ failures) = some (cross_field (failure ∷ failures))

unfoldable pub check_cost : ℕ → Option Rejection
check_cost cost =
    if ltb constitution_cost_ceiling cost
    then some (envelope_exceeded cost constitution_cost_ceiling)
    else none

-- The reason for which the candidate is refused, if there is one.
unfoldable pub validate_candidate : Parameters → List String → Option Rejection
validate_candidate parameters touched = or_next (check_paths parameters touched) (
    or_next (check_complete parameters (keys catalog)) (
      or_next (check_cross (validate_cross_fields parameters))
        (check_cost (envelope_cost parameters))))
