-- ===== src/Ruleset/Setting.antt =====
-- The value of a ruleset parameter (scripts/ruleset-contract.mjs). A finite number is an exact
-- fraction in lowest terms, where the code has the double next to it; comparisons are of the fractions.
use aigent_place.Base.{ℕ, ◌+◌, ◌*◌, Bool, true, false, ◌&&◌, if◌then◌else◌, ltb, leb, eqb}
use aigent_place.Base.Value.{max_safe_integer}

-- `number true n d` is -(n / d); `other` is a value that is no finite number.
pub data Setting : Type 0 where
  number : (negative : Bool) (numerator denominator : ℕ) → Setting
  other : Setting

abbrev pub integer : ℕ → Setting
integer n = number false n 1

-- `isInt`
unfoldable pub is_int_value : Setting → Bool
is_int_value (number negative n d) = eqb d 1 && leb n max_safe_integer
is_int_value other = false

-- `typeof value === "number" && Number.isFinite(value)`
unfoldable pub is_finite : Setting → Bool
is_finite (number negative n d) = true
is_finite other = false

-- `left < right` for numbers; `false` where one of them is none.
unfoldable pub less : Setting → Setting → Bool
less (number false a b) (number false c d) = ltb (a * d) (c * b)
less (number true a b) (number false c d) = ltb 0 (a + c)
less (number false a b) (number true c d) = false
less (number true a b) (number true c d) = ltb (c * b) (a * d)
less _ _ = false

-- `left === right` for numbers
unfoldable pub equal : Setting → Setting → Bool
equal (number false a b) (number false c d) = eqb (a * d) (c * b)
equal (number true a b) (number true c d) = eqb (a * d) (c * b)
equal _ _ = false

-- The number of a setting that is whole and not negative, as the validated "int" parameters are.
unfoldable pub whole : Setting → ℕ
whole (number false n d) = if eqb d 1 then n else 0
whole _ = 0
