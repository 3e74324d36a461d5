-- ===== src/World/Rounding.antt =====
-- scripts/world-contract.mjs: `roundTiesToEven` and `quantizeMeters`, from the fraction on that
-- `decimalFraction` reads.
pub mod Nearest
use aigent_place.Base.{
  ℕ, ◌+◌, ◌*◌, ◌/◌, ◌%◌, Bool, Option, none, some, ◌&&◌, if◌then◌else◌, ltb, eqb,
}
use aigent_place.Base.Int.{ℤ, pos, negsuc, magnitude, is_negative, with_sign}

abbrev pub world_limit_mm : ℕ
world_limit_mm = 100000000

pub record Fraction : Type 0 where
  pub numerator : ℤ
  pub denominator : ℕ

-- `rounded` of `roundTiesToEven`, for the magnitude of the numerator
unfoldable pub round_magnitude : ℕ → ℕ → ℕ
round_magnitude magnitude denominator =
    let quotient = magnitude / denominator in
    let doubled = magnitude % denominator * 2 in
    quotient
    + (if ltb denominator doubled then 1 else 0)
    + (if eqb doubled denominator && eqb (quotient % 2) 1 then 1 else 0)

unfoldable pub round_ties_to_even : ℤ → ℕ → ℤ
unfolding round_magnitude
round_ties_to_even numerator denominator =
    with_sign (is_negative numerator) (round_magnitude (magnitude numerator) denominator)

pub data Quantized : Type 0 where
  millimeters : ℤ → Quantized
  invalid_coordinate out_of_world_bounds : Quantized

-- `fraction.numerator * 1000n`
unfoldable pub thousandfold : ℤ → ℤ
thousandfold numerator = with_sign (is_negative numerator) (magnitude numerator * 1000)

-- `none` is an input that is not finite or that `decimalFraction` refuses.
unfoldable pub quantize_meters : Option Fraction → Quantized
unfolding thousandfold
quantize_meters none = invalid_coordinate
quantize_meters (some fraction) =
    if ltb (100000 * fraction.denominator) (magnitude fraction.numerator)
    then out_of_world_bounds
    else (let rounded = round_ties_to_even (thousandfold fraction.numerator) fraction.denominator in
        if ltb world_limit_mm (magnitude rounded) then out_of_world_bounds else millimeters rounded)
