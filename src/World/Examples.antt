-- ===== src/World/Examples.antt =====
-- The world contract on concrete inputs.
use aigent_place.Base.{◌+◌, ◌*◌, ◌≤◌, ◌<◌, some, ◌≡◌, refl, arith}
use aigent_place.Base.Int.{ℤ, negsuc, with_sign, is_negative, magnitude}
use aigent_place.Base.Value.{number, positive_integer, non_negative_integer}
use aigent_place.Base.Outcome.{ok}
use aigent_place.World.Rounding.{Fraction, Quantized, millimeters, quantize_meters}
use aigent_place.World.Rounding.Nearest.{quantize_meters_lem}
use aigent_place.World.Primitives.{
  capsule, primitive_half_extents, sized, sized_or_zero, required, Extents,
}

-- -1.2345 metres
abbrev below_origin : Fraction
below_origin = record { numerator = negsuc 12344; denominator = 10000 }

quantize_meters_lem_example :
    (100000 * 10000 < magnitude (negsuc 12344)
      → quantize_meters (some below_origin) ≡ Quantized.out_of_world_bounds)
    × (magnitude (negsuc 12344) ≤ 100000 * 10000
        → (mm : ℤ) × (quantize_meters (some below_origin) ≡ millimeters mm)
          × (mm ≡ with_sign (is_negative (negsuc 12344)) (magnitude mm))
          × (magnitude mm ≤ 100000000)
          × (2 * (magnitude (negsuc 12344) * 1000) ≤ 2 * (magnitude mm * 10000) + 10000)
          × (2 * (magnitude mm * 10000) ≤ 2 * (magnitude (negsuc 12344) * 1000) + 10000))
quantize_meters_lem_example = quantize_meters_lem below_origin (omega arith)

abbrev pill : Extents
pill = record { x = 600; y = 1600; z = 600 }

pill_accepted : primitive_half_extents (capsule (number 300) (number 1000)) ≡ ok pill
unfolding primitive_half_extents sized sized_or_zero required positive_integer non_negative_integer
pill_accepted = refl
