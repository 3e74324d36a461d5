-- ===== src/World/Rounding/Nearest.antt =====
-- What the rounding of scripts/world-contract.mjs promises.
use aigent_place.Base.{
  ℕ, zero, suc, true, ◌+◌, ◌*◌, ◌%◌, ◌≤◌, ◌<◌, some, ◌≡◌, refl, inl, inr, arith, ltb, Bool-cases,
}
use native.Mathlib.Nat.{mul-le-mul_right, mod-lt, div-add-mod'}
use aigent_place.Base.Int.{ℤ, pos, negsuc, magnitude, is_negative, magnitude-with_sign, with_sign}
use aigent_place.World.Rounding.{
  round_magnitude, round_ties_to_even, Fraction, Quantized, millimeters, quantize_meters,
  thousandfold,
}

-- The result is a nearest integer: off by half of the denominator at most, and even when off by
-- exactly half.
pub round_magnitude_lem :
    (m d : ℕ)
    → 0 < d
    → (2 * m ≤ 2 * (round_magnitude m d * d) + d)
      × (2 * (round_magnitude m d * d) ≤ 2 * m + d)
      × (2 * m ≡ 2 * (round_magnitude m d * d) + d → round_magnitude m d % 2 ≡ 0)
      × (2 * (round_magnitude m d * d) ≡ 2 * m + d → round_magnitude m d % 2 ≡ 0)
unfolding round_magnitude
round_magnitude_lem m d positive = grind (arith, mod-lt m positive, div-add-mod' m d)

small : (r d : ℕ) → 0 < d → 2 * (r * d) ≤ 200000000 * d + d → r ≤ 100000000
small r d positive h = elim (Bool-cases (ltb 100000000 r)) [
  | inr within ↦ ground (arith, within)
  | inl beyond ↦
      let lt : 100000000 < r = ground (arith, beyond) in
      let more = mul-le-mul_right d lt in absurd (omega (arith, more, h, positive))
]

magnitude_of :
    (n : ℤ) (d : ℕ)
    → magnitude (round_ties_to_even (thousandfold n) d) ≡ round_magnitude (magnitude n * 1000) d
unfolding round_ties_to_even thousandfold
magnitude_of n d =
    rw
      (
        magnitude-with_sign (is_negative (thousandfold n))
            (round_magnitude (magnitude (thousandfold n)) d),
        magnitude-with_sign (is_negative n) (magnitude n * 1000),
      )
      refl

negated : (m : ℕ) → 0 < m → is_negative (with_sign true m) ≡ true
unfolding is_negative with_sign
negated zero h = absurd (omega (arith, h))
negated (suc m) h = refl

keeps_sign : (n : ℤ) → is_negative (thousandfold n) ≡ is_negative n
unfolding thousandfold is_negative magnitude with_sign
keeps_sign (pos n) = refl
keeps_sign (negsuc n) = negated ((n + 1) * 1000) (omega arith)

signed :
    (n : ℤ) (d : ℕ)
    → round_ties_to_even (thousandfold n) d
      ≡ with_sign (is_negative n) (magnitude (round_ties_to_even (thousandfold n) d))
unfolding round_ties_to_even
signed n d =
    let m = round_magnitude (magnitude (thousandfold n)) d in
    rw (keeps_sign n, magnitude-with_sign (is_negative n) m) refl

-- A coordinate is accepted exactly when it lies within the world's 100 000 metres, and then its
-- millimetres do too, with its sign and an error of half a millimetre at most.
pub quantize_meters_lem :
    (f : Fraction)
    → 0 < f.denominator
    → (100000 * f.denominator < magnitude f.numerator
        → quantize_meters (some f) ≡ Quantized.out_of_world_bounds)
      × (magnitude f.numerator ≤ 100000 * f.denominator
          → (mm : ℤ) × (quantize_meters (some f) ≡ millimeters mm)
            × (mm ≡ with_sign (is_negative f.numerator) (magnitude mm))
            × (magnitude mm ≤ 100000000)
            × (2 * (magnitude f.numerator * 1000)
                ≤ 2 * (magnitude mm * f.denominator) + f.denominator)
            × (2 * (magnitude mm * f.denominator)
                ≤ 2 * (magnitude f.numerator * 1000) + f.denominator))
unfolding quantize_meters
quantize_meters_lem f positive =
    let mm = round_ties_to_even (thousandfold f.numerator) f.denominator in
    let same = magnitude_of f.numerator f.denominator in
    let near = round_magnitude_lem (magnitude f.numerator * 1000) f.denominator positive in
    (
      λ far. ground arith,
      λ within.
          let low : 2 * (magnitude f.numerator * 1000)
              ≤ 2 * (magnitude mm * f.denominator) + f.denominator =
            rw same near.0 in
          let high : 2 * (magnitude mm * f.denominator)
              ≤ 2 * (magnitude f.numerator * 1000) + f.denominator =
            rw same near.1 in
          let bound = small (magnitude mm) f.denominator positive (omega (arith, high, within)) in
          (mm, ground (arith, bound), signed f.numerator f.denominator, bound, low, high),
    )
