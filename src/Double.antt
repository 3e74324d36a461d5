-- ===== src/Double.antt =====
-- The arithmetic of JavaScript numbers that are not negative, where the program relies on it beyond
-- the whole numbers that a double holds exactly: a result is the nearest number with 53 significant
-- binary digits, the even one at a tie. Results beyond the range of doubles do not occur.
use aigent_place.Base.{ℕ, zero, suc, ◌*◌, ◌<◌, true, false, ◌≡◌, refl, ltb, arith}
use aigent_place.World.Rounding.{round_magnitude}

abbrev pub two_53 : ℕ
two_53 = 9007199254740992

-- More than the binary digits of a double.
abbrev pub double_digits : ℕ
double_digits = 1100

-- The weight of the last significant digit of `numerator / denominator`: the least power of two, from
-- `unit` on, that leaves it 53 digits.
unfoldable pub last_digit : ℕ → ℕ → (numerator denominator : ℕ) → ℕ
last_digit zero unit numerator denominator = unit
last_digit (suc fuel) unit numerator denominator =
    elim (ltb numerator (two_53 * (unit * denominator))) [
      | true ↦ unit
      | false ↦ last_digit fuel (2 * unit) numerator denominator
    ]

unfoldable pub round_quotient : (numerator denominator : ℕ) → ℕ
unfolding last_digit
round_quotient numerator denominator =
    let unit = last_digit double_digits 1 numerator denominator in
    round_magnitude numerator (unit * denominator) * unit

-- A whole number as a double.
unfoldable pub round_whole : ℕ → ℕ
unfolding round_quotient
round_whole n = round_quotient n 1

small_digit : (fuel n : ℕ) → n < two_53 → last_digit (suc fuel) 1 n 1 ≡ 1
unfolding last_digit
small_digit fuel n h =
    let small : ltb n (two_53 * (1 * 1)) ≡ true = ground (arith, h) in rw (last_digit, small) refl

small_quotient : (n : ℕ) → round_magnitude n (1 * 1) * 1 ≡ n
unfolding round_magnitude
small_quotient n = ground arith

-- A whole number below 2^53 is a double.
pub round_whole_exact : (n : ℕ) → n < two_53 → round_whole n ≡ n
unfolding round_whole round_quotient
round_whole_exact n h = rw (small_digit 1099 n h) (small_quotient n)
