-- ===== src/Replay/U64.antt =====
-- scripts/replay-contract.mjs: `isU64`, `u64Value` and `incrementU64`, on the texts in which the log
-- keeps its 64-bit cursors.
pub mod Decimal
use aigent_place.Base.{
  ℕ, zero, suc, ◌+◌, ◌-◌, ◌*◌, ◌/◌, ◌%◌, Bool, true, false, not, ◌&&◌, ◌||◌, Option, none, some,
  List, [], ◌∷◌, if◌then◌else◌, ltb, leb, eqb,
}
use aigent_place.Base.Lists.{every}

-- `MAX_U64`
abbrev pub max_u64 : ℕ
max_u64 = 18446744073709551615

-- `\d`, for a UTF-16 code unit
unfoldable pub is_digit : ℕ → Bool
is_digit c = leb 48 c && leb c 57

unfoldable pub is_empty : List ℕ → Bool
is_empty [] = true
is_empty (c ∷ cs) = false

-- `/^(0|[1-9]\d*)$/`
unfoldable pub is_decimal : List ℕ → Bool
unfolding is_empty is_digit every
is_decimal [] = false
is_decimal (c ∷ cs) = if eqb c 48 then is_empty cs else leb 49 c && leb c 57 && every is_digit cs

-- `BigInt(text)`, with the value of the digits read so far
unfoldable pub read : ℕ → List ℕ → ℕ
read value [] = value
read value (c ∷ cs) = read (10 * value + (c - 48)) cs

-- `isU64(value, nonzero)`
unfoldable pub is_u64 : List ℕ → Bool → Bool
unfolding is_decimal read
is_u64 text nonzero =
    is_decimal text && leb (read 0 text) max_u64 && (not nonzero || not (eqb (read 0 text) 0))

-- `value.toString()`, on fuel, before the digits written so far
unfoldable pub write : ℕ → ℕ → List ℕ → List ℕ
write zero value rest = rest
write (suc fuel) value rest =
    let longer = write fuel (value / 10) ((48 + value % 10) ∷ rest) in
    if ltb value 10 then (48 + value) ∷ rest else longer

unfoldable pub to_string : ℕ → List ℕ
unfolding write
to_string value = write (suc value) value []

-- The allocators: the next cursor, and `null` after the last one.
unfoldable pub successor : ℕ → Option ℕ
successor cursor = if eqb cursor max_u64 then none else some (cursor + 1)
