-- ===== src/Replay/Seed.antt =====
-- scripts/replay-contract.mjs: the seed of the world at the start of `deterministicDraw`. The text is
-- the list of its code units.
use aigent_place.Base.{
  ℕ, ◌+◌, ◌-◌, ◌*◌, Option, none, some, List, [], ◌∷◌, ◌&&◌, if◌then◌else◌, leb, eqb,
}
use aigent_place.Base.Lists.{length}

-- The value of a character of `[0-9a-f]`, in either case.
unfoldable pub hex_digit : ℕ → Option ℕ
hex_digit c =
    if leb 48 c && leb c 57
    then some (c - 48)
    else if leb 97 c && leb c 102
    then some (c - 87)
    else if leb 65 c && leb c 70
    then some (c - 55)
    else none

unfoldable pub add_byte : Option ℕ → Option ℕ → Option (List ℕ) → Option (List ℕ)
add_byte (some high) (some low) (some bytes) = some ((16 * high + low) ∷ bytes)
add_byte _ _ _ = none

-- `Buffer.from(text, "hex")`, where all characters are hexadecimal digits and their number is even.
unfoldable pub hex_bytes : List ℕ → Option (List ℕ)
unfolding hex_digit add_byte
hex_bytes [] = some []
hex_bytes (c ∷ []) = none
hex_bytes (c ∷ d ∷ rest) = add_byte (hex_digit c) (hex_digit d) (hex_bytes rest)

-- The 32 bytes that `worldSeedHex` stands for, where it matches `/^[0-9a-f]{64}$/i`.
unfoldable pub seed_bytes : List ℕ → Option (List ℕ)
unfolding hex_bytes
seed_bytes text = if eqb (length text) 64 then hex_bytes text else none
