-- ===== src/Replay/Bytes.antt =====
-- scripts/replay-contract.mjs: `u16`, `u32`, `u64`, `i64` and `utf8`, the parts of encoded records. Each
-- part is written before the bytes that follow it in the buffer.
use aigent_place.Base.{
  ℕ, zero, suc, ◌-◌, ◌*◌, ◌/◌, ◌%◌, ◌<◌, List, [], ◌∷◌, ◌++◌, ◌≡◌, ◌∙◌, refl, ap, arith,
}
use aigent_place.Base.Int.{ℤ, pos, negsuc}
use aigent_place.Base.Lists.{length}

-- The bytes of a number, the most significant one first.
unfoldable pub big_endian : ℕ → ℕ → List ℕ → List ℕ
big_endian zero value rest = rest
big_endian (suc width) value rest = big_endian width (value / 256) ((value % 256) ∷ rest)

unfoldable pub u16 : ℕ → List ℕ → List ℕ
u16 value rest = big_endian 2 value rest

unfoldable pub u32 : ℕ → List ℕ → List ℕ
u32 value rest = big_endian 4 value rest

unfoldable pub u64 : ℕ → List ℕ → List ℕ
u64 value rest = big_endian 8 value rest

-- Two's complement.
unfoldable pub as_unsigned : ℤ → ℕ
as_unsigned (pos n) = n
as_unsigned (negsuc n) = 18446744073709551615 - n

unfoldable pub i64 : ℤ → List ℕ → List ℕ
unfolding as_unsigned u64
i64 value rest = u64 (as_unsigned value) rest

-- The length and the bytes of a text. The conversion of the text is not modelled: `bytes` are those that
-- `Buffer.from(value, "utf8")` gives, the same for texts that differ in lone surrogates only.
unfoldable pub utf8 : List ℕ → List ℕ → List ℕ
unfolding u32
utf8 bytes rest = u32 (length bytes) (bytes ++ rest)

-- Numbers below it have that many bytes.
abbrev pub limit : ℕ → ℕ
limit zero = 1
limit (suc width) = 256 * limit width

pub big_endian-inj :
    (width a b : ℕ) (xs ys : List ℕ)
    → a < limit width
    → b < limit width
    → big_endian width a xs ≡ big_endian width b ys
    → (a ≡ b) × (xs ≡ ys)
unfolding big_endian
big_endian-inj zero a b xs ys h k e = (omega (arith, h, k), e)
big_endian-inj (suc width) a b xs ys h k e =
    let (quotients, rests) =
      big_endian-inj width (a / 256) (b / 256) ((a % 256) ∷ xs) ((b % 256) ∷ ys) (omega (arith, h))
        (omega (arith, k)) e in
    (omega (arith, quotients, ap head_or rests), ap tail_of rests)
  where
    head_or : List ℕ → ℕ
    head_or [] = 0
    head_or (x ∷ xs) = x

    tail_of : List ℕ → List ℕ
    tail_of [] = []
    tail_of (x ∷ xs) = xs

append-inj :
    (xs ys us vs : List ℕ) → length xs ≡ length ys → (xs ++ us) ≡ (ys ++ vs) → (xs ≡ ys) × (us ≡ vs)
append-inj [] [] us vs h e = (refl, e)
append-inj [] (y ∷ ys) us vs h e = absurd (omega (arith, h))
append-inj (x ∷ xs) [] us vs h e = absurd (omega (arith, h))
append-inj (x ∷ xs) (y ∷ ys) us vs h e =
    let (heads, tails) : (x ≡ y) × ((xs ++ us) ≡ (ys ++ vs)) = ∷_inj e in
    let (same, rest) = append-inj xs ys us vs (omega (arith, h)) tails in
    (ap (λ z. z ∷ xs) heads ∙ ap (λ zs. y ∷ zs) same, rest)
  where
    ∷_inj : {a b : ℕ} {us vs : List ℕ} → (a ∷ us) ≡ (b ∷ vs) → (a ≡ b) × (us ≡ vs)
    ∷_inj p = ground (arith, p)

pub utf8-inj :
    (bytes others xs ys : List ℕ)
    → length bytes < 4294967296
    → length others < 4294967296
    → utf8 bytes xs ≡ utf8 others ys
    → (bytes ≡ others) × (xs ≡ ys)
unfolding utf8 u32
utf8-inj bytes others xs ys h k e =
    let (lengths, rests) =
      big_endian-inj 4 (length bytes) (length others) (bytes ++ xs) (others ++ ys) h k e in
    append-inj bytes others xs ys lengths rests

-- The numbers that `writeBigInt64BE` takes.
abbrev pub IsI64 : ℤ → Type 0
IsI64 (pos n) = n < 9223372036854775808
IsI64 (negsuc n) = n < 9223372036854775808

pub i64-inj :
    (z w : ℤ) (xs ys : List ℕ) → IsI64 z → IsI64 w → i64 z xs ≡ i64 w ys → (z ≡ w) × (xs ≡ ys)
unfolding i64 u64 as_unsigned
i64-inj z w xs ys h k e =
    let (same, rest) =
      big_endian-inj 8 (as_unsigned z) (as_unsigned w) xs ys (below z h) (below w k) e in
    (unsigned_inj z w h k same, rest)
  where
    below : (z : ℤ) → IsI64 z → as_unsigned z < 18446744073709551616
    below (pos n) h = omega (arith, h)
    below (negsuc n) h = omega (arith, h)

    unsigned_inj : (z w : ℤ) → IsI64 z → IsI64 w → as_unsigned z ≡ as_unsigned w → z ≡ w
    unsigned_inj (pos m) (pos n) h k e = ap pos e
    unsigned_inj (pos m) (negsuc n) h k e = absurd (omega (arith, h, k, e))
    unsigned_inj (negsuc m) (pos n) h k e = absurd (omega (arith, h, k, e))
    unsigned_inj (negsuc m) (negsuc n) h k e = ap negsuc (omega (arith, h, k, e))
