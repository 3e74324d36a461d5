-- ===== src/Replay/U64/Decimal.antt =====
-- The texts of 64-bit cursors: each is the text of its number, and each number has one text. So the
-- model of the streams compares numbers where the code compares texts.
use aigent_place.Base.{
  ℕ, zero, suc, ◌+◌, ◌-◌, ◌*◌, ◌/◌, ◌%◌, ◌≤◌, ◌<◌, Bool, true, List, [], ◌∷◌, ◌≡◌, ◌∙◌, refl, sym,
  ap, inl, inr, leb, ltb, eqb, ◌&&◌, Bool-cases, arith,
}
use mathlib.Core.Path.{subst}
use aigent_place.Base.Lists.{every}
use aigent_place.Replay.U64.{
  max_u64, is_digit, is_decimal, read, is_empty, is_u64, write, to_string,
}

-- Any fuel above the number is enough.
write_fuel :
    (fuel more value : ℕ) (rest : List ℕ)
    → value < fuel
    → value < more
    → write fuel value rest ≡ write more value rest
unfolding write
write_fuel zero more value rest h k = absurd (omega (arith, h))
write_fuel (suc fuel) zero value rest h k = absurd (omega (arith, k))
write_fuel (suc fuel) (suc more) value rest h k = elim (Bool-cases (ltb value 10)) [
  | inl small ↦ rw small refl
  | inr large ↦ rw large (
      write_fuel fuel more (value / 10) ((48 + value % 10) ∷ rest) (ground (arith, large, h))
        (ground (arith, large, k)))
]

-- Reading a written number gives the number.
read-write :
    (fuel value : ℕ) (rest : List ℕ)
    → value < fuel
    → read 0 (write fuel value rest) ≡ read value rest
unfolding write read
read-write zero value rest h = absurd (omega (arith, h))
read-write (suc fuel) value rest h = elim (Bool-cases (ltb value 10)) [
  | inl small ↦ rw small (ap (λ n. read n rest) (omega arith))
  | inr large ↦ rw large (
      read-write fuel (value / 10) ((48 + value % 10) ∷ rest) (ground (arith, large, h))
      ∙ ap (λ n. read n rest) (omega arith))
]

-- A written number that is not 0 starts with a digit other than 0.
write-IsDigits :
    (fuel value : ℕ) (rest : List ℕ)
    → 0 < value
    → value < fuel
    → every is_digit rest ≡ true
    → is_decimal (write fuel value rest) ≡ true
unfolding write is_decimal is_digit every
write-IsDigits zero value rest p h k = absurd (omega (arith, h))
write-IsDigits (suc fuel) value rest p h k = elim (Bool-cases (ltb value 10)) [
  | inl small ↦ rw small (ground (arith, small, p, k))
  | inr large ↦ rw large (
      write-IsDigits fuel (value / 10) ((48 + value % 10) ∷ rest) (ground (arith, large))
        (ground (arith, large, h)) (ground (arith, k)))
]

write_longer :
    (next : ℕ) (cs : List ℕ)
    → 10 ≤ next
    → write (suc next) next cs ≡ write next (next / 10) ((48 + next % 10) ∷ cs)
unfolding write
write_longer next cs h = ground (arith, h)

-- Writing the number of digits that follow a number other than 0.
to_string-read :
    (value : ℕ) (digits : List ℕ)
    → 0 < value
    → every is_digit digits ≡ true
    → to_string (read value digits) ≡ write (suc value) value digits
unfolding to_string read every is_digit
to_string-read value [] p h = refl
to_string-read value (c ∷ cs) p h =
    let next = 10 * value + (c - 48) in
    let q : value < next = ground (arith, p) in
    let quotient : next / 10 ≡ value = ground (arith, h) in
    let digit : 48 + next % 10 ≡ c = ground (arith, h) in
    to_string-read next cs (omega (arith, p)) (ground (arith, h))
    ∙ write_longer next cs (omega (arith, p))
    ∙ ap (λ n. write next n ((48 + next % 10) ∷ cs)) quotient
    ∙ ap (λ d. write next value (d ∷ cs)) digit
    ∙ write_fuel next (suc value) value (c ∷ cs) q (omega arith)

write_digit :
    (value : ℕ) (rest : List ℕ) → value < 10 → write (suc value) value rest ≡ (48 + value) ∷ rest
unfolding write
write_digit value rest h = ground (arith, h)

to_string-read_first :
    (c : ℕ) (cs : List ℕ)
    → 49 ≤ c
    → c ≤ 57
    → every is_digit cs ≡ true
    → to_string (read 0 (c ∷ cs)) ≡ c ∷ cs
unfolding read write
to_string-read_first c cs low high h =
    let same : 48 + (c - 48) ≡ c = omega (arith, low) in
    let first : 10 * 0 + (c - 48) ≡ c - 48 = omega arith in
    ap (λ n. to_string (read n cs)) first
    ∙ to_string-read (c - 48) cs (omega (arith, low)) h
    ∙ write_digit (c - 48) cs (omega (arith, low, high))
    ∙ ap (λ d. d ∷ cs) same

nought_text :
    (c : ℕ) (cs : List ℕ) → c ≡ 48 → is_empty cs ≡ true → to_string (read 0 (c ∷ cs)) ≡ c ∷ cs
unfolding to_string read write is_empty
nought_text c [] e h = subst (λ n. to_string (read 0 (n ∷ [])) ≡ n ∷ []) (sym e) refl
nought_text c (d ∷ ds) e h = absurd (ground (arith, h))

to_string-read_decimal : (text : List ℕ) → is_decimal text ≡ true → to_string (read 0 text) ≡ text
unfolding is_decimal
to_string-read_decimal [] h = absurd (ground (arith, h))
to_string-read_decimal (c ∷ cs) h = elim (Bool-cases (eqb c 48)) [
  | inl nought ↦ nought_text c cs (ground (arith, nought)) (ground (arith, nought, h))
  | inr other ↦
      let first : (leb 49 c && leb c 57 && every is_digit cs) ≡ true = rw other at h in
      to_string-read_first c cs (ground (arith, first)) (ground (arith, first))
        (ground (arith, first))
]

-- A text that is accepted is the text of its number, a 64-bit one.
pub to_string-read_lem :
    (text : List ℕ) (nonzero : Bool)
    → is_u64 text nonzero ≡ true
    → (to_string (read 0 text) ≡ text) × (read 0 text ≤ max_u64)
unfolding is_u64
to_string-read_lem text nonzero h =
    (to_string-read_decimal text (ground (arith, h)), ground (arith, h))

is_u64-write :
    (value : ℕ) (text : List ℕ) (nonzero : Bool)
    → is_decimal text ≡ true
    → read 0 text ≡ value
    → value ≤ max_u64
    → (nonzero ≡ true → 0 < value)
    → is_u64 text nonzero ≡ true
unfolding is_u64
is_u64-write value text nonzero decimal same h p = rw (decimal, same) (ground (arith, h, p))

to_string-IsDecimal : (value : ℕ) → is_decimal (to_string value) ≡ true
unfolding to_string is_decimal write every is_empty
to_string-IsDecimal zero = refl
to_string-IsDecimal (suc value) =
    write-IsDigits (suc (suc value)) (suc value) [] (omega arith) (omega arith) nothing_more
  where
    nothing_more : every is_digit [] ≡ true
    nothing_more = refl

-- The text of every 64-bit number, other than 0 where the field asks for that, is accepted and read as
-- that number.
pub is_u64-to_string :
    (value : ℕ) (nonzero : Bool)
    → value ≤ max_u64
    → (nonzero ≡ true → 0 < value)
    → (is_u64 (to_string value) nonzero ≡ true) × (read 0 (to_string value) ≡ value)
unfolding to_string read
is_u64-to_string value nonzero h p =
    let same : read 0 (to_string value) ≡ value =
      read-write (suc value) value [] (omega arith) ∙ read_none value in
    (is_u64-write value (to_string value) nonzero (to_string-IsDecimal value) same h p, same)
  where
    read_none : (n : ℕ) → read n [] ≡ n
    read_none n = refl
