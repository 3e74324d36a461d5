-- ===== src/Replay/Draw/Material.antt =====
-- scripts/replay-contract.mjs: different draws derive from different material, since `encodeRngInput`
-- can be read back.
use aigent_place.Base.{
  ℕ, zero, suc, ◌≤◌, ◌<◌, true, List, [], ◌∷◌, ◌≡◌, ◌≢◌, ◌∙◌, refl, sym, ap, &&_true, ltb, arith,
}
use aigent_place.Base.Int.{ℤ, pos, negsuc}
use aigent_place.Base.Lists.{length}
use aigent_place.Replay.U64.{max_u64}
use aigent_place.Replay.Bytes.{
  big_endian, big_endian-inj, utf8-inj, i64-inj, IsI64, u16, u32, u64, i64,
}
use aigent_place.Replay.Draw.{
  Location, at_generation, at_place, RngInput, encode_location, encode_block, encode_rng_input,
  is_i64, is_location, is_draw_input,
}

u16-inj :
    (a b : ℕ) (xs ys : List ℕ) → a < 65536 → b < 65536 → u16 a xs ≡ u16 b ys → (a ≡ b) × (xs ≡ ys)
unfolding u16
u16-inj a b xs ys h k e = big_endian-inj 2 a b xs ys h k e

u32-inj :
    (a b : ℕ) (xs ys : List ℕ)
    → a < 4294967296
    → b < 4294967296
    → u32 a xs ≡ u32 b ys
    → (a ≡ b) × (xs ≡ ys)
unfolding u32
u32-inj a b xs ys h k e = big_endian-inj 4 a b xs ys h k e

u64-inj :
    (a b : ℕ) (xs ys : List ℕ)
    → a ≤ max_u64
    → b ≤ max_u64
    → u64 a xs ≡ u64 b ys
    → (a ≡ b) × (xs ≡ ys)
unfolding u64
u64-inj a b xs ys h k e = big_endian-inj 8 a b xs ys (omega (arith, h)) (omega (arith, k)) e

is_i64-IsI64 : (z : ℤ) → is_i64 z ≡ true → IsI64 z
unfolding is_i64
is_i64-IsI64 (pos n) h = ground (arith, h)
is_i64-IsI64 (negsuc n) h = ground (arith, h)

cons-inj : {a b : ℕ} {us vs : List ℕ} → (a ∷ us) ≡ (b ∷ vs) → (a ≡ b) × (us ≡ vs)
cons-inj p = ground (arith, p)

encode_location-inj :
    (l m : Location) (xs ys : List ℕ)
    → is_location l ≡ true
    → is_location m ≡ true
    → encode_location l xs ≡ encode_location m ys
    → (l ≡ m) × (xs ≡ ys)
unfolding encode_location is_location
encode_location-inj (at_generation g) (at_generation g') xs ys h k e =
    let (same, rest) = u64-inj g g' xs ys (ground (arith, h)) (ground (arith, k)) (cons-inj e).1 in
    (ap at_generation same, rest)
encode_location-inj (at_generation g) (at_place x z) xs ys h k e =
    absurd (omega (arith, (cons-inj e).0))
encode_location-inj (at_place x z) (at_generation g) xs ys h k e =
    absurd (omega (arith, (cons-inj e).0))
encode_location-inj (at_place x z) (at_place x' z') xs ys h k e =
    let both = &&_true (is_i64 x) (is_i64 z) h in
    let others = &&_true (is_i64 x') (is_i64 z') k in
    let (same_x, rest) =
      i64-inj x x' (i64 z xs) (i64 z' ys) (is_i64-IsI64 x both.0) (is_i64-IsI64 x' others.0)
        (cons-inj e).1 in
    let (same_z, end) =
      i64-inj z z' xs ys (is_i64-IsI64 z both.1) (is_i64-IsI64 z' others.1) rest in
    (λ i. at_place (same_x i) (same_z i), end)

not_nothing : (n : ℕ) → n < 4294967296 → u32 n [] ≢ []
unfolding u32 big_endian
not_nothing n h e = ground (arith, e)

encode_block-suc : (n : ℕ) → encode_block (suc n) ≡ u32 (suc n) []
unfolding encode_block
encode_block-suc n = let positive : ltb 0 (suc n) ≡ true = ground arith in rw positive refl

encode_block-zero : encode_block zero ≡ []
unfolding encode_block
encode_block-zero = refl

encode_block-inj :
    (i j : ℕ) → i < 4294967296 → j < 4294967296 → encode_block i ≡ encode_block j → i ≡ j
encode_block-inj zero zero h k e = refl
encode_block-inj zero (suc j) h k e =
    absurd (not_nothing (suc j) k (sym (encode_block-suc j) ∙ sym e ∙ encode_block-zero))
encode_block-inj (suc i) zero h k e =
    absurd (not_nothing (suc i) h (sym (encode_block-suc i) ∙ e ∙ encode_block-zero))
encode_block-inj (suc i) (suc j) h k e =
    (u32-inj (suc i) (suc j) [] [] h k (sym (encode_block-suc i) ∙ e ∙ encode_block-suc j)).0

-- The texts have lengths that a 32-bit number holds, and the block number is one.
abbrev pub Encodable : RngInput → ℕ → Type 0
Encodable input block =
    (length input.subsystem < 4294967296)
    × (length input.purpose < 4294967296)
    × (block < 4294967296)

pub record InRange (input : RngInput) : Type 0 where
  pub version : input.rng_contract_version ≡ 1
  pub location : is_location input.location ≡ true
  pub index : input.canonical_command_index < 4294967296
  pub entity : input.entity_id ≤ max_u64
  pub draw : input.draw_index < 4294967296

is_draw_input-InRange :
    (input : RngInput) (bound : ℕ) → is_draw_input input bound ≡ true → InRange input
unfolding is_draw_input
is_draw_input-InRange input bound h = record {
  version = ground (arith, h);
  location = ground (arith, h);
  index = ground (arith, h);
  entity = ground (arith, h);
  draw = ground (arith, h);
}

-- Two blocks of valid draws whose materials are equal are the same block of the same draw.
pub encode_rng_input-inj :
    (a b : RngInput) (bound other_bound i j : ℕ)
    → is_draw_input a bound ≡ true
    → is_draw_input b other_bound ≡ true
    → Encodable a i
    → Encodable b j
    → encode_rng_input a i ≡ encode_rng_input b j
    → (a ≡ b) × (i ≡ j)
unfolding encode_rng_input
encode_rng_input-inj a b bound other_bound i j valid other_valid fits other_fits e =
    let u = is_draw_input-InRange a bound valid in
    let v = is_draw_input-InRange b other_bound other_valid in
    let (version, e1) =
      u16-inj a.rng_contract_version b.rng_contract_version _ _ (omega (arith, u.version))
        (omega (arith, v.version)) e in
    let (subsystem, e2) = utf8-inj a.subsystem b.subsystem _ _ fits.0 other_fits.0 e1 in
    let (purpose, e3) = utf8-inj a.purpose b.purpose _ _ fits.1 other_fits.1 e2 in
    let (place, e4) = encode_location-inj a.location b.location _ _ u.location v.location e3 in
    let (index, e5) =
      u32-inj a.canonical_command_index b.canonical_command_index _ _ u.index v.index e4 in
    let (entity, e6) = u64-inj a.entity_id b.entity_id _ _ u.entity v.entity e5 in
    let (draw, e7) = u32-inj a.draw_index b.draw_index _ _ u.draw v.draw e6 in
    (
      λ k. record {
        rng_contract_version = version k;
        subsystem = subsystem k;
        purpose = purpose k;
        location = place k;
        canonical_command_index = index k;
        entity_id = entity k;
        draw_index = draw k;
      },
      encode_block-inj i j fits.2 other_fits.2 e7,
    )
