-- ===== src/Replay/Draw.antt =====
-- scripts/replay-contract.mjs: `encodeRngInput` and `deterministicDraw`, the draws that can be derived
-- again from the seed of the world. HMAC-SHA-256 is a parameter.
pub mod Material
pub mod Range
use aigent_place.Base.{
  ℕ, zero, suc, ◌+◌, ◌-◌, ◌*◌, ◌%◌, Bool, true, false, not, Option, none, some, List, [], ◌∷◌, ◌++◌,
  map, ◌&&◌, if◌then◌else◌, ltb, leb, eqb,
}
use aigent_place.Base.Int.{ℤ, pos, negsuc}
use aigent_place.Base.Lists.{length, drop, take}
use aigent_place.Base.Outcome.{Outcome, ok, thrown, invalid_argument}
use aigent_place.Replay.U64.{max_u64, is_empty}
use aigent_place.Replay.Seed.{seed_bytes}
use aigent_place.Replay.Bytes.{u16, u32, u64, i64, utf8}

-- A draw is for a generation or for a place, never for both.
pub data Location : Type 0 where
  at_generation : ℕ → Location
  at_place : (x z : ℤ) → Location

-- Numbers are those that the fields name, texts are their UTF-8 bytes.
pub record RngInput : Type 0 where
  pub rng_contract_version : ℕ
  pub subsystem : List ℕ
  pub purpose : List ℕ
  pub location : Location
  pub canonical_command_index : ℕ
  pub entity_id : ℕ
  pub draw_index : ℕ

unfoldable pub encode_location : Location → List ℕ → List ℕ
unfolding u64 i64
encode_location (at_generation generation) rest = 0 ∷ u64 generation rest
encode_location (at_place x z) rest = 1 ∷ i64 x (i64 z rest)

unfoldable pub encode_block : ℕ → List ℕ
unfolding u32
encode_block block = if ltb 0 block then u32 block [] else []

-- `encodeRngInput(input, rejectionBlock)`
unfoldable pub encode_rng_input : RngInput → ℕ → List ℕ
unfolding encode_block encode_location
encode_rng_input input block = u16 input.rng_contract_version (
    utf8 input.subsystem (
      utf8 input.purpose (
        encode_location input.location (
          u32 input.canonical_command_index
            (u64 input.entity_id (u32 input.draw_index (encode_block block)))))))

-- `validI64`
unfoldable pub is_i64 : ℤ → Bool
is_i64 (pos n) = leb n 9223372036854775807
is_i64 (negsuc n) = leb n 9223372036854775807

unfoldable pub is_location : Location → Bool
unfolding is_i64
is_location (at_generation generation) = leb generation max_u64
is_location (at_place x z) = is_i64 x && is_i64 z

unfoldable pub is_draw_input : RngInput → (bound : ℕ) → Bool
unfolding is_location
is_draw_input input bound =
    leb 1 bound
    && leb bound 18446744073709551616
    && eqb input.rng_contract_version 1
    && not (is_empty input.subsystem)
    && not (is_empty input.purpose)
    && leb input.entity_id max_u64
    && is_location input.location
    && leb input.canonical_command_index 4294967295
    && leb input.draw_index 4294967295

abbrev pub two_64 : ℕ
two_64 = 18446744073709551616

-- `accepted`: the multiples of the bound below it have every remainder equally often.
unfoldable pub accepted_below : ℕ → ℕ
accepted_below bound = two_64 - two_64 % bound

-- `bytes.readBigUInt64BE(offset)`, after the bytes before the offset
unfoldable pub read_u64 : List ℕ → ℕ
read_u64 bytes = value_of 0 (take 8 bytes)
  where
    value_of : ℕ → List ℕ → ℕ
    value_of value [] = value
    value_of value (byte ∷ rest) = value_of (256 * value + byte) rest

unfoldable pub candidates_of : List ℕ → List ℕ
unfolding read_u64
candidates_of bytes =
    read_u64 bytes
    ∷ read_u64 (drop 8 bytes)
    ∷ read_u64 (drop 16 bytes)
    ∷ read_u64 (drop 24 bytes)
    ∷ []

-- The loop over the candidates of a block, with the index of the first.
unfoldable pub first_accepted : ℕ → ℕ → List ℕ → Option (ℕ × ℕ)
first_accepted accepted index [] = none
first_accepted accepted index (raw ∷ more) =
    let rest = first_accepted accepted (index + 1) more in
    if ltb raw accepted then some (index, raw) else rest

pub record Block : Type 0 where
  pub rejection_block : ℕ
  pub hmac : List ℕ
  pub candidates : List ℕ

pub record Drawn : Type 0 where
  pub hmac : List ℕ
  pub value : ℕ
  pub raw : ℕ
  pub candidate_index : ℕ
  pub rejection_block : ℕ
  pub blocks : List Block

module _ (keyed_hash : List ℕ → List ℕ → List ℕ) (seed : List ℕ) where
  unfoldable pub block_hmac : RngInput → ℕ → List ℕ
  block_hmac input block = keyed_hash seed (encode_rng_input input block)

  unfoldable pub block_candidates : RngInput → ℕ → List ℕ
  unfolding candidates_of block_hmac
  block_candidates input block = candidates_of (block_hmac input block)

  unfoldable pub block_of : RngInput → ℕ → Block
  unfolding block_candidates
  block_of input block = record {
    rejection_block = block;
    hmac = block_hmac input block;
    candidates = block_candidates input block;
  }

  -- The loop over the blocks, on fuel, with the blocks so far.
  unfoldable pub draw_from : ℕ → RngInput → (bound block : ℕ) → List Block → Option Drawn
  unfolding block_candidates accepted_below first_accepted block_of
  draw_from zero input bound block blocks = none
  draw_from (suc fuel) input bound block blocks =
      let seen = blocks ++ block_of input block ∷ [] in
      let rest = draw_from fuel input bound (block + 1) seen in
      elim (first_accepted (accepted_below bound) 0 (block_candidates input block)) [
        | none ↦ rest
        | some (index, raw) ↦ some (record {
          hmac = block_hmac input block;
          value = raw % bound;
          raw = raw;
          candidate_index = index;
          rejection_block = block;
          blocks = seen;
        })
      ]

-- `deterministicDraw(worldSeedHex, input, bound)`, which throws for a seed or an input that is not
-- valid; `none` is a draw that takes more blocks than the fuel.
unfoldable pub deterministic_draw :
    (keyed_hash : List ℕ → List ℕ → List ℕ)
    → ℕ
    → (world_seed : List ℕ) → RngInput
    → (bound : ℕ) → Outcome (Option Drawn)
unfolding seed_bytes is_draw_input draw_from
deterministic_draw keyed_hash fuel world_seed input bound = elim (seed_bytes world_seed) [
  | none ↦ thrown invalid_argument
  | some seed ↦
      if is_draw_input input bound
      then ok (draw_from keyed_hash seed fuel input bound 0 [])
      else thrown invalid_argument
]
