-- ===== src/Replay/DrawExamples.antt =====
-- scripts/replay-contract.mjs: the theorems on draws applied to one draw, with a keyed hash that puts
-- the key before the material.
use mathlib.Core.Path.{subst}
use aigent_place.Base.{ℕ, true, List, [], ◌∷◌, ◌++◌, ◌≡◌, refl, sym, some, arith}
use aigent_place.Base.Lists.{drop, take}
use aigent_place.Base.Outcome.{ok}
use aigent_place.Replay.U64.{is_empty}
use aigent_place.Replay.Bytes.{u16, big_endian}
use aigent_place.Replay.Seed.{seed_bytes, hex_bytes, hex_digit, add_byte}
use aigent_place.Replay.Draw.{
  RngInput, at_generation, is_draw_input, accepted_below, Drawn, block_candidates,
  deterministic_draw, candidates_of, read_u64, encode_rng_input,
}
use aigent_place.Replay.Draw.Material.{encode_rng_input-inj}
use aigent_place.Replay.Draw.Range.{FirstAt, IsDraw, deterministic_draw_lem}

-- The first drift of entity 9 in generation 5.
abbrev drift : RngInput
drift = record {
  rng_contract_version = 1;
  subsystem = 109 ∷ 111 ∷ 118 ∷ 101 ∷ [];
  purpose = 100 ∷ 114 ∷ 105 ∷ 102 ∷ 116 ∷ [];
  location = at_generation 5;
  canonical_command_index = 0;
  entity_id = 9;
  draw_index = 1;
}

drift_valid : is_draw_input drift 10 ≡ true
unfolding is_draw_input is_empty
drift_valid = refl

encode_rng_input-inj_example : (drift ≡ drift) × (◌≡◌ {A = ℕ} 3 3)
encode_rng_input-inj_example =
    encode_rng_input-inj drift drift 10 10 3 3 drift_valid drift_valid
      (omega arith, omega arith, omega arith) (omega arith, omega arith, omega arith) refl

abbrev keyed : List ℕ → List ℕ → List ℕ
keyed key material = key ++ material

-- A candidate at the limit or above, then 5.
abbrev seed : List ℕ
seed =
    255 ∷ 255 ∷ 255 ∷ 255 ∷ 255 ∷ 255 ∷ 255 ∷ 255 ∷ 0 ∷ 0 ∷ 0 ∷ 0 ∷ 0 ∷ 0 ∷ 0 ∷ 5 ∷ 0 ∷ 0 ∷ 0 ∷ 0
    ∷ 0 ∷ 0 ∷ 0 ∷ 0 ∷ 0 ∷ 0 ∷ 0 ∷ 0 ∷ 0 ∷ 0 ∷ 0 ∷ 0 ∷ []

first_block : block_candidates keyed seed drift 0 ≡ 18446744073709551615 ∷ 5 ∷ 0 ∷ 0 ∷ []
unfolding block_candidates candidates_of read_u64 drop take encode_rng_input u16 big_endian
first_block = refl

second_candidate : FirstAt (accepted_below 10) 5 (block_candidates keyed seed drift 0) 1
unfolding accepted_below
second_candidate =
    subst (λ cs. FirstAt (accepted_below 10) 5 cs 1) (sym first_block)
      (omega arith, (refl, omega arith))

-- The seed as text.
abbrev seed_text : List ℕ
seed_text =
    let zeros : List ℕ = 48 ∷ 48 ∷ 48 ∷ 48 ∷ 48 ∷ 48 ∷ 48 ∷ 48 ∷ [] in
    let ones : List ℕ = 70 ∷ 102 ∷ 102 ∷ 102 ∷ 102 ∷ 102 ∷ 102 ∷ 102 ∷ [] in
    ones
    ++ ones
    ++ zeros
    ++ 48 ∷ 48 ∷ 48 ∷ 48 ∷ 48 ∷ 48 ∷ 48 ∷ 53 ∷ []
    ++ zeros
    ++ zeros
    ++ zeros
    ++ zeros

seed_read : seed_bytes seed_text ≡ some seed
unfolding seed_bytes hex_bytes hex_digit add_byte
seed_read = refl

deterministic_draw_lem_example :
    (d : Drawn) × (deterministic_draw keyed 2 seed_text drift 10 ≡ ok (some d))
    × IsDraw (block_candidates keyed seed drift) 10 d
deterministic_draw_lem_example =
    deterministic_draw_lem keyed seed_text seed drift 10 2 0 5 1 seed_read drift_valid (omega arith)
      second_candidate
