-- ===== src/Replay/Draw/Range.antt =====
-- scripts/replay-contract.mjs: the value that `deterministicDraw` gives, and when it gives one.
use native.Mathlib.Nat.{mod-lt, div-add-mod}
use aigent_place.Base.{
  ℕ, zero, suc, ◌+◌, ◌*◌, ◌/◌, ◌%◌, ◌≤◌, ◌<◌, true, Option, none, some, List, [], ◌∷◌, ◌++◌, ◌≡◌,
  refl, ap, inl, inr, ltb, Bool-cases, Option-cases, arith,
}
use mathlib.Core.Path.{subst}
use aigent_place.Base.Lists.{All}
use aigent_place.Base.Outcome.{ok}
use aigent_place.Replay.Seed.{seed_bytes}
use aigent_place.Replay.Draw.{
  RngInput, is_draw_input, two_64, accepted_below, first_accepted, Drawn, Block, block_hmac,
  block_of, block_candidates, draw_from, deterministic_draw,
}

-- The accepted numbers are whole rounds of the remainders: each remainder has the same number of them.
accepted_rounds : (bound : ℕ) → accepted_below bound ≡ bound * (two_64 / bound)
unfolding accepted_below
accepted_rounds bound = omega (arith, div-add-mod two_64 bound)

-- The candidate of that index is the first one below the limit.
abbrev pub FirstAt : ℕ → ℕ → List ℕ → ℕ → Type 0
FirstAt accepted raw [] index = ⊥
FirstAt accepted raw (c ∷ cs) zero = (c ≡ raw) × (raw < accepted)
FirstAt accepted raw (c ∷ cs) (suc index) = (accepted ≤ c) × FirstAt accepted raw cs index

-- No candidate is below the limit.
abbrev pub NoneBelow : ℕ → List ℕ → Type 0
NoneBelow accepted cs = All (λ c. accepted ≤ c) cs

first_accepted-some :
    (accepted offset : ℕ) (cs : List ℕ) {index raw : ℕ}
    → first_accepted accepted offset cs ≡ some (index, raw)
    → (i : ℕ) × (index ≡ offset + i) × FirstAt accepted raw cs i
unfolding first_accepted
first_accepted-some accepted offset [] h = absurd (ground (arith, h))
first_accepted-some accepted offset (c ∷ cs) {index} {raw} h = elim (Bool-cases (ltb c accepted)) [
  | inl low ↦
      let (same, found) : (offset ≡ index) × (c ≡ raw) = some_pair (rw low at h) in
      (0, omega (arith, same), (found, ground (arith, low, found)))
  | inr high ↦
      let (i, place, first) = first_accepted-some accepted (offset + 1) cs (rw high at h) in
      (suc i, omega (arith, place), (ground (arith, high), first))
]
  where
    some_pair :
        {a b c d : ℕ} → ◌≡◌ {A = Option (ℕ × ℕ)} (some (a, b)) (some (c, d)) → (a ≡ c) × (b ≡ d)
    some_pair p = ground (arith, p)

first_accepted-none :
    (accepted offset : ℕ) (cs : List ℕ)
    → first_accepted accepted offset cs ≡ none
    → NoneBelow accepted cs
unfolding first_accepted
first_accepted-none accepted offset [] h = tt
first_accepted-none accepted offset (c ∷ cs) h = elim (Bool-cases (ltb c accepted)) [
  | inl low ↦ absurd (ground (arith, rw low at h))
  | inr high ↦ (ground (arith, high), first_accepted-none accepted (offset + 1) cs (rw high at h))
]

-- What a draw is: the remainder of the first candidate below the limit, block by block.
pub record IsDraw (candidates : ℕ → List ℕ) (bound : ℕ) (d : Drawn) : Type 0 where
  pub value_range : d.value < bound
  pub remainder : d.value ≡ d.raw % bound
  pub whole_rounds : d.raw < bound * (two_64 / bound)
  pub first : FirstAt (accepted_below bound) d.raw (candidates d.rejection_block) d.candidate_index
  pub earlier : (k : ℕ) → k < d.rejection_block → NoneBelow (accepted_below bound) (candidates k)

FirstAt_below :
    (accepted raw : ℕ) (cs : List ℕ) (i : ℕ) → FirstAt accepted raw cs i → raw < accepted
FirstAt_below accepted raw [] i h = elim h [ ]
FirstAt_below accepted raw (c ∷ cs) zero h = h.1
FirstAt_below accepted raw (c ∷ cs) (suc i) h = FirstAt_below accepted raw cs i h.1

abbrev OnSome {ℓ} : (Drawn → Type ℓ) → Option Drawn → Type ℓ
OnSome P none = Unit
OnSome P (some d) = P d

abbrev Exhausts : Option Drawn → ℕ → (ℕ → Type 0) → Type 0
Exhausts none n P = (k : ℕ) → k < n → P k
Exhausts (some d) n P = Unit

not_refused :
    (accepted raw : ℕ) (cs : List ℕ) (i : ℕ) → FirstAt accepted raw cs i → NoneBelow accepted cs → ⊥
not_refused accepted raw [] i h none_below = elim h [ ]
not_refused accepted raw (c ∷ cs) zero h none_below = omega (arith, h.0, h.1, none_below.0)
not_refused accepted raw (c ∷ cs) (suc i) h none_below =
    not_refused accepted raw cs i h.1 none_below.1

module _ (hmac : List ℕ → List ℕ → List ℕ) (seed : List ℕ) (input : RngInput) (bound : ℕ)
    (positive : 0 < bound) where
  abbrev candidates : ℕ → List ℕ
  candidates block = block_candidates hmac seed input block

  abbrev Refused : ℕ → Type 0
  Refused block = NoneBelow (accepted_below bound) (candidates block)

  drawn_lem :
      (block index raw : ℕ) (hmac_bytes : List ℕ) (blocks : List Block)
      → ((k : ℕ) → k < block → Refused k)
      → first_accepted (accepted_below bound) 0 (candidates block) ≡ some (index, raw)
      → IsDraw candidates bound (record {
        hmac = hmac_bytes;
        value = raw % bound;
        raw = raw;
        candidate_index = index;
        rejection_block = block;
        blocks = blocks;
      })
  drawn_lem block index raw hmac_bytes blocks before h =
      let (i, place, first) = first_accepted-some (accepted_below bound) 0 (candidates block) h in
      let below = FirstAt_below (accepted_below bound) raw (candidates block) i first in
      record {
        value_range = mod-lt raw positive;
        remainder = refl;
        whole_rounds = omega (arith, below, accepted_rounds bound);
        first =
            subst (FirstAt (accepted_below bound) raw (candidates block)) (omega (arith, place))
              first;
        earlier = before;
      }

  until-Refused :
      (block : ℕ)
      → ((k : ℕ) → k < block → Refused k)
      → first_accepted (accepted_below bound) 0 (candidates block) ≡ none
      → (k : ℕ) → k < block + 1
      → Refused k
  until-Refused block before h k lt = elim (Bool-cases (ltb k block)) [
    | inl earlier ↦ before k (ground (arith, earlier))
    | inr now ↦
        let same : block ≡ k = ground (arith, now, lt) in
        subst Refused same (first_accepted-none (accepted_below bound) 0 (candidates block) h)
  ]

  abbrev seen : ℕ → List Block → List Block
  seen block blocks = blocks ++ block_of hmac seed input block ∷ []

  draw_from-IsDraw :
      (fuel block : ℕ) (blocks : List Block)
      → ((k : ℕ) → k < block → Refused k)
      → OnSome (IsDraw candidates bound) (draw_from hmac seed fuel input bound block blocks)
  unfolding draw_from
  draw_from-IsDraw zero block blocks before = tt
  draw_from-IsDraw (suc fuel) block blocks before =
      elim (Option-cases (first_accepted (accepted_below bound) 0 (candidates block))) [
        | inl refused ↦
            rw (draw_from, refused)
              (draw_from-IsDraw fuel (block + 1) (seen block blocks)
                (until-Refused block before refused))
        | inr ((index, raw), found) ↦
            rw (draw_from, found)
              (drawn_lem block index raw (block_hmac hmac seed input block) (seen block blocks)
                before found)
      ]

  draw_from-Exhausts :
      (fuel block : ℕ) (blocks : List Block)
      → ((k : ℕ) → k < block → Refused k)
      → Exhausts (draw_from hmac seed fuel input bound block blocks) (block + fuel) Refused
  unfolding draw_from
  draw_from-Exhausts zero block blocks before = λ k h. before k (omega (arith, h))
  draw_from-Exhausts (suc fuel) block blocks before =
      elim (Option-cases (first_accepted (accepted_below bound) 0 (candidates block))) [
        | inl refused ↦
            rw (draw_from, refused)
              (subst
                (λ n.
                  Exhausts (draw_from hmac seed fuel input bound (block + 1) (seen block blocks)) n
                    Refused)
                (omega arith)
                (draw_from-Exhausts fuel (block + 1) (seen block blocks)
                  (until-Refused block before refused)))
        | inr ((index, raw), found) ↦ rw (draw_from, found) tt
      ]

  drawn_or_not :
      (fuel block raw index : ℕ) (o : Option Drawn)
      → OnSome (IsDraw candidates bound) o
      → Exhausts o (0 + fuel) Refused
      → block < fuel
      → FirstAt (accepted_below bound) raw (candidates block) index
      → (d : Drawn) × (o ≡ some d) × IsDraw candidates bound d
  drawn_or_not fuel block raw index none drawn exhausted lt first = absurd (
      not_refused (accepted_below bound) raw (candidates block) index first
        (exhausted block (omega (arith, lt))))
  drawn_or_not fuel block raw index (some d) drawn exhausted lt first = (d, refl, drawn)

valid_bound : (input : RngInput) (bound : ℕ) → is_draw_input input bound ≡ true → 0 < bound
unfolding is_draw_input
valid_bound input bound h = ground (arith, h)

-- A valid draw under a seed of 64 hexadecimal digits ends as soon as a block has a candidate below the
-- limit, whatever the keyed hash: with fuel for that block it gives the remainder of the first candidate
-- below the limit, a value below the bound, where all earlier candidates are at the limit or above; the
-- limit is a whole number of rounds of the remainders.
pub deterministic_draw_lem :
    (hmac : List ℕ → List ℕ → List ℕ) (world_seed seed : List ℕ) (input : RngInput)
    (bound fuel block raw index : ℕ)
    → seed_bytes world_seed ≡ some seed
    → is_draw_input input bound ≡ true
    → block < fuel
    → FirstAt (accepted_below bound) raw (block_candidates hmac seed input block) index
    → (d : Drawn) × (deterministic_draw hmac fuel world_seed input bound ≡ ok (some d))
      × IsDraw (block_candidates hmac seed input) bound d
unfolding deterministic_draw
deterministic_draw_lem hmac world_seed seed input bound fuel block raw index text valid lt first =
    let positive = valid_bound input bound valid in
    let nothing : (k : ℕ)
        → k < 0
        → NoneBelow (accepted_below bound) (block_candidates hmac seed input k) =
      λ k impossible. absurd (omega (arith, impossible)) in
    let (d, drawn, correct) =
      drawn_or_not hmac seed input bound positive fuel block raw index
        (draw_from hmac seed fuel input bound 0 [])
        (draw_from-IsDraw hmac seed input bound positive fuel 0 [] nothing)
        (draw_from-Exhausts hmac seed input bound positive fuel 0 [] nothing) lt first in
    (d, rw (deterministic_draw, text, valid) (ap (λ o. ok o) drawn), correct)
