-- ===== src/Workload/Policy/Ladder.antt =====
-- The degradation ladder (scripts/workload-contract.mjs): each level is the one before with one knob
-- turned down, in the order cadence, area of interest, refusal, percept floor.
use aigent_place.Base.{
  ℕ, zero, suc, ◌+◌, ◌≤◌, ◌<◌, Bool, true, false, Option, none, some, ◌≡◌, refl, ◌∙◌, arith, ltb,
  if◌then◌else◌,
}
use mathlib.Core.Path.{subst}
use aigent_place.Workload.Policy.{Policy, policy_at, max_degradation_level}

-- A percept floor of at most another; no floor allows any rate.
abbrev pub IsNoHigher : Option ℕ → Option ℕ → Type 0
IsNoHigher lower none = Unit
IsNoHigher none (some higher) = ⊥
IsNoHigher (some lower) (some higher) = lower ≤ higher

-- `worse` gives nobody more than `better`.
pub record IsDegraded (better worse : Policy) : Type 0 where
  pub cadence : worse.viewer_cadence_hz ≤ better.viewer_cadence_hz
  pub aoi : worse.viewer_aoi_cap ≤ better.viewer_aoi_cap
  pub refusal : better.refuse_new_viewers ≡ true → worse.refuse_new_viewers ≡ true
  pub percept : IsNoHigher worse.aigent_percept_floor_hz better.aigent_percept_floor_hz

abbrev pub deepest : Policy
deepest = record {
  level = 8;
  viewer_cadence_hz = 2;
  viewer_aoi_cap = 25;
  refuse_new_viewers = true;
  aigent_percept_floor_hz = some 1;
}

-- Beyond the deepest level nothing changes.
pub policy_at-deepest : (n : ℕ) → 8 ≤ n → policy_at n ≡ deepest
unfolding policy_at
policy_at-deepest n h = ground arith

next-IsDegraded : (n : ℕ) → IsDegraded (policy_at n) (policy_at (n + 1))
unfolding policy_at
next-IsDegraded n = ground arith

IsNoHigher-refl : (a : Option ℕ) → IsNoHigher a a
IsNoHigher-refl none = tt
IsNoHigher-refl (some a) = omega arith

IsDegraded-refl : (a : Policy) → IsDegraded a a
IsDegraded-refl a = record {
  cadence = omega arith;
  aoi = omega arith;
  refusal = λ r. r;
  percept = IsNoHigher-refl a.aigent_percept_floor_hz;
}

IsNoHigher-trans : (a b c : Option ℕ) → IsNoHigher a b → IsNoHigher b c → IsNoHigher a c
IsNoHigher-trans a b none h k = tt
IsNoHigher-trans (some a) (some b) (some c) h k = omega arith
IsNoHigher-trans a none (some c) h k = absurd k
IsNoHigher-trans none (some b) (some c) h k = absurd h

IsDegraded-trans : (a b c : Policy) → IsDegraded a b → IsDegraded b c → IsDegraded a c
IsDegraded-trans a b c h k = record {
  cadence = omega (arith, h.cadence, k.cadence);
  aoi = omega (arith, h.aoi, k.aoi);
  refusal = λ r. k.refusal (h.refusal r);
  percept =
      IsNoHigher-trans c.aigent_percept_floor_hz b.aigent_percept_floor_hz a.aigent_percept_floor_hz
        k.percept h.percept;
}

-- A deeper level gives nobody more than a shallower one: no higher cadence, no larger area of
-- interest, no new viewer where the shallower level refuses them, no higher percept floor.
pub policy_at-IsDegraded : (n k : ℕ) → IsDegraded (policy_at n) (policy_at (n + k))
policy_at-IsDegraded n zero =
    subst (λ m. IsDegraded (policy_at n) (policy_at m)) (omega arith)
      (IsDegraded-refl (policy_at n))
policy_at-IsDegraded n (suc k) =
    subst (λ m. IsDegraded (policy_at n) (policy_at m)) (omega arith)
      (IsDegraded-trans (policy_at n) (policy_at (n + k)) (policy_at (n + k + 1))
        (policy_at-IsDegraded n k) (next-IsDegraded (n + k)))

-- The knobs are turned in order: the area of interest shrinks only at the lowest cadence, viewers are
-- refused only at the smallest area as well, and the aigents' percepts are floored only when viewers
-- are refused.
pub policy_at_ordered :
    (n : ℕ)
    → ((policy_at n).viewer_aoi_cap < 100 → (policy_at n).viewer_cadence_hz ≡ 2)
      × ((policy_at n).refuse_new_viewers ≡ true → (policy_at n).viewer_aoi_cap ≡ 25)
      × ((policy_at n).refuse_new_viewers ≡ false → (policy_at n).aigent_percept_floor_hz ≡ none)
unfolding policy_at
policy_at_ordered n = ground arith

-- How many knobs two policies set differently.
differ : ℕ → ℕ → ℕ
differ a b = if ltb a b then 1 else if ltb b a then 1 else 0

floor_hz : Option ℕ → ℕ
floor_hz none = 0
floor_hz (some hz) = hz

refusal : Bool → ℕ
refusal true = 1
refusal false = 0

unfoldable pub knobs_turned : Policy → Policy → ℕ
unfolding differ floor_hz refusal
knobs_turned a b =
    differ a.viewer_cadence_hz b.viewer_cadence_hz
    + differ a.viewer_aoi_cap b.viewer_aoi_cap
    + differ (refusal a.refuse_new_viewers) (refusal b.refuse_new_viewers)
    + differ (floor_hz a.aigent_percept_floor_hz) (floor_hz b.aigent_percept_floor_hz)

no_knob : (n : ℕ) → 8 ≤ n → knobs_turned (policy_at n) (policy_at (n + 1)) ≡ 0
unfolding knobs_turned
no_knob n h = rw (policy_at-deepest n h, policy_at-deepest (n + 1) (omega arith)) refl

-- Below the deepest level the next one turns exactly one knob, and from there on no level turns any.
pub policy_at_one_knob :
    (n : ℕ)
    → knobs_turned (policy_at n) (policy_at (n + 1))
      ≡ (if ltb n max_degradation_level then 1 else 0)
unfolding policy_at knobs_turned
policy_at_one_knob zero = refl
policy_at_one_knob (suc zero) = refl
policy_at_one_knob (suc (suc zero)) = refl
policy_at_one_knob (suc (suc (suc zero))) = refl
policy_at_one_knob (suc (suc (suc (suc zero)))) = refl
policy_at_one_knob (suc (suc (suc (suc (suc zero))))) = refl
policy_at_one_knob (suc (suc (suc (suc (suc (suc zero)))))) = refl
policy_at_one_knob (suc (suc (suc (suc (suc (suc (suc zero))))))) = refl
policy_at_one_knob (suc (suc (suc (suc (suc (suc (suc (suc n)))))))) =
    no_knob (suc (suc (suc (suc (suc (suc (suc (suc n)))))))) (omega arith) ∙ ground arith
