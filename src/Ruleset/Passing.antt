-- ===== src/Ruleset/Passing.antt =====
-- What it takes to pass a ruleset in scripts/ruleset-contract.mjs.
use aigent_place.Base.{
  ℕ, zero, suc, ◌*◌, ◌<◌, ◌+◌, ◌≤◌, Bool, true, false, Option, none, some, List, ◌≡◌, refl, ap,
  arith, inl, inr, ◌⊎◌, Bool-cases, ltb, if◌then◌else◌,
}
use mathlib.Core.Path.{subst}
use aigent_place.Base.Map.{lookup}
use aigent_place.Base.Outcome.{ok}
use aigent_place.Ruleset.Setting.{
  Setting, number, other, integer, less, whole, is_int_value, is_finite,
}
use aigent_place.Ruleset.Catalog.{Spec, catalog}
use aigent_place.Ruleset.Constitution.{Parameters, value_of, type_ok, in_range}
use aigent_place.Ruleset.Constitution.Accepted.{IsConstitutional, IsWithin}
use aigent_place.Ruleset.State.{Pending, Proposal, State, Track, track_a, track_b}
use aigent_place.Ruleset.Trace.{Event}
use aigent_place.Ruleset.Voting
use aigent_place.Ruleset.Voting.{close, pass, passes, count_of, governance, ratio}
use aigent_place.Ruleset.Steps.{evaluate_step, close_vote}
use aigent_place.Ruleset.Invariant.{IsLawful}
use aigent_place.Ruleset.Invariant.Runs.{end_of}

-- A whole setting in the range from `low` up is at least `low`.
at_least :
    (s : Spec) (value : Setting) (low : ℕ)
    → s.is_int ≡ true
    → s.min ≡ integer low
    → IsWithin s value
    → low ≤ whole value
unfolding type_ok in_range is_int_value less whole
at_least s (number false n d) low int_ min_ w = ground (arith, w.typed, w.ranged, int_, min_)
at_least s (number true n d) low int_ min_ w = ground (arith, w.typed, w.ranged, int_, min_)
at_least s other low int_ min_ w = ground (arith, w.typed, int_)

soak_delay_ticks :
    (parameters : Parameters)
    → IsConstitutional parameters
    → (meta : Bool)
    → 200
      ≤ whole (
          value_of parameters
            (if meta then "governance.meta_soak_delay_ticks" else "governance.soak_delay_ticks"))
unfolding catalog lookup
soak_delay_ticks parameters v true =
    at_least _ _ 200 refl refl (v.within "governance.meta_soak_delay_ticks" _ refl)
soak_delay_ticks parameters v false =
    at_least _ _ 200 refl refl (v.within "governance.soak_delay_ticks" _ refl)

-- `part` of `total` is at least the share that the setting names, a number that is not negative.
abbrev pub Reaches : Setting → ℕ → ℕ → Type 0
Reaches (number false n d) part total = (n * total ≤ part * d) × (0 < d → 0 < total)
Reaches (number true n d) part total = ⊥
Reaches other part total = ⊥

-- `part` of `total` is more than that share.
abbrev pub Exceeds : Setting → ℕ → ℕ → Type 0
Exceeds (number false n d) part total = n * total < part * d
Exceeds (number true n d) part total = ⊥
Exceeds other part total = ⊥

-- Of the eligible voters the quorum has voted. Of the ballots more than the threshold is for an ordinary
-- proposal, at least the threshold for one on the metaparameters.
abbrev pub Approved : Bool → Parameters → Proposal → Type 0
Approved true live p =
    Reaches (value_of live "governance.meta_quorum_ratio") p.ballots p.eligible_snapshot
    × Reaches (value_of live "governance.meta_pass_threshold") p.votes_for p.ballots
Approved false live p =
    Reaches (value_of live "governance.quorum_ratio") p.ballots p.eligible_snapshot
    × Exceeds (value_of live "governance.pass_threshold") p.votes_for p.ballots

nothing_above : (a b d : ℕ) → suc a * d ≤ zero * b → 0 < d → ⊥
nothing_above a b zero low some_ = absurd (omega (arith, some_))
nothing_above a b (suc d) low some_ = absurd (omega (arith, low))

not_less-Reaches :
    (s : Spec) (value : Setting) (part total a b : ℕ)
    → s.is_int ≡ false
    → s.min ≡ number false (suc a) b
    → IsWithin s value
    → less (ratio part total) value ≡ false
    → Reaches value part total
unfolding type_ok in_range is_finite less ratio
not_less-Reaches s (number false zero d) part zero a b int_ min_ w h =
    let low : suc a * d ≤ zero * b = ground (arith, w.ranged, min_) in
    (omega arith, λ some_. absurd (nothing_above a b d low some_))
not_less-Reaches s (number false (suc n) d) part zero a b int_ min_ w h = absurd (ground (arith, h))
not_less-Reaches s (number false n d) part (suc total) a b int_ min_ w h =
    (ground (arith, h), λ _. omega arith)
not_less-Reaches s (number true n d) part total a b int_ min_ w h =
    absurd (ground (arith, w.ranged, min_))
not_less-Reaches s other part total a b int_ min_ w h = absurd (ground (arith, w.typed, int_))

less-Exceeds :
    (s : Spec) (value : Setting) (part total a b : ℕ)
    → s.is_int ≡ false
    → s.min ≡ number false (suc a) b
    → IsWithin s value
    → less value (ratio part total) ≡ true
    → Exceeds value part total
unfolding type_ok in_range is_finite less ratio
less-Exceeds s (number false n d) part total a b int_ min_ w h = ground (arith, h)
less-Exceeds s (number true n d) part total a b int_ min_ w h =
    absurd (ground (arith, w.ranged, min_))
less-Exceeds s other part total a b int_ min_ w h = absurd (ground (arith, w.typed, int_))

passes-Approved :
    (s : State) (p : Proposal) (meta : Bool)
    → IsConstitutional s.live.parameters
    → p.meta ≡ meta
    → passes meta (count_of s p) ≡ true
    → Approved meta s.live.parameters p
unfolding passes count_of governance catalog lookup
passes-Approved s p true v same h = (
  not_less-Reaches _ _ p.ballots p.eligible_snapshot 0 100 refl refl
      (v.within "governance.meta_quorum_ratio" _ refl) (ground (arith, h)),
  not_less-Reaches _ _ p.votes_for p.ballots 0 2 refl refl
      (v.within "governance.meta_pass_threshold" _ refl) (ground (arith, h)),
)
passes-Approved s p false v same h = (
  not_less-Reaches _ _ p.ballots p.eligible_snapshot 0 100 refl refl
      (v.within "governance.quorum_ratio" _ refl) (ground (arith, h)),
  less-Exceeds _ _ p.votes_for p.ballots 0 2 refl refl (v.within "governance.pass_threshold" _ refl)
      (ground (arith, h)),
)

-- What a vote that puts a ruleset on its way had: a proposal of this ruleset whose time was up, with
-- the quorum and the approval that the live ruleset asks for, and at least 200 ticks of soaking to come.
pub record IsPassed (s : State) (proposal : Proposal) (pending : Pending) : Type 0 where
  pub over : proposal.closes_at_tick ≤ s.tick
  pub approved : Approved proposal.meta s.live.parameters proposal
  pub proposed : proposal.kind ≡ track_a pending.changes pending.parameters
  pub next : pending.generation_id ≡ s.live.generation_id + 1
  pub soaked : s.tick + 200 ≤ pending.activate_at_tick

-- How closing the vote changes the pending ruleset.
abbrev pub PendingChange : State → State → Type 0
PendingChange s t =
    (t.pending ≡ s.pending)
    ⊎ ((proposal : Proposal) × (pending : Pending) × (s.proposal ≡ some proposal)
        × (t.pending ≡ some pending)
        × IsPassed s proposal pending)

passed_lem :
    (s : State) (p : Proposal) (kind : Track)
    → IsLawful s
    → s.proposal ≡ some p
    → p.kind ≡ kind
    → p.closes_at_tick ≤ s.tick
    → passes p.meta (count_of s p) ≡ true
    → PendingChange s (pass s p.meta (count_of s p) kind).0
unfolding pass governance
passed_lem s p (track_b item) v e k over yes_ = inl refl
passed_lem s p (track_a changes candidate) v e k over yes_ =
    let enough = soak_delay_ticks s.live.parameters v.live p.meta in
    inr (
      p,
      _,
      e,
      refl,
      record {
        over = over;
        approved = passes-Approved s p p.meta v.live refl yes_;
        proposed = k;
        next = refl;
        soaked = omega (arith, enough);
      },
    )

closed_lem :
    (s : State) (o : Option Proposal) → s.proposal ≡ o → IsLawful s → PendingChange s (close s o).0
unfolding close
closed_lem s none e v = inl refl
closed_lem s (some p) e v = elim (Bool-cases (ltb s.tick p.closes_at_tick)) [
  | inl still_open ↦ rw still_open (inl refl)
  | inr over ↦ rw over (elim (Bool-cases (passes p.meta (count_of s p))) [
    | inl yes_ ↦ rw yes_ (passed_lem s p p.kind v e refl (ground (arith, over)) yes_)
    | inr no_ ↦ rw no_ (inl refl)
  ])
]

-- Closing a vote from a lawful state leaves the pending ruleset as it was, or replaces it by the
-- proposed one, and then the vote's time was up, the ballots were at least the quorum of the eligible
-- voters, those for the proposal more than the threshold of the ballots, or at least the threshold for a
-- proposal on the metaparameters, and at least 200 ticks of soaking lie ahead.
pub close_vote_lem :
    (s : State) {r : State × List Event}
    → IsLawful s
    → evaluate_step s close_vote ≡ ok r
    → PendingChange s r.0
unfolding evaluate_step Voting.close_vote
close_vote_lem s v h = subst (PendingChange s) (ap (end_of s) h) (closed_lem s s.proposal refl v)
