-- ===== src/Ruleset/Activation.antt =====
-- When the live ruleset of scripts/ruleset-contract.mjs changes, and that soaking comes to an end.
use aigent_place.Base.{
  ℕ, ◌+◌, ◌≤◌, ◌<◌, Bool, true, false, Option, none, some, List, [], ◌∷◌, map, ◌≡◌, ◌∙◌, refl, ap,
  arith, inl, inr, ◌⊎◌, Bool-cases, leb, leb→le,
}
use mathlib.Core.Path.{subst}
use aigent_place.Base.Lists.{length, length-map}
use aigent_place.Base.Value.{Value, positive_integer}
use aigent_place.Base.Outcome.{ok}
use aigent_place.Workload.State.{flag_of}
use aigent_place.Ruleset.Constitution.{Parameters}
use aigent_place.Ruleset.State.{Pending, Proposal, State, Track, track_b}
use aigent_place.Ruleset.Trace.{Event}
use aigent_place.Ruleset.Voting
use aigent_place.Ruleset.Voting.{Voter, open_proposal, propose_checked, cast, vote_on, pass, close}
use aigent_place.Ruleset.Soak
use aigent_place.Ruleset.Soak.{
  activate, roll_back, settle, soak_tick, soak_ticks, soak_pending, soak_healthy,
}
use aigent_place.Ruleset.Steps.{
  Step, Result, evaluate_step, advance, recovered, propose, propose_track_b, vote, close_vote,
  advance_ticks, observe_soak, recover_crash, inspect, unknown, no_op,
}
use aigent_place.Ruleset.Invariant.{IsLawful}
use aigent_place.Ruleset.Invariant.Runs.{end_of, recover_lem}

-- The ruleset `p` was put in force by the end of the state `s`, which had been soaking healthily.
pub record IsActivated (p : Pending) (s : State) : Type 0 where
  pub due : p.activate_at_tick ≤ s.tick
  pub healthy : soak_healthy s ≡ true
  pub live : s.live ≡ record {
    generation_id = p.generation_id;
    activated_tick = s.tick;
    parameters = p.parameters;
  }
  pub settled : s.pending ≡ none

-- The pending generation `p` was given up in `s`, which had not been soaking healthily.
pub record IsRolledBack (p : Pending) (s : State) : Type 0 where
  pub due : p.activate_at_tick ≤ s.tick
  pub sick : soak_healthy s ≡ false
  pub settled : s.pending ≡ none

soak_healthy-activate : (s : State) (p : Pending) → soak_healthy (activate s p).0 ≡ soak_healthy s
unfolding soak_healthy activate
soak_healthy-activate s p = refl

soak_healthy-roll_back : (s : State) (p : Pending) → soak_healthy (roll_back s p).0 ≡ soak_healthy s
unfolding soak_healthy roll_back
soak_healthy-roll_back s p = refl

-- What becomes of the pending generation `p` between `s` and `t`: it is put in force, given up, or
-- still pending.
abbrev pub Settles : State → Pending → State → Type 0
Settles s p t =
    IsActivated p t
    ⊎ (((t.live ≡ s.live) × IsRolledBack p t)
        ⊎ ((t.live ≡ s.live) × (t.pending ≡ s.pending) × (t.tick < p.activate_at_tick)))

activate-IsActivated :
    (s : State) (p : Pending)
    → p.activate_at_tick ≤ s.tick
    → soak_healthy s ≡ true
    → IsActivated p (activate s p).0
unfolding activate soak_healthy
activate-IsActivated s p due healthy = record {
  due = due;
  healthy = healthy;
  live = refl;
  settled = refl;
}

roll_back-IsRolledBack :
    (s : State) (p : Pending)
    → p.activate_at_tick ≤ s.tick
    → soak_healthy s ≡ false
    → ((roll_back s p).0.live ≡ s.live) × IsRolledBack p (roll_back s p).0
unfolding roll_back soak_healthy
roll_back-IsRolledBack s p due sick = (refl, record { due = due; sick = sick; settled = refl })

settle-Settles :
    (s : State) (p : Pending) → p.activate_at_tick ≤ s.tick → Settles s p (settle s p).0
unfolding settle
settle-Settles s p due = elim (Bool-cases (soak_healthy s)) [
  | inl healthy ↦ rw healthy (inl (activate-IsActivated s p due healthy))
  | inr sick ↦ rw sick (inr (inl (roll_back-IsRolledBack s p due sick)))
]

soak_tick_lem :
    (s : State) (flag commands errors : ℕ)
    → ((soak_tick s flag commands errors).live ≡ s.live)
      × ((soak_tick s flag commands errors).pending ≡ s.pending)
      × ((soak_tick s flag commands errors).tick ≡ s.tick + 1)
unfolding soak_tick
soak_tick_lem s flag commands errors = (refl, refl, refl)

-- Settling after a tick is settling.
earlier :
    (s s' t : State) (p : Pending)
    → s'.live ≡ s.live
    → s'.pending ≡ s.pending
    → Settles s' p t
    → Settles s p t
earlier s s' t p live pending (inl a) = inl a
earlier s s' t p live pending (inr (inl (same, b))) = inr (inl (same ∙ live, b))
earlier s s' t p live pending (inr (inr (same, still, soon))) =
    inr (inr (same ∙ live, still ∙ pending, soon))

-- Enough ticks settle it.
abbrev Soaks : State → Pending → ℕ → State → Type 0
Soaks s p ticks t = Settles s p t × (p.activate_at_tick ≤ s.tick + ticks → t.pending ≡ none)

settled :
    (s t : State) (p : Pending) → p.activate_at_tick ≤ t.tick → Settles s p t → t.pending ≡ none
settled s t p due (inl a) = a.settled
settled s t p due (inr (inl (same, b))) = b.settled
settled s t p due (inr (inr (same, still, soon))) = absurd (omega (arith, due, soon))

settle_tick : (s : State) (p : Pending) → (settle s p).0.tick ≡ s.tick
unfolding settle activate roll_back
settle_tick s p = ground arith

due-Soaks :
    (s s' : State) (p : Pending) (ticks : ℕ)
    → s'.live ≡ s.live
    → s'.pending ≡ s.pending
    → p.activate_at_tick ≤ s'.tick
    → Soaks s p ticks (settle s' p).0
due-Soaks s s' p ticks live pending due =
    let k = settle-Settles s' p due in
    (
      earlier s s' (settle s' p).0 p live pending k,
      λ enough. settled s' (settle s' p).0 p (omega (arith, due, settle_tick s' p)) k,
    )

-- There are ticks to come, or the time has not come.
abbrev Goes : State → Pending → List ℕ → Type 0
Goes s p [] = s.tick < p.activate_at_tick
Goes s p (flag ∷ flags) = Unit

continued :
    (s : State) (p : Pending) (flags : List ℕ) → s.tick < p.activate_at_tick → Goes s p flags
continued s p [] h = h
continued s p (flag ∷ flags) h = tt

soak_ticks-Soaks :
    (s : State) (p : Pending) (flags : List ℕ) (commands errors : ℕ)
    → Goes s p flags
    → Soaks s p (length flags) (soak_ticks s p flags commands errors).0
unfolding soak_ticks
soak_ticks-Soaks s p [] commands errors before =
    (inr (inr (refl, refl, before)), λ enough. absurd (omega (arith, enough, before)))
soak_ticks-Soaks s p (flag ∷ flags) commands errors before =
    let s' = soak_tick s flag commands errors in
    let (live, pending, tick) = soak_tick_lem s flag commands errors in
    elim (Bool-cases (leb p.activate_at_tick s'.tick)) [
      | inl due ↦ rw due (
          due-Soaks s s' p (length (flag ∷ flags)) live pending
            (leb→le p.activate_at_tick s'.tick due))
      | inr soon ↦
          let (k, enough) =
            soak_ticks-Soaks s' p flags commands errors
              (continued s' p flags (ground (arith, soon))) in
          rw soon (
            earlier s s' (soak_ticks s' p flags commands errors).0 p live pending k,
            λ e. enough (omega (arith, e, tick)),
          )
    ]

-- One or more observed ticks put the pending ruleset in force, give it up, or leave it pending before
-- its time: it is put in force only when its time has come and the soak was healthy, with the next
-- generation's parameters and at this tick, and given up only when the time has come and the soak was
-- not healthy. As many ticks as are left until its time settle it.
pub observe_soak_lem :
    (s : State) (p : Pending) (overrun : Value) (overruns : List Value) (commands errors : ℕ)
    {r : State × List Event}
    → s.pending ≡ some p
    → evaluate_step s (observe_soak (overrun ∷ overruns) commands errors) ≡ ok r
    → Settles s p r.0
      × (p.activate_at_tick ≤ s.tick + length (overrun ∷ overruns) → r.0.pending ≡ none)
unfolding evaluate_step Soak.observe_soak soak_pending
observe_soak_lem s p overrun overruns commands errors {r} e h =
    let flags = map flag_of (overrun ∷ overruns) in
    let soaks = soak_ticks-Soaks s p flags commands errors tt in
    let k : ◌≡◌ {A = Result} (ok (soak_ticks s p flags commands errors)) (ok r) =
      subst
        (λ o. ◌≡◌ {A = Result} (ok (soak_pending s o (overrun ∷ overruns) commands errors)) (ok r))
        e h in
    let (settles, enough) : Soaks s p (length flags) r.0 =
      subst (Soaks s p (length flags)) (ap (end_of s) k) soaks in
    (settles, rw (length-map flag_of (overrun ∷ overruns)) at enough)

open_live :
    (s : State) (kind : Track) (meta : Bool) (voters duration : ℕ)
    → (open_proposal s kind meta voters duration).live ≡ s.live
unfolding open_proposal
open_live s kind meta voters duration = refl

propose_live :
    (s : State) (changes : Parameters) (voters : ℕ)
    → (Voting.propose s changes voters).0.live ≡ s.live
unfolding Voting.propose propose_checked open_proposal
propose_live s [] voters = refl
propose_live s (c ∷ changes) voters = ground arith

vote_live :
    (s : State) (o : Option Proposal) (voter : Voter) (support : Value)
    → (vote_on s o voter support).0.live ≡ s.live
unfolding vote_on cast
vote_live s none voter support = refl
vote_live s (some p) voter support = ground arith

close_live : (s : State) (o : Option Proposal) → (close s o).0.live ≡ s.live
unfolding close pass
close_live s none = refl
close_live s (some p) = ground arith

-- Either the live ruleset stays, or the pending one was put in force.
abbrev pub LiveChange : State → State → Type 0
LiveChange s t = (t.live ≡ s.live) ⊎ ((p : Pending) × (s.pending ≡ some p) × IsActivated p t)

soak_live :
    (s : State) (o : Option Pending) (overruns : List Value) (commands errors : ℕ)
    → s.pending ≡ o
    → LiveChange s (soak_pending s o overruns commands errors).0
unfolding soak_pending soak_ticks
soak_live s none overruns commands errors e = inl refl
soak_live s (some p) [] commands errors e = inl refl
soak_live s (some p) (o ∷ overruns) commands errors e =
    elim (soak_ticks-Soaks s p (map flag_of (o ∷ overruns)) commands errors tt).0 [
      | inl active ↦ inr (p, e, active)
      | inr (inl (same, b)) ↦ inl same
      | inr (inr (same, still, soon)) ↦ inl same
    ]

advance_live :
    (s : State) (count : Option ℕ) {r : State × List Event}
    → advance s count ≡ ok r
    → LiveChange s r.0
unfolding advance
advance_live s none h = absurd (ground arith)
advance_live s (some count) h = subst (LiveChange s) (ap (end_of s) h) (inl refl)

recovered_same : (s : State) → IsLawful s → (recovered s).0 ≡ s
unfolding recovered
recovered_same s v = recover_lem s v

-- From a lawful state, no step changes the live ruleset but by putting the pending one in force, when
-- its time has come and its soak was healthy.
pub evaluate_step_live :
    (s : State) (step : Step) {r : State × List Event}
    → IsLawful s
    → evaluate_step s step ≡ ok r
    → LiveChange s r.0
unfolding evaluate_step Voting.propose_track_b Voting.vote Voting.close_vote Soak.observe_soak
evaluate_step_live s (propose changes voters) v h =
    subst (LiveChange s) (ap (end_of s) h) (inl (propose_live s changes voters))
evaluate_step_live s (propose_track_b title id voters) v h =
    subst (LiveChange s) (ap (end_of s) h) (inl (open_live s (track_b _) false voters _))
evaluate_step_live s (vote voter support) v h =
    subst (LiveChange s) (ap (end_of s) h) (inl (vote_live s s.proposal voter support))
evaluate_step_live s close_vote v h =
    subst (LiveChange s) (ap (end_of s) h) (inl (close_live s s.proposal))
evaluate_step_live s (advance_ticks count) v h = advance_live s (positive_integer count) h
evaluate_step_live s (observe_soak overruns commands errors) v h =
    subst (LiveChange s) (ap (end_of s) h) (soak_live s s.pending overruns commands errors refl)
evaluate_step_live s recover_crash v h =
    subst (LiveChange s) (ap (end_of s) h) (inl (ap (λ (q : State). q.live) (recovered_same s v)))
evaluate_step_live s inspect v h = subst (LiveChange s) (ap (end_of s) h) (inl refl)
evaluate_step_live s (unknown op) v h = absurd (ground arith)
evaluate_step_live s no_op v h = absurd (ground arith)
