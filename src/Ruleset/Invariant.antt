-- ===== src/Ruleset/Invariant.antt =====
-- The invariant of scripts/ruleset-contract.mjs, and that the voting steps keep it.
pub mod Runs
use aigent_place.Base.{
  ℕ, suc, ◌+◌, ◌≤◌, ◌<◌, String, Bool, true, false, not, Option, none, some, List, [], ◌∷◌, ◌++◌,
  ◌≡◌, ◌∙◌, refl, sym, ap, arith, inl, inr, ◌⊎◌, Bool-cases, Option-cases, ltb, leb, map,
  if◌then◌else◌,
}
use mathlib.Core.Path.{subst}
use aigent_place.Base.Lists.{any, length, length-append}
use aigent_place.Base.Value.{Value, truthy, strict_equal, strict_equal_iff, positive_integer}
use aigent_place.Base.Outcome.{Outcome, ok, thrown, ◌>>=◌, chain-eq-ok}
use aigent_place.Ruleset.Constitution.{Parameters, Rejection, keys, merge, validate_candidate}
use aigent_place.Ruleset.Constitution.Accepted.{
  IsConstitutional, merge-IsConstitutional, validate_candidate-IsConstitutional,
}
use aigent_place.Ruleset.State.{
  Generation, Pending, Track, track_a, track_b, Proposal, Durable, State, Item,
}
use aigent_place.Ruleset.Trace.{Event, Count}
use aigent_place.Ruleset.Voting.{
  Voter, open_proposal, propose_checked, has_voted, cast, vote_on, pass, close, count_of, passes,
  touches_meta,
}
use aigent_place.Ruleset.Soak.{
  activate, roll_back, settle, soak_tick, soak_ticks, soak_pending, soak_healthy,
}
use aigent_place.Ruleset.Soak
use aigent_place.Ruleset.Voting
use aigent_place.Workload.State.{flag_of}
use aigent_place.Ruleset.Steps.{
  Step, Result, evaluate_step, advance, recover, recovered, run, propose, propose_track_b, vote,
  close_vote, advance_ticks, observe_soak, recover_crash, inspect, unknown, no_op,
}

-- A pending generation is constitutional and comes next after the live one.
abbrev pub PendingLawful : ℕ → Option Pending → Type 0
PendingLawful live none = Unit
PendingLawful live (some p) = IsConstitutional p.parameters × (p.generation_id ≡ live + 1)

abbrev pub CandidateLawful : Track → Type 0
CandidateLawful (track_a changes candidate) = IsConstitutional candidate
CandidateLawful (track_b item) = Unit

-- No account stands twice.
abbrev pub OneVoteEach : List Value → Type 0
OneVoteEach [] = Unit
OneVoteEach (account ∷ accounts) = (has_voted account accounts ≡ false) × OneVoteEach accounts

-- The ballots of an open proposal are those of the accounts that voted, one each, for or against.
abbrev pub ProposalLawful : List Value → Option Proposal → Type 0
ProposalLawful accounts none = Unit
ProposalLawful accounts (some p) =
    CandidateLawful p.kind
    × (p.ballots ≡ p.votes_for + p.votes_against)
    × (p.ballots ≡ length accounts)
    × OneVoteEach accounts

pub record IsLawful (s : State) : Type 0 where
  pub live : IsConstitutional s.live.parameters
  pub pending : PendingLawful s.live.generation_id s.pending
  pub proposal : ProposalLawful s.voted_accounts s.proposal
  pub durable_live : s.durable.live_generation_id ≡ s.live.generation_id
  pub durable_pending : s.durable.pending ≡ s.pending

append_unvoted :
    (accounts : List Value) (other account : Value)
    → has_voted other (accounts ++ account ∷ [])
      ≡ (if has_voted other accounts then true else strict_equal other account)
unfolding has_voted any
append_unvoted [] other account = ground arith
append_unvoted (a ∷ accounts) other account = ground (arith, append_unvoted accounts other account)

append-OneVoteEach :
    (accounts : List Value) (account : Value)
    → OneVoteEach accounts
    → has_voted account accounts ≡ false
    → OneVoteEach (accounts ++ account ∷ [])
unfolding has_voted any
append-OneVoteEach [] account v h = (refl, tt)
append-OneVoteEach (a ∷ accounts) account (fresh, v) h = (
  append_unvoted accounts a account
      ∙ ground (arith, fresh, h, strict_equal_iff a account, strict_equal_iff account a),
  append-OneVoteEach accounts account v (ground (arith, h)),
)

open_proposal-IsLawful :
    (s : State) (kind : Track) (meta : Bool) (voters duration : ℕ)
    → CandidateLawful kind
    → IsLawful s
    → IsLawful (open_proposal s kind meta voters duration)
unfolding open_proposal
open_proposal-IsLawful s kind meta voters duration c v = record {
  live = v.live;
  pending = v.pending;
  proposal = (c, refl, refl, tt);
  durable_live = v.durable_live;
  durable_pending = v.durable_pending;
}

propose_checked-IsLawful :
    (s : State) (changes : Parameters) (voters : ℕ) (r : Option Rejection)
    → validate_candidate (merge s.live.parameters changes) (keys changes) ≡ r
    → IsLawful s
    → IsLawful (propose_checked s changes (merge s.live.parameters changes) voters r).0
unfolding propose_checked
propose_checked-IsLawful s changes voters (some rejection) e v = v
propose_checked-IsLawful s changes voters none e v =
    open_proposal-IsLawful s (track_a changes (merge s.live.parameters changes)) _ voters _
      (merge-IsConstitutional s.live.parameters changes v.live e) v

pub propose-IsLawful :
    (s : State) (changes : Parameters) (voters : ℕ)
    → IsLawful s
    → IsLawful (Voting.propose s changes voters).0
unfolding Voting.propose
propose-IsLawful s [] voters v = v
propose-IsLawful s (change ∷ changes) voters v =
    propose_checked-IsLawful s (change ∷ changes) voters _ refl v

pub propose_track_b-IsLawful :
    (s : State) (title id : Option String) (voters : ℕ)
    → IsLawful s
    → IsLawful (Voting.propose_track_b s title id voters).0
unfolding Voting.propose_track_b
propose_track_b-IsLawful s title id voters v =
    open_proposal-IsLawful s (track_b _) false voters _ tt v

cast-IsLawful :
    (s : State) (p : Proposal) (account : Value) (support : Bool)
    → s.proposal ≡ some p
    → has_voted account s.voted_accounts ≡ false
    → IsLawful s
    → IsLawful (cast s p account support).0
unfolding cast
cast-IsLawful s p account support e fresh v =
    let k : ProposalLawful s.voted_accounts (some p) = rw e at v.proposal in
    record {
      live = v.live;
      pending = v.pending;
      proposal = (
        k.0,
        ground (arith, k.1),
        ground (arith, k.2, length-append s.voted_accounts (account ∷ [])),
        append-OneVoteEach s.voted_accounts account k.3 fresh,
      );
      durable_live = v.durable_live;
      durable_pending = v.durable_pending;
    }

pub vote_on-IsLawful :
    (s : State) (o : Option Proposal) (voter : Voter) (support : Value)
    → s.proposal ≡ o
    → IsLawful s
    → IsLawful (vote_on s o voter support).0
unfolding vote_on
vote_on-IsLawful s none voter support e v = v
vote_on-IsLawful s (some p) voter support e v =
    ground (arith, cast-IsLawful s p voter.account_id (truthy support) e, v)

pass-IsLawful :
    (s : State) (meta : Bool) (c : Count) (kind : Track)
    → CandidateLawful kind
    → IsLawful s
    → IsLawful (pass s meta c kind).0
unfolding pass
pass-IsLawful s meta c (track_a changes candidate) lawful v = record {
  live = v.live;
  pending = (lawful, refl);
  proposal = tt;
  durable_live = v.durable_live;
  durable_pending = refl;
}
pass-IsLawful s meta c (track_b item) lawful v = record {
  live = v.live;
  pending = v.pending;
  proposal = tt;
  durable_live = v.durable_live;
  durable_pending = v.durable_pending;
}

no_proposal-IsLawful : (s : State) → IsLawful s → IsLawful (record s { proposal = none })
no_proposal-IsLawful s v = record {
  live = v.live;
  pending = v.pending;
  proposal = tt;
  durable_live = v.durable_live;
  durable_pending = v.durable_pending;
}

pub close-IsLawful :
    (s : State) (o : Option Proposal) → s.proposal ≡ o → IsLawful s → IsLawful (close s o).0
unfolding close
close-IsLawful s none e v = v
close-IsLawful s (some p) e v =
    let k : ProposalLawful s.voted_accounts (some p) = rw e at v.proposal in
    let passed = pass-IsLawful s p.meta (count_of s p) p.kind k.0 v in
    let failed = no_proposal-IsLawful s v in
    elim (Bool-cases (ltb s.tick p.closes_at_tick)) [
      | inl still_open ↦ rw still_open v
      | inr over ↦ rw over (elim (Bool-cases (passes p.meta (count_of s p))) [
        | inl yes_ ↦ rw yes_ passed
        | inr no_ ↦ rw no_ failed
      ])
    ]
