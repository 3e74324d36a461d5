-- ===== src/Ruleset/Voting.antt =====
-- scripts/ruleset-contract.mjs: the "propose", "propose_track_b", "vote" and "close_vote" steps.
use aigent_place.Base.{
  ℕ, ◌+◌, String, Bool, true, false, not, ◌&&◌, Option, none, some, List, [], ◌∷◌, ◌++◌,
  if◌then◌else◌, ltb, string_key,
}
use aigent_place.Base.Lists.{length, any}
use aigent_place.Base.Value.{Value, truthy, strict_equal}
use aigent_place.Base.Sort.{sort_by}
use aigent_place.Protocol.Features.{before_code_units}
use aigent_place.Ruleset.Setting.{Setting, number, integer, less, is_finite, whole}
use aigent_place.Ruleset.Catalog.{Entry, spec, inherited, nothing, entry_of}
use aigent_place.Ruleset.Constitution.{
  Parameters, Rejection, merge, keys, value_of, validate_candidate, envelope_cost,
  constitution_cost_ceiling,
}
use aigent_place.Ruleset.State.{
  Pending, Item, ItemId, given, numbered, Track, track_a, track_b, Proposal, State,
}
use aigent_place.Ruleset.Trace
use aigent_place.Ruleset.Trace.{
  Event, Count, no_proposal, ineligible_voter, missing_account_id, duplicate_vote,
}

abbrev pub voter_min_account_age_days : ℕ
voter_min_account_age_days = 7

-- `PARAMETER_CATALOG[path]?.meta`
unfoldable pub is_meta : Entry → Bool
is_meta (spec s) = s.meta
is_meta inherited = false
is_meta nothing = false

unfoldable pub touches_meta : Parameters → Bool
unfolding is_meta any
touches_meta changes = any (λ path. is_meta (entry_of path)) (keys changes)

-- `metaparameter ? live[meta_path] : live[path]`
unfoldable pub governance : State → Bool → String → String → Setting
governance s meta meta_path path = value_of s.live.parameters (if meta then meta_path else path)

unfoldable pub open_proposal : State → Track → Bool → ℕ → ℕ → State
open_proposal s kind meta eligible_voters duration = record s {
  proposal = some (record {
    kind = kind;
    meta = meta;
    votes_for = 0;
    votes_against = 0;
    ballots = 0;
    eligible_snapshot = eligible_voters;
    opened_at_tick = s.tick;
    closes_at_tick = s.tick + duration;
  });
  voted_accounts = [];
}

unfoldable pub propose_checked :
    State → Parameters → Parameters → ℕ → Option Rejection → State × List Event
propose_checked s changes candidate eligible_voters (some rejection) =
    (s, Trace.proposal_rejected rejection ∷ [])
propose_checked s changes candidate eligible_voters none =
    let meta = touches_meta changes in
    let duration =
      whole (
        governance s meta "governance.meta_vote_duration_ticks" "governance.vote_duration_ticks") in
    (
      open_proposal s (track_a changes candidate) meta eligible_voters duration,
      Trace.proposal_accepted meta (envelope_cost candidate) constitution_cost_ceiling
            (sort_by before_code_units (keys changes)) (s.tick + duration)
          ∷ [],
    )

-- The paths of `changes` stand in the order of `Object.keys`.
unfoldable pub propose : State → Parameters → ℕ → State × List Event
propose s [] eligible_voters = (s, Trace.proposal_empty ∷ [])
propose s (change ∷ changes) eligible_voters =
    let candidate = merge s.live.parameters (change ∷ changes) in
    propose_checked s (change ∷ changes) candidate eligible_voters
      (validate_candidate candidate (keys (change ∷ changes)))

unfoldable pub title_or : Option String → String
title_or none = "capability"
title_or (some title) = title

unfoldable pub id_or : Option String → ℕ → ItemId
id_or none n = numbered n
id_or (some id) n = given id

unfoldable pub propose_track_b : State → Option String → Option String → ℕ → State × List Event
unfolding title_or id_or
propose_track_b s title id eligible_voters =
    let duration = whole (value_of s.live.parameters "governance.vote_duration_ticks") in
    let item : Item = record {
      id = id_or id (length s.track_b_backlog + 1);
      title = title_or title;
    } in
    (
      open_proposal s (track_b item) false eligible_voters duration,
      Trace.capability_proposed item.id (s.tick + duration) ∷ [],
    )

pub record Voter : Type 0 where
  pub account_age_days : Setting
  pub has_command_handshake : Value
  pub account_id : Value

unfoldable pub is_eligible_voter : Voter → Bool
is_eligible_voter voter =
    is_finite voter.account_age_days
    && not (less voter.account_age_days (integer voter_min_account_age_days))
    && truthy voter.has_command_handshake

-- `state.voted_accounts.includes(account)`
unfoldable pub has_voted : Value → List Value → Bool
unfolding any
has_voted account accounts = any (strict_equal account) accounts

unfoldable pub cast : State → Proposal → Value → Bool → State × List Event
cast s p account support = (
  record s {
    voted_accounts = s.voted_accounts ++ account ∷ [];
    proposal = some (record p {
      ballots = p.ballots + 1;
      votes_for = if support then p.votes_for + 1 else p.votes_for;
      votes_against = if support then p.votes_against else p.votes_against + 1;
    });
  },
  Trace.vote_cast support account (p.ballots + 1) ∷ [],
)

unfoldable pub vote_on : State → Option Proposal → Voter → Value → State × List Event
vote_on s none voter support = (s, Trace.vote_rejected no_proposal ∷ [])
vote_on s (some p) voter support =
    if not (is_eligible_voter voter)
    then (s, Trace.vote_rejected ineligible_voter ∷ [])
    else if not (truthy voter.account_id)
    then (s, Trace.vote_rejected missing_account_id ∷ [])
    else if has_voted voter.account_id s.voted_accounts
    then (s, Trace.vote_rejected duplicate_vote ∷ [])
    else cast s p voter.account_id (truthy support)

unfoldable pub vote : State → Voter → Value → State × List Event
vote s voter support = vote_on s s.proposal voter support

-- `whole > 0 ? part / whole : 0`
unfoldable pub ratio : ℕ → ℕ → Setting
ratio part total = if ltb 0 total then number false part total else integer 0

unfoldable pub count_of : State → Proposal → Count
count_of s p = record {
  turnout = ratio p.ballots p.eligible_snapshot;
  approval = ratio p.votes_for p.ballots;
  quorum = governance s p.meta "governance.meta_quorum_ratio" "governance.quorum_ratio";
  threshold = governance s p.meta "governance.meta_pass_threshold" "governance.pass_threshold";
}

unfoldable pub passes : Bool → Count → Bool
passes meta c =
    not (less c.turnout c.quorum)
    && (if meta then not (less c.approval c.threshold) else less c.threshold c.approval)

unfoldable pub id_of : Option Pending → Option ℕ
id_of none = none
id_of (some pending) = some pending.generation_id

unfoldable pub is_track_b : Track → Bool
is_track_b (track_a changes candidate) = false
is_track_b (track_b item) = true

-- The proposal passed.
unfoldable pub pass : State → Bool → Count → Track → State × List Event
unfolding id_of
pass s meta c (track_b item) = (
  record s { track_b_backlog = s.track_b_backlog ++ item ∷ []; proposal = none },
  Trace.capability_passed item s.live.generation_id (id_of s.pending) ∷ [],
)
pass s meta c (track_a changes candidate) =
    let soak_delay =
      whole (governance s meta "governance.meta_soak_delay_ticks" "governance.soak_delay_ticks") in
    let pending : Pending = record {
      generation_id = s.live.generation_id + 1;
      parameters = candidate;
      activate_at_tick = s.tick + soak_delay;
      meta = meta;
      changes = changes;
    } in
    (
      record s {
        pending = some pending;
        durable = record (s.durable) { pending = some pending };
        soak_overruns = [];
        soak_commands = 0;
        soak_errors = 0;
        proposal = none;
      },
      Trace.ruleset_passed c (s.live.generation_id + 1) (s.tick + soak_delay) ∷ [],
    )

unfoldable pub close : State → Option Proposal → State × List Event
unfolding is_track_b
close s none = (s, Trace.nothing_to_close ∷ [])
close s (some p) =
    if ltb s.tick p.closes_at_tick
    then (s, Trace.vote_still_open p.closes_at_tick s.tick ∷ [])
    else if passes p.meta (count_of s p)
    then pass s p.meta (count_of s p) p.kind
    else (record s { proposal = none }, Trace.vote_failed (is_track_b p.kind) (count_of s p) ∷ [])

unfoldable pub close_vote : State → State × List Event
close_vote s = close s s.proposal
