-- ===== src/Ruleset/State.antt =====
-- scripts/ruleset-contract.mjs: `normalizedState`. The counters are natural numbers.
use aigent_place.Base.{ℕ, String, Bool, Option, none, some, List}
use aigent_place.Base.Value.{Value}
use aigent_place.Base.Outcome.{Outcome, ok, thrown, invalid_argument}
use aigent_place.Ruleset.Constitution.{
  Parameters, Rejection, merge, keys, default_parameters, validate_candidate,
}

pub record Generation : Type 0 where
  pub generation_id : ℕ
  pub activated_tick : ℕ
  pub parameters : Parameters

pub record Pending : Type 0 where
  pub generation_id : ℕ
  pub parameters : Parameters
  pub activate_at_tick : ℕ
  pub meta : Bool
  pub changes : Parameters

-- The id of a backlog item: the given one, or `b-n`.
pub data ItemId : Type 0 where
  given : String → ItemId
  numbered : ℕ → ItemId

pub record Item : Type 0 where
  pub id : ItemId
  pub title : String

-- The `kind` of a proposal, with the fields that only this kind has.
pub data Track : Type 0 where
  track_a : (changes candidate : Parameters) → Track
  track_b : Item → Track

pub record Proposal : Type 0 where
  pub kind : Track
  pub meta : Bool
  pub votes_for : ℕ
  pub votes_against : ℕ
  pub ballots : ℕ
  pub eligible_snapshot : ℕ
  pub opened_at_tick : ℕ
  pub closes_at_tick : ℕ

pub record Durable : Type 0 where
  pub live_generation_id : ℕ
  pub pending : Option Pending

pub record State : Type 0 where
  pub tick : ℕ
  pub live : Generation
  pub pending : Option Pending
  pub proposal : Option Proposal
  pub voted_accounts : List Value
  pub track_b_backlog : List Item
  pub soak_overruns : List ℕ
  pub soak_commands : ℕ
  pub soak_errors : ℕ
  pub durable : Durable

-- The argument `initial`; its `live` parameters are laid over the defaults, and fields that are
-- absent have the values that the code gives them.
pub record Initial : Type 0 where
  pub live : Parameters
  pub live_generation_id : ℕ
  pub activated_tick : ℕ
  pub tick : ℕ
  pub pending : Option Pending
  pub proposal : Option Proposal
  pub voted_accounts : List Value
  pub track_b_backlog : List Item
  pub soak_overruns : List ℕ
  pub soak_commands : ℕ
  pub soak_errors : ℕ
  pub durable : Option Durable

-- `initial.durable ?? { … }`
unfoldable pub durable_or : Option Durable → ℕ → Option Pending → Durable
durable_or (some durable) live_generation_id pending = durable
durable_or none live_generation_id pending = record {
  live_generation_id = live_generation_id;
  pending = pending;
}

unfoldable pub state_of : Initial → Parameters → State
unfolding durable_or
state_of initial live = record {
  tick = initial.tick;
  live = record {
    generation_id = initial.live_generation_id;
    activated_tick = initial.activated_tick;
    parameters = live;
  };
  pending = initial.pending;
  proposal = initial.proposal;
  voted_accounts = initial.voted_accounts;
  track_b_backlog = initial.track_b_backlog;
  soak_overruns = initial.soak_overruns;
  soak_commands = initial.soak_commands;
  soak_errors = initial.soak_errors;
  durable = durable_or initial.durable initial.live_generation_id initial.pending;
}

unfoldable pub unless_rejected : Option Rejection → State → Outcome State
unless_rejected none s = ok s
unless_rejected (some rejection) s = thrown invalid_argument

unfoldable pub normalized_state : Initial → Outcome State
unfolding unless_rejected
normalized_state initial =
    let live = merge default_parameters initial.live in
    unless_rejected (validate_candidate live (keys live)) (state_of initial live)
