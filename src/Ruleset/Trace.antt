-- ===== src/Ruleset/Trace.antt =====
-- scripts/ruleset-contract.mjs: the events of the trace. Of an event whose other fields are
-- constants, the constructor has the fields that vary.
use aigent_place.Base.{ℕ, String, Bool, Option, List}
use aigent_place.Base.Value.{Value}
use aigent_place.Ruleset.Setting.{Setting}
use aigent_place.Ruleset.Catalog.{Migration}
use aigent_place.Ruleset.Constitution.{Rejection}
use aigent_place.Ruleset.State.{Item, ItemId}

pub data VoteRejection : Type 0 where
  no_proposal ineligible_voter missing_account_id duplicate_vote : VoteRejection

pub record Move : Type 0 where
  pub path : String
  pub migration : Migration
  pub from : Setting
  pub to : Setting

-- `turnout` and `approval` are fractions, `quorum` and `threshold` parameters.
pub record Count : Type 0 where
  pub turnout : Setting
  pub approval : Setting
  pub quorum : Setting
  pub threshold : Setting

-- Costs are in units of 2 ^ -64.
pub data Event : Type 0 where
  proposal_empty : Event
  proposal_rejected : Rejection → Event
  proposal_accepted :
      (meta : Bool) (cost ceiling : ℕ) (paths : List String) (closes_at_tick : ℕ) → Event
  capability_proposed : ItemId → (closes_at_tick : ℕ) → Event
  vote_rejected : VoteRejection → Event
  vote_cast : (support : Bool) (account_id : Value) (ballots : ℕ) → Event
  nothing_to_close : Event
  vote_still_open : (closes_at_tick tick : ℕ) → Event
  vote_failed : (is_track_b : Bool) → Count → Event
  capability_passed : Item → (live_generation_id : ℕ) (pending_generation_id : Option ℕ) → Event
  ruleset_passed : Count → (pending_generation_id activate_at_tick : ℕ) → Event
  soak_ignored : Event
  ruleset_activated : (generation_id tick : ℕ) → List Move → Event
  ruleset_rolled_back : (pending_generation_id live_generation_id tick : ℕ) → Event
  crash_recovered : (live_generation_id : ℕ) (pending_generation_id : Option ℕ) → Event
  inspected :
      (live_generation_id : ℕ) (pending_generation_id : Option ℕ) (lease_ttl_ms : Setting)
      (backlog_len : ℕ)
      → Event
