-- ===== src/Workload/Trace.antt =====
-- scripts/workload-contract.mjs: the events of the trace. Of an event whose other fields are
-- constants, the constructor has the fields that vary.
use aigent_place.Base.{ℕ, Bool, Option, List}
use aigent_place.Base.Value.{Value}
use aigent_place.Workload.Policy.{Policy}
use aigent_place.Workload.Windows.{Windows}
use aigent_place.Workload.Cadence.{Capacity, Delivery}

pub data Action : Type 0 where
  hold advance retreat : Action

pub data Event : Type 0 where
  degradation_evaluated : Action → (at_bound : Bool) → Windows → (before after : Policy) → Event
  viewer_refused : (viewers : ℕ) → Event
  viewer_admitted : (viewers : ℕ) → Capacity → Event
  aigent_admitted : (aigents : ℕ) → Capacity → Event
  viewer_capacity :
      (sustain_ticks : ℕ) (sustained pass_window_healthy refuse_new_viewers passed : Bool)
      → Capacity
      → Event
  aigent_capacity :
      (sustain_ticks : ℕ) (sustained pass_window_healthy passed : Bool) → Capacity → Event
  aoi_truncated : (role : Value) (cap : ℕ) (kept_ids : List ℕ) → Event
  effective_percept : (configured_hz : Value) (floor_hz : Option ℕ) (effective_hz : ℕ) → Event
  cadence_assessment : (role : Value) → Delivery → Event
  queue_ignored : Event
  queue_observation :
      (bytes : ℕ) (over_limit : Bool) (over_limit_ticks : ℕ) (coalesced disconnected : Bool) → Event
  policy : Policy → Event
