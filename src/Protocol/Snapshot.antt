-- ===== src/Protocol/Snapshot.antt =====
-- scripts/protocol-contract.mjs: the "deliver_delta", "expire_baseline" and "snapshot_resync" steps
-- of `transition`.
pub mod Baselines
pub mod Expiry
use aigent_place.Base.{Bool, true, false, ◌||◌, not, List, [], ◌∷◌, if◌then◌else◌}
use aigent_place.Base.Value.{Value, undefined, null, strict_equal}
use aigent_place.Base.Lists.{any, filter}
use aigent_place.Protocol.State.{State, SnapshotStatus, snapshot_resync_required}
use aigent_place.Protocol.Output.{
  Output, BaselineFault, baseline_missing, baseline_mismatched, delta_delivered, full_snapshot,
}

-- `v == null`
unfoldable pub is_nullish : Value → Bool
is_nullish undefined = true
is_nullish null = true
is_nullish _ = false

unfoldable pub baseline_fault : State → Value → BaselineFault
unfolding is_nullish
baseline_fault s baseline_id =
    if is_nullish baseline_id
    then baseline_missing
    else if not (strict_equal s.snapshot.baseline_id baseline_id)
    then baseline_mismatched
    else BaselineFault.baseline_expired

unfoldable pub is_retained : State → Value → Bool
is_retained s baseline_id =
    any (λ retained. strict_equal retained baseline_id) s.snapshot.retained_baselines

unfoldable pub deliver_delta : State → Value → State × List Output
deliver_delta s baseline_id =
    if not (strict_equal s.snapshot.baseline_id baseline_id) || not (is_retained s baseline_id)
    then (
      record s { snapshot = record (s.snapshot) { status = snapshot_resync_required } },
      Output.snapshot_resync_required (baseline_fault s baseline_id) baseline_id ∷ [],
    )
    else (s, delta_delivered baseline_id ∷ [])

unfoldable pub expire_baseline : State → Value → State × List Output
expire_baseline s baseline_id = (
  record s {
    snapshot = record (s.snapshot) {
      retained_baselines =
          filter (λ baseline. not (strict_equal baseline baseline_id))
            s.snapshot.retained_baselines;
    };
  },
  Output.baseline_expired baseline_id ∷ [],
)

unfoldable pub snapshot_resync : State → Value → State × List Output
snapshot_resync s new_baseline_id = (
  record s {
    snapshot = record {
      baseline_id = new_baseline_id;
      retained_baselines = new_baseline_id ∷ [];
      status = SnapshotStatus.live;
    };
  },
  full_snapshot new_baseline_id ∷ [],
)
