-- ===== src/Protocol/Snapshot/Baselines.antt =====
-- Snapshot baselines of scripts/protocol-contract.mjs.
use aigent_place.Base.{◌≡◌, refl, true, false, not, List, [], ◌∷◌, ◌⊎◌, ◌≢◌, arith}
use aigent_place.Base.Value.{Value, strict_equal, strict_equal_iff, value_key}
use aigent_place.Base.Lists.{any, filter}
use aigent_place.Protocol.State.{State, SnapshotStatus}
use aigent_place.Protocol.Output.{delta_delivered}
use aigent_place.Protocol.Snapshot.{deliver_delta, expire_baseline, snapshot_resync, is_retained}

pub any-filter_out :
    (b : Value) (bs : List Value)
    → any (λ r. strict_equal r b) (filter (λ r. not (strict_equal r b)) bs) ≡ false
unfolding any filter
any-filter_out b [] = refl
any-filter_out b (r ∷ bs) = ground (arith, any-filter_out b bs)

-- A delta against the current baseline, while it is retained, is delivered and changes nothing; any
-- other delta leaves the snapshot in need of a resynchronization, with its baselines as they were.
pub deliver_delta_lem :
    (s : State) (baseline : Value)
    → ((s.snapshot.baseline_id ≡ baseline)
        × (is_retained s baseline ≡ true)
        × (deliver_delta s baseline ≡ (s, delta_delivered baseline ∷ [])))
      ⊎ (((s.snapshot.baseline_id ≢ baseline) ⊎ (is_retained s baseline ≡ false))
          × ((deliver_delta s baseline).0 ≡ record s {
            snapshot = record (s.snapshot) { status = SnapshotStatus.snapshot_resync_required };
          }))
unfolding deliver_delta
deliver_delta_lem s baseline = ground (arith, strict_equal_iff s.snapshot.baseline_id baseline)

-- After a resynchronization deltas against the new baseline are delivered, until it expires; from
-- then on every delta against it asks for another resynchronization.
pub snapshot_resync_lem :
    (s : State) (baseline : Value)
    → let fresh = (snapshot_resync s baseline).0 in
      let expired = (expire_baseline fresh baseline).0 in
      ((deliver_delta fresh baseline).1 ≡ delta_delivered baseline ∷ [])
      × ((deliver_delta expired baseline).0.snapshot.status
          ≡ SnapshotStatus.snapshot_resync_required)
unfolding deliver_delta snapshot_resync expire_baseline is_retained any filter
snapshot_resync_lem s baseline = ground (arith, strict_equal_iff baseline baseline)

-- Whatever the state, an expired baseline takes no more deltas.
pub expire_baseline_lem :
    (s : State) (baseline : Value)
    → (deliver_delta (expire_baseline s baseline).0 baseline).0.snapshot.status
      ≡ SnapshotStatus.snapshot_resync_required
unfolding deliver_delta expire_baseline is_retained
expire_baseline_lem s baseline =
    ground (arith, any-filter_out baseline s.snapshot.retained_baselines)
