-- ===== src/Replay/Validation.antt =====
-- scripts/replay-contract.mjs: `validateStream`, the check of a stream that comes from a checkpoint.
use aigent_place.Base.{
  ℕ, ◌+◌, ◌-◌, Bool, true, false, not, Option, none, some, List, [], ◌∷◌, ◌++◌, ◌&&◌, ◌||◌,
  if◌then◌else◌, ltb, leb, eqb,
}
use aigent_place.Base.Lists.{length, filter, any}
use aigent_place.Base.Sort.{sort_by}
use aigent_place.Replay.U64.{max_u64}
use aigent_place.Replay.Stream.{Event, Evicted, Stream, greatest_sent}

pub data StreamFault : Type 0 where
  invalid_cursor invalid_event_sequence invalid_acknowledged non_contiguous : StreamFault

-- `isU64`, for the text of a number
unfoldable pub is_cursor : Bool → ℕ → Bool
is_cursor nonzero n = leb n max_u64 && (not nonzero || not (eqb n 0))

unfoldable pub is_next : Option ℕ → Bool
unfolding is_cursor
is_next none = true
is_next (some next) = is_cursor true next

unfoldable pub cursors_valid : Stream → Bool
unfolding is_cursor is_next
cursors_valid t =
    is_cursor true t.epoch && is_next t.next_sequence && is_cursor false t.acknowledged

-- `seen.has(sequence)`
unfoldable pub is_seen : ℕ → List ℕ → Bool
is_seen sequence seen = any (λ n. eqb n sequence) seen

-- The loops over the events and the evicted ones, with what was seen before; `none` where they throw.
unfoldable pub check_events : ℕ → List ℕ → List Event → Option (List ℕ)
unfolding is_cursor is_seen
check_events epoch seen [] = some seen
check_events epoch seen (e ∷ es) =
    let rest = check_events epoch (seen ++ e.sequence ∷ []) es in
    if is_cursor true e.sequence && eqb e.stream_epoch epoch && not (is_seen e.sequence seen)
    then rest
    else none

unfoldable pub check_evicted : List ℕ → List Evicted → Option (List ℕ)
unfolding is_cursor is_seen
check_evicted seen [] = some seen
check_evicted seen (e ∷ es) =
    let rest = check_evicted (seen ++ e.sequence ∷ []) es in
    if is_cursor true e.sequence && not (is_seen e.sequence seen) then rest else none

-- Each sequence is the one after the last.
unfoldable pub follows : ℕ → List ℕ → Bool
follows before [] = true
follows before (sequence ∷ rest) = eqb sequence (before + 1) && follows (before + 1) rest

unfoldable pub visible_after : ℕ → List ℕ → List ℕ
visible_after acknowledged seen = sort_by ltb (filter (λ n. ltb acknowledged n) seen)

unfoldable pub check_visible : ℕ → ℕ → List ℕ → Option StreamFault
unfolding follows
check_visible sent acknowledged visible =
    if eqb (length visible) (sent - acknowledged) && follows acknowledged visible
    then none
    else some non_contiguous

unfoldable pub check_history : Stream → Option (List ℕ) → Option StreamFault
unfolding visible_after check_visible
check_history t none = some invalid_event_sequence
check_history t (some seen) =
    if ltb (greatest_sent t) t.acknowledged
    then some invalid_acknowledged
    else check_visible (greatest_sent t) t.acknowledged (visible_after t.acknowledged seen)

unfoldable pub seen_in : Stream → Option (List ℕ) → Option (List ℕ)
unfolding check_evicted
seen_in t none = none
seen_in t (some seen) = check_evicted seen t.evicted

-- The error that `validateStream` throws, if there is one.
unfoldable pub validate_stream : Stream → Option StreamFault
unfolding cursors_valid check_events seen_in check_history
validate_stream t =
    if cursors_valid t
    then check_history t (seen_in t (check_events t.epoch [] t.events))
    else some invalid_cursor
