-- ===== src/Protocol/Compatibility.antt =====
-- scripts/protocol-contract.mjs: `compatibilityRecordValid` and the choice of a protocol major.
use aigent_place.Base.{
  ℕ, Bool, false, ◌&&◌, ◌||◌, Option, none, some, List, if◌then◌else◌, ltb, eqb,
}
use aigent_place.Base.Value.{Value, number, is_safe_integer, less_equal}
use aigent_place.Base.Lists.{any, filter, head?}
use aigent_place.Base.Sort.{sort_by}
use aigent_place.Protocol.State.{CompatibilityRecord}
use aigent_place.Protocol.Calendar.{six_calendar_months_after}

-- A comparison with NaN is false.
at_least_time : Value → Option ℕ → Bool
at_least_time v none = false
at_least_time v (some t) = less_equal (number t) v

unfoldable pub compatibility_record_valid : CompatibilityRecord → Bool
unfolding at_least_time
compatibility_record_valid r =
    if eqb r.deprecated_at_unix_ms 0
    then r.command_capable
    else is_safe_integer r.command_support_until_unix_ms
      && at_least_time r.command_support_until_unix_ms
          (six_calendar_months_after r.deprecated_at_unix_ms)

-- The filter of `commandMajor`.
unfoldable pub serves_commands : List ℕ → Value → CompatibilityRecord → Bool
serves_commands offered now r =
    any (eqb r.major) offered
    && r.command_capable
    && r.decoder
    && (eqb r.deprecated_at_unix_ms 0
        || is_safe_integer now && less_equal now r.command_support_until_unix_ms)

-- The filter of `retiredMajor`.
unfoldable pub serves_spectators : List ℕ → Value → CompatibilityRecord → Bool
serves_spectators offered now r =
    any (eqb r.major) offered
    && r.decoder
    && r.spectator_projection
    && ltb 0 r.deprecated_at_unix_ms
    && is_safe_integer now
    && less_equal r.command_support_until_unix_ms now

-- `.filter(p).sort((left, right) => right.major - left.major)[0]`
unfoldable pub highest_major :
    (CompatibilityRecord → Bool) → List CompatibilityRecord → Option CompatibilityRecord
highest_major p records =
    head? (sort_by (λ left right. ltb right.major left.major) (filter p records))
