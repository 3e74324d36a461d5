-- ===== src/Protocol/Calendar.antt =====
-- scripts/protocol-contract.mjs: `sixCalendarMonthsAfter`, with the UTC calendar of JavaScript's
-- `Date` for timestamps from 1970 on. `none` stands for an invalid date, whose value is NaN.
use aigent_place.Base.{
  ℕ, ◌+◌, ◌-◌, ◌*◌, ◌/◌, ◌%◌, min, ◌&&◌, ◌≡◌, refl, Option, none, some, if◌then◌else◌, leb, ltb,
}

abbrev pub ms_per_day : ℕ
ms_per_day = 86400000

-- The largest time value of a `Date`.
abbrev pub max_time : ℕ
max_time = 8640000000000000

-- A proleptic Gregorian date; `month` counts from 0, as in `getUTCMonth`.
pub record Date : Type 0 where
  pub year : ℕ
  pub month : ℕ
  pub day : ℕ

-- The date of a day, counted from 1970-01-01. Years are counted from March in eras of 400 years.
unfoldable pub date_of_day : ℕ → Date
date_of_day n =
    let z = n + 719468 in
    let doe = z % 146097 in
    let yoe = (doe - doe / 1460 + doe / 36524 - doe / 146096) / 365 in
    let doy = doe - (365 * yoe + yoe / 4 - yoe / 100) in
    let mp = (5 * doy + 2) / 153 in
    record {
      year = yoe + z / 146097 * 400 + (if ltb mp 10 then 0 else 1);
      month = (mp + 2) % 12;
      day = doy - (153 * mp + 2) / 5 + 1;
    }

-- The day of the first of a month; `month` may run past 11.
unfoldable pub first_of_month : ℕ → ℕ → ℕ
first_of_month year month =
    let m = month % 12 in
    let y = year + month / 12 - (if ltb m 2 then 1 else 0) in
    y / 400 * 146097
    + (y % 400 * 365 + y % 400 / 4 - y % 400 / 100)
    + (153 * ((m + 10) % 12) + 2) / 5
    - 719468

-- `new Date(Date.UTC(year, month + 1, 0)).getUTCDate()`
unfoldable pub last_day_of_month : ℕ → ℕ → ℕ
unfolding first_of_month date_of_day
last_day_of_month year month = (date_of_day (first_of_month year (month + 1) - 1)).day

unfoldable pub six_calendar_months_after : ℕ → Option ℕ
unfolding date_of_day first_of_month last_day_of_month
six_calendar_months_after timestamp =
    let date = date_of_day (timestamp / ms_per_day) in
    let month = date.month + 6 in
    let last_day = last_day_of_month date.year month in
    let first = first_of_month date.year month in
    if leb timestamp max_time && leb ((first + last_day - 1) * ms_per_day) max_time
    then some ((first + min date.day last_day - 1) * ms_per_day + timestamp % ms_per_day)
    else none

-- 2024-08-31 gives 2025-02-28, and 2023-12-31T23:59:59.999Z keeps its time of day on 2024-06-30.
six_months_clamped : six_calendar_months_after 1725062400000 ≡ some 1740700800000
unfolding six_calendar_months_after
six_months_clamped = refl

six_months_time_of_day : six_calendar_months_after 1704067199999 ≡ some 1719791999999
unfolding six_calendar_months_after
six_months_time_of_day = refl
