-- ===== src/Finance/Calendar.antt =====
-- Weeks and days in the operations' time zone: `zonedDateTimeToUtc`, `weeklySettlementBounds` and
-- `daysRemaining` of apps/api/src/finance/finance-domain.ts. Instants are milliseconds after 1970,
-- and a civil date or time is the number that `Date.UTC` makes of it.
use wassal.Prelude.{ℕ, zero, suc, ◌+◌, ◌-◌, ◌*◌, ◌/◌, ◌%◌, leb, ◌==◌, if◌then◌else◌}
use wassal.Prelude.Int.{ℤ, pos, ◌-ℤ◌}

abbrev pub day_ms : ℕ
day_ms = 86400000

pub record Bounds : Type 0 where
  pub period_start : ℕ
  pub period_end : ℕ
  pub due_at : ℕ

-- `getUTCDay()` of a civil date: 1970-01-01 was a Thursday, day 4.
unfoldable pub week_day : ℕ → ℕ
week_day date = (date / day_ms + 4) % 7

-- `localDate`, for an offset forwards.
unfoldable pub local_date : ℕ → ℕ → ℕ
local_date date day_offset = date + day_offset * day_ms

-- The time zone is the platform's `Intl.DateTimeFormat`: `shown t` is `Date.UTC` of the parts that
-- `zonedParts` reads off it at `t`.
module _ (shown : ℕ → ℕ) where
  -- `Date.UTC` of the year, month and day alone.
  unfoldable pub zoned_day : ℕ → ℕ
  zoned_day t = shown t / day_ms * day_ms

  -- The loop of `zonedDateTimeToUtc`, with the attempts that are left.
  unfoldable pub correct_candidate : ℕ → ℕ → ℕ → ℕ
  correct_candidate zero target candidate = candidate
  correct_candidate (suc attempts) target candidate =
      let rest = correct_candidate attempts target (candidate + target - shown candidate) in
      if shown candidate == target then candidate else rest

  unfoldable pub zoned_date_time_to_utc : ℕ → ℕ
  unfolding correct_candidate
  zoned_date_time_to_utc target = correct_candidate 4 target target

  unfoldable pub weekly_settlement_bounds : ℕ → ℕ → Bounds
  unfolding zoned_day week_day local_date
  weekly_settlement_bounds occurred_at grace_period_days =
      let local = zoned_day occurred_at in
      let days_since_monday = (week_day local + 6) % 7 in
      let start_date = local - days_since_monday * day_ms in
      let end_date = local_date start_date 7 in
      let due_date = local_date end_date grace_period_days in
      record {
        period_start = zoned_date_time_to_utc start_date;
        period_end = zoned_date_time_to_utc end_date;
        due_at = zoned_date_time_to_utc due_date;
      }

  -- `Math.trunc` of the difference in days.
  unfoldable pub days_remaining : ℕ → ℕ → ℤ
  unfolding zoned_day
  days_remaining due_at now =
      if leb (zoned_day now) (zoned_day due_at)
      then pos ((zoned_day due_at - zoned_day now) / day_ms)
      else pos 0 -ℤ pos ((zoned_day now - zoned_day due_at) / day_ms)
