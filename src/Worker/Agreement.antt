-- ===== src/Worker/Agreement.antt =====
-- The worker's own accounting beside that of the API.
use wassal.Prelude.{ℕ, ◌+◌, ◌-◌, ◌*◌, ◌/◌, ◌%◌, ◌≤◌, ◌≡◌, ◌≢◌, ◌↔◌, ◌⊎◌, sym, ◌∙◌, List, ◌∷◌, arith}
use wassal.Prelude.Int.{neg_part}
use wassal.Finance.Domain.{SettlementLineInput, settlement_projection}
use wassal.Finance.Accounts.{SettlementPeriod}
use wassal.Finance.Arithmetic.{balance, commission_line, settlement_projection-commission}
use wassal.Finance.Calendar.{
  day_ms, week_day, zoned_day, correct_candidate, zoned_date_time_to_utc, weekly_settlement_bounds,
}
use wassal.Worker.Complete.{cairo_offset_milliseconds, weekly_bounds, period_with}

-- For a period whose remaining amount is that of the projection of its lines, the worker's increment
-- by a commission gives what the projection with the commission gives exactly when the period is not
-- overpaid or the commission is 0.
pub period_with-projection :
    (s : SettlementPeriod) (amount : ℕ) (lines : List SettlementLineInput) (payments : ℕ)
    → s.remaining_amount_minor ≡ (settlement_projection lines payments).remaining_amount_minor
    → ((period_with amount s).remaining_amount_minor
        ≡ (settlement_projection (commission_line amount ∷ lines) payments).remaining_amount_minor)
      ↔ ((neg_part (balance (settlement_projection lines payments)) ≡ 0) ⊎ (amount ≡ 0))
period_with-projection s amount lines payments h =
    let (c, p, a, w, most, exact) = settlement_projection-commission amount lines payments in
    (λ same. exact.0 (sym same ∙ ground (arith, h)), λ fine. ground (arith, h, exact.1 fine))

-- Cairo in summer: three hours ahead.
abbrev pub cairo_summer : ℕ → ℕ
cairo_summer t = t + cairo_offset_milliseconds

cairo_midnight :
    (target : ℕ)
    → cairo_offset_milliseconds ≤ target
    → zoned_date_time_to_utc cairo_summer target ≡ target - cairo_offset_milliseconds
unfolding zoned_date_time_to_utc correct_candidate
cairo_midnight target h = ground (arith, h)

-- With Cairo three hours ahead, the settlement week of an instant at least eight days after 1970 begins
-- at another instant for the API than for the worker.
pub weeks_differ :
    (now grace_days : ℕ)
    → 8 * day_ms ≤ now
    → (weekly_settlement_bounds cairo_summer now grace_days).period_start
      ≢ (weekly_bounds now grace_days).period_start
unfolding weekly_settlement_bounds weekly_bounds zoned_day week_day
weeks_differ now grace_days h e =
    let local = now + cairo_offset_milliseconds in
    let day = local / day_ms in
    let monday = day * day_ms - ((day * day_ms / day_ms + 4) % 7 + 6) % 7 * day_ms in
    let late : cairo_offset_milliseconds ≤ monday = omega arith in
    let start = cairo_midnight monday late in absurd (omega (arith, e, start, h))
