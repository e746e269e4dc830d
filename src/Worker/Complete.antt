-- ===== src/Worker/Complete.antt =====
-- Deliveries that nobody has disputed in time: `completeDeliveredOrders` and `weeklyBounds` of
-- apps/worker/src/phase-four-jobs.ts.
use wassal.Prelude.{
  ℕ, suc, ◌+◌, ◌-◌, ◌*◌, ◌/◌, ◌%◌, Bool, ◌&&◌, Option, none, some, [], ◌∷◌, ◌++◌, not, ◌is◌,
  is_some, ◌==◌, List, if◌then◌else◌,
}
use wassal.Prelude.Int.{pos, pos_part, ◌+ℤ◌, ◌-ℤ◌, leb_ℤ}
use wassal.Orders.Status.{order_status_enum, delivered}
use wassal.Operations.Domain.{has_passed}
use wassal.Store.{
  DeliveryOrder, Database, dispute_window_expired, DeduplicationKey, worker,
  order_completed_after_dispute_window,
}
use wassal.Store.Table.{get, update, matches}
use wassal.Finance.Calendar.{Bounds, day_ms, week_day}
use wassal.Finance.Accounts.{
  Accounts, LedgerEntry, SettlementLine, SettlementPeriod, order_commission,
}
use wassal.Finance.Settlement.{has_source_key, find_period, new_period}
use wassal.Orders.Finalization.{finalized, awaits_finalization, completed_event, commission_entry}
use wassal.Service.Transaction.{
  Result, ok, err, ◌>>=◌, ◌>>◌, require, found, duplicate_commission, setting_missing,
  settlement_check_violated,
}
use wassal.Service.Writes.{audit, notify_all}
use wassal.Service.Queries.{merchant_recipients, courier_user, current_setting}
use wassal.Operations.Disputes.{has_dispute}

abbrev pub cairo_offset_milliseconds : ℕ
cairo_offset_milliseconds = 3 * 60 * 60 * 1000

unfoldable pub weekly_bounds : ℕ → ℕ → Bounds
unfolding week_day
weekly_bounds now grace_days =
    let cairo = now + cairo_offset_milliseconds in
    let days_since_saturday = (week_day cairo + 1) % 7 in
    let start_cairo = (cairo / day_ms - days_since_saturday) * day_ms in
    let period_start = start_cairo - cairo_offset_milliseconds in
    let period_end = period_start + 7 * day_ms in
    record {
      period_start = period_start;
      period_end = period_end;
      due_at = period_end + grace_days * day_ms;
    }

-- The `update` of the upsert: the totals grow by the entry.
abbrev pub period_with : ℕ → SettlementPeriod → SettlementPeriod
period_with amount s = record s {
  total_commission_due_minor = s.total_commission_due_minor +ℤ pos amount;
  remaining_amount_minor = s.remaining_amount_minor + amount;
  version = s.version + 1;
}

-- The `create` of the upsert.
abbrev pub period_from : ℕ → Bounds → ℕ → SettlementPeriod
period_from courier_id bounds amount = record (new_period courier_id bounds) {
  total_commission_due_minor = pos amount;
  remaining_amount_minor = amount;
}

-- `settlementLine.create`.
abbrev pub line_of : LedgerEntry → ℕ → ℕ → SettlementLine
line_of entry entry_id settlement_id = record {
  settlement_period_id = settlement_id;
  ledger_entry_id = entry_id;
  amount_minor = entry.amount_minor;
}

-- `SettlementPeriod_projection_check` of infrastructure/database/prisma/migrations, which the database
-- makes of every row that is written. The totals that are numbers are not below 0, and the currency and the
-- version always pass.
unfoldable pub passes_projection_check : SettlementPeriod → Bool
passes_projection_check s =
    leb_ℤ (pos 0) s.total_commission_due_minor
    && s.remaining_amount_minor
      == pos_part (
          s.total_commission_due_minor
          +ℤ s.total_adjustments_minor
          -ℤ pos s.total_waived_minor
          -ℤ pos s.total_payments_minor)

-- The ledger entry, the upsert of the period, which the database checks, and its line.
unfoldable pub post_worker_commission :
    LedgerEntry → ℕ → Bounds → ℕ → ℕ → Accounts → Result Accounts
unfolding find_period matches passes_projection_check
post_worker_commission entry amount bounds entry_id new_settlement_id a =
    elim (find_period entry.courier_id bounds a.settlements) [
      | some id ↦ do
        require (matches id (λ s. passes_projection_check (period_with amount s)) a.settlements)
            settlement_check_violated
        ok (record a {
          ledger = (entry_id, entry) ∷ a.ledger;
          settlements = update id (period_with amount) a.settlements;
          lines = line_of entry entry_id id ∷ a.lines;
        })
      | none ↦ do
        require (passes_projection_check (period_from entry.courier_id bounds amount))
            settlement_check_violated
        ok (record a {
          ledger = (entry_id, entry) ∷ a.ledger;
          settlements =
              (new_settlement_id, period_from entry.courier_id bounds amount) ∷ a.settlements;
          lines = line_of entry entry_id new_settlement_id ∷ a.lines;
        })
    ]

-- The check of the row after it is locked, but for the dispute and the courier.
abbrev pub is_due : ℕ → DeliveryOrder → Bool
is_due now order =
    order.status is delivered
    && not (is_some order.financial_finalized_at)
    && has_passed order.delivery_dispute_deadline_at now

-- The writes for an order that is due, for its courier and the courier's user.
unfoldable pub complete_delivered :
    ℕ → DeliveryOrder → ℕ → ℕ → ℕ → ℕ → ℕ → Database → Result Database
unfolding post_worker_commission weekly_bounds
complete_delivered order_id order courier_id user_id entry_id settlement_id now db = do
  require (not (has_source_key (order_commission order_id) db.accounts.ledger)) duplicate_commission
  setting ← found (current_setting now none db.financial_settings) setting_missing
  accounts ←
      post_worker_commission
        (commission_entry courier_id order_id order.platform_commission_minor none now)
        order.platform_commission_minor (weekly_bounds now setting.value.grace_period_days) entry_id
        settlement_id db.accounts
  ok (record db {
    orders = update order_id (finalized dispute_window_expired now) db.orders;
    events = completed_event order_id delivered none none worker ∷ db.events;
    accounts = accounts;
    completed_orders_count = update courier_id suc db.completed_orders_count;
    notifications =
        notify_all (DeduplicationKey.order_completed order_id)
          (merchant_recipients order.merchant_id db ++ user_id ∷ []) db.notifications;
    audits = audit none order_completed_after_dispute_window order_id ∷ db.audits;
  })

-- What the transaction returns for one candidate: `ok none` where it returns false.
unfoldable pub complete_one : ℕ → ℕ → ℕ → ℕ → Database → Result (Option Database)
unfolding matches
complete_one order_id entry_id settlement_id now db = elim (get order_id db.orders) [
  | none ↦ ok none
  | some order ↦
      if is_due now order
        && not (has_dispute order_id db.disputes)
        && matches order_id (awaits_finalization order) db.orders
      then elim order.courier_id [
        | none ↦ ok none
        | some courier_id ↦ elim (courier_user courier_id db.couriers) [
          | none ↦ ok none
          | some user_id ↦ do
            db' ← complete_delivered order_id order courier_id user_id entry_id settlement_id now db
            ok (some db')
        ]
      ]
      else ok none
]

-- The loop over the candidates, each with the ids of the rows that its transaction may create: the count
-- so far, and the database after it. What a transaction throws ends the loop; those before it stay.
unfoldable pub complete_all : ℕ → List (ℕ × ℕ × ℕ) → ℕ → Database → Result ℕ × Database
complete_all now [] count db = (ok count, db)
complete_all now ((order_id, entry_id, settlement_id) ∷ candidates) count db =
    elim (complete_one order_id entry_id settlement_id now db) [
      | err e ↦ (err e, db)
      | ok none ↦ complete_all now candidates count db
      | ok (some db') ↦ complete_all now candidates (suc count) db'
    ]
