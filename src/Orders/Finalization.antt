-- ===== src/Orders/Finalization.antt =====
-- The financial completion of an order: `finalizeInTransaction` of
-- apps/api/src/orders/order-finalization.service.ts.
use wassal.Prelude.{
  ℕ, suc, ◌+◌, Bool, ◌&&◌, Option, none, some, List, [], ◌∷◌, ◌++◌, not, ◌==◌, ◌is◌, includes,
  is_some, if◌then◌else◌,
}
use wassal.Prelude.Int.{pos}
use wassal.Contracts.Rbac.{UserRole}
use wassal.Orders.Status.{OrderStatus, order_status_enum, completed}
use wassal.Store.{
  DeliveryOrder, Database, OrderEvent, OrderEventSource, OrderCompletionSource, order_completed,
  DeduplicationKey, order_financially_completed_phase4,
}
use wassal.Store.Table.{get, update, matches}
use wassal.Finance.Domain.{commission_due}
use wassal.Finance.Calendar.{Bounds, weekly_settlement_bounds}
use wassal.Finance.Accounts.{Accounts, LedgerEntry, order_commission}
use wassal.Finance.Settlement.{
  has_source_key, find_period, new_period, refresh_settlement_projection,
}
use wassal.Service.Transaction.{
  Result, ok, err, ◌>>=◌, ◌>>◌, require, found, courier_required, not_eligible_for_completion,
  completed_concurrently, duplicate_commission, setting_missing, settlement_missing,
}
use wassal.Service.Writes.{audit, notify_all}
use wassal.Service.Queries.{merchant_recipients, courier_user, current_setting}

pub record FinalizeInput : Type 0 where
  pub expected_statuses : List OrderStatus
  pub completion_source : OrderCompletionSource
  pub actor_id : Option ℕ
  pub actor_role : Option UserRole
  pub event_source : OrderEventSource

-- The `data` of the update.
abbrev pub finalized : OrderCompletionSource → ℕ → DeliveryOrder → DeliveryOrder
finalized source finalized_at order = record order {
  status = completed;
  financial_finalized_at = some finalized_at;
  completed_at = some finalized_at;
  completion_source = some source;
  version = order.version + 1;
}

-- The `where` of the update: the order as it was read, and not finalized.
abbrev pub awaits_finalization : DeliveryOrder → DeliveryOrder → Bool
awaits_finalization read order =
    order.status is read.status
    && order.version == read.version
    && not (is_some order.financial_finalized_at)

abbrev pub completed_event :
    ℕ → OrderStatus → Option ℕ → Option UserRole → OrderEventSource → OrderEvent
completed_event order_id from actor_id role source = record {
  order_id = order_id;
  event_type = order_completed;
  from_status = some from;
  to_status = completed;
  actor_id = actor_id;
  actor_role = role;
  source = source;
}

-- `courierLedgerEntry.create` of a commission.
abbrev pub commission_entry : ℕ → ℕ → ℕ → Option ℕ → ℕ → LedgerEntry
commission_entry courier_id order_id amount_minor actor_id occurred_at = record {
  courier_id = courier_id;
  order_id = some order_id;
  type = commission_due;
  amount_minor = pos amount_minor;
  source_key = order_commission order_id;
  reverses_entry_id = none;
  created_by_id = actor_id;
  occurred_at = occurred_at;
}

-- The upsert of the period: its id, and the accounts with it. `new_id` is the id of a new row.
unfoldable pub upsert_period : ℕ → Bounds → ℕ → Accounts → ℕ × Accounts
unfolding find_period
upsert_period courier_id bounds new_id a = elim (find_period courier_id bounds a.settlements) [
  | some id ↦ (id, a)
  | none ↦
      (new_id, record a { settlements = (new_id, new_period courier_id bounds) ∷ a.settlements })
]

-- The ledger entry, the settlement period and its line, and the projection.
unfoldable pub post_commission :
    (ℕ → ℕ) → LedgerEntry → Bounds → ℕ → ℕ → ℕ → Accounts → Option Accounts
unfolding upsert_period refresh_settlement_projection
post_commission shown entry bounds entry_id new_settlement_id now a =
    let (settlement_id, b) = upsert_period entry.courier_id bounds new_settlement_id a in
    refresh_settlement_projection shown settlement_id now (record b {
      ledger = (entry_id, entry) ∷ b.ledger;
      lines =
          record {
            settlement_period_id = settlement_id;
            ledger_entry_id = entry_id;
            amount_minor = entry.amount_minor;
          }
          ∷ b.lines;
    })

module _ (shown : ℕ → ℕ) where
  -- What follows the checks, for the order as it was read. `entry_id` and `settlement_id` are the
  -- ids of the rows that are created.
  unfoldable pub complete_order :
      ℕ → DeliveryOrder → ℕ → ℕ → FinalizeInput → ℕ → ℕ → ℕ → Database → Result Database
  unfolding matches
  complete_order order_id order courier_id user_id input entry_id settlement_id now db = do
    require (matches order_id (awaits_finalization order) db.orders) completed_concurrently
    require (not (has_source_key (order_commission order_id) db.accounts.ledger))
        duplicate_commission
    setting ← found (current_setting now none db.financial_settings) setting_missing
    accounts ←
        found
          (post_commission shown
            (commission_entry courier_id order_id order.platform_commission_minor input.actor_id
              now)
            (weekly_settlement_bounds shown now setting.value.grace_period_days) entry_id
            settlement_id now db.accounts)
          settlement_missing
    ok (record db {
      orders = update order_id (finalized input.completion_source now) db.orders;
      events =
          completed_event order_id order.status input.actor_id input.actor_role input.event_source
          ∷ db.events;
      accounts = accounts;
      completed_orders_count = update courier_id suc db.completed_orders_count;
      notifications =
          notify_all (DeduplicationKey.order_completed order_id)
            (merchant_recipients order.merchant_id db ++ user_id ∷ []) db.notifications;
      audits = audit input.actor_id order_financially_completed_phase4 order_id ∷ db.audits;
    })

  unfoldable pub finalize_in_transaction :
      ℕ → FinalizeInput → ℕ → ℕ → ℕ → Database → Result Database
  finalize_in_transaction order_id input entry_id settlement_id now db = do
    order ← found (get order_id db.orders) courier_required
    courier_id ← found order.courier_id courier_required
    user_id ← found (courier_user courier_id db.couriers) courier_required
    if includes input.expected_statuses order.status
        then (if is_some order.financial_finalized_at
            then ok db
            else complete_order order_id order courier_id user_id input entry_id settlement_id now
                db)
        else (if is_some order.financial_finalized_at
            then ok db
            else err not_eligible_for_completion)
