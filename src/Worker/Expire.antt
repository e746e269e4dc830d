-- ===== src/Worker/Expire.antt =====
-- Searches that no courier has answered in time: `expireCourierAcceptanceWindows` of
-- apps/worker/src/order-acceptance-timeout.ts.
use wassal.Prelude.{
  ℕ, suc, ◌+◌, Bool, ◌&&◌, Option, none, some, List, [], ◌∷◌, not, leb, ◌==◌, ◌is◌, is_some, max,
  if◌then◌else◌,
}
use wassal.Orders.Status.{
  OrderStatus, order_status_enum, searching_courier, no_courier_available,
  no_courier_available_final,
}
use wassal.Operations.Domain.{has_passed}
use wassal.Store.{
  DeliveryOrder, Database, OrderEvent, courier_search_expired, worker, order_courier_search_expired,
  search_timeout,
}
use wassal.Store.Table.{get, update, matches}
use wassal.Service.Writes.{audit, notify_all}
use wassal.Service.Queries.{merchant_recipients}

-- The check of the row after it is locked, and the `where` of the update but for the version.
abbrev pub is_overdue : ℕ → DeliveryOrder → Bool
is_overdue now order =
    order.status is searching_courier
    && not (is_some order.courier_id)
    && has_passed order.acceptance_expires_at now

abbrev pub attempt_of : DeliveryOrder → ℕ
attempt_of order = max 1 order.dispatch_attempt_count

-- The status after attempt number `attempt`: `attempt >= 2` is the last.
unfoldable pub timeout_status : ℕ → OrderStatus
timeout_status attempt = if leb 2 attempt then no_courier_available_final else no_courier_available

abbrev pub expired_order : OrderStatus → DeliveryOrder → DeliveryOrder
expired_order status order = record order {
  status = status;
  acceptance_expires_at = none;
  version = order.version + 1;
}

abbrev pub expired_event : ℕ → OrderStatus → OrderEvent
expired_event order_id status = record {
  order_id = order_id;
  event_type = courier_search_expired;
  from_status = some searching_courier;
  to_status = status;
  actor_id = none;
  actor_role = none;
  source = worker;
}

-- The writes of the transaction for an order that is overdue.
unfoldable pub expired : ℕ → DeliveryOrder → Database → Database
unfolding timeout_status
expired order_id order db =
    let status = timeout_status (attempt_of order) in
    record db {
      orders = update order_id (expired_order status) db.orders;
      events = expired_event order_id status ∷ db.events;
      notifications =
          notify_all (search_timeout order_id (attempt_of order))
            (merchant_recipients order.merchant_id db) db.notifications;
      audits = audit none order_courier_search_expired order_id ∷ db.audits;
    }

-- The transaction for one candidate: `none` where it returns null.
unfoldable pub expire_one : ℕ → ℕ → Database → Option Database
unfolding matches expired
expire_one now order_id db = elim (get order_id db.orders) [
  | none ↦ none
  | some order ↦
      if is_overdue now order
        && matches order_id (λ row. is_overdue now row && row.version == order.version) db.orders
      then some (expired order_id order db)
      else none
]

-- The loop over the candidates, with the count so far.
unfoldable pub expire_all : ℕ → List ℕ → ℕ → Database → ℕ × Database
expire_all now [] count db = (count, db)
expire_all now (candidate ∷ candidates) count db = elim (expire_one now candidate db) [
  | none ↦ expire_all now candidates count db
  | some db' ↦ expire_all now candidates (suc count) db'
]
