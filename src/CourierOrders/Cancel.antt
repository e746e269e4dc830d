-- ===== src/CourierOrders/Cancel.antt =====
-- The courier gives an order back before pickup: `cancelBeforePickup` of
-- apps/api/src/courier-orders/courier-orders.service.ts.
use wassal.Prelude.{ℕ, ◌+◌, Bool, ◌&&◌, none, some, List, [], ◌∷◌, ◌==◌, includes}
use wassal.Contracts.Rbac.{UserRole}
use wassal.Orders.Status.{
  OrderStatus, order_status_enum, searching_courier, courier_assigned, courier_arriving_pickup,
  at_pickup, acceptance_deadline,
}
use wassal.Store.{
  DeliveryOrder, Database, OrderEvent, courier_cancelled, courier_mobile,
  courier_order_cancelled_before_pickup, courier_cancel,
}
use wassal.Store.Table.{get, update, matches}
use wassal.Service.Transaction.{
  Result, ok, ◌>>=◌, ◌>>◌, require, found, order_not_found, cancellation_not_allowed,
  changed_before_commit,
}
use wassal.Service.Idempotency.{claim_idempotency, complete_idempotency}
use wassal.Service.Writes.{audit}
use wassal.CourierOrders.Lifecycle.{assigned_to}

abbrev pub cancellable : List OrderStatus
cancellable = courier_assigned ∷ courier_arriving_pickup ∷ at_pickup ∷ []

-- The check, and the `where` of the update.
abbrev pub may_give_back : ℕ → ℕ → DeliveryOrder → Bool
may_give_back courier_id version order =
    assigned_to courier_id order.courier_id
    && order.version == version
    && includes cancellable order.status

-- The `data` of the update.
abbrev pub given_back : ℕ → DeliveryOrder → DeliveryOrder
given_back now order = record order {
  courier_id = none;
  status = searching_courier;
  acceptance_expires_at = some (acceptance_deadline now);
  version = order.version + 1;
}

abbrev pub given_back_event : ℕ → OrderStatus → ℕ → UserRole → OrderEvent
given_back_event order_id from user_id role = record {
  order_id = order_id;
  event_type = courier_cancelled;
  from_status = some from;
  to_status = searching_courier;
  actor_id = some user_id;
  actor_role = some role;
  source = courier_mobile;
}

unfoldable pub cancel_before_pickup_transaction :
    ℕ → UserRole → ℕ → ℕ → ℕ → ℕ → ℕ → ℕ → Database → Result (ℕ × Database)
unfolding matches
cancel_before_pickup_transaction user_id role courier_id order_id version key hash now db = do
  let scope = courier_cancel courier_id order_id
  claimed ← claim_idempotency scope key hash now db.idempotency
  order ← found (get order_id db.orders) order_not_found
  require (may_give_back courier_id version order) cancellation_not_allowed
  require (matches order_id (may_give_back courier_id version) db.orders) changed_before_commit
  ok (
    order_id,
    record db {
      orders = update order_id (given_back now) db.orders;
      events = given_back_event order_id order.status user_id role ∷ db.events;
      audits = audit (some user_id) courier_order_cancelled_before_pickup order_id ∷ db.audits;
      idempotency = complete_idempotency scope key order_id 200 claimed;
    },
  )
