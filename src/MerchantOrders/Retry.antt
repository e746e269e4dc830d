-- ===== src/MerchantOrders/Retry.antt =====
-- A merchant starts the second search for a courier: `retryCourierSearch` of
-- apps/api/src/orders/orders.service.ts.
use wassal.Prelude.{ℕ, ◌+◌, Bool, ◌&&◌, ◌||◌, some, ◌∷◌, not, leb, ◌==◌, ◌is◌, is_some}
use wassal.Contracts.Rbac.{Role, role_enum, merchant_staff, UserRole}
use wassal.Orders.Status.{
  order_status_enum, searching_courier, no_courier_available, no_courier_available_final,
  maximum_dispatch_attempts, can_retry_courier_search, acceptance_deadline,
}
use wassal.Store.{
  DeliveryOrder, Database, OrderEvent, courier_search_restarted, merchant_web,
  order_courier_search_restarted, order_retry,
}
use wassal.Store.Table.{get, update, matches}
use wassal.Service.Transaction.{
  Result, ok, ◌>>=◌, ◌>>◌, require, found, staff_forbidden, order_not_found, retry_limit_reached,
  retry_not_allowed, changed_before_commit,
}
use wassal.Service.Idempotency.{claim_idempotency, complete_idempotency}
use wassal.Service.Writes.{audit}

-- The `where` of the update.
abbrev pub awaits_retry : ℕ → ℕ → DeliveryOrder → Bool
awaits_retry merchant_id version order =
    order.merchant_id == merchant_id
    && order.status is no_courier_available
    && not (is_some order.courier_id)
    && order.version == version
    && order.dispatch_attempt_count == 1

-- The `data` of the update.
abbrev pub searching_again : ℕ → DeliveryOrder → DeliveryOrder
searching_again now order = record order {
  status = searching_courier;
  acceptance_expires_at = some (acceptance_deadline now);
  dispatch_attempt_count = order.dispatch_attempt_count + 1;
  version = order.version + 1;
}

abbrev pub restarted_event : ℕ → ℕ → UserRole → OrderEvent
restarted_event order_id user_id role = record {
  order_id = order_id;
  event_type = courier_search_restarted;
  from_status = some no_courier_available;
  to_status = searching_courier;
  actor_id = some user_id;
  actor_role = some role;
  source = merchant_web;
}

-- `retryCourierSearch` for a member of the merchant, whose role in it is `membership_role`: the check
-- of the actor's role, and the transaction.
unfoldable pub retry_courier_search :
    ℕ → Role → ℕ → UserRole → ℕ → ℕ → ℕ → ℕ → ℕ → Database → Result (ℕ × Database)
unfolding matches
retry_courier_search user_id role merchant_id membership_role order_id version key hash now db = do
  let scope = order_retry order_id
  require (not (role is merchant_staff)) staff_forbidden
  claimed ← claim_idempotency scope key hash now db.idempotency
  order ← found (get order_id db.orders) order_not_found
  require (order.merchant_id == merchant_id) order_not_found
  require
      (not (
        order.status is no_courier_available_final
        || leb maximum_dispatch_attempts order.dispatch_attempt_count))
      retry_limit_reached
  require
      (can_retry_courier_search order.status order.dispatch_attempt_count order.courier_id
        && order.version == version)
      retry_not_allowed
  require (matches order_id (awaits_retry merchant_id version) db.orders) changed_before_commit
  ok (
    order_id,
    record db {
      orders = update order_id (searching_again now) db.orders;
      events = restarted_event order_id user_id membership_role ∷ db.events;
      audits = audit (some user_id) order_courier_search_restarted order_id ∷ db.audits;
      idempotency = complete_idempotency scope key order_id 200 claimed;
    },
  )
