-- ===== src/MerchantOrders/Effects.antt =====
-- What a cancellation and a second search do to the order.
use wassal.Prelude.{ℕ, ◌≡◌, ◌⊎◌, refl, true, false, Option, none, some, arith, includes}
use wassal.Contracts.Rbac.{Role, UserRole}
use wassal.Orders.Status.{
  OrderStatus, order_status_enum, cancelled, returning_to_store, maximum_dispatch_attempts,
  can_retry_courier_search, merchant_cancellation_decision, free_merchant_cancellation_statuses,
  post_pickup_merchant_cancellation_statuses,
}
use wassal.Store.{DeliveryOrder, Database, OrderEventSource}
use wassal.Store.Table.{get, get-update_self}
use wassal.Service.Transaction.{ok}
use wassal.MerchantOrders.Retry.{searching_again, retry_courier_search}
use wassal.MerchantOrders.Cancel.{CancelInput, cancelled_by, cancel_order}
use wassal.Marketplace.MerchantSide.{cancel_order-Moves, retry-Moves}

-- When a cancellation commits, one of the two kinds has happened. Before pickup the order is cancelled
-- without a courier and without a charge. After pickup it goes back to the store with its courier,
-- and the merchant is charged the whole fee.
pub cancel_order-effect :
    (user_id : ℕ) (role : UserRole) (order_id : ℕ) (order : DeliveryOrder) (input : CancelInput)
    (source : OrderEventSource) (key now : ℕ) (db : Database) {r : ℕ} {db' : Database}
    → get order_id db.orders ≡ some order
    → cancel_order user_id role order_id order input source key now db ≡ ok (r, db')
    → (order' : DeliveryOrder) × (get order_id db'.orders ≡ some order')
      × (order.version ≡ input.version)
      × (((includes free_merchant_cancellation_statuses order.status ≡ true)
            × (order'.status ≡ cancelled)
            × (order'.courier_id ≡ none)
            × (order'.cancellation_charge_minor ≡ 0))
          ⊎ ((includes post_pickup_merchant_cancellation_statuses order.status ≡ true)
              × (order'.status ≡ returning_to_store)
              × (order'.courier_id ≡ order.courier_id)
              × (order'.cancellation_charge_minor ≡ order.merchant_total_minor)))
unfolding cancelled_by merchant_cancellation_decision
cancel_order-effect user_id role order_id order input source key now db {r} {db'} at h =
    let (decision, taken, found, moved) =
      cancel_order-Moves user_id role order_id order input source key now db {r = r} {db' = db'} at
        h in
    let change = cancelled_by user_id role input decision now in
    let row = get-update_self order_id change db.orders at in
    (change order, rw moved.orders row, ground arith, ground arith)

-- A merchant's retry commits only as the second search: after it the order is searching with the
-- maximum of attempts, and with that count no status and no courier allow another retry.
pub retry-once :
    (user_id : ℕ) (role : Role) (merchant_id : ℕ) (membership_role : UserRole)
    (order_id version key hash now : ℕ) (db : Database) {r : ℕ} {db' : Database}
    → retry_courier_search user_id role merchant_id membership_role order_id version key hash now db
      ≡ ok (r, db')
    → (order' : DeliveryOrder) × (get order_id db'.orders ≡ some order')
      × (order'.dispatch_attempt_count ≡ maximum_dispatch_attempts)
      × (order'.status ≡ OrderStatus.searching_courier)
      × ((s : OrderStatus) (c : Option ℕ)
          → can_retry_courier_search s order'.dispatch_attempt_count c ≡ false)
unfolding can_retry_courier_search
retry-once user_id role merchant_id membership_role order_id version key hash now db {r} {db'} h =
    let (order, found, moved) =
      retry-Moves user_id role merchant_id membership_role order_id version key hash now db {r = r}
        {db' = db'} h in
    let row = get-update_self order_id (searching_again now) db.orders moved.at in
    (searching_again now order, rw moved.orders row, ground arith, refl, λ s c. ground arith)
