-- ===== src/MerchantOrders/Cancel.antt =====
-- A merchant or an administrator cancels an order: `cancelMerchant`, `cancelAdmin` and `cancel` of
-- apps/api/src/orders/orders.service.ts.
use Prim.Native.String.{String}
use text.Mathlib.Text.{◌==◌ as str_eq}
use wassal.Prelude.{
  ℕ, ◌+◌, Bool, true, false, ◌&&◌, ◌||◌, Option, none, some, List, [], ◌∷◌, not, ◌==◌, ◌is◌,
  if◌then◌else◌,
}
use wassal.Contracts.Rbac.{Role, role_enum, merchant_staff, UserRole, database_role_by_role}
use wassal.Orders.Status.{
  OrderStatus, order_status_enum, cancelled, CancellationKind, free, return, CancellationDecision,
  merchant_cancellation_decision,
}
use wassal.Store.{
  DeliveryOrder, Database, OrderEvent, OrderEventType, order_cancelled, admin_cancelled,
  merchant_cancelled_after_pickup, OrderEventSource, merchant_web, admin_web, order_admin_cancelled,
  order_merchant_cancelled, order_cancel, merchant_cancelled,
}
use wassal.Store.Table.{written, get, update, matches}
use wassal.Service.Transaction.{
  Result, ok, ◌>>=◌, ◌>>◌, require, found, staff_forbidden, order_not_found,
  cancelled_with_other_reason, cancellation_not_allowed, changed_before_commit,
}
use wassal.Service.Idempotency.{claim_idempotency, complete_idempotency}
use wassal.Service.Writes.{audit, notify_all}
use wassal.Service.Queries.{courier_user}

pub record CancelInput : Type 0 where
  pub reason_code : String
  pub details : Option String
  pub version : ℕ

-- `===` between texts that may be missing.
abbrev pub same_text : Option String → Option String → Bool
same_text none none = true
same_text (some a) (some b) = str_eq a b
same_text _ _ = false

abbrev pub is_admin_web : OrderEventSource → Bool
is_admin_web admin_web = true
is_admin_web _ = false

-- `...(input.merchantId ? { merchantId } : {})`.
abbrev pub visible_to : Option ℕ → DeliveryOrder → Bool
visible_to none order = true
visible_to (some merchant_id) order = order.merchant_id == merchant_id

abbrev pub is_after_pickup : CancellationKind → Bool
is_after_pickup free = false
is_after_pickup return = true

-- The `where` of the update, with the status that was read.
abbrev pub awaits_cancellation : OrderStatus → ℕ → DeliveryOrder → Bool
awaits_cancellation status version order = order.version == version && order.status is status

-- The `data` of the update.
unfoldable pub cancelled_by :
    ℕ → UserRole → CancelInput → CancellationDecision → ℕ → DeliveryOrder → DeliveryOrder
cancelled_by user_id role input decision now order = record order {
  status = decision.to_status;
  courier_id = elim decision.kind [ free ↦ none | return ↦ order.courier_id ];
  acceptance_expires_at = none;
  cancelled_at = some now;
  cancelled_by_id = some user_id;
  cancellation_reason_code = some input.reason_code;
  cancellation_details = written input.details order.cancellation_details;
  cancelled_by_role = some role;
  cancelled_after_pickup = is_after_pickup decision.kind;
  cancellation_charge_minor = decision.cancellation_charge_minor;
  version = order.version + 1;
}

abbrev pub cancellation_event_type : CancellationKind → OrderEventSource → OrderEventType
cancellation_event_type free source =
    if is_admin_web source then admin_cancelled else order_cancelled
cancellation_event_type return source =
    if is_admin_web source then admin_cancelled else merchant_cancelled_after_pickup

abbrev pub cancellation_event :
    ℕ → OrderStatus → CancellationDecision → ℕ → UserRole → OrderEventSource → OrderEvent
cancellation_event order_id from decision user_id role source = record {
  order_id = order_id;
  event_type = cancellation_event_type decision.kind source;
  from_status = some from;
  to_status = decision.to_status;
  actor_id = some user_id;
  actor_role = some role;
  source = source;
}

-- The courier to notify: the user of the order's courier, if it has one.
abbrev pub courier_recipients : Option ℕ → Database → List ℕ
courier_recipients none db = []
courier_recipients (some courier_id) db = elim (courier_user courier_id db.couriers) [
  | some user_id ↦ user_id ∷ []
  | none ↦ []
]

-- The transaction of `cancel`, once the order has been found. `claimed` are the idempotency records
-- with the claim.
unfoldable pub cancel_order :
    ℕ
    → UserRole
    → ℕ
    → DeliveryOrder
    → CancelInput
    → OrderEventSource
    → ℕ
    → ℕ
    → Database
    → Result (ℕ × Database)
unfolding matches cancelled_by
cancel_order user_id role order_id order input source key now db = do
  decision ←
      found (merchant_cancellation_decision order.status order.merchant_total_minor)
        cancellation_not_allowed
  require (matches order_id (awaits_cancellation order.status input.version) db.orders)
      changed_before_commit
  ok (
    order_id,
    record db {
      orders = update order_id (cancelled_by user_id role input decision now) db.orders;
      events = cancellation_event order_id order.status decision user_id role source ∷ db.events;
      audits =
          audit (some user_id)
            (if is_admin_web source then order_admin_cancelled else order_merchant_cancelled)
            order_id
          ∷ db.audits;
      notifications =
          notify_all (merchant_cancelled order_id) (courier_recipients order.courier_id db)
            db.notifications;
      idempotency = complete_idempotency (order_cancel order_id) key order_id 200 db.idempotency;
    },
  )

unfoldable pub cancel_transaction :
    ℕ
    → UserRole
    → ℕ
    → Option ℕ
    → CancelInput
    → OrderEventSource
    → ℕ
    → ℕ
    → ℕ
    → Database
    → Result (ℕ × Database)
cancel_transaction user_id role order_id merchant_id input source key hash now db = do
  claimed ← claim_idempotency (order_cancel order_id) key hash now db.idempotency
  order ← found (get order_id db.orders) order_not_found
  require (visible_to merchant_id order) order_not_found
  if order.status is cancelled || order.cancelled_after_pickup
      then (do
        require
            (same_text order.cancellation_reason_code (some input.reason_code)
              && same_text order.cancellation_details input.details)
            cancelled_with_other_reason
        ok (
          order_id,
          record db {
            idempotency = complete_idempotency (order_cancel order_id) key order_id 200 claimed;
          },
        ))
      else cancel_order user_id role order_id order input source key now
          (record db { idempotency = claimed })

-- `cancelMerchant`, for a member of the merchant, whose role in it is `membership_role`.
unfoldable pub cancel_merchant :
    ℕ → Role → ℕ → UserRole → ℕ → CancelInput → ℕ → ℕ → ℕ → Database → Result (ℕ × Database)
unfolding cancel_transaction
cancel_merchant user_id role merchant_id membership_role order_id input key hash now db = do
  require (not (role is merchant_staff)) staff_forbidden
  cancel_transaction user_id membership_role order_id (some merchant_id) input merchant_web key hash
      now db

unfoldable pub cancel_admin :
    ℕ → Role → ℕ → CancelInput → ℕ → ℕ → ℕ → Database → Result (ℕ × Database)
unfolding cancel_transaction
cancel_admin user_id role order_id input key hash now =
    cancel_transaction user_id (database_role_by_role role) order_id none input admin_web key hash
      now
