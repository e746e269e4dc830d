-- ===== src/Operations/Resolutions.antt =====
-- The end of a dispute: `resolveDispute` of
-- apps/api/src/operations/delivery-operations.service.ts.
use Prim.Native.String.{String}
use wassal.Prelude.{ℕ, ◌+◌, Bool, ◌&&◌, none, some, List, [], ◌∷◌, ◌++◌, ◌==◌, includes}
use wassal.Contracts.Rbac.{UserRole, user_role_enum}
use wassal.Orders.Status.{OrderStatus, delivery_disputed, delivery_failed, returning_to_store}
use wassal.Store.{
  DeliveryOrder, DeliveryFailureReason, DeliveryDispute, DisputeStatus, dispute_status_enum,
  open_dispute, courier_responded, resolved_delivery_confirmed, resolved_not_delivered,
  resolved_return_required, Database, OrderEventType, admin_web, admin_confirmed_delivery,
  AuditAction, dispute_resolved,
}
use wassal.Store.Table.{get, update}
use wassal.Orders.Finalization.{finalize_in_transaction}
use wassal.Service.Transaction.{
  Fault, Result, ok, ◌>>=◌, ◌>>◌, require, found, order_not_found, dispute_not_found,
}
use wassal.Service.Writes.{audit, notify_all}
use wassal.Service.Queries.{merchant_recipients, courier_user as user_of_courier}
use wassal.Operations.Disputes.{dispute_event}

pub data Resolution : Type 0 where
  confirm_delivery confirm_not_delivered require_return : Resolution

-- `statusByResolution`.
unfoldable pub status_by_resolution : Resolution → DisputeStatus
status_by_resolution confirm_delivery = resolved_delivery_confirmed
status_by_resolution confirm_not_delivered = resolved_not_delivered
status_by_resolution require_return = resolved_return_required

-- `targetByResolution`.
unfoldable pub target_by_resolution : Resolution → OrderStatus
target_by_resolution confirm_delivery = delivery_disputed
target_by_resolution confirm_not_delivered = delivery_failed
target_by_resolution require_return = returning_to_store

abbrev pub resolved : Resolution → String → ℕ → ℕ → DeliveryDispute → DeliveryDispute
resolved resolution note user_id now dispute = record dispute {
  status = status_by_resolution resolution;
  resolution_note = some note;
  resolved_by_id = some user_id;
  resolved_at = some now;
  version = dispute.version + 1;
}

-- The `data` of `deliveryOrder.update`, where the delivery is not confirmed.
unfoldable pub sent_back : Resolution → String → DeliveryOrder → DeliveryOrder
sent_back confirm_not_delivered note order = record order {
  status = delivery_failed;
  delivery_failure_reason = some DeliveryFailureReason.other;
  delivery_failure_note = some note;
  version = order.version + 1;
}
sent_back resolution note order = record order {
  status = target_by_resolution resolution;
  version = order.version + 1;
}

abbrev pub may_resolve : ℕ → DeliveryDispute → Bool
may_resolve version dispute =
    includes (open_dispute ∷ courier_responded ∷ []) dispute.status && dispute.version == version

-- The users that a resolution notifies.
abbrev pub order_users : DeliveryOrder → Database → List ℕ
order_users order db = merchant_recipients order.merchant_id db ++ elim order.courier_id [
  | none ↦ []
  | some courier_id ↦ elim (user_of_courier courier_id db.couriers) [
    | none ↦ []
    | some user ↦ user ∷ []
  ]
]

module _ (shown : ℕ → ℕ) where
  -- The branch on the resolution: the financial completion, or the update of the order.
  unfoldable pub apply_resolution :
      ℕ → UserRole → ℕ → Resolution → String → ℕ → ℕ → ℕ → Database → Result Database
  apply_resolution user_id role order_id confirm_delivery note entry_id settlement_id now db =
      finalize_in_transaction shown order_id
        (record {
          expected_statuses = delivery_disputed ∷ [];
          completion_source = admin_confirmed_delivery;
          actor_id = some user_id;
          actor_role = some role;
          event_source = admin_web;
        })
        entry_id settlement_id now db
  apply_resolution user_id role order_id resolution note entry_id settlement_id now db =
      ok (record db { orders = update order_id (sent_back resolution note) db.orders })

  unfoldable pub resolve_dispute :
      ℕ → UserRole → ℕ → ℕ → Resolution → String → ℕ → ℕ → ℕ → Database → Result (ℕ × Database)
  unfolding target_by_resolution
  resolve_dispute user_id role dispute_id version resolution note entry_id settlement_id now db = do
    dispute ← found (get dispute_id db.disputes) dispute_not_found
    order ← found (get dispute.order_id db.orders) order_not_found
    require (may_resolve version dispute) Fault.dispute_resolved
    db' ←
        apply_resolution user_id role dispute.order_id resolution note entry_id settlement_id now
          (record db {
            disputes = update dispute_id (resolved resolution note user_id now) db.disputes;
            events =
                dispute_event dispute.order_id OrderEventType.delivery_dispute_resolved
                  delivery_disputed (target_by_resolution resolution) user_id role admin_web
                ∷ db.events;
          })
    ok (
      dispute_id,
      record db' {
        notifications =
            notify_all (dispute_resolved dispute_id) (order_users order db) db'.notifications;
        audits = audit (some user_id) AuditAction.delivery_dispute_resolved dispute_id ∷ db'.audits;
      },
    )
