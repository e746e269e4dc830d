-- ===== src/Operations/Disputes.antt =====
-- Disputes over a delivery: `merchantDispute`, `courierRespond` and `resolveDispute` of
-- apps/api/src/operations/delivery-operations.service.ts.
use Prim.Native.String.{String}
use wassal.Prelude.{
  ℕ, ◌+◌, Bool, false, ◌&&◌, ◌||◌, Option, none, some, List, [], ◌∷◌, not, ◌==◌, ◌is◌, includes,
  is_some, if◌then◌else◌,
}
use wassal.Contracts.Rbac.{UserRole, owner, manager, courier_user, user_role_enum}
use wassal.Orders.Status.{OrderStatus, delivered, delivery_disputed}
use wassal.Operations.Domain.{dispute_window_is_active}
use wassal.Store.{
  DeliveryOrder, DeliveryDispute, dispute_status_enum, open_dispute, courier_responded, Database,
  OrderEvent, OrderEventType, OrderEventSource, merchant_web, courier_mobile, AuditAction,
  dispute_courier, dispute_admin,
}
use wassal.Store.Table.{Table, get, update, matches}
use wassal.Service.Transaction.{
  Result, ok, ◌>>=◌, ◌>>◌, require, found, staff_forbidden, order_not_found,
  dispute_window_unavailable, dispute_exists, dispute_not_found, dispute_answered,
}
use wassal.Service.Writes.{audit, notify_all}
use wassal.Service.Queries.{courier_user as user_of_courier}

-- `orderId` is unique among the disputes.
unfoldable pub has_dispute : ℕ → Table DeliveryDispute → Bool
has_dispute order_id [] = false
has_dispute order_id ((id, d) ∷ ds) = d.order_id == order_id || has_dispute order_id ds

-- The `data` of `deliveryOrder.update`.
abbrev pub disputed : DeliveryOrder → DeliveryOrder
disputed order = record order { status = delivery_disputed; version = order.version + 1 }

-- An event of a dispute, which a user causes.
abbrev pub dispute_event :
    ℕ → OrderEventType → OrderStatus → OrderStatus → ℕ → UserRole → OrderEventSource → OrderEvent
dispute_event order_id event_type from to user_id role source = record {
  order_id = order_id;
  event_type = event_type;
  from_status = some from;
  to_status = to;
  actor_id = some user_id;
  actor_role = some role;
  source = source;
}

-- `deliveryDispute.create`.
abbrev pub new_dispute : ℕ → ℕ → ℕ → ℕ → DeliveryDispute
new_dispute order_id merchant_id courier_id user_id = record {
  order_id = order_id;
  merchant_id = merchant_id;
  courier_id = courier_id;
  status = open_dispute;
  created_by_id = user_id;
  courier_response = none;
  paper_proof_available = none;
  courier_responded_at = none;
  resolution_note = none;
  resolved_by_id = none;
  resolved_at = none;
  version = 1;
}

-- `merchantDispute` for a member of the merchant. `admins` are the active administrators of
-- operations, and `dispute_id` is the id of the row that is created.
unfoldable pub merchant_dispute :
    ℕ → UserRole → ℕ → UserRole → ℕ → ℕ → List ℕ → ℕ → ℕ → Database → Result (ℕ × Database)
merchant_dispute user_id role merchant_id membership_role order_id version admins dispute_id now
      db =
    do
      require (includes (owner ∷ manager ∷ []) membership_role) staff_forbidden
      order ← found (get order_id db.orders) order_not_found
      require (order.merchant_id == merchant_id) order_not_found
      courier_id ← found order.courier_id dispute_window_unavailable
      courier ← found (user_of_courier courier_id db.couriers) dispute_window_unavailable
      require
          (order.version == version
            && dispute_window_is_active order.status order.delivery_dispute_deadline_at now false)
          dispute_window_unavailable
      require (not (has_dispute order_id db.disputes)) dispute_exists
      ok (
        dispute_id,
        record db {
          disputes =
              (dispute_id, new_dispute order_id order.merchant_id courier_id user_id) ∷ db.disputes;
          orders = update order_id disputed db.orders;
          events =
              dispute_event order_id OrderEventType.delivery_dispute_created delivered
                delivery_disputed user_id role merchant_web
              ∷ db.events;
          notifications =
              notify_all (dispute_admin dispute_id) admins
                (notify_all (λ user. dispute_courier dispute_id) (courier ∷ []) db.notifications);
          audits = audit (some user_id) AuditAction.delivery_dispute_created dispute_id ∷ db.audits;
        },
      )

-- The `where` of the courier's answer.
abbrev pub awaits_response : ℕ → ℕ → DeliveryDispute → Bool
awaits_response courier_id version dispute =
    dispute.courier_id == courier_id
    && dispute.version == version
    && dispute.status is open_dispute
    && not (is_some dispute.courier_responded_at)

abbrev pub responded : String → Bool → ℕ → DeliveryDispute → DeliveryDispute
responded response paper_proof now dispute = record dispute {
  status = courier_responded;
  courier_response = some response;
  paper_proof_available = some paper_proof;
  courier_responded_at = some now;
  version = dispute.version + 1;
}

-- `findFirst({ where: { orderId, courierId } })`: the id of the dispute.
unfoldable pub find_dispute : ℕ → ℕ → Table DeliveryDispute → Option ℕ
find_dispute order_id courier_id [] = none
find_dispute order_id courier_id ((id, d) ∷ ds) =
    if d.order_id == order_id && d.courier_id == courier_id
    then some id
    else find_dispute order_id courier_id ds

unfoldable pub courier_respond :
    ℕ → ℕ → ℕ → ℕ → String → Bool → ℕ → Database → Result (ℕ × Database)
unfolding matches
courier_respond user_id courier_id order_id version response paper_proof now db = do
  dispute_id ← found (find_dispute order_id courier_id db.disputes) dispute_not_found
  require (matches dispute_id (awaits_response courier_id version) db.disputes) dispute_answered
  ok (
    dispute_id,
    record db {
      disputes = update dispute_id (responded response paper_proof now) db.disputes;
      events =
          dispute_event order_id OrderEventType.delivery_dispute_courier_responded delivery_disputed
            delivery_disputed user_id courier_user courier_mobile
          ∷ db.events;
      audits =
          audit (some user_id) AuditAction.delivery_dispute_courier_responded dispute_id
          ∷ db.audits;
    },
  )
