-- ===== src/CourierOrders/Lifecycle.antt =====
-- The courier moves an order on: `lifecycle` and `transition` of
-- apps/api/src/courier-orders/courier-orders.service.ts.
use Prim.Native.String.{String}
use wassal.Prelude.{
  ℕ, ◌+◌, Bool, false, ◌&&◌, Option, none, some, List, [], ◌∷◌, ◌==◌, ◌is◌, includes, if◌then◌else◌,
}
use wassal.Contracts.Rbac.{UserRole}
use wassal.Orders.Status.{
  OrderStatus, order_status_enum, courier_assigned, courier_arriving_pickup, at_pickup, picked_up,
  in_transit, at_dropoff, delivered, delivery_failed, returning_to_store,
  return_awaiting_merchant_confirmation, can_transition_in_phase_three,
}
use wassal.Operations.Domain.{delivery_dispute_deadline}
use wassal.Store.{
  DeliveryOrder, DeliveryFailureReason, Database, OrderEvent, OrderEventType, courier_mobile,
  courier_order_lifecycle, courier_action, order_status,
}
use wassal.Store.Table.{written, get, update, matches}
use wassal.Service.Transaction.{
  Result, ok, ◌>>=◌, ◌>>◌, require, found, order_not_found, not_assigned_courier, order_changed,
  transition_not_allowed, changed_before_commit, setting_missing, invalid_dispute_window,
}
use wassal.Service.Idempotency.{claim_idempotency, complete_idempotency}
use wassal.Service.Writes.{audit, notify_all}
use wassal.Service.Queries.{merchant_recipients, current_setting}

pub data Action : Type 0 where
  arriving_pickup arrived_pickup pick_up transit arrived_dropoff deliver fail : Action
  return_to_store report_return : Action

pub record Command : Type 0 where
  pub from : List OrderStatus
  pub to : OrderStatus
  pub event_type : OrderEventType

unfoldable pub lifecycle : Action → Command
lifecycle arriving_pickup = record {
  from = courier_assigned ∷ [];
  to = courier_arriving_pickup;
  event_type = OrderEventType.courier_arriving_pickup;
}
lifecycle arrived_pickup = record {
  from = courier_arriving_pickup ∷ [];
  to = at_pickup;
  event_type = OrderEventType.courier_arrived_pickup;
}
lifecycle pick_up = record {
  from = at_pickup ∷ [];
  to = picked_up;
  event_type = OrderEventType.order_picked_up;
}
lifecycle transit = record {
  from = picked_up ∷ [];
  to = in_transit;
  event_type = OrderEventType.order_in_transit;
}
lifecycle arrived_dropoff = record {
  from = in_transit ∷ [];
  to = at_dropoff;
  event_type = OrderEventType.courier_arrived_dropoff;
}
lifecycle deliver = record {
  from = at_dropoff ∷ [];
  to = delivered;
  event_type = OrderEventType.order_delivered;
}
lifecycle fail = record {
  from = picked_up ∷ in_transit ∷ at_dropoff ∷ [];
  to = delivery_failed;
  event_type = OrderEventType.delivery_failed;
}
lifecycle return_to_store = record {
  from = delivery_failed ∷ [];
  to = returning_to_store;
  event_type = OrderEventType.returning_to_store;
}
lifecycle report_return = record {
  from = returning_to_store ∷ [];
  to = return_awaiting_merchant_confirmation;
  event_type = OrderEventType.return_awaiting_merchant_confirmation;
}

-- `order.courierId === courier.id`.
abbrev pub assigned_to : ℕ → Option ℕ → Bool
assigned_to courier_id none = false
assigned_to courier_id (some id) = id == courier_id

pub record TransitionInput : Type 0 where
  pub version : ℕ
  pub note : Option String
  pub failure_reason : Option DeliveryFailureReason

-- The `where` of the update.
abbrev pub awaits_action : Command → ℕ → ℕ → DeliveryOrder → Bool
awaits_action command courier_id version order =
    assigned_to courier_id order.courier_id
    && order.version == version
    && includes command.from order.status

-- The columns that only some of the statuses set. `deadline` is that of `deliveryWindow`.
unfoldable pub transition_columns :
    OrderStatus → TransitionInput → Option ℕ → ℕ → DeliveryOrder → DeliveryOrder
transition_columns delivered input deadline now order = record order {
  delivered_at = some now;
  delivery_dispute_deadline_at = deadline;
  delivery_note = written input.note order.delivery_note;
}
transition_columns delivery_failed input deadline now order = record order {
  delivery_failure_reason = written input.failure_reason order.delivery_failure_reason;
  delivery_failure_note = written input.note order.delivery_failure_note;
}
transition_columns return_awaiting_merchant_confirmation input deadline now order = record order {
  return_reported_at = some now;
}
transition_columns _ input deadline now order = order

-- The `data` of the update.
unfoldable pub transitioned :
    OrderStatus → TransitionInput → Option ℕ → ℕ → DeliveryOrder → DeliveryOrder
unfolding transition_columns
transitioned to input deadline now order =
    transition_columns to input deadline now
      (record order { status = to; version = order.version + 1 })

-- `deliveryWindow`, which is called for a delivery alone: the deadline, or the throw.
unfoldable pub delivery_window : OrderStatus → ℕ → Database → Result (Option ℕ)
delivery_window to now db =
    if to is delivered
    then (do
      setting ← found (current_setting now none db.operational_settings) setting_missing
      deadline ←
          found (delivery_dispute_deadline now setting.value.delivery_dispute_window_hours)
            invalid_dispute_window
      ok (some deadline))
    else ok none

abbrev pub lifecycle_event : ℕ → Command → OrderStatus → ℕ → UserRole → OrderEvent
lifecycle_event order_id command from user_id role = record {
  order_id = order_id;
  event_type = command.event_type;
  from_status = some from;
  to_status = command.to;
  actor_id = some user_id;
  actor_role = some role;
  source = courier_mobile;
}

-- The transaction of `transition`, for one entry of `lifecycle`.
unfoldable pub command_transaction :
    Command → ℕ → UserRole → ℕ → ℕ → TransitionInput → ℕ → ℕ → ℕ → Database → Result (ℕ × Database)
unfolding matches
command_transaction command user_id role courier_id order_id input key hash now db = do
  let scope = courier_action command.event_type order_id
  claimed ← claim_idempotency scope key hash now db.idempotency
  order ← found (get order_id db.orders) order_not_found
  require (assigned_to courier_id order.courier_id) not_assigned_courier
  require (order.version == input.version && includes command.from order.status) order_changed
  require (can_transition_in_phase_three order.status command.to) transition_not_allowed
  deadline ← delivery_window command.to now db
  require (matches order_id (awaits_action command courier_id input.version) db.orders)
      changed_before_commit
  ok (
    order_id,
    record db {
      orders = update order_id (transitioned command.to input deadline now) db.orders;
      events = lifecycle_event order_id command order.status user_id role ∷ db.events;
      audits =
          audit (some user_id) (courier_order_lifecycle command.event_type) order_id ∷ db.audits;
      notifications =
          notify_all (order_status order_id command.to (order.version + 2))
            (merchant_recipients order.merchant_id db) db.notifications;
      idempotency = complete_idempotency scope key order_id 200 claimed;
    },
  )

unfoldable pub transition_transaction :
    Action → ℕ → UserRole → ℕ → ℕ → TransitionInput → ℕ → ℕ → ℕ → Database → Result (ℕ × Database)
unfolding lifecycle command_transaction
transition_transaction action = command_transaction (lifecycle action)
