-- ===== src/CourierOrders/Effects.antt =====
-- What the courier's transactions do to the order, and how they go with the table of transitions.
use wassal.Prelude.{
  ℕ, ◌+◌, ◌*◌, ◌<◌, ◌≤◌, ◌≡◌, ◌↔◌, true, false, none, some, [], ◌∷◌, refl, arith, includes,
}
use wassal.Contracts.Rbac.{UserRole}
use wassal.Orders.Status.{
  OrderStatus, order_status_enum, searching_courier, delivered, courier_assigned,
  courier_arriving_pickup, at_pickup, acceptance_deadline, can_transition_in_phase_three,
}
use wassal.Operations.Domain.{
  hour_ms, dispute_window_is_active, delivery_dispute_deadline, delivery_may_auto_complete,
}
use wassal.Store.{DeliveryOrder, Database, Setting, OperationalSetting}
use wassal.Store.Table.{get, get-update_self}
use wassal.Service.Transaction.{ok}
use wassal.Service.Queries.{current_setting}
use wassal.CourierOrders.Lifecycle.{
  Action, deliver, lifecycle, TransitionInput, transitioned, delivery_window,
  transition_transaction,
}
use wassal.CourierOrders.Cancel.{given_back, cancel_before_pickup_transaction}
use wassal.Marketplace.CourierSide.{command-Moves, cancel_before_pickup-Moves}

-- Each action of the courier's lifecycle takes each of its source statuses along an edge of the table
-- of phase three, so the guard on the table refuses none of them.
pub lifecycle-allowed :
    (action : Action) (status : OrderStatus)
    → includes (lifecycle action).from status ≡ true
    → can_transition_in_phase_three status (lifecycle action).to ≡ true
unfolding lifecycle can_transition_in_phase_three
lifecycle-allowed action status h = ground arith

module _ (user_id : ℕ) (role : UserRole) (courier_id order_id version key hash now : ℕ)
    (db : Database) {r : ℕ} {db' : Database} where
  -- When a courier gives an order back, it is that courier's and not picked up yet. The order then
  -- searches again, without a courier, with five minutes to accept it and one version further, at the
  -- same price and of the same merchant, and the move of its status is not in the table of phase three.
  pub cancel_before_pickup-leaves_table :
      cancel_before_pickup_transaction user_id role courier_id order_id version key hash now db
        ≡ ok (r, db')
      → (order : DeliveryOrder) × (get order_id db.orders ≡ some order)
        × (order.courier_id ≡ some courier_id)
        × (includes (courier_assigned ∷ courier_arriving_pickup ∷ at_pickup ∷ []) order.status
            ≡ true)
        × (order' : DeliveryOrder) × (get order_id db'.orders ≡ some order')
        × (order'.status ≡ searching_courier)
        × (order'.courier_id ≡ none)
        × (order'.acceptance_expires_at ≡ some (now + 5 * 60 * 1000))
        × (order'.version ≡ order.version + 1)
        × (order'.merchant_total_minor ≡ order.merchant_total_minor)
        × (order'.merchant_id ≡ order.merchant_id)
        × (can_transition_in_phase_three order.status order'.status ≡ false)
  unfolding can_transition_in_phase_three acceptance_deadline
  cancel_before_pickup-leaves_table h =
      let (order, found, moved) =
        cancel_before_pickup-Moves user_id role courier_id order_id version key hash now db {r = r}
          {db' = db'} h in
      let row = get-update_self order_id (given_back now) db.orders moved.at in
      (
        order,
        moved.at,
        ground arith,
        ground arith,
        given_back now order,
        rw moved.orders row,
        refl,
        refl,
        refl,
        refl,
        refl,
        refl,
        ground arith,
      )

module _ (user_id : ℕ) (role : UserRole) (courier_id order_id : ℕ) (input : TransitionInput)
    (key hash now : ℕ) (db : Database) {r : ℕ} {db' : Database} where
  -- When a delivery commits, the window of the operational setting in force opens: from then on the
  -- order may be disputed exactly before `now` and that many hours, and completed by itself exactly
  -- from then on.
  pub deliver-window :
      {setting : Setting OperationalSetting}
      → current_setting now none db.operational_settings ≡ some setting
      → transition_transaction deliver user_id role courier_id order_id input key hash now db
        ≡ ok (r, db')
      → (order : DeliveryOrder) × (get order_id db'.orders ≡ some order)
        × ((t : ℕ)
            → (dispute_window_is_active order.status order.delivery_dispute_deadline_at t false
                ≡ true)
              ↔ (t < now + setting.value.delivery_dispute_window_hours * hour_ms))
        × ((t : ℕ)
            → (delivery_may_auto_complete order.status order.delivery_dispute_deadline_at t false
                  false
                ≡ true)
              ↔ (now + setting.value.delivery_dispute_window_hours * hour_ms ≤ t))
  unfolding transition_transaction lifecycle transitioned delivery_window delivery_dispute_deadline
      dispute_window_is_active delivery_may_auto_complete
  deliver-window {setting} s h =
      let (order, deadline, opened, found, allowed, moved) =
        command-Moves (lifecycle deliver) user_id role courier_id order_id input key hash now db
          {r = r} {db' = db'} h in
      let change = transitioned delivered input deadline now in
      let row = get-update_self order_id change db.orders moved.at in
      let end : deadline ≡ some (now + setting.value.delivery_dispute_window_hours * hour_ms) =
        ground arith in
      (
        change order,
        rw moved.orders row,
        λ t. (λ a. ground (arith, end, a), λ a. ground (arith, end, a)),
        λ t. (λ a. ground (arith, end, a), λ a. ground (arith, end, a)),
      )
