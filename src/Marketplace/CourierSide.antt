-- ===== src/Marketplace/CourierSide.antt =====
-- The courier's handlers and the invariant of the marketplace.
use wassal.Prelude.{ℕ, ◌≡◌, true, Option, inl, inr, arith, Option-cases}
use wassal.Contracts.Rbac.{UserRole}
use wassal.Orders.Status.{can_transition_in_phase_three}
use wassal.Store.{DeliveryOrder, Database}
use wassal.Store.Table.{get, matches}
use wassal.Service.Transaction.{ok, Result-cases}
use wassal.Marketplace.Invariant.{WellFormed}
use wassal.Marketplace.Moves.{Moves, IsCalmStep, Moves-WellFormed}
use wassal.CourierOrders.Accept.{assigned, awaits_acceptance, accepted_event, accept_transaction}
use wassal.CourierOrders.Lifecycle.{
  Action, arriving_pickup, lifecycle, Command, TransitionInput, awaits_action, transitioned,
  lifecycle_event, command_transaction, transition_transaction, delivery_window,
}
use wassal.CourierOrders.Cancel.{
  may_give_back, given_back, given_back_event, cancel_before_pickup_transaction,
}

module _ (user_id : ℕ) (role : UserRole) (order_id version now : ℕ) (order : DeliveryOrder) where
  accepted-IsCalmStep :
      (courier_id : ℕ)
      → awaits_acceptance version now order ≡ true
      → IsCalmStep order_id order (assigned courier_id) (accepted_event order_id user_id role)
  accepted-IsCalmStep courier_id h = (
    record {
      keeps = λ c. ground arith;
      names = ground arith;
      records = ground arith;
      unfinished = ground arith;
      still_unfinished = ground arith;
    },
    ground arith,
  )

  given_back-IsCalmStep :
      (courier_id : ℕ)
      → may_give_back courier_id version order ≡ true
      → IsCalmStep order_id order
          (given_back now)
          (given_back_event order_id order.status user_id role)
  given_back-IsCalmStep courier_id h = (
    record {
      keeps = λ c. ground arith;
      names = ground arith;
      records = ground arith;
      unfinished = ground arith;
      still_unfinished = ground arith;
    },
    ground arith,
  )

module _ (user_id : ℕ) (role : UserRole) (courier_id order_id version key hash now : ℕ)
    (db : Database) {r : ℕ} {db' : Database} where
  pub accept-Moves :
      accept_transaction user_id role courier_id order_id version key hash now db ≡ ok (r, db')
      → (order : DeliveryOrder) × (awaits_acceptance version now order ≡ true)
        × Moves order_id order (assigned courier_id) (accepted_event order_id user_id role) db db'
  unfolding accept_transaction matches
  accept-Moves h = elim (Option-cases (get order_id db.orders)) [
    | inl missing ↦ ground arith
    | inr (order, e) ↦ (order, ground arith, ground arith)
  ]

  pub accept-WellFormed :
      accept_transaction user_id role courier_id order_id version key hash now db ≡ ok (r, db')
      → WellFormed db
      → WellFormed db'
  accept-WellFormed h w =
      let (order, found, moved) = accept-Moves h in
      Moves-WellFormed moved
        (accepted-IsCalmStep user_id role order_id version now order courier_id found) w

  pub cancel_before_pickup-Moves :
      cancel_before_pickup_transaction user_id role courier_id order_id version key hash now db
        ≡ ok (r, db')
      → (order : DeliveryOrder) × (may_give_back courier_id version order ≡ true)
        × Moves order_id order
            (given_back now)
            (given_back_event order_id order.status user_id role)
            db
            db'
  unfolding cancel_before_pickup_transaction matches
  cancel_before_pickup-Moves h = elim (Option-cases (get order_id db.orders)) [
    | inl missing ↦ ground arith
    | inr (order, e) ↦ (order, ground arith, ground arith)
  ]

  pub cancel_before_pickup-WellFormed :
      cancel_before_pickup_transaction user_id role courier_id order_id version key hash now db
        ≡ ok (r, db')
      → WellFormed db
      → WellFormed db'
  cancel_before_pickup-WellFormed h w =
      let (order, found, moved) = cancel_before_pickup-Moves h in
      Moves-WellFormed moved
        (given_back-IsCalmStep user_id role order_id version now order courier_id found) w

module _ (command : Command) (user_id : ℕ) (role : UserRole) (courier_id order_id : ℕ)
    (input : TransitionInput) (key hash now : ℕ) (db : Database) {r : ℕ} {db' : Database} where
  pub command-Moves :
      command_transaction command user_id role courier_id order_id input key hash now db
        ≡ ok (r, db')
      → (order : DeliveryOrder) × (deadline : Option ℕ) × (delivery_window command.to now db
          ≡ ok deadline)
        × (awaits_action command courier_id input.version order ≡ true)
        × (can_transition_in_phase_three order.status command.to ≡ true)
        × Moves order_id order
            (transitioned command.to input deadline now)
            (lifecycle_event order_id command order.status user_id role)
            db
            db'
  unfolding command_transaction matches
  command-Moves h = elim (Option-cases (get order_id db.orders)) [
    | inl missing ↦ ground arith
    | inr (order, e) ↦ elim (Result-cases (delivery_window command.to now db)) [
      | inl (fault, refused) ↦ ground arith
      | inr (deadline, opened) ↦ (order, deadline, opened, ground arith, ground arith, ground arith)
    ]
  ]

transitioned-IsCalmStep :
    (action : Action) (user_id : ℕ) (role : UserRole) (courier_id order_id : ℕ)
    (input : TransitionInput) (deadline : Option ℕ) (now : ℕ) (order : DeliveryOrder)
    → awaits_action (lifecycle action) courier_id input.version order ≡ true
    → IsCalmStep order_id order
        (transitioned (lifecycle action).to input deadline now)
        (lifecycle_event order_id (lifecycle action) order.status user_id role)
unfolding lifecycle transitioned
transitioned-IsCalmStep arriving_pickup user_id role courier_id order_id input deadline now order
      h =
    (
      record {
        keeps = λ c. ground arith;
        names = ground arith;
        records = ground arith;
        unfinished = ground arith;
        still_unfinished = ground arith;
      },
      ground arith,
    )
transitioned-IsCalmStep _ user_id role courier_id order_id input deadline now order h = (
  record {
    keeps = λ c. ground arith;
    names = ground arith;
    records = ground arith;
    unfinished = ground arith;
    still_unfinished = ground arith;
  },
  ground arith,
)

pub transition-WellFormed :
    (action : Action) (user_id : ℕ) (role : UserRole) (courier_id order_id : ℕ)
    (input : TransitionInput) (key hash now : ℕ) (db : Database) {r : ℕ} {db' : Database}
    → transition_transaction action user_id role courier_id order_id input key hash now db
      ≡ ok (r, db')
    → WellFormed db
    → WellFormed db'
unfolding transition_transaction
transition-WellFormed action user_id role courier_id order_id input key hash now db h w =
    let (order, deadline, opened, found, allowed, moved) =
      command-Moves (lifecycle action) user_id role courier_id order_id input key hash now db h in
    Moves-WellFormed moved
      (transitioned-IsCalmStep action user_id role courier_id order_id input deadline now order
        found)
      w
