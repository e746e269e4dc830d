-- ===== src/Marketplace/Turns.antt =====
-- The rows of orders under each handler.
use wassal.Prelude.{
  ℕ, suc, ◌≡◌, true, Option, some, List, [], ◌∷◌, inl, inr, arith, Option-cases, Bool-cases, ◌||◌,
  ◌is◌,
}
use wassal.Contracts.Rbac.{Role, UserRole}
use wassal.Orders.Status.{
  OrderStatus, order_status_enum, cancelled, CancellationDecision, merchant_cancellation_decision,
  can_transition_in_phase_three,
}
use wassal.Store.{DeliveryOrder, Database, OrderEventSource, OrderEvent, order_cancel}
use wassal.Store.Table.{get}
use wassal.Service.Transaction.{ok, Result-cases}
use wassal.Service.Idempotency.{claim_idempotency}
use wassal.CourierOrders.Accept.{assigned, awaits_acceptance, accept_transaction}
use wassal.CourierOrders.Lifecycle.{
  Action, lifecycle, TransitionInput, transitioned, transition_transaction,
}
use wassal.CourierOrders.Cancel.{may_give_back, given_back, cancel_before_pickup_transaction}
use wassal.MerchantOrders.Retry.{awaits_retry, searching_again, retry_courier_search}
use wassal.MerchantOrders.Cancel.{CancelInput, cancelled_by, cancel_transaction}
use wassal.Worker.Expire.{
  is_overdue, attempt_of, timeout_status, expired_order, expire_one, expire_all,
}
use wassal.Marketplace.Moves.{Moves}
use wassal.Marketplace.CourierSide.{accept-Moves, cancel_before_pickup-Moves, command-Moves}
use wassal.Marketplace.MerchantSide.{retry-Moves, cancel_order-Moves}
use wassal.Marketplace.WorkerSide.{expire_one-Moves}
use wassal.Marketplace.Evolution.{
  may_move, Turn, TableEvolves, TableEvolves-refl, TableEvolves-trans, evolve_update,
}

pub Moves-TableEvolves :
    {id : ℕ} {order : DeliveryOrder} {change : DeliveryOrder → DeliveryOrder} {event : OrderEvent}
    {db db' : Database}
    → Moves id order change event db db'
    → Turn order (change order)
    → TableEvolves db.orders db'.orders
Moves-TableEvolves {id} {order} {change} {event} {db} {db'} m t =
    evolve_update id {order = order} change db.orders db'.orders m.at m.orders t

accepted-Turn :
    (courier_id version now : ℕ) (order : DeliveryOrder)
    → awaits_acceptance version now order ≡ true
    → Turn order (assigned courier_id order)
unfolding may_move
accepted-Turn courier_id version now order h = ground arith

pub accept-TableEvolves :
    (user_id : ℕ) (role : UserRole) (courier_id order_id version key hash now : ℕ) (db : Database)
    {r : ℕ} {db' : Database}
    → accept_transaction user_id role courier_id order_id version key hash now db ≡ ok (r, db')
    → TableEvolves db.orders db'.orders
accept-TableEvolves user_id role courier_id order_id version key hash now db h =
    let (order, found, moved) =
      accept-Moves user_id role courier_id order_id version key hash now db h in
    Moves-TableEvolves moved (accepted-Turn courier_id version now order found)

given_back-Turn :
    (courier_id version now : ℕ) (order : DeliveryOrder)
    → may_give_back courier_id version order ≡ true
    → Turn order (given_back now order)
unfolding may_move
given_back-Turn courier_id version now order h = ground arith

pub cancel_before_pickup-TableEvolves :
    (user_id : ℕ) (role : UserRole) (courier_id order_id version key hash now : ℕ) (db : Database)
    {r : ℕ} {db' : Database}
    → cancel_before_pickup_transaction user_id role courier_id order_id version key hash now db
      ≡ ok (r, db')
    → TableEvolves db.orders db'.orders
cancel_before_pickup-TableEvolves user_id role courier_id order_id version key hash now db h =
    let (order, found, moved) =
      cancel_before_pickup-Moves user_id role courier_id order_id version key hash now db h in
    Moves-TableEvolves moved (given_back-Turn courier_id version now order found)

transitioned-Turn :
    (to : OrderStatus) (input : TransitionInput) (deadline : Option ℕ) (now : ℕ)
    (order : DeliveryOrder)
    → can_transition_in_phase_three order.status to ≡ true
    → Turn order (transitioned to input deadline now order)
unfolding may_move transitioned
transitioned-Turn to input deadline now order h = ground arith

pub transition-TableEvolves :
    (action : Action) (user_id : ℕ) (role : UserRole) (courier_id order_id : ℕ)
    (input : TransitionInput) (key hash now : ℕ) (db : Database) {r : ℕ} {db' : Database}
    → transition_transaction action user_id role courier_id order_id input key hash now db
      ≡ ok (r, db')
    → TableEvolves db.orders db'.orders
unfolding transition_transaction
transition-TableEvolves action user_id role courier_id order_id input key hash now db h =
    let (order, deadline, opened, found, allowed, moved) =
      command-Moves (lifecycle action) user_id role courier_id order_id input key hash now db h in
    Moves-TableEvolves moved
      (transitioned-Turn (lifecycle action).to input deadline now order allowed)

retried-Turn :
    (merchant_id version now : ℕ) (order : DeliveryOrder)
    → awaits_retry merchant_id version order ≡ true
    → Turn order (searching_again now order)
unfolding may_move
retried-Turn merchant_id version now order h = ground arith

pub retry-TableEvolves :
    (user_id : ℕ) (role : Role) (merchant_id : ℕ) (membership_role : UserRole)
    (order_id version key hash now : ℕ) (db : Database) {r : ℕ} {db' : Database}
    → retry_courier_search user_id role merchant_id membership_role order_id version key hash now db
      ≡ ok (r, db')
    → TableEvolves db.orders db'.orders
retry-TableEvolves user_id role merchant_id membership_role order_id version key hash now db h =
    let (order, found, moved) =
      retry-Moves user_id role merchant_id membership_role order_id version key hash now db h in
    Moves-TableEvolves moved (retried-Turn merchant_id version now order found)

cancelled-Turn :
    (user_id : ℕ) (role : UserRole) (input : CancelInput) (now : ℕ) (order : DeliveryOrder)
    (decision : CancellationDecision)
    → merchant_cancellation_decision order.status order.merchant_total_minor ≡ some decision
    → Turn order (cancelled_by user_id role input decision now order)
unfolding may_move cancelled_by merchant_cancellation_decision
cancelled-Turn user_id role input now order decision h = ground arith

pub cancel-TableEvolves :
    (user_id : ℕ) (role : UserRole) (order_id : ℕ) (merchant_id : Option ℕ) (input : CancelInput)
    (source : OrderEventSource) (key hash now : ℕ) (db : Database) {r : ℕ} {db' : Database}
    → cancel_transaction user_id role order_id merchant_id input source key hash now db
      ≡ ok (r, db')
    → TableEvolves db.orders db'.orders
unfolding cancel_transaction
cancel-TableEvolves user_id role order_id merchant_id input source key hash now db {r} {db'} h =
    elim (Result-cases (claim_idempotency (order_cancel order_id) key hash now db.idempotency)) [
      | inl (fault, refused) ↦ absurd (ground arith)
      | inr (claimed, e) ↦ elim (Option-cases (get order_id db.orders)) [
        | inl missing ↦ absurd (ground arith)
        | inr (order, at) ↦
            elim (Bool-cases (order.status is cancelled || order.cancelled_after_pickup)) [
              | inl again ↦
                  let same : db'.orders ≡ db.orders = ground arith in
                  rw same (TableEvolves-refl db.orders)
              | inr first ↦
                  let (decision, taken, found, moved) =
                    cancel_order-Moves user_id role order_id order input source key now
                      (record db { idempotency = claimed }) {r = r} {db' = db'} at (ground arith) in
                  Moves-TableEvolves moved
                    (cancelled-Turn user_id role input now order decision taken)
            ]
      ]
    ]

expired-Turn :
    (now : ℕ) (order : DeliveryOrder)
    → is_overdue now order ≡ true
    → Turn order (expired_order (timeout_status (attempt_of order)) order)
unfolding may_move timeout_status
expired-Turn now order h = ground arith

pub expire_all-TableEvolves :
    (now : ℕ) (candidates : List ℕ) (count : ℕ) (db : Database)
    → TableEvolves db.orders (expire_all now candidates count db).1.orders
unfolding expire_all
expire_all-TableEvolves now [] count db = TableEvolves-refl db.orders
expire_all-TableEvolves now (candidate ∷ candidates) count db =
    elim (Option-cases (expire_one now candidate db)) [
      | inl kept ↦ rw (kept, expire_all) (expire_all-TableEvolves now candidates count db)
      | inr (db', e) ↦
          let (order, found, moved) = expire_one-Moves now candidate db e in
          rw (e, expire_all)
            (TableEvolves-trans _ _ _ (Moves-TableEvolves moved (expired-Turn now order found))
              (expire_all-TableEvolves now candidates (suc count) db'))
    ]
