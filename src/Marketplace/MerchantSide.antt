-- ===== src/Marketplace/MerchantSide.antt =====
-- The merchant's and the administrators' handlers and the invariant of the marketplace.
use wassal.Prelude.{
  ℕ, ◌≡◌, refl, true, Option, some, inl, inr, arith, Option-cases, ◌||◌, Bool-cases, ◌is◌,
}
use wassal.Contracts.Rbac.{Role, UserRole}
use wassal.Orders.Status.{
  cancelled, CancellationDecision, merchant_cancellation_decision, order_status_enum,
}
use wassal.Store.{DeliveryOrder, Database, OrderEventSource, order_cancel}
use wassal.Store.Table.{get, matches}
use wassal.Service.Transaction.{ok, Result-cases}
use wassal.Service.Idempotency.{claim_idempotency}
use wassal.Marketplace.Invariant.{WellFormed}
use wassal.Marketplace.Moves.{Moves, IsCalmStep, Moves-WellFormed, WellFormed-same}
use wassal.MerchantOrders.Retry.{
  awaits_retry, searching_again, restarted_event, retry_courier_search,
}
use wassal.MerchantOrders.Cancel.{
  CancelInput, awaits_cancellation, cancelled_by, cancellation_event, cancel_order,
  cancel_transaction,
}

module _ (user_id : ℕ) (role : Role) (merchant_id : ℕ) (membership_role : UserRole)
    (order_id version key hash now : ℕ) (db : Database) {r : ℕ} {db' : Database} where
  pub retry-Moves :
      retry_courier_search user_id role merchant_id membership_role order_id version key hash now db
        ≡ ok (r, db')
      → (order : DeliveryOrder) × (awaits_retry merchant_id version order ≡ true)
        × Moves order_id order
            (searching_again now)
            (restarted_event order_id user_id membership_role)
            db
            db'
  unfolding retry_courier_search matches
  retry-Moves h = elim (Option-cases (get order_id db.orders)) [
    | inl missing ↦ ground arith
    | inr (order, e) ↦ (order, ground arith, ground arith)
  ]

retried-IsCalmStep :
    (user_id merchant_id order_id version now : ℕ) (role : UserRole) (order : DeliveryOrder)
    → awaits_retry merchant_id version order ≡ true
    → IsCalmStep order_id order (searching_again now) (restarted_event order_id user_id role)
retried-IsCalmStep user_id merchant_id order_id version now role order h = (
  record {
    keeps = λ c. ground arith;
    names = ground arith;
    records = ground arith;
    unfinished = ground arith;
    still_unfinished = ground arith;
  },
  ground arith,
)

pub retry-WellFormed :
    (user_id : ℕ) (role : Role) (merchant_id : ℕ) (membership_role : UserRole)
    (order_id version key hash now : ℕ) (db : Database) {r : ℕ} {db' : Database}
    → retry_courier_search user_id role merchant_id membership_role order_id version key hash now db
      ≡ ok (r, db')
    → WellFormed db
    → WellFormed db'
retry-WellFormed user_id role merchant_id membership_role order_id version key hash now db h w =
    let (order, found, moved) =
      retry-Moves user_id role merchant_id membership_role order_id version key hash now db h in
    Moves-WellFormed moved
      (retried-IsCalmStep user_id merchant_id order_id version now membership_role order found) w

module _ (user_id : ℕ) (role : UserRole) (order_id : ℕ) (order : DeliveryOrder)
    (input : CancelInput) (source : OrderEventSource) where
  pub cancel_order-Moves :
      (key now : ℕ) (db : Database) {r : ℕ} {db' : Database}
      → get order_id db.orders ≡ some order
      → cancel_order user_id role order_id order input source key now db ≡ ok (r, db')
      → (decision : CancellationDecision) × (merchant_cancellation_decision order.status
            order.merchant_total_minor
          ≡ some decision)
        × (awaits_cancellation order.status input.version order ≡ true)
        × Moves order_id order
            (cancelled_by user_id role input decision now)
            (cancellation_event order_id order.status decision user_id role source)
            db
            db'
  unfolding cancel_order matches
  cancel_order-Moves key now db at h =
      elim (Option-cases (merchant_cancellation_decision order.status order.merchant_total_minor)) [
        | inl refused ↦ ground arith
        | inr (decision, e) ↦ (decision, e, ground arith, ground arith)
      ]

  cancelled-IsCalmStep :
      (now : ℕ) (decision : CancellationDecision)
      → merchant_cancellation_decision order.status order.merchant_total_minor ≡ some decision
      → IsCalmStep order_id order
          (cancelled_by user_id role input decision now)
          (cancellation_event order_id order.status decision user_id role source)
  unfolding cancelled_by merchant_cancellation_decision
  cancelled-IsCalmStep now decision h = (
    record {
      keeps = λ c. ground arith;
      names = ground arith;
      records = ground arith;
      unfinished = ground arith;
      still_unfinished = ground arith;
    },
    ground arith,
  )

pub cancel-WellFormed :
    (user_id : ℕ) (role : UserRole) (order_id : ℕ) (merchant_id : Option ℕ) (input : CancelInput)
    (source : OrderEventSource) (key hash now : ℕ) (db : Database) {r : ℕ} {db' : Database}
    → cancel_transaction user_id role order_id merchant_id input source key hash now db
      ≡ ok (r, db')
    → WellFormed db
    → WellFormed db'
unfolding cancel_transaction
cancel-WellFormed user_id role order_id merchant_id input source key hash now db {r} {db'} h w =
    elim (Result-cases (claim_idempotency (order_cancel order_id) key hash now db.idempotency)) [
      | inl (fault, refused) ↦ absurd (ground arith)
      | inr (claimed, e) ↦ elim (Option-cases (get order_id db.orders)) [
        | inl missing ↦ absurd (ground arith)
        | inr (order, at) ↦
            elim (Bool-cases (order.status is cancelled || order.cancelled_after_pickup)) [
              | inl again ↦
                  WellFormed-same db db' (ground arith) (ground arith) (ground arith) (ground arith)
                    w
              | inr first ↦
                  let (decision, taken, found, moved) =
                    cancel_order-Moves user_id role order_id order input source key now
                      (record db { idempotency = claimed }) {r = r} {db' = db'} at (ground arith) in
                  Moves-WellFormed moved
                    (cancelled-IsCalmStep user_id role order_id order input source now decision
                      taken)
                    (WellFormed-same db (record db { idempotency = claimed }) refl refl refl refl w)
            ]
      ]
    ]
