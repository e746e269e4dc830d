-- ===== src/Orders/FinalizedOnce.antt =====
-- How often an order is completed.
use wassal.Prelude.{ℕ, ◌≡◌, refl, true, some, inl, inr, arith, Option-cases, Bool-cases, is_some}
use wassal.Orders.Status.{order_status_enum}
use wassal.Store.{DeliveryOrder, Database}
use wassal.Store.Table.{get, get-update_self}
use wassal.Service.Transaction.{ok}
use wassal.Service.Queries.{courier_user}
use wassal.Orders.Finalization.{FinalizeInput, finalized, complete_order, finalize_in_transaction}
use wassal.Marketplace.Finalize.{complete_order-Completes}

module _ (shown : ℕ → ℕ) (order_id : ℕ) (input : FinalizeInput) (entry_id settlement_id now : ℕ)
    (db : Database) {db' : Database} where
  finalize-couriers :
      finalize_in_transaction shown order_id input entry_id settlement_id now db ≡ ok db'
      → db'.couriers ≡ db.couriers
  unfolding finalize_in_transaction complete_order
  finalize-couriers h = ground arith

module _ (shown : ℕ → ℕ) (order_id : ℕ) (input : FinalizeInput) (entry_id settlement_id now : ℕ)
    (db : Database) where
  -- A completion that finds a finalized order of a known courier changes nothing.
  finalize-finalized :
      {order : DeliveryOrder} {courier_id user_id : ℕ}
      → get order_id db.orders ≡ some order
      → order.courier_id ≡ some courier_id
      → courier_user courier_id db.couriers ≡ some user_id
      → is_some order.financial_finalized_at ≡ true
      → finalize_in_transaction shown order_id input entry_id settlement_id now db ≡ ok db
  unfolding finalize_in_transaction
  finalize-finalized at held u done = ground arith

-- Once a completion of an order has returned, every other one, whatever its expected statuses, its
-- actor and its time, returns and changes nothing: no second commission is posted.
pub finalize-once :
    (shown : ℕ → ℕ) (order_id : ℕ) (input : FinalizeInput) (entry_id settlement_id now : ℕ)
    (db : Database) {db' : Database} (again : FinalizeInput) (entry_id2 settlement_id2 later : ℕ)
    → finalize_in_transaction shown order_id input entry_id settlement_id now db ≡ ok db'
    → finalize_in_transaction shown order_id again entry_id2 settlement_id2 later db' ≡ ok db'
unfolding finalize_in_transaction
finalize-once shown order_id input entry_id settlement_id now db {db'} again entry_id2
      settlement_id2 later h =
    elim (Option-cases (get order_id db.orders)) [
      | inl missing ↦ absurd (ground arith)
      | inr (order, at) ↦ elim (Option-cases order.courier_id) [
        | inl unassigned ↦ absurd (ground arith)
        | inr (courier_id, held) ↦ elim (Option-cases (courier_user courier_id db.couriers)) [
          | inl unknown ↦ absurd (ground arith)
          | inr (user_id, u) ↦
              let kept =
                finalize-couriers shown order_id input entry_id settlement_id now db {db' = db'}
                  h in
              let u' : courier_user courier_id db'.couriers ≡ some user_id = rw kept u in
              elim (Bool-cases (is_some order.financial_finalized_at)) [
                | inl before ↦
                    let same : db' ≡ db = ground arith in
                    rw same (
                      finalize-finalized shown order_id again entry_id2 settlement_id2 later db
                        {order = order} at held u before)
                | inr first ↦
                    let h' : complete_order shown order_id order courier_id user_id input entry_id
                          settlement_id now db
                        ≡ ok db' =
                      ground arith in
                    let done =
                      complete_order-Completes shown order_id order courier_id user_id input
                        entry_id settlement_id now db {db' = db'} at (rw held) h' in
                    let row =
                      get-update_self order_id (finalized input.completion_source now) db.orders
                        at in
                    let there : get order_id db'.orders
                        ≡ some (finalized input.completion_source now order) =
                      rw done.orders row in
                    finalize-finalized shown order_id again entry_id2 settlement_id2 later db'
                      {order = finalized input.completion_source now order} there held u' refl
              ]
        ]
      ]
    ]
