-- ===== src/Marketplace/Ends.antt =====
-- The rows of orders under the handlers of disputes, of returns and of completions.
use Prim.Native.String.{String}
use wassal.Prelude.{
  ℕ, ◌≡◌, refl, true, Option, some, List, [], ◌∷◌, inl, inr, arith, Option-cases, includes, ◌is◌,
  Bool,
}
use wassal.Contracts.Rbac.{UserRole}
use wassal.Orders.Status.{
  OrderStatus, order_status_enum, delivered, delivery_disputed, returned,
  return_awaiting_merchant_confirmation,
}
use wassal.Store.{
  DeliveryOrder, Database, OrderCompletionSource, OrderEvent, ReturnCondition, OrderEventType,
  admin_web,
}
use wassal.Store.Table.{get, update}
use wassal.Finance.Accounts.{LedgerEntry}
use wassal.Service.Transaction.{ok, Result-cases}
use wassal.Service.Queries.{courier_user}
use wassal.Operations.Domain.{dispute_window_is_active}
use wassal.Operations.Disputes.{disputed, merchant_dispute, courier_respond, dispute_event}
use wassal.Operations.Resolutions.{
  Resolution, confirm_delivery, confirm_not_delivered, require_return, target_by_resolution,
  sent_back, may_resolve, apply_resolution, resolve_dispute, resolved,
}
use wassal.Operations.Returns.{
  Confirmer, confirmed, confirmed_event, claim_once, confirm_return, return_scope, check_override,
  return_completion,
}
use wassal.Orders.Finalization.{FinalizeInput, finalized, finalize_in_transaction}
use wassal.Worker.Complete.{complete_one}
use wassal.Marketplace.Invariant.{WellFormed, is_open, is_disputed}
use wassal.Marketplace.Completion.{Completes}
use wassal.Marketplace.Finalize.{finalize-cases}
use wassal.Marketplace.DisputeSide.{grounded_order}
use wassal.Marketplace.ResolveSide.{complete_one-cases}
use wassal.Marketplace.Evolution.{
  may_move, Turn, TableEvolves, TableEvolves-refl, TableEvolves-trans, evolve_update,
}

Completes-TableEvolves :
    {id : ℕ} {order : DeliveryOrder} {source : OrderCompletionSource} {now : ℕ} {event : OrderEvent}
    {entry_id : ℕ} {entry : LedgerEntry} {db db' : Database}
    → Completes id order source now event entry_id entry db db'
    → includes (delivered ∷ delivery_disputed ∷ returned ∷ []) order.status ≡ true
    → TableEvolves db.orders db'.orders
unfolding may_move
Completes-TableEvolves {id} {order} {source} {now} {db = db} {db' = db'} m h =
    evolve_update id {order = order} (finalized source now) db.orders db'.orders m.at m.orders
      (ground arith)

module _ (shown : ℕ → ℕ) (order_id : ℕ) (input : FinalizeInput) (entry_id settlement_id now : ℕ)
    (db : Database) {db' : Database} where
  finalize-TableEvolves :
      finalize_in_transaction shown order_id input entry_id settlement_id now db ≡ ok db'
      → ((s : OrderStatus)
          → includes input.expected_statuses s ≡ true
          → includes (delivered ∷ delivery_disputed ∷ returned ∷ []) s ≡ true)
      → TableEvolves db.orders db'.orders
  finalize-TableEvolves h expects =
      elim (finalize-cases shown order_id input entry_id settlement_id now db {db' = db'} h) [
        | inl same ↦ rw same (TableEvolves-refl db.orders)
        | inr (order, courier_id, expected, done) ↦
            Completes-TableEvolves done (expects order.status expected)
      ]

pub complete_one-TableEvolves :
    (order_id entry_id settlement_id now : ℕ) (db : Database) {db' : Database}
    → complete_one order_id entry_id settlement_id now db ≡ ok (some db')
    → TableEvolves db.orders db'.orders
complete_one-TableEvolves order_id entry_id settlement_id now db h =
    let (order, courier_id, due, done) =
      complete_one-cases order_id entry_id settlement_id now db h in
    Completes-TableEvolves done (ground arith)

disputed-Turn : (order : DeliveryOrder) → order.status ≡ delivered → Turn order (disputed order)
unfolding may_move
disputed-Turn order h = ground arith

pub merchant_dispute-TableEvolves :
    (user_id : ℕ) (role : UserRole) (merchant_id : ℕ) (membership_role : UserRole)
    (order_id version : ℕ) (admins : List ℕ) (dispute_id now : ℕ) (db : Database) {r : ℕ}
    {db' : Database}
    → merchant_dispute user_id role merchant_id membership_role order_id version admins dispute_id
        now db
      ≡ ok (r, db')
    → TableEvolves db.orders db'.orders
unfolding merchant_dispute dispute_window_is_active
merchant_dispute-TableEvolves user_id role merchant_id membership_role order_id version admins
      dispute_id now db {db' = db'} h =
    elim (Option-cases (get order_id db.orders)) [
      | inl missing ↦ absurd (ground arith)
      | inr (order, at) ↦ elim (Option-cases order.courier_id) [
        | inl unassigned ↦ absurd (ground arith)
        | inr (courier_id, held) ↦ elim (Option-cases (courier_user courier_id db.couriers)) [
          | inl unknown ↦ absurd (ground arith)
          | inr (courier, u) ↦
              evolve_update order_id {order = order} disputed db.orders db'.orders at (ground arith)
                (disputed-Turn order (ground arith))
        ]
      ]
    ]

pub courier_respond-orders :
    (user_id courier_id order_id version : ℕ) (response : String) (paper_proof : Bool) (now : ℕ)
    (db : Database) {r : ℕ} {db' : Database}
    → courier_respond user_id courier_id order_id version response paper_proof now db ≡ ok (r, db')
    → db'.orders ≡ db.orders
unfolding courier_respond
courier_respond-orders user_id courier_id order_id version response paper_proof now db h =
    ground arith

module _ (shown : ℕ → ℕ) (user_id : ℕ) (role : UserRole) (order_id : ℕ) (note : String)
    (entry_id settlement_id now : ℕ) (db : Database) {order : DeliveryOrder} {db' : Database} where
  apply_resolution-TableEvolves :
      (resolution : Resolution)
      → apply_resolution shown user_id role order_id resolution note entry_id settlement_id now db
        ≡ ok db'
      → get order_id db.orders ≡ some order
      → is_disputed order.status ≡ true
      → TableEvolves db.orders db'.orders
  unfolding apply_resolution target_by_resolution may_move sent_back
  apply_resolution-TableEvolves confirm_delivery h at held =
      finalize-TableEvolves shown order_id _ entry_id settlement_id now db {db' = db'} h
        (λ s e. ground arith)
  apply_resolution-TableEvolves confirm_not_delivered h at held =
      evolve_update order_id {order = order} (sent_back confirm_not_delivered note) db.orders
        db'.orders at (ground arith) (ground arith)
  apply_resolution-TableEvolves require_return h at held =
      evolve_update order_id {order = order} (sent_back require_return note) db.orders db'.orders at
        (ground arith) (ground arith)

module _ (shown : ℕ → ℕ) (user_id : ℕ) (role : UserRole) (dispute_id version : ℕ)
    (resolution : Resolution) (note : String) (entry_id settlement_id now : ℕ) (db : Database)
    {r : ℕ} {db' : Database} where
  pub resolve_dispute-TableEvolves :
      resolve_dispute shown user_id role dispute_id version resolution note entry_id settlement_id
          now db
        ≡ ok (r, db')
      → WellFormed db
      → TableEvolves db.orders db'.orders
  unfolding resolve_dispute
  resolve_dispute-TableEvolves h w = elim (Option-cases (get dispute_id db.disputes)) [
    | inl missing ↦ absurd (ground arith)
    | inr (d, at) ↦ elim (Option-cases (get d.order_id db.orders)) [
      | inl unknown ↦ absurd (ground arith)
      | inr (order, here) ↦
          let allowed : may_resolve version d ≡ true = ground arith in
          let opened : is_open d.status ≡ true = ground arith in
          let held = grounded_order dispute_id {d = d} {o = order} db w at opened here in
          let event =
            dispute_event d.order_id OrderEventType.delivery_dispute_resolved delivery_disputed
              (target_by_resolution resolution) user_id role admin_web in
          let closed = record db {
            disputes = update dispute_id (resolved resolution note user_id now) db.disputes;
            events = event ∷ db.events;
          } in
          elim (Result-cases (
            apply_resolution shown user_id role d.order_id resolution note entry_id settlement_id
              now closed)) [
                | inl (fault, refused) ↦ absurd (ground arith)
                | inr (after, done) ↦
                    let same : db'.orders ≡ after.orders = ground arith in
                    rw same (
                      apply_resolution-TableEvolves shown user_id role d.order_id note entry_id
                        settlement_id now closed {order = order} {db' = after} resolution done here
                        held)
              ]
    ]
  ]

confirmed-Turn :
    (user_id : ℕ) (condition : ReturnCondition) (remark : Option String) (now : ℕ)
    (order : DeliveryOrder)
    → (order.status is return_awaiting_merchant_confirmation) ≡ true
    → Turn order (confirmed user_id condition remark now order)
unfolding may_move
confirmed-Turn user_id condition remark now order h = ground arith

module _ (shown : ℕ → ℕ) (user_id : ℕ) (role : UserRole) (confirmer : Confirmer)
    (order_id version : ℕ) (condition : ReturnCondition) (note : Option String)
    (key hash entry_id settlement_id now : ℕ) (db : Database) {r : ℕ} {db' : Database} where
  pub confirm_return-TableEvolves :
      confirm_return shown user_id role confirmer order_id version condition note key hash entry_id
          settlement_id now db
        ≡ ok (r, db')
      → TableEvolves db.orders db'.orders
  unfolding confirm_return
  confirm_return-TableEvolves h =
      elim (Result-cases
        (claim_once (return_scope confirmer order_id) key hash now db.idempotency)) [
          | inl (fault, refused) ↦ absurd (ground arith)
          | inr (claimed, c) ↦ elim (Option-cases (get order_id db.orders)) [
            | inl missing ↦ absurd (ground arith)
            | inr (order, at) ↦ elim (Result-cases (check_override confirmer order now db)) [
              | inl (fault, refused) ↦ absurd (ground arith)
              | inr (checked, k) ↦
                  let awaited : (order.status is return_awaiting_merchant_confirmation) ≡ true =
                    ground arith in
                  let change = confirmed user_id condition note now in
                  let moved = record db {
                    orders = update order_id change db.orders;
                    events = confirmed_event order_id confirmer user_id role ∷ db.events;
                    idempotency = claimed;
                  } in
                  let input = return_completion confirmer user_id role in
                  elim (Result-cases (
                    finalize_in_transaction shown order_id input entry_id settlement_id now
                      moved)) [
                        | inl (fault, refused) ↦ absurd (ground arith)
                        | inr (after, done) ↦
                            let same : db'.orders ≡ after.orders = ground arith in
                            rw same (
                              TableEvolves-trans db.orders moved.orders after.orders
                                (evolve_update order_id {order = order} change db.orders
                                  moved.orders at refl
                                  (confirmed-Turn user_id condition note now order awaited))
                                (finalize-TableEvolves shown order_id input entry_id settlement_id
                                  now moved {db' = after} done (λ s e. ground arith)))
                      ]
            ]
          ]
        ]
