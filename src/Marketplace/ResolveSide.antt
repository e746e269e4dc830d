-- ===== src/Marketplace/ResolveSide.antt =====
-- The end of a dispute, of a return and of an undisputed delivery, and the invariant.
use Prim.Native.String.{String}
use wassal.Prelude.{
  ℕ, ◌≡◌, refl, true, false, Option, none, some, ◌∷◌, inl, inr, arith, Option-cases, ◌&&◌, ◌is◌,
  ◌==◌,
}
use wassal.Contracts.Rbac.{UserRole}
use wassal.Orders.Status.{
  order_status_enum, delivered, delivery_disputed, return_awaiting_merchant_confirmation,
}
use wassal.Store.{
  DeliveryOrder, DeliveryDispute, Database, ReturnCondition, admin_web, OrderEventType,
  dispute_window_expired, worker,
}
use wassal.Store.Table.{get, update, matches}
use wassal.Service.Transaction.{ok, Result-cases}
use wassal.Service.Queries.{courier_user, current_setting}
use wassal.Operations.Disputes.{dispute_event}
use wassal.Operations.Resolutions.{
  Resolution, confirm_delivery, confirm_not_delivered, require_return, target_by_resolution,
  status_by_resolution, resolved, may_resolve, apply_resolution, resolve_dispute,
}
use wassal.Operations.Returns.{
  Confirmer, confirmed, confirmed_event, claim_once, confirm_return, return_scope, check_override,
  return_completion,
}
use wassal.Orders.Finalization.{completed_event, commission_entry, finalize_in_transaction}
use wassal.Worker.Complete.{is_due, post_worker_commission, complete_delivered, complete_one}
use wassal.Marketplace.Invariant.{WellFormed, is_open}
use wassal.Marketplace.Moves.{
  IsCalmStep, IsQuiet, IsQuiet-of_calm, Moves-WellFormed, WellFormed-same,
}
use wassal.Marketplace.Completion.{Completes, Completes-WellFormed}
use wassal.Marketplace.Finalize.{finalize-WellFormed}
use wassal.Marketplace.DisputeRows.{IsQuiet-after_close}
use wassal.Marketplace.DisputeSide.{grounded_order, with_dispute, with_dispute-WellFormed}
use wassal.Marketplace.Resolving.{apply_resolution-WellFormed}

resolved-closes :
    (resolution : Resolution) (note : String) (user_id now : ℕ) (d : DeliveryDispute)
    → is_open (resolved resolution note user_id now d).status ≡ false
unfolding status_by_resolution
resolved-closes confirm_delivery note user_id now d = refl
resolved-closes confirm_not_delivered note user_id now d = refl
resolved-closes require_return note user_id now d = refl

module _ (shown : ℕ → ℕ) (user_id : ℕ) (role : UserRole) (dispute_id version : ℕ)
    (resolution : Resolution) (note : String) (entry_id settlement_id now : ℕ) (db : Database)
    {r : ℕ} {db' : Database} where
  pub resolve_dispute-WellFormed :
      resolve_dispute shown user_id role dispute_id version resolution note entry_id settlement_id
          now db
        ≡ ok (r, db')
      → WellFormed db
      → WellFormed db'
  unfolding resolve_dispute
  resolve_dispute-WellFormed h w = elim (Option-cases (get dispute_id db.disputes)) [
    | inl missing ↦ absurd (ground arith)
    | inr (d, at) ↦ elim (Option-cases (get d.order_id db.orders)) [
      | inl unknown ↦ absurd (ground arith)
      | inr (order, here) ↦
          let allowed : may_resolve version d ≡ true = ground arith in
          let opened : is_open d.status ≡ true = ground arith in
          let held = grounded_order dispute_id {d = d} {o = order} db w at opened here in
          let close = resolved resolution note user_id now in
          let closed = with_dispute dispute_id close db in
          let v : WellFormed closed =
            with_dispute-WellFormed dispute_id close db (λ e. refl)
              (λ e at' still. ground (arith, still, resolved-closes resolution note user_id now e))
              w in
          let quiet : IsQuiet d.order_id closed.disputes =
            IsQuiet-after_close dispute_id {d = d} close db.disputes
              (resolved-closes resolution note user_id now) w.indexed at in
          let event =
            dispute_event d.order_id OrderEventType.delivery_dispute_resolved delivery_disputed
              (target_by_resolution resolution) user_id role admin_web in
          elim (Result-cases (
            apply_resolution shown user_id role d.order_id resolution note entry_id settlement_id
              now (record closed { events = event ∷ closed.events }))) [
                | inl (fault, refused) ↦ absurd (ground arith)
                | inr (after, done) ↦
                    WellFormed-same after db' (ground arith) (ground arith) (ground arith)
                      (ground arith)
                      (apply_resolution-WellFormed shown user_id role d.order_id note entry_id
                        settlement_id now closed {order = order} {db' = after} resolution done here
                        held quiet v)
              ]
    ]
  ]

confirmed-IsCalmStep :
    (user_id : ℕ) (role : UserRole) (confirmer : Confirmer) (order_id version : ℕ)
    (condition : ReturnCondition) (remark : Option String) (now : ℕ) (order : DeliveryOrder)
    → (order.status is return_awaiting_merchant_confirmation && order.version == version) ≡ true
    → IsCalmStep order_id order
        (confirmed user_id condition remark now)
        (confirmed_event order_id confirmer user_id role)
confirmed-IsCalmStep user_id role confirmer order_id version condition remark now order h = (
  record {
    keeps = λ c. ground arith;
    names = refl;
    records = refl;
    unfinished = ground arith;
    still_unfinished = refl;
  },
  ground arith,
)

module _ (shown : ℕ → ℕ) (user_id : ℕ) (role : UserRole) (confirmer : Confirmer)
    (order_id version : ℕ) (condition : ReturnCondition) (note : Option String)
    (key hash entry_id settlement_id now : ℕ) (db : Database) {r : ℕ} {db' : Database} where
  pub confirm_return-WellFormed :
      confirm_return shown user_id role confirmer order_id version condition note key hash entry_id
          settlement_id now db
        ≡ ok (r, db')
      → WellFormed db
      → WellFormed db'
  unfolding confirm_return
  confirm_return-WellFormed h w =
      elim (Result-cases
        (claim_once (return_scope confirmer order_id) key hash now db.idempotency)) [
          | inl (fault, refused) ↦ absurd (ground arith)
          | inr (claimed, c) ↦ elim (Option-cases (get order_id db.orders)) [
            | inl missing ↦ absurd (ground arith)
            | inr (order, at) ↦ elim (Result-cases (check_override confirmer order now db)) [
              | inl (fault, refused) ↦ absurd (ground arith)
              | inr (checked, k) ↦
                  let awaited : (order.status is return_awaiting_merchant_confirmation
                        && order.version == version)
                      ≡ true =
                    ground arith in
                  let event = confirmed_event order_id confirmer user_id role in
                  let change = confirmed user_id condition note now in
                  let moved = record db {
                    orders = update order_id change db.orders;
                    events = event ∷ db.events;
                    idempotency = claimed;
                  } in
                  let step : IsCalmStep order_id order change event =
                    confirmed-IsCalmStep user_id role confirmer order_id version condition note now
                      order awaited in
                  let before : WellFormed moved =
                    Moves-WellFormed {event = event}
                      (record {
                        at = at;
                        orders = refl;
                        events = refl;
                        disputes = refl;
                        accounts = refl;
                      })
                      step w in
                  let quiet : IsQuiet order_id moved.disputes =
                    IsQuiet-of_calm order_id db.orders db.disputes at step.1 w.grounded in
                  let input = return_completion confirmer user_id role in
                  elim (Result-cases (
                    finalize_in_transaction shown order_id input entry_id settlement_id now
                      moved)) [
                        | inl (fault, refused) ↦ absurd (ground arith)
                        | inr (after, done) ↦
                            WellFormed-same after db' (ground arith) (ground arith) (ground arith)
                              (ground arith)
                              (finalize-WellFormed shown order_id input entry_id settlement_id now
                                moved done quiet before)
                      ]
            ]
          ]
        ]

module _ (order_id entry_id settlement_id now : ℕ) (db : Database) {db' : Database} where
  pub complete_one-cases :
      complete_one order_id entry_id settlement_id now db ≡ ok (some db')
      → (order : DeliveryOrder) × (courier_id : ℕ) × (is_due now order ≡ true)
        × Completes order_id order dispute_window_expired now
            (completed_event order_id delivered none none worker)
            entry_id
            (commission_entry courier_id order_id order.platform_commission_minor none now)
            db
            db'
  unfolding complete_one complete_delivered post_worker_commission matches
  complete_one-cases h = elim (Option-cases (get order_id db.orders)) [
    | inl missing ↦ absurd (ground arith)
    | inr (order, at) ↦ elim (Option-cases order.courier_id) [
      | inl unassigned ↦ absurd (ground arith)
      | inr (courier_id, held) ↦ elim (Option-cases (courier_user courier_id db.couriers)) [
        | inl unknown ↦ absurd (ground arith)
        | inr (user_id, u) ↦ elim (Option-cases (current_setting now none db.financial_settings)) [
          | inl unset ↦ absurd (ground arith)
          | inr (setting, s) ↦ (order, courier_id, ground arith, ground arith)
        ]
      ]
    ]
  ]

  pub complete_one-WellFormed :
      complete_one order_id entry_id settlement_id now db ≡ ok (some db')
      → WellFormed db
      → WellFormed db'
  complete_one-WellFormed h w =
      let (order, courier_id, due, done) = complete_one-cases h in
      Completes-WellFormed done
        (IsQuiet-of_calm order_id {order = order} db.orders db.disputes done.at (ground arith)
          w.grounded)
        w
