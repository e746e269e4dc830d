-- ===== src/Marketplace/Resolving.antt =====
-- The resolution of a dispute and the invariant of the marketplace.
use Prim.Native.String.{String}
use wassal.Prelude.{ℕ, ◌≡◌, ◌≢◌, refl, true, some, arith, ◌∷◌}
use wassal.Contracts.Rbac.{UserRole}
use wassal.Orders.Status.{order_status_enum, delivery_disputed}
use wassal.Store.{DeliveryOrder, Database, OrderEventType, admin_web}
use wassal.Store.Table.{get}
use wassal.Service.Transaction.{ok}
use wassal.Operations.Disputes.{dispute_event}
use wassal.Operations.Resolutions.{
  Resolution, confirm_delivery, confirm_not_delivered, require_return, target_by_resolution,
  sent_back, apply_resolution,
}
use wassal.Marketplace.Invariant.{WellFormed, is_disputed}
use wassal.Marketplace.Moves.{IsFair, IsQuiet, quiet-WellFormed}
use wassal.Marketplace.Finalize.{finalize-WellFormed}
use wassal.Marketplace.DisputeSide.{disputed_status, with_event-WellFormed}

sent_back-IsFair :
    (order_id : ℕ) (order : DeliveryOrder) (resolution : Resolution) (note : String) (user_id : ℕ)
    (role : UserRole)
    → resolution ≢ confirm_delivery
    → is_disputed order.status ≡ true
    → IsFair order_id order (sent_back resolution note) (
        dispute_event order_id OrderEventType.delivery_dispute_resolved delivery_disputed
          (target_by_resolution resolution)
          user_id
          role
          admin_web)
unfolding sent_back target_by_resolution
sent_back-IsFair order_id order confirm_delivery note user_id role other held = absurd (other refl)
sent_back-IsFair order_id order _ note user_id role other held = record {
  keeps = λ c. ground arith;
  names = refl;
  records = refl;
  unfinished = ground arith;
  still_unfinished = refl;
}

module _ (shown : ℕ → ℕ) (user_id : ℕ) (role : UserRole) (order_id : ℕ) (note : String)
    (entry_id settlement_id now : ℕ) (db : Database) {order : DeliveryOrder} {db' : Database} where
  -- The branch on the resolution, after the dispute has been closed.
  pub apply_resolution-WellFormed :
      (resolution : Resolution)
      → let event =
          dispute_event order_id OrderEventType.delivery_dispute_resolved delivery_disputed
            (target_by_resolution resolution)
            user_id
            role
            admin_web in
        apply_resolution shown user_id role order_id resolution note entry_id settlement_id now
            (record db { events = event ∷ db.events })
          ≡ ok db'
        → get order_id db.orders ≡ some order
        → is_disputed order.status ≡ true
        → IsQuiet order_id db.disputes
        → WellFormed db
        → WellFormed db'
  unfolding apply_resolution target_by_resolution
  apply_resolution-WellFormed confirm_delivery h at held quiet w =
      finalize-WellFormed shown order_id _ entry_id settlement_id now _ h quiet (
        with_event-WellFormed order_id {o = order} _ db at refl (disputed_status order.status held)
          w)
  apply_resolution-WellFormed confirm_not_delivered h at held quiet w =
      quiet-WellFormed
        (record {
          at = at;
          orders = ground arith;
          events = ground arith;
          disputes = ground arith;
          accounts = ground arith;
        })
        (sent_back-IsFair order_id order confirm_not_delivered note user_id role (λ e. cc) held)
        quiet w
  apply_resolution-WellFormed require_return h at held quiet w =
      quiet-WellFormed
        (record {
          at = at;
          orders = ground arith;
          events = ground arith;
          disputes = ground arith;
          accounts = ground arith;
        })
        (sent_back-IsFair order_id order require_return note user_id role (λ e. cc) held) quiet w
