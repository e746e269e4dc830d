-- ===== src/Marketplace/Invariant.antt =====
-- The invariant of the marketplace: of each order's row (`model DeliveryOrder`), and of the rows that
-- speak about it (`OrderEvent`, `CourierLedgerEntry`, `DeliveryDispute`).
use wassal.Prelude.{
  ℕ, ◌≤◌, ◌≡◌, Bool, true, false, Option, none, some, List, [], ◌∷◌, is_some, ◌==◌, if◌then◌else◌,
}
use wassal.Orders.Status.{
  OrderStatus, draft, quoted, searching_courier, no_courier_available, no_courier_available_final,
  delivery_disputed, completed, cancelled,
}
use wassal.Store.{
  DeliveryOrder, OrderEvent, DeliveryDispute, DisputeStatus, open_dispute, courier_responded,
  Database,
}
use wassal.Store.Table.{Table, get, Rows}
use wassal.Finance.Accounts.{order_commission}
use wassal.Finance.Settlement.{has_source_key}
use wassal.Operations.Disputes.{has_dispute}

-- Whether an order in this status has a courier.
abbrev pub has_courier : OrderStatus → Bool
has_courier draft = false
has_courier quoted = false
has_courier searching_courier = false
has_courier no_courier_available = false
has_courier no_courier_available_final = false
has_courier cancelled = false
has_courier _ = true

abbrev pub is_searching : OrderStatus → Bool
is_searching searching_courier = true
is_searching _ = false

abbrev pub is_completed : OrderStatus → Bool
is_completed completed = true
is_completed _ = false

abbrev pub is_disputed : OrderStatus → Bool
is_disputed delivery_disputed = true
is_disputed _ = false

-- The courier, the acceptance window and the financial completion go with the status; there are at
-- most two searches; only a cancellation after pickup is charged, with the full delivery fee.
pub record IsConsistent (order : DeliveryOrder) : Type 0 where
  pub courier_held : is_some order.courier_id ≡ has_courier order.status
  pub window_open : is_some order.acceptance_expires_at ≡ is_searching order.status
  pub finalized_once : is_some order.financial_finalized_at ≡ is_completed order.status
  pub attempts_bounded : order.dispatch_attempt_count ≤ 2
  pub charge_is_fee :
      order.cancellation_charge_minor
      ≡ (if order.cancelled_after_pickup then order.merchant_total_minor else 0)

-- The status that the newest event of an order leaves it in.
unfoldable pub last_status : ℕ → List OrderEvent → Option OrderStatus
last_status order_id [] = none
last_status order_id (e ∷ es) =
    if e.order_id == order_id then some e.to_status else last_status order_id es

abbrev pub AgreesWith : Option OrderStatus → OrderStatus → Type 0
AgreesWith none status = Unit
AgreesWith (some recorded) status = recorded ≡ status

abbrev pub is_open : DisputeStatus → Bool
is_open open_dispute = true
is_open courier_responded = true
is_open _ = false

-- The order of a dispute that is open is disputed.
abbrev pub IsGrounded : Table DeliveryOrder → DeliveryDispute → Type 0
IsGrounded orders dispute =
    is_open dispute.status ≡ true
    → (order : DeliveryOrder) × (get dispute.order_id orders ≡ some order)
      × (is_disputed order.status ≡ true)

-- The ids of the disputes are distinct, and so are their orders: the keys of `model DeliveryDispute`.
abbrev pub IsIndexed : Table DeliveryDispute → Type 0
IsIndexed [] = Unit
IsIndexed ((id, dispute) ∷ rest) =
    (get id rest ≡ none) × (has_dispute dispute.order_id rest ≡ false) × IsIndexed rest

pub record WellFormed (db : Database) : Type 0 where
  pub consistent : Rows IsConsistent db.orders
  -- The event log ends in the status of the order.
  pub logged :
      (id : ℕ) (order : DeliveryOrder)
      → get id db.orders ≡ some order
      → AgreesWith (last_status id db.events) order.status
  -- Exactly the completed orders have a commission in the ledger.
  pub charged :
      (id : ℕ) (order : DeliveryOrder)
      → get id db.orders ≡ some order
      → has_source_key (order_commission id) db.accounts.ledger ≡ is_completed order.status
  pub grounded : Rows (IsGrounded db.orders) db.disputes
  pub indexed : IsIndexed db.disputes
