-- ===== src/MerchantOrders/Create.antt =====
-- A merchant confirms a quote: `createOrder` of apps/api/src/orders/orders.service.ts.
use wassal.Prelude.{
  ℕ, ◌+◌, Bool, false, ◌&&◌, Option, none, some, List, [], ◌∷◌, not, ltb, ◌==◌, ◌is◌, if◌then◌else◌,
}
use wassal.Contracts.Rbac.{UserRole}
use wassal.Orders.Status.{
  OrderStatus, draft, quoted, searching_courier, acceptance_deadline, can_transition_in_phase_two,
}
use wassal.Store.{
  DeliveryOrder, Database, OrderEvent, OrderEventType, order_draft_created, quote_created,
  order_confirmed, courier_search_requested, merchant_web, order_created, order_create, PriceQuote,
  QuoteStatus, quote_status_enum,
}
use wassal.Store.Table.{Table, get, update}
use wassal.Pricing.Rules.{quote_is_expired}
use wassal.Service.Transaction.{
  Result, ok, ◌>>=◌, ◌>>◌, require, found, quote_not_found, quote_not_valid, quote_not_reviewed,
  store_inactive, quote_zone_not_valid, quote_zone_changed, transition_not_allowed,
}
use wassal.Service.Idempotency.{claim_idempotency, complete_idempotency, idempotency_replay}
use wassal.Service.Writes.{audit}

-- `quote.order`: the order of the quote, of which there is at most one (`quoteId` is unique).
unfoldable pub order_of_quote : ℕ → Table DeliveryOrder → Option ℕ
order_of_quote quote_id [] = none
order_of_quote quote_id ((id, order) ∷ orders) =
    if order.quote_id == quote_id then some id else order_of_quote quote_id orders

-- `deliveryOrder.create`, with the columns that later requests read.
abbrev pub created_order : ℕ → PriceQuote → ℕ → DeliveryOrder
created_order quote_id quote now = record {
  quote_id = quote_id;
  merchant_id = quote.merchant_id;
  service_zone_id = quote.service_zone_id;
  courier_id = none;
  status = searching_courier;
  acceptance_expires_at = some (acceptance_deadline now);
  dispatch_attempt_count = 1;
  merchant_total_minor = quote.merchant_total_minor;
  platform_commission_minor = quote.platform_commission_minor;
  delivered_at = none;
  delivery_dispute_deadline_at = none;
  completed_at = none;
  completion_source = none;
  delivery_note = none;
  delivery_failure_reason = none;
  delivery_failure_note = none;
  return_reported_at = none;
  return_confirmed_at = none;
  return_confirmed_by_id = none;
  return_condition = none;
  return_confirmation_note = none;
  financial_finalized_at = none;
  cancelled_at = none;
  cancelled_by_id = none;
  cancellation_reason_code = none;
  cancellation_details = none;
  cancelled_by_role = none;
  cancelled_after_pickup = false;
  cancellation_charge_minor = 0;
  version = 1;
}

-- `event`.
abbrev pub creation_event :
    ℕ → OrderEventType → Option OrderStatus → OrderStatus → ℕ → UserRole → OrderEvent
creation_event order_id type from to user_id role = record {
  order_id = order_id;
  event_type = type;
  from_status = from;
  to_status = to;
  actor_id = some user_id;
  actor_role = some role;
  source = merchant_web;
}

-- The four events of `createMany`, the last one first.
abbrev pub creation_events : ℕ → ℕ → UserRole → List OrderEvent → List OrderEvent
creation_events order_id user_id role events =
    creation_event order_id courier_search_requested (some searching_courier) searching_courier
      user_id role
    ∷ creation_event order_id order_confirmed (some quoted) searching_courier user_id role
    ∷ creation_event order_id quote_created (some draft) quoted user_id role
    ∷ creation_event order_id order_draft_created none draft user_id role
    ∷ events

-- The `data` of the update of the quote.
abbrev pub consumed_quote : ℕ → PriceQuote → PriceQuote
consumed_quote now quote = record quote {
  status = QuoteStatus.consumed;
  consumed_at = some now;
  version = quote.version + 1;
}

-- The writes for a quote that has no order.
abbrev pub with_order : ℕ → UserRole → ℕ → PriceQuote → ℕ → ℕ → Database → Database
with_order user_id role quote_id quote order_id now db = record db {
  orders = (order_id, created_order quote_id quote now) ∷ db.orders;
  events = creation_events order_id user_id role db.events;
  quotes = update quote_id (consumed_quote now) db.quotes;
  audits = audit (some user_id) order_created order_id ∷ db.audits;
}

-- `covers` is the answer of PostGIS: the circle of the quote's zone holds both ends of its route.
module _ (covers : ℕ → Bool) where
  unfoldable pub revalidate_zone : ℕ → PriceQuote → Database → Result (Unit {0})
  revalidate_zone quote_id quote db = do
    zone ← found (get quote.service_zone_id db.service_zones) quote_zone_not_valid
    require
        (zone.is_active
          && zone.allowed_pickup
          && zone.allowed_dropoff
          && not (ltb zone.maximum_route_distance_meters quote.distance_meters))
        quote_zone_not_valid
    require (covers quote_id) quote_zone_changed

  -- The order for a quote that has none, after the checks of the quote.
  unfoldable pub place_order :
      ℕ → UserRole → ℕ → PriceQuote → ℕ → ℕ → ℕ → Database → Result Database
  unfolding revalidate_zone
  place_order user_id role quote_id quote quote_version order_id now db = do
    require (quote.status is QuoteStatus.active && not (quote_is_expired quote.expires_at now))
        quote_not_valid
    require (quote.version == quote_version) quote_not_reviewed
    require quote.store_is_active store_inactive
    revalidate_zone quote_id quote db
    require
        (can_transition_in_phase_two draft quoted
          && can_transition_in_phase_two quoted searching_courier)
        transition_not_allowed
    ok (with_order user_id role quote_id quote order_id now db)

  -- The transaction of `createOrder`, for a member of the merchant. `order_id` is the id of a new order.
  unfoldable pub create_transaction :
      ℕ → UserRole → ℕ → ℕ → ℕ → ℕ → ℕ → ℕ → ℕ → Database → Result (ℕ × Database)
  unfolding order_of_quote place_order
  create_transaction user_id role merchant_id quote_id quote_version key hash order_id now db = do
    let scope = order_create merchant_id
    claimed ← claim_idempotency scope key hash now db.idempotency
    quote ← found (get quote_id db.quotes) quote_not_found
    require (quote.merchant_id == merchant_id) quote_not_found
    elim (order_of_quote quote_id db.orders) [
      | some existing ↦ ok (
        existing,
        record db { idempotency = complete_idempotency scope key existing 200 claimed },
      )
      | none ↦
          place_order user_id role quote_id quote quote_version order_id now db
          >>= (λ (placed : Database). ok (
            order_id,
            record placed { idempotency = complete_idempotency scope key order_id 200 claimed },
          ))
    ]

  -- A request that was answered before gets the same order.
  unfoldable pub create_order :
      ℕ → UserRole → ℕ → ℕ → ℕ → ℕ → ℕ → ℕ → ℕ → Database → Result (ℕ × Database)
  create_order user_id role merchant_id quote_id quote_version key hash order_id now db =
      idempotency_replay (order_create merchant_id) key hash db.idempotency >>= λ replay.
      elim replay [
        | some order ↦ ok (order, db)
        | none ↦
            create_transaction user_id role merchant_id quote_id quote_version key hash order_id now
              db
      ]
