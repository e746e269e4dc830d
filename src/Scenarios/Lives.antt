-- ===== src/Scenarios/Lives.antt =====
-- Examples of the life of an order.
use wassal.Prelude.{ℕ, ◌≡◌, refl, false, none, some, [], ◌∷◌, arith}
use wassal.Contracts.Rbac.{
  courier_user as courier_role, owner, merchant_owner, Role-discrete, UserRole-discrete,
}
use wassal.Orders.Status.{
  OrderStatus, OrderStatus-discrete, acceptance_is_expired, can_retry_courier_search,
  can_transition_in_phase_three, merchant_cancellation_decision,
}
use wassal.Store.{DeliveryOrder, Database, OrderEventSource}
use wassal.Store.Table.{get}
use wassal.Service.Transaction.{Result, ok, err}
use wassal.CourierOrders.Accept.{accept_transaction}
use wassal.CourierOrders.Lifecycle.{
  transition_transaction, deliver, TransitionInput, delivery_window,
}
use wassal.CourierOrders.Cancel.{cancel_before_pickup_transaction}
use wassal.MerchantOrders.Retry.{retry_courier_search}
use wassal.MerchantOrders.Cancel.{cancel_order, CancelInput}
use wassal.Operations.Disputes.{merchant_dispute, has_dispute}
use wassal.Worker.Agreement.{cairo_summer}
use wassal.Finance.Settlement.{has_source_key}
use wassal.Marketplace.Invariant.{WellFormed, IsConsistent, is_completed, last_status}
use wassal.Marketplace.Reach.{Request, serve, Reaches, here, next, expire}
use wassal.Worker.Expire.{expire_all}
use wassal.Scenarios.{market, searching, riding, dropped}
use wassal.Service.Idempotency.{claim_idempotency}
use wassal.Service.Queries.{courier_user, current_setting, operates_in_zone}
use wassal.Operations.Domain.{delivery_dispute_deadline, dispute_window_is_active}

-- What a transaction commits.
abbrev pub of : Result (ℕ × Database) → Database
of (ok (r, db)) = db
of (err e) = market searching

-- Courier 5 accepts order 1 at instant 1000.
abbrev pub acceptance : Result (ℕ × Database)
acceptance = accept_transaction 50 courier_role 5 1 4 900 901 1000 (market searching)

pub accepts : acceptance ≡ ok (1, of acceptance)
unfolding accept_transaction claim_idempotency get OrderStatus-discrete acceptance_is_expired
    operates_in_zone
accepts = refl

abbrev pub input : TransitionInput
input = record { version = 4; note = none; failure_reason = none }

abbrev pub delivery : Result (ℕ × Database)
delivery =
    transition_transaction deliver 50 courier_role 5 1 input 900 901 1400
      (market (riding OrderStatus.at_dropoff))

pub delivers : delivery ≡ ok (1, of delivery)
unfolding transition_transaction claim_idempotency get OrderStatus-discrete
    can_transition_in_phase_three delivery_window current_setting delivery_dispute_deadline
delivers = refl

abbrev pub return_to_search : Result (ℕ × Database)
return_to_search =
    cancel_before_pickup_transaction 50 courier_role 5 1 4 900 901 1400
      (market (riding OrderStatus.at_pickup))

pub gives_back : return_to_search ≡ ok (1, of return_to_search)
unfolding cancel_before_pickup_transaction claim_idempotency get OrderStatus-discrete
gives_back = refl

abbrev pub unanswered : DeliveryOrder
unanswered = record searching {
  status = OrderStatus.no_courier_available;
  acceptance_expires_at = none;
}

abbrev pub second_search : Result (ℕ × Database)
second_search = retry_courier_search 70 merchant_owner 7 owner 1 4 900 901 3000 (market unanswered)

pub searches_again : second_search ≡ ok (1, of second_search)
unfolding retry_courier_search Role-discrete claim_idempotency get OrderStatus-discrete
    can_retry_courier_search
searches_again = refl

abbrev pub cancel_input : CancelInput
cancel_input = record { reason_code = "WRONG"; details = none; version = 4 }

abbrev pub cancellation : Result (ℕ × Database)
cancellation =
    cancel_order 70 owner 1 (riding OrderStatus.in_transit) cancel_input
      OrderEventSource.merchant_web 900 1600 (market (riding OrderStatus.in_transit))

pub cancels : cancellation ≡ ok (1, of cancellation)
unfolding cancel_order merchant_cancellation_decision OrderStatus-discrete get
cancels = refl

abbrev pub complaint : Result (ℕ × Database)
complaint = merchant_dispute 70 owner 7 owner 1 4 (90 ∷ []) 33 4000 (market dropped)

pub complains : complaint ≡ ok (33, of complaint)
unfolding merchant_dispute UserRole-discrete get courier_user dispute_window_is_active
    OrderStatus-discrete has_dispute
complains = refl

order_is :
    (order : DeliveryOrder) (id : ℕ) (o : DeliveryOrder)
    → get id (market order).orders ≡ some o
    → order ≡ o
unfolding get
order_is order id o h = ground arith

-- An order that is not completed, and whose columns go together, makes a well-formed marketplace.
pub market-WellFormed :
    (order : DeliveryOrder)
    → IsConsistent order
    → is_completed order.status ≡ false
    → WellFormed (market order)
unfolding last_status has_source_key
market-WellFormed order c unfinished = record {
  consistent = (c, tt);
  logged = λ id o h. tt;
  charged = λ id o h. ground (arith, order_is order id o h, unfinished);
  grounded = tt;
  indexed = tt;
}

pub searching-market : WellFormed (market searching)
searching-market =
    market-WellFormed searching
      (record {
        courier_held = refl;
        window_open = refl;
        finalized_once = refl;
        attempts_bounded = ground arith;
        charge_is_fee = refl;
      })
      refl

pub riding-market : WellFormed (market (riding OrderStatus.in_transit))
riding-market =
    market-WellFormed (riding OrderStatus.in_transit)
      (record {
        courier_held = refl;
        window_open = refl;
        finalized_once = refl;
        attempts_bounded = ground arith;
        charge_is_fee = refl;
      })
      refl

pub dropped-market : WellFormed (market dropped)
dropped-market =
    market-WellFormed dropped
      (record {
        courier_held = refl;
        window_open = refl;
        finalized_once = refl;
        attempts_bounded = ground arith;
        charge_is_fee = refl;
      })
      refl

abbrev pub withdrawn : DeliveryOrder
withdrawn = record searching {
  status = OrderStatus.cancelled;
  acceptance_expires_at = none;
  cancelled_at = some 1100;
}

pub withdrawn-market : WellFormed (market withdrawn)
withdrawn-market =
    market-WellFormed withdrawn
      (record {
        courier_held = refl;
        window_open = refl;
        finalized_once = refl;
        attempts_bounded = ground arith;
        charge_is_fee = refl;
      })
      refl

acceptance_served :
    serve cairo_summer (Request.accept 50 courier_role 5 1 4 900 901 1000) (market searching)
    ≡ some (of acceptance)
unfolding serve accept_transaction claim_idempotency get OrderStatus-discrete acceptance_is_expired
    operates_in_zone
acceptance_served = refl

-- Courier 5 accepts, and that is all.
pub acceptance_path : Reaches cairo_summer (market searching) (of acceptance)
acceptance_path = next (Request.accept 50 courier_role 5 1 4 900 901 1000) tt acceptance_served here

-- A sweep, which has nothing to expire.
pub sweep_path :
    (order : DeliveryOrder)
    → Reaches cairo_summer (market order) (expire_all 3000 (1 ∷ []) 0 (market order)).1
unfolding serve
sweep_path order = next (expire 3000 (1 ∷ [])) tt refl here
