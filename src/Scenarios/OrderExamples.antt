-- ===== src/Scenarios/OrderExamples.antt =====
-- The laws of orders at small marketplaces.
use wassal.Prelude.{
  ℕ, ◌+◌, ◌*◌, ◌≡◌, ◌≢◌, ◌≤◌, ◌<◌, ◌↔◌, ◌⊎◌, refl, true, false, Option, none, some, List, [], ◌∷◌,
  arith, includes,
}
use wassal.Contracts.Rbac.{courier_user as courier_role, owner, merchant_owner}
use wassal.Orders.Status.{
  OrderStatus, order_status_enum, maximum_dispatch_attempts, can_transition_in_phase_three,
  can_retry_courier_search, free_merchant_cancellation_statuses,
  post_pickup_merchant_cancellation_statuses, cancelled, searching_courier, returning_to_store,
  OrderStatus-discrete, acceptance_is_expired,
}
use wassal.Store.{
  courier_accept, IdempotencyRecord, processing, DeliveryOrder, OrderEventSource,
  dispute_status_enum, Scope-discrete,
}
use wassal.Store.Table.{get, update}
use wassal.Service.Transaction.{ok, err, already_accepted, key_reused}
use wassal.Service.Idempotency.{
  find_record, claim_idempotency, complete_idempotency, idempotency_replay,
}
use wassal.Service.Replay.{replay-claim}
use wassal.Service.Queries.{operates_in_zone, current_setting}
use wassal.Operations.Domain.{dispute_window_is_active, delivery_may_auto_complete, hour_ms}
use wassal.CourierOrders.Accept.{eligible_courier, accept, accept_transaction, assigned}
use wassal.CourierOrders.Exclusive.{IsMember, accept_once, accept_transaction-effect, accept_again}
use wassal.CourierOrders.Lifecycle.{pick_up, lifecycle}
use wassal.CourierOrders.Effects.{
  lifecycle-allowed, cancel_before_pickup-leaves_table, deliver-window,
}
use wassal.MerchantOrders.Effects.{cancel_order-effect, retry-once}
use wassal.Worker.Complete.{complete_one}
use wassal.Worker.Agreement.{cairo_summer}
use wassal.Worker.Expire.{expire_all, expire_one}
use wassal.Marketplace.Invariant.{WellFormed}
use wassal.Marketplace.Runs.{Reaches-WellFormed}
use wassal.Marketplace.Evolution.{Evolves}
use wassal.Marketplace.Guarantees.{
  status_path, IsSameDeal, deal_kept, final_unchanged, never_cancelled_after_pickup,
  version_identifies,
}
use wassal.Marketplace.Races.{merchant_dispute-complete_one}
use wassal.Scenarios.{market, searching, riding, dropped}
use wassal.Scenarios.Lives.{
  of, acceptance, accepts, input, delivery, delivers, return_to_search, gives_back, unanswered,
  second_search, searches_again, cancel_input, cancellation, cancels, complaint, complains,
  searching-market, riding-market, withdrawn, withdrawn-market, acceptance_path, sweep_path,
}
use wassal.Courier.Policy.{
  AccountStatus-discrete, DocumentStatus-discrete, DocumentType-discrete,
  VerificationStatus-discrete, courier_operational_eligibility,
}

Reaches-WellFormed_example : WellFormed (of acceptance)
Reaches-WellFormed_example = Reaches-WellFormed cairo_summer acceptance_path searching-market

status_path_example :
    (order' : DeliveryOrder) × (get 1 (of acceptance).orders ≡ some order')
    × Evolves searching order'
unfolding get
status_path_example =
    status_path cairo_summer acceptance_path searching-market 1 {order = searching} refl

deal_kept_example :
    (order' : DeliveryOrder) × (get 1 (of acceptance).orders ≡ some order')
    × IsSameDeal searching order'
unfolding get
deal_kept_example =
    deal_kept cairo_summer acceptance_path searching-market 1 {order = searching} refl

final_unchanged_example :
    get 1 (expire_all 3000 (1 ∷ []) 0 (market withdrawn)).1.orders ≡ some withdrawn
unfolding get
final_unchanged_example =
    final_unchanged cairo_summer (sweep_path withdrawn) withdrawn-market 1 {order = withdrawn} refl
      refl

abbrev in_transit_order : DeliveryOrder
in_transit_order = riding OrderStatus.in_transit

never_cancelled_after_pickup_example :
    (in_transit_order.status ≢ cancelled) × (in_transit_order.status ≢ searching_courier)
unfolding get expire_all expire_one OrderStatus-discrete
never_cancelled_after_pickup_example =
    never_cancelled_after_pickup cairo_summer (sweep_path in_transit_order) riding-market 1
      {order = in_transit_order} refl in_transit_order refl refl

version_identifies_example :
    (searching.version ≤ (assigned 5 searching).version)
    × (((assigned 5 searching).version ≡ searching.version) ↔ (assigned 5 searching ≡ searching))
unfolding get accept_transaction claim_idempotency OrderStatus-discrete acceptance_is_expired
    operates_in_zone update
version_identifies_example =
    version_identifies cairo_summer acceptance_path searching-market 1 {order = searching} refl
      (assigned 5 searching) refl

accept_transaction-effect_example :
    (order : DeliveryOrder) × (get 1 (market searching).orders ≡ some order)
    × (order.status ≡ searching_courier)
    × (order.courier_id ≡ none)
    × (deadline : ℕ) × (order.acceptance_expires_at ≡ some deadline)
    × (1000 < deadline)
    × (order.version ≡ 4)
    × IsMember 5 order.service_zone_id (market searching).zone_memberships
    × (order' : DeliveryOrder) × (get 1 (of acceptance).orders ≡ some order')
    × (order'.status ≡ OrderStatus.courier_assigned)
    × (order'.courier_id ≡ some 5)
    × (order'.acceptance_expires_at ≡ none)
    × (order'.version ≡ order.version + 1)
    × (order'.merchant_total_minor ≡ order.merchant_total_minor)
    × (order'.platform_commission_minor ≡ order.platform_commission_minor)
    × (order'.merchant_id ≡ order.merchant_id)
accept_transaction-effect_example =
    accept_transaction-effect 50 courier_role 5 1 4 900 901 1000 (market searching) accepts

accept_once_example :
    accept_transaction 60 courier_role 6 1 4 910 911 1001 (of acceptance) ≡ err already_accepted
unfolding claim_idempotency accept_transaction get OrderStatus-discrete acceptance_is_expired
    operates_in_zone complete_idempotency Scope-discrete native.Mathlib.Decide.ℕ_discrete
accept_once_example =
    accept_once 50 courier_role 5 1 4 900 901 1000 (market searching) 60 courier_role 6 4 910 911
      1001 accepts refl

still_eligible : eligible_courier 50 1500 (of acceptance) ≡ ok 5
unfolding accept_transaction eligible_courier get claim_idempotency OrderStatus-discrete
    acceptance_is_expired operates_in_zone courier_operational_eligibility AccountStatus-discrete
    VerificationStatus-discrete DocumentType-discrete DocumentStatus-discrete
still_eligible = refl

accept_again_example :
    accept 50 courier_role 1 4 900 901 1500 (of acceptance) ≡ (of acceptance, ok 1)
accept_again_example =
    accept_again 50 courier_role 5 1 4 900 901 1000 1500 (market searching) accepts still_eligible

merchant_dispute-complete_one_example :
    (complete_one 1 44 45 3000 (market dropped) ≡ ok none)
    × (complete_one 1 44 45 9000 (of complaint) ≡ ok none)
merchant_dispute-complete_one_example =
    merchant_dispute-complete_one 70 owner 7 owner 1 4 (90 ∷ []) 33 4000 (market dropped) 44 45 3000
      9000 complains (ground arith)

cancel_order-effect_example :
    (order' : DeliveryOrder) × (get 1 (of cancellation).orders ≡ some order')
    × (in_transit_order.version ≡ 4)
    × (((includes free_merchant_cancellation_statuses in_transit_order.status ≡ true)
          × (order'.status ≡ cancelled)
          × (order'.courier_id ≡ none)
          × (order'.cancellation_charge_minor ≡ 0))
        ⊎ ((includes post_pickup_merchant_cancellation_statuses in_transit_order.status ≡ true)
            × (order'.status ≡ returning_to_store)
            × (order'.courier_id ≡ in_transit_order.courier_id)
            × (order'.cancellation_charge_minor ≡ in_transit_order.merchant_total_minor)))
unfolding get
cancel_order-effect_example =
    cancel_order-effect 70 owner 1 in_transit_order cancel_input OrderEventSource.merchant_web 900
      1600 (market in_transit_order) refl cancels

retry-once_example :
    (order' : DeliveryOrder) × (get 1 (of second_search).orders ≡ some order')
    × (order'.dispatch_attempt_count ≡ maximum_dispatch_attempts)
    × (order'.status ≡ OrderStatus.searching_courier)
    × ((s : OrderStatus) (c : Option ℕ)
        → can_retry_courier_search s order'.dispatch_attempt_count c ≡ false)
retry-once_example =
    retry-once 70 merchant_owner 7 owner 1 4 900 901 3000 (market unanswered) searches_again

deliver-window_example :
    (order : DeliveryOrder) × (get 1 (of delivery).orders ≡ some order)
    × ((t : ℕ)
        → (dispute_window_is_active order.status order.delivery_dispute_deadline_at t false ≡ true)
          ↔ (t < 1400 + 1 * hour_ms))
    × ((t : ℕ)
        → (delivery_may_auto_complete order.status order.delivery_dispute_deadline_at t false false
            ≡ true)
          ↔ (1400 + 1 * hour_ms ≤ t))
unfolding current_setting
deliver-window_example =
    deliver-window 50 courier_role 5 1 input 900 901 1400 (market (riding OrderStatus.at_dropoff))
      refl delivers

cancel_before_pickup-leaves_table_example :
    (order : DeliveryOrder) × (get 1 (market (riding OrderStatus.at_pickup)).orders ≡ some order)
    × (order.courier_id ≡ some 5)
    × (includes
          (OrderStatus.courier_assigned ∷ OrderStatus.courier_arriving_pickup
            ∷ OrderStatus.at_pickup ∷ [])
          order.status
        ≡ true)
    × (order' : DeliveryOrder) × (get 1 (of return_to_search).orders ≡ some order')
    × (order'.status ≡ searching_courier)
    × (order'.courier_id ≡ none)
    × (order'.acceptance_expires_at ≡ some (1400 + 5 * 60 * 1000))
    × (order'.version ≡ order.version + 1)
    × (order'.merchant_total_minor ≡ order.merchant_total_minor)
    × (order'.merchant_id ≡ order.merchant_id)
    × (can_transition_in_phase_three order.status order'.status ≡ false)
cancel_before_pickup-leaves_table_example =
    cancel_before_pickup-leaves_table 50 courier_role 5 1 4 900 901 1400
      (market (riding OrderStatus.at_pickup)) gives_back

lifecycle-allowed_example :
    can_transition_in_phase_three OrderStatus.at_pickup (lifecycle pick_up).to ≡ true
unfolding lifecycle OrderStatus-discrete
lifecycle-allowed_example = lifecycle-allowed pick_up OrderStatus.at_pickup refl

abbrev new_claim : List IdempotencyRecord
new_claim =
    record {
      scope = courier_accept 5 1;
      key = 900;
      request_hash = 901;
      status = processing;
      response_code = none;
      entity_id = none;
      expires_at = 1000 + 24 * 60 * 60 * 1000;
    }
    ∷ []

replay-claim_example :
    (idempotency_replay
        (courier_accept 5 1)
        900
        901
        (complete_idempotency (courier_accept 5 1) 900 1 201 new_claim)
      ≡ ok (some 1))
    × (idempotency_replay
          (courier_accept 5 1)
          900
          902
          (complete_idempotency (courier_accept 5 1) 900 1 201 new_claim)
        ≡ err key_reused)
unfolding claim_idempotency find_record
replay-claim_example =
    replay-claim (courier_accept 5 1) 900 901 1000 1 201 902 [] new_claim refl (λ e. ground arith)
