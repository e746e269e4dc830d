-- ===== src/Scenarios/CreateExamples.antt =====
-- The law of orders from quotes, at a small marketplace.
use wassal.Prelude.{ℕ, ◌≡◌, ◌<◌, ◌+◌, ◌*◌, Bool, true, none, some, [], ◌∷◌, refl, ◌is◌}
use wassal.Contracts.Rbac.{owner}
use wassal.Orders.Status.{searching_courier}
use wassal.Store.{
  DeliveryOrder, PriceQuote, QuoteStatus, quote_status_enum, QuoteStatus-discrete, Database,
  order_create, IdempotencyRecord, processing, Scope-discrete,
}
use wassal.Store.Table.{get}
use wassal.Service.Transaction.{Result, ok, err}
use wassal.Service.Idempotency.{complete_idempotency, claim_idempotency}
use wassal.Marketplace.Invariant.{WellFormed}
use wassal.MerchantOrders.Create.{create_transaction}
use wassal.MerchantOrders.CreatedOnce.{create-once}
use wassal.Scenarios.{market, searching}
use wassal.Scenarios.Lives.{searching-market}
use wassal.Orders.Status.{OrderStatus-discrete, can_transition_in_phase_two}
use wassal.Finance.Settlement.{has_source_key}

-- Quote 9 of merchant 7, version 2, until instant 5000.
abbrev offer : PriceQuote
offer = record {
  merchant_id = 7;
  service_zone_id = 3;
  store_is_active = true;
  status = QuoteStatus.active;
  distance_meters = 4000;
  merchant_total_minor = 6000;
  platform_commission_minor = 600;
  expires_at = 5000;
  consumed_at = none;
  version = 2;
}

-- The marketplace of order 1, with the quote and its zone.
abbrev offering : Database
offering = record (market searching) {
  quotes = (9, offer) ∷ [];
  service_zones =
      (
        3,
        record {
          is_active = true;
          allowed_pickup = true;
          allowed_dropoff = true;
          maximum_route_distance_meters = 20000;
        },
      )
      ∷ [];
}

abbrev covers_all : ℕ → Bool
covers_all quote_id = true

offering-WellFormed : WellFormed offering
offering-WellFormed =
    let w = searching-market in
    record {
      consistent = w.consistent;
      logged = w.logged;
      charged = w.charged;
      grounded = w.grounded;
      indexed = w.indexed;
    }

-- The request with key 11 at instant 1000, for a new order 2.
abbrev ordering : Result (ℕ × Database)
ordering = create_transaction covers_all 70 owner 7 9 2 11 12 2 1000 offering

abbrev ordered : Database
ordered = elim ordering [ ok r ↦ r.1 | err e ↦ offering ]

abbrev second_claim : IdempotencyRecord
second_claim = record {
  scope = order_create 7;
  key = 13;
  request_hash = 14;
  status = processing;
  response_code = none;
  entity_id = none;
  expires_at = 86402000;
}

create-once_example :
    (quote : PriceQuote) × (get 9 offering.quotes ≡ some quote)
    × ((quote.status is QuoteStatus.active) ≡ true)
    × (1000 < quote.expires_at)
    × (quote.version ≡ 2)
    × (◌≡◌ {A = ℕ} 2 2)
    × (order : DeliveryOrder) × (get 2 ordered.orders ≡ some order)
    × (order.status ≡ searching_courier)
    × (order.courier_id ≡ none)
    × (order.acceptance_expires_at ≡ some (1000 + 5 * 60 * 1000))
    × (order.dispatch_attempt_count ≡ 1)
    × (order.version ≡ 1)
    × (order.quote_id ≡ 9)
    × (order.merchant_id ≡ 7)
    × (order.service_zone_id ≡ quote.service_zone_id)
    × (order.merchant_total_minor ≡ quote.merchant_total_minor)
    × (order.platform_commission_minor ≡ quote.platform_commission_minor)
    × (used : PriceQuote) × (get 9 ordered.quotes ≡ some used)
    × (used.status ≡ QuoteStatus.consumed)
    × (used.consumed_at ≡ some 1000)
    × (used.version ≡ quote.version + 1)
    × WellFormed ordered
    × (create_transaction covers_all 70 owner 7 9 2 13 14 3 2000 ordered
        ≡ ok (
          2,
          record ordered {
            idempotency =
                complete_idempotency (order_create 7) 13 2 200 (second_claim ∷ ordered.idempotency);
          },
        ))
unfolding create_transaction claim_idempotency get QuoteStatus-discrete can_transition_in_phase_two
    OrderStatus-discrete has_source_key complete_idempotency Scope-discrete
    native.Mathlib.Decide.ℕ_discrete
create-once_example =
    create-once covers_all 70 owner 7 9 2 11 12 2 1000 offering ordered 70 owner 2 13 14 3 2000
      (second_claim ∷ ordered.idempotency) refl refl refl refl offering-WellFormed refl
