-- ===== src/MerchantOrders/CreatedOnce.antt =====
-- A quote gives one order at most, and a good one: `createOrder` of
-- apps/api/src/orders/orders.service.ts.
use wassal.Prelude.{
  ℕ, arith, ◌+◌, ◌*◌, ◌<◌, ◌≡◌, refl, none, sym, ap, ◌∙◌, Bool, true, false, none, some, List, ◌is◌,
}
use mathlib.Core.Path.{subst}
use wassal.Contracts.Rbac.{UserRole}
use wassal.Orders.Status.{searching_courier, acceptance_deadline}
use wassal.Store.{
  DeliveryOrder, Database, PriceQuote, QuoteStatus, quote_status_enum, order_create,
  IdempotencyRecord,
}
use wassal.Store.Table.{get, get-update_self}
use wassal.Finance.Accounts.{order_commission}
use wassal.Finance.Settlement.{has_source_key}
use wassal.Service.Transaction.{ok}
use wassal.Service.Idempotency.{claim_idempotency, complete_idempotency}
use wassal.Marketplace.Invariant.{WellFormed}
use wassal.MerchantOrders.Create.{order_of_quote, created_order, consumed_quote, create_transaction}
use wassal.MerchantOrders.Created.{order_of_quote-added, get-added, with_order-WellFormed}
use wassal.MerchantOrders.Committed.{create_transaction-ordered, create_transaction-writes}

module _ (covers : ℕ → Bool) (user_id : ℕ) (role : UserRole)
    (merchant_id quote_id quote_version key hash order_id now : ℕ) (db db' : Database) {answer : ℕ}
    (again_user : ℕ) (again_role : UserRole)
    (again_version again_key again_hash again_order later : ℕ)
    (claimed : List IdempotencyRecord) where
  -- A merchant's request for an order of a quote that has none, which commits under an id that is new and
  -- has no commission, finds the quote active, unexpired and at the version of the request. The order that it
  -- adds, with that id, is the merchant's, searches for a courier for the first time, with five minutes to
  -- accept it, at version 1, and has the quote's zone, price and commission; the quote is consumed at `now`,
  -- one version further.
  -- Where the rows of the marketplace were well-formed, they are so with the order. Any further request
  -- of the merchant for the same quote that gets past its own key is answered with the same order, and
  -- changes no more than the record of its key.
  pub create-once :
      create_transaction covers user_id role merchant_id quote_id quote_version key hash order_id
          now db
        ≡ ok (answer, db')
      → order_of_quote quote_id db.orders ≡ none
      → get order_id db.orders ≡ none
      → has_source_key (order_commission order_id) db.accounts.ledger ≡ false
      → WellFormed db
      → claim_idempotency (order_create merchant_id) again_key again_hash later db'.idempotency
        ≡ ok claimed
      → (quote : PriceQuote) × (get quote_id db.quotes ≡ some quote)
        × ((quote.status is QuoteStatus.active) ≡ true)
        × (now < quote.expires_at)
        × (quote.version ≡ quote_version)
        × (answer ≡ order_id)
        × (order : DeliveryOrder) × (get order_id db'.orders ≡ some order)
        × (order.status ≡ searching_courier)
        × (order.courier_id ≡ none)
        × (order.acceptance_expires_at ≡ some (now + 5 * 60 * 1000))
        × (order.dispatch_attempt_count ≡ 1)
        × (order.version ≡ 1)
        × (order.quote_id ≡ quote_id)
        × (order.merchant_id ≡ merchant_id)
        × (order.service_zone_id ≡ quote.service_zone_id)
        × (order.merchant_total_minor ≡ quote.merchant_total_minor)
        × (order.platform_commission_minor ≡ quote.platform_commission_minor)
        × (used : PriceQuote) × (get quote_id db'.quotes ≡ some used)
        × (used.status ≡ QuoteStatus.consumed)
        × (used.consumed_at ≡ some now)
        × (used.version ≡ quote.version + 1)
        × WellFormed db'
        × (create_transaction covers again_user again_role merchant_id quote_id again_version
              again_key again_hash again_order later db'
            ≡ ok (
              order_id,
              record db' {
                idempotency =
                    complete_idempotency (order_create merchant_id) again_key order_id 200 claimed;
              },
            ))
  unfolding acceptance_deadline
  create-once h unordered fresh unpaid w c =
      let (quote, at, active, in_time, version, mine, answered, idempotency, stored) =
        create_transaction-writes covers user_id role merchant_id quote_id quote_version key hash
          order_id now db h unordered in
      let consumed : get quote_id db'.quotes ≡ some (consumed_quote now quote) =
        ap (λ (d : Database). get quote_id d.quotes) (sym stored)
        ∙ get-update_self quote_id (consumed_quote now) db.quotes at in
      (
        quote,
        at,
        active,
        in_time,
        version,
        answered,
        created_order quote_id quote now,
        ap (λ (d : Database). get order_id d.orders) (sym stored)
            ∙ get-added order_id (created_order quote_id quote now) db.orders,
        refl,
        refl,
        refl,
        refl,
        refl,
        refl,
        ground arith,
        refl,
        refl,
        refl,
        consumed_quote now quote,
        consumed,
        refl,
        refl,
        refl,
        subst WellFormed stored (
            with_order-WellFormed covers user_id role quote_id quote quote_version order_id now db
              fresh unpaid idempotency w),
        create_transaction-ordered covers again_user again_role merchant_id quote_id again_version
            again_key again_hash again_order later db' c consumed mine
            (ap (λ (d : Database). order_of_quote quote_id d.orders) (sym stored)
              ∙ order_of_quote-added order_id quote_id quote now db.orders),
      )
