-- ===== src/MerchantOrders/Committed.antt =====
-- The transaction of `createOrder` of apps/api/src/orders/orders.service.ts, for a quote with an order and
-- for one without.
use wassal.Prelude.{
  ℕ, ◌<◌, ◌≡◌, refl, sym, ap, ◌∙◌, Bool, true, none, some, List, inl, inr, arith, Bool-cases,
  Option-cases, ◌is◌, ◌==◌,
}
use wassal.Contracts.Rbac.{UserRole}
use wassal.Store.{
  Database, PriceQuote, QuoteStatus, quote_status_enum, order_create, IdempotencyRecord,
}
use wassal.Store.Table.{get}
use wassal.Service.Transaction.{ok, Result-cases}
use wassal.Service.Idempotency.{claim_idempotency, complete_idempotency}
use wassal.MerchantOrders.Create.{order_of_quote, place_order, with_order, create_transaction}
use wassal.MerchantOrders.Created.{place_order-writes}

-- A request for a quote that has an order is answered with that order.
pub create_transaction-ordered :
    (covers : ℕ → Bool) (user_id : ℕ) (role : UserRole)
    (merchant_id quote_id quote_version key hash order_id now : ℕ) (db : Database)
    {claimed : List IdempotencyRecord} {quote : PriceQuote} {existing : ℕ}
    → claim_idempotency (order_create merchant_id) key hash now db.idempotency ≡ ok claimed
    → get quote_id db.quotes ≡ some quote
    → (quote.merchant_id == merchant_id) ≡ true
    → order_of_quote quote_id db.orders ≡ some existing
    → create_transaction covers user_id role merchant_id quote_id quote_version key hash order_id
        now db
      ≡ ok (
        existing,
        record db {
          idempotency = complete_idempotency (order_create merchant_id) key existing 200 claimed;
        },
      )
unfolding create_transaction
create_transaction-ordered covers user_id role merchant_id quote_id quote_version key hash order_id
      now db c at mine ordered =
    rw c (rw at (rw mine (rw ordered refl)))

-- A request for a quote without an order, which commits, places one.
create_transaction-committed :
    (covers : ℕ → Bool) (user_id : ℕ) (role : UserRole)
    (merchant_id quote_id quote_version key hash order_id now : ℕ) (db : Database)
    {claimed : List IdempotencyRecord} {quote : PriceQuote} {placed db' : Database} {answer : ℕ}
    → claim_idempotency (order_create merchant_id) key hash now db.idempotency ≡ ok claimed
    → get quote_id db.quotes ≡ some quote
    → order_of_quote quote_id db.orders ≡ none
    → place_order covers user_id role quote_id quote quote_version order_id now db ≡ ok placed
    → create_transaction covers user_id role merchant_id quote_id quote_version key hash order_id
        now db
      ≡ ok (answer, db')
    → ((quote.merchant_id == merchant_id) ≡ true)
      × (order_id ≡ answer)
      × (record placed {
        idempotency = complete_idempotency (order_create merchant_id) key order_id 200 claimed;
      }
          ≡ db')
unfolding create_transaction
create_transaction-committed covers user_id role merchant_id quote_id quote_version key hash
      order_id now db {claimed} {quote} {placed} {db'} {answer} c at unordered p h =
    elim (Bool-cases (quote.merchant_id == merchant_id)) [
      | inl mine ↦
          let value : ok (
            order_id,
            record placed {
              idempotency =
                  complete_idempotency (order_create merchant_id) key order_id 200 claimed;
            },
          )
              ≡ ok (answer, db') =
            sym (rw c (rw at (rw mine (rw unordered (rw p refl))))) ∙ h in
          (mine, ground (arith, value), ground (arith, value))
      | inr other ↦ absurd (ground arith)
    ]

-- A transaction that commits for a quote without an order has these checks behind it, and these writes.
pub create_transaction-writes :
    (covers : ℕ → Bool) (user_id : ℕ) (role : UserRole)
    (merchant_id quote_id quote_version key hash order_id now : ℕ) (db : Database) {db' : Database}
    {answer : ℕ}
    → create_transaction covers user_id role merchant_id quote_id quote_version key hash order_id
        now db
      ≡ ok (answer, db')
    → order_of_quote quote_id db.orders ≡ none
    → (quote : PriceQuote) × (get quote_id db.quotes ≡ some quote)
      × ((quote.status is QuoteStatus.active) ≡ true)
      × (now < quote.expires_at)
      × (quote.version ≡ quote_version)
      × ((quote.merchant_id == merchant_id) ≡ true)
      × (answer ≡ order_id)
      × (idempotency : List IdempotencyRecord) × (record (with_order user_id role quote_id quote
            order_id now db) { idempotency = idempotency }
          ≡ db')
unfolding create_transaction
create_transaction-writes covers user_id role merchant_id quote_id quote_version key hash order_id
      now db h unordered =
    elim (Result-cases (claim_idempotency (order_create merchant_id) key hash now db.idempotency)) [
      | inl (e, refused) ↦ absurd (ground arith)
      | inr (first, f) ↦ elim (Option-cases (get quote_id db.quotes)) [
        | inl missing ↦ absurd (ground arith)
        | inr (quote, at) ↦
            elim (Result-cases
              (place_order covers user_id role quote_id quote quote_version order_id now db)) [
                | inl (e, refused) ↦ absurd (ground arith)
                | inr (placed, p) ↦
                    let (active, in_time, version, writes) =
                      place_order-writes covers user_id role quote_id quote quote_version order_id
                        now db p in
                    let (mine, answered, stored) =
                      create_transaction-committed covers user_id role merchant_id quote_id
                        quote_version key hash order_id now db f at unordered p h in
                    let idempotency =
                      complete_idempotency (order_create merchant_id) key order_id 200 first in
                    (
                      quote,
                      at,
                      active,
                      in_time,
                      version,
                      mine,
                      sym answered,
                      idempotency,
                      sym (ap (λ (d : Database). record d { idempotency = idempotency }) writes)
                          ∙ stored,
                    )
              ]
      ]
    ]
