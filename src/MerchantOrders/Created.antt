-- ===== src/MerchantOrders/Created.antt =====
-- What `createOrder` of apps/api/src/orders/orders.service.ts writes, and that the rows stay well-formed.
use wassal.Prelude.{
  ℕ, ◌<◌, ◌≡◌, refl, ap, ◌∙◌, Bool, true, false, none, some, List, [], ◌∷◌, inl, inr, arith,
  Bool-cases, ◌is◌, ◌==◌, is_some,
}
use mathlib.Core.Path.{subst}
use mathlib.Core.Option.{some-injective}
use wassal.Contracts.Rbac.{UserRole}
use wassal.Store.{
  DeliveryOrder, Database, DeliveryDispute, OrderEvent, PriceQuote, QuoteStatus, quote_status_enum,
  IdempotencyRecord,
}
use wassal.Store.Table.{Table, get, Rows}
use wassal.Finance.Accounts.{order_commission}
use wassal.Finance.Settlement.{has_source_key}
use wassal.Service.Transaction.{ok, Result-cases}
use wassal.Books.Extending.{get-fresh}
use wassal.Marketplace.Invariant.{IsConsistent, last_status, is_completed, IsGrounded, WellFormed}
use wassal.MerchantOrders.Create.{
  order_of_quote, created_order, creation_events, revalidate_zone, place_order, with_order,
}

created_order-IsConsistent :
    (quote_id : ℕ) (quote : PriceQuote) (now : ℕ) → IsConsistent (created_order quote_id quote now)
created_order-IsConsistent quote_id quote now = record {
  courier_held = refl;
  window_open = refl;
  finalized_once = refl;
  attempts_bounded = omega arith;
  charge_is_fee = refl;
}

get-added_other :
    {V : Type 0} (k j : ℕ) (v : V) (t : Table V) → (k == j) ≡ false → get j ((k, v) ∷ t) ≡ get j t
unfolding get
get-added_other k j v t other = rw other refl

last_status-creation :
    (order_id id user_id : ℕ) (role : UserRole) (events : List OrderEvent)
    → (order_id == id) ≡ false
    → last_status id (creation_events order_id user_id role events) ≡ last_status id events
unfolding last_status
last_status-creation order_id id user_id role events other = rw other refl

IsGrounded-added :
    (order_id : ℕ) (order : DeliveryOrder) (orders : Table DeliveryOrder)
    (disputes : Table DeliveryDispute)
    → get order_id orders ≡ none
    → Rows (IsGrounded orders) disputes
    → Rows (IsGrounded ((order_id, order) ∷ orders)) disputes
IsGrounded-added order_id order orders [] fresh q = tt
IsGrounded-added order_id order orders ((id, dispute) ∷ disputes) fresh q = (
  λ opened.
      let (disputed, at, is_so) = q.0 opened in
      (
        disputed,
        get-fresh order_id dispute.order_id order orders fresh (ap is_some at) ∙ at,
        is_so,
      ),
  IsGrounded-added order_id order orders disputes fresh q.1,
)

module _ (covers : ℕ → Bool) (user_id : ℕ) (role : UserRole) (quote_id : ℕ) (quote : PriceQuote)
    (quote_version order_id now : ℕ) (db : Database) where
  -- A placed order passed the checks, and these are its writes.
  pub place_order-writes :
      {placed : Database}
      → place_order covers user_id role quote_id quote quote_version order_id now db ≡ ok placed
      → ((quote.status is QuoteStatus.active) ≡ true)
        × (now < quote.expires_at)
        × (quote.version ≡ quote_version)
        × (placed ≡ with_order user_id role quote_id quote order_id now db)
  unfolding place_order
  place_order-writes h = elim (Result-cases (revalidate_zone covers quote_id quote db)) [
    | inl (e, refused) ↦ absurd (ground arith)
    | inr (u, valid) ↦ ground (arith, valid)
  ]

  pub with_order-WellFormed :
      get order_id db.orders ≡ none
      → has_source_key (order_commission order_id) db.accounts.ledger ≡ false
      → (idempotency : List IdempotencyRecord) → WellFormed db
      → WellFormed (record (with_order user_id role quote_id quote order_id now db) {
        idempotency = idempotency;
      })
  unfolding get last_status
  with_order-WellFormed fresh unpaid idempotency w = record {
    consistent = (created_order-IsConsistent quote_id quote now, w.consistent);
    logged = λ id order at. elim (Bool-cases (order_id == id)) [
      | inl hit ↦
          let row : some (created_order quote_id quote now) ≡ some order = rw hit at at in
          rw hit (ap (λ (o : DeliveryOrder). o.status) (some-injective _ _ row))
      | inr miss ↦ rw miss (w.logged id order (rw miss at at))
    ];
    charged = λ id order at. elim (Bool-cases (order_id == id)) [
      | inl hit ↦
          let row : some (created_order quote_id quote now) ≡ some order = rw hit at at in
          let same : order_id ≡ id = ground arith in
          subst (λ i. has_source_key (order_commission i) db.accounts.ledger ≡ false) same unpaid
          ∙ ap (λ (o : DeliveryOrder). is_completed o.status) (some-injective _ _ row)
      | inr miss ↦ w.charged id order (rw miss at at)
    ];
    grounded =
        IsGrounded-added order_id (created_order quote_id quote now) db.orders db.disputes fresh
          w.grounded;
    indexed = w.indexed;
  }

pub order_of_quote-added :
    (order_id quote_id : ℕ) (quote : PriceQuote) (now : ℕ) (orders : Table DeliveryOrder)
    → order_of_quote quote_id ((order_id, created_order quote_id quote now) ∷ orders)
      ≡ some order_id
unfolding order_of_quote
order_of_quote-added order_id quote_id quote now orders = ground arith

pub get-added : {V : Type 0} (k : ℕ) (v : V) (t : Table V) → get k ((k, v) ∷ t) ≡ some v
unfolding get
get-added k v t = ground arith
