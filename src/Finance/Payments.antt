-- ===== src/Finance/Payments.antt =====
-- Payments outside the platform: `recordExternalPayment`, `recordExternalPaymentInTransaction` and
-- `reverseExternalPayment` of apps/api/src/finance/finance.service.ts.
use wassal.Prelude.{ℕ, ◌&&◌, none, some, List, ◌∷◌, ◌++◌, map, not, ◌==◌, filter, is_some}
use wassal.Prelude.Int.{pos, ◌-ℤ◌}
use wassal.Store.{
  Database, external_payment_create, external_payment_reverse, external_payment_recorded,
  external_payment_reversed,
}
use wassal.Store.Table.{get}
use wassal.Finance.Domain.{external_payment, reversal, Allocation, allocate_oldest_settlements}
use wassal.Finance.Accounts.{
  Accounts, LedgerEntry, ExternalPayment, PaymentAllocation, payment_entry, payment_reversal,
}
use wassal.Finance.Settlement.{is_reversed, has_source_key}
use wassal.Finance.Postings.{
  payable_settlements, allocation_result, has_payment_key, find_entry, is_entry_reversed,
  refresh_all,
}
use wassal.Service.Transaction.{
  Result, ok, ◌>>=◌, ◌>>◌, require, found, courier_not_found, settlement_missing, payment_not_found,
  payment_reversed, entry_missing, duplicate_payment, duplicate_entry,
}
use wassal.Service.Idempotency.{claim_idempotency, complete_idempotency, idempotency_replay}
use wassal.Service.Queries.{courier_user}
use wassal.Service.Writes.{audit}

-- The body of the request, less its texts.
pub record PaymentInput : Type 0 where
  pub amount_minor : ℕ
  pub paid_at : ℕ

abbrev pub recorded_payment : ℕ → ℕ → PaymentInput → ℕ → ExternalPayment
recorded_payment user_id courier_id input key = record {
  courier_id = courier_id;
  amount_minor = input.amount_minor;
  paid_at = input.paid_at;
  created_by_id = user_id;
  idempotency_key = key;
  reverses_payment_id = none;
}

abbrev pub recorded_entry : ℕ → ℕ → PaymentInput → ℕ → LedgerEntry
recorded_entry user_id courier_id input payment_id = record {
  courier_id = courier_id;
  order_id = none;
  type = external_payment;
  amount_minor = pos 0 -ℤ pos input.amount_minor;
  source_key = payment_entry payment_id;
  reverses_entry_id = none;
  created_by_id = some user_id;
  occurred_at = input.paid_at;
}

-- `allocations.map((allocation) => ({ paymentId, ...allocation }))`.
abbrev pub allocation_rows : ℕ → List Allocation → List PaymentAllocation
allocation_rows payment_id allocations =
    map
      (λ (a : Allocation). record {
        payment_id = payment_id;
        settlement_period_id = a.settlement_period_id;
        amount_minor = a.amount_minor;
      })
      allocations

abbrev pub allocated_ids : List Allocation → List ℕ
allocated_ids allocations = map (λ (a : Allocation). a.settlement_period_id) allocations

-- The rows that recording a payment creates.
abbrev pub post_payment :
    ℕ → ExternalPayment → ℕ → LedgerEntry → List Allocation → Accounts → Accounts
post_payment payment_id payment entry_id entry allocations a = record a {
  payments = (payment_id, payment) ∷ a.payments;
  ledger = (entry_id, entry) ∷ a.ledger;
  allocations = allocation_rows payment_id allocations ++ a.allocations;
}

abbrev pub reversal_payment : ℕ → ExternalPayment → ℕ → ℕ → ℕ → ExternalPayment
reversal_payment user_id payment payment_id key now = record payment {
  paid_at = now;
  created_by_id = user_id;
  idempotency_key = key;
  reverses_payment_id = some payment_id;
}

abbrev pub reversal_entry : ℕ → ExternalPayment → ℕ → ℕ → ℕ → LedgerEntry
reversal_entry user_id payment reversal_id original_entry_id now = record {
  courier_id = payment.courier_id;
  order_id = none;
  type = reversal;
  amount_minor = pos payment.amount_minor;
  source_key = payment_reversal reversal_id;
  reverses_entry_id = some original_entry_id;
  created_by_id = some user_id;
  occurred_at = now;
}

-- `payment.allocations`.
abbrev pub allocations_of : ℕ → List PaymentAllocation → List PaymentAllocation
allocations_of payment_id allocations = filter (λ a. a.payment_id == payment_id) allocations

-- The allocations of the reversal: those of the payment.
abbrev pub copied_rows : ℕ → List PaymentAllocation → List PaymentAllocation
copied_rows reversal_id allocations =
    map (λ (a : PaymentAllocation). record a { payment_id = reversal_id }) allocations

-- The rows that reversing a payment creates.
abbrev pub post_reversal : ℕ → ℕ → ExternalPayment → ℕ → LedgerEntry → Accounts → Accounts
post_reversal payment_id reversal_id payment entry_id entry a = record a {
  payments = (reversal_id, payment) ∷ a.payments;
  ledger = (entry_id, entry) ∷ a.ledger;
  allocations = copied_rows reversal_id (allocations_of payment_id a.allocations) ++ a.allocations;
}

module _ (shown : ℕ → ℕ) where
  -- `payment_id` and `entry_id` are the ids of the rows that are created.
  unfoldable pub record_external_payment_in_transaction :
      ℕ → ℕ → PaymentInput → ℕ → ℕ → ℕ → ℕ → ℕ → Database → Result (ℕ × Database)
  unfolding allocate_oldest_settlements
  record_external_payment_in_transaction user_id courier_id input key hash payment_id entry_id now
        db =
      do
        let scope = external_payment_create courier_id
        claimed ← claim_idempotency scope key hash now db.idempotency
        courier ← found (courier_user courier_id db.couriers) courier_not_found
        allocations ← allocation_result (
            allocate_oldest_settlements input.amount_minor
              (payable_settlements courier_id db.accounts.settlements))
        require (not (has_payment_key key db.accounts.payments)) duplicate_payment
        require (not (has_source_key (payment_entry payment_id) db.accounts.ledger)) duplicate_entry
        accounts ←
            found
              (refresh_all shown (allocated_ids allocations) now (
                post_payment payment_id (recorded_payment user_id courier_id input key) entry_id
                  (recorded_entry user_id courier_id input payment_id) allocations db.accounts))
              settlement_missing
        ok (
          payment_id,
          record db {
            accounts = accounts;
            audits = audit (some user_id) external_payment_recorded payment_id ∷ db.audits;
            idempotency = complete_idempotency scope key payment_id 200 claimed;
          },
        )

  -- A request that was answered before gets the same payment.
  unfoldable pub record_external_payment :
      ℕ → ℕ → PaymentInput → ℕ → ℕ → ℕ → ℕ → ℕ → Database → Result (ℕ × Database)
  record_external_payment user_id courier_id input key hash payment_id entry_id now db =
      idempotency_replay (external_payment_create courier_id) key hash db.idempotency >>= λ replay.
      elim replay [
        | some payment ↦ ok (payment, db)
        | none ↦
            record_external_payment_in_transaction user_id courier_id input key hash payment_id
              entry_id now db
      ]

  -- The transaction of `reverseExternalPayment`.
  unfoldable pub reverse_external_payment :
      ℕ → ℕ → ℕ → ℕ → ℕ → ℕ → ℕ → Database → Result (ℕ × Database)
  reverse_external_payment user_id payment_id key hash reversal_id entry_id now db = do
    let scope = external_payment_reverse payment_id
    claimed ← claim_idempotency scope key hash now db.idempotency
    payment ← found (get payment_id db.accounts.payments) payment_not_found
    require
        (not (is_some payment.reverses_payment_id)
          && not (is_reversed payment_id db.accounts.payments))
        payment_reversed
    original_entry_id ←
        found (find_entry (payment_entry payment_id) db.accounts.ledger) entry_missing
    require (not (has_payment_key key db.accounts.payments)) duplicate_payment
    require
        (not (has_source_key (payment_reversal reversal_id) db.accounts.ledger)
          && not (is_entry_reversed original_entry_id db.accounts.ledger))
        duplicate_entry
    accounts ←
        found
          (refresh_all shown
            (map (λ (a : PaymentAllocation). a.settlement_period_id)
              (allocations_of payment_id db.accounts.allocations))
            now
            (post_reversal payment_id reversal_id
              (reversal_payment user_id payment payment_id key now) entry_id
              (reversal_entry user_id payment reversal_id original_entry_id now) db.accounts))
          settlement_missing
    ok (
      reversal_id,
      record db {
        accounts = accounts;
        audits = audit (some user_id) external_payment_reversed reversal_id ∷ db.audits;
        idempotency = complete_idempotency scope key reversal_id 200 claimed;
      },
    )
