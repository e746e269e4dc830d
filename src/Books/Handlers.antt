-- ===== src/Books/Handlers.antt =====
-- Recorded and reversed payments and the books: the handlers of
-- apps/api/src/finance/finance.service.ts as wholes.
use wassal.Prelude.{
  ℕ, ◌≡◌, refl, ap, ◌⊎◌, true, not, ◌&&◌, none, some, List, inl, inr, arith, is_some, Option-cases,
}
use wassal.Store.{Database, external_payment_create, external_payment_reverse}
use wassal.Store.Table.{get}
use wassal.Finance.Domain.{
  Outcome, done, invalid_input, overpayment, unsafe_result, Allocation, settlement_status_enum,
  allocate_oldest_settlements,
}
use wassal.Finance.Accounts.{payment_entry, ExternalPayment}
use wassal.Finance.Settlement.{is_reversed}
use wassal.Finance.Postings.{payable_settlements, allocation_result, find_entry, refresh_all}
use wassal.Finance.Payments.{
  PaymentInput, recorded_payment, recorded_entry, allocated_ids, post_payment, reversal_payment,
  reversal_entry, allocations_of, post_reversal, record_external_payment_in_transaction,
  reverse_external_payment,
}
use wassal.Service.Transaction.{Fault, ok, err, Result-cases}
use wassal.Service.Idempotency.{claim_idempotency}
use wassal.Service.Queries.{courier_user}
use wassal.Books.Invariant.{InOrder}
use wassal.Books.Refresh.{refresh_all-InOrder}
use wassal.Books.Paying.{post_payment-InOrderBut}
use wassal.Books.Reversing.{periods_of, post_reversal-InOrderBut}

Outcome-cases :
    {A : Type 0} (o : Outcome A)
    → ((a : A) × (o ≡ done a)) ⊎ ((fault : Fault) × (allocation_result o ≡ err fault))
Outcome-cases (done a) = inl (a, refl)
Outcome-cases overpayment = inr (_, refl)
Outcome-cases invalid_input = inr (_, refl)
Outcome-cases unsafe_result = inr (_, refl)

module _ (shown : ℕ → ℕ) (user_id courier_id : ℕ) (input : PaymentInput)
    (key hash payment_id entry_id now : ℕ) (db : Database) where
  -- What a recorded payment did: it was spread over what the courier owes, and posted.
  pub record_in_transaction-posts :
      {answer : ℕ} {db' : Database}
      → record_external_payment_in_transaction shown user_id courier_id input key hash payment_id
          entry_id now db
        ≡ ok (answer, db')
      → (allocations : List Allocation) × (allocate_oldest_settlements input.amount_minor
            (payable_settlements courier_id db.accounts.settlements)
          ≡ done allocations)
        × (refresh_all shown (allocated_ids allocations) now (
              post_payment payment_id
                (recorded_payment user_id courier_id input key)
                entry_id
                (recorded_entry user_id courier_id input payment_id)
                allocations
                db.accounts)
            ≡ some db'.accounts)
        × (answer ≡ payment_id)
        × (db'.payment_proofs ≡ db.payment_proofs)
  unfolding record_external_payment_in_transaction
  record_in_transaction-posts h =
      elim (Result-cases
        (claim_idempotency (external_payment_create courier_id) key hash now db.idempotency)) [
          | inl (e, refused) ↦ absurd (ground arith)
          | inr (claimed, c) ↦ elim (Option-cases (courier_user courier_id db.couriers)) [
            | inl unknown ↦ absurd (ground arith)
            | inr (u, k) ↦
                elim (Outcome-cases (
                  allocate_oldest_settlements input.amount_minor
                    (payable_settlements courier_id db.accounts.settlements))) [
                      | inr (e, refused) ↦ absurd (ground arith)
                      | inl (allocations, spread) ↦
                          elim (Option-cases (
                            refresh_all shown (allocated_ids allocations) now (
                              post_payment payment_id
                                (recorded_payment user_id courier_id input key) entry_id
                                (recorded_entry user_id courier_id input payment_id) allocations
                                db.accounts))) [
                                  | inl missing ↦ absurd (ground arith)
                                  | inr (b, posted) ↦ (
                                    allocations,
                                    spread,
                                    ground arith,
                                    ground arith,
                                    ground arith,
                                  )
                                ]
                    ]
          ]
        ]

  pub record_in_transaction-InOrder :
      {answer : ℕ} {db' : Database}
      → record_external_payment_in_transaction shown user_id courier_id input key hash payment_id
          entry_id now db
        ≡ ok (answer, db')
      → get payment_id db.accounts.payments ≡ none
      → get entry_id db.accounts.ledger ≡ none
      → InOrder db.accounts
      → InOrder db'.accounts
  record_in_transaction-InOrder h fresh_payment fresh_entry w =
      let (allocations, spread, posted, _, _) = record_in_transaction-posts h in
      refresh_all-InOrder shown (allocated_ids allocations) now
        (post_payment payment_id (recorded_payment user_id courier_id input key) entry_id
          (recorded_entry user_id courier_id input payment_id) allocations db.accounts)
        posted
        (post_payment-InOrderBut payment_id (recorded_payment user_id courier_id input key) entry_id
          (recorded_entry user_id courier_id input payment_id) db.accounts fresh_payment fresh_entry
          allocations refl w)

module _ (shown : ℕ → ℕ) (user_id payment_id key hash reversal_id entry_id now : ℕ)
    (db : Database) where
  pub reverse-posts :
      {answer : ℕ} {db' : Database}
      → reverse_external_payment shown user_id payment_id key hash reversal_id entry_id now db
        ≡ ok (answer, db')
      → (payment : ExternalPayment) × (original : ℕ) × (get payment_id db.accounts.payments
          ≡ some payment)
        × ((not (is_some payment.reverses_payment_id)
              && not (is_reversed payment_id db.accounts.payments))
            ≡ true)
        × (refresh_all shown (periods_of (allocations_of payment_id db.accounts.allocations)) now (
              post_reversal payment_id reversal_id
                (reversal_payment user_id payment payment_id key now)
                entry_id
                (reversal_entry user_id payment reversal_id original now)
                db.accounts)
            ≡ some db'.accounts)
  unfolding reverse_external_payment
  reverse-posts h =
      elim (Result-cases
        (claim_idempotency (external_payment_reverse payment_id) key hash now db.idempotency)) [
          | inl (e, refused) ↦ absurd (ground arith)
          | inr (claimed, c) ↦ elim (Option-cases (get payment_id db.accounts.payments)) [
            | inl unknown ↦ absurd (ground arith)
            | inr (payment, k) ↦
                elim (Option-cases (find_entry (payment_entry payment_id) db.accounts.ledger)) [
                  | inl none_such ↦ absurd (ground arith)
                  | inr (original, o) ↦
                      elim (Option-cases (
                        refresh_all shown
                          (periods_of (allocations_of payment_id db.accounts.allocations)) now
                          (post_reversal payment_id reversal_id
                            (reversal_payment user_id payment payment_id key now) entry_id
                            (reversal_entry user_id payment reversal_id original now)
                            db.accounts))) [
                              | inl missing ↦ absurd (ground arith)
                              | inr (b, posted) ↦ (payment, original, k, ground arith, ground arith)
                            ]
                ]
          ]
        ]

  pub reverse-InOrder :
      {answer : ℕ} {db' : Database}
      → reverse_external_payment shown user_id payment_id key hash reversal_id entry_id now db
        ≡ ok (answer, db')
      → get reversal_id db.accounts.payments ≡ none
      → get entry_id db.accounts.ledger ≡ none
      → InOrder db.accounts
      → InOrder db'.accounts
  reverse-InOrder h fresh_payment fresh_entry w =
      let (payment, original, at, may, posted) = reverse-posts h in
      let row = reversal_payment user_id payment payment_id key now in
      let entry = reversal_entry user_id payment reversal_id original now in
      refresh_all-InOrder shown (periods_of (allocations_of payment_id db.accounts.allocations)) now
        (post_reversal payment_id reversal_id row entry_id entry db.accounts) posted
        (post_reversal-InOrderBut payment_id reversal_id row entry_id entry db.accounts
          fresh_payment fresh_entry refl (ap is_some at) w)
