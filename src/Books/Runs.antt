-- ===== src/Books/Runs.antt =====
-- Sequences of the transactions that change the couriers' accounts, by the handlers of
-- apps/api/src/finance/finance.service.ts, by the completion of an order and by the worker's jobs.
use wassal.Prelude.{ℕ, ◌≡◌, none}
use wassal.Store.{Database}
use wassal.Store.Table.{get}
use wassal.Finance.Payments.{
  PaymentInput, record_external_payment_in_transaction, reverse_external_payment,
}
use wassal.Finance.Closing.{close_settlement}
use wassal.Finance.Adjustments.{AdjustmentInput, create_adjustment}
use wassal.Service.Transaction.{ok}
use wassal.Orders.Finalization.{FinalizeInput, finalize_in_transaction}
use wassal.Worker.Settlements.{
  close_eligible_settlements, mark_overdue_settlements, closing_candidates,
}
use wassal.Books.Invariant.{InOrder}
use wassal.Books.Handlers.{record_in_transaction-InOrder, reverse-InOrder}
use wassal.Books.Corrections.{close-InOrder, adjustment-InOrder}
use wassal.Books.Commission.{finalize-InOrder}
use wassal.Books.Jobs.{close_candidates-InOrder, mark_overdue-InOrder}

-- A transaction that commits, and the ids of the rows that it creates, which are new.
pub data Posting (shown : ℕ → ℕ) : Database → Database → Type 0 where
  recorded :
      (user_id courier_id : ℕ) (input : PaymentInput) (key hash payment_id entry_id now answer : ℕ)
      (db db' : Database)
      → record_external_payment_in_transaction shown user_id courier_id input key hash payment_id
          entry_id now db
        ≡ ok (answer, db')
      → get payment_id db.accounts.payments ≡ none
      → get entry_id db.accounts.ledger ≡ none
      → Posting shown db db'
  taken_back :
      (user_id payment_id key hash reversal_id entry_id now answer : ℕ) (db db' : Database)
      → reverse_external_payment shown user_id payment_id key hash reversal_id entry_id now db
        ≡ ok (answer, db')
      → get reversal_id db.accounts.payments ≡ none
      → get entry_id db.accounts.ledger ≡ none
      → Posting shown db db'
  closes :
      (user_id settlement_id version key hash now answer : ℕ) (db db' : Database)
      → close_settlement shown user_id settlement_id version key hash now db ≡ ok (answer, db')
      → Posting shown db db'
  adjusts :
      (user_id courier_id : ℕ) (input : AdjustmentInput) (key hash entry_id now answer : ℕ)
      (db db' : Database)
      → create_adjustment shown user_id courier_id input key hash entry_id now db ≡ ok (answer, db')
      → get entry_id db.accounts.ledger ≡ none
      → Posting shown db db'
  finalizes :
      (order_id : ℕ) (input : FinalizeInput) (entry_id settlement_id now : ℕ) (db db' : Database)
      → finalize_in_transaction shown order_id input entry_id settlement_id now db ≡ ok db'
      → get entry_id db.accounts.ledger ≡ none
      → get settlement_id db.accounts.settlements ≡ none
      → Posting shown db db'
  sweeps : (now : ℕ) (db : Database) → Posting shown db (close_eligible_settlements now db).1
  marks : (now : ℕ) (db : Database) → Posting shown db (mark_overdue_settlements now db).1

-- Any number of them, one after the other.
pub data Postings (shown : ℕ → ℕ) : Database → Database → Type 0 where
  nothing : (db : Database) → Postings shown db db
  then_posting : (a b c : Database) → Postings shown a b → Posting shown b c → Postings shown a c

Posting-InOrder :
    (shown : ℕ → ℕ) (a b : Database) → Posting shown a b → InOrder a.accounts → InOrder b.accounts
unfolding close_eligible_settlements
Posting-InOrder shown _ _
      (recorded user_id courier_id input key hash payment_id entry_id now answer db db' h fp fe) w =
    record_in_transaction-InOrder shown user_id courier_id input key hash payment_id entry_id now db
      h fp fe w
Posting-InOrder shown _ _
      (taken_back user_id payment_id key hash reversal_id entry_id now answer db db' h fp fe) w =
    reverse-InOrder shown user_id payment_id key hash reversal_id entry_id now db h fp fe w
Posting-InOrder shown _ _ (closes user_id settlement_id version key hash now answer db db' h) w =
    close-InOrder shown user_id settlement_id version key hash now db h w
Posting-InOrder shown _ _
      (adjusts user_id courier_id input key hash entry_id now answer db db' h fe) w =
    adjustment-InOrder shown user_id courier_id input key hash entry_id now db h fe w
Posting-InOrder shown _ _ (finalizes order_id input entry_id settlement_id now db db' h fe fs) w =
    finalize-InOrder shown order_id input entry_id settlement_id now db h fe fs w
Posting-InOrder shown _ _ (sweeps now db) w =
    close_candidates-InOrder (closing_candidates now db.accounts.settlements) now 0 db w
Posting-InOrder shown _ _ (marks now db) w = mark_overdue-InOrder now db w

-- Where the books of the couriers are in order, they are so after any sequence of recorded payments,
-- reversed payments, closed periods, adjustments, completions by the API and runs of the worker's
-- settlement jobs: each period's five totals are the projection of its lines and of the payments
-- allocated to it that are not reversed, exactly the periods that are not open have the instant of
-- their closing, and every line, allocation and reversal names a row that exists.
pub Postings-InOrder :
    (shown : ℕ → ℕ) (a b : Database) → Postings shown a b → InOrder a.accounts → InOrder b.accounts
Postings-InOrder shown _ _ (nothing db) w = w
Postings-InOrder shown _ _ (then_posting a b c earlier last) w =
    Posting-InOrder shown b c last (Postings-InOrder shown a b earlier w)
