-- ===== src/Scenarios/FinanceExamples.antt =====
-- The laws of the couriers' books at a small account: a closed week that owes 700, and an open one.
use wassal.Prelude.{ℕ, ◌+◌, ◌≡◌, refl, none, some, List, [], ◌∷◌, arith, sum_by}
use wassal.Prelude.Int.{pos, ◌+ℤ◌, ◌-ℤ◌}
use wassal.Store.{Database, Scope-discrete}
use wassal.Store.Table.{get, update}
use wassal.Finance.Domain.{
  LedgerType-discrete, commission_due, not_due, open_period, done, Allocation,
  allocate_oldest_settlements, SettlementStatus-discrete,
}
use wassal.Finance.Accounts.{
  Accounts, LedgerEntry, SettlementPeriod, ExternalPayment, order_commission, SourceKey-discrete,
}
use wassal.Finance.Settlement.{projection_of, has_source_key}
use wassal.Finance.Postings.{
  payable_settlements, find_entry, has_payment_key, is_entry_reversed, refresh_all,
}
use wassal.Finance.Payments.{
  PaymentInput, record_external_payment_in_transaction, reverse_external_payment,
}
use wassal.Finance.Closing.{close_accounts, close_settlement, totals_of}
use wassal.Service.Transaction.{Result, ok, err}
use wassal.Worker.Settlements.{worker_totals}
use wassal.Scenarios.{market, searching}
use wassal.Books.Invariant.{InOrder, AreSynced, AreSynced-get}
use wassal.Books.Extending.{share_of}
use wassal.Books.Handlers.{record_in_transaction-InOrder}
use wassal.Books.Jobs.{worker_totals-projection_of}
use wassal.Books.Runs.{nothing, then_posting, recorded, taken_back, closes, Postings-InOrder}
use wassal.Books.Balance.{record_external_payment-lowers}
use wassal.Books.TakenBack.{reverse-record_external_payment}
use wassal.Books.Recharged.{is_adjustment, missing_total}
use wassal.Books.ChargedTwice.{reverse-close_settlement}
use wassal.Service.Idempotency.{claim_idempotency, complete_idempotency}
use wassal.Service.Queries.{courier_user}

-- A time zone without an offset.
abbrev pub utc : ℕ → ℕ
utc t = t

abbrev closed_week : SettlementPeriod
closed_week = record {
  courier_id = 5;
  period_start = 0;
  period_end = 1000;
  due_at = 2000;
  total_commission_due_minor = pos 700;
  total_payments_minor = 0;
  total_adjustments_minor = pos 0;
  total_waived_minor = 0;
  remaining_amount_minor = 700;
  status = not_due;
  version = 2;
  closed_at = some 1000;
}

abbrev open_week : SettlementPeriod
open_week = record {
  courier_id = 5;
  period_start = 1000;
  period_end = 2000;
  due_at = 3000;
  total_commission_due_minor = pos 0;
  total_payments_minor = 0;
  total_adjustments_minor = pos 0;
  total_waived_minor = 0;
  remaining_amount_minor = 0;
  status = open_period;
  version = 1;
  closed_at = none;
}

abbrev commission : LedgerEntry
commission = record {
  courier_id = 5;
  order_id = some 1;
  type = commission_due;
  amount_minor = pos 700;
  source_key = order_commission 1;
  reverses_entry_id = none;
  created_by_id = none;
  occurred_at = 500;
}

abbrev account : Accounts
account = record {
  ledger = (10, commission) ∷ [];
  lines = record { settlement_period_id = 20; ledger_entry_id = 10; amount_minor = pos 700 } ∷ [];
  settlements = (20, closed_week) ∷ (21, open_week) ∷ [];
  payments = [];
  allocations = [];
}

-- Courier 5 with the two weeks.
abbrev pub books : Database
books = record (market searching) { accounts = account }

account_synced : AreSynced account account.settlements
unfolding projection_of LedgerType-discrete ◌-ℤ◌ ◌+ℤ◌
account_synced = (refl, (refl, tt))

pub books-InOrder : InOrder books.accounts
unfolding get
books-InOrder = record {
  linked = record {
    lines_known = (refl, tt);
    allocations_known = tt;
    reversals_known = tt;
    keyed = (refl, (refl, tt));
    entries_keyed = (refl, tt);
  };
  dated = (refl, (refl, tt));
  synced = λ id s at out. AreSynced-get account id account.settlements account_synced at;
}

abbrev transfer : PaymentInput
transfer = record { amount_minor = 300; paid_at = 1500 }

-- Payment 30 of 300, recorded at instant 1600.
abbrev recording : Result (ℕ × Database)
recording = record_external_payment_in_transaction utc 90 5 transfer 6 7 30 11 1600 books

abbrev paid_books : Database
paid_books = elim recording [ ok r ↦ r.1 | err e ↦ books ]

records : recording ≡ ok (30, paid_books)
unfolding record_external_payment_in_transaction claim_idempotency courier_user payable_settlements
    SettlementStatus-discrete has_payment_key has_source_key SourceKey-discrete refresh_all
records = refl

-- Its reversal 31 at instant 1700.
abbrev reversing : Result (ℕ × Database)
reversing = reverse_external_payment utc 90 30 8 9 31 12 1700 paid_books

abbrev reversed_books : Database
reversed_books = elim reversing [ ok r ↦ r.1 | err e ↦ books ]

reverses_it : reversing ≡ ok (31, reversed_books)
unfolding reverse_external_payment claim_idempotency record_external_payment_in_transaction
    courier_user payable_settlements SettlementStatus-discrete has_payment_key has_source_key
    SourceKey-discrete refresh_all complete_idempotency Scope-discrete
    native.Mathlib.Decide.ℕ_discrete find_entry is_entry_reversed update
reverses_it = refl

-- The close of the second week at instant 2500.
abbrev closing : Result (ℕ × Database)
closing = close_settlement utc 90 21 1 10 11 2500 reversed_books

abbrev closed_books : Database
closed_books = elim closing [ ok r ↦ r.1 | err e ↦ books ]

closes_it : closing ≡ ok (21, closed_books)
unfolding get reverse_external_payment claim_idempotency record_external_payment_in_transaction
    courier_user payable_settlements SettlementStatus-discrete has_payment_key has_source_key
    SourceKey-discrete refresh_all complete_idempotency Scope-discrete
    native.Mathlib.Decide.ℕ_discrete find_entry is_entry_reversed update close_settlement
    close_accounts
closes_it = refl

fresh_payment : get 30 books.accounts.payments ≡ none
unfolding get
fresh_payment = refl

fresh_entry : get 11 books.accounts.ledger ≡ none
unfolding get
fresh_entry = refl

fresh_reversal : get 31 paid_books.accounts.payments ≡ none
unfolding get record_external_payment_in_transaction claim_idempotency courier_user
    payable_settlements SettlementStatus-discrete has_payment_key has_source_key SourceKey-discrete
    refresh_all
fresh_reversal = refl

fresh_reversed : get 12 paid_books.accounts.ledger ≡ none
unfolding get record_external_payment_in_transaction claim_idempotency courier_user
    payable_settlements SettlementStatus-discrete has_payment_key has_source_key SourceKey-discrete
    refresh_all
fresh_reversed = refl

first_week : get 20 books.accounts.settlements ≡ some closed_week
unfolding get
first_week = refl

second_week : get 21 reversed_books.accounts.settlements ≡ some open_week
unfolding get reverse_external_payment claim_idempotency record_external_payment_in_transaction
    courier_user payable_settlements SettlementStatus-discrete has_payment_key has_source_key
    SourceKey-discrete refresh_all complete_idempotency Scope-discrete
    native.Mathlib.Decide.ℕ_discrete find_entry is_entry_reversed update
second_week = refl

abbrev payment_row : ExternalPayment
payment_row = record {
  courier_id = 5;
  amount_minor = 300;
  paid_at = 1500;
  created_by_id = 90;
  idempotency_key = 6;
  reverses_payment_id = none;
}

first_payment : get 30 paid_books.accounts.payments ≡ some payment_row
unfolding get record_external_payment_in_transaction claim_idempotency courier_user
    payable_settlements SettlementStatus-discrete has_payment_key has_source_key SourceKey-discrete
    refresh_all
first_payment = refl

Postings-InOrder_example : InOrder closed_books.accounts
Postings-InOrder_example =
    Postings-InOrder utc books closed_books
      (then_posting books reversed_books closed_books
        (then_posting books paid_books reversed_books
          (then_posting books books paid_books (nothing books) (
            recorded 90 5 transfer 6 7 30 11 1600 30 books paid_books records fresh_payment
              fresh_entry))
          (taken_back 90 30 8 9 31 12 1700 31 paid_books reversed_books reverses_it fresh_reversal
            fresh_reversed))
        (closes 90 21 1 10 11 2500 21 reversed_books closed_books closes_it))
      books-InOrder

record_external_payment-lowers_example :
    (allocations : List Allocation) × (s' : SettlementPeriod) × (allocate_oldest_settlements 300
        (payable_settlements 5 books.accounts.settlements)
      ≡ done allocations)
    × (sum_by (λ (a : Allocation). a.amount_minor) allocations ≡ 300)
    × (get 20 paid_books.accounts.settlements ≡ some s')
    × (s'.remaining_amount_minor + share_of 20 allocations ≡ 700)
    × (s'.total_payments_minor ≡ share_of 20 allocations + 0)
record_external_payment-lowers_example =
    record_external_payment-lowers utc 90 5 transfer 6 7 30 11 1600 books {db' = paid_books} 20
      closed_week records fresh_payment fresh_entry books-InOrder first_week

reverse-record_external_payment_example :
    (s' : SettlementPeriod) × (get 20 reversed_books.accounts.settlements ≡ some s')
    × (totals_of s' ≡ totals_of closed_week)
reverse-record_external_payment_example =
    reverse-record_external_payment utc 90 5 transfer 6 7 30 11 1600 90 8 9 31 12 1700 books
      paid_books reversed_books 20 closed_week records fresh_payment fresh_entry reverses_it
      fresh_reversal fresh_reversed books-InOrder first_week

reverse-close_settlement_example :
    (s' : SettlementPeriod) × (get 21 closed_books.accounts.settlements ≡ some s')
    × (s'.total_adjustments_minor
        ≡ pos 300
          +ℤ missing_total is_adjustment open_week paid_books.accounts.lines
              paid_books.accounts.ledger
          +ℤ pos 0)
unfolding SettlementStatus-discrete
reverse-close_settlement_example =
    reverse-close_settlement utc 90 30 8 9 31 12 1700 90 21 1 10 11 2500 paid_books reversed_books
      closed_books payment_row open_week reverses_it closes_it fresh_reversal fresh_reversed
      (record_in_transaction-InOrder utc 90 5 transfer 6 7 30 11 1600 books records fresh_payment
        fresh_entry books-InOrder)
      first_payment second_week refl refl (ground arith) (ground arith)

worker_totals-projection_of_example :
    worker_totals 20 books.accounts ≡ projection_of 20 books.accounts
worker_totals-projection_of_example = worker_totals-projection_of 20 books.accounts
