-- ===== src/Finance/Adjustments.antt =====
-- Corrections of a courier's account by the administration: `createAdjustment` of
-- apps/api/src/finance/finance.service.ts.
use wassal.Prelude.{
  ℕ, Bool, true, false, ◌&&◌, Option, none, some, List, [], ◌∷◌, not, leb, ltb, ◌==◌, ◌is◌,
  if◌then◌else◌, filter,
}
use wassal.Prelude.Int.{ℤ, pos, ◌-ℤ◌}
use wassal.Prelude.Sort.{sort_by}
use wassal.Store.{DeliveryOrder, Database, courier_adjustment, courier_account}
use wassal.Store.Table.{Table, get}
use wassal.Finance.Domain.{
  LedgerType, ledger_type_enum, adjustment_debit, reversal, SettlementStatus, open_period, closed,
  not_due, due_soon, partially_paid, paid, overdue, waived, adjusted,
}
use wassal.Finance.Accounts.{
  Accounts, LedgerEntry, SettlementLine, SettlementPeriod, SourceKey, source_key_enum,
}
use wassal.Finance.Settlement.{refresh_settlement_projection, has_source_key}
use wassal.Finance.Postings.{is_entry_reversed}
use wassal.Service.Transaction.{
  Result, ok, err, ◌>>=◌, ◌>>◌, require, found, courier_not_found, settlement_missing,
  settlement_not_found, settlement_required, entry_not_reversible, duplicate_entry,
  adjustment_order_not_found,
}
use wassal.Service.Idempotency.{claim_idempotency, complete_idempotency}
use wassal.Service.Queries.{courier_user}
use wassal.Service.Writes.{audit}

-- The body of the request, less its reason.
pub record AdjustmentInput : Type 0 where
  pub type : LedgerType
  pub amount_minor : ℕ
  pub settlement_period_id : Option ℕ
  pub order_id : Option ℕ
  pub reverses_entry_id : Option ℕ

-- `settlementLine?.settlementPeriodId` of an entry.
unfoldable pub line_settlement : ℕ → List SettlementLine → Option ℕ
line_settlement entry_id [] = none
line_settlement entry_id (line ∷ lines) =
    if line.ledger_entry_id == entry_id
    then some line.settlement_period_id
    else line_settlement entry_id lines

-- The entry that a reversal names, where it may be reversed; the schema of the request asks for one.
unfoldable pub reversed_entry : ℕ → Option ℕ → Table LedgerEntry → Result LedgerEntry
unfolding is_entry_reversed
reversed_entry courier_id none ledger = err entry_not_reversible
reversed_entry courier_id (some entry_id) ledger = do
  original ← found (get entry_id ledger) entry_not_reversible
  require (original.courier_id == courier_id && not (is_entry_reversed entry_id ledger))
      entry_not_reversible
  ok original

-- The order of the enumeration in the database.
abbrev pub status_rank : SettlementStatus → ℕ
status_rank open_period = 0
status_rank closed = 1
status_rank not_due = 2
status_rank due_soon = 3
status_rank partially_paid = 4
status_rank paid = 5
status_rank overdue = 6
status_rank waived = 7
status_rank adjusted = 8

-- `orderBy: [{ status: 'asc' }, { periodStart: 'desc' }]`.
abbrev pub adjusted_before : ℕ × SettlementPeriod → ℕ × SettlementPeriod → Bool
adjusted_before (i, s) (j, t) =
    if status_rank s.status == status_rank t.status
    then leb t.period_start s.period_start
    else ltb (status_rank s.status) (status_rank t.status)

abbrev pub first_id : Table SettlementPeriod → Option ℕ
first_id [] = none
first_id ((id, s) ∷ rest) = some id

-- `settlementPeriod.findFirst({ where: { courierId }, orderBy })`.
unfoldable pub first_settlement : ℕ → Table SettlementPeriod → Option ℕ
first_settlement courier_id settlements =
    first_id (sort_by adjusted_before (filter (λ (id, s). s.courier_id == courier_id) settlements))

-- The first of the ids that is given.
abbrev pub or_else : Option ℕ → Option ℕ → Option ℕ
or_else (some id) other = some id
or_else none other = other

-- The period that the adjustment belongs to: the one asked for, that of the reversed entry, or the
-- first of the courier.
unfoldable pub adjusted_settlement : ℕ → AdjustmentInput → Accounts → Option ℕ
unfolding line_settlement first_settlement
adjusted_settlement courier_id input a =
    let of_original =
      if input.type is reversal
      then elim input.reverses_entry_id [
        | some entry_id ↦ line_settlement entry_id a.lines
        | none ↦ none
      ]
      else none in
    or_else input.settlement_period_id
      (or_else of_original (first_settlement courier_id a.settlements))

-- `originalAmountMinor`, where the adjustment is a reversal.
unfoldable pub original_amount : ℕ → AdjustmentInput → Accounts → Result ℤ
unfolding reversed_entry
original_amount courier_id input a =
    if input.type is reversal
    then reversed_entry courier_id input.reverses_entry_id a.ledger
      >>= (λ (original : LedgerEntry). ok original.amount_minor)
    else ok (pos 0)

abbrev pub adjustment_amount : LedgerType → ℕ → ℤ → ℤ
adjustment_amount type amount_minor original_amount_minor =
    if type is adjustment_debit
    then pos amount_minor
    else if type is reversal
    then pos 0 -ℤ original_amount_minor
    else pos 0 -ℤ pos amount_minor

-- `deliveryOrder.findFirst({ where: { id, courierId } })`, where an order is named.
unfoldable pub has_courier_order : ℕ → Option ℕ → Table DeliveryOrder → Bool
has_courier_order courier_id none orders = true
has_courier_order courier_id (some order_id) orders = elim (get order_id orders) [
  | none ↦ false
  | some order ↦ elim order.courier_id [ some id ↦ id == courier_id | none ↦ false ]
]

abbrev pub adjustment_entry : ℕ → ℕ → AdjustmentInput → ℤ → ℕ → ℕ → LedgerEntry
adjustment_entry user_id courier_id input amount_minor key now = record {
  courier_id = courier_id;
  order_id = input.order_id;
  type = input.type;
  amount_minor = amount_minor;
  source_key = SourceKey.adjustment courier_id key;
  reverses_entry_id = input.reverses_entry_id;
  created_by_id = some user_id;
  occurred_at = now;
}

-- The entry and its line.
abbrev pub post_adjustment : ℕ → LedgerEntry → ℕ → Accounts → Accounts
post_adjustment entry_id entry settlement_id a = record a {
  ledger = (entry_id, entry) ∷ a.ledger;
  lines =
      record {
        settlement_period_id = settlement_id;
        ledger_entry_id = entry_id;
        amount_minor = entry.amount_minor;
      }
      ∷ a.lines;
}

-- The entry's unique key for the entry that it reverses.
unfoldable pub is_taken : Option ℕ → Table LedgerEntry → Bool
unfolding is_entry_reversed
is_taken none ledger = false
is_taken (some entry_id) ledger = is_entry_reversed entry_id ledger

module _ (shown : ℕ → ℕ) where
  -- The transaction of `createAdjustment`. `entry_id` is the id of the entry that is created.
  unfoldable pub create_adjustment :
      ℕ → ℕ → AdjustmentInput → ℕ → ℕ → ℕ → ℕ → Database → Result (ℕ × Database)
  unfolding adjusted_settlement original_amount has_courier_order is_taken
  create_adjustment user_id courier_id input key hash entry_id now db = do
    let scope = courier_adjustment courier_id
    claimed ← claim_idempotency scope key hash now db.idempotency
    courier ← found (courier_user courier_id db.couriers) courier_not_found
    original_amount_minor ← original_amount courier_id input db.accounts
    settlement_id ← found (adjusted_settlement courier_id input db.accounts) settlement_required
    settlement ← found (get settlement_id db.accounts.settlements) settlement_not_found
    require (settlement.courier_id == courier_id) settlement_not_found
    require (has_courier_order courier_id input.order_id db.orders) adjustment_order_not_found
    let amount_minor = adjustment_amount input.type input.amount_minor original_amount_minor
    require
        (not (has_source_key (SourceKey.adjustment courier_id key) db.accounts.ledger)
          && not (is_taken input.reverses_entry_id db.accounts.ledger))
        duplicate_entry
    accounts ←
        found
          (refresh_settlement_projection shown settlement_id now (
            post_adjustment entry_id
              (adjustment_entry user_id courier_id input amount_minor key now) settlement_id
              db.accounts))
          settlement_missing
    ok (
      entry_id,
      record db {
        accounts = accounts;
        audits = audit (some user_id) (courier_account input.type) entry_id ∷ db.audits;
        idempotency = complete_idempotency scope key entry_id 200 claimed;
      },
    )
