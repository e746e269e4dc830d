-- ===== src/Finance/Closing.antt =====
-- The end of a settlement period: `closeSettlement` of apps/api/src/finance/finance.service.ts.
use wassal.Prelude.{
  ℕ, ◌+◌, Bool, false, ◌&&◌, ◌||◌, some, List, [], ◌∷◌, ◌++◌, not, leb, ltb, ◌==◌, ◌is◌,
  if◌then◌else◌,
}
use wassal.Store.{Database, settlement_close, settlement_closed}
use wassal.Store.Table.{Table, get, update}
use wassal.Finance.Domain.{Projection, open_period, settlement_status_enum, settlement_status}
use wassal.Finance.Accounts.{Accounts, LedgerEntry, SettlementLine, SettlementPeriod}
use wassal.Finance.Settlement.{refresh_settlement_projection}
use wassal.Service.Transaction.{
  Result, ok, ◌>>=◌, ◌>>◌, require, found, settlement_missing, settlement_not_found,
  settlement_changed, settlement_period_not_ended,
}
use wassal.Service.Idempotency.{claim_idempotency, complete_idempotency}
use wassal.Service.Writes.{audit}

-- Whether an entry has a settlement line.
unfoldable pub has_line : ℕ → List SettlementLine → Bool
has_line entry_id [] = false
has_line entry_id (line ∷ lines) = line.ledger_entry_id == entry_id || has_line entry_id lines

-- The `where` of the query, but for the line: the courier's entry, dated in the period.
abbrev pub is_in_period : SettlementPeriod → LedgerEntry → Bool
is_in_period s e =
    e.courier_id == s.courier_id
    && leb s.period_start e.occurred_at
    && ltb e.occurred_at s.period_end

-- The lines of the courier's entries that are dated in the period and have none.
unfoldable pub missing_lines :
    ℕ → SettlementPeriod → List SettlementLine → Table LedgerEntry → List SettlementLine
unfolding has_line
missing_lines settlement_id s lines [] = []
missing_lines settlement_id s lines ((id, e) ∷ es) =
    let rest = missing_lines settlement_id s lines es in
    if is_in_period s e && not (has_line id lines)
    then record {
      settlement_period_id = settlement_id;
      ledger_entry_id = id;
      amount_minor = e.amount_minor;
    }
      ∷ rest
    else rest

abbrev pub with_missing_lines : ℕ → SettlementPeriod → Accounts → Accounts
with_missing_lines settlement_id s a = record a {
  lines = missing_lines settlement_id s a.lines a.ledger ++ a.lines;
}

-- The totals of the row that `refreshSettlementProjection` returns.
abbrev pub totals_of : SettlementPeriod → Projection
totals_of s = record {
  total_commission_due_minor = s.total_commission_due_minor;
  total_payments_minor = s.total_payments_minor;
  total_adjustments_minor = s.total_adjustments_minor;
  total_waived_minor = s.total_waived_minor;
  remaining_amount_minor = s.remaining_amount_minor;
}

module _ (shown : ℕ → ℕ) where
  -- The `updateMany` where the period is open.
  abbrev pub closed_period : ℕ → SettlementPeriod → SettlementPeriod
  closed_period now s =
      if s.status is open_period
      then record s {
        status = settlement_status shown false (totals_of s) s.due_at now;
        closed_at = some now;
        version = s.version + 1;
      }
      else s

  -- What follows the checks, for the period as it was read.
  unfoldable pub close_accounts : ℕ → SettlementPeriod → ℕ → Accounts → Result Accounts
  unfolding refresh_settlement_projection missing_lines settlement_status
  close_accounts settlement_id settlement now a = do
    b ←
        found
          (refresh_settlement_projection shown settlement_id now
            (with_missing_lines settlement_id settlement a))
          settlement_missing
    ok (record b { settlements = update settlement_id (closed_period now) b.settlements })

  -- The transaction of `closeSettlement`.
  unfoldable pub close_settlement : ℕ → ℕ → ℕ → ℕ → ℕ → ℕ → Database → Result (ℕ × Database)
  unfolding close_accounts
  close_settlement user_id settlement_id version key hash now db = do
    let scope = settlement_close settlement_id
    claimed ← claim_idempotency scope key hash now db.idempotency
    settlement ← found (get settlement_id db.accounts.settlements) settlement_not_found
    let idempotency = complete_idempotency scope key settlement_id 200 claimed
    if settlement.status is open_period
        then (do
          require (settlement.version == version) settlement_changed
          require (leb settlement.period_end now) settlement_period_not_ended
          accounts ← close_accounts settlement_id settlement now db.accounts
          ok (
            settlement_id,
            record db {
              accounts = accounts;
              audits = audit (some user_id) settlement_closed settlement_id ∷ db.audits;
              idempotency = idempotency;
            },
          ))
        else ok (settlement_id, record db { idempotency = idempotency })
