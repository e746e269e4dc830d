-- ===== src/Finance/Settlement.antt =====
-- The projection of a settlement period from its rows: apps/api/src/finance/settlement-projection.ts,
-- and the rows that the services add.
use wassal.Prelude.{
  ℕ, ◌+◌, Bool, false, ◌&&◌, ◌||◌, Option, none, some, List, [], ◌∷◌, not, ◌==◌, ◌is◌, filter,
  is_some, sum_by, if◌then◌else◌,
}
use wassal.Prelude.Int.{pos}
use wassal.Store.Table.{Table, get, update}
use wassal.Finance.Calendar.{Bounds}
use wassal.Finance.Domain.{
  external_payment, ledger_type_enum, SettlementLineInput, Projection, settlement_projection,
  open_period, settlement_status_enum, settlement_status,
}
use wassal.Finance.Accounts.{
  LedgerEntry, SourceKey, source_key_enum, SettlementLine, SettlementPeriod, ExternalPayment,
  PaymentAllocation, Accounts,
}

-- Whether some payment reverses this one.
unfoldable pub is_reversed : ℕ → Table ExternalPayment → Bool
is_reversed payment_id [] = false
is_reversed payment_id ((id, p) ∷ ps) =
    elim p.reverses_payment_id [ some original ↦ original == payment_id | none ↦ false ]
    || is_reversed payment_id ps

-- An allocation counts unless its payment is a reversal or has been reversed.
unfoldable pub is_active_payment : Table ExternalPayment → PaymentAllocation → Bool
unfolding is_reversed get
is_active_payment payments a = elim (get a.payment_id payments) [
  | none ↦ false
  | some payment ↦
      not (is_some payment.reverses_payment_id) && not (is_reversed a.payment_id payments)
]

-- `lines.map(({ ledgerEntry }) => ledgerEntry)`, filtered by type.
unfoldable pub projected_lines :
    ℕ → Table LedgerEntry → List SettlementLine → List SettlementLineInput
projected_lines settlement_id ledger [] = []
projected_lines settlement_id ledger (line ∷ lines) =
    let rest = projected_lines settlement_id ledger lines in
    if line.settlement_period_id == settlement_id
    then elim (get line.ledger_entry_id ledger) [
      | none ↦ rest
      | some entry ↦
          if entry.type is external_payment
          then rest
          else record { type = entry.type; amount_minor = entry.amount_minor } ∷ rest
    ]
    else rest

unfoldable pub active_payments : ℕ → Accounts → ℕ
unfolding is_active_payment
active_payments settlement_id a =
    sum_by (λ allocation. allocation.amount_minor)
      (filter (is_active_payment a.payments)
        (filter (λ allocation. allocation.settlement_period_id == settlement_id) a.allocations))

unfoldable pub projection_of : ℕ → Accounts → Projection
unfolding projected_lines active_payments settlement_projection
projection_of settlement_id a =
    settlement_projection (projected_lines settlement_id a.ledger a.lines)
      (active_payments settlement_id a)

module _ (shown : ℕ → ℕ) where
  -- The `data` of the update.
  unfoldable pub projected : Projection → ℕ → SettlementPeriod → SettlementPeriod
  unfolding settlement_status
  projected p now s = record s {
    total_commission_due_minor = p.total_commission_due_minor;
    total_payments_minor = p.total_payments_minor;
    total_adjustments_minor = p.total_adjustments_minor;
    total_waived_minor = p.total_waived_minor;
    remaining_amount_minor = p.remaining_amount_minor;
    status = settlement_status shown (s.status is open_period) p s.due_at now;
    version = s.version + 1;
  }

  -- `none` is the throw of `findUniqueOrThrow`.
  unfoldable pub refresh_settlement_projection : ℕ → ℕ → Accounts → Option Accounts
  unfolding projected projection_of
  refresh_settlement_projection settlement_id now a = elim (get settlement_id a.settlements) [
    | none ↦ none
    | some settlement ↦ some (record a {
      settlements =
          update settlement_id (projected (projection_of settlement_id a) now) a.settlements;
    })
  ]

-- The period of a courier with these bounds, by the unique key of the table.
unfoldable pub find_period : ℕ → Bounds → Table SettlementPeriod → Option ℕ
find_period courier_id bounds [] = none
find_period courier_id bounds ((id, s) ∷ rest) =
    if s.courier_id == courier_id
      && s.period_start == bounds.period_start
      && s.period_end == bounds.period_end
    then some id
    else find_period courier_id bounds rest

-- The row that `create` of the upsert makes, with the table's defaults.
abbrev pub new_period : ℕ → Bounds → SettlementPeriod
new_period courier_id bounds = record {
  courier_id = courier_id;
  period_start = bounds.period_start;
  period_end = bounds.period_end;
  due_at = bounds.due_at;
  total_commission_due_minor = pos 0;
  total_payments_minor = 0;
  total_adjustments_minor = pos 0;
  total_waived_minor = 0;
  remaining_amount_minor = 0;
  status = open_period;
  version = 1;
  closed_at = none;
}

-- Whether an entry has the source key, so that creating another one is refused.
unfoldable pub has_source_key : SourceKey → Table LedgerEntry → Bool
has_source_key key [] = false
has_source_key key ((id, e) ∷ es) = e.source_key is key || has_source_key key es
