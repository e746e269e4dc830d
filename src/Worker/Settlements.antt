-- ===== src/Worker/Settlements.antt =====
-- The worker's settlement jobs: apps/worker/src/settlement-jobs.ts.
use wassal.Prelude.{
  ℕ, suc, ◌+◌, ◌*◌, Bool, ◌&&◌, none, some, Option, List, [], ◌∷◌, zero, length, leb, ltb, ◌==◌,
  ◌is◌, filter, includes, is_some, if◌then◌else◌,
}
use wassal.Prelude.Int.{ℤ, pos, ◌+ℤ◌, ◌-ℤ◌, pos_part}
use wassal.Prelude.Sort.{sort_by}
use wassal.Store.{Database, settlement_closed_by_worker}
use wassal.Store.Table.{Table, get, update}
use wassal.Finance.Calendar.{day_ms}
use wassal.Finance.Domain.{
  LedgerType, ledger_type_enum, commission_due, adjustment_debit, adjustment_credit, reversal,
  waiver, abs, Projection, SettlementStatus, settlement_status_enum, open_period, closed, not_due,
  due_soon, partially_paid, paid, overdue, adjusted,
}
use wassal.Finance.Accounts.{
  Accounts, LedgerEntry, SettlementLine, SettlementPeriod, ExternalPayment, PaymentAllocation,
}
use wassal.Finance.Settlement.{is_active_payment}
use wassal.Finance.Closing.{with_missing_lines}
use wassal.Service.Writes.{audit}

-- `SUM(entry."amountMinor") FILTER (WHERE ...)` over the lines of a period, joined with their entries.
unfoldable pub line_total : (LedgerType → Bool) → ℕ → Table LedgerEntry → List SettlementLine → ℤ
line_total keep id ledger [] = pos 0
line_total keep id ledger (line ∷ lines) =
    let rest = line_total keep id ledger lines in
    if line.settlement_period_id == id
    then elim (get line.ledger_entry_id ledger) [
      | none ↦ rest
      | some entry ↦ if keep entry.type then entry.amount_minor +ℤ rest else rest
    ]
    else rest

-- `payment_totals`: the allocations to the period whose payment is no reversal and has none.
unfoldable pub payment_total : ℕ → Table ExternalPayment → List PaymentAllocation → ℕ
unfolding is_active_payment
payment_total id payments [] = 0
payment_total id payments (x ∷ xs) =
    let rest = payment_total id payments xs in
    if x.settlement_period_id == id && is_active_payment payments x
    then x.amount_minor + rest
    else rest

-- `totals`.
unfoldable pub worker_totals : ℕ → Accounts → Projection
unfolding line_total payment_total
worker_totals id a =
    let commission = line_total (λ type. type is commission_due) id a.ledger a.lines in
    let adjustments =
      line_total (λ type. includes (adjustment_debit ∷ adjustment_credit ∷ reversal ∷ []) type) id
        a.ledger a.lines in
    let waived_minor = abs (line_total (λ type. type is waiver) id a.ledger a.lines) in
    let paid_minor = payment_total id a.payments a.allocations in
    record {
      total_commission_due_minor = commission;
      total_payments_minor = paid_minor;
      total_adjustments_minor = adjustments;
      total_waived_minor = waived_minor;
      remaining_amount_minor =
          pos_part (commission +ℤ adjustments -ℤ pos waived_minor -ℤ pos paid_minor);
    }

-- The `CASE` of the update.
abbrev pub worker_status : ℕ → ℕ → ℕ → SettlementStatus
worker_status remaining_minor due_at now =
    if remaining_minor == 0
    then paid
    else if ltb due_at now
    then overdue
    else if leb due_at (now + 2 * day_ms)
    then due_soon
    else not_due

-- The `UPDATE` of the period, where it is open.
abbrev pub worker_closed : Projection → ℕ → SettlementPeriod → SettlementPeriod
worker_closed p now s =
    if s.status is open_period
    then record s {
      total_commission_due_minor = p.total_commission_due_minor;
      total_payments_minor = p.total_payments_minor;
      total_adjustments_minor = p.total_adjustments_minor;
      total_waived_minor = p.total_waived_minor;
      remaining_amount_minor = p.remaining_amount_minor;
      status = worker_status p.remaining_amount_minor s.due_at now;
      closed_at = some now;
      version = s.version + 1;
    }
    else s

-- Whether a period is to be closed: open, and ended.
abbrev pub is_eligible_for_closing : ℕ → SettlementPeriod → Bool
is_eligible_for_closing now s = s.status is open_period && leb s.period_end now

-- The lines and the totals of one period.
unfoldable pub worker_close_accounts : ℕ → SettlementPeriod → ℕ → Accounts → Accounts
unfolding worker_totals
worker_close_accounts id settlement now a =
    let b = with_missing_lines id settlement a in
    record b { settlements = update id (worker_closed (worker_totals id b) now) b.settlements }

-- The transaction for one candidate: `none` where it returns false.
unfoldable pub close_candidate : ℕ → ℕ → Database → Option Database
unfolding worker_close_accounts
close_candidate id now db = elim (get id db.accounts.settlements) [
  | none ↦ none
  | some settlement ↦
      if is_eligible_for_closing now settlement
      then some (record db {
        accounts = worker_close_accounts id settlement now db.accounts;
        audits = audit none settlement_closed_by_worker id ∷ db.audits;
      })
      else none
]

-- The loop over the candidates, each in its transaction, with the count so far.
unfoldable pub close_candidates : List ℕ → ℕ → ℕ → Database → ℕ × Database
unfolding close_candidate
close_candidates [] now closed_count db = (closed_count, db)
close_candidates (id ∷ ids) now closed_count db = elim (close_candidate id now db) [
  | none ↦ close_candidates ids now closed_count db
  | some db' ↦ close_candidates ids now (closed_count + 1) db'
]

-- `orderBy: [{ periodEnd: 'asc' }, { id: 'asc' }]`.
abbrev pub ends_before : ℕ × SettlementPeriod → ℕ × SettlementPeriod → Bool
ends_before (i, s) (j, t) =
    if s.period_end == t.period_end then leb i j else ltb s.period_end t.period_end

-- `take: 100`, and `select: { id: true }`.
abbrev pub take_ids : ℕ → Table SettlementPeriod → List ℕ
take_ids zero t = []
take_ids (suc n) [] = []
take_ids (suc n) ((id, s) ∷ t) = id ∷ take_ids n t

abbrev pub closing_candidates : ℕ → Table SettlementPeriod → List ℕ
closing_candidates now settlements =
    take_ids 100
      (sort_by ends_before (filter (λ (id, s). is_eligible_for_closing now s) settlements))

unfoldable pub close_eligible_settlements : ℕ → Database → ℕ × Database
unfolding close_candidates
close_eligible_settlements now db =
    close_candidates (closing_candidates now db.accounts.settlements) now 0 db

-- The `where` of `markOverdueSettlements`.
abbrev pub becomes_overdue : ℕ → SettlementPeriod → Bool
becomes_overdue now s =
    includes (closed ∷ not_due ∷ due_soon ∷ partially_paid ∷ adjusted ∷ []) s.status
    && ltb 0 s.remaining_amount_minor
    && ltb s.due_at now
    && is_some s.closed_at

abbrev pub marked_overdue : ℕ → SettlementPeriod → SettlementPeriod
marked_overdue now s =
    if becomes_overdue now s then record s { status = overdue; version = s.version + 1 } else s

-- `updateMany` of all periods.
unfoldable pub mark_overdue : ℕ → Table SettlementPeriod → Table SettlementPeriod
mark_overdue now [] = []
mark_overdue now ((id, s) ∷ rest) = (id, marked_overdue now s) ∷ mark_overdue now rest

abbrev pub mark_overdue_settlements : ℕ → Database → ℕ × Database
mark_overdue_settlements now db = (
  length (filter (λ (id, s). becomes_overdue now s) db.accounts.settlements),
  record db {
    accounts = record db.accounts { settlements = mark_overdue now db.accounts.settlements };
  },
)
