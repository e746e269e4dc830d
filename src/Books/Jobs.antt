-- ===== src/Books/Jobs.antt =====
-- The worker's settlement jobs (apps/worker/src/settlement-jobs.ts) and the books: what their SQL
-- computes is the projection of apps/api/src/finance/settlement-projection.ts.
use wassal.Prelude.{
  ℕ, ◌+◌, ◌≡◌, refl, sym, ap, ◌∙◌, Bool, true, false, none, some, List, [], ◌∷◌, ◌==◌, ◌is◌, arith,
  is_some, Bool-cases, Option-cases, inl, inr, filter, sum_by, includes,
}
use wassal.Prelude.Int.{pos, ◌+ℤ◌, int_laws}
use mathlib.Core.Path.{subst}
use mathlib.Core.Option.{some-injective}
use wassal.Store.{Database}
use wassal.Store.Table.{Table, get, Rows}
use wassal.Finance.Domain.{
  LedgerType, LedgerType-discrete, ledger_type_enum, external_payment, commission_due, waiver,
  adjustment_debit, adjustment_credit, reversal, Projection, total_of, settlement_projection,
  open_period, settlement_status_enum,
}
use wassal.Finance.Accounts.{
  Accounts, LedgerEntry, SettlementLine, SettlementPeriod, ExternalPayment, PaymentAllocation,
}
use wassal.Finance.Settlement.{active_payments, is_active_payment, projected_lines, projection_of}
use wassal.Finance.Arithmetic.{total_of-shift}
use wassal.Finance.Closing.{totals_of, with_missing_lines}
use wassal.Worker.Settlements.{
  line_total, payment_total, worker_totals, worker_closed, worker_close_accounts,
  is_eligible_for_closing, close_candidate, close_candidates, becomes_overdue, marked_overdue,
  mark_overdue, mark_overdue_settlements,
}
use wassal.Books.Invariant.{is_closed_status, IsKeyed, InOrder}
use wassal.Books.Change.{update-InOrderBut}
use wassal.Books.Closing.{with_missing_lines-InOrderBut}

is_external-not_kept :
    (keep : LedgerType → Bool) (type : LedgerType)
    → keep external_payment ≡ false
    → (type is external_payment) ≡ true
    → keep type ≡ false
unfolding LedgerType-discrete
is_external-not_kept keep external_payment unpaid external = unpaid
is_external-not_kept keep _ unpaid external = absurd (cc)

line_total-total_of :
    (keep : LedgerType → Bool) (id : ℕ) (ledger : Table LedgerEntry) (lines : List SettlementLine)
    → keep external_payment ≡ false
    → line_total keep id ledger lines
      ≡ total_of (filter (λ l. keep l.type) (projected_lines id ledger lines)) (pos 0)
unfolding line_total projected_lines total_of
line_total-total_of keep id ledger [] unpaid = refl
line_total-total_of keep id ledger (line ∷ lines) unpaid =
    let rest = line_total-total_of keep id ledger lines unpaid in
    elim (Bool-cases (line.settlement_period_id == id)) [
      | inr other ↦ rw other rest
      | inl hit ↦ elim (Option-cases (get line.ledger_entry_id ledger)) [
        | inl missing ↦ rw (hit, missing) rest
        | inr (entry, at) ↦ elim (Bool-cases (entry.type is external_payment)) [
          | inl external ↦
              rw (hit, at, external, is_external-not_kept keep entry.type unpaid external) rest
          | inr counted ↦ elim (Bool-cases (keep entry.type)) [
            | inr left_out ↦ rw (hit, at, counted, left_out) rest
            | inl kept ↦
                let others = filter (λ l. keep l.type) (projected_lines id ledger lines) in
                let start : pos 0 +ℤ entry.amount_minor ≡ entry.amount_minor +ℤ pos 0 =
                  grind int_laws in
                rw (hit, at, counted, kept)
                  (ap (λ z. entry.amount_minor +ℤ z) rest
                    ∙ sym (total_of-shift others entry.amount_minor (pos 0))
                    ∙ sym (ap (total_of others) start))
          ]
        ]
      ]
    ]

payment_total-active :
    (id : ℕ) (payments : Table ExternalPayment) (xs : List PaymentAllocation)
    → payment_total id payments xs
      ≡ sum_by
          (λ x. x.amount_minor)
          (filter (is_active_payment payments) (filter (λ x. x.settlement_period_id == id) xs))
unfolding payment_total
payment_total-active id payments [] = refl
payment_total-active id payments (x ∷ xs) = ground (arith, payment_total-active id payments xs)

-- The totals of the worker's query are the projection that the handlers compute.
pub worker_totals-projection_of : (id : ℕ) (a : Accounts) → worker_totals id a ≡ projection_of id a
unfolding worker_totals projection_of active_payments settlement_projection LedgerType-discrete
worker_totals-projection_of id a =
    rw
      (
        line_total-total_of (λ type. type is commission_due) id a.ledger a.lines refl,
        line_total-total_of (λ type. type is waiver) id a.ledger a.lines refl,
        line_total-total_of
            (λ type. includes (adjustment_debit ∷ adjustment_credit ∷ reversal ∷ []) type) id
            a.ledger a.lines refl,
        payment_total-active id a.payments a.allocations,
      )
      refl

worker_closed-totals :
    (p : Projection) (now : ℕ) (s : SettlementPeriod)
    → (s.status is open_period) ≡ true
    → totals_of (worker_closed p now s) ≡ p
worker_closed-totals p now s opened = rw opened refl

worker_closed-dated :
    (p : Projection) (now : ℕ) (s : SettlementPeriod)
    → (s.status is open_period) ≡ true
    → is_some (worker_closed p now s).closed_at ≡ is_closed_status (worker_closed p now s).status
worker_closed-dated p now s opened = rw opened (ground arith)

pub worker_close-InOrder :
    (id : ℕ) (s : SettlementPeriod) (now : ℕ) (a : Accounts)
    → get id a.settlements ≡ some s
    → (s.status is open_period) ≡ true
    → InOrder a
    → InOrder (worker_close_accounts id s now a)
unfolding worker_close_accounts
worker_close-InOrder id s now a at opened w =
    let b = with_missing_lines id s a in
    let is_open_row : (t : SettlementPeriod)
        → get id a.settlements ≡ some t
        → (t.status is open_period) ≡ true =
      λ t e.
        subst (λ r. (r.status is open_period) ≡ true) (some-injective _ _ (sym at ∙ e)) opened in
    update-InOrderBut id [] (worker_closed (worker_totals id b) now) b
      (λ t e.
        worker_closed-totals (worker_totals id b) now t (is_open_row t e)
        ∙ worker_totals-projection_of id b)
      (λ t e q. worker_closed-dated (worker_totals id b) now t (is_open_row t e))
      (with_missing_lines-InOrderBut id s a w)

close_candidate-InOrder :
    (id now : ℕ) (db : Database) {db' : Database}
    → close_candidate id now db ≡ some db'
    → InOrder db.accounts
    → InOrder db'.accounts
unfolding close_candidate
close_candidate-InOrder id now db {db'} h w = elim (Option-cases (get id db.accounts.settlements)) [
  | inl missing ↦ absurd (ground arith)
  | inr (s, at) ↦ elim (Bool-cases (is_eligible_for_closing now s)) [
    | inr early ↦ absurd (ground arith)
    | inl due ↦
        let same : worker_close_accounts id s now db.accounts ≡ db'.accounts = ground arith in
        subst InOrder same (worker_close-InOrder id s now db.accounts at (ground arith) w)
  ]
]

pub close_candidates-InOrder :
    (ids : List ℕ) (now closed_count : ℕ) (db : Database)
    → InOrder db.accounts
    → InOrder (close_candidates ids now closed_count db).1.accounts
unfolding close_candidates
close_candidates-InOrder [] now closed_count db w = w
close_candidates-InOrder (id ∷ ids) now closed_count db w =
    elim (Option-cases (close_candidate id now db)) [
      | inl skipped ↦
          rw (skipped, close_candidates) (close_candidates-InOrder ids now closed_count db w)
      | inr (db', made) ↦
          rw (made, close_candidates)
            (close_candidates-InOrder ids now (closed_count + 1) db'
              (close_candidate-InOrder id now db made w))
    ]

mark_overdue-source :
    (now j : ℕ) (t : Table SettlementPeriod)
    → get j (mark_overdue now t)
      ≡ elim (get j t) [ none ↦ none | some s ↦ some (marked_overdue now s) ]
unfolding mark_overdue get
mark_overdue-source now j [] = refl
mark_overdue-source now j ((id, s) ∷ t) = ground (arith, mark_overdue-source now j t)

mark_overdue-IsKeyed :
    (now : ℕ) (t : Table SettlementPeriod) → IsKeyed t → IsKeyed (mark_overdue now t)
unfolding mark_overdue
mark_overdue-IsKeyed now [] q = tt
mark_overdue-IsKeyed now ((id, s) ∷ t) q =
    (ground (arith, q.0, mark_overdue-source now id t), mark_overdue-IsKeyed now t q.1)

marked_overdue-dated :
    (now : ℕ) (s : SettlementPeriod)
    → is_some s.closed_at ≡ is_closed_status s.status
    → is_some (marked_overdue now s).closed_at ≡ is_closed_status (marked_overdue now s).status
marked_overdue-dated now s q = elim (Bool-cases (becomes_overdue now s)) [
  | inl late ↦ rw late (ground arith)
  | inr timely ↦ rw timely q
]

mark_overdue-dated :
    (now : ℕ) (t : Table SettlementPeriod)
    → Rows (λ s. is_some s.closed_at ≡ is_closed_status s.status) t
    → Rows (λ s. is_some s.closed_at ≡ is_closed_status s.status) (mark_overdue now t)
unfolding mark_overdue
mark_overdue-dated now [] q = tt
mark_overdue-dated now ((id, s) ∷ t) q =
    (marked_overdue-dated now s q.0, mark_overdue-dated now t q.1)

marked_overdue-totals :
    (now : ℕ) (s : SettlementPeriod) → totals_of (marked_overdue now s) ≡ totals_of s
marked_overdue-totals now s = elim (Bool-cases (becomes_overdue now s)) [
  | inl late ↦ rw late refl
  | inr timely ↦ rw timely refl
]

pub mark_overdue-InOrder :
    (now : ℕ) (db : Database)
    → InOrder db.accounts
    → InOrder (mark_overdue_settlements now db).1.accounts
unfolding projection_of active_payments
mark_overdue-InOrder now db w = record {
  linked = record {
    lines_known = w.linked.lines_known;
    allocations_known = w.linked.allocations_known;
    reversals_known = w.linked.reversals_known;
    keyed = mark_overdue-IsKeyed now db.accounts.settlements w.linked.keyed;
    entries_keyed = w.linked.entries_keyed;
  };
  dated = mark_overdue-dated now db.accounts.settlements w.dated;
  synced = λ id s at out. elim (Option-cases (get id db.accounts.settlements)) [
    | inl missing ↦ absurd (ground (arith, mark_overdue-source now id db.accounts.settlements))
    | inr (s0, before) ↦
        let marked : some (marked_overdue now s0) ≡ some s =
          ground (arith, mark_overdue-source now id db.accounts.settlements) in
        ap totals_of (sym (some-injective _ _ marked))
        ∙ marked_overdue-totals now s0
        ∙ w.synced id s0 before out
  ];
}
