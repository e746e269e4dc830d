-- ===== src/Books/ChargedTwice.antt =====
-- A reversed payment and the period that closes next: `reverseExternalPayment` and `closeSettlement`
-- of apps/api/src/finance/finance.service.ts.
use wassal.Prelude.{
  ℕ, List, ◌≤◌, ◌<◌, ◌≡◌, refl, sym, ap, ◌∙◌, true, false, none, some, ◌is◌, ◌∷◌, arith,
}
use mathlib.Core.Option.{some-injective}
use wassal.Prelude.Int.{pos, ◌+ℤ◌}
use wassal.Store.{Database}
use wassal.Store.Table.{Table, get}
use wassal.Finance.Domain.{open_period, settlement_status_enum, LedgerType-discrete}
use wassal.Finance.Accounts.{SettlementPeriod, SettlementLine, LedgerEntry, ExternalPayment}
use wassal.Finance.Closing.{close_settlement, has_line, is_in_period}
use wassal.Finance.Payments.{
  reverse_external_payment, reversal_payment, reversal_entry, post_reversal, allocations_of,
}
use wassal.Service.Transaction.{ok}
use wassal.Books.Invariant.{InOrder}
use wassal.Books.Refresh.{refresh_all-IsSameBase}
use wassal.Books.Reversing.{periods_of}
use wassal.Books.Handlers.{reverse-posts, reverse-InOrder}
use wassal.Books.Corrections.{close-opened}
use wassal.Books.Recharged.{is_adjustment, missing_total, has_line-fresh, close_accounts-adds}

-- The reversal's entry is among those that have no line.
missing_total-reversal :
    (s : SettlementPeriod) (lines : List SettlementLine) (entry_id : ℕ) (entry : LedgerEntry)
    (ledger : Table LedgerEntry)
    → is_in_period s entry ≡ true
    → has_line entry_id lines ≡ false
    → is_adjustment entry.type ≡ true
    → missing_total is_adjustment s lines ((entry_id, entry) ∷ ledger)
      ≡ entry.amount_minor +ℤ missing_total is_adjustment s lines ledger
unfolding missing_total
missing_total-reversal s lines entry_id entry ledger dated unlined counted =
    rw (dated, unlined, counted) refl

module _ (shown : ℕ → ℕ) (user_id payment_id key hash reversal_id entry_id now : ℕ)
    (closer_id settlement_id version close_key close_hash later : ℕ) (db db' db'' : Database)
    {answer close_answer : ℕ} where
  -- A payment is reversed under ids that are new and with the books in order, and then an open period
  -- of its courier closes that the reversal is dated in. The period's adjustments grow by the amount of
  -- the payment, on top of the courier's other adjustments of that time that had no line.
  pub reverse-close_settlement :
      (payment : ExternalPayment) (s : SettlementPeriod)
      → reverse_external_payment shown user_id payment_id key hash reversal_id entry_id now db
        ≡ ok (answer, db')
      → close_settlement shown closer_id settlement_id version close_key close_hash later db'
        ≡ ok (close_answer, db'')
      → get reversal_id db.accounts.payments ≡ none
      → get entry_id db.accounts.ledger ≡ none
      → InOrder db.accounts
      → get payment_id db.accounts.payments ≡ some payment
      → get settlement_id db'.accounts.settlements ≡ some s
      → (s.status is open_period) ≡ true
      → payment.courier_id ≡ s.courier_id
      → s.period_start ≤ now
      → now < s.period_end
      → (s' : SettlementPeriod) × (get settlement_id db''.accounts.settlements ≡ some s')
        × (s'.total_adjustments_minor
            ≡ pos payment.amount_minor
              +ℤ missing_total is_adjustment s db.accounts.lines db.accounts.ledger
              +ℤ s.total_adjustments_minor)
  unfolding LedgerType-discrete
  reverse-close_settlement payment s r c fresh_reversal fresh_entry w at open_at opened of_courier
        started ending =
      let a = db.accounts in
      let (found, original, of_id, may, posted) =
        reverse-posts shown user_id payment_id key hash reversal_id entry_id now db r in
      let same_payment : found ≡ payment = some-injective _ _ (sym of_id ∙ at) in
      let row = reversal_payment user_id found payment_id key now in
      let entry = reversal_entry user_id found reversal_id original now in
      let base =
        refresh_all-IsSameBase shown (periods_of (allocations_of payment_id a.allocations)) now
          (post_reversal payment_id reversal_id row entry_id entry a) posted in
      let w' =
        reverse-InOrder shown user_id payment_id key hash reversal_id entry_id now db r
          fresh_reversal fresh_entry w in
      let closes =
        close-opened shown closer_id settlement_id version close_key close_hash later db' s open_at
          opened c in
      let (s', kept, adds) =
        close_accounts-adds shown settlement_id s later db'.accounts closes open_at w' in
      let unlined = has_line-fresh entry_id a.ledger a.lines fresh_entry w.linked.lines_known in
      let taken : missing_total is_adjustment s db'.accounts.lines db'.accounts.ledger
          ≡ pos payment.amount_minor +ℤ missing_total is_adjustment s a.lines a.ledger =
        ap (λ ls. missing_total is_adjustment s ls db'.accounts.ledger) base.lines_same
        ∙ ap (missing_total is_adjustment s a.lines) base.ledger_same
        ∙ (missing_total-reversal s a.lines entry_id entry a.ledger (ground (arith, same_payment))
              unlined refl
            ∙ ap
                (λ (p : ExternalPayment).
                  pos p.amount_minor +ℤ missing_total is_adjustment s a.lines a.ledger)
                same_payment) in
      (s', kept, adds ∙ ap (λ z. z +ℤ s.total_adjustments_minor) taken)
