-- ===== src/Books/TakenBack.antt =====
-- A payment that is recorded and then reversed: `recordExternalPaymentInTransaction` and
-- `reverseExternalPayment` of apps/api/src/finance/finance.service.ts.
use wassal.Prelude.{
  ℕ, ◌+◌, ◌≡◌, refl, sym, ap, ◌∙◌, none, some, List, [], ◌∷◌, ◌++◌, ◌==◌, arith, Bool-cases, inl,
  inr, All,
}
use wassal.Store.{Database}
use wassal.Store.Table.{Table, get}
use wassal.Finance.Domain.{Allocation}
use wassal.Finance.Accounts.{
  Accounts, LedgerEntry, ExternalPayment, SettlementPeriod, PaymentAllocation,
}
use wassal.Finance.Settlement.{active_payments, projected_lines}
use wassal.Finance.Closing.{totals_of}
use wassal.Finance.Payments.{
  PaymentInput, record_external_payment_in_transaction, reverse_external_payment, recorded_payment,
  recorded_entry, reversal_payment, reversal_entry, post_payment, post_reversal, allocated_ids,
  allocation_rows, allocations_of,
}
use wassal.Service.Transaction.{ok}
use wassal.Books.Invariant.{is_among, IsKnown, Linked, InOrder}
use wassal.Books.Refresh.{refresh_all-IsSameBase}
use wassal.Books.Change.{IsSameBase, IsSameBase-projection_of}
use wassal.Books.Extending.{
  active_sum, share_of, is_reversed-fresh, allocation_rows-active_sum, projected_lines-fresh,
}
use wassal.Books.Paying.{post_payment-active, post_payment-lines}
use wassal.Books.Reversing.{periods_of, post_reversal-active}
use wassal.Books.Handlers.{
  record_in_transaction-posts, record_in_transaction-InOrder, reverse-posts, reverse-InOrder,
}
use wassal.Books.Balance.{projection_of-parts, known-row}

-- No allocation that was there is of a new payment.
allocations_of-fresh :
    (payment_id : ℕ) (t : Table ExternalPayment) (xs : List PaymentAllocation)
    → get payment_id t ≡ none
    → All (λ x. IsKnown t x.payment_id) xs
    → allocations_of payment_id xs ≡ []
allocations_of-fresh payment_id t [] fresh known = refl
allocations_of-fresh payment_id t (x ∷ xs) fresh known =
    elim (Bool-cases (x.payment_id == payment_id)) [
      | inl hit ↦
          let same : x.payment_id ≡ payment_id = ground arith in
          absurd (ground (arith, known.0, ap (λ i. get i t) same))
      | inr miss ↦ rw miss (allocations_of-fresh payment_id t xs fresh known.1)
    ]

allocations_of-rows :
    (payment_id : ℕ) (xs : List Allocation) (ys : List PaymentAllocation)
    → allocations_of payment_id ys ≡ []
    → allocations_of payment_id (allocation_rows payment_id xs ++ ys)
      ≡ allocation_rows payment_id xs
allocations_of-rows payment_id [] ys none_of = none_of
allocations_of-rows payment_id (x ∷ xs) ys none_of =
    ground (arith, allocations_of-rows payment_id xs ys none_of)

-- What the two leave of the rows that the periods are projected from.
module _ (id payment_id reversal_id : ℕ) (payment reversal_row : ExternalPayment)
    (entry_id reversal_entry_id : ℕ) (entry reversed_entry : LedgerEntry) (xs : List Allocation)
    (a b : Accounts) (fresh_payment : get payment_id a.payments ≡ none)
    (fresh_entry : get entry_id a.ledger ≡ none)
    (fresh_reversal : get reversal_id b.payments ≡ none)
    (fresh_reversed : get reversal_entry_id b.ledger ≡ none)
    (direct : payment.reverses_payment_id ≡ none)
    (reversing : reversal_row.reverses_payment_id ≡ some payment_id) (l : Linked a) (m : Linked b)
    (base : IsSameBase (post_payment payment_id payment entry_id entry xs a) b) where
  paid_back :
      active_payments id
        (post_reversal payment_id reversal_id reversal_row reversal_entry_id reversed_entry b)
      ≡ active_payments id a
  unfolding active_payments
  paid_back =
      let after = (payment_id, payment) ∷ a.payments in
      let back : active_payments id
              (post_reversal payment_id reversal_id reversal_row reversal_entry_id reversed_entry b)
            + active_sum id b.payments (allocations_of payment_id b.allocations)
          ≡ active_payments id b =
        post_reversal-active payment_id reversal_id reversal_row reversal_entry_id reversed_entry b
          fresh_reversal fresh_reversed reversing m id in
      let own : allocations_of payment_id b.allocations ≡ allocation_rows payment_id xs =
        ap (allocations_of payment_id) base.allocations_same
        ∙ allocations_of-rows payment_id xs a.allocations (
            allocations_of-fresh payment_id a.payments a.allocations fresh_payment
              l.allocations_known) in
      let share : active_sum id b.payments (allocations_of payment_id b.allocations)
          ≡ share_of id xs =
        rw (own, base.payments_same)
          (allocation_rows-active_sum id payment_id payment a.payments xs direct
            (is_reversed-fresh payment_id a.payments a.payments fresh_payment l.reversals_known)) in
      let grown : active_payments id b ≡ share_of id xs + active_payments id a =
        rw (base.payments_same, base.allocations_same)
          (post_payment-active payment_id payment entry_id entry a fresh_payment fresh_entry xs l
            direct id) in
      omega (arith, back, share, grown)

  lines_back :
      let c =
        post_reversal payment_id reversal_id reversal_row reversal_entry_id reversed_entry b in
      projected_lines id c.ledger c.lines ≡ projected_lines id a.ledger a.lines
  lines_back =
      let added : projected_lines id ((reversal_entry_id, reversed_entry) ∷ b.ledger) b.lines
          ≡ projected_lines id b.ledger b.lines =
        projected_lines-fresh id reversal_entry_id reversed_entry b.ledger b.lines fresh_reversed
          m.lines_known in
      let paid : projected_lines id b.ledger b.lines ≡ projected_lines id a.ledger a.lines =
        rw (base.ledger_same, base.lines_same)
          (post_payment-lines payment_id payment entry_id entry a fresh_payment fresh_entry xs l
            id) in
      added ∙ paid

module _ (shown : ℕ → ℕ) (user_id courier_id : ℕ) (input : PaymentInput)
    (key hash payment_id entry_id now : ℕ)
    (reverser_id reversal_key reversal_hash reversal_id reversal_entry_id later : ℕ)
    (db db' db'' : Database) {answer reversal_answer : ℕ} where
  -- A payment that is recorded and later reversed, with nothing in between, under ids that are new and
  -- with the books in order, leaves all five totals of every period that was there as they were.
  pub reverse-record_external_payment :
      (id : ℕ) (s : SettlementPeriod)
      → record_external_payment_in_transaction shown user_id courier_id input key hash payment_id
          entry_id now db
        ≡ ok (answer, db')
      → get payment_id db.accounts.payments ≡ none
      → get entry_id db.accounts.ledger ≡ none
      → reverse_external_payment shown reverser_id payment_id reversal_key reversal_hash reversal_id
          reversal_entry_id later db'
        ≡ ok (reversal_answer, db'')
      → get reversal_id db'.accounts.payments ≡ none
      → get reversal_entry_id db'.accounts.ledger ≡ none
      → InOrder db.accounts
      → get id db.accounts.settlements ≡ some s
      → (s' : SettlementPeriod) × (get id db''.accounts.settlements ≡ some s')
        × (totals_of s' ≡ totals_of s)
  unfolding is_among
  reverse-record_external_payment id s h fresh_payment fresh_entry r fresh_reversal fresh_reversed w
        at =
      let a = db.accounts in
      let b = db'.accounts in
      let (allocations, spread, posted, _, _) =
        record_in_transaction-posts shown user_id courier_id input key hash payment_id entry_id now
          db h in
      let payment = recorded_payment user_id courier_id input key in
      let entry = recorded_entry user_id courier_id input payment_id in
      let base =
        refresh_all-IsSameBase shown (allocated_ids allocations) now
          (post_payment payment_id payment entry_id entry allocations a) posted in
      let w' =
        record_in_transaction-InOrder shown user_id courier_id input key hash payment_id entry_id
          now db h fresh_payment fresh_entry w in
      let (found, original, of_id, may, unposted) =
        reverse-posts shown reverser_id payment_id reversal_key reversal_hash reversal_id
          reversal_entry_id later db' r in
      let row = reversal_payment reverser_id found payment_id reversal_key later in
      let back = reversal_entry reverser_id found reversal_id original later in
      let after = post_reversal payment_id reversal_id row reversal_entry_id back b in
      let base' =
        refresh_all-IsSameBase shown (periods_of (allocations_of payment_id b.allocations)) later
          after unposted in
      let w'' =
        reverse-InOrder shown reverser_id payment_id reversal_key reversal_hash reversal_id
          reversal_entry_id later db' r fresh_reversal fresh_reversed w' in
      let (s', kept) =
        known-row id a.settlements db''.accounts.settlements (base'.kept id ∙ base.kept id) at in
      let payments =
        paid_back id payment_id reversal_id payment row entry_id reversal_entry_id entry back
          allocations a b fresh_payment fresh_entry fresh_reversal fresh_reversed refl refl w.linked
          w'.linked base in
      let lines =
        lines_back id payment_id reversal_id payment row entry_id reversal_entry_id entry back
          allocations a b fresh_payment fresh_entry fresh_reversal fresh_reversed refl refl w.linked
          w'.linked base in
      let before = w.synced id s at refl ∙ projection_of-parts id a _ _ refl refl in
      (
        s',
        kept,
        w''.synced id s' kept refl
            ∙ IsSameBase-projection_of id after db''.accounts base'
            ∙ projection_of-parts id after _ _ lines payments
            ∙ sym before,
      )
