-- ===== src/Books/Paying.antt =====
-- Payments and the books: the rows that `recordExternalPaymentInTransaction` and
-- `reverseExternalPayment` of apps/api/src/finance/finance.service.ts create.
use wassal.Prelude.{
  ℕ, ◌+◌, ◌≡◌, refl, sym, ◌∙◌, true, false, none, List, [], ◌∷◌, ◌==◌, arith, All, All-append,
}
use wassal.Store.Table.{Table, get}
use wassal.Finance.Domain.{Allocation}
use wassal.Finance.Accounts.{Accounts, LedgerEntry, ExternalPayment, PaymentAllocation}
use wassal.Finance.Settlement.{projected_lines, is_active_payment, active_payments, projection_of}
use wassal.Finance.Payments.{allocation_rows, allocated_ids, copied_rows, post_payment}
use wassal.Books.Invariant.{is_among, IsKnown, Linked, InOrderBut, InOrder}
use wassal.Books.Extending.{
  All-IsKnown_more, Rows-IsReversalOf_more, IsKnown-added, projected_lines-fresh, is_reversed-fresh,
  is_active_payment-added, active_sum, active_sum-append, active_sum-same, share_of,
  allocation_rows-active_sum,
}

pub projection_of-same :
    (id : ℕ) (a b : Accounts)
    → projected_lines id b.ledger b.lines ≡ projected_lines id a.ledger a.lines
    → active_payments id b ≡ active_payments id a
    → projection_of id b ≡ projection_of id a
unfolding projection_of
projection_of-same id a b same_lines same_payments = rw (same_lines, same_payments) refl

allocation_rows-IsKnown :
    (payment_id : ℕ) (t : Table ExternalPayment) (xs : List Allocation)
    → IsKnown t payment_id
    → All (λ x. IsKnown t x.payment_id) (allocation_rows payment_id xs)
allocation_rows-IsKnown payment_id t [] known = tt
allocation_rows-IsKnown payment_id t (x ∷ xs) known =
    (known, allocation_rows-IsKnown payment_id t xs known)

pub copied_rows-IsKnown :
    (reversal_id : ℕ) (t : Table ExternalPayment) (xs : List PaymentAllocation)
    → IsKnown t reversal_id
    → All (λ x. IsKnown t x.payment_id) (copied_rows reversal_id xs)
copied_rows-IsKnown reversal_id t [] known = tt
copied_rows-IsKnown reversal_id t (x ∷ xs) known =
    (known, copied_rows-IsKnown reversal_id t xs known)

-- A period that gets nothing is not among those to refresh.
share_of-nothing :
    (id : ℕ) (xs : List Allocation) → is_among id (allocated_ids xs) ≡ false → share_of id xs ≡ 0
unfolding is_among
share_of-nothing id [] out = refl
share_of-nothing id (x ∷ xs) out = ground (arith, out, share_of-nothing id xs)

module _ (payment_id : ℕ) (payment : ExternalPayment) (entry_id : ℕ) (entry : LedgerEntry)
    (a : Accounts) (fresh_payment : get payment_id a.payments ≡ none)
    (fresh_entry : get entry_id a.ledger ≡ none) where
  -- The allocations that were there count as before, unless the payment is a reversal of theirs.
  kept-active :
      (xs : List PaymentAllocation)
      → payment.reverses_payment_id ≡ none
      → All (λ x. IsKnown a.payments x.payment_id) xs
      → (id : ℕ)
      → active_sum id ((payment_id, payment) ∷ a.payments) xs ≡ active_sum id a.payments xs
  kept-active xs direct known id =
      active_sum-same id a.payments ((payment_id, payment) ∷ a.payments) xs (each xs known)
    where
      each :
          (ys : List PaymentAllocation)
          → All (λ x. IsKnown a.payments x.payment_id) ys
          → All
              (λ x.
                (x.settlement_period_id == id) ≡ true
                → is_active_payment ((payment_id, payment) ∷ a.payments) x
                  ≡ is_active_payment a.payments x)
              ys
      each [] q = tt
      each (y ∷ ys) q = (
        λ hit. ground (
          arith,
          direct,
          is_active_payment-added payment_id payment a.payments y fresh_payment q.0,
        ),
        each ys q.1,
      )

  pub post_payment-active :
      (xs : List Allocation)
      → Linked a
      → payment.reverses_payment_id ≡ none
      → (id : ℕ)
      → active_payments id (post_payment payment_id payment entry_id entry xs a)
        ≡ share_of id xs + active_payments id a
  unfolding active_payments
  post_payment-active xs l direct id =
      let after = (payment_id, payment) ∷ a.payments in
      let unreversed =
        is_reversed-fresh payment_id a.payments a.payments fresh_payment l.reversals_known in
      omega (
        arith,
        active_sum-append id after (allocation_rows payment_id xs) a.allocations,
        allocation_rows-active_sum id payment_id payment a.payments xs direct unreversed,
        kept-active a.allocations direct l.allocations_known id,
      )

  pub post_payment-lines :
      (xs : List Allocation)
      → Linked a
      → (id : ℕ)
      → let b = post_payment payment_id payment entry_id entry xs a in
        projected_lines id b.ledger b.lines ≡ projected_lines id a.ledger a.lines
  post_payment-lines xs l id =
      projected_lines-fresh id entry_id entry a.ledger a.lines fresh_entry l.lines_known

  pub post_payment-InOrderBut :
      (xs : List Allocation)
      → payment.reverses_payment_id ≡ none
      → InOrder a
      → InOrderBut (allocated_ids xs) (post_payment payment_id payment entry_id entry xs a)
  unfolding is_among
  post_payment-InOrderBut xs direct w =
      let after = (payment_id, payment) ∷ a.payments in
      let l = w.linked in
      record {
        linked = record {
          lines_known =
              All-IsKnown_more (λ line. line.ledger_entry_id) entry_id entry a.ledger a.lines
                l.lines_known;
          allocations_known =
              All-append (λ x. IsKnown after x.payment_id) (allocation_rows payment_id xs)
                a.allocations
                (allocation_rows-IsKnown payment_id after xs
                  (IsKnown-added payment_id payment a.payments))
                (All-IsKnown_more (λ x. x.payment_id) payment_id payment a.payments a.allocations
                  l.allocations_known);
          reversals_known = (
            rw direct tt,
            Rows-IsReversalOf_more payment_id payment a.payments a.payments l.reversals_known,
          );
          keyed = l.keyed;
          entries_keyed = (fresh_entry, l.entries_keyed);
        };
        dated = w.dated;
        synced = λ id s at out.
            w.synced id s at refl
            ∙ sym (
                projection_of-same id a (post_payment payment_id payment entry_id entry xs a)
                  (post_payment-lines xs l id)
                  (omega (arith, post_payment-active xs l direct id, share_of-nothing id xs out)));
      }
