-- ===== src/Books/Reversing.antt =====
-- Reversed payments and the books: the rows that `reverseExternalPayment` of
-- apps/api/src/finance/finance.service.ts creates.
use wassal.Prelude.{
  ℕ, ◌+◌, ◌≡◌, refl, sym, ◌∙◌, false, none, some, List, [], ◌∷◌, map, arith, All, All-append,
}
use wassal.Store.Table.{Table, get}
use wassal.Finance.Accounts.{Accounts, LedgerEntry, ExternalPayment, PaymentAllocation}
use wassal.Finance.Settlement.{active_payments}
use wassal.Finance.Payments.{copied_rows, allocations_of, post_reversal}
use wassal.Books.Invariant.{is_among, IsKnown, IsReversalOf, Linked, InOrderBut, InOrder}
use wassal.Books.Extending.{
  All-IsKnown_more, Rows-IsReversalOf_more, IsKnown-added, IsKnown-more, projected_lines-fresh,
  is_active_payment-added, active_sum, active_sum-append, copied_rows-active_sum,
}
use wassal.Books.Paying.{projection_of-same, copied_rows-IsKnown}

-- The periods of some allocations.
abbrev pub periods_of : List PaymentAllocation → List ℕ
periods_of xs = map (λ (x : PaymentAllocation). x.settlement_period_id) xs

active_sum-nothing :
    (id : ℕ) (payments : Table ExternalPayment) (xs : List PaymentAllocation)
    → is_among id (periods_of xs) ≡ false
    → active_sum id payments xs ≡ 0
unfolding is_among
active_sum-nothing id payments [] out = refl
active_sum-nothing id payments (x ∷ xs) out = ground (arith, out, active_sum-nothing id payments xs)

IsReversalOf-known :
    (t : Table ExternalPayment) (p : ExternalPayment) (original : ℕ)
    → p.reverses_payment_id ≡ some original
    → IsKnown t original
    → IsReversalOf t p
IsReversalOf-known t p original reversing known = rw reversing known

module _ (payment_id reversal_id : ℕ) (payment : ExternalPayment) (entry_id : ℕ)
    (entry : LedgerEntry) (a : Accounts) (fresh_payment : get reversal_id a.payments ≡ none)
    (fresh_entry : get entry_id a.ledger ≡ none)
    (reversing : payment.reverses_payment_id ≡ some payment_id) where
  -- Of the allocations that were there, those of the payment end.
  ended-active :
      (id : ℕ) (xs : List PaymentAllocation)
      → All (λ x. IsKnown a.payments x.payment_id) xs
      → active_sum id ((reversal_id, payment) ∷ a.payments) xs
          + active_sum id a.payments (allocations_of payment_id xs)
        ≡ active_sum id a.payments xs
  ended-active id [] known = refl
  ended-active id (x ∷ xs) known = ground (
    arith,
    reversing,
    is_active_payment-added reversal_id payment a.payments x fresh_payment known.0,
    ended-active id xs known.1,
  )

  pub post_reversal-active :
      Linked a
      → (id : ℕ)
      → active_payments id (post_reversal payment_id reversal_id payment entry_id entry a)
          + active_sum id a.payments (allocations_of payment_id a.allocations)
        ≡ active_payments id a
  unfolding active_payments
  post_reversal-active l id =
      let copies = allocations_of payment_id a.allocations in
      omega (
        arith,
        active_sum-append id ((reversal_id, payment) ∷ a.payments) (copied_rows reversal_id copies)
            a.allocations,
        copied_rows-active_sum id reversal_id payment a.payments copies (rw reversing refl),
        ended-active id a.allocations l.allocations_known,
      )

  pub post_reversal-InOrderBut :
      IsKnown a.payments payment_id
      → InOrder a
      → InOrderBut
          (periods_of (allocations_of payment_id a.allocations))
          (post_reversal payment_id reversal_id payment entry_id entry a)
  unfolding is_among
  post_reversal-InOrderBut known w =
      let after = (reversal_id, payment) ∷ a.payments in
      let copies = allocations_of payment_id a.allocations in
      let l = w.linked in
      record {
        linked = record {
          lines_known =
              All-IsKnown_more (λ line. line.ledger_entry_id) entry_id entry a.ledger a.lines
                l.lines_known;
          allocations_known =
              All-append (λ x. IsKnown after x.payment_id) (copied_rows reversal_id copies)
                a.allocations
                (copied_rows-IsKnown reversal_id after copies
                  (IsKnown-added reversal_id payment a.payments))
                (All-IsKnown_more (λ x. x.payment_id) reversal_id payment a.payments a.allocations
                  l.allocations_known);
          reversals_known = (
            IsReversalOf-known after payment payment_id reversing
                (IsKnown-more reversal_id payment_id payment a.payments known),
            Rows-IsReversalOf_more reversal_id payment a.payments a.payments l.reversals_known,
          );
          keyed = l.keyed;
          entries_keyed = (fresh_entry, l.entries_keyed);
        };
        dated = w.dated;
        synced = λ id s at out.
            w.synced id s at refl
            ∙ sym (
                projection_of-same id a
                  (post_reversal payment_id reversal_id payment entry_id entry a)
                  (projected_lines-fresh id entry_id entry a.ledger a.lines fresh_entry
                    l.lines_known)
                  (omega (
                    arith,
                    post_reversal-active l id,
                    active_sum-nothing id a.payments copies out,
                  )));
      }
