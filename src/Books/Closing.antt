-- ===== src/Books/Closing.antt =====
-- Closed periods, adjusted periods and the books: `closeSettlement` and `createAdjustment` of
-- apps/api/src/finance/finance.service.ts.
use wassal.Prelude.{
  ℕ, ◌≡◌, refl, sym, ◌∙◌, false, none, List, [], ◌∷◌, ◌++◌, ◌==◌, ◌is◌, arith, is_some, All,
  All-append, Bool-cases, Option-cases, inl, inr,
}
use mathlib.Core.Path.{subst}
use wassal.Store.Table.{Table, get, update}
use wassal.Finance.Domain.{open_period, settlement_status_enum}
use wassal.Finance.Accounts.{Accounts, LedgerEntry, SettlementLine, SettlementPeriod}
use wassal.Finance.Settlement.{active_payments, projected_lines, refresh_settlement_projection}
use wassal.Finance.Closing.{
  totals_of, missing_lines, with_missing_lines, closed_period, close_accounts,
}
use wassal.Finance.Adjustments.{post_adjustment}
use wassal.Service.Transaction.{ok}
use wassal.Books.Invariant.{is_among, is_closed_status, IsKnown, Linked, InOrderBut, InOrder}
use wassal.Books.Extending.{All-IsKnown_more, IsKnown-added, IsKnown-more, projected_lines-fresh}
use wassal.Books.Refresh.{settlement_status-closed, refresh-InOrderBut}
use wassal.Books.Change.{update-InOrderBut}
use wassal.Books.Paying.{projection_of-same}

-- The ids of the rows are in the table.
abbrev AreKnown : Table LedgerEntry → Table LedgerEntry → Type 0
AreKnown t [] = Unit
AreKnown t ((id, e) ∷ rest) = IsKnown t id × AreKnown t rest

AreKnown-more :
    (id : ℕ) (e : LedgerEntry) (t rows : Table LedgerEntry)
    → AreKnown t rows
    → AreKnown ((id, e) ∷ t) rows
AreKnown-more id e t [] q = tt
AreKnown-more id e t ((j, r) ∷ rows) q = (IsKnown-more id j e t q.0, AreKnown-more id e t rows q.1)

AreKnown-self : (t : Table LedgerEntry) → AreKnown t t
AreKnown-self [] = tt
AreKnown-self ((id, e) ∷ t) = (IsKnown-added id e t, AreKnown-more id e t t (AreKnown-self t))

missing_lines-IsKnown :
    (id : ℕ) (s : SettlementPeriod) (lines : List SettlementLine) (t rows : Table LedgerEntry)
    → AreKnown t rows
    → All (λ line. IsKnown t line.ledger_entry_id) (missing_lines id s lines rows)
unfolding missing_lines
missing_lines-IsKnown id s lines t [] q = tt
missing_lines-IsKnown id s lines t ((j, e) ∷ rows) q =
    ground (arith, q.0, missing_lines-IsKnown id s lines t rows q.1)

-- The lines that are added belong to the period that closes.
projected_lines-missing :
    (j id : ℕ) (s : SettlementPeriod) (known lines : List SettlementLine)
    (ledger rows : Table LedgerEntry)
    → (id == j) ≡ false
    → projected_lines j ledger (missing_lines id s known rows ++ lines)
      ≡ projected_lines j ledger lines
unfolding missing_lines projected_lines
projected_lines-missing j id s known lines ledger [] other = refl
projected_lines-missing j id s known lines ledger ((i, e) ∷ rows) other =
    ground (arith, other, projected_lines-missing j id s known lines ledger rows other)

pub InOrder-InOrderBut : (ids : List ℕ) (a : Accounts) → InOrder a → InOrderBut ids a
unfolding is_among
InOrder-InOrderBut ids a w = record {
  linked = w.linked;
  dated = w.dated;
  synced = λ j s at out. w.synced j s at refl;
}

pub with_missing_lines-InOrderBut :
    (id : ℕ) (s : SettlementPeriod) (a : Accounts)
    → InOrder a
    → InOrderBut (id ∷ []) (with_missing_lines id s a)
unfolding is_among active_payments
with_missing_lines-InOrderBut id s a w = record {
  linked = record {
    lines_known =
        All-append (λ line. IsKnown a.ledger line.ledger_entry_id)
          (missing_lines id s a.lines a.ledger) a.lines
          (missing_lines-IsKnown id s a.lines a.ledger a.ledger (AreKnown-self a.ledger))
          w.linked.lines_known;
    allocations_known = w.linked.allocations_known;
    reversals_known = w.linked.reversals_known;
    keyed = w.linked.keyed;
    entries_keyed = w.linked.entries_keyed;
  };
  dated = w.dated;
  synced = λ j t at out.
      w.synced j t at refl
      ∙ sym (
          projection_of-same j a (with_missing_lines id s a)
            (projected_lines-missing j id s a.lines a.lines a.ledger a.ledger (ground (arith, out)))
            refl);
}

projected_lines-adjusted :
    (j entry_id : ℕ) (entry : LedgerEntry) (id : ℕ) (a : Accounts)
    → (id == j) ≡ false
    → get entry_id a.ledger ≡ none
    → Linked a
    → let b = post_adjustment entry_id entry id a in
      projected_lines j b.ledger b.lines ≡ projected_lines j a.ledger a.lines
unfolding projected_lines
projected_lines-adjusted j entry_id entry id a other fresh l =
    rw other (projected_lines-fresh j entry_id entry a.ledger a.lines fresh l.lines_known)

-- An entry of the period `id` and its line.
pub post_adjustment-InOrderBut :
    (entry_id : ℕ) (entry : LedgerEntry) (id : ℕ) (a : Accounts)
    → get entry_id a.ledger ≡ none
    → InOrderBut (id ∷ []) a
    → InOrderBut (id ∷ []) (post_adjustment entry_id entry id a)
unfolding is_among active_payments
post_adjustment-InOrderBut entry_id entry id a fresh w = record {
  linked = record {
    lines_known = (
      IsKnown-added entry_id entry a.ledger,
      All-IsKnown_more (λ line. line.ledger_entry_id) entry_id entry a.ledger a.lines
          w.linked.lines_known,
    );
    allocations_known = w.linked.allocations_known;
    reversals_known = w.linked.reversals_known;
    keyed = w.linked.keyed;
    entries_keyed = (fresh, w.linked.entries_keyed);
  };
  dated = w.dated;
  synced = λ j t at out.
      w.synced j t at out
      ∙ sym (
          projection_of-same j a (post_adjustment entry_id entry id a)
            (projected_lines-adjusted j entry_id entry id a (ground (arith, out)) fresh w.linked)
            refl);
}

module _ (shown : ℕ → ℕ) where
  closed_period-totals :
      (now : ℕ) (s : SettlementPeriod) → totals_of (closed_period shown now s) ≡ totals_of s
  closed_period-totals now s = elim (Bool-cases (s.status is open_period)) [
    | inl o ↦ rw o refl
    | inr c ↦ rw c refl
  ]

  closed_period-dated :
      (now : ℕ) (s : SettlementPeriod)
      → is_some s.closed_at ≡ is_closed_status s.status
      → is_some (closed_period shown now s).closed_at
        ≡ is_closed_status (closed_period shown now s).status
  closed_period-dated now s q = elim (Bool-cases (s.status is open_period)) [
    | inl o ↦ rw o (sym (settlement_status-closed shown (totals_of s) s.due_at now))
    | inr c ↦ rw c q
  ]

  pub close_accounts-InOrder :
      (id : ℕ) (s : SettlementPeriod) (now : ℕ) (a : Accounts) {b : Accounts}
      → close_accounts shown id s now a ≡ ok b
      → InOrder a
      → InOrder b
  unfolding close_accounts is_among
  close_accounts-InOrder id s now a {b} h w =
      elim (Option-cases (refresh_settlement_projection shown id now (with_missing_lines id s a))) [
        | inl failed ↦ absurd (ground arith)
        | inr (c, done) ↦
            let closed : record c {
              settlements = update id (closed_period shown now) c.settlements;
            }
                ≡ b =
              ground arith in
            subst InOrder closed (
              let opened =
                refresh-InOrderBut shown id [] now (with_missing_lines id s a) done
                  (with_missing_lines-InOrderBut id s a w) in
              update-InOrderBut id [] (closed_period shown now) c
                (λ t at. closed_period-totals now t ∙ opened.synced id t at refl)
                (λ t at. closed_period-dated now t) (InOrder-InOrderBut (id ∷ []) c opened))
      ]
