-- ===== src/Books/Recharged.antt =====
-- What a period takes up when it closes: `closeSettlement` after `reverseExternalPayment` of
-- apps/api/src/finance/finance.service.ts.
use wassal.Prelude.{
  ℕ, ◌≡◌, refl, sym, ap, ◌∙◌, Bool, true, false, not, ◌&&◌, none, some, List, [], ◌∷◌, ◌++◌, ◌==◌,
  arith, Bool-cases, Option-cases, inl, inr, if◌then◌else◌, All, includes,
}
use mathlib.Core.Path.{subst}
use wassal.Prelude.Int.{ℤ, pos, ◌+ℤ◌, int_laws}
use wassal.Store.Table.{Table, get, update}
use wassal.Finance.Domain.{
  LedgerType, ledger_type_enum, adjustment_debit, adjustment_credit, reversal,
  settlement_status_enum,
}
use wassal.Finance.Accounts.{Accounts, LedgerEntry, SettlementLine, SettlementPeriod}
use wassal.Finance.Closing.{
  is_in_period, has_line, missing_lines, with_missing_lines, closed_period, close_accounts,
  totals_of,
}
use wassal.Worker.Settlements.{line_total, worker_totals}
use wassal.Finance.Settlement.{projection_of, refresh_settlement_projection}
use wassal.Service.Transaction.{ok}
use wassal.Books.Refresh.{refresh-IsSameBase}
use wassal.Books.Change.{IsSameBase, IsSameBase-projection_of, get-update_known}
use wassal.Books.Closing.{close_accounts-InOrder}
use wassal.Books.Jobs.{worker_totals-projection_of}
use wassal.Books.Balance.{known-row}
use wassal.Books.Invariant.{is_among, IsKnown, IsKeyed, InOrder}

-- Whether the projection counts an entry as an adjustment.
abbrev pub is_adjustment : LedgerType → Bool
is_adjustment type = includes (adjustment_debit ∷ adjustment_credit ∷ reversal ∷ []) type

-- The sum of the courier's entries of some types that are dated in the period and have no line.
unfoldable pub missing_total :
    (LedgerType → Bool) → SettlementPeriod → List SettlementLine → Table LedgerEntry → ℤ
unfolding has_line
missing_total keep s lines [] = pos 0
missing_total keep s lines ((id, e) ∷ es) =
    let rest = missing_total keep s lines es in
    if is_in_period s e && not (has_line id lines)
    then if keep e.type then e.amount_minor +ℤ rest else rest
    else rest

-- The rows are those that the table finds.
abbrev AreFound : Table LedgerEntry → Table LedgerEntry → Type 0
AreFound t [] = Unit
AreFound t ((id, e) ∷ rest) = (get id t ≡ some e) × AreFound t rest

AreFound-more :
    (k : ℕ) (v : LedgerEntry) (t rows : Table LedgerEntry)
    → get k rows ≡ none
    → AreFound t rows
    → AreFound ((k, v) ∷ t) rows
unfolding get
AreFound-more k v t [] h q = tt
AreFound-more k v t ((j, e) ∷ rows) h q =
    (ground (arith, h, q.0), AreFound-more k v t rows (ground (arith, h)) q.1)

AreFound-self : (t : Table LedgerEntry) → IsKeyed t → AreFound t t
unfolding get
AreFound-self [] q = tt
AreFound-self ((k, v) ∷ t) q = (ground arith, AreFound-more k v t t q.0 (AreFound-self t q.1))

+ℤ_assoc : (a b c : ℤ) → a +ℤ (b +ℤ c) ≡ a +ℤ b +ℤ c
+ℤ_assoc a b c = grind int_laws

pub missing_lines-line_total :
    (keep : LedgerType → Bool) (id : ℕ) (s : SettlementPeriod) (lines : List SettlementLine)
    (t rows : Table LedgerEntry)
    → AreFound t rows
    → line_total keep id t (missing_lines id s lines rows ++ lines)
      ≡ missing_total keep s lines rows +ℤ line_total keep id t lines
unfolding missing_lines missing_total line_total
missing_lines-line_total keep id s lines t [] q = grind int_laws
missing_lines-line_total keep id s lines t ((j, e) ∷ rows) q =
    let rest = missing_lines-line_total keep id s lines t rows q.1 in
    let self : (id == id) ≡ true = ground arith in
    elim (Bool-cases (is_in_period s e && not (has_line j lines))) [
      | inr out ↦ rw out rest
      | inl taken ↦ elim (Bool-cases (keep e.type)) [
        | inl kept ↦
            rw (taken, self, q.0, kept)
              (ap (λ z. e.amount_minor +ℤ z) rest
                ∙ +ℤ_assoc e.amount_minor (missing_total keep s lines rows)
                    (line_total keep id t lines))
        | inr left ↦ rw (taken, self, q.0, left) rest
      ]
    ]

pub has_line-fresh :
    (id : ℕ) (t : Table LedgerEntry) (lines : List SettlementLine)
    → get id t ≡ none
    → All (λ line. IsKnown t line.ledger_entry_id) lines
    → has_line id lines ≡ false
unfolding has_line
has_line-fresh id t [] h q = refl
has_line-fresh id t (line ∷ lines) h q = elim (Bool-cases (line.ledger_entry_id == id)) [
  | inl hit ↦
      let same : line.ledger_entry_id ≡ id = ground arith in
      absurd (ground (arith, q.0, ap (λ i. get i t) same))
  | inr miss ↦ rw miss (has_line-fresh id t lines h q.1)
]

module _ (shown : ℕ → ℕ) where
  close_accounts-IsSameBase :
      (id : ℕ) (s : SettlementPeriod) (now : ℕ) (a : Accounts) {b : Accounts}
      → close_accounts shown id s now a ≡ ok b
      → IsSameBase (with_missing_lines id s a) b
  unfolding close_accounts
  close_accounts-IsSameBase id s now a {b} h =
      elim (Option-cases (refresh_settlement_projection shown id now (with_missing_lines id s a))) [
        | inl failed ↦ absurd (ground arith)
        | inr (c, made) ↦
            let base = refresh-IsSameBase shown id now (with_missing_lines id s a) made in
            let closed : record c {
              settlements = update id (closed_period shown now) c.settlements;
            }
                ≡ b =
              ground arith in
            subst (IsSameBase (with_missing_lines id s a)) closed (record {
              ledger_same = base.ledger_same;
              lines_same = base.lines_same;
              payments_same = base.payments_same;
              allocations_same = base.allocations_same;
              kept =
                  λ j. get-update_known id j (closed_period shown now) c.settlements ∙ base.kept j;
            })
      ]

  adjustments_of-projection :
      (id : ℕ) (a : Accounts) (s : SettlementPeriod)
      → totals_of s ≡ projection_of id a
      → s.total_adjustments_minor ≡ line_total is_adjustment id a.ledger a.lines
  unfolding worker_totals
  adjustments_of-projection id a s h =
      ap (λ p. p.total_adjustments_minor) (h ∙ sym (worker_totals-projection_of id a))

  -- A period that closes takes up the courier's adjustments and reversals that have no line.
  pub close_accounts-adds :
      (id : ℕ) (s : SettlementPeriod) (now : ℕ) (a : Accounts) {b : Accounts}
      → close_accounts shown id s now a ≡ ok b
      → get id a.settlements ≡ some s
      → InOrder a
      → (s' : SettlementPeriod) × (get id b.settlements ≡ some s')
        × (s'.total_adjustments_minor
            ≡ missing_total is_adjustment s a.lines a.ledger +ℤ s.total_adjustments_minor)
  unfolding is_among
  close_accounts-adds id s now a {b} h at w =
      let base = close_accounts-IsSameBase id s now a h in
      let w' = close_accounts-InOrder shown id s now a h w in
      let (s', found) = known-row id a.settlements b.settlements (base.kept id) at in
      let after = adjustments_of-projection id (with_missing_lines id s a) s' (
        w'.synced id s' found refl
        ∙ IsSameBase-projection_of id (with_missing_lines id s a) b base) in
      let before = adjustments_of-projection id a s (w.synced id s at refl) in
      let added =
        missing_lines-line_total is_adjustment id s a.lines a.ledger a.ledger
          (AreFound-self a.ledger w.linked.entries_keyed) in
      (
        s',
        found,
        after ∙ added ∙ ap (λ z. missing_total is_adjustment s a.lines a.ledger +ℤ z) (sym before),
      )
