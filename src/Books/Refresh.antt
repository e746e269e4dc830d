-- ===== src/Books/Refresh.antt =====
-- What the refresh of projections does to accounts (apps/api/src/finance/settlement-projection.ts).
use wassal.Prelude.{
  ℕ, ◌≡◌, refl, sym, ap, ◌∙◌, true, false, none, some, List, [], ◌∷◌, inl, inr, arith, Bool-cases,
  Option-cases,
}
use mathlib.Core.Path.{subst}
use mathlib.Core.Option.{some-injective}
use wassal.Store.Table.{get, update}
use wassal.Finance.Domain.{Projection, settlement_status, settlement_status_enum}
use wassal.Finance.Accounts.{Accounts, SettlementPeriod}
use wassal.Finance.Settlement.{projection_of, projected, refresh_settlement_projection}
use wassal.Finance.Closing.{totals_of}
use wassal.Finance.Postings.{refresh_all}
use wassal.Books.Invariant.{is_closed_status, InOrderBut, InOrder}
use wassal.Books.Change.{is_open-is_closed_status, IsSameBase, get-update_known, update-InOrderBut}

module _ (shown : ℕ → ℕ) where
  -- A closed period never opens again.
  pub settlement_status-closed :
      (p : Projection) (due_at now : ℕ)
      → is_closed_status (settlement_status shown false p due_at now) ≡ true
  unfolding settlement_status
  settlement_status-closed p due_at now = ground arith

  projected-status :
      (p : Projection) (now : ℕ) (s : SettlementPeriod)
      → is_closed_status (projected shown p now s).status ≡ is_closed_status s.status
  unfolding projected settlement_status
  projected-status p now s = elim (Bool-cases (is_closed_status s.status)) [
    | inl c ↦ rw (is_open-is_closed_status s.status, c) (settlement_status-closed p s.due_at now)
    | inr o ↦ rw (is_open-is_closed_status s.status, o) refl
  ]

  projected-totals :
      (p : Projection) (now : ℕ) (s : SettlementPeriod) → totals_of (projected shown p now s) ≡ p
  unfolding projected
  projected-totals p now s = refl

  pub refresh-InOrderBut :
      (id : ℕ) (ids : List ℕ) (now : ℕ) (a : Accounts) {b : Accounts}
      → refresh_settlement_projection shown id now a ≡ some b
      → InOrderBut (id ∷ ids) a
      → InOrderBut ids b
  unfolding refresh_settlement_projection
  refresh-InOrderBut id ids now a {b} h w = elim (Option-cases (get id a.settlements)) [
    | inl missing ↦ absurd (ground arith)
    | inr (s0, at) ↦
        let p = projection_of id a in
        let change = projected shown p now in
        let found : record a { settlements = update id change a.settlements } ≡ b = ground arith in
        subst (InOrderBut ids) found (
          update-InOrderBut id ids change a (λ s e. projected-totals p now s)
            (λ s e q. q ∙ sym (projected-status p now s)) w)
  ]

  pub refresh_all-InOrder :
      (ids : List ℕ) (now : ℕ) (a : Accounts) {b : Accounts}
      → refresh_all shown ids now a ≡ some b
      → InOrderBut ids a
      → InOrder b
  unfolding refresh_all
  refresh_all-InOrder [] now a h w = subst (InOrderBut []) (some-injective _ _ h) w
  refresh_all-InOrder (id ∷ ids) now a {b} h w =
      elim (Option-cases (refresh_settlement_projection shown id now a)) [
        | inl failed ↦ absurd (ground arith)
        | inr (c, done) ↦
            refresh_all-InOrder ids now c
              (sym (ap (λ o. elim o [ none ↦ none | some x ↦ refresh_all shown ids now x ]) done)
                ∙ h)
              (refresh-InOrderBut id ids now a done w)
      ]

  pub refresh-IsSameBase :
      (id now : ℕ) (a : Accounts) {b : Accounts}
      → refresh_settlement_projection shown id now a ≡ some b
      → IsSameBase a b
  unfolding refresh_settlement_projection
  refresh-IsSameBase id now a {b} h = elim (Option-cases (get id a.settlements)) [
    | inl missing ↦ absurd (ground arith)
    | inr (s0, at) ↦
        let change = projected shown (projection_of id a) now in
        let found : record a { settlements = update id change a.settlements } ≡ b = ground arith in
        subst (IsSameBase a) found (record {
          ledger_same = refl;
          lines_same = refl;
          payments_same = refl;
          allocations_same = refl;
          kept = λ j. get-update_known id j change a.settlements;
        })
  ]

  pub refresh_all-IsSameBase :
      (ids : List ℕ) (now : ℕ) (a : Accounts) {b : Accounts}
      → refresh_all shown ids now a ≡ some b
      → IsSameBase a b
  unfolding refresh_all
  refresh_all-IsSameBase [] now a h = subst (IsSameBase a) (some-injective _ _ h) (record {
    ledger_same = refl;
    lines_same = refl;
    payments_same = refl;
    allocations_same = refl;
    kept = λ j. refl;
  })
  refresh_all-IsSameBase (id ∷ ids) now a {b} h =
      elim (Option-cases (refresh_settlement_projection shown id now a)) [
        | inl failed ↦ absurd (ground arith)
        | inr (c, done) ↦
            let first = refresh-IsSameBase id now a done in
            let rest = refresh_all-IsSameBase ids now c {b = b} (ground arith) in
            record {
              ledger_same = rest.ledger_same ∙ first.ledger_same;
              lines_same = rest.lines_same ∙ first.lines_same;
              payments_same = rest.payments_same ∙ first.payments_same;
              allocations_same = rest.allocations_same ∙ first.allocations_same;
              kept = λ j. rest.kept j ∙ first.kept j;
            }
      ]
