-- ===== src/Books/Corrections.antt =====
-- Closed periods and adjustments and the books: `closeSettlement` and `createAdjustment` of
-- apps/api/src/finance/finance.service.ts as wholes.
use wassal.Prelude.{
  ℕ, ◌≡◌, sym, ◌⊎◌, true, none, some, [], ◌∷◌, ◌is◌, inl, inr, arith, Bool-cases, Option-cases,
}
use mathlib.Core.Path.{subst}
use wassal.Store.{Database, settlement_close, courier_adjustment}
use wassal.Store.Table.{get}
use wassal.Finance.Domain.{open_period, settlement_status_enum}
use wassal.Finance.Accounts.{SettlementPeriod}
use wassal.Finance.Settlement.{refresh_settlement_projection}
use wassal.Finance.Closing.{close_accounts, close_settlement}
use wassal.Finance.Adjustments.{
  AdjustmentInput, original_amount, adjusted_settlement, adjustment_amount, adjustment_entry,
  post_adjustment, create_adjustment,
}
use wassal.Service.Transaction.{ok, Result-cases}
use wassal.Service.Idempotency.{claim_idempotency}
use wassal.Service.Queries.{courier_user}
use wassal.Books.Invariant.{InOrder}
use wassal.Books.Refresh.{refresh-InOrderBut}
use wassal.Books.Closing.{InOrder-InOrderBut, close_accounts-InOrder, post_adjustment-InOrderBut}

module _ (shown : ℕ → ℕ) (user_id settlement_id version key hash now : ℕ) (db : Database) where
  -- A period that is closed already is left alone.
  pub close-cases :
      {answer : ℕ} {db' : Database}
      → close_settlement shown user_id settlement_id version key hash now db ≡ ok (answer, db')
      → (db'.accounts ≡ db.accounts)
        ⊎ ((s : _) × (get settlement_id db.accounts.settlements ≡ some s)
            × (close_accounts shown settlement_id s now db.accounts ≡ ok db'.accounts))
  unfolding close_settlement
  close-cases h =
      elim (Result-cases
        (claim_idempotency (settlement_close settlement_id) key hash now db.idempotency)) [
          | inl (e, refused) ↦ absurd (ground arith)
          | inr (claimed, c) ↦ elim (Option-cases (get settlement_id db.accounts.settlements)) [
            | inl unknown ↦ absurd (ground arith)
            | inr (s, k) ↦ elim (Bool-cases (s.status is open_period)) [
              | inr before ↦ inl (ground arith)
              | inl opened ↦
                  elim (Result-cases (close_accounts shown settlement_id s now db.accounts)) [
                    | inl (e, refused) ↦ absurd (ground arith)
                    | inr (b, made) ↦ inr (s, k, ground arith)
                  ]
            ]
          ]
        ]

  pub close-opened :
      (s : SettlementPeriod) {answer : ℕ} {db' : Database}
      → get settlement_id db.accounts.settlements ≡ some s
      → (s.status is open_period) ≡ true
      → close_settlement shown user_id settlement_id version key hash now db ≡ ok (answer, db')
      → close_accounts shown settlement_id s now db.accounts ≡ ok db'.accounts
  unfolding close_settlement
  close-opened s at opened h =
      elim (Result-cases
        (claim_idempotency (settlement_close settlement_id) key hash now db.idempotency)) [
          | inl (e, refused) ↦ absurd (ground arith)
          | inr (claimed, c) ↦
              elim (Result-cases (close_accounts shown settlement_id s now db.accounts)) [
                | inl (e, refused) ↦ absurd (ground arith)
                | inr (b, made) ↦ ground arith
              ]
        ]

  pub close-InOrder :
      {answer : ℕ} {db' : Database}
      → close_settlement shown user_id settlement_id version key hash now db ≡ ok (answer, db')
      → InOrder db.accounts
      → InOrder db'.accounts
  close-InOrder h w = elim (close-cases h) [
    | inl same ↦ subst InOrder (sym same) w
    | inr (s, at, made) ↦ close_accounts-InOrder shown settlement_id s now db.accounts made w
  ]

module _ (shown : ℕ → ℕ) (user_id courier_id : ℕ) (input : AdjustmentInput)
    (key hash entry_id now : ℕ) (db : Database) where
  pub adjustment-posts :
      {answer : ℕ} {db' : Database}
      → create_adjustment shown user_id courier_id input key hash entry_id now db ≡ ok (answer, db')
      → (settlement_id : ℕ) × (original : _) × (refresh_settlement_projection shown settlement_id
            now
            (post_adjustment entry_id
              (adjustment_entry user_id courier_id input
                (adjustment_amount input.type input.amount_minor original)
                key
                now)
              settlement_id
              db.accounts)
          ≡ some db'.accounts)
  unfolding create_adjustment
  adjustment-posts h =
      elim (Result-cases
        (claim_idempotency (courier_adjustment courier_id) key hash now db.idempotency)) [
          | inl (e, refused) ↦ absurd (ground arith)
          | inr (claimed, c) ↦ elim (Option-cases (courier_user courier_id db.couriers)) [
            | inl unknown ↦ absurd (ground arith)
            | inr (u, k) ↦ elim (Result-cases (original_amount courier_id input db.accounts)) [
              | inl (e, refused) ↦ absurd (ground arith)
              | inr (original, o) ↦
                  elim (Option-cases (adjusted_settlement courier_id input db.accounts)) [
                    | inl no_period ↦ absurd (ground arith)
                    | inr (settlement_id, p) ↦
                        elim (Option-cases (get settlement_id db.accounts.settlements)) [
                          | inl unknown ↦ absurd (ground arith)
                          | inr (s, at) ↦
                              elim (Option-cases (
                                refresh_settlement_projection shown settlement_id now (
                                  post_adjustment entry_id
                                    (adjustment_entry user_id courier_id input
                                      (adjustment_amount input.type input.amount_minor original) key
                                      now)
                                    settlement_id db.accounts))) [
                                      | inl missing ↦ absurd (ground arith)
                                      | inr (b, posted) ↦ (settlement_id, original, ground arith)
                                    ]
                        ]
                  ]
            ]
          ]
        ]

  pub adjustment-InOrder :
      {answer : ℕ} {db' : Database}
      → create_adjustment shown user_id courier_id input key hash entry_id now db ≡ ok (answer, db')
      → get entry_id db.accounts.ledger ≡ none
      → InOrder db.accounts
      → InOrder db'.accounts
  adjustment-InOrder h fresh w =
      let (settlement_id, original, posted) = adjustment-posts h in
      let entry =
        adjustment_entry user_id courier_id input
          (adjustment_amount input.type input.amount_minor original) key now in
      refresh-InOrderBut shown settlement_id [] now
        (post_adjustment entry_id entry settlement_id db.accounts) posted
        (post_adjustment-InOrderBut entry_id entry settlement_id db.accounts fresh
          (InOrder-InOrderBut (settlement_id ∷ []) db.accounts w))
