-- ===== src/Books/Commission.antt =====
-- The commission that `finalizeInTransaction` of apps/api/src/orders/order-finalization.service.ts
-- books, and the order of the books.
use wassal.Prelude.{
  ℕ, ◌≡◌, refl, none, some, [], ◌∷◌, inl, inr, arith, is_some, Bool-cases, Option-cases, includes,
}
use mathlib.Core.Path.{subst}
use wassal.Orders.Status.{order_status_enum}
use wassal.Store.{Database, DeliveryOrder}
use wassal.Store.Table.{get}
use wassal.Finance.Calendar.{Bounds, weekly_settlement_bounds}
use wassal.Finance.Accounts.{Accounts, LedgerEntry}
use wassal.Finance.Settlement.{
  find_period, new_period, refresh_settlement_projection, active_payments, projection_of,
}
use wassal.Finance.Adjustments.{post_adjustment}
use wassal.Service.Transaction.{ok}
use wassal.Service.Queries.{courier_user, current_setting}
use wassal.Orders.Finalization.{
  FinalizeInput, commission_entry, upsert_period, post_commission, complete_order,
  finalize_in_transaction,
}
use wassal.Books.Invariant.{is_among, InOrderBut, InOrder}
use wassal.Books.Refresh.{refresh-InOrderBut}
use wassal.Books.Closing.{InOrder-InOrderBut, post_adjustment-InOrderBut}

-- A new period is in order once its projection is refreshed.
new_period-InOrderBut :
    (courier_id : ℕ) (bounds : Bounds) (new_id : ℕ) (a : Accounts)
    → get new_id a.settlements ≡ none
    → InOrder a
    → InOrderBut
        (new_id ∷ [])
        (record a { settlements = (new_id, new_period courier_id bounds) ∷ a.settlements })
unfolding is_among get active_payments projection_of
new_period-InOrderBut courier_id bounds new_id a fresh w = record {
  linked = record {
    lines_known = w.linked.lines_known;
    allocations_known = w.linked.allocations_known;
    reversals_known = w.linked.reversals_known;
    keyed = (fresh, w.linked.keyed);
    entries_keyed = w.linked.entries_keyed;
  };
  dated = (refl, w.dated);
  synced = λ id s at out. w.synced id s (ground (arith, out)) refl;
}

module _ (shown : ℕ → ℕ) where
  pub post_commission-InOrder :
      (entry : LedgerEntry) (bounds : Bounds) (entry_id new_id now : ℕ) (a : Accounts)
      {b : Accounts}
      → post_commission shown entry bounds entry_id new_id now a ≡ some b
      → get entry_id a.ledger ≡ none
      → get new_id a.settlements ≡ none
      → InOrder a
      → InOrder b
  unfolding post_commission upsert_period
  post_commission-InOrder entry bounds entry_id new_id now a {b} h fresh_entry fresh_period w =
      elim (Option-cases (find_period entry.courier_id bounds a.settlements)) [
        | inr (id, known) ↦
            let posted : refresh_settlement_projection shown id now
                  (post_adjustment entry_id entry id a)
                ≡ some b =
              ground arith in
            refresh-InOrderBut shown id [] now (post_adjustment entry_id entry id a) posted (
              post_adjustment-InOrderBut entry_id entry id a fresh_entry
                (InOrder-InOrderBut (id ∷ []) a w))
        | inl unknown ↦
            let opened = record a {
              settlements = (new_id, new_period entry.courier_id bounds) ∷ a.settlements;
            } in
            let posted : refresh_settlement_projection shown new_id now
                  (post_adjustment entry_id entry new_id opened)
                ≡ some b =
              ground arith in
            refresh-InOrderBut shown new_id [] now (post_adjustment entry_id entry new_id opened)
              posted
              (post_adjustment-InOrderBut entry_id entry new_id opened fresh_entry
                (new_period-InOrderBut entry.courier_id bounds new_id a fresh_period w))
      ]

  module _ (order_id : ℕ) (input : FinalizeInput) (entry_id settlement_id now : ℕ) (db : Database)
      {db' : Database} where
    complete_order-InOrder :
        (order : DeliveryOrder) (courier_id user_id : ℕ)
        → complete_order shown order_id order courier_id user_id input entry_id settlement_id now db
          ≡ ok db'
        → get entry_id db.accounts.ledger ≡ none
        → get settlement_id db.accounts.settlements ≡ none
        → InOrder db.accounts
        → InOrder db'.accounts
    unfolding complete_order
    complete_order-InOrder order courier_id user_id h fresh_entry fresh_period w =
        let entry =
          commission_entry courier_id order_id order.platform_commission_minor input.actor_id now in
        elim (Option-cases (current_setting now none db.financial_settings)) [
          | inl unset ↦ absurd (ground arith)
          | inr (setting, s) ↦
              let bounds = weekly_settlement_bounds shown now setting.value.grace_period_days in
              elim (Option-cases
                (post_commission shown entry bounds entry_id settlement_id now db.accounts)) [
                  | inl failed ↦ absurd (ground arith)
                  | inr (b, posted) ↦
                      let same : b ≡ db'.accounts = ground arith in
                      subst InOrder same (
                        post_commission-InOrder entry bounds entry_id settlement_id now db.accounts
                          posted fresh_entry fresh_period w)
                ]
        ]

    pub finalize-InOrder :
        finalize_in_transaction shown order_id input entry_id settlement_id now db ≡ ok db'
        → get entry_id db.accounts.ledger ≡ none
        → get settlement_id db.accounts.settlements ≡ none
        → InOrder db.accounts
        → InOrder db'.accounts
    unfolding finalize_in_transaction
    finalize-InOrder h fresh_entry fresh_period w = elim (Option-cases (get order_id db.orders)) [
      | inl missing ↦ absurd (ground arith)
      | inr (order, at) ↦ elim (Option-cases order.courier_id) [
        | inl unassigned ↦ absurd (ground arith)
        | inr (courier_id, held) ↦ elim (Option-cases (courier_user courier_id db.couriers)) [
          | inl unknown ↦ absurd (ground arith)
          | inr (user_id, u) ↦ elim (Bool-cases (is_some order.financial_finalized_at)) [
            | inl before ↦
                let same : db ≡ db' = ground arith in subst (λ d. InOrder d.accounts) same w
            | inr first ↦ elim (Bool-cases (includes input.expected_statuses order.status)) [
              | inr unexpected ↦ absurd (ground arith)
              | inl expected ↦
                  complete_order-InOrder order courier_id user_id (ground arith) fresh_entry
                    fresh_period w
            ]
          ]
        ]
      ]
    ]
