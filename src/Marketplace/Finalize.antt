-- ===== src/Marketplace/Finalize.antt =====
-- `finalizeInTransaction` and the invariant of the marketplace.
use wassal.Prelude.{
  ℕ, ◌≡◌, ◌⊎◌, true, none, some, inl, inr, arith, Option-cases, Bool-cases, includes, is_some,
}
use wassal.Orders.Status.{order_status_enum}
use wassal.Store.{DeliveryOrder, Database}
use wassal.Store.Table.{get}
use wassal.Finance.Calendar.{weekly_settlement_bounds}
use wassal.Service.Transaction.{ok}
use wassal.Service.Queries.{courier_user, current_setting}
use wassal.Orders.Finalization.{
  FinalizeInput, completed_event, commission_entry, post_commission, complete_order,
  finalize_in_transaction,
}
use wassal.Marketplace.Invariant.{WellFormed}
use wassal.Marketplace.Moves.{IsQuiet}
use wassal.Marketplace.Completion.{Completes, Completes-WellFormed, post_commission-ledger}

module _ (shown : ℕ → ℕ) (order_id : ℕ) (order : DeliveryOrder) (courier_id user_id : ℕ)
    (input : FinalizeInput) (entry_id settlement_id now : ℕ) (db : Database) {db' : Database} where
  pub complete_order-Completes :
      get order_id db.orders ≡ some order
      → is_some order.courier_id ≡ true
      → complete_order shown order_id order courier_id user_id input entry_id settlement_id now db
        ≡ ok db'
      → Completes order_id order input.completion_source now
          (completed_event order_id order.status input.actor_id input.actor_role input.event_source)
          entry_id
          (commission_entry courier_id order_id order.platform_commission_minor input.actor_id now)
          db
          db'
  unfolding complete_order
  complete_order-Completes at held h =
      elim (Option-cases (current_setting now none db.financial_settings)) [
        | inl unset ↦ ground arith
        | inr (setting, s) ↦
            elim (Option-cases (
              post_commission shown
                (commission_entry courier_id order_id order.platform_commission_minor input.actor_id
                  now)
                (weekly_settlement_bounds shown now setting.value.grace_period_days) entry_id
                settlement_id now db.accounts)) [
                  | inl failed ↦ ground arith
                  | inr (accounts, posted) ↦
                      let ledger =
                        post_commission-ledger shown
                          (commission_entry courier_id order_id order.platform_commission_minor
                            input.actor_id now)
                          (weekly_settlement_bounds shown now setting.value.grace_period_days)
                          entry_id settlement_id now db.accounts posted in
                      ground (arith, ledger)
                ]
      ]

module _ (shown : ℕ → ℕ) (order_id : ℕ) (input : FinalizeInput) (entry_id settlement_id now : ℕ)
    (db : Database) {db' : Database} where
  -- A completion that returns has found the order finalized and changed nothing, or completes it.
  pub finalize-cases :
      finalize_in_transaction shown order_id input entry_id settlement_id now db ≡ ok db'
      → (db' ≡ db)
        ⊎ ((order : DeliveryOrder) × (courier_id : ℕ) × (includes input.expected_statuses
                order.status
              ≡ true)
            × Completes order_id order input.completion_source now
                (completed_event order_id order.status input.actor_id input.actor_role
                  input.event_source)
                entry_id
                (commission_entry courier_id order_id order.platform_commission_minor input.actor_id
                  now)
                db
                db')
  unfolding finalize_in_transaction
  finalize-cases h = elim (Option-cases (get order_id db.orders)) [
    | inl missing ↦ absurd (ground arith)
    | inr (order, at) ↦ elim (Option-cases order.courier_id) [
      | inl unassigned ↦ absurd (ground arith)
      | inr (courier_id, held) ↦ elim (Option-cases (courier_user courier_id db.couriers)) [
        | inl unknown ↦ absurd (ground arith)
        | inr (user_id, u) ↦ elim (Bool-cases (is_some order.financial_finalized_at)) [
          | inl before ↦ inl (ground arith)
          | inr first ↦ elim (Bool-cases (includes input.expected_statuses order.status)) [
            | inr unexpected ↦ absurd (ground arith)
            | inl expected ↦ inr (
              order,
              courier_id,
              expected,
              complete_order-Completes shown order_id order courier_id user_id input entry_id
                  settlement_id now db at (rw held) (ground arith),
            )
          ]
        ]
      ]
    ]
  ]

  pub finalize-WellFormed :
      finalize_in_transaction shown order_id input entry_id settlement_id now db ≡ ok db'
      → IsQuiet order_id db.disputes
      → WellFormed db
      → WellFormed db'
  finalize-WellFormed h q w = elim (finalize-cases h) [
    | inl same ↦ rw same w
    | inr (order, courier_id, expected, done) ↦ Completes-WellFormed done q w
  ]
