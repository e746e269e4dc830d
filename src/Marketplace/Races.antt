-- ===== src/Marketplace/Races.antt =====
-- The automatic completion of a delivery: against a dispute, and against the check of the database.
use wassal.Prelude.{
  ℕ, ◌+◌, ◌<◌, ◌≤◌, ◌≡◌, ◌⊎◌, refl, ◌∷◌, true, false, none, some, List, inl, inr, arith,
  Option-cases,
}
use wassal.Contracts.Rbac.{UserRole}
use wassal.Orders.Status.{order_status_enum, delivered, completed}
use wassal.Store.{DeliveryOrder, Database, Setting, FinancialSetting, dispute_window_expired}
use wassal.Store.Table.{get, matches, get-update_self}
use wassal.Service.Transaction.{ok, err, settlement_check_violated, Result-cases}
use wassal.Service.Queries.{courier_user, current_setting}
use wassal.Operations.Domain.{dispute_window_is_active}
use wassal.Operations.Disputes.{has_dispute, disputed, merchant_dispute}
use wassal.Finance.Accounts.{SettlementPeriod, order_commission}
use wassal.Finance.Settlement.{has_source_key, find_period}
use wassal.Orders.Finalization.{finalized, commission_entry}
use wassal.Worker.Complete.{complete_delivered, complete_one, complete_all, weekly_bounds}
use wassal.Worker.Checked.{
  IsOverpaid, AreChecked, get-checked, post_worker_commission-cases, post_worker_commission-refused,
}
use wassal.Marketplace.Invariant.{WellFormed}

module _ (user_id : ℕ) (role : UserRole) (merchant_id : ℕ) (membership_role : UserRole)
    (order_id version : ℕ) (admins : List ℕ) (dispute_id now : ℕ) (db : Database) {r : ℕ}
    {db' : Database} where
  -- If a merchant's dispute commits at `now`, the job that completes deliveries would have left the
  -- order alone up to then, and leaves it alone after the dispute, whatever the time.
  pub merchant_dispute-complete_one :
      (entry_id settlement_id earlier later : ℕ)
      → merchant_dispute user_id role merchant_id membership_role order_id version admins dispute_id
          now db
        ≡ ok (r, db')
      → earlier ≤ now
      → (complete_one order_id entry_id settlement_id earlier db ≡ ok none)
        × (complete_one order_id entry_id settlement_id later db' ≡ ok none)
  unfolding merchant_dispute complete_one matches dispute_window_is_active
  merchant_dispute-complete_one entry_id settlement_id earlier later h early =
      elim (Option-cases (get order_id db.orders)) [
        | inl missing ↦ absurd (ground arith)
        | inr (order, at) ↦ elim (Option-cases order.courier_id) [
          | inl unassigned ↦ absurd (ground arith)
          | inr (courier_id, held) ↦ elim (Option-cases (courier_user courier_id db.couriers)) [
            | inl unknown ↦ absurd (ground arith)
            | inr (courier, u) ↦
                let row = get-update_self order_id disputed db.orders at in
                (ground arith, ground (arith, row))
          ]
        ]
      ]

module _ (order_id entry_id settlement_id now : ℕ) (db : Database) {order : DeliveryOrder}
    {courier_id user_id deadline : ℕ} {setting : Setting FinancialSetting} where
  -- In a well-formed database whose periods pass the database's check, a delivery whose window has passed,
  -- which is not finalized and has no dispute, whose courier is known and for which a financial setting is
  -- in force, comes to one of two ends when the job takes it up. It is completed and finalized at `now`, one
  -- version further, for the same courier at the same price, and its commission is in the ledger; or its
  -- commission is not 0, the courier's period of this week is overpaid, and the check of the database
  -- throws.
  pub complete_one-completes :
      WellFormed db
      → AreChecked db.accounts.settlements
      → get order_id db.orders ≡ some order
      → order.status ≡ delivered
      → order.financial_finalized_at ≡ none
      → order.delivery_dispute_deadline_at ≡ some deadline
      → deadline ≤ now
      → has_dispute order_id db.disputes ≡ false
      → order.courier_id ≡ some courier_id
      → courier_user courier_id db.couriers ≡ some user_id
      → current_setting now none db.financial_settings ≡ some setting
      → ((db' : Database) × (complete_one order_id entry_id settlement_id now db ≡ ok (some db'))
          × (order' : DeliveryOrder) × (get order_id db'.orders ≡ some order')
          × (order'.status ≡ completed)
          × (order'.completed_at ≡ some now)
          × (order'.financial_finalized_at ≡ some now)
          × (order'.completion_source ≡ some dispute_window_expired)
          × (order'.version ≡ order.version + 1)
          × (order'.courier_id ≡ some courier_id)
          × (order'.merchant_total_minor ≡ order.merchant_total_minor)
          × (order'.platform_commission_minor ≡ order.platform_commission_minor)
          × (has_source_key (order_commission order_id) db'.accounts.ledger ≡ true))
        ⊎ ((id : ℕ) × (find_period courier_id
                (weekly_bounds now setting.value.grace_period_days)
                db.accounts.settlements
              ≡ some id)
            × (s : SettlementPeriod) × (get id db.accounts.settlements ≡ some s)
            × IsOverpaid s
            × (0 < order.platform_commission_minor)
            × (complete_one order_id entry_id settlement_id now db ≡ err settlement_check_violated))
  unfolding complete_one complete_delivered matches has_source_key
  complete_one-completes w checked at is_delivered open_books until passed free held u s =
      let none_yet = w.charged order_id order at in
      let row = get-update_self order_id (finalized dispute_window_expired now) db.orders at in
      elim (post_worker_commission-cases
        (commission_entry courier_id order_id order.platform_commission_minor none now)
        order.platform_commission_minor (weekly_bounds now setting.value.grace_period_days) entry_id
        settlement_id db.accounts checked) [
          | inl (a', posted, ledger) ↦
              elim (Result-cases (
                complete_delivered order_id order courier_id user_id entry_id settlement_id now
                  db)) [
                    | inl (fault, refused) ↦ absurd (ground (arith, none_yet, posted))
                    | inr (db', e) ↦ inl (
                      db',
                      ground arith,
                      finalized dispute_window_expired now order,
                      ground (arith, row),
                      refl,
                      refl,
                      refl,
                      refl,
                      refl,
                      held,
                      refl,
                      refl,
                      ground (arith, ledger, posted),
                    )
                  ]
          | inr (id, found_id, period, there, over, some_amount, refused) ↦
              inr
                (id, found_id, period, there, over, some_amount, ground (arith, none_yet, refused))
        ]

  -- Where the courier's period of this week is overpaid, a delivery that is due and whose commission is not 0
  -- ends the run of the job: the run throws, none of the candidates behind it is taken up, and the database is
  -- as it was when the job came to it.
  pub complete_all-stops :
      {id : ℕ} {period : SettlementPeriod} (candidates : List (ℕ × ℕ × ℕ)) (count : ℕ)
      → WellFormed db
      → AreChecked db.accounts.settlements
      → get order_id db.orders ≡ some order
      → order.status ≡ delivered
      → order.financial_finalized_at ≡ none
      → order.delivery_dispute_deadline_at ≡ some deadline
      → deadline ≤ now
      → has_dispute order_id db.disputes ≡ false
      → order.courier_id ≡ some courier_id
      → courier_user courier_id db.couriers ≡ some user_id
      → current_setting now none db.financial_settings ≡ some setting
      → find_period courier_id
          (weekly_bounds now setting.value.grace_period_days)
          db.accounts.settlements
        ≡ some id
      → get id db.accounts.settlements ≡ some period
      → IsOverpaid period
      → 0 < order.platform_commission_minor
      → complete_all now ((order_id, entry_id, settlement_id) ∷ candidates) count db
        ≡ (err settlement_check_violated, db)
  unfolding complete_all complete_one complete_delivered matches
  complete_all-stops {id} {period} candidates count w checked at is_delivered open_books until
        passed free held u s found_id there over some_amount =
      let none_yet = w.charged order_id order at in
      let refused =
        post_worker_commission-refused
          (commission_entry courier_id order_id order.platform_commission_minor none now)
          order.platform_commission_minor (weekly_bounds now setting.value.grace_period_days)
          entry_id settlement_id db.accounts {id = id} {s = period} found_id there
          (get-checked id db.accounts.settlements there checked) over some_amount in
      ground (arith, none_yet, refused)
