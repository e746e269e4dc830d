-- ===== src/Scenarios/JobExamples.antt =====
-- The laws of the job that completes deliveries, at small marketplaces.
use wassal.Prelude.{ℕ, ◌+◌, ◌<◌, ◌≡◌, ◌⊎◌, refl, true, none, some, [], ◌∷◌, arith}
use wassal.Prelude.Int.{pos, ◌+ℤ◌, ◌-ℤ◌}
use wassal.Orders.Status.{OrderStatus}
use wassal.Store.{DeliveryOrder, Database, dispute_window_expired}
use wassal.Store.Table.{get}
use wassal.Finance.Domain.{open_period}
use wassal.Finance.Accounts.{SettlementPeriod, order_commission}
use wassal.Finance.Settlement.{has_source_key, find_period}
use wassal.Service.Transaction.{ok, err, settlement_check_violated}
use wassal.Worker.Complete.{complete_one, complete_all, weekly_bounds, passes_projection_check}
use wassal.Worker.Checked.{IsOverpaid}
use wassal.Marketplace.Invariant.{WellFormed}
use wassal.Marketplace.Races.{complete_one-completes, complete_all-stops}
use wassal.Scenarios.{market, dropped}
use wassal.Scenarios.Lives.{dropped-market}
use wassal.Operations.Disputes.{has_dispute}
use wassal.Service.Queries.{courier_user, current_setting}

-- Courier 5's period of the week, with a commission of 500 and payments of 800.
abbrev overpaid_week : SettlementPeriod
overpaid_week = record {
  courier_id = 5;
  period_start = (weekly_bounds 900000000 3).period_start;
  period_end = (weekly_bounds 900000000 3).period_end;
  due_at = (weekly_bounds 900000000 3).due_at;
  total_commission_due_minor = pos 500;
  total_payments_minor = 800;
  total_adjustments_minor = pos 0;
  total_waived_minor = 0;
  remaining_amount_minor = 0;
  status = open_period;
  version = 3;
  closed_at = none;
}

-- The marketplace of the delivered order 1, with that period.
abbrev overpaid_market : Database
overpaid_market = record (market dropped) {
  accounts = record {
    ledger = [];
    settlements = (20, overpaid_week) ∷ [];
    lines = [];
    payments = [];
    allocations = [];
  };
}

overpaid_market-WellFormed : WellFormed overpaid_market
overpaid_market-WellFormed =
    let w = dropped-market in
    record {
      consistent = w.consistent;
      logged = w.logged;
      charged = w.charged;
      grounded = w.grounded;
      indexed = w.indexed;
    }

complete_one-completes_example :
    ((db' : Database) × (complete_one 1 44 45 900000000 (market dropped) ≡ ok (some db'))
      × (order' : DeliveryOrder) × (get 1 db'.orders ≡ some order')
      × (order'.status ≡ OrderStatus.completed)
      × (order'.completed_at ≡ some 900000000)
      × (order'.financial_finalized_at ≡ some 900000000)
      × (order'.completion_source ≡ some dispute_window_expired)
      × (order'.version ≡ dropped.version + 1)
      × (order'.courier_id ≡ some 5)
      × (order'.merchant_total_minor ≡ dropped.merchant_total_minor)
      × (order'.platform_commission_minor ≡ dropped.platform_commission_minor)
      × (has_source_key (order_commission 1) db'.accounts.ledger ≡ true))
    ⊎ ((id : ℕ) × (find_period 5 (weekly_bounds 900000000 3) ((market dropped)).accounts.settlements
          ≡ some id)
        × (s : SettlementPeriod) × (get id ((market dropped)).accounts.settlements ≡ some s)
        × IsOverpaid s
        × (0 < dropped.platform_commission_minor)
        × (complete_one 1 44 45 900000000 (market dropped) ≡ err settlement_check_violated))
unfolding get has_dispute courier_user current_setting
complete_one-completes_example =
    complete_one-completes 1 44 45 900000000 (market dropped) {order = dropped} {courier_id = 5}
      {user_id = 50} dropped-market tt refl refl refl refl (ground arith) refl refl refl refl

complete_all-stops_example :
    complete_all 900000000 ((1, 44, 45) ∷ (2, 46, 47) ∷ []) 0 overpaid_market
    ≡ (err settlement_check_violated, overpaid_market)
unfolding passes_projection_check ◌-ℤ◌ ◌+ℤ◌ get has_dispute courier_user current_setting find_period
    weekly_bounds
complete_all-stops_example =
    complete_all-stops 1 44 45 900000000 overpaid_market {order = dropped} {courier_id = 5}
      {user_id = 50} {id = 20} {period = overpaid_week} ((2, 46, 47) ∷ []) 0
      overpaid_market-WellFormed (refl, tt) refl refl refl refl (ground arith) refl refl refl refl
      refl refl (ground arith) (ground arith)
