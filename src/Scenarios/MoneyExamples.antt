-- ===== src/Scenarios/MoneyExamples.antt =====
-- The laws of money, of completions, of roles and of couriers at small inputs.
use wassal.Prelude.{
  ℕ, ◌+◌, ◌*◌, ◌≡◌, ◌≢◌, ◌≤◌, ◌<◌, ◌↔◌, ◌⊎◌, refl, true, false, none, some, List, [], ◌∷◌, arith,
  includes, sum_by,
}
use wassal.Prelude.Int.{pos, ◌+ℤ◌, neg_part, ◌-ℤ◌}
use wassal.Prelude.Sort.{sort_by}
use wassal.Orders.Status.{
  OrderStatus, order_status_enum, draft, cancelled, returning_to_store, free, return,
  can_transition_in_phase_two, can_transition_in_phase_three, merchant_cancellation_decision,
  OrderStatus-discrete,
}
use wassal.Orders.Transitions.{phase_two-phase_three, merchant_cancellation_decision-cases}
use wassal.Orders.Finalization.{
  FinalizeInput, finalize_in_transaction, complete_order, post_commission,
}
use wassal.Orders.FinalizedOnce.{finalize-once}
use wassal.Finance.Domain.{
  total_of, LedgerType-discrete, done, round_basis_points, OpenSettlement, Allocation,
  settlement_before, allocate_oldest_settlements, settlement_projection, Projection, paid, waived,
  overdue, settlement_status, settlement_status_enum,
}
use wassal.Finance.Allocation.{IsByAge, IsOldestFirst, allocate_oldest_settlements-IsOldestFirst}
use wassal.Finance.Arithmetic.{
  balance, commission_line, round_basis_points-nearest, settlement_status-settled,
  settlement_projection-commission,
}
use wassal.Finance.Settlement.{new_period, has_source_key}
use wassal.Finance.Calendar.{Bounds, weekly_settlement_bounds}
use wassal.Worker.Complete.{period_with, weekly_bounds}
use wassal.Worker.Agreement.{cairo_summer, period_with-projection, weeks_differ}
use wassal.Store.{Database, OrderEventSource, admin_confirmed_delivery}
use wassal.Service.Transaction.{Result, ok, err}
use wassal.Scenarios.{market, riding, searching}
use wassal.Store.Table.{get}
use wassal.Service.Queries.{courier_user, current_setting}

round_basis_points-nearest_example :
    (share : ℕ) × (round_basis_points 12345 1500 ≡ done share)
    × (share ≤ 12345)
    × (10000 * share ≤ 12345 * 1500 + 5000)
    × (12345 * 1500 + 5000 < 10000 * share + 10000)
round_basis_points-nearest_example =
    round_basis_points-nearest 12345 1500 (ground arith) (ground arith)

-- Two weeks, the later one first.
abbrev two_weeks : List OpenSettlement
two_weeks =
    record { id = 2; remaining_amount_minor = 700; period_start = 2000 }
    ∷ record { id = 1; remaining_amount_minor = 300; period_start = 1000 }
    ∷ []

allocate_oldest_settlements-IsOldestFirst_example :
    (allocations : List Allocation) × (allocate_oldest_settlements 500 two_weeks ≡ done allocations)
    × IsByAge (sort_by settlement_before two_weeks)
    × IsOldestFirst 500 (sort_by settlement_before two_weeks) allocations
    × (sum_by (λ (a : Allocation). a.amount_minor) allocations ≡ 500)
allocate_oldest_settlements-IsOldestFirst_example =
    allocate_oldest_settlements-IsOldestFirst 500 two_weeks (ground arith) (ground arith)
      (ground arith)

-- A period with a commission of 500 and payments of 800.
abbrev overpaid : Projection
overpaid = settlement_projection (commission_line 500 ∷ []) 800

abbrev charged : Projection
charged = settlement_projection (commission_line 200 ∷ commission_line 500 ∷ []) 800

settlement_projection-commission_example :
    (charged.total_commission_due_minor ≡ pos 200 +ℤ overpaid.total_commission_due_minor)
    × (charged.total_payments_minor ≡ overpaid.total_payments_minor)
    × (charged.total_adjustments_minor ≡ overpaid.total_adjustments_minor)
    × (charged.total_waived_minor ≡ overpaid.total_waived_minor)
    × (charged.remaining_amount_minor ≤ overpaid.remaining_amount_minor + 200)
    × ((charged.remaining_amount_minor ≡ overpaid.remaining_amount_minor + 200)
        ↔ ((neg_part (balance overpaid) ≡ 0) ⊎ (◌≡◌ {A = ℕ} 200 0)))
settlement_projection-commission_example =
    settlement_projection-commission 200 (commission_line 500 ∷ []) 800

settlement_status-settled_example :
    ((includes (paid ∷ waived ∷ []) (settlement_status cairo_summer false overpaid 5000 9000)
        ≡ true)
      ↔ (overpaid.remaining_amount_minor ≡ 0))
    × ((settlement_status cairo_summer false overpaid 5000 9000 ≡ overdue)
        ↔ ((0 < overpaid.remaining_amount_minor) × (5000 < 9000)))
settlement_status-settled_example = settlement_status-settled cairo_summer overpaid 5000 9000

abbrev week : Bounds
week = record { period_start = 0; period_end = 604800000; due_at = 864000000 }

nothing_remains : (new_period 5 week).remaining_amount_minor ≡ overpaid.remaining_amount_minor
unfolding settlement_projection total_of LedgerType-discrete ◌+ℤ◌ ◌-ℤ◌
nothing_remains = refl

period_with-projection_example :
    ((period_with 200 (new_period 5 week)).remaining_amount_minor
      ≡ (settlement_projection
          (commission_line 200 ∷ commission_line 500 ∷ [])
          800).remaining_amount_minor)
    ↔ ((neg_part (balance overpaid) ≡ 0) ⊎ (◌≡◌ {A = ℕ} 200 0))
period_with-projection_example =
    period_with-projection (new_period 5 week) 200 (commission_line 500 ∷ []) 800 nothing_remains

weeks_differ_example :
    (weekly_settlement_bounds cairo_summer 1700000000000 3).period_start
    ≢ (weekly_bounds 1700000000000 3).period_start
weeks_differ_example = weeks_differ 1700000000000 3 (ground arith)

abbrev resolution : FinalizeInput
resolution = record {
  expected_statuses = OrderStatus.delivery_disputed ∷ [];
  completion_source = admin_confirmed_delivery;
  actor_id = some 90;
  actor_role = none;
  event_source = OrderEventSource.admin_web;
}

abbrev completion : Result Database
completion =
    finalize_in_transaction cairo_summer 1 resolution 44 45 900000000
      (market (riding OrderStatus.delivery_disputed))

abbrev completed_market : Database
completed_market = elim completion [ ok db ↦ db | err e ↦ market searching ]

completes : completion ≡ ok completed_market
unfolding finalize_in_transaction get courier_user OrderStatus-discrete complete_order
    has_source_key current_setting post_commission
completes = refl

finalize-once_example :
    finalize_in_transaction cairo_summer 1 resolution 46 47 900000001 completed_market
    ≡ ok completed_market
finalize-once_example =
    finalize-once cairo_summer 1 resolution 44 45 900000000
      (market (riding OrderStatus.delivery_disputed)) resolution 46 47 900000001 completes

phase_two-phase_three_example : can_transition_in_phase_three draft cancelled ≡ true
unfolding can_transition_in_phase_two OrderStatus-discrete
phase_two-phase_three_example = phase_two-phase_three draft cancelled refl

merchant_cancellation_decision-cases_example :
    ((includes
          (OrderStatus.draft ∷ OrderStatus.quoted ∷ OrderStatus.searching_courier
            ∷ OrderStatus.no_courier_available ∷ OrderStatus.no_courier_available_final
            ∷ OrderStatus.courier_assigned ∷ OrderStatus.courier_arriving_pickup
            ∷ OrderStatus.at_pickup ∷ [])
          OrderStatus.picked_up
        ≡ true)
      × (merchant_cancellation_decision OrderStatus.picked_up 5000
          ≡ some (record { kind = free; to_status = cancelled; cancellation_charge_minor = 0 }))
      × (can_transition_in_phase_three OrderStatus.picked_up cancelled ≡ true))
    ⊎ ((includes
            (OrderStatus.picked_up ∷ OrderStatus.in_transit ∷ OrderStatus.at_dropoff
              ∷ OrderStatus.delivery_failed ∷ OrderStatus.returning_to_store ∷ [])
            OrderStatus.picked_up
          ≡ true)
        × (merchant_cancellation_decision OrderStatus.picked_up 5000
            ≡ some (record {
              kind = return;
              to_status = returning_to_store;
              cancellation_charge_minor = 5000;
            }))
        × (can_transition_in_phase_three OrderStatus.picked_up returning_to_store ≡ true))
    ⊎ ((includes
            (OrderStatus.delivered ∷ OrderStatus.delivery_disputed
              ∷ OrderStatus.return_awaiting_merchant_confirmation ∷ OrderStatus.returned
              ∷ OrderStatus.completed ∷ OrderStatus.cancelled ∷ [])
            OrderStatus.picked_up
          ≡ true)
        × (merchant_cancellation_decision OrderStatus.picked_up 5000 ≡ none)
        × (can_transition_in_phase_three OrderStatus.picked_up cancelled ≡ false))
merchant_cancellation_decision-cases_example =
    merchant_cancellation_decision-cases OrderStatus.picked_up 5000
