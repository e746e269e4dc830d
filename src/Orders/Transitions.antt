-- ===== src/Orders/Transitions.antt =====
-- The tables of transitions and the decision on a cancellation, side by side.
use wassal.Prelude.{ℕ, ◌≡◌, ◌⊎◌, true, false, none, some, arith, includes, [], ◌∷◌}
use wassal.Orders.Status.{
  OrderStatus, order_status_enum, cancelled, returning_to_store, free, return,
  merchant_cancellation_decision, can_transition_in_phase_two, can_transition_in_phase_three,
}

-- Every transition of phase two is one of phase three.
pub phase_two-phase_three :
    (from to : OrderStatus)
    → can_transition_in_phase_two from to ≡ true
    → can_transition_in_phase_three from to ≡ true
unfolding can_transition_in_phase_two can_transition_in_phase_three
phase_two-phase_three from to h = ground arith

-- A merchant's cancellation is decided by the status alone. Up to the courier's arrival at the pickup it
-- cancels the order for free; with the parcel on its way, at the dropoff, after a failed delivery or on
-- its way back it sends the parcel back and charges the fee; each goes along the table of phase three.
-- From the delivery on, with a return that awaits its confirmation, and when the order is over, it is
-- refused, and the table does not lead to cancelled either.
pub merchant_cancellation_decision-cases :
    (status : OrderStatus) (fee : ℕ)
    → ((includes
            (OrderStatus.draft ∷ OrderStatus.quoted ∷ OrderStatus.searching_courier
              ∷ OrderStatus.no_courier_available ∷ OrderStatus.no_courier_available_final
              ∷ OrderStatus.courier_assigned ∷ OrderStatus.courier_arriving_pickup
              ∷ OrderStatus.at_pickup ∷ [])
            status
          ≡ true)
        × (merchant_cancellation_decision status fee
            ≡ some (record { kind = free; to_status = cancelled; cancellation_charge_minor = 0 }))
        × (can_transition_in_phase_three status cancelled ≡ true))
      ⊎ ((includes
              (OrderStatus.picked_up ∷ OrderStatus.in_transit ∷ OrderStatus.at_dropoff
                ∷ OrderStatus.delivery_failed ∷ OrderStatus.returning_to_store ∷ [])
              status
            ≡ true)
          × (merchant_cancellation_decision status fee
              ≡ some (record {
                kind = return;
                to_status = returning_to_store;
                cancellation_charge_minor = fee;
              }))
          × (can_transition_in_phase_three status returning_to_store ≡ true))
      ⊎ ((includes
              (OrderStatus.delivered ∷ OrderStatus.delivery_disputed
                ∷ OrderStatus.return_awaiting_merchant_confirmation ∷ OrderStatus.returned
                ∷ OrderStatus.completed ∷ OrderStatus.cancelled ∷ [])
              status
            ≡ true)
          × (merchant_cancellation_decision status fee ≡ none)
          × (can_transition_in_phase_three status cancelled ≡ false))
unfolding merchant_cancellation_decision can_transition_in_phase_three
merchant_cancellation_decision-cases status fee = ground arith
