-- ===== src/Orders/Status.antt =====
-- The life of an order: the statuses (packages/contracts/src/orders.ts), the transition tables and
-- the decisions on them (apps/api/src/orders/order-domain.ts). A date is its `getTime()`.
use wassal.Prelude.{
  ℕ, ◌+◌, ◌*◌, Bool, true, false, ◌&&◌, ◌||◌, Option, none, some, List, [], ◌∷◌, leb, ◌==◌, is_some,
  not, Enum, ◌is◌, includes, if◌then◌else◌,
}

pub data OrderStatus : Type 0 where
  draft quoted searching_courier no_courier_available no_courier_available_final : OrderStatus
  courier_assigned courier_arriving_pickup at_pickup picked_up in_transit at_dropoff : OrderStatus
  delivered delivery_disputed delivery_failed returning_to_store : OrderStatus
  return_awaiting_merchant_confirmation returned completed cancelled : OrderStatus

unfoldable pub OrderStatus-discrete : Discrete OrderStatus
OrderStatus-discrete = hlevel

instance abbrev pub order_status_enum : Enum OrderStatus
order_status_enum = record { same = OrderStatus-discrete }

abbrev pub courier_acceptance_window_ms : ℕ
courier_acceptance_window_ms = 5 * 60 * 1000

abbrev pub maximum_dispatch_attempts : ℕ
maximum_dispatch_attempts = 2

abbrev pub free_merchant_cancellation_statuses : List OrderStatus
free_merchant_cancellation_statuses =
    draft ∷ quoted ∷ searching_courier ∷ no_courier_available ∷ no_courier_available_final
    ∷ courier_assigned ∷ courier_arriving_pickup ∷ at_pickup ∷ []

abbrev pub post_pickup_merchant_cancellation_statuses : List OrderStatus
post_pickup_merchant_cancellation_statuses =
    picked_up ∷ in_transit ∷ at_dropoff ∷ delivery_failed ∷ returning_to_store ∷ []

unfoldable pub acceptance_deadline : ℕ → ℕ
acceptance_deadline now = now + courier_acceptance_window_ms

unfoldable pub acceptance_is_expired : Option ℕ → ℕ → Bool
acceptance_is_expired none now = true
acceptance_is_expired (some expires_at) now = leb expires_at now

unfoldable pub is_free_merchant_cancellation_status : OrderStatus → Bool
is_free_merchant_cancellation_status status = includes free_merchant_cancellation_statuses status

unfoldable pub is_post_pickup_merchant_cancellation_status : OrderStatus → Bool
is_post_pickup_merchant_cancellation_status status =
    includes post_pickup_merchant_cancellation_statuses status

pub data CancellationKind : Type 0 where
  free return : CancellationKind

pub record CancellationDecision : Type 0 where
  pub kind : CancellationKind
  pub to_status : OrderStatus
  pub cancellation_charge_minor : ℕ

unfoldable pub merchant_cancellation_decision : OrderStatus → ℕ → Option CancellationDecision
unfolding is_free_merchant_cancellation_status is_post_pickup_merchant_cancellation_status
merchant_cancellation_decision status original_delivery_fee_minor =
    if is_free_merchant_cancellation_status status
    then some (record { kind = free; to_status = cancelled; cancellation_charge_minor = 0 })
    else if is_post_pickup_merchant_cancellation_status status
    then some (record {
      kind = return;
      to_status = returning_to_store;
      cancellation_charge_minor = original_delivery_fee_minor;
    })
    else none

unfoldable pub courier_search_timeout_status : ℕ → OrderStatus
courier_search_timeout_status dispatch_attempt_count =
    if leb maximum_dispatch_attempts dispatch_attempt_count
    then no_courier_available_final
    else no_courier_available

unfoldable pub can_retry_courier_search : OrderStatus → ℕ → Option ℕ → Bool
can_retry_courier_search status dispatch_attempt_count courier_id =
    status is no_courier_available && dispatch_attempt_count == 1 && not (is_some courier_id)

-- `allOrderTransitions`.
unfoldable pub all_order_transitions : OrderStatus → List OrderStatus
all_order_transitions draft = quoted ∷ cancelled ∷ []
all_order_transitions quoted = quoted ∷ searching_courier ∷ cancelled ∷ []
all_order_transitions searching_courier =
    courier_assigned ∷ no_courier_available ∷ no_courier_available_final ∷ cancelled ∷ []
all_order_transitions no_courier_available = searching_courier ∷ cancelled ∷ []
all_order_transitions no_courier_available_final = cancelled ∷ []
all_order_transitions courier_assigned = courier_arriving_pickup ∷ cancelled ∷ []
all_order_transitions courier_arriving_pickup = at_pickup ∷ cancelled ∷ []
all_order_transitions at_pickup = picked_up ∷ cancelled ∷ []
all_order_transitions picked_up = in_transit ∷ delivery_failed ∷ returning_to_store ∷ []
all_order_transitions in_transit = at_dropoff ∷ delivery_failed ∷ returning_to_store ∷ []
all_order_transitions at_dropoff = delivered ∷ delivery_failed ∷ returning_to_store ∷ []
all_order_transitions delivered = delivery_disputed ∷ completed ∷ []
all_order_transitions delivery_disputed = completed ∷ delivery_failed ∷ returning_to_store ∷ []
all_order_transitions delivery_failed = returning_to_store ∷ []
all_order_transitions returning_to_store =
    returning_to_store ∷ return_awaiting_merchant_confirmation ∷ []
all_order_transitions return_awaiting_merchant_confirmation = returned ∷ []
all_order_transitions returned = completed ∷ []
all_order_transitions completed = []
all_order_transitions cancelled = []

-- Every status is a key of the table, so the `in` test of the source holds of each.
unfoldable pub can_transition_in_phase_three : OrderStatus → OrderStatus → Bool
unfolding all_order_transitions
can_transition_in_phase_three from to = includes (all_order_transitions from) to

-- `phaseTwoTransitions`; `none` is a status that is no key of it.
unfoldable pub phase_two_transitions : OrderStatus → Option (List OrderStatus)
phase_two_transitions draft = some (quoted ∷ cancelled ∷ [])
phase_two_transitions quoted = some (quoted ∷ searching_courier ∷ cancelled ∷ [])
phase_two_transitions searching_courier =
    some (no_courier_available ∷ no_courier_available_final ∷ cancelled ∷ [])
phase_two_transitions no_courier_available = some (searching_courier ∷ cancelled ∷ [])
phase_two_transitions no_courier_available_final = some (cancelled ∷ [])
phase_two_transitions cancelled = some []
phase_two_transitions _ = none

unfoldable pub can_transition_in_phase_two : OrderStatus → OrderStatus → Bool
unfolding phase_two_transitions
can_transition_in_phase_two from to = elim (phase_two_transitions from) [
  | none ↦ false
  | some targets ↦ includes targets to
]

unfoldable pub can_cancel_in_phase_two : OrderStatus → Option ℕ → Bool
unfolding is_free_merchant_cancellation_status
can_cancel_in_phase_two status courier_id =
    is_free_merchant_cancellation_status status
    && (not (is_some courier_id)
        || includes (courier_assigned ∷ courier_arriving_pickup ∷ at_pickup ∷ []) status)
