-- ===== src/Admin/Domain.antt =====
-- Prices of zones and payments by zone: apps/api/src/admin/admin-operations-domain.ts.
use wassal.Prelude.{
  ℕ, ◌+◌, ◌-◌, ◌*◌, ◌/◌, ◌%◌, Bool, ◌||◌, List, [], ◌∷◌, ◌++◌, max, leb, ltb, ◌==◌, ◌is◌, not,
  filter, map, sum_by, Enum, if◌then◌else◌,
}
use wassal.Prelude.Int.{ℤ, ◌+ℤ◌, pos_part}
use wassal.Prelude.Sort.{sort_by}
use wassal.Finance.Domain.{Outcome, done, invalid_input, max_safe_integer}

unfoldable pub core_delivery_price_minor : ℕ → ℕ → ℕ → ℕ → ℕ
core_delivery_price_minor base_fee_minor included_distance_meters per_kilometer_minor
      distance_meters =
    let extra_meters = max 0 (distance_meters - included_distance_meters) in
    base_fee_minor + (extra_meters * per_kilometer_minor + 500) / 1000

unfoldable pub return_trip_price_minor : ℕ → ℕ → Outcome ℕ
return_trip_price_minor original_trip_price_minor percentage_basis_points =
    if not (leb original_trip_price_minor max_safe_integer) || ltb 10000 percentage_basis_points
    then invalid_input
    else done ((original_trip_price_minor * percentage_basis_points + 5000) / 10000)

pub data PricingStatus : Type 0 where
  draft active inactive retired : PricingStatus

unfoldable pub PricingStatus-discrete : Discrete PricingStatus
PricingStatus-discrete = hlevel

instance abbrev pub pricing_status_enum : Enum PricingStatus
pricing_status_enum = record { same = PricingStatus-discrete }

pub data PricingRemovalDecision : Type 0 where
  block_active archive_used delete : PricingRemovalDecision

unfoldable pub pricing_removal_decision : PricingStatus → ℕ → ℕ → PricingRemovalDecision
pricing_removal_decision status quote_count order_count =
    if status is active
    then block_active
    else if ltb 0 quote_count || ltb 0 order_count
    then archive_used
    else delete

pub record ZoneSettlementLine : Type 0 where
  pub settlement_period_id : ℕ
  pub service_zone_id : ℕ
  pub amount_minor : ℤ
  pub courier_id : ℕ
  pub occurred_at : ℕ

pub record ZonePaymentAllocation : Type 0 where
  pub settlement_period_id : ℕ
  pub payment_id : ℕ
  pub amount_minor : ℕ
  pub paid_at : ℕ
  pub courier_id : ℕ

pub record AttributedZonePayment : Type 0 where
  pub allocation : ZonePaymentAllocation
  pub service_zone_id : ℕ
  pub attributed_amount_minor : ℕ

-- `dueByZone.set(zone, (dueByZone.get(zone) ?? 0) + amount)`: a `Map` in the order of insertion.
unfoldable pub add_due : ℕ → ℤ → List (ℕ × ℤ) → List (ℕ × ℤ)
add_due zone_id amount_minor [] = (zone_id, amount_minor) ∷ []
add_due zone_id amount_minor ((id, due) ∷ rest) =
    if id == zone_id
    then (id, due +ℤ amount_minor) ∷ rest
    else (id, due) ∷ add_due zone_id amount_minor rest

-- The loop over the lines of the period.
unfoldable pub due_by_zone : List ZoneSettlementLine → List (ℕ × ℤ) → List (ℕ × ℤ)
unfolding add_due
due_by_zone [] due = due
due_by_zone (line ∷ lines) due =
    due_by_zone lines (add_due line.service_zone_id line.amount_minor due)

pub record ZoneDue : Type 0 where
  pub service_zone_id : ℕ
  pub amount : ℕ

-- `positive`: what is due from the zones, where something is.
unfoldable pub positive_dues : List (ℕ × ℤ) → List ZoneDue
positive_dues [] = []
positive_dues ((id, due) ∷ rest) =
    let others = positive_dues rest in
    if ltb 0 (pos_part due)
    then record { service_zone_id = id; amount = pos_part due } ∷ others
    else others

pub record Apportioned : Type 0 where
  pub service_zone_id : ℕ
  pub attributed_amount_minor : ℕ
  pub remainder : ℕ

-- The share of a zone, rounded down, and what the rounding leaves.
abbrev pub apportion : ℕ → ℕ → ZoneDue → Apportioned
apportion amount_minor total row = record {
  service_zone_id = row.service_zone_id;
  attributed_amount_minor = amount_minor * row.amount / total;
  remainder = amount_minor * row.amount % total;
}

-- The comparison of the sort: the largest remainder first, then by zone.
abbrev pub apportioned_before : Apportioned → Apportioned → Bool
apportioned_before left right =
    if left.remainder == right.remainder
    then leb left.service_zone_id right.service_zone_id
    else ltb right.remainder left.remainder

-- The loop that gives one each to the first rows.
unfoldable pub spread_remaining : ℕ → List Apportioned → List Apportioned
spread_remaining remaining [] = []
spread_remaining remaining (row ∷ rows) =
    let rest = spread_remaining (remaining - 1) rows in
    if remaining == 0
    then row ∷ rows
    else record row { attributed_amount_minor = row.attributed_amount_minor + 1 } ∷ rest

-- The rows of one allocation, for what is due from the zones of its period.
unfoldable pub apportion_payment : ℕ → List ZoneDue → List Apportioned
unfolding spread_remaining
apportion_payment amount_minor positive =
    let total = sum_by (λ row. row.amount) positive in
    let apportioned = map (apportion amount_minor total) positive in
    let remaining = amount_minor - sum_by (λ row. row.attributed_amount_minor) apportioned in
    if total == 0 then [] else spread_remaining remaining (sort_by apportioned_before apportioned)

abbrev pub dues_of_period : ℕ → List ZoneSettlementLine → List ZoneDue
dues_of_period settlement_period_id lines =
    positive_dues
      (due_by_zone (filter (λ line. line.settlement_period_id == settlement_period_id) lines) [])

-- `{ ...allocation, serviceZoneId, attributedAmountMinor }`.
abbrev pub attributed_row : ZonePaymentAllocation → Apportioned → AttributedZonePayment
attributed_row allocation row = record {
  allocation = allocation;
  service_zone_id = row.service_zone_id;
  attributed_amount_minor = row.attributed_amount_minor;
}

-- The body of the loop over the allocations.
unfoldable pub attribute_allocation :
    List ZoneSettlementLine → ZonePaymentAllocation → List AttributedZonePayment
unfolding apportion_payment due_by_zone positive_dues
attribute_allocation lines allocation = map (attributed_row allocation) (
    apportion_payment allocation.amount_minor
      (dues_of_period allocation.settlement_period_id lines))

unfoldable pub attribute_payments_to_zones :
    List ZoneSettlementLine → List ZonePaymentAllocation → List AttributedZonePayment
unfolding attribute_allocation
attribute_payments_to_zones lines [] = []
attribute_payments_to_zones lines (allocation ∷ allocations) =
    attribute_allocation lines allocation ++ attribute_payments_to_zones lines allocations
