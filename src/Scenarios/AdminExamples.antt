-- ===== src/Scenarios/AdminExamples.antt =====
-- The laws of reviews, of prices and of payments by zone at small inputs.
use Prim.Native.String.{String}
use wassal.Prelude.{
  ◌+◌, ◌-◌, ◌≤◌, ◌<◌, ◌≡◌, ◌⊎◌, refl, Bool, true, false, none, some, List, [], ◌∷◌, arith, sum_by,
  All, ◌is◌, ◌==◌,
}
use wassal.Prelude.Int.{pos}
use wassal.Store.{
  Database, PaymentProof, PaymentProofStatus, payment_proof_status_enum, pending_confirmation,
  PaymentProofStatus-discrete,
}
use wassal.Store.Table.{get}
use wassal.Finance.Payments.{record_external_payment_in_transaction}
use wassal.Service.Transaction.{Result, ok, err, proof_reviewed_concurrently}
use wassal.PaymentProofs.Review.{ApproveInput, approved_payment, approve_transaction, approve_proof}
use wassal.PaymentProofs.Once.{approve-once}
use wassal.Pricing.Price.{
  PricingRuleSnapshot, PricingInput, PriceBreakdown, percentage, medium, calculate_price,
}
use wassal.Pricing.Bounds.{calculate_price-adds_up}
use wassal.Pricing.Rules.{ResolvablePricingRule, resolve_pricing_rule}
use wassal.Pricing.Ranking.{Applies, Outranks}
use wassal.Pricing.Best.{IsIn, resolve_pricing_rule-best}
use wassal.Admin.Domain.{
  ZoneSettlementLine, ZonePaymentAllocation, dues_of_period, attribute_allocation, due_by_zone,
  positive_dues,
}
use wassal.Admin.Shares.{IsShare, total_due, attribute_allocation-whole}
use wassal.Scenarios.FinanceExamples.{utc, books}
use wassal.Service.Idempotency.{claim_idempotency}
use wassal.Service.Queries.{courier_user}
use wassal.Finance.Postings.{has_payment_key, payable_settlements, refresh_all}
use wassal.Finance.Domain.{SettlementStatus-discrete}
use wassal.Finance.Settlement.{has_source_key}
use wassal.Finance.Accounts.{SourceKey-discrete}

abbrev is_empty : String → Bool
is_empty text = false

abbrev receipt : PaymentProof
receipt = record {
  courier_id = 5;
  submitted_amount_minor = 400;
  approved_amount_minor = none;
  paid_at = 1500;
  status = pending_confirmation;
  review_reason = none;
  reviewed_by_id = none;
  reviewed_at = none;
  linked_external_payment_id = none;
  version = 1;
}

abbrev submitted : Database
submitted = record books { payment_proofs = (60, receipt) ∷ [] }

abbrev in_whole : ApproveInput
in_whole = record { version = 1; approved_amount_minor = 400; reason = none }

abbrev approval : Result Database
approval = approve_transaction utc is_empty 90 60 in_whole 6 7 30 11 1600 submitted

abbrev reviewed : Database
reviewed = elim approval [ ok db ↦ db | err e ↦ books ]

approves : approval ≡ ok reviewed
unfolding approve_transaction get PaymentProofStatus-discrete record_external_payment_in_transaction
    claim_idempotency courier_user payable_settlements SettlementStatus-discrete has_payment_key
    has_source_key SourceKey-discrete refresh_all
approves = refl

approve-once_example :
    (current proof' : PaymentProof) × (paid : Database) × (get 60 submitted.payment_proofs
      ≡ some current)
    × (record_external_payment_in_transaction utc 90 current.courier_id
          (approved_payment in_whole current)
          6
          7
          30
          11
          1600
          submitted
        ≡ ok (30, paid))
    × (reviewed.accounts ≡ paid.accounts)
    × (0 < 400)
    × (400 ≤ current.submitted_amount_minor)
    × (get 60 reviewed.payment_proofs ≡ some proof')
    × (proof'.linked_external_payment_id ≡ some 30)
    × (proof'.approved_amount_minor ≡ some 400)
    × ((proof'.status is PaymentProofStatus.approved) ≡ (400 == current.submitted_amount_minor))
    × (approve_transaction utc is_empty 91 60 in_whole 8 9 32 13 1800 reviewed
        ≡ err proof_reviewed_concurrently)
    × (approve_proof utc is_empty 91 60 in_whole 8 9 32 13 1800 reviewed ≡ ok reviewed)
approve-once_example =
    approve-once utc is_empty 90 60 in_whole 6 7 30 11 1600 submitted reviewed 91 in_whole 8 9 32 13
      1800 approves

abbrev tariff : PricingRuleSnapshot
tariff = record {
  base_fee_minor = 1500;
  included_distance_meters = 2000;
  per_kilometer_minor = 300;
  minimum_fee_minor = 2500;
  small_package_surcharge_minor = 0;
  medium_package_surcharge_minor = 200;
  large_package_surcharge_minor = 500;
  weight_bands =
      record { up_to_grams = 5000; surcharge_minor = 100 }
      ∷ record { up_to_grams = 1000; surcharge_minor = 0 }
      ∷ [];
  fragile_surcharge_minor = 150;
  thermal_bag_surcharge_minor = 250;
  commission_type = percentage;
  commission_value = 1500;
  tax_basis_points = 1400;
  return_trip_percentage_basis_points = none;
}

abbrev parcel : PricingInput
parcel = record {
  distance_meters = 3500;
  package_size = medium;
  weight_grams = 2000;
  fragile = true;
  requires_thermal_bag = false;
}

calculate_price-adds_up_example :
    (price : PriceBreakdown) × (calculate_price tariff parcel none ≡ price)
    × (price.merchant_total_minor
        ≡ price.base_fee_minor + price.distance_charge_minor + price.package_surcharge_minor
          + price.weight_surcharge_minor + price.fragile_surcharge_minor
          + price.thermal_bag_surcharge_minor + price.tax_minor)
    × (2500 + price.tax_minor ≤ price.merchant_total_minor)
    × (price.platform_commission_minor ≤ price.merchant_total_minor)
    × (price.estimated_courier_earning_minor
        ≡ pos (price.merchant_total_minor - price.platform_commission_minor))
calculate_price-adds_up_example = calculate_price-adds_up tariff parcel none (ground arith)

-- A rule for every zone, and one of zone 3 that is over.
abbrev rules : List ResolvablePricingRule
rules =
    record { id = 1; service_zone_id = none; priority = 5; effective_from = 0; effective_to = none }
    ∷ record {
      id = 2;
      service_zone_id = some 3;
      priority = 1;
      effective_from = 0;
      effective_to = some 900;
    }
    ∷ []

resolve_pricing_rule-best_example :
    ((resolve_pricing_rule 3 1000 rules ≡ none) × All (λ r. ¬ Applies 3 1000 r) rules)
    ⊎ ((best : ResolvablePricingRule) × (resolve_pricing_rule 3 1000 rules ≡ some best)
        × IsIn rules best
        × Applies 3 1000 best
        × All (λ r. ¬ Applies 3 1000 r ⊎ Outranks best r) rules)
resolve_pricing_rule-best_example = resolve_pricing_rule-best 3 1000 rules

abbrev zone_lines : List ZoneSettlementLine
zone_lines =
    record {
      settlement_period_id = 20;
      service_zone_id = 3;
      amount_minor = pos 200;
      courier_id = 5;
      occurred_at = 500;
    }
    ∷ record {
      settlement_period_id = 20;
      service_zone_id = 4;
      amount_minor = pos 100;
      courier_id = 5;
      occurred_at = 600;
    }
    ∷ []

abbrev transferred : ZonePaymentAllocation
transferred = record {
  settlement_period_id = 20;
  payment_id = 30;
  amount_minor = 100;
  paid_at = 1500;
  courier_id = 5;
}

all_due : total_due (dues_of_period 20 zone_lines) ≡ 300
unfolding positive_dues due_by_zone
all_due = refl

something_due : 0 < total_due (dues_of_period 20 zone_lines)
something_due = rw all_due (ground arith)

attribute_allocation-whole_example :
    (sum_by (λ x. x.attributed_amount_minor) (attribute_allocation zone_lines transferred) ≡ 100)
    × All
        (λ x.
          IsShare 100 (dues_of_period 20 zone_lines) x.service_zone_id x.attributed_amount_minor)
        (attribute_allocation zone_lines transferred)
attribute_allocation-whole_example = attribute_allocation-whole zone_lines transferred something_due
