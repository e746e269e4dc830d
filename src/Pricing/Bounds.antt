-- ===== src/Pricing/Bounds.antt =====
-- What a price adds up to, and its bounds (`calculatePrice` of apps/api/src/orders/order-domain.ts).
use native.Mathlib.Nat.{mul-le-mul_left}
use wassal.Prelude.{ℕ, ◌+◌, ◌-◌, ◌≤◌, ◌≡◌, refl, Option, none, some, arith}
use wassal.Prelude.Int.{pos, ◌-ℤ◌}
use wassal.Pricing.Price.{
  PricingRuleSnapshot, PricingInput, PriceBreakdown, round_ratio, commission_rate, commission_of,
  calculate_price,
}

share_at_most :
    (amount basis_points : ℕ)
    → basis_points ≤ 10000
    → round_ratio amount basis_points 10000 ≤ amount
share_at_most amount basis_points h =
    let product = mul-le-mul_left amount h in omega (arith, product)

commission_of-at_most :
    (rule : PricingRuleSnapshot) (basis_points : Option ℕ) (total : ℕ)
    → commission_rate rule basis_points ≤ 10000
    → commission_of rule basis_points total ≤ total
commission_of-at_most rule (some basis_points) total h = share_at_most total basis_points h
commission_of-at_most rule none total h =
    ground (arith, h, share_at_most total rule.commission_value)

pos_difference : (a b : ℕ) → b ≤ a → pos a -ℤ pos b ≡ pos (a - b)
unfolding ◌-ℤ◌
pos_difference a b h = ground arith

module _ (rule : PricingRuleSnapshot) (input : PricingInput)
    (commission_basis_points : Option ℕ) where
  -- A price whose commission is not above 10000 basis points: the total is the sum of the fees and the
  -- tax, before tax it is not below the rule's minimum fee, and what the platform takes and what the
  -- courier earns are not negative and add up to the total.
  pub calculate_price-adds_up :
      commission_rate rule commission_basis_points ≤ 10000
      → (price : PriceBreakdown) × (calculate_price rule input commission_basis_points ≡ price)
        × (price.merchant_total_minor
            ≡ price.base_fee_minor + price.distance_charge_minor + price.package_surcharge_minor
              + price.weight_surcharge_minor + price.fragile_surcharge_minor
              + price.thermal_bag_surcharge_minor + price.tax_minor)
        × (rule.minimum_fee_minor + price.tax_minor ≤ price.merchant_total_minor)
        × (price.platform_commission_minor ≤ price.merchant_total_minor)
        × (price.estimated_courier_earning_minor
            ≡ pos (price.merchant_total_minor - price.platform_commission_minor))
  unfolding calculate_price
  calculate_price-adds_up h =
      let price = calculate_price rule input commission_basis_points in
      let share = commission_of-at_most rule commission_basis_points price.merchant_total_minor h in
      (
        price,
        refl,
        omega arith,
        omega arith,
        share,
        pos_difference price.merchant_total_minor price.platform_commission_minor share,
      )
