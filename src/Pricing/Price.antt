-- ===== src/Pricing/Price.antt =====
-- The price of a delivery: `calculatePrice` of apps/api/src/orders/order-domain.ts. The numbers of the
-- source are whole, and not negative but for the courier's earning.
use wassal.Prelude.{
  ℕ, ◌+◌, ◌-◌, ◌*◌, ◌/◌, Bool, Option, none, some, List, [], ◌∷◌, min, max, leb, find, get_or,
  if◌then◌else◌, is_some,
}
use wassal.Prelude.Int.{ℤ, pos, ◌-ℤ◌}
use wassal.Prelude.Sort.{sort_by}

pub data PackageSize : Type 0 where
  small medium large : PackageSize

pub record PricingInput : Type 0 where
  pub distance_meters : ℕ
  pub package_size : PackageSize
  pub weight_grams : ℕ
  pub fragile : Bool
  pub requires_thermal_bag : Bool

pub record WeightBand : Type 0 where
  pub up_to_grams : ℕ
  pub surcharge_minor : ℕ

pub data CommissionType : Type 0 where
  percentage fixed : CommissionType

pub record PricingRuleSnapshot : Type 0 where
  pub base_fee_minor : ℕ
  pub included_distance_meters : ℕ
  pub per_kilometer_minor : ℕ
  pub minimum_fee_minor : ℕ
  pub small_package_surcharge_minor : ℕ
  pub medium_package_surcharge_minor : ℕ
  pub large_package_surcharge_minor : ℕ
  pub weight_bands : List WeightBand
  pub fragile_surcharge_minor : ℕ
  pub thermal_bag_surcharge_minor : ℕ
  pub commission_type : CommissionType
  pub commission_value : ℕ
  pub tax_basis_points : ℕ
  pub return_trip_percentage_basis_points : Option ℕ

pub record PriceBreakdown : Type 0 where
  pub base_fee_minor : ℕ
  pub distance_charge_minor : ℕ
  pub package_surcharge_minor : ℕ
  pub weight_surcharge_minor : ℕ
  pub fragile_surcharge_minor : ℕ
  pub thermal_bag_surcharge_minor : ℕ
  pub discount_minor : ℕ
  pub surge_adjustment_minor : ℕ
  pub tax_minor : ℕ
  pub merchant_total_minor : ℕ
  pub estimated_courier_earning_minor : ℤ
  pub platform_commission_minor : ℕ
  pub platform_commission_basis_points : ℕ
  pub return_trip_percentage_basis_points : ℕ
  pub estimated_return_trip_price_minor : ℕ

-- The divisors of the source are 1000 and 10000, so that half of one is whole.
abbrev pub round_ratio : ℕ → ℕ → ℕ → ℕ
round_ratio multiplicand multiplier divisor = (multiplicand * multiplier + divisor / 2) / divisor

abbrev pub package_surcharge : PricingRuleSnapshot → PackageSize → ℕ
package_surcharge rule small = rule.small_package_surcharge_minor
package_surcharge rule medium = rule.medium_package_surcharge_minor
package_surcharge rule large = rule.large_package_surcharge_minor

-- `rule.weightBands.at(-1)`, of the bands in the order in which the rule has them.
abbrev pub last_band : List WeightBand → Option WeightBand
last_band [] = none
last_band (band ∷ []) = some band
last_band (band ∷ next ∷ bands) = last_band (next ∷ bands)

abbrev pub surcharge_of : Option WeightBand → ℕ
surcharge_of none = 0
surcharge_of (some band) = band.surcharge_minor

-- The lightest band that the weight fits in, else the last one.
unfoldable pub weight_surcharge : List WeightBand → ℕ → ℕ
weight_surcharge bands weight_grams =
    let fitting =
      find (λ band. leb weight_grams band.up_to_grams)
        (sort_by (λ left right. leb left.up_to_grams right.up_to_grams) bands) in
    if is_some fitting then surcharge_of fitting else surcharge_of (last_band bands)

-- The commission in basis points, and in piastres of the total.
abbrev pub commission_rate : PricingRuleSnapshot → Option ℕ → ℕ
commission_rate rule (some basis_points) = basis_points
commission_rate rule none = elim rule.commission_type [
  | percentage ↦ rule.commission_value
  | fixed ↦ 0
]

abbrev pub commission_of : PricingRuleSnapshot → Option ℕ → ℕ → ℕ
commission_of rule (some basis_points) total_minor = round_ratio total_minor basis_points 10000
commission_of rule none total_minor = elim rule.commission_type [
  | percentage ↦ round_ratio total_minor rule.commission_value 10000
  | fixed ↦ min rule.commission_value total_minor
]

unfoldable pub calculate_price : PricingRuleSnapshot → PricingInput → Option ℕ → PriceBreakdown
unfolding weight_surcharge
calculate_price rule input commission_basis_points =
    let billable_distance = max 0 (input.distance_meters - rule.included_distance_meters) in
    let raw_distance_charge = round_ratio billable_distance rule.per_kilometer_minor 1000 in
    let package_surcharge_minor = package_surcharge rule input.package_size in
    let weight_surcharge_minor = weight_surcharge rule.weight_bands input.weight_grams in
    let fragile_surcharge_minor = if input.fragile then rule.fragile_surcharge_minor else 0 in
    let thermal_bag_surcharge_minor =
      if input.requires_thermal_bag then rule.thermal_bag_surcharge_minor else 0 in
    let extras =
      package_surcharge_minor + weight_surcharge_minor + fragile_surcharge_minor
      + thermal_bag_surcharge_minor in
    let distance_charge_minor =
      max (max raw_distance_charge (rule.minimum_fee_minor - rule.base_fee_minor - extras)) 0 in
    let subtotal = rule.base_fee_minor + distance_charge_minor + extras in
    let tax_minor = round_ratio subtotal rule.tax_basis_points 10000 in
    let merchant_total_minor = subtotal + tax_minor in
    let platform_commission_minor =
      commission_of rule commission_basis_points merchant_total_minor in
    let return_percentage = get_or rule.return_trip_percentage_basis_points 7000 in
    record {
      base_fee_minor = rule.base_fee_minor;
      distance_charge_minor = distance_charge_minor;
      package_surcharge_minor = package_surcharge_minor;
      weight_surcharge_minor = weight_surcharge_minor;
      fragile_surcharge_minor = fragile_surcharge_minor;
      thermal_bag_surcharge_minor = thermal_bag_surcharge_minor;
      discount_minor = 0;
      surge_adjustment_minor = 0;
      tax_minor = tax_minor;
      merchant_total_minor = merchant_total_minor;
      estimated_courier_earning_minor = pos merchant_total_minor -ℤ pos platform_commission_minor;
      platform_commission_minor = platform_commission_minor;
      platform_commission_basis_points = commission_rate rule commission_basis_points;
      return_trip_percentage_basis_points = return_percentage;
      estimated_return_trip_price_minor = round_ratio merchant_total_minor return_percentage 10000;
    }
