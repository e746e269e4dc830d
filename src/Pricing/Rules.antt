-- ===== src/Pricing/Rules.antt =====
-- Which pricing rule applies: `resolvePricingRule`, `overlappingRulePairs` and `quoteIsExpired` of
-- apps/api/src/orders/order-domain.ts. A rule's id is a number, which `localeCompare` orders.
use wassal.Prelude.{
  ℕ, Bool, true, false, ◌&&◌, Option, none, some, List, [], ◌∷◌, ◌++◌, leb, ltb, ◌==◌, filter,
  get_or, if◌then◌else◌,
}
use wassal.Prelude.Sort.{sort_by}

pub record ResolvablePricingRule : Type 0 where
  pub id : ℕ
  pub service_zone_id : Option ℕ
  pub priority : ℕ
  pub effective_from : ℕ
  pub effective_to : Option ℕ

-- The filter: of every zone or of this one, and in force.
abbrev pub is_applicable : ℕ → ℕ → ResolvablePricingRule → Bool
is_applicable zone_id now rule =
    elim rule.service_zone_id [ none ↦ true | some zone ↦ zone == zone_id ]
    && leb rule.effective_from now
    && elim rule.effective_to [ none ↦ true | some end ↦ ltb now end ]

-- `Number(rule.serviceZoneId !== null)`.
abbrev pub specificity : ResolvablePricingRule → ℕ
specificity rule = elim rule.service_zone_id [ none ↦ 0 | some zone ↦ 1 ]

-- The comparison of the sort: more specific, then of higher priority, then later, then by id.
abbrev pub rule_before : ResolvablePricingRule → ResolvablePricingRule → Bool
rule_before left right =
    if specificity right == specificity left
    then if right.priority == left.priority
      then if right.effective_from == left.effective_from
        then leb left.id right.id
        else ltb right.effective_from left.effective_from
      else ltb right.priority left.priority
    else ltb (specificity right) (specificity left)

abbrev pub first_rule : List ResolvablePricingRule → Option ResolvablePricingRule
first_rule [] = none
first_rule (rule ∷ rules) = some rule

unfoldable pub resolve_pricing_rule :
    ℕ → ℕ → List ResolvablePricingRule → Option ResolvablePricingRule
resolve_pricing_rule zone_id now rules =
    first_rule (sort_by rule_before (filter (is_applicable zone_id now) rules))

-- `new Date('9999-12-31')`.
abbrev pub end_of_time : ℕ
end_of_time = 253402214400000

abbrev pub same_scope : Option ℕ → Option ℕ → Bool
same_scope none none = true
same_scope (some a) (some b) = a == b
same_scope none (some b) = false
same_scope (some a) none = false

-- The test of a pair.
abbrev pub is_overlapping : ResolvablePricingRule → ResolvablePricingRule → Bool
is_overlapping left right =
    same_scope left.service_zone_id right.service_zone_id
    && ltb left.effective_from (get_or right.effective_to end_of_time)
    && ltb right.effective_from (get_or left.effective_to end_of_time)
    && left.priority == right.priority

-- The inner loop: a rule with those behind it.
abbrev pub pairs_with :
    ResolvablePricingRule
    → List ResolvablePricingRule
    → List (ResolvablePricingRule × ResolvablePricingRule)
pairs_with left [] = []
pairs_with left (right ∷ rules) =
    let rest = pairs_with left rules in
    if is_overlapping left right then (left, right) ∷ rest else rest

unfoldable pub overlapping_rule_pairs :
    List ResolvablePricingRule → List (ResolvablePricingRule × ResolvablePricingRule)
overlapping_rule_pairs [] = []
overlapping_rule_pairs (left ∷ rules) = pairs_with left rules ++ overlapping_rule_pairs rules

abbrev pub quote_is_expired : ℕ → ℕ → Bool
quote_is_expired expires_at now = leb expires_at now
