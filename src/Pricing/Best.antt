-- ===== src/Pricing/Best.antt =====
-- The rule that is chosen (`resolvePricingRule` of apps/api/src/orders/order-domain.ts).
use wassal.Prelude.{
  ℕ, ◌≡◌, refl, sym, true, false, none, some, List, [], ◌∷◌, filter, All, arith, Bool-cases, inl,
  inr, ◌⊎◌,
}
use mathlib.Core.Path.{subst}
use wassal.Prelude.Sort.{insert_by, sort_by}
use wassal.Pricing.Rules.{ResolvablePricingRule, is_applicable, rule_before, resolve_pricing_rule}
use wassal.Pricing.Ranking.{
  Applies, Outranks, is_applicable-Applies, is_applicable-Applies_not, rule_before-Outranks,
}

All-map :
    {P Q : ResolvablePricingRule → Type 0}
    → ((r : ResolvablePricingRule) → P r → Q r)
    → (rs : List ResolvablePricingRule) → All P rs
    → All Q rs
All-map f [] q = tt
All-map f (r ∷ rs) q = (f r q.0, All-map f rs q.1)

rule_before-total : (a b : ResolvablePricingRule) → rule_before a b ≡ false → rule_before b a ≡ true
rule_before-total a b h = ground arith

rule_before-transitive :
    (a b c : ResolvablePricingRule)
    → rule_before a b ≡ true
    → rule_before b c ≡ true
    → rule_before a c ≡ true
rule_before-transitive a b c h k = ground arith

rule_before_self : (a : ResolvablePricingRule) → rule_before a a ≡ true
rule_before_self a = ground arith

-- The rule is in the list.
abbrev pub IsIn : List ResolvablePricingRule → ResolvablePricingRule → Type 0
IsIn [] rule = ⊥
IsIn (r ∷ rs) rule = (r ≡ rule) ⊎ IsIn rs rule

-- The rule is in the list, and none of it stands in front.
record IsBest (best : ResolvablePricingRule) (rules : List ResolvablePricingRule) : Type 0 where
  pub member : IsIn rules best
  pub ahead : All (λ r. rule_before best r ≡ true) rules

All-before :
    (a b : ResolvablePricingRule) (rs : List ResolvablePricingRule)
    → rule_before a b ≡ true
    → All (λ r. rule_before b r ≡ true) rs
    → All (λ r. rule_before a r ≡ true) rs
All-before a b [] h q = tt
All-before a b (r ∷ rs) h q = (rule_before-transitive a b r h q.0, All-before a b rs h q.1)

-- The sorted list begins with the best rule.
sort-IsBest :
    (r : ResolvablePricingRule) (rs : List ResolvablePricingRule)
    → (best : ResolvablePricingRule) × (rest : List ResolvablePricingRule) × (sort_by rule_before
          (r ∷ rs)
        ≡ best ∷ rest)
      × IsBest best (r ∷ rs)
sort-IsBest r [] = (r, [], refl, record { member = inl refl; ahead = (rule_before_self r, tt) })
sort-IsBest r (x ∷ xs) =
    let (best, rest, sorted, q) = sort-IsBest x xs in
    elim (Bool-cases (rule_before r best)) [
      | inl first ↦ (
        r,
        best ∷ rest,
        rw (sorted, first) refl,
        record {
          member = inl refl;
          ahead = (rule_before_self r, All-before r best (x ∷ xs) first q.ahead);
        },
      )
      | inr later ↦ (
        best,
        insert_by rule_before r rest,
        rw (sorted, later) refl,
        record { member = inr q.member; ahead = (rule_before-total r best later, q.ahead) },
      )
    ]

List-cases : {A : Type 0} (xs : List A) → (xs ≡ []) ⊎ ((y : A) × (ys : List A) × (xs ≡ y ∷ ys))
List-cases [] = inl refl
List-cases (x ∷ xs) = inr (x, xs, refl)

module _ (zone_id now : ℕ) where
  -- Of the rules that the filter leaves, back to all of them.
  filter-ahead :
      (best : ResolvablePricingRule) (rules : List ResolvablePricingRule)
      → All (λ r. rule_before best r ≡ true) (filter (is_applicable zone_id now) rules)
      → All (λ r. (is_applicable zone_id now r ≡ false) ⊎ (rule_before best r ≡ true)) rules
  filter-ahead best [] q = tt
  filter-ahead best (r ∷ rs) q = elim (Bool-cases (is_applicable zone_id now r)) [
    | inl kept ↦
        let both : All (λ x. rule_before best x ≡ true)
            (r ∷ filter (is_applicable zone_id now) rs) =
          rw kept at q in
        (inr both.0, filter-ahead best rs both.1)
    | inr left ↦ (inl left, filter-ahead best rs (rw left at q))
  ]

  filter-member :
      (best : ResolvablePricingRule) (rules : List ResolvablePricingRule)
      → IsIn (filter (is_applicable zone_id now) rules) best
      → IsIn rules best × (is_applicable zone_id now best ≡ true)
  filter-member best [] q = absurd q
  filter-member best (r ∷ rs) q = elim (Bool-cases (is_applicable zone_id now r)) [
    | inl kept ↦
        let either : (r ≡ best) ⊎ IsIn (filter (is_applicable zone_id now) rs) best =
          rw kept at q in
        elim either [
          | inl same ↦ (inl same, subst (λ x. is_applicable zone_id now x ≡ true) same kept)
          | inr further ↦
              let (there, applies) = filter-member best rs further in (inr there, applies)
        ]
    | inr left ↦ let (there, applies) = filter-member best rs (rw left at q) in (inr there, applies)
  ]

  filter-none :
      (rules : List ResolvablePricingRule)
      → filter (is_applicable zone_id now) rules ≡ []
      → All (λ r. is_applicable zone_id now r ≡ false) rules
  filter-none [] h = tt
  filter-none (r ∷ rs) h = elim (Bool-cases (is_applicable zone_id now r)) [
    | inl kept ↦ absurd (ground (arith, kept))
    | inr left ↦ (left, filter-none rs (rw left at h))
  ]

  -- In the terms of the code.
  resolve_pricing_rule-sorted :
      (rules : List ResolvablePricingRule)
      → ((resolve_pricing_rule zone_id now rules ≡ none)
          × All (λ r. is_applicable zone_id now r ≡ false) rules)
        ⊎ ((best : ResolvablePricingRule) × (resolve_pricing_rule zone_id now rules ≡ some best)
            × IsIn rules best
            × (is_applicable zone_id now best ≡ true)
            × All (λ r. (is_applicable zone_id now r ≡ false) ⊎ (rule_before best r ≡ true)) rules)
  unfolding resolve_pricing_rule
  resolve_pricing_rule-sorted rules = elim (List-cases (filter (is_applicable zone_id now) rules)) [
    | inl empty ↦ inl (rw empty refl, filter-none rules empty)
    | inr (r, rs, some_left) ↦
        let (best, rest, sorted, q) = sort-IsBest r rs in
        let (there, applies) =
          filter-member best rules (subst (λ xs. IsIn xs best) (sym some_left) q.member) in
        inr (
          best,
          rw (some_left, sorted) refl,
          there,
          applies,
          filter-ahead best rules
              (subst (λ xs. All (λ x. rule_before best x ≡ true) xs) (sym some_left) q.ahead),
        )
  ]

  -- Either no rule applies to the zone at that time, and none is chosen; or the chosen rule is one of
  -- the rules and applies, and each of them does not apply or is outranked by it: a rule of the zone itself
  -- is chosen before one of every zone, then a higher priority, then a later beginning, then a lower id. A
  -- rule applies which is of every zone or of this one, has begun, and has no end or one still to come.
  pub resolve_pricing_rule-best :
      (rules : List ResolvablePricingRule)
      → ((resolve_pricing_rule zone_id now rules ≡ none) × All (λ r. ¬ Applies zone_id now r) rules)
        ⊎ ((best : ResolvablePricingRule) × (resolve_pricing_rule zone_id now rules ≡ some best)
            × IsIn rules best
            × Applies zone_id now best
            × All (λ r. ¬ Applies zone_id now r ⊎ Outranks best r) rules)
  resolve_pricing_rule-best rules = elim (resolve_pricing_rule-sorted rules) [
    | inl (unresolved, left) ↦
        inl (unresolved, All-map (λ r e. is_applicable-Applies_not zone_id now r e) rules left)
    | inr (best, chosen, there, applies, ahead) ↦ inr (
      best,
      chosen,
      there,
      (is_applicable-Applies zone_id now best).0 applies,
      All-map
          (λ r e. elim e [
            | inl out ↦ inl (is_applicable-Applies_not zone_id now r out)
            | inr first ↦ inr (rule_before-Outranks best r first)
          ])
          rules ahead,
    )
  ]
