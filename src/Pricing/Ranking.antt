-- ===== src/Pricing/Ranking.antt =====
-- When a pricing rule applies and which one comes first, apart from the code of `resolvePricingRule` of
-- apps/api/src/orders/order-domain.ts, and how the code decides it.
use wassal.Prelude.{
  ℕ, ◌≡◌, ◌≤◌, ◌<◌, ◌↔◌, is_some, Option, ◌==◌, ltb, refl, true, false, none, some, arith, inl, inr,
  ◌⊎◌,
}
use wassal.Pricing.Rules.{ResolvablePricingRule, is_applicable, rule_before}

-- The rule is of every zone or of this one, and in force at `now`.
abbrev pub Applies : ℕ → ℕ → ResolvablePricingRule → Type 0
Applies zone_id now rule =
    ((rule.service_zone_id ≡ none) ⊎ (rule.service_zone_id ≡ some zone_id))
    × (rule.effective_from ≤ now)
    × ((rule.effective_to ≡ none) ⊎ ((end : ℕ) × (rule.effective_to ≡ some end) × (now < end)))

-- `best` is of one zone and the other of every zone; or, where they agree in that, it has the higher
-- priority, then the later beginning, then the lower id, or is the same in all of it.
abbrev pub Outranks : ResolvablePricingRule → ResolvablePricingRule → Type 0
Outranks best rule =
    ((is_some best.service_zone_id ≡ true) × (is_some rule.service_zone_id ≡ false))
    ⊎ ((is_some best.service_zone_id ≡ is_some rule.service_zone_id)
        × ((rule.priority < best.priority)
            ⊎ ((best.priority ≡ rule.priority)
                × ((rule.effective_from < best.effective_from)
                    ⊎ ((best.effective_from ≡ rule.effective_from) × (best.id ≤ rule.id))))))

zone_fits :
    (zone : Option ℕ) (zone_id : ℕ)
    → (elim zone [ none ↦ true | some id ↦ id == zone_id ] ≡ true)
      ↔ ((zone ≡ none) ⊎ (zone ≡ some zone_id))
zone_fits none zone_id = (λ h. inl refl, λ e. refl)
zone_fits (some id) zone_id = (
  λ h. inr (ground arith),
  λ e. elim e [ inl missing ↦ absurd (ground arith) | inr same ↦ ground arith ],
)

end_ahead :
    (end : Option ℕ) (now : ℕ)
    → (elim end [ none ↦ true | some t ↦ ltb now t ] ≡ true)
      ↔ ((end ≡ none) ⊎ ((t : ℕ) × (end ≡ some t) × (now < t)))
end_ahead none now = (λ h. inl refl, λ e. refl)
end_ahead (some t) now = (
  λ h. inr (t, refl, ground arith),
  λ e. elim e [ inl missing ↦ absurd (ground arith) | inr (later, same, ahead) ↦ ground arith ],
)

pub is_applicable-Applies :
    (zone_id now : ℕ) (rule : ResolvablePricingRule)
    → (is_applicable zone_id now rule ≡ true) ↔ Applies zone_id now rule
is_applicable-Applies zone_id now rule = (
  λ h. (
    (zone_fits rule.service_zone_id zone_id).0 (ground arith),
    ground arith,
    (end_ahead rule.effective_to now).0 (ground arith),
  ),
  λ applies.
      let zone = (zone_fits rule.service_zone_id zone_id).1 applies.0 in
      let begun : rule.effective_from ≤ now = applies.1 in
      let end = (end_ahead rule.effective_to now).1 applies.2 in ground (arith, zone, begun, end),
)

pub rule_before-Outranks :
    (best rule : ResolvablePricingRule) → rule_before best rule ≡ true → Outranks best rule
rule_before-Outranks best rule h = ground arith

pub is_applicable-Applies_not :
    (zone_id now : ℕ) (rule : ResolvablePricingRule)
    → is_applicable zone_id now rule ≡ false
    → ¬ Applies zone_id now rule
is_applicable-Applies_not zone_id now rule out applies =
    let is_so = (is_applicable-Applies zone_id now rule).1 applies in
    absurd (ground (arith, out, is_so))
