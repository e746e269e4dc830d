-- ===== src/Admin/Shares.antt =====
-- A payment by zone: each zone gets its share rounded down or up (`attributePaymentsToZones` of
-- apps/api/src/admin/admin-operations-domain.ts).
use native.Mathlib.Nat.{mod-lt, add-mul, div-add-mod'}
use wassal.Prelude.{
  ℕ, ◌+◌, ◌-◌, ◌*◌, ◌≤◌, ◌<◌, ◌≡◌, ◌⊎◌, refl, ◌∙◌, false, List, [], ◌∷◌, ◌==◌, map, sum_by, All,
  arith, inl, inr, Bool-cases,
}
use wassal.Prelude.Sort.{sort_by, All-sort_by}
use wassal.Admin.Domain.{
  ZoneDue, Apportioned, apportion, apportioned_before, spread_remaining, apportion_payment,
  ZoneSettlementLine, ZonePaymentAllocation, dues_of_period, attributed_row, attribute_allocation,
}
use wassal.Admin.Zones.{apportion_payment-sum}

abbrev pub total_due : List ZoneDue → ℕ
total_due rows = sum_by (λ row. row.amount) rows

-- Something is due from a zone, in the list.
abbrev pub Has : List ZoneDue → ZoneDue → Type 0
Has [] due = ⊥
Has (row ∷ rows) due = (row ≡ due) ⊎ Has rows due

-- The proportional share of a zone with something due, rounded down or up.
pub record IsShare (amount : ℕ) (dues : List ZoneDue) (zone_id attributed : ℕ) : Type 0 where
  pub due : ZoneDue
  pub known : Has dues due
  pub of_zone : zone_id ≡ due.service_zone_id
  pub at_least : amount * due.amount < (attributed + 1) * total_due dues
  pub at_most : attributed * total_due dues ≤ amount * due.amount + total_due dues

record IsFloor (amount : ℕ) (dues : List ZoneDue) (row : Apportioned) : Type 0 where
  pub due : ZoneDue
  pub known : Has dues due
  pub of_zone : row.service_zone_id ≡ due.service_zone_id
  pub left : row.attributed_amount_minor * total_due dues + row.remainder ≡ amount * due.amount
  pub less : row.remainder < total_due dues

floors-are_floors :
    (amount : ℕ) (dues rows : List ZoneDue)
    → 0 < total_due dues
    → ((due : ZoneDue) → Has rows due → Has dues due)
    → All (IsFloor amount dues) (map (apportion amount (total_due dues)) rows)
floors-are_floors amount dues [] p sub = tt
floors-are_floors amount dues (row ∷ rows) p sub = (
  record {
    due = row;
    known = sub row (inl refl);
    of_zone = refl;
    left = div-add-mod' (amount * row.amount) (total_due dues);
    less = mod-lt (amount * row.amount) p;
  },
  floors-are_floors amount dues rows p (λ due h. sub due (inr h)),
)

IsFloor-IsShare :
    (amount : ℕ) (dues : List ZoneDue) (row : Apportioned)
    → 0 < total_due dues
    → IsFloor amount dues row
    → IsShare amount dues row.service_zone_id row.attributed_amount_minor
      × IsShare amount dues row.service_zone_id (row.attributed_amount_minor + 1)
IsFloor-IsShare amount dues row p f = (
  record {
    due = f.due;
    known = f.known;
    of_zone = f.of_zone;
    at_least =
        omega (arith, f.left, f.less, add-mul row.attributed_amount_minor 1 (total_due dues));
    at_most = omega (arith, f.left, p);
  },
  record {
    due = f.due;
    known = f.known;
    of_zone = f.of_zone;
    at_least = omega (
      arith,
      f.left,
      f.less,
      add-mul row.attributed_amount_minor 1 (total_due dues),
      add-mul (row.attributed_amount_minor + 1) 1 (total_due dues),
    );
    at_most = omega (arith, f.left, add-mul row.attributed_amount_minor 1 (total_due dues));
  },
)

-- The rows of the output, each with the share that it has.
abbrev pub AreShares : ℕ → List ZoneDue → List Apportioned → Type 0
AreShares amount dues rows =
    All (λ r. IsShare amount dues r.service_zone_id r.attributed_amount_minor) rows

IsFloor-AreShares :
    (amount : ℕ) (dues : List ZoneDue) (rows : List Apportioned)
    → 0 < total_due dues
    → All (IsFloor amount dues) rows
    → AreShares amount dues rows
IsFloor-AreShares amount dues [] p q = tt
IsFloor-AreShares amount dues (row ∷ rows) p q =
    ((IsFloor-IsShare amount dues row p q.0).0, IsFloor-AreShares amount dues rows p q.1)

spread_remaining-AreShares :
    (amount : ℕ) (dues : List ZoneDue) (remaining : ℕ) (rows : List Apportioned)
    → 0 < total_due dues
    → All (IsFloor amount dues) rows
    → AreShares amount dues (spread_remaining remaining rows)
unfolding spread_remaining
spread_remaining-AreShares amount dues remaining [] p q = tt
spread_remaining-AreShares amount dues remaining (row ∷ rows) p q =
    elim (Bool-cases (remaining == 0)) [
      | inl none_left ↦ rw none_left (IsFloor-AreShares amount dues (row ∷ rows) p q)
      | inr some_left ↦ rw some_left (
        (IsFloor-IsShare amount dues row p q.0).1,
        spread_remaining-AreShares amount dues (remaining - 1) rows p q.1,
      )
    ]

apportion_payment-AreShares :
    (amount : ℕ) (dues : List ZoneDue)
    → 0 < total_due dues
    → AreShares amount dues (apportion_payment amount dues)
unfolding apportion_payment
apportion_payment-AreShares amount dues p =
    let apportioned = map (apportion amount (total_due dues)) dues in
    let sorted = sort_by apportioned_before apportioned in
    let floors =
      All-sort_by apportioned_before (IsFloor amount dues) apportioned
        (floors-are_floors amount dues dues p (λ due h. h)) in
    let remaining = amount - sum_by (λ r. r.attributed_amount_minor) apportioned in
    let some_due : (total_due dues == 0) ≡ false = ground (arith, p) in
    rw some_due (spread_remaining-AreShares amount dues remaining sorted p floors)

module _ (lines : List ZoneSettlementLine) (allocation : ZonePaymentAllocation) where
  rows-sum :
      (rows : List Apportioned)
      → sum_by (λ x. x.attributed_amount_minor) (map (attributed_row allocation) rows)
        ≡ sum_by (λ r. r.attributed_amount_minor) rows
  rows-sum [] = refl
  rows-sum (row ∷ rows) = omega (arith, rows-sum rows)

  rows-shares :
      (amount : ℕ) (dues : List ZoneDue) (rows : List Apportioned)
      → AreShares amount dues rows
      → All
          (λ x. IsShare amount dues x.service_zone_id x.attributed_amount_minor)
          (map (attributed_row allocation) rows)
  rows-shares amount dues [] q = tt
  rows-shares amount dues (row ∷ rows) q = (q.0, rows-shares amount dues rows q.1)

  -- Where something is due from the zones of an allocation's period, the amounts that are attributed
  -- to zones add up to the allocation, and each of them is the zone's proportional share rounded down,
  -- or one more than that.
  pub attribute_allocation-whole :
      0 < total_due (dues_of_period allocation.settlement_period_id lines)
      → (sum_by (λ x. x.attributed_amount_minor) (attribute_allocation lines allocation)
          ≡ allocation.amount_minor)
        × All
            (λ x.
              IsShare allocation.amount_minor
                (dues_of_period allocation.settlement_period_id lines)
                x.service_zone_id
                x.attributed_amount_minor)
            (attribute_allocation lines allocation)
  unfolding attribute_allocation
  attribute_allocation-whole p =
      let dues = dues_of_period allocation.settlement_period_id lines in
      let rows = apportion_payment allocation.amount_minor dues in
      (
        rows-sum rows ∙ apportion_payment-sum allocation.amount_minor dues p,
        rows-shares allocation.amount_minor dues rows
            (apportion_payment-AreShares allocation.amount_minor dues p),
      )
