-- ===== src/Admin/Zones.antt =====
-- A payment by zone: every piastre of it is attributed (`attributePaymentsToZones` of
-- apps/api/src/admin/admin-operations-domain.ts).
use native.Mathlib.Nat.{mod-lt, le_of_mul-le-mul_right, add-mul, mul-add, div-add-mod'}
use wassal.Prelude.{ℕ, ◌+◌, ◌-◌, ◌*◌, ◌/◌, ◌≤◌, ◌<◌, ◌≡◌, List, [], ◌∷◌, map, sum_by, arith}
use wassal.Prelude.Sort.{sort_by, sum-sort_by}
use wassal.Admin.Domain.{
  ZoneDue, Apportioned, apportion, apportioned_before, spread_remaining, apportion_payment,
}

floors_and_remainders :
    (amount total : ℕ) (rows : List ZoneDue)
    → sum_by (λ r. r.attributed_amount_minor) (map (apportion amount total) rows) * total
        + sum_by (λ r. r.remainder) (map (apportion amount total) rows)
      ≡ amount * sum_by (λ row. row.amount) rows
floors_and_remainders amount total [] = omega arith
floors_and_remainders amount total (row ∷ rows) =
    let floors = sum_by (λ r. r.attributed_amount_minor) (map (apportion amount total) rows) in
    omega (
      arith,
      add-mul (amount * row.amount / total) floors total,
      mul-add amount row.amount (sum_by (λ r. r.amount) rows),
      div-add-mod' (amount * row.amount) total,
      floors_and_remainders amount total rows,
    )

remainders_bounded :
    (amount total : ℕ) (rows : List ZoneDue)
    → 0 < total
    → sum_by (λ r. r.remainder) (map (apportion amount total) rows)
      ≤ sum_by (λ r. 1) (map (apportion amount total) rows) * total
remainders_bounded amount total [] p = omega arith
remainders_bounded amount total (row ∷ rows) p = omega (
  arith,
  add-mul 1 (sum_by (λ r. 1) (map (apportion amount total) rows)) total,
  mod-lt (amount * row.amount) p,
  remainders_bounded amount total rows p,
)

-- What the rounding leaves is at most one for each row.
remaining_bounded :
    (amount : ℕ) (rows : List ZoneDue)
    → let total = sum_by (λ row. row.amount) rows in
      let apportioned = map (apportion amount total) rows in
      0 < total
      → (sum_by (λ r. r.attributed_amount_minor) apportioned ≤ amount)
        × (amount
            ≤ sum_by (λ r. 1) apportioned + sum_by (λ r. r.attributed_amount_minor) apportioned)
remaining_bounded amount rows p =
    let total = sum_by (λ row. row.amount) rows in
    let apportioned = map (apportion amount total) rows in
    let floors = sum_by (λ r. r.attributed_amount_minor) apportioned in
    let count = sum_by (λ r. 1) apportioned in
    let whole = floors_and_remainders amount total rows in
    let few = remainders_bounded amount total rows p in
    (
      le_of_mul-le-mul_right (omega (arith, whole)) p,
      le_of_mul-le-mul_right (omega (arith, whole, few, add-mul count floors total)) p,
    )

spread_remaining-sum :
    (remaining : ℕ) (rows : List Apportioned)
    → remaining ≤ sum_by (λ r. 1) rows
    → sum_by (λ r. r.attributed_amount_minor) (spread_remaining remaining rows)
      ≡ remaining + sum_by (λ r. r.attributed_amount_minor) rows
unfolding spread_remaining
spread_remaining-sum remaining [] h = omega (arith, h)
spread_remaining-sum remaining (row ∷ rows) h =
    ground (arith, spread_remaining-sum (remaining - 1) rows)

pub apportion_payment-sum :
    (amount : ℕ) (rows : List ZoneDue)
    → 0 < sum_by (λ row. row.amount) rows
    → sum_by (λ r. r.attributed_amount_minor) (apportion_payment amount rows) ≡ amount
unfolding apportion_payment
apportion_payment-sum amount rows p =
    let apportioned = map (apportion amount (sum_by (λ row. row.amount) rows)) rows in
    let (at_most, at_least) = remaining_bounded amount rows p in
    let sorted = sort_by apportioned_before apportioned in
    let same = sum-sort_by apportioned_before (λ r. r.attributed_amount_minor) apportioned in
    let count = sum-sort_by apportioned_before (λ r. 1) apportioned in
    let remaining = amount - sum_by (λ r. r.attributed_amount_minor) apportioned in
    ground
      (arith, at_most, same, spread_remaining-sum remaining sorted (omega (arith, at_least, count)))
