-- ===== src/Finance/Arithmetic.antt =====
-- The laws of `roundBasisPoints`, `settlementProjection` and `settlementStatus`.
use mathlib.Core.Path.{ap}
use native.Mathlib.Nat.{mul-le-mul_left}
use wassal.Prelude.{
  ℕ, ◌+◌, ◌*◌, ◌/◌, ◌≤◌, ◌<◌, ◌≡◌, ◌↔◌, refl, ◌∙◌, true, false, List, [], ◌∷◌, inl, inr, arith,
  ◌is◌, filter, includes, ◌⊎◌,
}
use wassal.Prelude.Int.{ℤ, pos, negsuc, ◌+ℤ◌, ◌-ℤ◌, pos_part, neg_part, int_laws}
use wassal.Finance.Domain.{
  done, round_basis_points, max_safe_integer, SettlementLineInput, commission_due, ledger_type_enum,
  LedgerType-discrete, total_of, settlement_projection, Projection, settlement_status_enum,
  settlement_status, paid, waived, overdue,
}

-- For a safe amount and at most 10000 basis points the rounding returns the share of the amount to the
-- nearest piastre, halves up, which is at most the amount.
pub round_basis_points-nearest :
    (amount points : ℕ)
    → amount ≤ max_safe_integer
    → points ≤ 10000
    → (share : ℕ) × (round_basis_points amount points ≡ done share)
      × (share ≤ amount)
      × (10000 * share ≤ amount * points + 5000)
      × (amount * points + 5000 < 10000 * share + 10000)
unfolding round_basis_points
round_basis_points-nearest amount points safe h =
    let bounded : amount * points ≤ amount * 10000 = mul-le-mul_left amount h in
    (
      (amount * points + 5000) / 10000,
      ground (arith, safe, h, bounded),
      omega (arith, bounded),
      omega arith,
      omega arith,
    )

module _ (shown : ℕ → ℕ) (p : Projection) (due_at now : ℕ) where
  -- A period that is not open is shown as paid or waived exactly when nothing remains on it, and as
  -- overdue exactly when something remains after the due date.
  pub settlement_status-settled :
      ((includes (paid ∷ waived ∷ []) (settlement_status shown false p due_at now) ≡ true)
        ↔ (p.remaining_amount_minor ≡ 0))
      × ((settlement_status shown false p due_at now ≡ overdue)
          ↔ ((0 < p.remaining_amount_minor) × (due_at < now)))
  unfolding settlement_status
  settlement_status-settled = (
    (λ h. ground arith, λ h. ground arith),
    (λ h. (ground arith, ground arith), λ h. ground arith),
  )

pub total_of-shift :
    (lines : List SettlementLineInput) (a b : ℤ) → total_of lines (a +ℤ b) ≡ a +ℤ total_of lines b
unfolding total_of
total_of-shift [] a b = refl
total_of-shift (line ∷ lines) a b =
    let same : a +ℤ b +ℤ line.amount_minor ≡ a +ℤ (b +ℤ line.amount_minor) = grind int_laws in
    rw same (total_of-shift lines a (b +ℤ line.amount_minor))

-- What a period owes before it is cut off at 0.
abbrev pub balance : Projection → ℤ
balance p =
    p.total_commission_due_minor
    +ℤ p.total_adjustments_minor
    -ℤ pos p.total_waived_minor
    -ℤ pos p.total_payments_minor

abbrev pub commission_line : ℕ → SettlementLineInput
commission_line amount = record { type = commission_due; amount_minor = pos amount }

raised :
    (b : ℤ) (amount : ℕ)
    → (pos_part (b +ℤ pos amount) ≤ pos_part b + amount)
      × ((pos_part (b +ℤ pos amount) ≡ pos_part b + amount) ↔ ((neg_part b ≡ 0) ⊎ (amount ≡ 0)))
unfolding ◌+ℤ◌
raised (pos n) amount = (ground arith, (λ h. inl refl, λ h. ground arith))
raised (negsuc n) amount = (ground arith, (λ h. inr (ground arith), λ h. ground (arith, h)))

remaining_of :
    (lines : List SettlementLineInput) (payments : ℕ)
    → (settlement_projection lines payments).remaining_amount_minor
      ≡ pos_part (balance (settlement_projection lines payments))
unfolding settlement_projection
remaining_of lines payments = refl

module _ (amount : ℕ) (lines : List SettlementLineInput) (payments : ℕ) where
  abbrev before : Projection
  before = settlement_projection lines payments

  abbrev after : Projection
  after = settlement_projection (commission_line amount ∷ lines) payments

  totals_after :
      (after.total_commission_due_minor ≡ pos amount +ℤ before.total_commission_due_minor)
      × (after.total_payments_minor ≡ before.total_payments_minor)
      × (after.total_adjustments_minor ≡ before.total_adjustments_minor)
      × (after.total_waived_minor ≡ before.total_waived_minor)
  unfolding settlement_projection LedgerType-discrete total_of
  totals_after =
      let swap : pos 0 +ℤ pos amount ≡ pos amount +ℤ pos 0 = grind int_laws in
      (
        rw swap (
            total_of-shift (filter (λ line. line.type is commission_due) lines) (pos amount)
              (pos 0)),
        refl,
        refl,
        refl,
      )

  -- A commission on a period raises what remains by its whole amount exactly when the period was not
  -- overpaid or the commission is 0, and by less otherwise; it leaves the other totals.
  pub settlement_projection-commission :
      (after.total_commission_due_minor ≡ pos amount +ℤ before.total_commission_due_minor)
      × (after.total_payments_minor ≡ before.total_payments_minor)
      × (after.total_adjustments_minor ≡ before.total_adjustments_minor)
      × (after.total_waived_minor ≡ before.total_waived_minor)
      × (after.remaining_amount_minor ≤ before.remaining_amount_minor + amount)
      × ((after.remaining_amount_minor ≡ before.remaining_amount_minor + amount)
          ↔ ((neg_part (balance before) ≡ 0) ⊎ (amount ≡ 0)))
  settlement_projection-commission =
      let (c, p, a, w) = totals_after in
      let balanced : balance after ≡ balance before +ℤ pos amount =
        rw (c, p, a, w) (grind int_laws) in
      let (most, exact) = raised (balance before) amount in
      let rest : after.remaining_amount_minor ≡ pos_part (balance before +ℤ pos amount) =
        remaining_of (commission_line amount ∷ lines) payments ∙ ap pos_part balanced in
      (
        c,
        p,
        a,
        w,
        rw rest (rw (remaining_of lines payments) most),
        rw (rest, remaining_of lines payments) exact,
      )
