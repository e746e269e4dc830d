-- ===== src/Finance/Domain.antt =====
-- The arithmetic of courier accounts: apps/api/src/finance/finance-domain.ts. Amounts are piastres;
-- a `number` of the source that is an integer is an ℕ or a ℤ, and a date is its `getTime()`.
use wassal.Prelude.{
  ℕ, ◌+◌, ◌-◌, ◌*◌, ◌/◌, Bool, ◌&&◌, ◌||◌, List, [], ◌∷◌, min, ltb, leb, ◌==◌, Enum, ◌is◌, includes,
  filter, if◌then◌else◌, not, sum_by,
}
use wassal.Prelude.Int.{ℤ, pos, negsuc, ◌+ℤ◌, ◌-ℤ◌, pos_part, leb_ℤ}
use wassal.Prelude.Sort.{sort_by}
use wassal.Finance.Calendar.{days_remaining}

pub data LedgerType : Type 0 where
  commission_due external_payment adjustment_debit adjustment_credit waiver reversal : LedgerType

unfoldable pub LedgerType-discrete : Discrete LedgerType
LedgerType-discrete = hlevel

instance abbrev pub ledger_type_enum : Enum LedgerType
ledger_type_enum = record { same = LedgerType-discrete }

-- `Number.MAX_SAFE_INTEGER`.
abbrev pub max_safe_integer : ℕ
max_safe_integer = 9007199254740991

-- The outcome of a function that throws.
pub data Outcome {ℓ} (A : Type ℓ) : Type ℓ where
  done : A → Outcome A
  invalid_input overpayment unsafe_result : Outcome A

unfoldable pub round_basis_points : ℕ → ℕ → Outcome ℕ
round_basis_points amount_minor basis_points =
    if not (leb amount_minor max_safe_integer) || ltb 10000 basis_points
    then invalid_input
    else let result = (amount_minor * basis_points + 5000) / 10000 in
      if leb result max_safe_integer then done result else unsafe_result

pub record SettlementLineInput : Type 0 where
  pub type : LedgerType
  pub amount_minor : ℤ

-- `reduce((total, line) => total + line.amountMinor, 0)`.
unfoldable pub total_of : List SettlementLineInput → ℤ → ℤ
total_of [] total = total
total_of (line ∷ lines) total = total_of lines (total +ℤ line.amount_minor)

-- `Math.abs`.
abbrev pub abs : ℤ → ℕ
abs (pos n) = n
abs (negsuc n) = n + 1

pub record Projection : Type 0 where
  pub total_commission_due_minor : ℤ
  pub total_payments_minor : ℕ
  pub total_adjustments_minor : ℤ
  pub total_waived_minor : ℕ
  pub remaining_amount_minor : ℕ

unfoldable pub settlement_projection : List SettlementLineInput → ℕ → Projection
unfolding total_of
settlement_projection lines total_payments_minor =
    let commission = total_of (filter (λ line. line.type is commission_due) lines) (pos 0) in
    let adjustments =
      total_of
        (filter (λ line. includes (adjustment_debit ∷ adjustment_credit ∷ reversal ∷ []) line.type)
          lines)
        (pos 0) in
    let waived = abs (total_of (filter (λ line. line.type is waiver) lines) (pos 0)) in
    record {
      total_commission_due_minor = commission;
      total_payments_minor = total_payments_minor;
      total_adjustments_minor = adjustments;
      total_waived_minor = waived;
      remaining_amount_minor =
          pos_part (commission +ℤ adjustments -ℤ pos waived -ℤ pos total_payments_minor);
    }

pub record OpenSettlement : Type 0 where
  pub id : ℕ
  pub remaining_amount_minor : ℕ
  pub period_start : ℕ

pub record Allocation : Type 0 where
  pub settlement_period_id : ℕ
  pub amount_minor : ℕ

-- The comparison of the sort: by the start of the period, then by id.
abbrev pub settlement_before : OpenSettlement → OpenSettlement → Bool
settlement_before left right =
    if left.period_start == right.period_start
    then leb left.id right.id
    else ltb left.period_start right.period_start

-- The loop over the sorted settlements. With an allocation of 0 nothing is taken off `remaining`.
unfoldable pub allocate_from : ℕ → List OpenSettlement → List Allocation
allocate_from remaining [] = []
allocate_from remaining (settlement ∷ settlements) =
    let allocation = min remaining settlement.remaining_amount_minor in
    let rest = allocate_from (remaining - allocation) settlements in
    if remaining == 0
    then []
    else if ltb 0 allocation
    then record { settlement_period_id = settlement.id; amount_minor = allocation } ∷ rest
    else rest

unfoldable pub allocate_oldest_settlements : ℕ → List OpenSettlement → Outcome (List Allocation)
unfolding allocate_from
allocate_oldest_settlements amount_minor settlements =
    let available = sum_by (λ settlement. settlement.remaining_amount_minor) settlements in
    if not (leb amount_minor max_safe_integer) || amount_minor == 0
    then invalid_input
    else if ltb available amount_minor
    then overpayment
    else done (allocate_from amount_minor (sort_by settlement_before settlements))

pub data SettlementStatus : Type 0 where
  open_period closed not_due due_soon partially_paid paid overdue waived adjusted : SettlementStatus

unfoldable pub SettlementStatus-discrete : Discrete SettlementStatus
SettlementStatus-discrete = hlevel

instance abbrev pub settlement_status_enum : Enum SettlementStatus
settlement_status_enum = record { same = SettlementStatus-discrete }

-- `shown` is the operations' time zone, as in Finance/Calendar.
module _ (shown : ℕ → ℕ) where
  unfoldable pub settlement_status : Bool → Projection → ℕ → ℕ → SettlementStatus
  settlement_status is_open p due_at now =
      if is_open
      then open_period
      else if p.remaining_amount_minor == 0
      then if ltb 0 p.total_waived_minor && p.total_payments_minor == 0 then waived else paid
      else if ltb due_at now
      then overdue
      else if ltb 0 p.total_payments_minor
      then partially_paid
      else if not (abs p.total_adjustments_minor == 0) || ltb 0 p.total_waived_minor
      then adjusted
      else if leb_ℤ (days_remaining shown due_at now) (pos 2)
      then due_soon
      else not_due
