-- ===== src/Finance/Accounts.antt =====
-- The tables of courier accounts in infrastructure/database/prisma/schema.prisma.
use native.Mathlib.Decide.{ℕ_discrete}
use wassal.Prelude.{ℕ, Option, List, Enum}
use wassal.Prelude.Int.{ℤ}
use wassal.Finance.Domain.{LedgerType, SettlementStatus}
use wassal.Store.Table.{Table}

-- The templates of `sourceKey`, which is unique.
pub data SourceKey : Type 0 where
  order_commission payment_entry payment_reversal : ℕ → SourceKey
  adjustment : ℕ → ℕ → SourceKey

unfoldable pub SourceKey-discrete : Discrete SourceKey
SourceKey-discrete = hlevel ℕ_discrete

instance abbrev pub source_key_enum : Enum SourceKey
source_key_enum = record { same = SourceKey-discrete }

-- `model CourierLedgerEntry`.
pub record LedgerEntry : Type 0 where
  pub courier_id : ℕ
  pub order_id : Option ℕ
  pub type : LedgerType
  pub amount_minor : ℤ
  pub source_key : SourceKey
  pub reverses_entry_id : Option ℕ
  pub created_by_id : Option ℕ
  pub occurred_at : ℕ

-- `model SettlementLine`.
pub record SettlementLine : Type 0 where
  pub settlement_period_id : ℕ
  pub ledger_entry_id : ℕ
  pub amount_minor : ℤ

-- `model SettlementPeriod`.
pub record SettlementPeriod : Type 0 where
  pub courier_id : ℕ
  pub period_start : ℕ
  pub period_end : ℕ
  pub due_at : ℕ
  pub total_commission_due_minor : ℤ
  pub total_payments_minor : ℕ
  pub total_adjustments_minor : ℤ
  pub total_waived_minor : ℕ
  pub remaining_amount_minor : ℕ
  pub status : SettlementStatus
  pub version : ℕ
  pub closed_at : Option ℕ

-- `model ExternalPaymentRecord`.
pub record ExternalPayment : Type 0 where
  pub courier_id : ℕ
  pub amount_minor : ℕ
  pub paid_at : ℕ
  pub created_by_id : ℕ
  pub idempotency_key : ℕ
  pub reverses_payment_id : Option ℕ

-- `model ExternalPaymentAllocation`.
pub record PaymentAllocation : Type 0 where
  pub payment_id : ℕ
  pub settlement_period_id : ℕ
  pub amount_minor : ℕ

pub record Accounts : Type 0 where
  pub ledger : Table LedgerEntry
  pub lines : List SettlementLine
  pub settlements : Table SettlementPeriod
  pub payments : Table ExternalPayment
  pub allocations : List PaymentAllocation
