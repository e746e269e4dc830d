-- ===== src/Store/Proofs.antt =====
-- Receipts of payments outside the platform, and their reviews.
use Prim.Native.String.{String}
use wassal.Prelude.{ℕ, Option, Enum}

pub data PaymentProofStatus : Type 0 where
  pending_confirmation approved partially_approved rejected : PaymentProofStatus
  cancelled_by_courier superseded : PaymentProofStatus

unfoldable pub PaymentProofStatus-discrete : Discrete PaymentProofStatus
PaymentProofStatus-discrete = hlevel

instance abbrev pub payment_proof_status_enum : Enum PaymentProofStatus
payment_proof_status_enum = record { same = PaymentProofStatus-discrete }

-- `model CourierPaymentProof`, less its file.
pub record PaymentProof : Type 0 where
  pub courier_id : ℕ
  pub submitted_amount_minor : ℕ
  pub approved_amount_minor : Option ℕ
  pub paid_at : ℕ
  pub status : PaymentProofStatus
  pub review_reason : Option String
  pub reviewed_by_id : Option ℕ
  pub reviewed_at : Option ℕ
  pub linked_external_payment_id : Option ℕ
  pub version : ℕ

-- `model PaymentProofReview`.
pub record PaymentProofReview : Type 0 where
  pub payment_proof_id : ℕ
  pub actor_id : ℕ
  pub from_status : PaymentProofStatus
  pub to_status : PaymentProofStatus
  pub approved_amount_minor : Option ℕ
  pub reason : Option String
