-- ===== src/Operations/Domain.antt =====
-- The rules of delivery disputes and payment proofs: apps/api/src/operations/phase-four-domain.ts.
use Prim.Native.String.{String}
use wassal.Prelude.{
  ℕ, ◌+◌, ◌*◌, Bool, false, ◌&&◌, ◌||◌, Option, none, some, not, ltb, leb, ◌==◌, ◌is◌,
  if◌then◌else◌,
}
use wassal.Orders.Status.{OrderStatus, order_status_enum, delivered}

abbrev pub hour_ms : ℕ
hour_ms = 60 * 60 * 1000

-- `none` is the throw.
unfoldable pub delivery_dispute_deadline : ℕ → ℕ → Option ℕ
delivery_dispute_deadline delivered_at window_hours =
    if ltb window_hours 1 then none else some (delivered_at + window_hours * hour_ms)

-- `deadline !== null && deadline > now`.
abbrev pub is_after : Option ℕ → ℕ → Bool
is_after none now = false
is_after (some deadline) now = ltb now deadline

-- `deadline !== null && deadline <= now`.
abbrev pub has_passed : Option ℕ → ℕ → Bool
has_passed none now = false
has_passed (some deadline) now = leb deadline now

unfoldable pub dispute_window_is_active : OrderStatus → Option ℕ → ℕ → Bool → Bool
dispute_window_is_active status deadline now has_dispute =
    status is delivered && is_after deadline now && not has_dispute

unfoldable pub delivery_may_auto_complete : OrderStatus → Option ℕ → ℕ → Bool → Bool → Bool
delivery_may_auto_complete status deadline now has_open_dispute financial_finalized =
    status is delivered
    && has_passed deadline now
    && not has_open_dispute
    && not financial_finalized

pub data ProofApproval : Type 0 where
  approved partially_approved invalid_approved_amount partial_approval_reason_required :
      ProofApproval

-- `reason?.trim()` is truthy: `trim` of the platform is `is_blank` below.
module _ (is_blank : String → Bool) where
  abbrev pub has_reason : Option String → Bool
  has_reason none = false
  has_reason (some reason) = not (is_blank reason)

  unfoldable pub payment_proof_approval : ℕ → ℕ → Option String → ProofApproval
  payment_proof_approval submitted_amount_minor approved_amount_minor reason =
      if approved_amount_minor == 0 || ltb submitted_amount_minor approved_amount_minor
      then invalid_approved_amount
      else if not (approved_amount_minor == submitted_amount_minor) && not (has_reason reason)
      then partial_approval_reason_required
      else if approved_amount_minor == submitted_amount_minor
      then approved
      else partially_approved
