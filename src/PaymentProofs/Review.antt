-- ===== src/PaymentProofs/Review.antt =====
-- The courier's cancellation of a payment proof, and the review of it by the finance administration:
-- `cancel`, `approve` and `reject` of apps/api/src/payment-proofs/payment-proofs.service.ts.
use Prim.Native.String.{String}
use wassal.Prelude.{
  ℕ, ◌+◌, Bool, ◌&&◌, ◌||◌, Option, none, some, ◌∷◌, [], not, ltb, ◌==◌, ◌is◌, is_some,
  if◌then◌else◌,
}
use wassal.Store.{
  Database, PaymentProof, PaymentProofReview, PaymentProofStatus, payment_proof_status_enum,
  pending_confirmation, rejected, cancelled_by_courier, DeduplicationKey,
}
use wassal.Store.Table.{get, update, matches}
use wassal.Operations.Domain.{ProofApproval, payment_proof_approval, has_reason}
use wassal.Finance.Payments.{PaymentInput, record_external_payment_in_transaction}
use wassal.Service.Transaction.{
  Result, ok, err, ◌>>=◌, ◌>>◌, require, found, courier_not_found, proof_not_found,
  proof_not_pending, proof_or_amount_invalid, proof_reason_required, proof_reviewed_concurrently,
}
use wassal.Service.Queries.{courier_user}
use wassal.Service.Writes.{notify_all}

-- The `where` of the updates: pending, at the version that the reviewer saw.
abbrev pub is_pending : ℕ → PaymentProof → Bool
is_pending version proof = proof.status is pending_confirmation && proof.version == version

-- The `data` of the update in `cancel`.
abbrev pub cancelled_proof : PaymentProof → PaymentProof
cancelled_proof proof = record proof { status = cancelled_by_courier; version = proof.version + 1 }

-- `cancel`, for the courier of the user.
unfoldable pub cancel_proof : ℕ → ℕ → ℕ → Database → Result Database
unfolding matches
cancel_proof courier_id proof_id version db = do
  proof ← found (get proof_id db.payment_proofs) proof_not_found
  require (proof.courier_id == courier_id) proof_not_found
  require
      (matches proof_id (λ p. p.courier_id == courier_id && is_pending version p) db.payment_proofs)
      proof_not_pending
  ok (record db { payment_proofs = update proof_id cancelled_proof db.payment_proofs })

-- What `paymentProofApproval` returns or throws.
abbrev pub approval_status : ProofApproval → Result PaymentProofStatus
approval_status ProofApproval.approved = ok PaymentProofStatus.approved
approval_status ProofApproval.partially_approved = ok PaymentProofStatus.partially_approved
approval_status ProofApproval.invalid_approved_amount = err proof_or_amount_invalid
approval_status ProofApproval.partial_approval_reason_required = err proof_reason_required

pub record ApproveInput : Type 0 where
  pub version : ℕ
  pub approved_amount_minor : ℕ
  pub reason : Option String

-- The `data` of the update in `approve`.
abbrev pub approved_proof :
    PaymentProofStatus → ApproveInput → ℕ → ℕ → ℕ → PaymentProof → PaymentProof
approved_proof status input user_id payment_id now proof = record proof {
  status = status;
  approved_amount_minor = some input.approved_amount_minor;
  review_reason = input.reason;
  reviewed_by_id = some user_id;
  reviewed_at = some now;
  linked_external_payment_id = some payment_id;
  version = proof.version + 1;
}

-- `paymentProofReview.create`.
abbrev pub proof_review : ℕ → ℕ → PaymentProofStatus → Option ℕ → Option String → PaymentProofReview
proof_review proof_id user_id status approved_amount_minor reason = record {
  payment_proof_id = proof_id;
  actor_id = user_id;
  from_status = pending_confirmation;
  to_status = status;
  approved_amount_minor = approved_amount_minor;
  reason = reason;
}

-- The amount and the date of the payment that `approve` records.
abbrev pub approved_payment : ApproveInput → PaymentProof → PaymentInput
approved_payment input proof = record {
  amount_minor = input.approved_amount_minor;
  paid_at = proof.paid_at;
}

-- `shown` is the operations' time zone, and `is_blank` says that `trim` leaves nothing of a text.
module _ (shown : ℕ → ℕ) (is_blank : String → Bool) where
  -- The transaction of `approve`, which records the payment with `key`. `payment_id` and `entry_id`
  -- are the ids of the rows that are created.
  unfoldable pub approve_transaction :
      ℕ → ℕ → ApproveInput → ℕ → ℕ → ℕ → ℕ → ℕ → Database → Result Database
  unfolding matches payment_proof_approval
  approve_transaction user_id proof_id input key hash payment_id entry_id now db = do
    current ← found (get proof_id db.payment_proofs) proof_reviewed_concurrently
    require (is_pending input.version current && not (is_some current.linked_external_payment_id))
        proof_reviewed_concurrently
    (payment, paid) ←
        record_external_payment_in_transaction shown user_id current.courier_id
          (approved_payment input current) key hash payment_id entry_id now db
    status ← approval_status (
        payment_proof_approval is_blank current.submitted_amount_minor input.approved_amount_minor
          input.reason)
    require
        (matches proof_id
          (λ p. is_pending input.version p && not (is_some p.linked_external_payment_id))
          paid.payment_proofs)
        proof_reviewed_concurrently
    courier_user_id ← found (courier_user current.courier_id paid.couriers) courier_not_found
    ok (record paid {
      payment_proofs =
          update proof_id (approved_proof status input user_id payment now) paid.payment_proofs;
      proof_reviews =
          proof_review proof_id user_id status (some input.approved_amount_minor) input.reason
          ∷ paid.proof_reviews;
      notifications =
          notify_all (DeduplicationKey.payment_proof proof_id status) (courier_user_id ∷ [])
            paid.notifications;
    })

  -- `approve`: the proof is read and checked, and then the transaction.
  unfoldable pub approve_proof :
      ℕ → ℕ → ApproveInput → ℕ → ℕ → ℕ → ℕ → ℕ → Database → Result Database
  approve_proof user_id proof_id input key hash payment_id entry_id now db =
      found (get proof_id db.payment_proofs) proof_not_found >>= (λ (proof : PaymentProof).
        if is_some proof.linked_external_payment_id then ok db else (do
          require
              (is_pending input.version proof
                && not (ltb proof.submitted_amount_minor input.approved_amount_minor))
              proof_or_amount_invalid
          require
              (input.approved_amount_minor == proof.submitted_amount_minor
                || has_reason is_blank input.reason)
              proof_reason_required
          approve_transaction user_id proof_id input key hash payment_id entry_id now db))

-- The `data` of the update in `reject`.
abbrev pub rejected_proof : Option String → ℕ → ℕ → PaymentProof → PaymentProof
rejected_proof reason user_id now proof = record proof {
  status = rejected;
  review_reason = reason;
  reviewed_by_id = some user_id;
  reviewed_at = some now;
  version = proof.version + 1;
}

-- The transaction of `reject`.
unfoldable pub reject_proof : ℕ → ℕ → ℕ → Option String → ℕ → Database → Result Database
unfolding matches
reject_proof user_id proof_id version reason now db = do
  proof ← found (get proof_id db.payment_proofs) proof_not_found
  require (matches proof_id (is_pending version) db.payment_proofs) proof_not_pending
  courier_user_id ← found (courier_user proof.courier_id db.couriers) courier_not_found
  ok (record db {
    payment_proofs = update proof_id (rejected_proof reason user_id now) db.payment_proofs;
    proof_reviews = proof_review proof_id user_id rejected none reason ∷ db.proof_reviews;
    notifications =
        notify_all (DeduplicationKey.payment_proof proof_id rejected) (courier_user_id ∷ [])
          db.notifications;
  })
