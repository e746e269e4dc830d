-- ===== src/PaymentProofs/Once.antt =====
-- A payment proof is approved at most once, and with it one payment is recorded: `approve` of
-- apps/api/src/payment-proofs/payment-proofs.service.ts.
use Prim.Native.String.{String}
use wassal.Prelude.{
  ℕ, ◌≤◌, ◌<◌, ◌≡◌, refl, ap, ◌∙◌, Bool, true, false, ◌&&◌, not, some, inl, inr, arith, is_some,
  Option-cases, ◌is◌, ◌==◌,
}
use wassal.Store.{
  Database, PaymentProof, PaymentProofStatus, PaymentProofStatus-discrete,
  payment_proof_status_enum,
}
use wassal.Store.Table.{get, update, get-update_self}
use wassal.Finance.Payments.{PaymentInput, record_external_payment_in_transaction}
use wassal.Operations.Domain.{payment_proof_approval}
use wassal.Service.Transaction.{ok, err, Result-cases, proof_reviewed_concurrently}
use wassal.Service.Queries.{courier_user}
use wassal.Books.Handlers.{record_in_transaction-posts}
use wassal.PaymentProofs.Review.{
  is_pending, ApproveInput, approval_status, approved_proof, approved_payment, approve_transaction,
  approve_proof,
}

module _ (shown : ℕ → ℕ) (user_id courier_id : ℕ) (input : PaymentInput)
    (key hash payment_id entry_id now : ℕ) (db : Database) where
  -- Recording a payment answers with its id, and leaves the proofs.
  record_in_transaction-leaves :
      {answer : ℕ} {db' : Database}
      → record_external_payment_in_transaction shown user_id courier_id input key hash payment_id
          entry_id now db
        ≡ ok (answer, db')
      → (answer ≡ payment_id) × (db'.payment_proofs ≡ db.payment_proofs)
  record_in_transaction-leaves h =
      let (_, _, _, same, left) =
        record_in_transaction-posts shown user_id courier_id input key hash payment_id entry_id now
          db h in
      (same, left)

module _ (shown : ℕ → ℕ) (is_blank : String → Bool) (user_id proof_id : ℕ) (input : ApproveInput)
    (key hash payment_id entry_id now : ℕ) (db db' : Database) where
  approve-cases :
      approve_transaction shown is_blank user_id proof_id input key hash payment_id entry_id now db
        ≡ ok db'
      → (current : PaymentProof) × (paid : Database) × (status : PaymentProofStatus) × (get proof_id
            db.payment_proofs
          ≡ some current)
        × ((is_pending input.version current && not (is_some current.linked_external_payment_id))
            ≡ true)
        × (record_external_payment_in_transaction shown user_id current.courier_id
              (approved_payment input current)
              key
              hash
              payment_id
              entry_id
              now
              db
            ≡ ok (payment_id, paid))
        × (approval_status (
              payment_proof_approval is_blank current.submitted_amount_minor
                input.approved_amount_minor input.reason)
            ≡ ok status)
        × (db'.payment_proofs
            ≡ update proof_id
                (approved_proof status input user_id payment_id now)
                db.payment_proofs)
        × (db'.accounts ≡ paid.accounts)
  unfolding approve_transaction
  approve-cases h = elim (Option-cases (get proof_id db.payment_proofs)) [
    | inl missing ↦ absurd (ground arith)
    | inr (current, at) ↦
        elim (Result-cases (
          record_external_payment_in_transaction shown user_id current.courier_id
            (approved_payment input current) key hash payment_id entry_id now db)) [
              | inl (e, refused) ↦ absurd (ground arith)
              | inr ((answer, paid), p) ↦
                  let (same, left) =
                    record_in_transaction-leaves shown user_id current.courier_id
                      (approved_payment input current) key hash payment_id entry_id now db p in
                  elim (Result-cases (
                    approval_status (
                      payment_proof_approval is_blank current.submitted_amount_minor
                        input.approved_amount_minor input.reason))) [
                          | inl (e, refused) ↦ absurd (ground arith)
                          | inr (status, st) ↦
                              elim (Option-cases (courier_user current.courier_id paid.couriers)) [
                                | inl unknown ↦ absurd (ground arith)
                                | inr (courier_user_id, u) ↦ (
                                  current,
                                  paid,
                                  status,
                                  at,
                                  ground arith,
                                  p ∙ ap (λ i. ok (i, paid)) same,
                                  st,
                                  ground arith,
                                  ground arith,
                                )
                              ]
                        ]
            ]
  ]

approval_status-bounds :
    (is_blank : String → Bool) (submitted_minor amount_minor : ℕ) (reason : _)
    {status : PaymentProofStatus}
    → approval_status (payment_proof_approval is_blank submitted_minor amount_minor reason)
      ≡ ok status
    → (0 < amount_minor)
      × (amount_minor ≤ submitted_minor)
      × ((status is PaymentProofStatus.approved) ≡ (amount_minor == submitted_minor))
      × ((status is PaymentProofStatus.pending_confirmation) ≡ false)
unfolding payment_proof_approval PaymentProofStatus-discrete
approval_status-bounds is_blank submitted_minor amount_minor reason h = ground arith

module _ (shown : ℕ → ℕ) (is_blank : String → Bool) (user_id proof_id : ℕ) (input : ApproveInput)
    (key hash payment_id entry_id now : ℕ) (db db' : Database) (again_user : ℕ)
    (again : ApproveInput) (again_key again_hash again_payment again_entry later : ℕ) where
  -- An approval that commits records one payment for the proof's courier, of an amount above 0 and not
  -- above the submitted one, and the proof then has it as its payment and is approved in whole exactly
  -- where the amounts are equal. After that, the transaction of any approval of the proof is refused,
  -- and `approve` changes nothing, whoever asks and with whatever version, amount and key.
  pub approve-once :
      approve_transaction shown is_blank user_id proof_id input key hash payment_id entry_id now db
        ≡ ok db'
      → (current proof' : PaymentProof) × (paid : Database) × (get proof_id db.payment_proofs
          ≡ some current)
        × (record_external_payment_in_transaction shown user_id current.courier_id
              (approved_payment input current)
              key
              hash
              payment_id
              entry_id
              now
              db
            ≡ ok (payment_id, paid))
        × (db'.accounts ≡ paid.accounts)
        × (0 < input.approved_amount_minor)
        × (input.approved_amount_minor ≤ current.submitted_amount_minor)
        × (get proof_id db'.payment_proofs ≡ some proof')
        × (proof'.linked_external_payment_id ≡ some payment_id)
        × (proof'.approved_amount_minor ≡ some input.approved_amount_minor)
        × ((proof'.status is PaymentProofStatus.approved)
            ≡ (input.approved_amount_minor == current.submitted_amount_minor))
        × (approve_transaction shown is_blank again_user proof_id again again_key again_hash
              again_payment again_entry later db'
            ≡ err proof_reviewed_concurrently)
        × (approve_proof shown is_blank again_user proof_id again again_key again_hash again_payment
              again_entry later db'
            ≡ ok db')
  unfolding approve_transaction approve_proof
  approve-once h =
      let (current, paid, status, at, may, p, st, proofs, accounts) =
        approve-cases shown is_blank user_id proof_id input key hash payment_id entry_id now db db'
          h in
      let (some_amount, at_most, whole, moved) =
        approval_status-bounds is_blank current.submitted_amount_minor input.approved_amount_minor
          input.reason st in
      let change = approved_proof status input user_id payment_id now in
      let after : get proof_id db'.payment_proofs ≡ some (change current) =
        ap (get proof_id) proofs ∙ get-update_self proof_id change db.payment_proofs at in
      (
        current,
        change current,
        paid,
        at,
        p,
        accounts,
        some_amount,
        at_most,
        after,
        refl,
        refl,
        whole,
        ground (arith, after, moved),
        ground (arith, after),
      )
